-- ===== src/ReadersWriters/Invariant.antt =====
-- What every interleaving of the threads round one object keeps.
use agh_systems_programming.Common.{
  ℕ, ◌+◌, ◌≡◌, Bool, true, false, List, ◌∷◌, ltb, if◌then◌else◌, arith,
}
use agh_systems_programming.ReadersWriters.{
  Protocol, counted, reading, leaving, testing, waiting, woken, working, Event, System, run, Step,
  enter, first, follow, leave, last, quit, lock, wait, pass, wake, relock, work_done,
}
use agh_systems_programming.ReadersWriters.Tally.{
  is_counted, is_reading, is_leaving, is_inside, tally, goto-Moved, finish-Moved, work-Moved,
}

-- What the threads rely on of the calls that work on the object: `History` relates what was done to the
-- object, and a call that does not broadcast leaves blocked what was blocked.
pub record Laws (protocol : Protocol) : Type 1 where
  pub Allowed : protocol.Job → Type 0
  pub History : List (protocol.Job × ℕ) → protocol.Shared → Type 0
  pub work-History :
      (j : protocol.Job) (v : ℕ) (es : List (protocol.Job × ℕ)) (b : protocol.Shared)
      → Allowed j
      → History es b
      → protocol.blocked j b ≡ false
      → History ((j, v) ∷ es) (protocol.work j v b).0
  pub work-blocked :
      (j : protocol.Job) (v : ℕ) (b : protocol.Shared) (k : protocol.Job)
      → protocol.blocked j b ≡ false
      → (protocol.work j v b).1 ≡ false
      → protocol.blocked k b ≡ true
      → protocol.blocked k (protocol.work j v b).0 ≡ true

abbrev pub bit : Bool → ℕ
bit true = 1
bit false = 0

-- Do readers hold the writers' mutex, of whom so many are admitted and so many leave?
abbrev pub held : ℕ → ℕ → ℕ
held r l = if ltb 0 (r + l) then 1 else 0

-- The two mutexes and the count, by where the threads stand.
pub record Locked {protocol : Protocol} (n : ℕ) (s : System protocol) : Type 0 where
  pub reader_locked : tally is_counted n s.thread + tally is_leaving n s.thread ≡ bit s.reader_mutex
  pub counts : s.readers_count ≡ tally is_counted n s.thread + tally is_reading n s.thread
  pub writer_locked :
      tally is_inside n s.thread + held (tally is_reading n s.thread) (tally is_leaving n s.thread)
      ≡ bit s.writer_mutex

module _ {protocol : Protocol} (n : ℕ) where
  open protocol use {Shared, Job, endless, blocked, work}

  pub Step-Locked :
      (s t : System protocol) {e : Event Job} → Locked n s → Step protocol n s e t → Locked n t
  Step-Locked s t inv (enter i lt task at left free) =
      let m = goto-Moved n s.thread i at lt counted in ground arith
  Step-Locked s t inv (first i lt at one free) =
      let m = goto-Moved n s.thread i at lt reading in ground arith
  Step-Locked s t inv (follow i lt at more) =
      let m = goto-Moved n s.thread i at lt reading in ground arith
  Step-Locked s t inv (leave i lt at free) =
      let m = goto-Moved n s.thread i at lt leaving in ground arith
  Step-Locked s t inv (last i lt at none_left) =
      let m = finish-Moved n s.thread i at lt in ground arith
  Step-Locked s t inv (quit i lt at some_left) =
      let m = finish-Moved n s.thread i at lt in ground arith
  Step-Locked s t inv (lock i j lt task at left free) =
      let m = goto-Moved n s.thread i at lt testing in ground arith
  Step-Locked s t inv (wait i j lt task at h) =
      let m = goto-Moved n s.thread i at lt waiting in ground arith
  Step-Locked s t inv (pass i j lt task at h) =
      let m = goto-Moved n s.thread i at lt working in ground arith
  Step-Locked s t inv (wake i lt at) = let m = goto-Moved n s.thread i at lt woken in ground arith
  Step-Locked s t inv (relock i lt at free) =
      let m = goto-Moved n s.thread i at lt testing in ground arith
  Step-Locked s t inv (work_done i v j lt task at) =
      let all = (work j v s.shared).1 in
      let m = work-Moved n s.thread i (run protocol j (s.thread i).runs) all lt at in ground arith
