-- ===== src/Linked/Interleaved/Totals.antt =====
-- `total_length` and the bytes in the list.
use agh_systems_programming.Common.{
  ℕ, ◌+◌, ◌<◌, ◌≤◌, ◌≡◌, refl, true, false, List, [], ◌∷◌, ◌++◌, ◌==◌, Bool-cases, inl, inr, arith,
}
use agh_systems_programming.Common.Family.{update, total, total-update, total-zero}
use agh_systems_programming.Common.Outcome.{u64}
use agh_systems_programming.Common.User.{UserAccess}
use agh_systems_programming.Linked.Segments.{Segment, size}
use agh_systems_programming.Linked.Interleaved.{
  Discipline, Node, segments, start, asked, walking, left, filled, linked, loaded, cleaning,
  finished, Thread, System, goto,
}
use agh_systems_programming.Linked.Interleaved.Run.{
  Step, read_behind, read_ask, read_interrupted, read_lock, read_onward, read_full, read_failed,
  read_end, read_freed, read_return, write_return, write_no_memory, write_bad_copy, write_fill,
  write_clear, write_interrupted, write_link, write_load, write_store, clean_one, clean_freed,
  clean_end, Reach, here, next, clears, quiet,
}
use agh_systems_programming.Linked.Interleaved.Walks.{Sound, not_cleaning, Fresh, Fresh-Sound}
use agh_systems_programming.Linked.Interleaved.Snapshot.{Reach-Sound}

-- The bytes that a thread has linked and not begun to add.
abbrev pending : Thread → ℕ
pending t = elim t.place [
  | linked d ↦ d.length
  | start ↦ 0
  | asked ↦ 0
  | walking c r ↦ 0
  | left r ↦ 0
  | filled d ↦ 0
  | loaded d v ↦ 0
  | cleaning c ↦ 0
  | finished r ↦ 0
]

-- What a thread is about to write to `total_length`.
abbrev promised : Thread → ℕ
promised t = elim t.place [
  | loaded d v ↦ v + d.length
  | start ↦ 0
  | asked ↦ 0
  | walking c r ↦ 0
  | left r ↦ 0
  | filled d ↦ 0
  | linked d ↦ 0
  | cleaning c ↦ 0
  | finished r ↦ 0
]

abbrev pub bytes : System → ℕ
bytes s = size (segments s.buffer)

record Within (n : ℕ) (s : System) : Type 0 where
  now : s.total_length + total pending n s.thread ≤ bytes s
  later : (k : ℕ) → k < n → promised (s.thread k) + total pending n s.thread ≤ bytes s

-- A thread moves that neither adds bytes nor is to add them.
move-Within :
    (n : ℕ) (s : System) (i : ℕ) (u : Thread) {read_count write_count readers : ℕ}
    → i < n
    → Within n s
    → pending u ≡ pending (s.thread i)
    → promised u ≡ 0
    → Within n (record s {
      read_count = read_count;
      write_count = write_count;
      readers = readers;
      thread = update s.thread i u;
    })
move-Within n s i u lt h same nothing =
    let m = total-update pending n s.thread i u lt in
    record {
      now = omega (arith, h.now);
      later = λ k below. elim (Bool-cases (k == i)) [
        | inl e ↦ rw e (omega (arith, h.now))
        | inr ne ↦ rw ne (omega (arith, h.later k below))
      ];
    }

size-append :
    (xs : List Node) (y : Node)
    → size (segments (xs ++ y ∷ [])) ≡ size (segments xs) + y.segment.length
size-append [] y = omega arith
size-append (x ∷ xs) y = omega (arith, size-append xs y)

link-Within :
    (n : ℕ) (s : System) (i : ℕ) (d : Segment)
    → i < n
    → Within n s
    → pending (s.thread i) ≡ 0
    → Within n (record s {
      buffer = s.buffer ++ record { address = s.allocated; segment = d } ∷ [];
      allocated = s.allocated + 1;
      thread = goto s i (linked d);
    })
link-Within n s i d lt h idle =
    let m = total-update pending n s.thread i (record (s.thread i) { place = linked d }) lt in
    let more = size-append s.buffer (record { address = s.allocated; segment = d }) in
    record {
      now = omega (arith, h.now);
      later = λ k below. elim (Bool-cases (k == i)) [
        | inl e ↦ rw e (omega (arith, h.now))
        | inr ne ↦ rw ne (omega (arith, h.later k below))
      ];
    }

load-Within :
    (n : ℕ) (s : System) (i : ℕ) (d : Segment)
    → i < n
    → Within n s
    → pending (s.thread i) ≡ d.length
    → Within n (record s { thread = goto s i (loaded d s.total_length) })
load-Within n s i d lt h mine =
    let m =
      total-update pending n s.thread i (record (s.thread i) { place = loaded d s.total_length })
        lt in
    record {
      now = omega (arith, h.now);
      later = λ k below. elim (Bool-cases (k == i)) [
        | inl e ↦ rw e (omega (arith, h.now))
        | inr ne ↦ rw ne (omega (arith, h.later k below))
      ];
    }

store-Within :
    (n : ℕ) (s : System) (i v : ℕ) (d : Segment) (u : Thread)
    → i < n
    → Within n s
    → pending (s.thread i) ≡ 0
    → promised (s.thread i) ≡ v + d.length
    → pending u ≡ 0
    → promised u ≡ 0
    → Within n (record s { total_length = u64 (v + d.length); thread = update s.thread i u })
store-Within n s i v d u lt h idle mine idle' nothing =
    let m = total-update pending n s.thread i u lt in
    let bound = h.later i lt in
    let small : u64 (v + d.length) ≤ v + d.length = omega arith in
    record {
      now = omega (arith, small);
      later = λ k below. elim (Bool-cases (k == i)) [
        | inl e ↦ rw e (omega (arith, h.now))
        | inr ne ↦ rw ne (omega (arith, h.later k below))
      ];
    }

module _ (user : UserAccess) (discipline : Discipline) (n : ℕ) where
  Step-Within :
      (s t : System)
      → Sound user s
      → Within n s
      → (step : Step user discipline n s t) → clears user step ≡ false
      → Within n t
  Step-Within s t sound h (read_behind i lt reader at less) still =
      move-Within n s i _ lt h (rw at refl) refl
  Step-Within s t sound h (read_ask i lt reader at le) still =
      move-Within n s i _ lt h (rw at refl) refl
  Step-Within s t sound h (read_interrupted i lt at signal) still =
      move-Within n s i _ lt h (rw at refl) refl
  Step-Within s t sound h (read_lock i lt at free) still =
      move-Within n s i _ lt h (rw at refl) refl
  Step-Within s t sound h (read_onward i c r r' x rest lt at there goes) still =
      move-Within n s i _ lt h (rw at refl) refl
  Step-Within s t sound h (read_full i c r r' x rest lt at there goes) still =
      move-Within n s i _ lt h (rw at refl) refl
  Step-Within s t sound h (read_failed i c r r' x rest lt at there goes) still =
      move-Within n s i _ lt h (rw at refl) refl
  Step-Within s t sound h (read_end i c r lt at there) still =
      move-Within n s i _ lt h (rw at refl) refl
  Step-Within s t sound h (read_return i r lt at) still = move-Within n s i _ lt h (rw at refl) refl
  Step-Within s t sound h (write_return i lt writer at done) still =
      move-Within n s i _ lt h (rw at refl) refl
  Step-Within s t sound h (write_no_memory i lt writer at more) still =
      move-Within n s i _ lt h (rw at refl) refl
  Step-Within s t sound h (write_bad_copy i lt writer at more part) still =
      move-Within n s i _ lt h (rw at refl) refl
  Step-Within s t sound h (write_fill i lt writer at more copied plain) still =
      move-Within n s i _ lt h (rw at refl) refl
  Step-Within s t sound h (write_interrupted i d lt at signal) still =
      move-Within n s i _ lt h (rw at refl) refl
  Step-Within s t sound h (read_freed i c r lt at gone) still = record {
    now = h.now;
    later = h.later;
  }
  Step-Within s t sound h (write_clear i lt writer at more copied command) still = cc
  Step-Within s t sound h (write_link i d lt at free) still = link-Within n s i d lt h (rw at refl)
  Step-Within s t sound h (write_load i d lt at) still = load-Within n s i d lt h (rw at refl)
  Step-Within s t sound h (write_store i v d lt at) still =
      store-Within n s i v d _ lt h (rw at refl) (rw at refl) refl refl
  Step-Within s t sound h (clean_one i a rest lt at there) still =
      absurd (not_cleaning user s i sound at)
  Step-Within s t sound h (clean_freed i a lt at gone) still =
      absurd (not_cleaning user s i sound at)
  Step-Within s t sound h (clean_end i lt at) still = absurd (not_cleaning user s i sound at)

  Reach-Within :
      (s t : System)
      → Fresh s
      → Within n s
      → (run : Reach user discipline n s t) → quiet user run ≡ true
      → Within n t
  Reach-Within s t fresh h here still = h
  Reach-Within s t fresh h (next {t = u} before step) still =
      let quiet_before : quiet user before ≡ true = ground arith in
      Step-Within u t
        (Reach-Sound user discipline n s u (Fresh-Sound user s fresh) before quiet_before)
        (Reach-Within s u fresh h before quiet_before) step (ground arith)

  Fresh-Within : (s : System) → Fresh s → s.total_length ≤ bytes s → Within n s
  Fresh-Within s fresh le =
      let none = total-zero pending n s.thread (λ k. rw (fresh.waiting k) refl) in
      record {
        now = omega (arith, none);
        later = λ k below. let e = fresh.waiting k in rw e (omega (arith, none));
      }

  -- Calls of the driver by several threads at once, in any of its copies, with no clearing of the list.
  -- From a driver where no call of these threads has begun, and where `total_length` is no more than the
  -- number of bytes in the list, it is never more than that, however the steps of the calls interleave.
  pub total_length_bounded :
      (s t : System)
      → Fresh s
      → s.total_length ≤ bytes s
      → (run : Reach user discipline n s t) → quiet user run ≡ true
      → t.total_length ≤ bytes t
  total_length_bounded s t fresh le run still =
      let h = Reach-Within s t fresh (Fresh-Within s fresh le) run still in omega (arith, h.now)
