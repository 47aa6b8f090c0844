-- ===== src/ReadersWriters/Deadlock.antt =====
-- States in which no thread round the object can move but by a spurious wakeup.
use agh_systems_programming.Common.{
  ℕ, ◌<◌, ◌≡◌, ◌≢◌, ◌⊎◌, refl, Bool, true, false, List, arith, ℕ_discrete, Bool-cases, inl, inr,
}
use agh_systems_programming.Common.Family.{total_pos, le-total}
use agh_systems_programming.ReadersWriters.{
  Protocol, Place, outside, counted, reading, leaving, testing, waiting, woken, working, Task,
  reads, writes, Thread, Event, System, Step, enter, first, follow, leave, last, quit, lock, wait,
  pass, wake, relock, work_done,
}
use agh_systems_programming.ReadersWriters.Tally.{
  is_inside, is_reading, is_counted, is_leaving, tally,
}
use agh_systems_programming.ReadersWriters.Invariant.{Laws, Locked}
use agh_systems_programming.ReadersWriters.Waits.{Waits}

-- Is the step a thread's waking with no broadcast?
abbrev pub spurious :
    {protocol : Protocol} {n : ℕ} {s t : System protocol} {e : Event protocol.Job}
    → Step protocol n s e t
    → Bool
spurious (wake i lt at) = true
spurious _ = false

abbrev pub Stuck : {protocol : Protocol} → ℕ → System protocol → Type 0
Stuck {protocol} n s =
    (e : Event protocol.Job) (t : System protocol) (step : Step protocol n s e t)
    → spurious step ≡ true

Task-cases : {Job : Type 0} (t : Task Job) → (t ≡ reads) ⊎ ((j : Job) × (t ≡ writes j))
Task-cases reads = inl refl
Task-cases (writes j) = inr (j, refl)

one_left :
    (p : Place)
    → p ≢ outside
    → p ≢ counted
    → p ≢ reading
    → p ≢ leaving
    → p ≢ testing
    → p ≢ woken
    → p ≢ working
    → p ≡ waiting
one_left waiting a b c d e f g = refl
one_left outside a b c d e f g = absurd (a refl)
one_left counted a b c d e f g = absurd (b refl)
one_left reading a b c d e f g = absurd (c refl)
one_left leaving a b c d e f g = absurd (d refl)
one_left testing a b c d e f g = absurd (e refl)
one_left woken a b c d e f g = absurd (f refl)
one_left working a b c d e f g = absurd (g refl)

module _ {protocol : Protocol} {laws : Laws protocol} (n : ℕ) (s : System protocol)
    {es : List (protocol.Job × ℕ)} (locked : Locked n s) (inv : Waits laws n es s)
    (stuck : Stuck n s) where
  open protocol use {Shared, Job, endless, blocked, work}

  impossible :
      {e : Event Job} {t : System protocol} (step : Step protocol n s e t) → spurious step ≢ false
  impossible {e = e} {t = t} step h = let k = stuck e t step in absurd (ground arith)

  at_test : (i : ℕ) → i < n → (s.thread i).place ≢ testing
  at_test i lt at = elim (Task-cases (s.thread i).task) [
    | inl r ↦ absurd (ground (arith, inv.own i))
    | inr (j, task) ↦ elim (Bool-cases (blocked j s.shared)) [
      | inl stays ↦ absurd (impossible (wait i j lt task at stays) refl)
      | inr passes ↦ absurd (impossible (pass i j lt task at passes) refl)
    ]
  ]

  at_work : (i : ℕ) → i < n → (s.thread i).place ≢ working
  at_work i lt at = elim (Task-cases (s.thread i).task) [
    | inl r ↦ absurd (ground (arith, inv.own i))
    | inr (j, task) ↦ absurd (impossible (work_done i 0 j lt task at) refl)
  ]

  at_exit : (i : ℕ) → i < n → (s.thread i).place ≢ leaving
  at_exit i lt at = elim (ℕ_discrete s.readers_count 0) [
    | yes none_left ↦ absurd (impossible (last i lt at none_left) refl)
    | no some_left ↦ absurd (impossible (quit i lt at some_left) refl)
  ]

  -- What no thread does weighs nothing.
  weightless :
      (w : Place → ℕ) → ((i : ℕ) → i < n → w (s.thread i).place ≡ 0) → tally w n s.thread ≡ 0
  weightless w h = elim (ℕ_discrete (tally w n s.thread) 0) [
    | yes e ↦ e
    | no some_one ↦
        let (i, lt, pos) = total_pos (λ (t : Thread Job). w t.place) n s.thread (omega arith) in
        absurd (omega (arith, h i lt))
  ]

  nobody_inside : tally is_inside n s.thread ≡ 0
  nobody_inside = weightless is_inside (λ i lt. ground (arith, at_test i lt, at_work i lt))

  nobody_leaving : tally is_leaving n s.thread ≡ 0
  nobody_leaving = weightless is_leaving (λ i lt. ground (arith, at_exit i lt))

  first_free :
      (i : ℕ) → i < n → (s.thread i).place ≡ counted → s.readers_count ≡ 1 → s.writer_mutex ≡ false
  first_free i lt at one = ground (
    arith,
    nobody_inside,
    nobody_leaving,
    locked.counts,
    locked.writer_locked,
    le-total (λ t. is_counted t.place) n s.thread i lt,
  )

  at_entry : (i : ℕ) → i < n → (s.thread i).place ≢ counted
  at_entry i lt at = elim (ℕ_discrete s.readers_count 1) [
    | no more ↦ absurd (impossible (follow i lt at more) refl)
    | yes one ↦ absurd (impossible (first i lt at one (first_free i lt at one)) refl)
  ]

  reader_free : s.reader_mutex ≡ false
  reader_free =
      let nobody = weightless is_counted (λ i lt. ground (arith, at_entry i lt)) in
      ground (arith, nobody, nobody_leaving, locked.reader_locked)

  at_read : (i : ℕ) → i < n → (s.thread i).place ≢ reading
  at_read i lt at = absurd (impossible (leave i lt at reader_free) refl)

  writer_free : s.writer_mutex ≡ false
  writer_free =
      let nobody = weightless is_reading (λ i lt. ground (arith, at_read i lt)) in
      ground (arith, nobody, nobody_inside, nobody_leaving, locked.writer_locked)

  at_start : (i : ℕ) → i < n → 0 < (s.thread i).runs → (s.thread i).place ≢ outside
  at_start i lt left at = elim (Task-cases (s.thread i).task) [
    | inl r ↦ absurd (impossible (enter i lt r at left reader_free) refl)
    | inr (j, task) ↦ absurd (impossible (lock i j lt task at left writer_free) refl)
  ]

  still_waiting : (i : ℕ) → i < n → 0 < (s.thread i).runs → (s.thread i).place ≡ waiting
  still_waiting i lt left =
      one_left (s.thread i).place (at_start i lt left) (at_entry i lt) (at_read i lt) (at_exit i lt)
        (at_test i lt) (λ at. impossible (relock i lt at writer_free) refl) (at_work i lt)

  -- In such a state a thread with a call left is not a reader, and waits for good reason.
  pub stuck_waiting :
      (i : ℕ)
      → i < n
      → 0 < (s.thread i).runs
      → (j : Job) × ((s.thread i).task ≡ writes j) × (blocked j s.shared ≡ true)
  stuck_waiting i lt left =
      let at = still_waiting i lt left in
      elim (Task-cases (s.thread i).task) [
        | inl r ↦ absurd (ground (arith, inv.own i))
        | inr (j, task) ↦ (j, task, inv.sleeping i j task at)
      ]
