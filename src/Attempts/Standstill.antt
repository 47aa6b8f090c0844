-- ===== src/Attempts/Standstill.antt =====
-- States in which no thread can move but by a writer's attempt that fails.
use agh_systems_programming.Common.{
  ℕ, ◌<◌, ◌≡◌, ◌≢◌, ◌⊎◌, inl, inr, refl, Bool, true, false, arith, ℕ_discrete, Bool-cases,
}
use agh_systems_programming.Common.Family.{total_pos}
use agh_systems_programming.Attempts.{
  Place, outside, entering, reading, leaving, writing, Task, reads, writes, System, busy, is_full,
  Step, write_refused, write_start, write_end, read_start, read_busy, read_full, read_admit,
  read_leave, read_end,
}
use agh_systems_programming.Attempts.Exclusion.{
  Locked, is_entering, is_writing, is_reading, is_leaving, tally, shut_out,
}

-- Is the step a writer's attempt that fails?
abbrev pub refused : {n size : ℕ} {s t : System} → Step n size s t → Bool
refused (write_refused i o lt in_array task there left locked) = true
refused _ = false

abbrev pub Stuck : (n size : ℕ) → System → Type 0
Stuck n size s = (t : System) (step : Step n size s t) → refused step ≡ true

pub Task-cases : (t : Task) → (t ≡ reads) ⊎ (t ≡ writes)
Task-cases reads = inl refl
Task-cases writes = inr refl

one_left :
    (p : Place)
    → ((k : ℕ) → p ≢ entering k)
    → ((k : ℕ) → p ≢ reading k)
    → ((k : ℕ) → p ≢ leaving k)
    → ((k : ℕ) → p ≢ writing k)
    → p ≡ outside
one_left outside a b c d = refl
one_left (entering k) a b c d = absurd (a k refl)
one_left (reading k) a b c d = absurd (b k refl)
one_left (leaving k) a b c d = absurd (c k refl)
one_left (writing k) a b c d = absurd (d k refl)

is_entering-zero : (o : ℕ) (p : Place) → ((k : ℕ) → p ≢ entering k) → is_entering o p ≡ 0
is_entering-zero o outside h = refl
is_entering-zero o (entering k) h = absurd (h k refl)
is_entering-zero o (reading k) h = refl
is_entering-zero o (leaving k) h = refl
is_entering-zero o (writing k) h = refl

is_reading-zero : (o : ℕ) (p : Place) → ((k : ℕ) → p ≢ reading k) → is_reading o p ≡ 0
is_reading-zero o outside h = refl
is_reading-zero o (entering k) h = refl
is_reading-zero o (reading k) h = absurd (h k refl)
is_reading-zero o (leaving k) h = refl
is_reading-zero o (writing k) h = refl

is_leaving-zero : (o : ℕ) (p : Place) → ((k : ℕ) → p ≢ leaving k) → is_leaving o p ≡ 0
is_leaving-zero o outside h = refl
is_leaving-zero o (entering k) h = refl
is_leaving-zero o (reading k) h = refl
is_leaving-zero o (leaving k) h = absurd (h k refl)
is_leaving-zero o (writing k) h = refl

is_writing-zero : (o : ℕ) (p : Place) → ((k : ℕ) → p ≢ writing k) → is_writing o p ≡ 0
is_writing-zero o outside h = refl
is_writing-zero o (entering k) h = refl
is_writing-zero o (reading k) h = refl
is_writing-zero o (leaving k) h = refl
is_writing-zero o (writing k) h = absurd (h k refl)

module _ (n size : ℕ) (s : System) (inv : (o : ℕ) → Locked n s.thread o (s.object o))
    (stuck : Stuck n size s) where
  impossible : {t : System} (step : Step n size s t) → refused step ≢ false
  impossible {t = t} step h = let k = stuck t step in absurd (ground arith)

  at_entry : (i o : ℕ) → i < n → (s.thread i).place ≢ entering o
  at_entry i o lt at = elim (Bool-cases (busy (s.object o))) [
    | inl held_up ↦ impossible (read_busy i o lt at held_up) refl
    | inr passed ↦ elim (Bool-cases (is_full (s.object o))) [
      | inl full ↦ impossible (read_full i o lt at passed full) refl
      | inr room ↦ impossible (read_admit i o lt at passed room) refl
    ]
  ]

  -- What no thread does weighs nothing.
  weightless :
      (w : Place → ℕ) → ((i : ℕ) → i < n → w (s.thread i).place ≡ 0) → tally w n s.thread ≡ 0
  weightless w h = elim (ℕ_discrete (tally w n s.thread) 0) [
    | yes e ↦ e
    | no some_one ↦
        let (i, lt, pos) = total_pos (λ t. w t.place) n s.thread (omega arith) in
        absurd (omega (arith, h i lt))
  ]

  nobody_entering : (o : ℕ) → tally (is_entering o) n s.thread ≡ 0
  nobody_entering o =
      weightless (is_entering o)
        (λ i lt. is_entering-zero o (s.thread i).place (λ k. at_entry i k lt))

  at_exit : (i o : ℕ) → i < n → (s.thread i).place ≢ leaving o
  at_exit i o lt at = impossible (read_end i o lt at) refl

  nobody_leaving : (o : ℕ) → tally (is_leaving o) n s.thread ≡ 0
  nobody_leaving o =
      weightless (is_leaving o) (λ i lt. is_leaving-zero o (s.thread i).place (λ k. at_exit i k lt))

  readers_free : (o : ℕ) → (s.object o).readers_mutex ≡ false
  readers_free o = let h = inv o in ground (arith, nobody_entering o, nobody_leaving o)

  at_read : (i o : ℕ) → i < n → (s.thread i).place ≢ reading o
  at_read i o lt at = impossible (read_leave i o lt at (readers_free o)) refl

  nobody_reading : (o : ℕ) → tally (is_reading o) n s.thread ≡ 0
  nobody_reading o =
      weightless (is_reading o) (λ i lt. is_reading-zero o (s.thread i).place (λ k. at_read i k lt))

  at_write : (i o : ℕ) → i < n → (s.thread i).place ≢ writing o
  at_write i o lt at = impossible (write_end i o 0 lt at) refl

  nobody_writing : (o : ℕ) → tally (is_writing o) n s.thread ≡ 0
  nobody_writing o =
      weightless (is_writing o)
        (λ i lt. is_writing-zero o (s.thread i).place (λ k. at_write i k lt))

  writers_free : (o : ℕ) → shut_out (s.object o) ≡ false → (s.object o).writers_mutex ≡ false
  writers_free o opened =
      let h = inv o in
      ground (arith, h.accounted opened, nobody_reading o, nobody_leaving o, nobody_writing o)

  all_outside : (i : ℕ) → i < n → (s.thread i).place ≡ outside
  all_outside i lt =
      one_left (s.thread i).place (λ o. at_entry i o lt) (λ o. at_read i o lt) (λ o. at_exit i o lt)
        (λ o. at_write i o lt)

  -- If one object lets readers in, no call is left.
  pub stuck_no_calls :
      (o : ℕ) → o < size → shut_out (s.object o) ≡ false → (i : ℕ) → i < n → (s.thread i).runs ≡ 0
  stuck_no_calls o in_array opened i lt = elim (ℕ_discrete (s.thread i).runs 0) [
    | yes done ↦ done
    | no left ↦ elim (Task-cases (s.thread i).task) [
      | inl task ↦ absurd (
          impossible
            (read_start i o lt in_array task (all_outside i lt) (omega arith) (readers_free o))
            refl)
      | inr task ↦ absurd (
          impossible
            (write_start i o lt in_array task (all_outside i lt) (omega arith)
              (writers_free o opened))
            refl)
    ]
  ]
