-- ===== src/ReadersWriters/First/Termination.antt =====
-- How many steps the threads of Classes1/Task1.c take.
use agh_systems_programming.Common.{
  ℕ, ◌+◌, ◌-◌, ◌*◌, ◌<◌, ◌≤◌, ◌≡◌, Bool, true, false, List, ◌&&◌, ◌||◌, ◌==◌, ltb, arith,
  ℕ_discrete,
}
use agh_systems_programming.Common.Family.{update, total, total-update, total_pos, total-blocks}
use agh_systems_programming.ReadersWriters.{
  Place, outside, counted, reading, leaving, testing, working, Task, reads, writes, Thread, Event,
  System, Step, enter, first, follow, leave, last, quit, lock, wait, pass, wake, relock, work_done,
  Reach, here, next,
}
use agh_systems_programming.ReadersWriters.Deadlock.{Stuck}
use agh_systems_programming.ReadersWriters.Termination.{steps}
use agh_systems_programming.ReadersWriters.First.{
  Write, write_to_concurrent_object, protocol, start,
}
use agh_systems_programming.ReadersWriters.First.Results.{Reached, first_no_deadlock}

-- How many steps of its call the thread has taken.
abbrev taken : Place → ℕ
taken counted = 1
taken reading = 2
taken leaving = 3
taken testing = 1
taken working = 2
taken _ = 0

-- The steps that a call takes.
abbrev per_call : Task Write → ℕ
per_call reads = 4
per_call (writes j) = 3

abbrev to_come : Thread Write → ℕ
to_come t = per_call t.task * t.runs - taken t.place

-- Places of readers, and of writers who wait for nothing.
abbrev proper : Task Write → Place → Bool
proper reads outside = true
proper reads counted = true
proper reads reading = true
proper reads leaving = true
proper (writes j) outside = true
proper (writes j) testing = true
proper (writes j) working = true
proper _ _ = false

-- A thread within a call has a call left.
abbrev fits : Thread Write → Bool
fits t = proper t.task t.place && (taken t.place == 0 || ltb 0 t.runs)

abbrev AllFit : (ℕ → Thread Write) → Type 0
AllFit f = (k : ℕ) → fits (f k) ≡ true

update-AllFit :
    (n : ℕ) (f : ℕ → Thread Write) (i : ℕ) (u : Thread Write)
    → AllFit f
    → i < n
    → fits u ≡ true
    → to_come u + 1 ≡ to_come (f i)
    → AllFit (update f i u) × (total to_come n (update f i u) + 1 ≡ total to_come n f)
update-AllFit n f i u all lt fit less =
    (λ k. ground (arith, all k), omega (arith, total-update to_come n f i u lt))

Step-AllFit :
    (n : ℕ) (s t : System protocol) {e : Event Write}
    → AllFit s.thread
    → Step protocol n s e t
    → AllFit t.thread × (total to_come n t.thread + 1 ≡ total to_come n s.thread)
Step-AllFit n s t all (enter i lt task at left free) =
    let fit = all i in update-AllFit n s.thread i _ all lt (ground arith) (ground arith)
Step-AllFit n s t all (first i lt at one free) =
    let fit = all i in update-AllFit n s.thread i _ all lt (ground arith) (ground arith)
Step-AllFit n s t all (follow i lt at more) =
    let fit = all i in update-AllFit n s.thread i _ all lt (ground arith) (ground arith)
Step-AllFit n s t all (leave i lt at free) =
    let fit = all i in update-AllFit n s.thread i _ all lt (ground arith) (ground arith)
Step-AllFit n s t all (last i lt at none_left) =
    let fit = all i in update-AllFit n s.thread i _ all lt (ground arith) (ground arith)
Step-AllFit n s t all (quit i lt at some_left) =
    let fit = all i in update-AllFit n s.thread i _ all lt (ground arith) (ground arith)
Step-AllFit n s t all (lock i j lt task at left free) =
    let fit = all i in update-AllFit n s.thread i _ all lt (ground arith) (ground arith)
Step-AllFit n s t all (wait i j lt task at h) = cc
Step-AllFit n s t all (pass i j lt task at h) =
    let fit = all i in update-AllFit n s.thread i _ all lt (ground arith) (ground arith)
Step-AllFit n s t all (wake i lt at) = let fit = all i in absurd (ground arith)
Step-AllFit n s t all (relock i lt at free) = let fit = all i in absurd (ground arith)
Step-AllFit n s t all (work_done i v j lt task at) =
    let fit = all i in update-AllFit n s.thread i _ all lt (ground arith) (ground arith)

Reach-AllFit :
    (n : ℕ) (s t : System protocol) {es : List (Write × ℕ)}
    → AllFit s.thread
    → (run : Reach protocol n s es t)
    → AllFit t.thread × (steps run + total to_come n t.thread ≡ total to_come n s.thread)
unfolding steps
Reach-AllFit n s t all here = (all, omega arith)
Reach-AllFit n s t all (next {t = u} before step) =
    let (fit, count) = Reach-AllFit n s u all before in
    let (fit', less) = Step-AllFit n u t fit step in (fit', omega arith)

module _ (num_readers num_writers reader_runs writer_runs initial_data : ℕ) where
  start-AllFit : AllFit (start num_readers reader_runs writer_runs initial_data).thread
  start-AllFit k = ground arith

  start-to_come :
      total to_come
        (num_readers + num_writers)
        (start num_readers reader_runs writer_runs initial_data).thread
      ≡ num_readers * (4 * reader_runs) + num_writers * (3 * writer_runs)
  start-to_come =
      let r : 4 * reader_runs - 0 ≡ 4 * reader_runs = omega arith in
      let w : 3 * writer_runs - 0 ≡ 3 * writer_runs = omega arith in
      rw (r, w) at
        (total-blocks to_come num_readers num_writers
          (record { task = reads; runs = reader_runs; place = outside })
          (record {
            task = writes write_to_concurrent_object;
            runs = writer_runs;
            place = outside;
          }))

  nothing_to_come :
      (t : System protocol) {es : List (Write × ℕ)}
      → AllFit t.thread
      → Reached num_readers num_writers reader_runs writer_runs initial_data es t
      → Stuck (num_readers + num_writers) t
      → total to_come (num_readers + num_writers) t.thread ≡ 0
  nothing_to_come t fit run stuck =
      let n = num_readers + num_writers in
      elim (ℕ_discrete (total to_come n t.thread) 0) [
        | yes e ↦ e
        | no more ↦
            let (i, lt, pos) = total_pos to_come n t.thread (omega arith) in
            let done =
              first_no_deadlock num_readers num_writers reader_runs writer_runs initial_data t run
                stuck i lt in
            absurd (ground (arith, fit i))
      ]

  -- However the threads of Task1 interleave: a run has at most four steps for each call of a reader and
  -- three for each call of a writer, and exactly so many where no thread can take a further step.
  pub first_terminates :
      (t : System protocol) {es : List (Write × ℕ)}
      (run : Reached num_readers num_writers reader_runs writer_runs initial_data es t)
      → let bound = num_readers * (4 * reader_runs) + num_writers * (3 * writer_runs) in
        (steps run ≤ bound) × (Stuck (num_readers + num_writers) t → steps run ≡ bound)
  first_terminates t run =
      let n = num_readers + num_writers in
      let first' = start num_readers reader_runs writer_runs initial_data in
      let (fit, count) = Reach-AllFit n first' t start-AllFit run in
      (
        omega (arith, start-to_come),
        λ stuck. omega (arith, start-to_come, nothing_to_come t fit run stuck),
      )
