-- ===== src/ReadersWriters/First/Results.antt =====
-- What the threads of Classes1/Task1.c do, however they interleave.
use agh_systems_programming.Common.{ℕ, ◌+◌, ◌<◌, ◌≡◌, refl, ap, List, [], ◌∷◌, arith, ℕ_discrete}
use agh_systems_programming.ReadersWriters.{reading, working, System, Event, Step, Reach}
use agh_systems_programming.ReadersWriters.Tally.{is_inside}
use agh_systems_programming.ReadersWriters.Invariant.{Laws, Locked}
use agh_systems_programming.ReadersWriters.Waits.{Waits, alone}
use agh_systems_programming.ReadersWriters.Reached.{
  Fresh, Fresh-Locked, Fresh-Waits, Reach-Locked, Reach-Waits, reading_stable,
}
use agh_systems_programming.ReadersWriters.Deadlock.{Stuck, stuck_waiting}
use agh_systems_programming.ReadersWriters.First.{Write, protocol, start}

-- The value of the last write, or the one at the start.
abbrev pub last_value : ℕ → List (Write × ℕ) → ℕ
last_value initial_data [] = initial_data
last_value initial_data ((j, v) ∷ es) = v

abbrev pub laws : ℕ → Laws protocol
laws initial_data = record {
  Allowed = λ j. Unit {0};
  History = λ es b. b ≡ last_value initial_data es;
  work-History = λ j v es b allowed h passed. refl;
  work-blocked = λ j v b k passed quiet stuck. stuck;
}

module _ (num_readers num_writers reader_runs writer_runs initial_data : ℕ) where
  abbrev pub Reached : List (Write × ℕ) → System protocol → Type 0
  Reached =
      Reach protocol (num_readers + num_writers)
        (start num_readers reader_runs writer_runs initial_data)

  start-Fresh : Fresh (start num_readers reader_runs writer_runs initial_data)
  start-Fresh = record {
    no_readers = refl;
    reader_free = refl;
    writer_free = refl;
    all_outside = λ i. ground arith;
  }

  Reached-Locked :
      (t : System protocol) {es : List (Write × ℕ)}
      → Reached es t
      → Locked (num_readers + num_writers) t
  Reached-Locked t reach =
      let n = num_readers + num_writers in
      let first = start num_readers reader_runs writer_runs initial_data in
      Reach-Locked (laws initial_data) n first t (Fresh-Locked n first start-Fresh) reach

  Reached-Waits :
      (t : System protocol) {es : List (Write × ℕ)}
      → Reached es t
      → Waits (laws initial_data) (num_readers + num_writers) es t
  Reached-Waits t reach =
      let n = num_readers + num_writers in
      let first = start num_readers reader_runs writer_runs initial_data in
      Reach-Waits (laws initial_data) n first t (Fresh-Locked n first start-Fresh)
        (Fresh-Waits (laws initial_data) n first start-Fresh (λ i j h. tt) refl) reach

  -- However the threads of Task1 interleave: what a reader sees is the value of the last write, or the
  -- initial one where there was none, and no step of any thread changes it before the reader has left.
  pub reads_last_write :
      (t u : System protocol) {es : List (Write × ℕ)} {e : Event Write} (i : ℕ)
      → Reached es t
      → (t.thread i).place ≡ reading
      → Step protocol (num_readers + num_writers) t e u
      → (t.shared ≡ last_value initial_data es) × (u.shared ≡ t.shared)
  reads_last_write t u i reach at step =
      let inv = Reached-Waits t reach in
      (
        inv.history,
        reading_stable (num_readers + num_writers) t u (Reached-Locked t reach) i
            (inv.among i (λ e. ground arith)) at step,
      )

  -- However the threads of Task1 interleave: no two threads are at once between taking the writers'
  -- mutex for a write and giving it up.
  pub writes_alone :
      (t : System protocol) {es : List (Write × ℕ)} (i j : ℕ)
      → Reached es t
      → (t.thread i).place ≡ working
      → (t.thread j).place ≡ working
      → i ≡ j
  writes_alone t i j reach at at' =
      let inv = Reached-Waits t reach in
      alone (num_readers + num_writers) t (Reached-Locked t reach) i j
        (inv.among i (λ e. ground arith)) (inv.among j (λ e. ground arith)) (ap is_inside at)
        (ap is_inside at')

  -- The threads of Task1 do not come to a standstill: a state in which no thread can take a step, but
  -- one that wakes for no reason, is one in which every call of every thread is done.
  pub first_no_deadlock :
      (t : System protocol) {es : List (Write × ℕ)}
      → Reached es t
      → Stuck (num_readers + num_writers) t
      → (i : ℕ) → i < num_readers + num_writers
      → (t.thread i).runs ≡ 0
  first_no_deadlock t reach stuck i lt = elim (ℕ_discrete (t.thread i).runs 0) [
    | yes done ↦ done
    | no left ↦
        let (j, task, stays) =
          stuck_waiting (num_readers + num_writers) t (Reached-Locked t reach)
            (Reached-Waits t reach) stuck i lt (omega arith) in
        cc
  ]
