-- ===== src/ReadersWriters/Barrier/Results.antt =====
-- What the threads of Classes1/Task4.c do, however they interleave.
use agh_systems_programming.Common.{
  ℕ, ◌+◌, ◌<◌, ◌≡◌, ◌≢◌, ◌⊎◌, inl, inr, refl, ◌∙◌, sym, Bool, true, List, [], arith, ℕ_discrete,
  none, length,
}
use agh_systems_programming.ReadersWriters.{reading, working, writes, System, Event, Step}
use agh_systems_programming.ReadersWriters.Invariant.{Locked}
use agh_systems_programming.ReadersWriters.Waits.{Waits}
use agh_systems_programming.ReadersWriters.Reached.{
  Fresh, Fresh-Locked, Fresh-Waits, Reach-Locked, Reach-Waits, reading_stable,
}
use agh_systems_programming.ReadersWriters.Tasks.{Reach-task, Reach-runs}
use agh_systems_programming.ReadersWriters.Deadlock.{Stuck, stuck_waiting}
use agh_systems_programming.ReadersWriters.Barrier.{
  ConcurrentObject, Call, write_to_object, critic_round, blocked, critic_clean_up, protocol, Runs,
  create, start,
}
use agh_systems_programming.ReadersWriters.Barrier.Record.{
  wrote, last_value, allocate_object-History,
}
use agh_systems_programming.ReadersWriters.Barrier.Contract.{Allowed, laws, full-wrote}

module _ (num_writers num_readers writer_runs reader_runs initial_data : ℕ)
    (block : List Bool) where
  abbrev pub threads : ℕ
  threads = num_writers + num_readers + 1

  abbrev pub Reached : List (Call × ℕ) → System protocol → Type 0
  Reached = Runs threads (start num_writers num_readers writer_runs reader_runs initial_data block)

  pub start-Fresh : Fresh (start num_writers num_readers writer_runs reader_runs initial_data block)
  start-Fresh = record {
    no_readers = refl;
    reader_free = refl;
    writer_free = refl;
    all_outside = λ i. ground arith;
  }

  create-Allowed :
      (i : ℕ) (j : Call)
      → (create num_writers num_readers writer_runs reader_runs i).task ≡ writes j
      → Allowed num_writers j
  create-Allowed i (write_to_object k) h = ground arith
  create-Allowed i critic_round h = tt

  Reached-Locked : (t : System protocol) {es : List (Call × ℕ)} → Reached es t → Locked threads t
  Reached-Locked t reach =
      let first = start num_writers num_readers writer_runs reader_runs initial_data block in
      Reach-Locked (laws num_writers initial_data) threads first t
        (Fresh-Locked threads first start-Fresh) reach

  pub start-Waits :
      length block ≡ num_writers
      → Waits
          (laws num_writers initial_data)
          threads
          []
          (start num_writers num_readers writer_runs reader_runs initial_data block)
  start-Waits size =
      Fresh-Waits (laws num_writers initial_data) threads
        (start num_writers num_readers writer_runs reader_runs initial_data block) start-Fresh
        create-Allowed (allocate_object-History num_writers initial_data block size)

  Reached-Waits :
      (t : System protocol) {es : List (Call × ℕ)}
      → length block ≡ num_writers
      → Reached es t
      → Waits (laws num_writers initial_data) threads es t
  Reached-Waits t size reach =
      let first = start num_writers num_readers writer_runs reader_runs initial_data block in
      Reach-Waits (laws num_writers initial_data) threads first t
        (Fresh-Locked threads first start-Fresh) (start-Waits size) reach

  full_there :
      (t : System protocol) {es : List (Call × ℕ)} (i : ℕ)
      → Waits (laws num_writers initial_data) threads es t
      → ((t.thread i).task ≡ writes critic_round) × ((t.thread i).place ≡ working)
        ⊎ (critic_clean_up t.shared ≢ none)
      → t.shared.writers_count ≡ t.shared.num_writers
  unfolding critic_clean_up
  full_there t i inv (inl (task, at)) = ground (arith, inv.ready i critic_round task at)
  full_there t i inv (inr prints) = elim (ℕ_discrete t.shared.writers_count t.shared.num_writers) [
    | yes full ↦ full
    | no part ↦ absurd (prints (ground arith))
  ]

  -- Where no thread can move, the critic waits for a writer.
  critic_waits :
      (t : System protocol) {es : List (Call × ℕ)}
      → length block ≡ num_writers
      → Reached es t
      → Stuck threads t
      → blocked critic_round t.shared ≡ true
  critic_waits t size reach stuck =
      let first = start num_writers num_readers writer_runs reader_runs initial_data block in
      let c = num_writers + num_readers in
      let own : (first.thread c).task ≡ writes critic_round = ground arith in
      let once : (first.thread c).runs ≡ 1 = ground arith in
      let kept =
        Reach-runs threads (laws num_writers initial_data) first t
          (Fresh-Locked threads first start-Fresh) (start-Waits size) reach c critic_round own
          refl in
      let (j, task, stays) =
        stuck_waiting threads t (Reached-Locked t reach) (Reached-Waits t size reach) stuck c
          (omega arith) (omega (arith, kept, once)) in
      ground (arith, own, task, Reach-task threads first t reach c)

  -- The call of another thread is not blocked together with the critic's.
  others_full :
      (i : ℕ) (j : Call) (b : ConcurrentObject)
      → i < num_writers + num_readers
      → (create num_writers num_readers writer_runs reader_runs i).task ≡ writes j
      → blocked j b ≡ true
      → blocked critic_round b ≢ true
  others_full i (write_to_object k) b lt task stays critic = ground arith
  others_full i critic_round b lt task stays critic = ground arith

  -- However the threads of Task4 interleave, with the record allocated: when the critic saves the value,
  -- behind its loop, each writer has written since the critic's last round, and the value is the one
  -- that was written last; the same holds of what the critic prints when it is cancelled.
  pub saves_after_all :
      (t : System protocol) {es : List (Call × ℕ)} (i k : ℕ)
      → length block ≡ num_writers
      → Reached es t
      → ((t.thread i).task ≡ writes critic_round) × ((t.thread i).place ≡ working)
        ⊎ (critic_clean_up t.shared ≢ none)
      → k < num_writers
      → (wrote k es ≡ true) × (t.shared.value ≡ last_value initial_data es)
  saves_after_all t {es = es} i k size reach saves below =
      let inv = Reached-Waits t size reach in
      (
        full-wrote num_writers initial_data es t.shared inv.history (full_there t i inv saves) k
            below,
        inv.history.latest,
      )

  -- However the threads of Task4 interleave, with the record allocated: what a reader sees is the value
  -- of the last write, or the initial one where there was none, and no step of any thread changes it
  -- before the reader has left.
  pub barrier_reads_last_write :
      (t u : System protocol) {es : List (Call × ℕ)} {e : Event Call} (i : ℕ)
      → length block ≡ num_writers
      → Reached es t
      → (t.thread i).place ≡ reading
      → Step protocol threads t e u
      → (t.shared.value ≡ last_value initial_data es) × (u.shared ≡ t.shared)
  barrier_reads_last_write t u i size reach at step =
      let inv = Reached-Waits t size reach in
      (
        inv.history.latest,
        reading_stable threads t u (Reached-Locked t reach) i (inv.among i (λ e. ground arith)) at
            step,
      )

  -- The threads of Task4 do not come to a standstill, with the record allocated: in a state in which no
  -- thread can take a step, but one that wakes for no reason, every call of every writer and of every
  -- reader is done.
  pub barrier_no_deadlock :
      (t : System protocol) {es : List (Call × ℕ)}
      → length block ≡ num_writers
      → Reached es t
      → Stuck threads t
      → (i : ℕ) → i < num_writers + num_readers
      → (t.thread i).runs ≡ 0
  barrier_no_deadlock t size reach stuck i lt = elim (ℕ_discrete (t.thread i).runs 0) [
    | yes done ↦ done
    | no left ↦
        let first = start num_writers num_readers writer_runs reader_runs initial_data block in
        let critic = critic_waits t size reach stuck in
        let (j, task, stays) =
          stuck_waiting threads t (Reached-Locked t reach) (Reached-Waits t size reach) stuck i
            (omega arith) (omega arith) in
        absurd (
          others_full i j t.shared lt (sym (Reach-task threads first t reach i) ∙ task) stays
            critic)
  ]
