-- ===== src/ReadersWriters/Barrier/Termination.antt =====
-- How many steps the threads of Classes1/Task4.c take, though the critic goes on for ever.
use native.Mathlib.Nat.{suc-mul}
use agh_systems_programming.Common.{
  ℕ, suc, ◌+◌, ◌-◌, ◌*◌, ◌<◌, ◌≤◌, ◌≡◌, refl, Bool, true, false, List, arith, length, ltb,
  if◌then◌else◌, Bool-cases, inl, inr, get_or,
}
use agh_systems_programming.Common.Family.{total, total-suc, total-agree, total-blocks, one_call-le}
use agh_systems_programming.ReadersWriters.{outside, reads, writes, Thread, System}
use agh_systems_programming.ReadersWriters.Reached.{Fresh-Locked}
use agh_systems_programming.ReadersWriters.Termination.{steps, wakeups, Credits, to_come}
use agh_systems_programming.ReadersWriters.Termination.Bound.{Reach-Busy}
use agh_systems_programming.ReadersWriters.Barrier.{
  ConcurrentObject, Call, write_to_object, critic_round, work, endless, blocked, protocol,
  allocate_object, create, start,
}
use agh_systems_programming.ReadersWriters.Barrier.Record.{History}
use agh_systems_programming.ReadersWriters.Barrier.Contract.{laws}
use agh_systems_programming.ReadersWriters.Barrier.Results.{
  threads, Reached, start-Fresh, start-Waits,
}

-- A writer that is not counted yet puts by `c` steps for the critic.
write_puts_by :
    (c k v : ℕ) (b : ConcurrentObject)
    → (work (write_to_object k) v b).0.writers_count * c ≤ b.writers_count * c + c
unfolding work
write_puts_by c k v b =
    let e = suc-mul b.writers_count c in
    let e' : b.writers_count + 1 ≡ suc b.writers_count = omega arith in
    elim (Bool-cases (get_or b.writers_record k false)) [
      | inl before ↦ rw before (omega arith)
      | inr now ↦ rw (now, e', e) (omega arith)
    ]

round_takes :
    (c num_writers v : ℕ) (b : ConcurrentObject)
    → 0 < num_writers
    → b.num_writers ≡ num_writers
    → blocked critic_round b ≡ false
    → (work critic_round v b).0.writers_count * c + c ≤ b.writers_count * c
unfolding work
round_takes c num_writers v b pos size passed =
    let full : b.writers_count ≡ b.num_writers = ground arith in
    let room = one_call-le c b.writers_count (omega arith) in omega arith

credits :
    (c num_writers initial_data : ℕ) → 0 < num_writers → Credits (laws num_writers initial_data) c
credits c num_writers initial_data pos = record {
  credit = λ b. b.writers_count * c;
  puts_by = puts_by;
  takes = takes;
}
  where
    puts_by :
        (j : Call) (v : ℕ) (b : ConcurrentObject)
        → endless j ≡ false
        → (work j v b).0.writers_count * c ≤ b.writers_count * c + c
    puts_by (write_to_object k) v b ends = write_puts_by c k v b
    puts_by critic_round v b ends = absurd (cc ends)

    takes :
        (j : Call) (v : ℕ) (es : List (Call × ℕ)) (b : ConcurrentObject)
        → History num_writers initial_data es b
        → endless j ≡ true
        → blocked j b ≡ false
        → (work j v b).0.writers_count * c + c ≤ b.writers_count * c
    takes (write_to_object k) v es b h always passed = absurd (cc always)
    takes critic_round v es b h always passed = round_takes c num_writers v b pos h.writers passed

module _ (num_writers num_readers writer_runs reader_runs initial_data : ℕ)
    (block : List Bool) where
  start-to_come :
      (c : ℕ)
      → total
          (to_come protocol c)
          (threads num_writers num_readers writer_runs reader_runs initial_data block)
          (create num_writers num_readers writer_runs reader_runs)
        ≡ num_writers * (writer_runs * (2 * c)) + num_readers * (reader_runs * 4) + 3
  start-to_come c =
      let f = create num_writers num_readers writer_runs reader_runs in
      let w = to_come protocol c in
      let writer : Thread Call = record {
        task = writes (write_to_object 0);
        runs = writer_runs;
        place = outside;
      } in
      let reader : Thread Call = record { task = reads; runs = reader_runs; place = outside } in
      let alike =
        total-agree w (num_writers + num_readers) f
          (λ i. if ltb i num_writers then writer else reader) (λ j lt. ground arith) in
      let blocks = total-blocks w num_writers num_readers writer reader in
      let critic : w (f (num_writers + num_readers)) ≡ 3 = ground arith in
      let a : writer_runs * (2 * c) - 0 ≡ writer_runs * (2 * c) = omega arith in
      let b : reader_runs * 4 - 0 ≡ reader_runs * 4 = omega arith in
      let sum = rw (a, b) at blocks in
      let e : num_writers + num_readers + 1 ≡ suc (num_writers + num_readers) = omega arith in
      rw e (omega (arith, alike, sum, critic, total-suc w (num_writers + num_readers) f))

  -- However the threads of Task4 interleave, with at least one writer and the record allocated, and though
  -- the critic makes its rounds for ever: a run has, with n threads, at most 2 (2 n + 3) steps for each
  -- call of a writer, four for each call of a reader, three for the critic, and three for each wakeup with
  -- no broadcast.
  pub barrier_terminates :
      (t : System protocol) {es : List (Call × ℕ)}
      → 0 < num_writers
      → length block ≡ num_writers
      → (run : Reached num_writers num_readers writer_runs reader_runs initial_data block es t)
      → let n = num_writers + num_readers + 1 in
        steps run
        ≤ num_writers * (writer_runs * (2 * (2 * n + 3)))
          + num_readers * (reader_runs * 4)
          + 3
          + 3 * wakeups run
  unfolding allocate_object credits
  barrier_terminates t pos size run =
      let n = num_writers + num_readers + 1 in
      let c = 2 * n + 3 in
      let s = start num_writers num_readers writer_runs reader_runs initial_data block in
      let fresh = start-Fresh num_writers num_readers writer_runs reader_runs initial_data block in
      let (_, count) =
        Reach-Busy (laws num_writers initial_data) c n refl (credits c num_writers initial_data pos)
          s t (Fresh-Locked n s fresh)
          (start-Waits num_writers num_readers writer_runs reader_runs initial_data block size)
          (λ j h. absurd (h (fresh.all_outside j))) run in
      let nothing : 0 * c ≡ 0 = omega arith in omega (arith, start-to_come c, nothing)
