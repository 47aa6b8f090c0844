-- ===== src/Monitor/Bounded/Results.antt =====
-- What the threads of Classes1/Task2.c do, however they interleave.
use agh_systems_programming.Common.{
  ℕ, ◌+◌, ◌*◌, ◌<◌, ◌≤◌, ◌≡◌, sym, ap, append-nil, ◌∙◌, List, ◌++◌, true, length, arith,
}
use native.Mathlib.Nat.{mul-zero}
use agh_systems_programming.Monitor.{Event, Step, reader, writer, inside, waiting, Reach, System}
use agh_systems_programming.Monitor.Invariant.{Inv, alone}
use agh_systems_programming.Monitor.Safety.{Reach-Inv, Reach-contents}
use agh_systems_programming.Monitor.Counts.{remaining-create, remaining-done}
use agh_systems_programming.Monitor.Progress.{Counted, Reach-Counted, spurious}
use agh_systems_programming.Monitor.Deadlock.{stuck_no_calls}
use agh_systems_programming.Monitor.Ring.Order.{
  contents-empty, contents, allocate_buffer-Fits, allocate_buffer-contents,
}
use agh_systems_programming.Monitor.Bounded.{protocol, start}
use agh_systems_programming.Monitor.Bounded.Contract.{
  laws, accounts, awaited, blocked-awaited, Fits-points,
}

module _ (num_readers num_writers reader_runs writer_runs buffer_size : ℕ) (block : List ℕ) where
  abbrev pub Reached : List ℕ → List ℕ → System protocol → Type 0
  Reached =
      Reach protocol (num_readers + num_writers)
        (start num_readers reader_runs writer_runs buffer_size block)

  start-Inv :
      0 < buffer_size
      → length block ≡ buffer_size
      → Inv laws (start num_readers reader_runs writer_runs buffer_size block)
  start-Inv pos size = record {
    fit = allocate_buffer-Fits buffer_size block pos size;
    owner = λ i h. ground arith;
    sleeping = λ i h. ground arith;
    ready = λ i h. ground arith;
  }

  pub Reached-Inv :
      (t : System protocol) {ws rs : List ℕ}
      → 0 < buffer_size
      → length block ≡ buffer_size
      → Reached ws rs t
      → Inv laws t
  Reached-Inv t pos size reach =
      Reach-Inv laws (num_readers + num_writers)
        (start num_readers reader_runs writer_runs buffer_size block) t (start-Inv pos size) reach

  -- However the threads of Task2 interleave, with a buffer of at least one place whose block was
  -- allocated: the values read so far and then the values in the buffer are the values written so far,
  -- in the order in which they were written.
  pub written_in_order :
      (t : System protocol) {ws rs : List ℕ}
      → 0 < buffer_size
      → length block ≡ buffer_size
      → Reached ws rs t
      → ws ≡ rs ++ contents t.buffer
  written_in_order t {ws = ws} pos size reach =
      sym (ap (λ xs. xs ++ ws) (allocate_buffer-contents buffer_size block))
      ∙ Reach-contents laws (num_readers + num_writers)
          (start num_readers reader_runs writer_runs buffer_size block) t (start-Inv pos size) reach

  -- However the threads of Task2 interleave, with a buffer of at least one place whose block was
  -- allocated: no two threads are at once between taking the mutex and giving it up.
  pub one_inside :
      (t : System protocol) {ws rs : List ℕ}
      → 0 < buffer_size
      → length block ≡ buffer_size
      → Reached ws rs t
      → (i j : ℕ) → inside (t.thread i).place ≡ true
      → inside (t.thread j).place ≡ true
      → i ≡ j
  one_inside t pos size reach = alone laws (Reached-Inv t pos size reach)

  -- However the threads of Task2 interleave, with a buffer of at least one place whose block was
  -- allocated: both points stay inside the block, and the number of items is not above its length.
  pub points_inside :
      (t : System protocol) {ws rs : List ℕ}
      → 0 < buffer_size
      → length block ≡ buffer_size
      → Reached ws rs t
      → (t.buffer.reading_point < length t.buffer.values)
        × (t.buffer.writing_point < length t.buffer.values)
        × (t.buffer.number_items ≤ length t.buffer.values)
  points_inside t pos size reach = Fits-points t.buffer (Reached-Inv t pos size reach).fit

  -- However the threads of Task2 interleave, with a buffer of at least one place whose block was
  -- allocated: a reader that waits and is not woken waits at an empty buffer, and a writer at a full
  -- one, so that no wakeup is lost.
  pub no_lost_wakeup :
      (t : System protocol) {ws rs : List ℕ}
      → 0 < buffer_size
      → length block ≡ buffer_size
      → Reached ws rs t
      → (i : ℕ) → (t.thread i).place ≡ waiting
      → t.buffer.number_items ≡ awaited (t.thread i).role t.buffer
  no_lost_wakeup t pos size reach i h =
      blocked-awaited (t.thread i).role t.buffer ((Reached-Inv t pos size reach).sleeping i h)

  start-Counted :
      num_readers * reader_runs ≡ num_writers * writer_runs
      → Counted accounts
          (num_readers + num_writers)
          (start num_readers reader_runs writer_runs buffer_size block)
  start-Counted balance =
      let calls = remaining-create num_readers num_writers reader_runs writer_runs in
      record {
        busy = λ i h. ground arith;
        held = λ i h. ground arith;
        among = λ i h. ground arith;
        account =
            rw (calls reader, calls writer, mul-zero num_readers, mul-zero num_writers)
              (omega (arith, balance));
      }

  -- The threads of Task2 do not come to a standstill: with a buffer of at least one place whose block
  -- was allocated, and as many reads as writes to be done over all threads, a state in which no thread
  -- can take a step, but one that wakes for no reason, is one in which every call of every thread is
  -- done.
  pub no_deadlock :
      (t : System protocol) {ws rs : List ℕ}
      → 0 < buffer_size
      → length block ≡ buffer_size
      → num_readers * reader_runs ≡ num_writers * writer_runs
      → Reached ws rs t
      → ((e : Event) (u : System protocol) (step : Step protocol (num_readers + num_writers) t e u)
          → spurious step ≡ true)
      → (i : ℕ) → i < num_readers + num_writers
      → (t.thread i).runs ≡ 0
  no_deadlock t pos size balance reach stuck =
      let first = start num_readers reader_runs writer_runs buffer_size block in
      stuck_no_calls accounts (num_readers + num_writers) t (Reached-Inv t pos size reach)
        (Reach-Counted accounts (num_readers + num_writers) first t (start-Inv pos size)
          (start-Counted balance) reach)
        stuck

  -- When every call of every thread of Task2 is done, each value written was read, in the order in which
  -- they were written, and the buffer is empty; the buffer has at least one place and a block, and there
  -- were as many reads as writes to be done over all threads.
  pub all_read :
      (t : System protocol) {ws rs : List ℕ}
      → 0 < buffer_size
      → length block ≡ buffer_size
      → num_readers * reader_runs ≡ num_writers * writer_runs
      → Reached ws rs t
      → ((i : ℕ) → i < num_readers + num_writers → (t.thread i).runs ≡ 0)
      → (ws ≡ rs) × (t.buffer.number_items ≡ 0)
  all_read t {rs = rs} pos size balance reach finished =
      let n = num_readers + num_writers in
      let first = start num_readers reader_runs writer_runs buffer_size block in
      let c = Reach-Counted accounts n first t (start-Inv pos size) (start-Counted balance) reach in
      let reads = remaining-done reader n t.thread finished in
      let writes = remaining-done writer n t.thread finished in
      let empty : t.buffer.number_items ≡ 0 = omega (arith, c.account, reads, writes) in
      (
        written_in_order t pos size reach
            ∙ ap (λ xs. rs ++ xs) (contents-empty t.buffer empty)
            ∙ append-nil rs,
        empty,
      )
