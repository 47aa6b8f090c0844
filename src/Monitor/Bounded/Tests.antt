-- ===== src/Monitor/Bounded/Tests.antt =====
-- One reader and one writer with one call each, round a buffer of one place.
use agh_systems_programming.Common.{true}
use agh_systems_programming.Common.{
  ℕ, ◌+◌, ◌*◌, ◌≤◌, ◌≡◌, refl, List, [], ◌∷◌, ◌++◌, Option, none, some, arith,
}
use agh_systems_programming.Monitor.Progress.{spurious}
use agh_systems_programming.Monitor.Termination.{steps, wakeups, threads_terminate}
use agh_systems_programming.Monitor.{
  wake, Step, Event, Place, testing, waiting, working, goto, finish, System, lock, wait, pass,
  relock, take_out, put_in, here, next,
}
use agh_systems_programming.Monitor.Ring.{take_item, put_item, allocate_buffer}
use agh_systems_programming.Monitor.Ring.Order.{contents}
use agh_systems_programming.Monitor.Bounded.{
  protocol, start, read_from_concurrent_buffer, write_to_concurrent_buffer,
}
use agh_systems_programming.Monitor.Bounded.Results.{
  all_read, Reached, written_in_order, no_deadlock,
}

abbrev created : System protocol
created = start 1 1 1 1 (0 ∷ [])

abbrev moved : System protocol → ℕ → Place → Option ℕ → System protocol
moved s i p h = record s { thread = goto s.thread i p; holder = h }

-- The reader comes first, finds no item and waits; the writer passes its test.
abbrev reader_waits : System protocol
reader_waits = moved (moved created 0 testing (some 0)) 0 waiting none

abbrev writer_works : System protocol
writer_works = moved (moved reader_waits 1 testing (some 1)) 1 working (some 1)

-- The writer puts 7 in and broadcasts; the reader wakes and passes its test.
abbrev written : System protocol
written = record {
  buffer = (write_to_concurrent_buffer 7 writer_works.buffer).0;
  thread = finish writer_works.thread 1 (write_to_concurrent_buffer 7 writer_works.buffer).1;
  holder = none;
}

abbrev reader_works : System protocol
reader_works = moved (moved written 0 testing (some 0)) 0 working (some 0)

abbrev taken_out : System protocol
taken_out = record {
  buffer = (read_from_concurrent_buffer reader_works.buffer).1;
  thread = finish reader_works.thread 0 (read_from_concurrent_buffer reader_works.buffer).2;
  holder = none;
}

reaches_waiting : Reached 1 1 1 1 1 (0 ∷ []) [] [] reader_waits
reaches_waiting =
    next (next here (lock 0 (omega arith) refl (omega arith) refl)) (wait 0 (omega arith) refl refl)

reaches_working : Reached 1 1 1 1 1 (0 ∷ []) [] [] writer_works
reaches_working =
    next (next reaches_waiting (lock 1 (omega arith) refl (omega arith) refl))
      (pass 1 (omega arith) refl refl)

reaches_written : Reached 1 1 1 1 1 (0 ∷ []) (7 ∷ []) [] written
reaches_written = next reaches_working (put_in 1 7 (omega arith) refl refl)

reaches_reading : Reached 1 1 1 1 1 (0 ∷ []) (7 ∷ []) [] reader_works
unfolding put_item
reaches_reading =
    next (next reaches_written (relock 0 (omega arith) refl refl)) (pass 0 (omega arith) refl refl)

reaches_taken : Reached 1 1 1 1 1 (0 ∷ []) (7 ∷ []) (7 ∷ []) taken_out
unfolding put_item take_item
reaches_taken = next reaches_reading (take_out 0 (omega arith) refl refl)

written_in_order_example : ◌≡◌ {A = List ℕ} (7 ∷ []) (7 ∷ [] ++ contents taken_out.buffer)
written_in_order_example =
    written_in_order 1 1 1 1 1 (0 ∷ []) taken_out (omega arith) refl reaches_taken

-- Both calls are done, and no thread can move.
finished-stuck :
    (e : Event) (u : System protocol) (step : Step protocol 2 taken_out e u) → spurious step ≡ true
finished-stuck e u (lock i lt at left free) = absurd (ground arith)
finished-stuck e u (wait i lt at h) = absurd (ground arith)
finished-stuck e u (pass i lt at h) = absurd (ground arith)
finished-stuck e u (wake i lt at) = refl
finished-stuck e u (relock i lt at free) = absurd (ground arith)
finished-stuck e u (take_out i lt at r) = absurd (ground arith)
finished-stuck e u (put_in i v lt at r) = absurd (ground arith)

no_deadlock_example : (taken_out.thread 0).runs ≡ 0
no_deadlock_example =
    no_deadlock 1 1 1 1 1 (0 ∷ []) taken_out (omega arith) refl refl reaches_taken finished-stuck 0
      (omega arith)

all_read_example : (◌≡◌ {A = List ℕ} (7 ∷ []) (7 ∷ [])) × (taken_out.buffer.number_items ≡ 0)
all_read_example =
    all_read 1 1 1 1 1 (0 ∷ []) taken_out (omega arith) refl refl reaches_taken
      (λ i lt. ground arith)

-- The steps of that run.
steps_taken : (steps reaches_taken ≡ 8) × (wakeups reaches_taken ≡ 0)
unfolding steps wakeups reaches_waiting reaches_working reaches_written reaches_reading
    reaches_taken
steps_taken = (refl, refl)

threads_terminate_example :
    steps reaches_taken ≤ 1 * (1 * (2 * 2 + 3)) + 1 * (1 * (2 * 2 + 3)) + 3 * wakeups reaches_taken
threads_terminate_example =
    threads_terminate 1 1 1 1 (allocate_buffer 1 (0 ∷ [])) taken_out reaches_taken
