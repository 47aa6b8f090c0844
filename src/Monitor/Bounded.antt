-- ===== src/Monitor/Bounded.antt =====
-- Classes1/Task2.c: readers wait for an item and writers for room.
pub mod Contract
pub mod Results
mod Tests
use agh_systems_programming.Common.{
  ℕ, zero, ◌+◌, List, Bool, Option, none, ◌==◌, ltb, if◌then◌else◌,
}
use agh_systems_programming.Monitor.{
  create, Role, reader, writer, Protocol, Place, outside, Thread, System,
}
use agh_systems_programming.Monitor.Ring.{ConcurrentBuffer, allocate_buffer, take_item, put_item}

-- The tests of the two `while` loops.
abbrev pub blocked : Role → ConcurrentBuffer → Bool
blocked reader b = b.number_items == 0
blocked writer b = b.number_items == b.size

-- The functions broadcast before they change the buffer, with the mutex held all along.
abbrev pub read_from_concurrent_buffer : ConcurrentBuffer → ℕ × ConcurrentBuffer × Bool
read_from_concurrent_buffer b = ((take_item b).0, (take_item b).1, b.number_items == b.size)

abbrev pub write_to_concurrent_buffer : ℕ → ConcurrentBuffer → ConcurrentBuffer × Bool
write_to_concurrent_buffer val b = (put_item val b, b.number_items == 0)

abbrev pub protocol : Protocol
protocol = record {
  Buffer = ConcurrentBuffer;
  blocked = blocked;
  read = read_from_concurrent_buffer;
  write = write_to_concurrent_buffer;
}

-- `main` when all threads are created and none has run.
abbrev pub start : (num_readers reader_runs writer_runs buffer_size : ℕ) → List ℕ → System protocol
start num_readers reader_runs writer_runs buffer_size block = record {
  buffer = allocate_buffer buffer_size block;
  thread = create num_readers reader_runs writer_runs;
  holder = none;
}
