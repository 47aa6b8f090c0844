-- ===== src/Monitor/Phased.antt =====
-- Classes1/Task6.c: the buffer is filled, then emptied, then filled again.
pub mod Contract
pub mod Results
mod Tests
use agh_systems_programming.Common.{ℕ, ◌-◌, List, Bool, true, false, not, none, ◌==◌, if◌then◌else◌}
use agh_systems_programming.Monitor.{create, Role, reader, writer, Protocol, System}
use agh_systems_programming.Monitor.Ring
use agh_systems_programming.Monitor.Ring.{ConcurrentBuffer, take_item, put_item}

-- The fields of the ring, and the flag.
pub record PhasedBuffer : Type 0 where
  pub ring : ConcurrentBuffer
  pub reading_time : Bool

abbrev pub allocate_buffer : (size : ℕ) → List ℕ → PhasedBuffer
allocate_buffer size block = record { ring = Ring.allocate_buffer size block; reading_time = false }

-- The tests of the two `while` loops.
abbrev pub blocked : Role → PhasedBuffer → Bool
blocked reader b = not b.reading_time
blocked writer b = b.reading_time

-- The last item ends the time to read, with a broadcast.
abbrev pub read_from_concurrent_buffer : PhasedBuffer → ℕ × PhasedBuffer × Bool
read_from_concurrent_buffer b = (
  (take_item b.ring).0,
  record {
    ring = (take_item b.ring).1;
    reading_time = if b.ring.number_items == 1 then false else b.reading_time;
  },
  b.ring.number_items == 1,
)

-- The item that fills the buffer starts the time to read, with a broadcast.
abbrev pub write_to_concurrent_buffer : ℕ → PhasedBuffer → PhasedBuffer × Bool
write_to_concurrent_buffer val b = (
  record {
    ring = put_item val b.ring;
    reading_time = if b.ring.number_items == b.ring.size - 1 then true else b.reading_time;
  },
  b.ring.number_items == b.ring.size - 1,
)

abbrev pub protocol : Protocol
protocol = record {
  Buffer = PhasedBuffer;
  blocked = blocked;
  read = read_from_concurrent_buffer;
  write = write_to_concurrent_buffer;
}

-- `main` when all threads are created and none has run.
abbrev pub start : (num_readers reader_runs writer_runs buffer_size : ℕ) → List ℕ → System protocol
start num_readers reader_runs writer_runs buffer_size block = record {
  buffer = allocate_buffer buffer_size block;
  thread = create num_readers reader_runs writer_runs;
  holder = none;
}
