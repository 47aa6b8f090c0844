-- ===== src/ReadersWriters/First.antt =====
-- Classes1/Task1.c: readers together, and each writer alone.
pub mod Results
pub mod Termination
mod Tests
use agh_systems_programming.Common.{ℕ, zero, Bool, false, ltb, if◌then◌else◌}
use agh_systems_programming.ReadersWriters.{Protocol, outside, reads, writes, Thread, System}

pub data Write : Type 0 where
  write_to_concurrent_object : Write

-- A writer waits for nothing but the mutex: there is no loop in front of its work.
abbrev pub protocol : Protocol
protocol = record {
  Shared = ℕ;
  Job = Write;
  endless = λ j. false;
  blocked = λ j b. false;
  work = λ j val b. (val, false);
}

-- The threads that `main` creates, the readers first.
abbrev pub create : (num_readers reader_runs writer_runs : ℕ) → ℕ → Thread Write
create num_readers reader_runs writer_runs i =
    if ltb i num_readers
    then record { task = reads; runs = reader_runs; place = outside }
    else record { task = writes write_to_concurrent_object; runs = writer_runs; place = outside }

abbrev pub allocate_concurrent_object : (initial_data : ℕ) → (ℕ → Thread Write) → System protocol
allocate_concurrent_object initial_data threads = record {
  shared = initial_data;
  readers_count = 0;
  reader_mutex = false;
  writer_mutex = false;
  thread = threads;
}

-- `main` when all threads are created and none has run.
abbrev pub start : (num_readers reader_runs writer_runs initial_data : ℕ) → System protocol
start num_readers reader_runs writer_runs initial_data =
    allocate_concurrent_object initial_data (create num_readers reader_runs writer_runs)
