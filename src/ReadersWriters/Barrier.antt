-- ===== src/ReadersWriters/Barrier.antt =====
-- Classes1/Task4.c: the critic saves the value each time that every writer has written.
pub mod Record
pub mod Contract
pub mod Results
pub mod Termination
mod Tests
use agh_systems_programming.Common.{
  ℕ, zero, suc, ◌+◌, List, [], ◌∷◌, Bool, true, false, not, ◌==◌, ltb, if◌then◌else◌, get_or, set,
  replicate, Option, none, some,
}
use agh_systems_programming.ReadersWriters.{Protocol, Reach, outside, reads, writes, Thread, System}

-- The fields but for `readers_count` and what belongs to pthreads; `value` is the field `data`.
pub record ConcurrentObject : Type 0 where
  pub value : ℕ
  pub writers_count : ℕ
  pub num_writers : ℕ
  pub writers_record : List Bool

-- The loop of `allocate_object` and of `critic_round`, with `n` rounds left.
unfoldable pub clear_record : ℕ → List Bool → List Bool
clear_record zero xs = xs
clear_record (suc n) [] = []
clear_record (suc n) (x ∷ xs) = false ∷ clear_record n xs

-- `block` is what `malloc` gives.
unfoldable pub allocate_object : (initial_data num_writers : ℕ) → List Bool → ConcurrentObject
unfolding clear_record
allocate_object initial_data num_writers block = record {
  value = initial_data;
  writers_count = 0;
  num_writers = num_writers;
  writers_record = clear_record num_writers block;
}

pub data Call : Type 0 where
  write_to_object : (writer_idx : ℕ) → Call
  critic_round : Call

-- The tests of the two `while` loops.
abbrev pub blocked : Call → ConcurrentObject → Bool
blocked (write_to_object writer_idx) b = b.writers_count == b.num_writers
blocked critic_round b = not (b.writers_count == b.num_writers)

-- `writers_record[writer_idx]` is set, and the writer counted if it was not set before.
abbrev pub mark : ℕ → ConcurrentObject → ConcurrentObject
mark writer_idx b = if get_or b.writers_record writer_idx false then b else record b {
  writers_count = b.writers_count + 1;
  writers_record = set b.writers_record writer_idx true;
}

-- The work behind the loops, and whether it broadcasts.
unfoldable pub work : Call → ℕ → ConcurrentObject → ConcurrentObject × Bool
unfolding clear_record
work (write_to_object writer_idx) val b =
    let marked = mark writer_idx b in
    (record marked { value = val }, marked.writers_count == marked.num_writers)
work critic_round val b = (
  record b { writers_count = 0; writers_record = clear_record b.num_writers b.writers_record },
  true,
)

-- What the critic prints when it is cancelled, if it prints.
unfoldable pub critic_clean_up : ConcurrentObject → Option ℕ
critic_clean_up b = if b.writers_count == b.num_writers then some b.value else none

abbrev pub endless : Call → Bool
endless (write_to_object writer_idx) = false
endless critic_round = true

abbrev pub protocol : Protocol
protocol = record {
  Shared = ConcurrentObject;
  Job = Call;
  endless = endless;
  blocked = blocked;
  work = work;
}

-- The states that the threads reach: readers, the loops of the writers and that of the critic, with the
-- calls that work on the object, the latest first.
abbrev pub Runs : ℕ → System protocol → List (Call × ℕ) → System protocol → Type 0
Runs = Reach protocol

-- The threads that `main` creates: the writers, each with its index, the readers and the critic.
abbrev pub create : (num_writers num_readers writer_runs reader_runs : ℕ) → ℕ → Thread Call
create num_writers num_readers writer_runs reader_runs i =
    if ltb i num_writers
    then record { task = writes (write_to_object i); runs = writer_runs; place = outside }
    else (if ltb i (num_writers + num_readers)
        then record { task = reads; runs = reader_runs; place = outside }
        else record { task = writes critic_round; runs = 1; place = outside })

-- `main` when all threads are created and none has run.
abbrev pub start :
    (num_writers num_readers writer_runs reader_runs initial_data : ℕ) → List Bool → System protocol
start num_writers num_readers writer_runs reader_runs initial_data block = record {
  shared = allocate_object initial_data num_writers block;
  readers_count = 0;
  reader_mutex = false;
  writer_mutex = false;
  thread = create num_writers num_readers writer_runs reader_runs;
}
