-- ===== src/Attempts.antt =====
-- Classes1/Task3.c and Classes1/Task5.c: readers and writers of an array of objects, who try to take the
-- writers' mutex of one and else give the call up. In Task5 an object also has a limit of readers.
pub mod Exclusion
pub mod Limit
pub mod Standstill
pub mod Completion
pub mod Results
pub mod Unlimited
mod Tests
use agh_systems_programming.Common.{
  ℕ, zero, suc, ◌+◌, ◌-◌, ◌<◌, ◌≡◌, ◌≢◌, Bool, true, false, ◌&&◌, Option, none, some, ◌==◌, ltb,
  if◌then◌else◌,
}
use agh_systems_programming.Common.Family.{update}

-- `value` is the field `data`. An object of Task3 has no limit.
pub record ConcurrentObject : Type 0 where
  pub value : ℕ
  pub readers_count : ℕ
  pub array_idx : ℕ
  pub readers_limit : Option ℕ
  pub readers_mutex : Bool
  pub writers_mutex : Bool

abbrev pub allocate_object :
    (initial_data : ℕ) → (readers_limit : Option ℕ) → (array_idx : ℕ) → ConcurrentObject
allocate_object initial_data readers_limit array_idx = record {
  value = initial_data;
  readers_count = 0;
  array_idx = array_idx;
  readers_limit = readers_limit;
  readers_mutex = false;
  writers_mutex = false;
}

-- The array that `main` of Task3 sets up, and that of Task5, where `draw i` is what `rand` gives for the
-- object at `i`: the limit and the index change places in that call.
abbrev pub unlimited : (initial_data : ℕ) → ℕ → ConcurrentObject
unlimited initial_data i = allocate_object initial_data none i

abbrev pub limited : (initial_data : ℕ) → (draw : ℕ → ℕ) → ℕ → ConcurrentObject
limited initial_data draw i = allocate_object initial_data (some i) (draw i)

-- The array of either program.
abbrev pub objects_of : Option (ℕ → ℕ) → (initial_data : ℕ) → ℕ → ConcurrentObject
objects_of none initial_data = unlimited initial_data
objects_of (some draw) initial_data = limited initial_data draw

-- Where a thread stands, and at which object: outside of its call; behind the lock of the readers' mutex
-- on the way in; admitted; behind `readers_count--` on the way out; behind the lock of the writers'
-- mutex for a write.
pub data Place : Type 0 where
  outside : Place
  entering reading leaving writing : ℕ → Place

pub data Task : Type 0 where
  reads writes : Task

-- `runs` counts the calls that are still to succeed.
pub record Thread : Type 0 where
  pub task : Task
  pub runs : ℕ
  pub place : Place

pub record System : Type 0 where
  pub object : ℕ → ConcurrentObject
  pub thread : ℕ → Thread

abbrev pub at : System → ℕ → ConcurrentObject → ℕ → Place → System
at s o b i p = record {
  object = update s.object o b;
  thread = update s.thread i (record (s.thread i) { place = p });
}

-- A call that has succeeded.
abbrev pub done_at : System → ℕ → ConcurrentObject → ℕ → System
done_at s o b i = record {
  object = update s.object o b;
  thread =
      update s.thread i (record (s.thread i) { place = outside; runs = (s.thread i).runs - 1 });
}

-- `readers_count == 0 && pthread_mutex_trylock(…) != 0`
abbrev pub busy : ConcurrentObject → Bool
busy b = if b.readers_count == 0 then b.writers_mutex else false

-- What that test leaves in the writers' mutex, if it fails.
abbrev pub tried : ConcurrentObject → Bool
tried b = if b.readers_count == 0 then true else b.writers_mutex

abbrev pub is_full : ConcurrentObject → Bool
is_full b = elim b.readers_limit [ none ↦ false | some k ↦ b.readers_count == k ]

-- A step of one of the `n` threads, of whom each takes one of the first `size` objects for a call. What
-- stands between taking a mutex and the next call that may have to wait is one step.
pub data Step (n size : ℕ) (s : System) : System → Type 0 where
  write_refused :
      (i o : ℕ)
      → i < n
      → o < size
      → (s.thread i).task ≡ writes
      → (s.thread i).place ≡ outside
      → 0 < (s.thread i).runs
      → (s.object o).writers_mutex ≡ true
      → Step n size s s
  write_start :
      (i o : ℕ)
      → i < n
      → o < size
      → (s.thread i).task ≡ writes
      → (s.thread i).place ≡ outside
      → 0 < (s.thread i).runs
      → (s.object o).writers_mutex ≡ false
      → Step n size s (at s o (record (s.object o) { writers_mutex = true }) i (writing o))
  write_end :
      (i o v : ℕ)
      → i < n
      → (s.thread i).place ≡ writing o
      → Step n size s (done_at s o (record (s.object o) { value = v; writers_mutex = false }) i)
  read_start :
      (i o : ℕ)
      → i < n
      → o < size
      → (s.thread i).task ≡ reads
      → (s.thread i).place ≡ outside
      → 0 < (s.thread i).runs
      → (s.object o).readers_mutex ≡ false
      → Step n size s (at s o (record (s.object o) { readers_mutex = true }) i (entering o))
  read_busy :
      (i o : ℕ)
      → i < n
      → (s.thread i).place ≡ entering o
      → busy (s.object o) ≡ true
      → Step n size s (at s o (record (s.object o) { readers_mutex = false }) i outside)
  read_full :
      (i o : ℕ)
      → i < n
      → (s.thread i).place ≡ entering o
      → busy (s.object o) ≡ false
      → is_full (s.object o) ≡ true
      → Step n size s (
          at s o
            (record (s.object o) { writers_mutex = tried (s.object o); readers_mutex = false })
            i
            outside)
  read_admit :
      (i o : ℕ)
      → i < n
      → (s.thread i).place ≡ entering o
      → busy (s.object o) ≡ false
      → is_full (s.object o) ≡ false
      → Step n size s (
          at s o
            (record (s.object o) {
              writers_mutex = tried (s.object o);
              readers_count = (s.object o).readers_count + 1;
              readers_mutex = false;
            })
            i
            (reading o))
  read_leave :
      (i o : ℕ)
      → i < n
      → (s.thread i).place ≡ reading o
      → (s.object o).readers_mutex ≡ false
      → Step n size s (
          at s o
            (record (s.object o) {
              readers_count = (s.object o).readers_count - 1;
              readers_mutex = true;
            })
            i
            (leaving o))
  read_end :
      (i o : ℕ)
      → i < n
      → (s.thread i).place ≡ leaving o
      → Step n size s (
          done_at s o
            (record (s.object o) {
              writers_mutex =
                  if (s.object o).readers_count == 0 then false else (s.object o).writers_mutex;
              readers_mutex = false;
            })
            i)

pub data Reach (n size : ℕ) (s : System) : System → Type 0 where
  here : Reach n size s s
  next : {t u : System} → Reach n size s t → Step n size t u → Reach n size s u

-- The threads that `main` creates, the writers first.
abbrev pub create : (num_writers writer_turns reader_turns : ℕ) → ℕ → Thread
create num_writers writer_turns reader_turns i =
    if ltb i num_writers
    then record { task = writes; runs = writer_turns; place = outside }
    else record { task = reads; runs = reader_turns; place = outside }

abbrev pub start :
    (objects : ℕ → ConcurrentObject) → (num_writers writer_turns reader_turns : ℕ) → System
start objects num_writers writer_turns reader_turns = record {
  object = objects;
  thread = create num_writers writer_turns reader_turns;
}
