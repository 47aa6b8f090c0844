-- ===== src/Attempts/Unlimited.antt =====
-- Classes1/Task3.c, where an object has no limit of readers: its own objects and steps. Threads and the
-- places where they stand are those of the parent module.
mod Simulation
mod Tests
use agh_systems_programming.Common.{ℕ, ◌+◌, ◌-◌, ◌<◌, ◌≡◌, Bool, true, false, ◌==◌, if◌then◌else◌}
use agh_systems_programming.Common.Family.{update}
use agh_systems_programming.Attempts.{
  Place, outside, entering, reading, leaving, writing, reads, writes, Thread, create,
}

-- `value` is the field `data`.
pub record ConcurrentObject : Type 0 where
  pub value : ℕ
  pub readers_count : ℕ
  pub array_idx : ℕ
  pub readers_mutex : Bool
  pub writers_mutex : Bool

abbrev pub allocate_object : (initial_data : ℕ) → (array_idx : ℕ) → ConcurrentObject
allocate_object initial_data array_idx = record {
  value = initial_data;
  readers_count = 0;
  array_idx = array_idx;
  readers_mutex = false;
  writers_mutex = false;
}

pub record System : Type 0 where
  pub object : ℕ → ConcurrentObject
  pub thread : ℕ → Thread

abbrev pub at : System → ℕ → ConcurrentObject → ℕ → Place → System
at s o b i p = record {
  object = update s.object o b;
  thread = update s.thread i (record (s.thread i) { place = p });
}

-- A call that has succeeded.
abbrev pub done_at : System → ℕ → ConcurrentObject → ℕ → System
done_at s o b i = record {
  object = update s.object o b;
  thread =
      update s.thread i (record (s.thread i) { place = outside; runs = (s.thread i).runs - 1 });
}

-- `readers_count == 0 && pthread_mutex_trylock(…) != 0`
abbrev pub busy : ConcurrentObject → Bool
busy b = if b.readers_count == 0 then b.writers_mutex else false

-- What that test leaves in the writers' mutex, if it fails.
abbrev pub tried : ConcurrentObject → Bool
tried b = if b.readers_count == 0 then true else b.writers_mutex

-- A step of one of the `n` threads, cut as the steps of the parent module are.
pub data Step (n size : ℕ) (s : System) : System → Type 0 where
  write_refused :
      (i o : ℕ)
      → i < n
      → o < size
      → (s.thread i).task ≡ writes
      → (s.thread i).place ≡ outside
      → 0 < (s.thread i).runs
      → (s.object o).writers_mutex ≡ true
      → Step n size s s
  write_start :
      (i o : ℕ)
      → i < n
      → o < size
      → (s.thread i).task ≡ writes
      → (s.thread i).place ≡ outside
      → 0 < (s.thread i).runs
      → (s.object o).writers_mutex ≡ false
      → Step n size s (at s o (record (s.object o) { writers_mutex = true }) i (writing o))
  write_end :
      (i o v : ℕ)
      → i < n
      → (s.thread i).place ≡ writing o
      → Step n size s (done_at s o (record (s.object o) { value = v; writers_mutex = false }) i)
  read_start :
      (i o : ℕ)
      → i < n
      → o < size
      → (s.thread i).task ≡ reads
      → (s.thread i).place ≡ outside
      → 0 < (s.thread i).runs
      → (s.object o).readers_mutex ≡ false
      → Step n size s (at s o (record (s.object o) { readers_mutex = true }) i (entering o))
  read_busy :
      (i o : ℕ)
      → i < n
      → (s.thread i).place ≡ entering o
      → busy (s.object o) ≡ true
      → Step n size s (at s o (record (s.object o) { readers_mutex = false }) i outside)
  read_admit :
      (i o : ℕ)
      → i < n
      → (s.thread i).place ≡ entering o
      → busy (s.object o) ≡ false
      → Step n size s (
          at s o
            (record (s.object o) {
              writers_mutex = tried (s.object o);
              readers_count = (s.object o).readers_count + 1;
              readers_mutex = false;
            })
            i
            (reading o))
  read_leave :
      (i o : ℕ)
      → i < n
      → (s.thread i).place ≡ reading o
      → (s.object o).readers_mutex ≡ false
      → Step n size s (
          at s o
            (record (s.object o) {
              readers_count = (s.object o).readers_count - 1;
              readers_mutex = true;
            })
            i
            (leaving o))
  read_end :
      (i o : ℕ)
      → i < n
      → (s.thread i).place ≡ leaving o
      → Step n size s (
          done_at s o
            (record (s.object o) {
              writers_mutex =
                  if (s.object o).readers_count == 0 then false else (s.object o).writers_mutex;
              readers_mutex = false;
            })
            i)

pub data Reach (n size : ℕ) (s : System) : System → Type 0 where
  here : Reach n size s s
  next : {t u : System} → Reach n size s t → Step n size t u → Reach n size s u

-- `main` up to the joins.
abbrev pub start : (initial_data num_writers writer_turns reader_turns : ℕ) → System
start initial_data num_writers writer_turns reader_turns = record {
  object = allocate_object initial_data;
  thread = create num_writers writer_turns reader_turns;
}
