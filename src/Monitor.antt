-- ===== src/Monitor.antt =====
-- Readers and writers around one buffer, a mutex and one condition variable: the threads of
-- Classes1/Task2.c and Classes1/Task6.c. The two programs differ in their buffer, which is a
-- `Protocol`; the threads and their interleavings are here.
pub mod Ring
pub mod Counts
pub mod Invariant
pub mod Safety
pub mod Progress
pub mod Deadlock
pub mod Termination
pub mod Bounded
pub mod Phased
use agh_systems_programming.Common.{
  ℕ, zero, suc, ◌+◌, ◌-◌, ◌<◌, ◌≡◌, Bool, true, false, Option, none, some, List, [], ◌∷◌, ◌++◌,
  ◌==◌, ltb, if◌then◌else◌,
}

pub data Role : Type 0 where
  reader writer : Role

-- What a program does with its buffer while it holds the mutex. `blocked` is the test of the `while`
-- loop in front of the work; `read` and `write` are the work behind it, and say whether it broadcasts
-- on the condition variable.
pub record Protocol : Type 1 where
  pub Buffer : Type 0
  pub blocked : Role → Buffer → Bool
  pub read : Buffer → ℕ × Buffer × Bool
  pub write : ℕ → Buffer → Buffer × Bool

-- Where a thread stands in its call: outside of it, at the test of the loop, in `pthread_cond_wait`
-- not yet woken, woken and in need of the mutex, or behind the loop.
pub data Place : Type 0 where
  outside testing waiting woken working : Place

-- `runs` counts the calls that are not done, with the one that the thread is in.
pub record Thread : Type 0 where
  pub role : Role
  pub runs : ℕ
  pub place : Place

-- Does a thread there hold the mutex?
abbrev pub inside : Place → Bool
inside testing = true
inside working = true
inside _ = false

abbrev pub is_waiting : Place → Bool
is_waiting waiting = true
is_waiting _ = false

-- Does a thread there stand in a call?
abbrev pub in_call : Place → Bool
in_call outside = false
in_call _ = true

-- `pthread_cond_broadcast`, for one thread.
abbrev pub roused : Thread → Thread
roused t = if is_waiting t.place then record t { place = woken } else t

abbrev pub goto : (ℕ → Thread) → ℕ → Place → ℕ → Thread
goto f i p j = if j == i then record (f j) { place = p } else f j

-- Thread `i` ends a call, and the others are woken if it has broadcast.
abbrev pub finish : (ℕ → Thread) → ℕ → Bool → ℕ → Thread
finish f i all j =
    if j == i
    then record (f j) { place = outside; runs = (f j).runs - 1 }
    else (if all then roused (f j) else f j)

-- The threads that `main` creates, the readers first.
abbrev pub create : (num_readers reader_runs writer_runs : ℕ) → ℕ → Thread
create num_readers reader_runs writer_runs i =
    if ltb i num_readers
    then record { role = reader; runs = reader_runs; place = outside }
    else record { role = writer; runs = writer_runs; place = outside }

pub data Event : Type 0 where
  silent : Event
  took : ℕ → Event
  gave : ℕ → Event

module _ (protocol : Protocol) where
  open protocol use {Buffer, blocked, read, write}

  pub record System : Type 0 where
    pub buffer : Buffer
    pub thread : ℕ → Thread
    pub holder : Option ℕ

  -- A step of one of the `n` threads. A wait gives the mutex up, and may end with no broadcast, as
  -- POSIX allows. The work, its broadcast and the unlock are one step: the mutex is held until the
  -- end, so that no other thread moves in between but to wake.
  pub data Step (n : ℕ) (s : System) : Event → System → Type 0 where
    lock :
        (i : ℕ)
        → i < n
        → (s.thread i).place ≡ outside
        → 0 < (s.thread i).runs
        → s.holder ≡ none
        → Step n s silent (record s { thread = goto s.thread i testing; holder = some i })
    wait :
        (i : ℕ)
        → i < n
        → (s.thread i).place ≡ testing
        → blocked (s.thread i).role s.buffer ≡ true
        → Step n s silent (record s { thread = goto s.thread i waiting; holder = none })
    pass :
        (i : ℕ)
        → i < n
        → (s.thread i).place ≡ testing
        → blocked (s.thread i).role s.buffer ≡ false
        → Step n s silent (record s { thread = goto s.thread i working })
    wake :
        (i : ℕ)
        → i < n
        → (s.thread i).place ≡ waiting
        → Step n s silent (record s { thread = goto s.thread i woken })
    relock :
        (i : ℕ)
        → i < n
        → (s.thread i).place ≡ woken
        → s.holder ≡ none
        → Step n s silent (record s { thread = goto s.thread i testing; holder = some i })
    take_out :
        (i : ℕ)
        → i < n
        → (s.thread i).place ≡ working
        → (s.thread i).role ≡ reader
        → Step n s (took (read s.buffer).0) (record {
          buffer = (read s.buffer).1;
          thread = finish s.thread i (read s.buffer).2;
          holder = none;
        })
    put_in :
        (i v : ℕ)
        → i < n
        → (s.thread i).place ≡ working
        → (s.thread i).role ≡ writer
        → Step n s (gave v) (record {
          buffer = (write v s.buffer).0;
          thread = finish s.thread i (write v s.buffer).1;
          holder = none;
        })

  abbrev pub given : Event → List ℕ
  given (gave v) = v ∷ []
  given _ = []

  abbrev pub taken : Event → List ℕ
  taken (took v) = v ∷ []
  taken _ = []

  -- The states that `n` threads reach from `s`, with the values written and those read on the way.
  pub data Reach (n : ℕ) (s : System) : List ℕ → List ℕ → System → Type 0 where
    here : Reach n s [] [] s
    next :
        {ws rs : List ℕ} {t u : System} {e : Event}
        → Reach n s ws rs t
        → Step n t e u
        → Reach n s (ws ++ given e) (rs ++ taken e) u
