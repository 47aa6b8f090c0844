-- ===== src/ReadersWriters.antt =====
-- Readers and writers round one object with two mutexes: the threads of Classes1/Task1.c and
-- Classes1/Task4.c. The readers are the same in both; what the other threads do with the object, and
-- for what they wait on the condition variable, is a `Protocol`.
pub mod Tally
pub mod Invariant
pub mod Waits
pub mod Reached
pub mod Tasks
pub mod Deadlock
pub mod Termination
pub mod First
pub mod Barrier
use agh_systems_programming.Common.{
  ℕ, zero, suc, ◌+◌, ◌-◌, ◌<◌, ◌≡◌, ◌≢◌, Bool, true, false, List, [], ◌∷◌, ◌==◌, if◌then◌else◌,
}
use agh_systems_programming.Common.Family.{update}

-- The fields of the object but for `readers_count` and the mutexes, and the calls that work on them with
-- the writers' mutex: `blocked` is the test of the `while` loop in front of the work, and `work` the
-- rest of the call, with the value that `rand` gives; it says whether it broadcasts. A call that is made
-- for ever is `endless`.
pub record Protocol : Type 1 where
  pub Shared : Type 0
  pub Job : Type 0
  pub endless : Job → Bool
  pub blocked : Job → Shared → Bool
  pub work : Job → ℕ → Shared → Shared × Bool

-- Where a thread stands. A reader: outside of its call, behind `readers_count++`, admitted, or behind
-- `readers_count--`. Another thread: outside, at the test of its loop, in `pthread_cond_wait` not yet
-- woken, woken and in need of the mutex, or behind the loop.
pub data Place : Type 0 where
  outside counted reading leaving testing waiting woken working : Place

pub data Task (Job : Type 0) : Type 0 where
  reads : Task Job
  writes : Job → Task Job

-- `runs` counts the calls that are not done, with the one that the thread is in.
pub record Thread (Job : Type 0) : Type 0 where
  pub task : Task Job
  pub runs : ℕ
  pub place : Place

abbrev pub woken_up : Place → Place
woken_up waiting = woken
woken_up p = p

module _ {Job : Type 0} where
  abbrev pub goto : (ℕ → Thread Job) → ℕ → Place → ℕ → Thread Job
  goto f i p = update f i (record (f i) { place = p })

  -- The end of a call.
  abbrev pub finish : (ℕ → Thread Job) → ℕ → ℕ → Thread Job
  finish f i = update f i (record (f i) { place = outside; runs = (f i).runs - 1 })

  -- `pthread_cond_broadcast`
  abbrev pub rouse : Bool → (ℕ → Thread Job) → ℕ → Thread Job
  rouse all f j = if all then record (f j) { place = woken_up (f j).place } else f j

pub data Event (Job : Type 0) : Type 0 where
  silent : Event Job
  did : Job → ℕ → Event Job

abbrev pub note : {Job : Type 0} → Event Job → List (Job × ℕ) → List (Job × ℕ)
note silent es = es
note (did j v) es = (j, v) ∷ es

module _ (protocol : Protocol) where
  open protocol use {Shared, Job, endless, blocked, work}

  -- A mutex is locked or not: who locked it is not looked at when it is unlocked.
  pub record System : Type 0 where
    pub shared : Shared
    pub readers_count : ℕ
    pub reader_mutex : Bool
    pub writer_mutex : Bool
    pub thread : ℕ → Thread Job

  abbrev pub run : Job → ℕ → ℕ
  run j k = if endless j then k else k - 1

  -- A step of one of the `n` threads. What stands between taking a mutex and the next call that may
  -- have to wait, an unlock included, is one step, since no other thread can see what lies between.
  pub data Step (n : ℕ) (s : System) : Event Job → System → Type 0 where
    enter :
        (i : ℕ)
        → i < n
        → (s.thread i).task ≡ reads
        → (s.thread i).place ≡ outside
        → 0 < (s.thread i).runs
        → s.reader_mutex ≡ false
        → Step n s silent (record s {
          readers_count = s.readers_count + 1;
          reader_mutex = true;
          thread = goto s.thread i counted;
        })
    first :
        (i : ℕ)
        → i < n
        → (s.thread i).place ≡ counted
        → s.readers_count ≡ 1
        → s.writer_mutex ≡ false
        → Step n s silent (record s {
          reader_mutex = false;
          writer_mutex = true;
          thread = goto s.thread i reading;
        })
    follow :
        (i : ℕ)
        → i < n
        → (s.thread i).place ≡ counted
        → s.readers_count ≢ 1
        → Step n s silent (record s { reader_mutex = false; thread = goto s.thread i reading })
    leave :
        (i : ℕ)
        → i < n
        → (s.thread i).place ≡ reading
        → s.reader_mutex ≡ false
        → Step n s silent (record s {
          readers_count = s.readers_count - 1;
          reader_mutex = true;
          thread = goto s.thread i leaving;
        })
    last :
        (i : ℕ)
        → i < n
        → (s.thread i).place ≡ leaving
        → s.readers_count ≡ 0
        → Step n s silent
            (record s { reader_mutex = false; writer_mutex = false; thread = finish s.thread i })
    quit :
        (i : ℕ)
        → i < n
        → (s.thread i).place ≡ leaving
        → s.readers_count ≢ 0
        → Step n s silent (record s { reader_mutex = false; thread = finish s.thread i })
    lock :
        (i : ℕ) (j : Job)
        → i < n
        → (s.thread i).task ≡ writes j
        → (s.thread i).place ≡ outside
        → 0 < (s.thread i).runs
        → s.writer_mutex ≡ false
        → Step n s silent (record s { writer_mutex = true; thread = goto s.thread i testing })
    wait :
        (i : ℕ) (j : Job)
        → i < n
        → (s.thread i).task ≡ writes j
        → (s.thread i).place ≡ testing
        → blocked j s.shared ≡ true
        → Step n s silent (record s { writer_mutex = false; thread = goto s.thread i waiting })
    pass :
        (i : ℕ) (j : Job)
        → i < n
        → (s.thread i).task ≡ writes j
        → (s.thread i).place ≡ testing
        → blocked j s.shared ≡ false
        → Step n s silent (record s { thread = goto s.thread i working })
    wake :
        (i : ℕ)
        → i < n
        → (s.thread i).place ≡ waiting
        → Step n s silent (record s { thread = goto s.thread i woken })
    relock :
        (i : ℕ)
        → i < n
        → (s.thread i).place ≡ woken
        → s.writer_mutex ≡ false
        → Step n s silent (record s { writer_mutex = true; thread = goto s.thread i testing })
    work_done :
        (i v : ℕ) (j : Job)
        → i < n
        → (s.thread i).task ≡ writes j
        → (s.thread i).place ≡ working
        → Step n s (did j v) (record s {
          shared = (work j v s.shared).0;
          writer_mutex = false;
          thread =
              update
                (rouse (work j v s.shared).1 s.thread)
                i
                (record (s.thread i) { place = outside; runs = run j (s.thread i).runs });
        })

  -- The states that `n` threads reach from `s`, with the work done on the way, the latest first.
  pub data Reach (n : ℕ) (s : System) : List (Job × ℕ) → System → Type 0 where
    here : Reach n s [] s
    next :
        {es : List (Job × ℕ)} {t u : System} {e : Event Job}
        → Reach n s es t
        → Step n t e u
        → Reach n s (note e es) u
