-- ===== src/Linked/Mutex.antt =====
-- Classes5/linked_buffer/mutex/linked_buffer.c: one mutex for readers and writers, which a signal
-- interrupts.
use agh_systems_programming.Common.{
  ℕ, ◌≡◌, Bool, Option, none, some, ◌==◌, if◌then◌else◌, arith, ◌≢◌, ltb,
}
use agh_systems_programming.Common.Outcome.{Errno, Ret, ok, error, eintr}
use agh_systems_programming.Common.User.{Memory, UserAccess}
use agh_systems_programming.Linked
use agh_systems_programming.Linked.{Device, Call, Module}
use agh_systems_programming.Linked.Locks.{Locking}

-- The kernel's mutex: 0 if it was taken, and an error, with the mutex as it was, if a signal came.
pub record MutexApi : Type 1 where
  pub Mutex : Type 0
  pub mutex_lock_interruptible : (signal : Bool) → Mutex → ℕ × Mutex
  pub mutex_unlock : Mutex → Mutex
  pub lock_unlock :
      (signal : Bool) (l : Mutex)
      → (mutex_lock_interruptible signal l).0 ≡ 0
      → mutex_unlock (mutex_lock_interruptible signal l).1 ≡ l

module _ (api : MutexApi) where
  open api use {Mutex, mutex_lock_interruptible, mutex_unlock, lock_unlock}

  abbrev pub acquire : Bool → Mutex → Option Mutex
  acquire signal l =
      let (err, l') = mutex_lock_interruptible signal l in if err == 0 then some l' else none

  pub acquire_back :
      (signal : Bool) (l : Mutex) {l' : Mutex} → acquire signal l ≡ some l' → mutex_unlock l' ≡ l
  acquire_back signal l h = ground (arith, lock_unlock signal l)

  abbrev pub locking : Locking
  locking = record {
    Lock = Mutex;
    read_lock = acquire;
    read_unlock = mutex_unlock;
    write_lock = acquire;
    write_unlock = mutex_unlock;
    read_back = acquire_back;
    write_back = acquire_back;
  }

  pub linked_proc_show : Device Mutex → ℕ × ℕ × ℕ
  unfolding Linked.linked_proc_show
  linked_proc_show = Linked.linked_proc_show

  pub linked_init : Mutex → Bool → Option Errno → Ret × Module Mutex
  unfolding Linked.linked_init
  linked_init = Linked.linked_init

  pub linked_exit : Module Mutex → Module Mutex
  unfolding Linked.linked_exit
  linked_exit = Linked.linked_exit

  pub clean_list : Device Mutex → Device Mutex
  unfolding Linked.clean_list
  clean_list = Linked.clean_list

  module _ (user : UserAccess) where
    pub linked_read :
        (signal : Bool) → Memory → (user_buf count f_pos : ℕ) → Device Mutex → Call Mutex
    unfolding Linked.linked_read
    linked_read = Linked.linked_read user locking

    pub linked_write :
        (kzalloc signal : ℕ → Bool)
        → Memory
        → (user_buf count f_pos : ℕ) → Device Mutex
        → Option (Call Mutex)
    unfolding Linked.linked_write
    linked_write = Linked.linked_write user locking

    -- A signal while a reader waits for the mutex ends the call with -EINTR and changes nothing,
    -- the position and the user's memory included; unless the position lies behind the end, where
    -- the call returns 0 without asking for the mutex.
    pub linked_read_interrupted :
        (signal : Bool) (m : Memory) (user_buf count f_pos : ℕ) (s : Device Mutex)
        → (mutex_lock_interruptible signal s.lock).0 ≢ 0
        → linked_read signal m user_buf count f_pos s ≡ record {
          ret = if ltb s.total_length f_pos then ok 0 else error eintr;
          f_pos = f_pos;
          device = s;
          memory = m;
        }
    unfolding linked_read
    linked_read_interrupted signal m user_buf count f_pos s h = ground arith
