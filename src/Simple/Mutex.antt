-- ===== src/Simple/Mutex.antt =====
-- Classes5/simple_sync/mutex/simple_module.c: the lock is a mutex, whose wait a signal ends.
use agh_systems_programming.Common.{ℕ, Bool, Option}
use agh_systems_programming.Common.Locks.{MutexApi, interruptible}
use agh_systems_programming.Common.Outcome.{Errno, Ret, Outcome, Allocator}
use agh_systems_programming.Common.User.{Memory, UserAccess}
use agh_systems_programming.Simple
use agh_systems_programming.Simple.{Device}

pub simple_init : Option Errno → Ret × Bool
unfolding Simple.simple_init
simple_init = Simple.simple_init

pub simple_exit : Bool → Bool
unfolding Simple.simple_exit
simple_exit = Simple.simple_exit

module _ (user : UserAccess) (api : MutexApi) (alloc : Allocator) where
  open api use {Mutex}

  pub simple_read :
      (signal : Bool)
      → Memory
      → (user_buf count : ℕ) → Device Mutex
      → Outcome (Ret × Device Mutex × Memory)
  unfolding Simple.simple_read
  simple_read = Simple.simple_read user (interruptible api) alloc
