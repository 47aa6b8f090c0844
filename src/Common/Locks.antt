-- ===== src/Common/Locks.antt =====
-- The kernel's locks for one holder at a time, as interfaces: what the thread that calls sees of them.
use agh_systems_programming.Common.Tests.{◌==◌, if◌then◌else◌}
use Prim.Native.Nat.{ℕ}
use mathlib.Core.Path.{◌≡◌}
use mathlib.Core.Bool.{Bool}
use mathlib.Core.Option.{Option, some, none}
use native.Mathlib.Omega.{arith}

-- Taking the lock may be interrupted by a signal; giving it back undoes the taking.
pub record Guard : Type 1 where
  pub Lock : Type 0
  pub acquire : (signal : Bool) → Lock → Option Lock
  pub release : Lock → Lock
  pub acquire_back :
      (signal : Bool) (l : Lock) {l' : Lock} → acquire signal l ≡ some l' → release l' ≡ l

-- `mutex_lock_interruptible` or `down_interruptible`: 0 if the lock was taken, else an error. With it
-- stands the call that gives the lock back.
pub record MutexApi : Type 1 where
  pub Mutex : Type 0
  pub lock_interruptible : (signal : Bool) → Mutex → ℕ × Mutex
  pub unlock : Mutex → Mutex
  pub unlock-lock :
      (signal : Bool) (l : Mutex)
      → (lock_interruptible signal l).0 ≡ 0
      → unlock (lock_interruptible signal l).1 ≡ l

-- `spin_lock_irqsave` and `spin_unlock_irqrestore`: the lock is waited for.
pub record SpinApi : Type 1 where
  pub Spinlock : Type 0
  pub spin_lock : Spinlock → Spinlock
  pub spin_unlock : Spinlock → Spinlock
  pub spin_unlock-lock : (l : Spinlock) → spin_unlock (spin_lock l) ≡ l

module _ (api : MutexApi) where
  open api use {Mutex, lock_interruptible, unlock, unlock-lock}

  -- `if (mutex_lock_interruptible(&lock)) return -EINTR;`
  abbrev pub try_acquire : Bool → Mutex → Option Mutex
  try_acquire signal l =
      let (err, l') = lock_interruptible signal l in if err == 0 then some l' else none

  pub try_acquire_back :
      (signal : Bool) (l : Mutex) {l' : Mutex} → try_acquire signal l ≡ some l' → unlock l' ≡ l
  try_acquire_back signal l h = ground (arith, unlock-lock signal l)

  abbrev pub interruptible : Guard
  interruptible = record {
    Lock = Mutex;
    acquire = try_acquire;
    release = unlock;
    acquire_back = try_acquire_back;
  }

module _ (api : SpinApi) where
  open api use {Spinlock, spin_lock, spin_unlock, spin_unlock-lock}

  pub spin_back : (l : Spinlock) {l' : Spinlock} → some (spin_lock l) ≡ some l' → spin_unlock l' ≡ l
  spin_back l h = ground (arith, spin_unlock-lock l)

  abbrev pub spinning : Guard
  spinning = record {
    Lock = Spinlock;
    acquire = λ signal l. some (spin_lock l);
    release = spin_unlock;
    acquire_back = λ signal l {l'} h. spin_back l h;
  }
