-- ===== src/Simple/Spinlock.antt =====
-- Classes5/simple_sync/spinlock/simple_module.c: the lock is a spinlock.
use agh_systems_programming.Common.{
  ℕ, Bool, Option, ◌+◌, ◌^◌, ◌<◌, ◌≡◌, arith, Option-cases, inl, inr, ◌⊎◌, refl, ◌≤◌,
}
use agh_systems_programming.Common.Locks.{SpinApi, spinning}
use agh_systems_programming.Common.Outcome.{Errno, Ret, ok, error, enomem, Outcome, done, Allocator}
use agh_systems_programming.Common.User.{Memory, UserAccess}
use agh_systems_programming.Simple
use agh_systems_programming.Simple.{Device, msg_len}
use agh_systems_programming.Simple.Message.{share, part, simple_read_lem, simple_read_fails}

pub simple_init : Option Errno → Ret × Bool
unfolding Simple.simple_init
simple_init = Simple.simple_init

pub simple_exit : Bool → Bool
unfolding Simple.simple_exit
simple_exit = Simple.simple_exit

module _ (user : UserAccess) (api : SpinApi) (alloc : Allocator) where
  open api use {Spinlock}

  pub simple_read :
      (signal : Bool)
      → Memory
      → (user_buf count : ℕ) → Device Spinlock
      → Outcome (Ret × Device Spinlock × Memory)
  unfolding Simple.simple_read
  simple_read = Simple.simple_read user (spinning api) alloc

  -- Under the spinlock a call is not interrupted: with the position below the point where it may
  -- overflow, it fails for want of memory alone, and else returns a number of bytes not above `count`
  -- and the position moves by as many.
  pub simple_read_spinning :
      (signal : Bool) (m : Memory) (user_buf count : ℕ) (s : Device Spinlock)
      → s.msg_pos + msg_len < 2 ^ 31
      → (simple_read signal m user_buf count s ≡ done (error enomem, s, m))
        ⊎ ((n : ℕ) × (m' : Memory) × (n ≤ count)
            × (simple_read signal m user_buf count s
                ≡ done (ok n, record s { msg_pos = s.msg_pos + n }, m')))
  unfolding simple_read
  simple_read_spinning signal m user_buf count s small =
      elim (Option-cases (alloc.kmalloc 0 (share s.msg_pos count))) [
        | inl out ↦
            inl
              ((simple_read_fails user (spinning api) alloc signal m user_buf count s).1 _ refl out)
        | inr (b, block) ↦
            let n = share s.msg_pos count in
            inr (
              n,
              (user.copy_to_user m user_buf (part s.msg_pos n)).1,
              omega arith,
              simple_read_lem user (spinning api) alloc signal m user_buf count s refl block
                  (omega arith),
            )
      ]
