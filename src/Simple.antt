-- ===== src/Simple.antt =====
-- Classes5/simple_sync/*/simple_module.c: a character device that hands out a fixed message, round and
-- round, under a lock. The three copies differ in the lock alone; what they share is here, and
-- Simple.Mutex, Semaphore and Spinlock are the copies.
pub mod Message
pub mod Mutex
pub mod Semaphore
pub mod Spinlock
mod Tests
use agh_systems_programming.Common.{
  ℕ, zero, suc, ◌+◌, ◌-◌, ◌%◌, ◌^◌, min, Bool, true, false, Option, none, some, List, [], ◌∷◌, ◌==◌,
  if◌then◌else◌, get_or,
}
use agh_systems_programming.Common.Locks.{Guard}
use agh_systems_programming.Common.Outcome.{
  Errno, Ret, ok, error, enomem, eintr, Outcome, done, fault, ◌>>=◌, Allocator,
}
use agh_systems_programming.Common.User.{Memory, UserAccess}

-- "-0123456789-ABCDEFGHIJ-", with its terminator, which `sizeof` counts.
abbrev pub msg_str : List ℕ
msg_str =
    45 ∷ 48 ∷ 49 ∷ 50 ∷ 51 ∷ 52 ∷ 53 ∷ 54 ∷ 55 ∷ 56 ∷ 57 ∷ 45 ∷ 65 ∷ 66 ∷ 67 ∷ 68 ∷ 69 ∷ 70 ∷ 71
    ∷ 72 ∷ 73 ∷ 74 ∷ 45 ∷ 0 ∷ []

abbrev pub msg_len : ℕ
msg_len = 24

-- The globals that change: the position, an `int`, and the lock.
pub record Device (Lock : Type 0) : Type 0 where
  pub msg_pos : ℕ
  pub lock : Lock

-- `msg_pos++`, which overflows at the largest `int`.
pub next_pos : ℕ → Outcome ℕ
next_pos p = if p == 2 ^ 31 - 1 then fault else done (p + 1)

-- The loop of `simple_read` with `n` rounds left: the bytes that it puts into the local buffer, and the
-- position that it leaves.
pub fill_loop : ℕ → ℕ → Outcome (List ℕ × ℕ)
unfolding next_pos
fill_loop zero p = done ([], p)
fill_loop (suc n) p =
    next_pos p >>= λ p'. fill_loop n p' >>= λ r. done (get_or msg_str (p % msg_len) 0 ∷ r.0, r.1)

module _ (user : UserAccess) (guard : Guard) (alloc : Allocator) where
  open user use {copy_to_user}
  open guard use {Lock, acquire, release}
  open alloc use {kmalloc}

  -- The number that `copy_to_user` gives back is never below 0, so that it is not looked at.
  pub simple_read :
      (signal : Bool)
      → Memory
      → (user_buf count : ℕ) → Device Lock
      → Outcome (Ret × Device Lock × Memory)
  unfolding fill_loop
  simple_read signal m user_buf count s = elim (acquire signal s.lock) [
    | none ↦ done (error eintr, s, m)
    | some l ↦
        let length_to_copy = min (msg_len - s.msg_pos % msg_len) count in
        elim (kmalloc 0 length_to_copy) [
          | none ↦ done (error enomem, record s { lock = release l }, m)
          | some local_buf ↦
              (fill_loop length_to_copy s.msg_pos >>= λ r. done (
                ok length_to_copy,
                record { msg_pos = r.1; lock = release l },
                (copy_to_user m user_buf r.0).1,
              ))
        ]
  ]

-- `registered` is the error of `register_chrdev`, if it has one; the second part says whether the
-- device is registered.
pub simple_init : Option Errno → Ret × Bool
simple_init none = (ok 0, true)
simple_init (some e) = (error e, false)

pub simple_exit : Bool → Bool
simple_exit registered = false
