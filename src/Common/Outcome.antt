-- ===== src/Common/Outcome.antt =====
-- Results of the C functions: error codes, counts, and runs that end in undefined behaviour.
use agh_systems_programming.Common.Tests.{if◌then◌else◌, ltb}
use agh_systems_programming.Common.Lists.{length, set, replicate, length-replicate}
use Prim.Native.Nat.{ℕ, ◌+◌, ◌%◌, ◌^◌, ◌<◌}
use mathlib.Core.Path.{◌≡◌}
use native.Mathlib.Omega.{arith}
use mathlib.Core.Option.{Option, some, none}
use mathlib.Core.List.{List, [], ◌∷◌}

-- The error codes that the sources return, negated, from `linux/errno.h`.
pub data Errno : Type 0 where
  enomem efault eintr einval : Errno

-- A `ssize_t` or `int` result: a number, or a negated error code.
pub data Ret : Type 0 where
  ok : ℕ → Ret
  error : Errno → Ret

-- `fault` is undefined behaviour: an access out of bounds, or a division by zero.
pub data Outcome {ℓ} (A : Type ℓ) : Type ℓ where
  done : A → Outcome A
  fault : Outcome A

pub done-injective {ℓ} : {A : Type ℓ} {a b : A} → done a ≡ done b → a ≡ b
done-injective h = cc

pub ok-injective : {a b : ℕ} → ok a ≡ ok b → a ≡ b
ok-injective h = cc

infixl 5 ◌>>=◌
abbrev pub ◌>>=◌ {ℓ κ} : {A : Type ℓ} {B : Type κ} → Outcome A → (A → Outcome B) → Outcome B
done a >>= f = f a
fault >>= f = fault

-- `buf[i] = v`
abbrev pub store : List ℕ → ℕ → ℕ → Outcome (List ℕ)
store buf i v = if ltb i (length buf) then done (set buf i v) else fault

-- Arithmetic of `size_t`, and of `loff_t` as a bit pattern.
abbrev pub u64 : ℕ → ℕ
u64 n = n % 2 ^ 64

-- Arithmetic of a 32-bit unsigned integer.
abbrev pub u32 : ℕ → ℕ
u32 n = n % 2 ^ 32

-- Consecutive bytes of a buffer are overwritten.
abbrev pub store_bytes : List ℕ → ℕ → List ℕ → Outcome (List ℕ)
store_bytes buf p [] = done buf
store_bytes buf p (x ∷ xs) = store buf p x >>= λ buf'. store_bytes buf' (p + 1) xs

-- The kernel's allocator: the block that the k-th call of `kmalloc` in a handler returns, with
-- what happens to stand in it, or NULL. Sizes from 2 ^ 31 on are never served.
pub record Allocator : Type 0 where
  pub kmalloc : ℕ → ℕ → Option (List ℕ)
  pub kmalloc_size : (k n : ℕ) {b : List ℕ} → kmalloc k n ≡ some b → length b ≡ n
  pub kmalloc_limit : (k n : ℕ) {b : List ℕ} → kmalloc k n ≡ some b → n < 2 ^ 31

-- An allocator that serves every size below 2 ^ 31, with bytes 255 in the new block.
abbrev pub filled : ℕ → ℕ → Option (List ℕ)
filled k n = if ltb n (2 ^ 31) then some (replicate n 255) else none

pub filled_size : (k n : ℕ) {b : List ℕ} → filled k n ≡ some b → length b ≡ n
filled_size k n h = ground (arith, length-replicate {A = ℕ} n 255)

pub filled_limit : (k n : ℕ) {b : List ℕ} → filled k n ≡ some b → n < 2 ^ 31
filled_limit k n h = ground arith

abbrev pub plenty : Allocator
plenty = record { kmalloc = filled; kmalloc_size = filled_size; kmalloc_limit = filled_limit }
