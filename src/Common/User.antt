-- ===== src/Common/User.antt =====
-- User memory, and the kernel's two copying functions as an interface. `copy_to_user` and
-- `copy_from_user` are the kernel's own code: a record of operations with their documented contract.
use agh_systems_programming.Common.Tests.{◌==◌, if◌then◌else◌}
use agh_systems_programming.Common.Lists.{length, get_elem?}
use Prim.Native.Nat.{ℕ, zero, suc, ◌+◌, ◌<◌, ◌≤◌}
use mathlib.Core.Path.{◌≡◌, refl, ap, ap₂, ◌∙◌}
use mathlib.Core.Option.{some}
use mathlib.Core.List.{List, [], ◌∷◌, ◌++◌}
use native.Mathlib.Omega.{arith}

-- The byte at each user address.
abbrev pub Memory : Type 0
Memory = ℕ → ℕ

abbrev pub poke : Memory → ℕ → ℕ → Memory
poke m a v b = if a == b then v else m b

-- The bytes of a list, written from an address on.
unfoldable pub write_bytes : Memory → ℕ → List ℕ → Memory
write_bytes m a [] = m
write_bytes m a (x ∷ xs) = write_bytes (poke m a x) (a + 1) xs

-- `n` bytes from an address on.
unfoldable pub read_bytes : Memory → ℕ → ℕ → List ℕ
read_bytes m a zero = []
read_bytes m a (suc n) = m a ∷ read_bytes m (a + 1) n

-- `copy_to_user` gives the number of bytes not copied and the new memory; `copy_from_user` the
-- number of bytes not copied and the bytes that the destination receives. A count of 0 means that
-- all was copied.
pub record UserAccess : Type 0 where
  pub copy_to_user : Memory → ℕ → List ℕ → ℕ × Memory
  pub copy_from_user : Memory → ℕ → ℕ → ℕ × List ℕ
  pub to_user_done :
      (m : Memory) (a : ℕ) (xs : List ℕ)
      → (copy_to_user m a xs).0 ≡ 0
      → (copy_to_user m a xs).1 ≡ write_bytes m a xs
  pub from_user_done :
      (m : Memory) (a n : ℕ)
      → (copy_from_user m a n).0 ≡ 0
      → (copy_from_user m a n).1 ≡ read_bytes m a n
  pub from_user_length : (m : Memory) (a n : ℕ) → length (copy_from_user m a n).1 ≤ n

pub length-read_bytes : (m : Memory) (a n : ℕ) → length (read_bytes m a n) ≡ n
unfolding read_bytes
length-read_bytes m a zero = refl
length-read_bytes m a (suc n) = ap suc (length-read_bytes m (a + 1) n)

pub get_elem?-read_bytes :
    (m : Memory) (a k n : ℕ) → k < n → get_elem? (read_bytes m a n) k ≡ some (m (a + k))
unfolding read_bytes
get_elem?-read_bytes m a k zero h = elim h [ ]
get_elem?-read_bytes m a zero (suc n) h = ap (λ b. some (m b)) (omega arith)
get_elem?-read_bytes m a (suc k) (suc n) h =
    get_elem?-read_bytes m (a + 1) k n (omega arith) ∙ ap (λ b. some (m b)) (omega arith)

-- All of user memory is mapped: every copy succeeds.
abbrev pub mapped : UserAccess
mapped = record {
  copy_to_user = λ m a xs. (0, write_bytes m a xs);
  copy_from_user = λ m a n. (0, read_bytes m a n);
  to_user_done = λ m a xs h. refl;
  from_user_done = λ m a n h. refl;
  from_user_length = λ m a n. omega (arith, length-read_bytes m a n);
}

pub write_bytes-nil : (m : Memory) (a : ℕ) → write_bytes m a [] ≡ m
unfolding write_bytes
write_bytes-nil m a = refl

-- Two writes, one behind the other, are one.
pub write_bytes-append :
    (m : Memory) (a : ℕ) (xs ys : List ℕ)
    → write_bytes (write_bytes m a xs) (a + length xs) ys ≡ write_bytes m a (xs ++ ys)
unfolding write_bytes
write_bytes-append m a [] ys = ap (λ b. write_bytes m b ys) (omega arith)
write_bytes-append m a (x ∷ xs) ys =
    ap (λ b. write_bytes (write_bytes (poke m a x) (a + 1) xs) b ys) (omega arith)
    ∙ write_bytes-append (poke m a x) (a + 1) xs ys

-- A write leaves the addresses below it alone.
pub write_bytes_below : (m : Memory) (a b : ℕ) (xs : List ℕ) → b < a → write_bytes m a xs b ≡ m b
unfolding write_bytes
write_bytes_below m a b [] h = refl
write_bytes_below m a b (x ∷ xs) h = ground (arith, write_bytes_below (poke m a x) (a + 1) b xs)

-- What was written is read back.
pub read_bytes-write_bytes :
    (m : Memory) (a : ℕ) (xs : List ℕ) → read_bytes (write_bytes m a xs) a (length xs) ≡ xs
unfolding write_bytes read_bytes
read_bytes-write_bytes m a [] = refl
read_bytes-write_bytes m a (x ∷ xs) =
    ap₂ ◌∷◌ (ground (arith, write_bytes_below (poke m a x) (a + 1) a xs))
      (read_bytes-write_bytes (poke m a x) (a + 1) xs)

pub write_bytes_above :
    (m : Memory) (a b : ℕ) (xs : List ℕ) → a + length xs ≤ b → write_bytes m a xs b ≡ m b
unfolding write_bytes
write_bytes_above m a b [] h = refl
write_bytes_above m a b (x ∷ xs) h = ground (arith, write_bytes_above (poke m a x) (a + 1) b xs)

-- The byte that a write leaves at each of its addresses.
pub get_elem?-write_bytes :
    (m : Memory) (a k : ℕ) (xs : List ℕ)
    → k < length xs
    → get_elem? xs k ≡ some (write_bytes m a xs (a + k))
unfolding write_bytes
get_elem?-write_bytes m a k [] h = elim h [ ]
get_elem?-write_bytes m a zero (x ∷ xs) h =
    ground (arith, write_bytes_below (poke m a x) (a + 1) (a + 0) xs)
get_elem?-write_bytes m a (suc k) (x ∷ xs) h =
    get_elem?-write_bytes (poke m a x) (a + 1) k xs (omega arith)
    ∙ ap (λ b. some (write_bytes (poke m a x) (a + 1) xs b)) (omega arith)

pub read_bytes-append :
    (m : Memory) (a n k : ℕ) → read_bytes m a (n + k) ≡ read_bytes m a n ++ read_bytes m (a + n) k
unfolding read_bytes
read_bytes-append m a zero k =
    let e : a + 0 ≡ a = omega arith in let f : 0 + k ≡ k = omega arith in rw (e, f)
read_bytes-append m a (suc n) k =
    let e : suc n + k ≡ suc (n + k) = omega arith in
    let f : a + 1 + n ≡ a + suc n = omega arith in
    rw e (rw f at (ap (λ l. m a ∷ l) (read_bytes-append m (a + 1) n k)))
