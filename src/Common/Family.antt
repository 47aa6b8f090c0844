-- ===== src/Common/Family.antt =====
-- Families indexed by thread: one member replaced, and weights added up over the first members.
use Prim.Native.Nat.{ℕ, zero, suc, ◌+◌, ◌-◌, ◌*◌, ◌≤◌, ◌<◌}
use mathlib.Core.Path.{◌≡◌, refl, sym, fun_ext}
use mathlib.Core.Logic.{◌≢◌}
use mathlib.Core.Bool.{true, false}
use agh_systems_programming.Common.Tests.{◌==◌, if◌then◌else◌, ltb}
use native.Mathlib.Omega.{arith}
use native.Mathlib.Nat.{suc-mul}
use native.Mathlib.Decide.{dec_lt, ℕ_discrete}

-- The family in which the member at `k` is `new`.
abbrev pub update {ℓ} : {A : Type ℓ} → (ℕ → A) → (k : ℕ) → (new : A) → ℕ → A
update f k new j = if j == k then new else f j

-- The weights of the members below a number.
pub total {ℓ} : {A : Type ℓ} → (A → ℕ) → ℕ → (ℕ → A) → ℕ
total w zero f = 0
total w (suc n) f = w (f n) + total w n f

-- Families whose members weigh the same below `n`.
pub total-agree {ℓ} :
    {A : Type ℓ} (w : A → ℕ) (n : ℕ) (f g : ℕ → A)
    → ((j : ℕ) → j < n → w (f j) ≡ w (g j))
    → total w n f ≡ total w n g
unfolding total
total-agree w zero f g same = refl
total-agree w (suc n) f g same =
    omega (arith, same n (omega arith), total-agree w n f g (λ j lt. same j (omega arith)))

-- Families that differ in the weight of the member at `k` alone.
pub total-differ {ℓ} :
    {A : Type ℓ} (w : A → ℕ) (k n : ℕ) (f g : ℕ → A)
    → ((j : ℕ) → j ≢ k → w (f j) ≡ w (g j))
    → k < n
    → total w n g + w (f k) ≡ total w n f + w (g k)
unfolding total
total-differ w k zero f g same within = elim within [ ]
total-differ w k (suc n) f g same within = elim (ℕ_discrete n k) [
  | yes e ↦ let rest = total-agree w n f g (λ j lt. same j (omega arith)) in ground (arith, rest)
  | no other ↦ omega (arith, same n other, total-differ w k n f g same (omega arith))
]

module _ {ℓ} {A : Type ℓ} (w : A → ℕ) (n : ℕ) (f : ℕ → A) where
  pub total-cong : (g : ℕ → A) → ((j : ℕ) → w (f j) ≡ w (g j)) → total w n f ≡ total w n g
  total-cong g same = total-agree w n f g (λ j lt. same j)

  pub total-update :
      (k : ℕ) (new : A) → k < n → total w n (update f k new) + w (f k) ≡ total w n f + w new
  total-update k new within =
      let kept = total-differ w k n f (update f k new) (λ j other. ground arith) within in
      ground arith

module _ {ℓ} {A : Type ℓ} (w : A → ℕ) where
  pub le-total : (n : ℕ) (f : ℕ → A) (i : ℕ) → i < n → w (f i) ≤ total w n f
  unfolding total
  le-total zero f i h = elim h [ ]
  le-total (suc n) f i h = elim (dec_lt i n) [
    | yes below ↦ omega (arith, le-total n f i below)
    | no last ↦ ground arith
  ]

  -- Two members weigh no more than all of them together.
  pub two-le-total : (n : ℕ) (f : ℕ → A) (i j : ℕ) → i < j → j < n → w (f i) + w (f j) ≤ total w n f
  unfolding total
  two-le-total zero f i j lt h = elim h [ ]
  two-le-total (suc n) f i j lt h = elim (dec_lt j n) [
    | yes below ↦ omega (arith, two-le-total n f i j lt below)
    | no last ↦ ground (arith, le-total n f i)
  ]

  -- Where the weights add up to something, one member has a weight.
  pub total_pos : (n : ℕ) (f : ℕ → A) → 0 < total w n f → (i : ℕ) × (i < n) × (0 < w (f i))
  unfolding total
  total_pos zero f h = absurd (omega arith)
  total_pos (suc n) f h = elim (dec_lt 0 (w (f n))) [
    | yes here ↦ (n, omega arith, here)
    | no above ↦ let (i, lt, pos) = total_pos n f (omega arith) in (i, omega arith, pos)
  ]

  pub total-zero : (n : ℕ) (f : ℕ → A) → ((i : ℕ) → w (f i) ≡ 0) → total w n f ≡ 0
  unfolding total
  total-zero zero f h = refl
  total-zero (suc n) f h = omega (arith, total-zero n f h, h n)

total-first {ℓ} :
    {A : Type ℓ} (w : A → ℕ) (a : ℕ) (x y : A) (n : ℕ)
    → n ≤ a
    → total w n (λ i. if ltb i a then x else y) ≡ n * w x
unfolding total
total-first w a x y zero le = omega arith
total-first w a x y (suc n) le =
    let here : ltb n a ≡ true = ground arith in
    rw here (omega (arith, total-first w a x y n (omega arith)))

-- `a` members alike, and `b` others alike.
pub total-blocks {ℓ} :
    {A : Type ℓ} (w : A → ℕ) (a b : ℕ) (x y : A)
    → total w (a + b) (λ i. if ltb i a then x else y) ≡ a * w x + b * w y
unfolding total
total-blocks w a zero x y =
    let e : a + 0 ≡ a = omega arith in rw e (omega (arith, total-first w a x y a (omega arith)))
total-blocks w a (suc b) x y =
    let e : a + suc b ≡ suc (a + b) = omega arith in
    let behind : ltb (a + b) a ≡ false = ground arith in
    rw (e, total, behind) (omega (arith, total-blocks w a b x y))

-- A function of the members of a family in which one is replaced.
pub update-map {ℓ ℓ'} :
    {A : Type ℓ} {B : Type ℓ'} (h : A → B) (f : ℕ → A) (k : ℕ) (new : A)
    → (λ j. h (update f k new j)) ≡ update (λ j. h (f j)) k (h new)
update-map h f k new = fun_ext (λ j. ground arith)

-- Each member weighs at most `c` more.
pub total-le {ℓ} :
    {A : Type ℓ} (w : A → ℕ) (c n : ℕ) (f g : ℕ → A)
    → ((j : ℕ) → j < n → w (g j) ≤ w (f j) + c)
    → total w n g ≤ total w n f + n * c
unfolding total
total-le w c zero f g h = omega arith
total-le w c (suc n) f g h =
    let e = suc-mul n c in
    omega (arith, e, h n (omega arith), total-le w c n f g (λ j lt. h j (omega arith)))

-- A call less, of `c` steps each.
pub one_call : (c r : ℕ) → 0 < r → (r - 1) * c + c ≡ r * c
one_call c zero pos = elim pos [ ]
one_call c (suc r) pos = let e : suc r - 1 ≡ r = omega arith in rw e (sym (suc-mul r c))

pub one_call-le : (c r : ℕ) → 0 < r → c ≤ r * c
one_call-le c r pos = let e = one_call c r pos in omega arith

pub total-suc {ℓ} :
    {A : Type ℓ} (w : A → ℕ) (n : ℕ) (f : ℕ → A) → total w (suc n) f ≡ w (f n) + total w n f
unfolding total
total-suc w n f = refl
