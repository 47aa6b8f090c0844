-- ===== src/Monitor/Ring/Order.antt =====
-- The order of the ring: `contents` is what was put in and not yet taken out, the oldest first.
use agh_systems_programming.Common.{
  ℕ, zero, suc, ◌+◌, ◌-◌, ◌%◌, ◌<◌, ◌≤◌, ◌≡◌, refl, sym, ap, ap₂, ◌∙◌, List, [], ◌∷◌, ◌++◌, length,
  get_or, set, get_or-set_self, get_or-set_ne, ltb, if◌then◌else◌, arith, dec_lt, length-set,
}
use agh_systems_programming.Monitor.Ring.{ConcurrentBuffer, allocate_buffer, take_item, put_item}
use native.Mathlib.Nat.{mod_self, mod-eq_of_lt}

-- The `k`-th place behind `p`, round the ring.
abbrev pub place : (size p k : ℕ) → ℕ
place size p k = if ltb (p + k) size then p + k else p + k - size

-- The `n` values from `p` on.
pub window : List ℕ → (size p n : ℕ) → List ℕ
window xs size p zero = []
window xs size p (suc n) = window xs size p n ++ get_or xs (place size p n) 0 ∷ []

window-suc :
    (xs : List ℕ) (size p n : ℕ)
    → window xs size p (n + 1) ≡ window xs size p n ++ get_or xs (place size p n) 0 ∷ []
unfolding window
window-suc xs size p n = let e : n + 1 ≡ suc n = omega arith in ap (window xs size p) e

abbrev pub contents : ConcurrentBuffer → List ℕ
contents b = window b.values b.size b.reading_point b.number_items

-- The points and the number of items stay in the ring, and the writing point is behind the items.
pub record Fits (b : ConcurrentBuffer) : Type 0 where
  pub block : length b.values ≡ b.size
  pub inside : b.reading_point < b.size
  pub full : b.number_items ≤ b.size
  pub behind : b.writing_point ≡ place b.size b.reading_point b.number_items

next_mod : (size p : ℕ) → p < size → (p + 1) % size ≡ place size p 1
next_mod size p h = elim (dec_lt (p + 1) size) [
  | yes lt ↦ mod-eq_of_lt lt ∙ ground arith
  | no last ↦
      let e : p + 1 ≡ size = omega arith in ap (λ k. k % size) e ∙ mod_self size ∙ ground arith
]

window-cons :
    (xs : List ℕ) (size p n : ℕ)
    → p < size
    → n < size
    → window xs size p (suc n) ≡ get_or xs p 0 ∷ window xs size (place size p 1) n
unfolding window
window-cons xs size p zero h k =
    let e : place size p 0 ≡ p = ground arith in ap (λ k. get_or xs k 0 ∷ []) e
window-cons xs size p (suc n) h k =
    let e : place size p (suc n) ≡ place size (place size p 1) n = ground arith in
    ap₂ (λ ys k. ys ++ get_or xs k 0 ∷ []) (window-cons xs size p n h (omega arith)) e

-- A value put behind the items leaves them.
window-set :
    (xs : List ℕ) (size p k n v : ℕ)
    → p < size
    → k < size
    → n ≤ k
    → window (set xs (place size p k) v) size p n ≡ window xs size p n
unfolding window
window-set xs size p k zero v h l le = refl
window-set xs size p k (suc n) v h l le =
    ap₂ (λ ys x. ys ++ x ∷ []) (window-set xs size p k n v h l (omega arith))
      (get_or-set_ne xs (place size p k) (place size p n) v 0 (λ e. absurd (ground arith)))

pub allocate_buffer-Fits :
    (size : ℕ) (block : List ℕ) → 0 < size → length block ≡ size → Fits (allocate_buffer size block)
allocate_buffer-Fits size block pos h = record {
  block = h;
  inside = pos;
  full = omega arith;
  behind = ground arith;
}

pub allocate_buffer-contents :
    (size : ℕ) (block : List ℕ) → contents (allocate_buffer size block) ≡ []
unfolding window
allocate_buffer-contents size block = refl

pub contents-empty : (b : ConcurrentBuffer) → b.number_items ≡ 0 → contents b ≡ []
unfolding window
contents-empty b e = ap (window b.values b.size b.reading_point) e

module _ (b : ConcurrentBuffer) (fits : Fits b) where
  pub take_item-Fits : 0 < b.number_items → Fits (take_item b).1
  unfolding take_item
  take_item-Fits any = record {
    block = fits.block;
    inside = ground (arith, next_mod b.size b.reading_point fits.inside);
    full = omega (arith, fits.full);
    behind =
        ground
          (arith, next_mod b.size b.reading_point fits.inside, fits.behind, fits.full, fits.inside);
  }

  pub take_item-contents :
      0 < b.number_items → contents b ≡ (take_item b).0 ∷ contents (take_item b).1
  unfolding take_item
  take_item-contents any =
      let e : suc (b.number_items - 1) ≡ b.number_items = omega arith in
      sym (ap (λ n. window b.values b.size b.reading_point n) e)
      ∙ window-cons b.values b.size b.reading_point (b.number_items - 1) fits.inside
          (omega (arith, fits.full))
      ∙ ap (λ p. get_or b.values b.reading_point 0 ∷ window b.values b.size p (b.number_items - 1))
          (sym (next_mod b.size b.reading_point fits.inside))

  pub put_item-Fits : (v : ℕ) → b.number_items < b.size → Fits (put_item v b)
  unfolding put_item
  put_item-Fits v room = record {
    block = length-set b.values b.writing_point v ∙ fits.block;
    inside = fits.inside;
    full = omega arith;
    behind = ground (
      arith,
      next_mod b.size b.writing_point (ground (arith, fits.behind, fits.inside)),
      fits.behind,
      fits.inside,
    );
  }

  pub put_item-contents :
      (v : ℕ) → b.number_items < b.size → contents (put_item v b) ≡ contents b ++ v ∷ []
  unfolding put_item
  put_item-contents v room =
      let kept =
        window-set b.values b.size b.reading_point b.number_items b.number_items v fits.inside room
          (omega arith) in
      let fresh =
        get_or-set_self b.values (place b.size b.reading_point b.number_items) v 0
          (ground (arith, fits.inside, fits.block)) in
      rw (
        fits.behind,
        window-suc (set b.values (place b.size b.reading_point b.number_items) v) b.size
            b.reading_point b.number_items,
        kept,
        fresh,
      )
