-- ===== src/Linked/Interleaved/Cursor.antt =====
-- Where a loop stands in a list whose addresses go up.
use agh_systems_programming.Common.{
  ℕ, ◌+◌, ◌<◌, ◌≡◌, refl, ap, Bool, true, Option, none, some, List, [], ◌∷◌, ◌++◌, ltb, ◌&&◌, ◌==◌,
  Bool-cases, inl, inr, arith,
}
use agh_systems_programming.Linked.Interleaved.{Node, after, behind}

-- Each address is below the next one, and all are below `top`.
abbrev pub below_all : ℕ → List Node → Bool
below_all a [] = true
below_all a (x ∷ xs) = ltb a x.address && below_all a xs

abbrev pub ascending : List Node → Bool
ascending [] = true
ascending (x ∷ xs) = below_all x.address xs && ascending xs

abbrev pub all_below : ℕ → List Node → Bool
all_below top [] = true
all_below top (x ∷ xs) = ltb x.address top && all_below top xs

below_all-append :
    (a : ℕ) (xs : List Node) (y : Node)
    → below_all a xs ≡ true
    → a < y.address
    → below_all a (xs ++ y ∷ []) ≡ true
below_all-append a [] y h lt = ground arith
below_all-append a (x ∷ xs) y h lt =
    let rest = below_all-append a xs y (ground arith) lt in ground arith

pub ascending-append :
    (xs : List Node) (y : Node)
    → ascending xs ≡ true
    → all_below y.address xs ≡ true
    → ascending (xs ++ y ∷ []) ≡ true
ascending-append [] y h lt = refl
ascending-append (x ∷ xs) y h lt =
    let rest = ascending-append xs y (ground arith) (ground arith) in
    let here = below_all-append x.address xs y (ground arith) (ground arith) in ground arith

pub all_below-append :
    (top : ℕ) (xs : List Node) (y : Node)
    → all_below top xs ≡ true
    → y.address ≡ top
    → all_below (top + 1) (xs ++ y ∷ []) ≡ true
all_below-append top [] y h e = ground arith
all_below-append top (x ∷ xs) y h e =
    let rest = all_below-append top xs y (ground arith) e in ground arith

-- An address below all others is not among them.
pub after-below_all : (a : ℕ) (xs : List Node) → below_all a xs ≡ true → after a xs ≡ none
after-below_all a [] h = refl
after-below_all a (x ∷ xs) h = let rest = after-below_all a xs (ground arith) in ground arith

-- The list begins with the entry.
starts :
    {xs : List Node} {y : Node} {ys : List Node}
    → ◌≡◌ {A = Option (List Node)} (some xs) (some (y ∷ ys))
    → xs ≡ y ∷ ys
starts h = cc

after_here : (y : Node) (ys : List Node) → after y.address (y ∷ ys) ≡ some ys
after_here y ys = ground arith

-- What stands in the list behind an entry is above what is below all.
below_behind :
    (b a : ℕ) (xs : List Node) (y : Node) (ys : List Node)
    → below_all b xs ≡ true
    → after a xs ≡ some (y ∷ ys)
    → b < y.address
below_behind b a [] y ys low h = cc
below_behind b a (x ∷ xs) y ys low h = elim (Bool-cases (x.address == a)) [
  | inl here ↦
      let e : xs ≡ y ∷ ys = starts (ground arith) in
      let tail : below_all b xs ≡ true = ground arith in
      let low' : below_all b (y ∷ ys) ≡ true = rw e at tail in ground arith
  | inr further ↦ below_behind b a xs y ys (ground arith) (ground arith)
]

-- The entry that a loop visits next is the one that it then stands at.
after-onward :
    (a : ℕ) (xs : List Node) (y : Node) (ys : List Node)
    → ascending xs ≡ true
    → after a xs ≡ some (y ∷ ys)
    → after y.address xs ≡ some ys
after-onward a [] y ys up h = cc
after-onward a (x ∷ xs) y ys up h = elim (Bool-cases (x.address == a)) [
  | inl here ↦
      let e : xs ≡ y ∷ ys = starts (ground arith) in
      let low : below_all x.address xs ≡ true = ground arith in
      let low' : below_all x.address (y ∷ ys) ≡ true = rw e at low in
      let there : after y.address xs ≡ some ys = rw e (after_here y ys) in ground arith
  | inr further ↦
      let h' : after a xs ≡ some (y ∷ ys) = ground arith in
      let low = below_behind x.address a xs y ys (ground arith) h' in
      let there = after-onward a xs y ys (ground arith) h' in ground arith
]

pub behind-onward :
    (c : Option ℕ) (xs : List Node) (y : Node) (ys : List Node)
    → ascending xs ≡ true
    → behind c xs ≡ some (y ∷ ys)
    → behind (some y.address) xs ≡ some ys
behind-onward none xs y ys up h = rw (starts h) (after_here y ys)
behind-onward (some a) xs y ys up h = after-onward a xs y ys up h

after-append :
    (a : ℕ) (xs : List Node) (y : Node) (rest : List Node)
    → after a xs ≡ some rest
    → after a (xs ++ y ∷ []) ≡ some (rest ++ y ∷ [])
after-append a [] y rest h = cc
after-append a (x ∷ xs) y rest h = elim (Bool-cases (x.address == a)) [
  | inl here ↦
      let e : ◌≡◌ {A = Option (List Node)} (some xs) (some rest) = ground arith in
      let e' = ap (λ l. l ++ y ∷ []) (same_rest e) in ground arith
  | inr further ↦ let e = after-append a xs y rest (ground arith) in ground arith
]
  where
    same_rest :
        {xs rest : List Node} → ◌≡◌ {A = Option (List Node)} (some xs) (some rest) → xs ≡ rest
    same_rest h = cc

pub behind-append :
    (c : Option ℕ) (xs : List Node) (y : Node) (rest : List Node)
    → behind c xs ≡ some rest
    → behind c (xs ++ y ∷ []) ≡ some (rest ++ y ∷ [])
behind-append none xs y rest h = let e : xs ≡ rest = cc in rw e refl
behind-append (some a) xs y rest h = after-append a xs y rest h
