-- ===== src/ReadersWriters/Tally.antt =====
-- How many threads stand at a place, over the steps of one thread.
use agh_systems_programming.Common.{ℕ, ◌+◌, ◌-◌, ◌<◌, ◌≡◌, ap, refl, Bool, true, false, arith}
use agh_systems_programming.Common.Family.{update, total, total-update, total-cong}
use agh_systems_programming.ReadersWriters.{
  Place, outside, counted, reading, leaving, testing, waiting, woken, working, Thread, goto, finish,
  rouse, woken_up,
}

abbrev pub is_counted : Place → ℕ
is_counted counted = 1
is_counted _ = 0

abbrev pub is_reading : Place → ℕ
is_reading reading = 1
is_reading _ = 0

abbrev pub is_leaving : Place → ℕ
is_leaving leaving = 1
is_leaving _ = 0

-- Does the thread hold the writers' mutex for a call that is not a reader's?
abbrev pub is_inside : Place → ℕ
is_inside testing = 1
is_inside working = 1
is_inside _ = 0

still_there :
    {Job : Type 0} (f : ℕ → Thread Job) (i : ℕ) (all : Bool)
    → (f i).place ≡ working
    → (rouse all f i).place ≡ working
still_there f i true at = ap woken_up at
still_there f i false at = at

module _ {Job : Type 0} (w : Place → ℕ) where
  abbrev pub tally : ℕ → (ℕ → Thread Job) → ℕ
  tally n f = total (λ (t : Thread Job). w t.place) n f

  pub tally-goto :
      (n : ℕ) (f : ℕ → Thread Job) (i : ℕ) (p : Place)
      → i < n
      → tally n (goto f i p) + w (f i).place ≡ tally n f + w p
  tally-goto n f i p lt =
      total-update (λ (t : Thread Job). w t.place) n f i (record (f i) { place = p }) lt

  pub tally-finish :
      (n : ℕ) (f : ℕ → Thread Job) (i : ℕ)
      → i < n
      → tally n (finish f i) + w (f i).place ≡ tally n f + w outside
  tally-finish n f i lt =
      total-update (λ (t : Thread Job). w t.place) n f i
        (record (f i) { place = outside; runs = (f i).runs - 1 }) lt

  -- A broadcast moves no thread to or from a place that is weighed alike when waiting and woken.
  tally-rouse :
      (n : ℕ) (f : ℕ → Thread Job) (all : Bool)
      → w waiting ≡ w woken
      → tally n (rouse all f) ≡ tally n f
  tally-rouse n f false e = total-cong (λ (t : Thread Job). w t.place) n f f (λ i. refl)
  tally-rouse n f true e =
      total-cong (λ (t : Thread Job). w t.place) n (rouse true f) f
        (λ i. woken_up_weight (f i).place)
    where
      woken_up_weight : (p : Place) → w (woken_up p) ≡ w p
      woken_up_weight waiting = ground arith
      woken_up_weight outside = refl
      woken_up_weight counted = refl
      woken_up_weight reading = refl
      woken_up_weight leaving = refl
      woken_up_weight testing = refl
      woken_up_weight woken = refl
      woken_up_weight working = refl

  pub tally-work :
      (n : ℕ) (f : ℕ → Thread Job) (i runs : ℕ) (all : Bool)
      → i < n
      → w waiting ≡ w woken
      → (f i).place ≡ working
      → tally n (update (rouse all f) i (record (f i) { place = outside; runs = runs })) + w working
        ≡ tally n f + w outside
  tally-work n f i runs all lt e at =
      let moved =
        total-update (λ (t : Thread Job). w t.place) n (rouse all f) i
          (record (f i) { place = outside; runs = runs }) lt in
      let still : w (rouse all f i).place ≡ w working = ap w (still_there f i all at) in
      omega (arith, moved, still, tally-rouse n f all e)

-- The four tallies, before and after.
abbrev pub Moved : {Job : Type 0} → ℕ → (ℕ → Thread Job) → (ℕ → Thread Job) → Place → Place → Type 0
Moved n f g p q =
    (tally is_counted n g + is_counted p ≡ tally is_counted n f + is_counted q)
    × (tally is_reading n g + is_reading p ≡ tally is_reading n f + is_reading q)
    × (tally is_leaving n g + is_leaving p ≡ tally is_leaving n f + is_leaving q)
    × (tally is_inside n g + is_inside p ≡ tally is_inside n f + is_inside q)

module _ {Job : Type 0} (n : ℕ) (f : ℕ → Thread Job) (i : ℕ) {p : Place} (at : (f i).place ≡ p)
    (lt : i < n) where
  pub goto-Moved : (q : Place) → Moved n f (goto f i q) p q
  goto-Moved q = rw (← at) (
    tally-goto is_counted n f i q lt,
    tally-goto is_reading n f i q lt,
    tally-goto is_leaving n f i q lt,
    tally-goto is_inside n f i q lt,
  )

  pub finish-Moved : Moved n f (finish f i) p outside
  finish-Moved = rw (← at) (
    tally-finish is_counted n f i lt,
    tally-finish is_reading n f i lt,
    tally-finish is_leaving n f i lt,
    tally-finish is_inside n f i lt,
  )

pub work-Moved :
    {Job : Type 0} (n : ℕ) (f : ℕ → Thread Job) (i runs : ℕ) (all : Bool)
    → i < n
    → (f i).place ≡ working
    → Moved n f
        (update (rouse all f) i (record (f i) { place = outside; runs = runs }))
        working
        outside
work-Moved n f i runs all lt at = (
  tally-work is_counted n f i runs all lt refl at,
  tally-work is_reading n f i runs all lt refl at,
  tally-work is_leaving n f i runs all lt refl at,
  tally-work is_inside n f i runs all lt refl at,
)
