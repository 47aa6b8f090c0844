-- ===== src/Monitor/Counts.antt =====
-- How many calls of readers and of writers are left, over all threads.
use agh_systems_programming.Common.{
  ℕ, zero, suc, ◌+◌, ◌*◌, ◌<◌, ◌≤◌, ◌≡◌, ◌≢◌, refl, sym, ap, ◌∙◌, ap₂, Bool, true, false,
  if◌then◌else◌, arith, dec_lt,
}
use native.Mathlib.Nat.{suc-mul, zero-mul}
use agh_systems_programming.Monitor.{create, Role, reader, writer, Place, Thread, goto, finish}

abbrev pub same : Role → Role → Bool
same reader reader = true
same writer writer = true
same _ _ = false

-- The calls of role `r` that a thread has left.
abbrev pub share : Role → Thread → ℕ
share r t = if same r t.role then t.runs else 0

pub remaining : Role → ℕ → (ℕ → Thread) → ℕ
remaining r zero f = 0
remaining r (suc n) f = remaining r n f + share r (f n)

pub remaining-cong :
    (r : Role) (n : ℕ) (f g : ℕ → Thread)
    → ((i : ℕ) → i < n → share r (f i) ≡ share r (g i))
    → remaining r n f ≡ remaining r n g
unfolding remaining
remaining-cong r zero f g h = refl
remaining-cong r (suc n) f g h =
    ap₂ ◌+◌ (remaining-cong r n f g (λ i lt. h i (omega arith))) (h n (omega arith))

pub remaining-goto :
    (r : Role) (n : ℕ) (f : ℕ → Thread) (i : ℕ) (p : Place)
    → remaining r n (goto f i p) ≡ remaining r n f
remaining-goto r n f i p = remaining-cong r n (goto f i p) f (λ j lt. ground arith)

share-finish :
    (r : Role) (f : ℕ → Thread) (i j : ℕ) (all : Bool)
    → i ≢ j
    → share r (finish f i all j) ≡ share r (f j)
share-finish r f i j all ne = ground arith

-- The call that thread `i` ends is one less of its role.
pub remaining-finish :
    (r : Role) (n : ℕ) (f : ℕ → Thread) (i : ℕ) (all : Bool)
    → i < n
    → 0 < (f i).runs
    → remaining r n (finish f i all) + (if same r (f i).role then 1 else 0) ≡ remaining r n f
unfolding remaining
remaining-finish r zero f i all h pos = elim h [ ]
remaining-finish r (suc n) f i all h pos = elim (dec_lt i n) [
  | yes below ↦
      ground (arith, remaining-finish r n f i all below pos, share-finish r f i n all (omega arith))
  | no last ↦ ground (
    arith,
    remaining-cong r n (finish f i all) f (λ j lt. share-finish r f i j all (omega arith)),
  )
]

-- If no thread has a call of role `r` left, there is none.
pub remaining-zero :
    (r : Role) (n : ℕ) (f : ℕ → Thread)
    → ((i : ℕ) → i < n → share r (f i) ≡ 0)
    → remaining r n f ≡ 0
unfolding remaining
remaining-zero r zero f h = refl
remaining-zero r (suc n) f h =
    omega (arith, remaining-zero r n f (λ i lt. h i (omega arith)), h n (omega arith))

pub remaining-done :
    (r : Role) (n : ℕ) (f : ℕ → Thread) → ((i : ℕ) → i < n → (f i).runs ≡ 0) → remaining r n f ≡ 0
remaining-done r n f h = remaining-zero r n f (λ i lt. ground (arith, h i lt))

pub share-le-remaining :
    (r : Role) (n : ℕ) (f : ℕ → Thread) (i : ℕ) → i < n → share r (f i) ≤ remaining r n f
unfolding remaining
share-le-remaining r zero f i h = elim h [ ]
share-le-remaining r (suc n) f i h = elim (dec_lt i n) [
  | yes below ↦ omega (arith, share-le-remaining r n f i below)
  | no last ↦ ground arith
]

pub remaining-const :
    (r : Role) (n k : ℕ) (f : ℕ → Thread)
    → ((i : ℕ) → i < n → share r (f i) ≡ k)
    → remaining r n f ≡ n * k
unfolding remaining
remaining-const r zero k f h = sym (zero-mul k)
remaining-const r (suc n) k f h =
    ap₂ ◌+◌ (remaining-const r n k f (λ i lt. h i (omega arith))) (h n (omega arith))
    ∙ sym (suc-mul n k)

-- The first `a` threads and the `b` behind them.
pub remaining-add :
    (r : Role) (a b : ℕ) (f : ℕ → Thread)
    → remaining r (a + b) f ≡ remaining r a f + remaining r b (λ i. f (a + i))
unfolding remaining
remaining-add r a zero f =
    let e : a + 0 ≡ a = omega arith in ap (λ n. remaining r n f) e ∙ omega arith
remaining-add r a (suc b) f =
    let e : a + suc b ≡ suc (a + b) = omega arith in
    let rest = remaining-add r a b f in ap (λ n. remaining r n f) e ∙ omega (arith, rest)

module _ (num_readers num_writers reader_runs writer_runs : ℕ) where
  -- The calls that `main` gives to the readers, and to the writers.
  pub remaining-create :
      (r : Role)
      → remaining r (num_readers + num_writers) (create num_readers reader_runs writer_runs)
        ≡ num_readers * (if same r reader then reader_runs else 0)
          + num_writers * (if same r writer then writer_runs else 0)
  remaining-create r =
      let f = create num_readers reader_runs writer_runs in
      remaining-add r num_readers num_writers f
      ∙ ap₂ ◌+◌
          (remaining-const r num_readers (if same r reader then reader_runs else 0) f
            (λ i lt. ground arith))
          (remaining-const r num_writers (if same r writer then writer_runs else 0)
            (λ i. f (num_readers + i)) (λ i lt. ground arith))
