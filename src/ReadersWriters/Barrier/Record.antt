-- ===== src/ReadersWriters/Barrier/Record.antt =====
-- The record of the writers, and how the object goes with the calls that were made.
use agh_systems_programming.Common.{
  ℕ, zero, suc, ◌+◌, ◌<◌, ◌≤◌, ◌≡◌, ap, refl, ◌∙◌, sym, List, [], ◌∷◌, Bool, true, false, ◌==◌,
  if◌then◌else◌, get_or, set, length, arith, ℕ_discrete, length-set, get_or-set_self, get_or-set_ne,
  Bool-cases, inl, inr,
}
use agh_systems_programming.ReadersWriters.Barrier.{
  ConcurrentObject, clear_record, allocate_object, Call, write_to_object, critic_round, blocked,
  work,
}

-- How many writers are marked?
abbrev pub trues : List Bool → ℕ
trues [] = 0
trues (x ∷ xs) = (if x then 1 else 0) + trues xs

-- Did the writer write since the last round of the critic? The latest call comes first.
abbrev pub wrote : ℕ → List (Call × ℕ) → Bool
wrote i [] = false
wrote i ((critic_round, v) ∷ es) = false
wrote i ((write_to_object k, v) ∷ es) = if k == i then true else wrote i es

-- The value of the last write, or the one at the start.
abbrev pub last_value : ℕ → List (Call × ℕ) → ℕ
last_value initial_data [] = initial_data
last_value initial_data ((critic_round, v) ∷ es) = last_value initial_data es
last_value initial_data ((write_to_object k, v) ∷ es) = v

trues-set :
    (xs : List Bool) (i : ℕ)
    → i < length xs
    → get_or xs i false ≡ false
    → trues (set xs i true) ≡ trues xs + 1
trues-set [] i h e = elim h [ ]
trues-set (x ∷ xs) zero h e = ground arith
trues-set (x ∷ xs) (suc i) h e = omega (arith, trues-set xs i (omega arith) e)

trues-le-length : (xs : List Bool) → trues xs ≤ length xs
trues-le-length [] = omega arith
trues-le-length (x ∷ xs) = ground (arith, trues-le-length xs)

-- Where so many are marked as there are, each is.
pub all_marked :
    (xs : List Bool) (i : ℕ) → trues xs ≡ length xs → i < length xs → get_or xs i false ≡ true
all_marked [] i e h = elim h [ ]
all_marked (x ∷ xs) zero e h = ground (arith, trues-le-length xs)
all_marked (x ∷ xs) (suc i) e h = all_marked xs i (ground (arith, trues-le-length xs)) (omega arith)

length-clear_record : (n : ℕ) (xs : List Bool) → length (clear_record n xs) ≡ length xs
unfolding clear_record
length-clear_record zero xs = refl
length-clear_record (suc n) [] = refl
length-clear_record (suc n) (x ∷ xs) = ap suc (length-clear_record n xs)

trues-clear_record : (n : ℕ) (xs : List Bool) → length xs ≡ n → trues (clear_record n xs) ≡ 0
unfolding clear_record
trues-clear_record zero [] h = refl
trues-clear_record zero (x ∷ xs) h = absurd (omega arith)
trues-clear_record (suc n) [] h = refl
trues-clear_record (suc n) (x ∷ xs) h = omega (arith, trues-clear_record n xs (omega arith))

get_or-clear_record :
    (n : ℕ) (xs : List Bool) (i : ℕ) → length xs ≡ n → get_or (clear_record n xs) i false ≡ false
unfolding clear_record
get_or-clear_record zero [] i h = refl
get_or-clear_record zero (x ∷ xs) i h = absurd (omega arith)
get_or-clear_record (suc n) [] i h = refl
get_or-clear_record (suc n) (x ∷ xs) zero h = refl
get_or-clear_record (suc n) (x ∷ xs) (suc i) h = get_or-clear_record n xs i (omega arith)

-- The writers counted are those who wrote since the last round, and the value is the last one written.
pub record History (num_writers initial_data : ℕ) (es : List (Call × ℕ)) (b : ConcurrentObject)
    : Type 0 where
  pub writers : b.num_writers ≡ num_writers
  pub block : length b.writers_record ≡ num_writers
  pub counted : b.writers_count ≡ trues b.writers_record
  pub marked : (i : ℕ) → i < num_writers → get_or b.writers_record i false ≡ wrote i es
  pub latest : b.value ≡ last_value initial_data es

module _ (num_writers initial_data : ℕ) where
  pub allocate_object-History :
      (block : List Bool)
      → length block ≡ num_writers
      → History num_writers initial_data [] (allocate_object initial_data num_writers block)
  unfolding allocate_object
  allocate_object-History block size = record {
    writers = refl;
    block = length-clear_record num_writers block ∙ size;
    counted = sym (trues-clear_record num_writers block size);
    marked = λ i h. get_or-clear_record num_writers block i size;
    latest = refl;
  }

  pub write-History :
      (k v : ℕ) (es : List (Call × ℕ)) (b : ConcurrentObject)
      → k < num_writers
      → History num_writers initial_data es b
      → History num_writers initial_data
          ((write_to_object k, v) ∷ es)
          (work (write_to_object k) v b).0
  unfolding work
  write-History k v es b lt h = elim (Bool-cases (get_or b.writers_record k false)) [
    | inl before ↦ rw before (record {
      writers = h.writers;
      block = h.block;
      counted = h.counted;
      marked = λ i below. elim (ℕ_discrete k i) [
        | yes same ↦ ground (arith, h.marked i below)
        | no other ↦ ground (arith, h.marked i below)
      ];
      latest = refl;
    })
    | inr now ↦ rw now (record {
      writers = h.writers;
      block = length-set b.writers_record k true ∙ h.block;
      counted = omega (arith, h.counted, trues-set b.writers_record k (omega (arith, h.block)) now);
      marked = λ i below. elim (ℕ_discrete k i) [
        | yes same ↦
            ground (arith, get_or-set_self b.writers_record k true false (omega (arith, h.block)))
        | no other ↦
            ground (arith, h.marked i below, get_or-set_ne b.writers_record k i true false other)
      ];
      latest = refl;
    })
  ]

  pub critic-History :
      (v : ℕ) (es : List (Call × ℕ)) (b : ConcurrentObject)
      → History num_writers initial_data es b
      → History num_writers initial_data ((critic_round, v) ∷ es) (work critic_round v b).0
  unfolding work
  critic-History v es b h =
      let size : length b.writers_record ≡ b.num_writers = omega (arith, h.writers, h.block) in
      record {
        writers = h.writers;
        block = length-clear_record b.num_writers b.writers_record ∙ h.block;
        counted = sym (trues-clear_record b.num_writers b.writers_record size);
        marked = λ i lt. get_or-clear_record b.num_writers b.writers_record i size;
        latest = h.latest;
      }

-- A write that does not broadcast leaves blocked what was blocked, and a round broadcasts.
pub work-blocked :
    (j : Call) (v : ℕ) (b : ConcurrentObject) (k : Call)
    → blocked j b ≡ false
    → (work j v b).1 ≡ false
    → blocked k b ≡ true
    → blocked k (work j v b).0 ≡ true
unfolding work
work-blocked (write_to_object i) v b (write_to_object k) passed quiet stuck = ground arith
work-blocked (write_to_object i) v b critic_round passed quiet stuck = ground arith
work-blocked critic_round v b k passed quiet stuck = cc
