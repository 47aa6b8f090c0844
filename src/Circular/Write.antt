-- ===== src/Circular/Write.antt =====
-- `circular_write`: the rounds of its loop from valid globals, and what the buffer holds behind it.
use agh_systems_programming.Common.{
  ℕ, zero, suc, ◌+◌, ◌-◌, ◌%◌, ◌^◌, ◌≤◌, ◌<◌, ◌≡◌, refl, ◌≢◌, some, List, [], ◌∷◌, arith, ◌==◌,
  if◌then◌else◌, length, get_elem?, get_elem?-set_self, get_elem?-set_ne, dec_lt, Bool-cases, inl,
  inr, ap, ◌∙◌, sym,
}
use native.Mathlib.Nat.{add-zero, mod-add-mod, mod-eq_of_lt, mod-eq-sub-mod}
use agh_systems_programming.Common.Outcome.{Ret, ok, error, efault, done}
use agh_systems_programming.Common.User.{
  Memory, UserAccess, read_bytes, length-read_bytes, get_elem?-read_bytes,
}
use agh_systems_programming.Circular.{Device, next_index, write_loop, circular_write}
use agh_systems_programming.Circular.Valid.{
  IsValid, landed, advance, store_landed, landed-IsValid, advance-IsValid, wrap-inside,
}

module _ (user : UserAccess) (m : Memory) (user_buf count : ℕ) where
  open user use {copy_from_user, from_user_length, from_user_done}

  next_index-done : (i : ℕ) → i + 1 < 2 ^ 31 → next_index i ≡ done (i + 1)
  unfolding next_index
  next_index-done i small = ground arith

  -- One round from a valid state.
  write_loop-suc :
      (i n : ℕ) {d : Device}
      → i + 1 < 2 ^ 31
      → IsValid d
      → let (left, bytes) = copy_from_user m (user_buf + i) 1 in
        write_loop user m user_buf count i (suc n) d ≡ (
          if left == 0
          then write_loop user m user_buf count (i + 1) n (advance d bytes)
          else done (error efault, record d { buffer = landed d bytes }))
  unfolding write_loop
  write_loop-suc i n {d} small v = rw (
    store_landed v (copy_from_user m (user_buf + i) 1).1 (from_user_length m (user_buf + i) 1),
    wrap-inside v (d.curr_position + 1),
    next_index-done i small,
  )

  write_loop-IsValid :
      (i n : ℕ) (d : Device)
      → i + n < 2 ^ 31
      → IsValid d
      → (r : Ret × Device) × (write_loop user m user_buf count i n d ≡ done r) × IsValid r.1
  unfolding write_loop
  write_loop-IsValid i zero d small v = ((ok count, d), refl, v)
  write_loop-IsValid i (suc n) d small v =
      let bytes = (copy_from_user m (user_buf + i) 1).1 in
      let (r, e, w) =
        write_loop-IsValid (i + 1) n (advance d bytes) (omega arith) (advance-IsValid v bytes) in
      elim (Bool-cases ((copy_from_user m (user_buf + i) 1).0 == 0)) [
        | inl all ↦ (r, rw (write_loop-suc i n (omega arith) v, all) e, w)
        | inr some_left ↦ (
          (error efault, record d { buffer = landed d bytes }),
          rw (write_loop-suc i n (omega arith) v, some_left),
          landed-IsValid v bytes,
        )
      ]

-- From valid globals `circular_write` of fewer than 2 ^ 31 bytes runs into no undefined behaviour,
-- whatever user memory does, and leaves valid globals, also where a copy fails.
pub circular_write-IsValid :
    (user : UserAccess) (m : Memory) (user_buf count : ℕ) (d : Device)
    → count < 2 ^ 31
    → IsValid d
    → (r : Ret × Device) × (circular_write user m user_buf count d ≡ done r) × IsValid r.1
unfolding circular_write
circular_write-IsValid user m user_buf count d small v =
    write_loop-IsValid user m user_buf count 0 count d (omega arith) v

-- What writing the bytes of a list one by one makes of the globals.
spin : Device → List ℕ → Device
spin d [] = d
spin d (x ∷ xs) = spin (advance d (x ∷ [])) xs

module _ (user : UserAccess) (m : Memory) (user_buf count : ℕ) where
  write_loop-eq-spin :
      (i n : ℕ) (d : Device)
      → i + n < 2 ^ 31
      → IsValid d
      → ((k : ℕ) → k < i + n → (user.copy_from_user m (user_buf + k) 1).0 ≡ 0)
      → write_loop user m user_buf count i n d
        ≡ done (ok count, spin d (read_bytes m (user_buf + i) n))
  unfolding write_loop spin read_bytes
  write_loop-eq-spin i zero d small v all = refl
  write_loop-eq-spin i (suc n) d small v all =
      let here = all i (omega arith) in
      let d' = advance d (m (user_buf + i) ∷ []) in
      let same : user_buf + (i + 1) ≡ user_buf + i + 1 = omega arith in
      write_loop-suc user m user_buf count i n (omega arith) v
      ∙ rw (here, user.from_user_done m (user_buf + i) 1 here, ← same)
          (write_loop-eq-spin (i + 1) n d' (omega arith) (advance-IsValid v (m (user_buf + i) ∷ []))
            (λ k h. all k (omega arith)))

-- Fewer steps than there are slots do not come back to the first one.
add-mod-ne : {size p k : ℕ} → p < size → suc k < size → (p + suc k) % size ≢ p
add-mod-ne {size} {p} {k} below few = elim (dec_lt (p + suc k) size) [
  | yes under ↦ omega (arith, mod-eq_of_lt under)
  | no over ↦ omega (
    arith,
    mod-eq-sub-mod {n = p + suc k} {m = size} (omega arith),
    mod-eq_of_lt {n = p + suc k - size} {m = size} (omega arith),
  )
]

-- The slot that the k-th byte from now on goes to.
abbrev slot : Device → ℕ → ℕ
slot d k = (d.curr_position + k) % (d.buff_size - 1)

module _ {d : Device} (v : IsValid d) (x : ℕ) where
  slot-zero : slot d 0 ≡ d.curr_position
  slot-zero = ground (arith, mod-eq_of_lt {n = d.curr_position} {m = d.buff_size - 1})

  slot-advance : (k : ℕ) → slot (advance d (x ∷ [])) k ≡ slot d (suc k)
  slot-advance k = rw mod-add-mod (ap (λ n. n % (d.buff_size - 1)) (omega arith))

  slot-ne : (k : ℕ) → suc k < d.buff_size - 1 → slot d (suc k) ≢ d.curr_position
  slot-ne k h = add-mod-ne {size = d.buff_size - 1} (omega arith) h

spin-untouched :
    (d : Device) (xs : List ℕ) (j : ℕ)
    → IsValid d
    → ((k : ℕ) → k < length xs → slot d k ≢ j)
    → get_elem? (spin d xs).buffer j ≡ get_elem? d.buffer j
unfolding spin
spin-untouched d [] j v h = refl
spin-untouched d (x ∷ xs) j v h =
    spin-untouched (advance d (x ∷ [])) xs j (advance-IsValid v (x ∷ []))
      (λ k lt. rw (slot-advance v x k) (h (suc k) (omega arith)))
    ∙ get_elem?-set_ne d.buffer d.curr_position j x (λ e. h 0 (omega arith) (slot-zero v x ∙ e))

spin-latest :
    (d : Device) (xs : List ℕ) (k : ℕ)
    → IsValid d
    → k < length xs
    → length xs ≤ k + (d.buff_size - 1)
    → get_elem? (spin d xs).buffer (slot d k) ≡ get_elem? xs k
unfolding spin
spin-latest d [] k v h fits = elim h [ ]
spin-latest d (x ∷ xs) zero v h fits = rw (slot-zero v x) (
    spin-untouched (advance d (x ∷ [])) xs d.curr_position (advance-IsValid v (x ∷ []))
      (λ k lt. rw (slot-advance v x k) (slot-ne v x k (omega arith)))
    ∙ get_elem?-set_self d.buffer d.curr_position x (omega arith))
spin-latest d (x ∷ xs) (suc k) v h fits =
    rw (← slot-advance v x k) (
      spin-latest (advance d (x ∷ [])) xs k (advance-IsValid v (x ∷ [])) (omega arith)
        (omega arith))

buff_size-spin : (d : Device) (xs : List ℕ) → (spin d xs).buff_size ≡ d.buff_size
unfolding spin
buff_size-spin d [] = refl
buff_size-spin d (x ∷ xs) = buff_size-spin (advance d (x ∷ [])) xs

curr_position-spin :
    (d : Device) (xs : List ℕ) → IsValid d → (spin d xs).curr_position ≡ slot d (length xs)
unfolding spin
curr_position-spin d [] v = sym (slot-zero v 0)
curr_position-spin d (x ∷ xs) v =
    curr_position-spin (advance d (x ∷ [])) xs (advance-IsValid v (x ∷ []))
    ∙ slot-advance v x (length xs)

-- What the device holds after `count` bytes from user memory: its position has moved on round the
-- ring, the last bytes written stand in their slots, and a slot that no byte went to is unchanged.
pub record Written (user_buf count : ℕ) (m : Memory) (d d' : Device) : Type 0 where
  pub size : d'.buff_size ≡ d.buff_size
  pub position : d'.curr_position ≡ (d.curr_position + count) % (d.buff_size - 1)
  pub latest :
      (k : ℕ)
      → k < count
      → count ≤ k + (d.buff_size - 1)
      → get_elem? d'.buffer ((d.curr_position + k) % (d.buff_size - 1)) ≡ some (m (user_buf + k))
  pub untouched :
      (j : ℕ)
      → ((k : ℕ) → k < count → (d.curr_position + k) % (d.buff_size - 1) ≢ j)
      → get_elem? d'.buffer j ≡ get_elem? d.buffer j

-- If every byte can be copied from user memory, and `count` is below 2 ^ 31, `circular_write` returns `count`. The position has
-- moved by `count` slots round the ring of `buff_size - 1`, of the bytes written the last
-- `buff_size - 1` stand in their slots, every other byte of the buffer is unchanged, and so is the
-- size.
pub circular_write-Written :
    (user : UserAccess) (m : Memory) (user_buf count : ℕ) (d : Device)
    → count < 2 ^ 31
    → IsValid d
    → ((k : ℕ) → k < count → (user.copy_from_user m (user_buf + k) 1).0 ≡ 0)
    → (d' : Device) × (circular_write user m user_buf count d ≡ done (ok count, d'))
      × Written user_buf count m d d'
unfolding circular_write
circular_write-Written user m user_buf count d small v all =
    let xs = read_bytes m user_buf count in
    let n : length xs ≡ count = length-read_bytes m user_buf count in
    (
      spin d xs,
      rw add-zero at (
          write_loop-eq-spin user m user_buf count 0 count d (omega arith) v
            (λ k h. all k (omega arith))),
      record {
        size = buff_size-spin d xs;
        position = curr_position-spin d xs v ∙ ap (slot d) n;
        latest = λ k h fits.
            spin-latest d xs k v (omega arith) (omega arith)
            ∙ get_elem?-read_bytes m user_buf k count h;
        untouched = λ j h. spin-untouched d xs j v (λ k lt. h k (omega arith));
      },
    )
