-- ===== src/Circular/Read.antt =====
-- `circular_read`: it hands out the C string at the start of the buffer, whole, once.
use agh_systems_programming.Common.{
  ℕ, zero, suc, ◌+◌, ◌-◌, ◌≤◌, ◌<◌, ◌^◌, ◌≡◌, ◌≢◌, some, List, [], ◌∷◌, arith, ◌==◌, get_elem?,
  get_elem?-take, length-take, take, dec_lt, Bool-cases, inl, inr, ◌∙◌, sym,
}
use native.Mathlib.Numerals.{add-one}
use agh_systems_programming.Common.Outcome.{ok, error, efault, done, u64}
use agh_systems_programming.Common.User.{Memory, UserAccess, write_bytes, get_elem?-write_bytes}
use agh_systems_programming.Circular.{Device, strlen, circular_read}
use agh_systems_programming.Circular.Valid.{IsValid}

-- `n` is the length of the C string in a block.
pub record IsText (b : List ℕ) (n : ℕ) : Type 0 where
  pub ended : get_elem? b n ≡ some 0
  pub nonzero : (k : ℕ) → k < n → get_elem? b k ≢ some 0

IsText-suc : (c : ℕ) (cs : List ℕ) (n : ℕ) → c ≢ 0 → IsText cs n → IsText (c ∷ cs) (suc n)
IsText-suc c cs n ne t = record { ended = t.ended; nonzero = before }
  where
    before : (k : ℕ) → k < suc n → get_elem? (c ∷ cs) k ≢ some 0
    before zero h = ground arith
    before (suc k) h = t.nonzero k (omega arith)

strlen-IsText :
    (b : List ℕ) (i : ℕ)
    → get_elem? b i ≡ some 0
    → (n : ℕ) × (n ≤ i) × (strlen b ≡ done n) × IsText b n
unfolding strlen
strlen-IsText [] i h = cc
strlen-IsText (c ∷ cs) zero h =
    (0, omega arith, ground arith, record { ended = h; nonzero = λ k lt. elim lt [ ] })
strlen-IsText (c ∷ cs) (suc i) h = elim (Bool-cases (c == 0)) [
  | inl e ↦
      (0, omega arith, ground arith, record { ended = ground arith; nonzero = λ k lt. elim lt [ ] })
  | inr e ↦
      let (n, le, s, t) = strlen-IsText cs i h in
      (suc n, omega arith, rw (e, s, add-one), IsText-suc c cs n (ground arith) t)
]

-- Of the text there is one length.
IsText-unique : {b : List ℕ} {n k : ℕ} → IsText b n → IsText b k → n ≡ k
IsText-unique {b} {n} {k} s t = elim (dec_lt n k) [
  | yes lt ↦ absurd (t.nonzero n lt s.ended)
  | no ge ↦ elim (dec_lt k n) [ yes lt ↦ absurd (s.nonzero k lt t.ended) | no le ↦ omega arith ]
]

-- A valid device holds a text that ends inside its block, and `strlen` finds its length.
pub text :
    {d : Device}
    → IsValid d
    → (n : ℕ) × (n < d.buff_size) × (strlen d.buffer ≡ done n) × IsText d.buffer n
text {d} v =
    let (n, le, s, t) = strlen-IsText d.buffer (d.buff_size - 1) v.ended in (n, omega arith, s, t)

strlen-eq :
    {d : Device} {n : ℕ}
    → IsValid d
    → IsText d.buffer n
    → (strlen d.buffer ≡ done n) × (n < d.buff_size)
strlen-eq v t = let (k, lt, s, t') = text v in let e = IsText-unique t t' in (rw e s, rw e lt)

-- On a valid device with a text of `n` bytes, `circular_read` never leaves the buffer. At or behind
-- the end of the text it returns 0 and changes nothing; before it, it returns `n` with the whole
-- text written to the user and the position moved by `n`, or -EFAULT with the position unmoved if
-- the copy is not complete.
circular_read_lem :
    (user : UserAccess) (m : Memory) (user_buf count f_pos : ℕ) {n : ℕ} {d : Device}
    → IsValid d
    → IsText d.buffer n
    → let m' = (user.copy_to_user m user_buf (take n d.buffer)).1 in
      let left = (user.copy_to_user m user_buf (take n d.buffer)).0 in
      let out = circular_read user m user_buf count f_pos d in
      (n ≤ f_pos → out ≡ done (ok 0, f_pos, m))
      × (f_pos < n
          → left ≡ 0
          → out ≡ done (ok n, u64 (f_pos + n), write_bytes m user_buf (take n d.buffer)))
      × (f_pos < n → left ≢ 0 → out ≡ done (error efault, f_pos, m'))
unfolding circular_read
circular_read_lem user m user_buf count f_pos {n} {d} v t =
    let s = (strlen-eq v t).0 in
    (
      λ h. rw s (ground arith),
      λ h e. rw s (ground (arith, user.to_user_done m user_buf (take n d.buffer) e)),
      λ h e. rw s (ground arith),
    )

-- A reader that starts at position 0 of a valid device of less than 2 ^ 31 bytes with a nonempty
-- text of `n` bytes gets the
-- whole text by its first call, if the copy is complete, and 0, the end of the file, by every later
-- call from the position that the first one leaves; its memory then holds the text and no further
-- byte is written.
pub circular_read_then_end :
    (user : UserAccess) (m : Memory) (user_buf count count' : ℕ) {n : ℕ} {d : Device}
    → IsValid d
    → d.buff_size < 2 ^ 31
    → IsText d.buffer n
    → 0 < n
    → (user.copy_to_user m user_buf (take n d.buffer)).0 ≡ 0
    → let m' = write_bytes m user_buf (take n d.buffer) in
      (circular_read user m user_buf count 0 d ≡ done (ok n, n, m'))
      × (circular_read user m' user_buf count' n d ≡ done (ok 0, n, m'))
circular_read_then_end user m user_buf count count' {n} {d} v small t pos e =
    let m' = write_bytes m user_buf (take n d.buffer) in
    let lt = (strlen-eq v t).1 in
    let back : u64 (0 + n) ≡ n = omega arith in
    (
      rw back at ((circular_read_lem user m user_buf count 0 v t).1 pos e),
      (circular_read_lem user m' user_buf count' n v t).0 (omega arith),
    )

-- `circular_read` writes past the caller's buffer: on a valid device of less than 2 ^ 31 bytes with a text of `n` bytes a read
-- from position 0 for `count < n` bytes, whose copy is complete, returns more than `count`, and the
-- byte just behind the `count` bytes asked for is overwritten by the text's.
pub circular_read_overrun :
    (user : UserAccess) (m : Memory) (user_buf count : ℕ) {n : ℕ} {d : Device}
    → IsValid d
    → d.buff_size < 2 ^ 31
    → IsText d.buffer n
    → count < n
    → (user.copy_to_user m user_buf (take n d.buffer)).0 ≡ 0
    → (m' : Memory) × (circular_read user m user_buf count 0 d ≡ done (ok n, n, m'))
      × (get_elem? d.buffer count ≡ some (m' (user_buf + count)))
circular_read_overrun user m user_buf count {n} {d} v small t over e = (
  write_bytes m user_buf (take n d.buffer),
  (circular_read_then_end user m user_buf count 0 v small t (omega arith) e).0,
  sym (get_elem?-take n count d.buffer over)
      ∙ get_elem?-write_bytes m user_buf count (take n d.buffer)
          (omega (arith, length-take n d.buffer, strlen-eq v t)),
)
