-- ===== src/Simple/Message.antt =====
-- `simple_read`: which part of the message a call gives, and what a sequence of calls gives.
use agh_systems_programming.Common.{
  ℕ, zero, suc, ◌+◌, ◌-◌, ◌%◌, ◌^◌, ◌≤◌, ◌<◌, ◌≡◌, refl, ap, ap₂, sym, length-append, ◌∙◌, inl, inr,
  min, Bool, none, some, List, [], ◌∷◌, ◌++◌, get_or, take, drop, length, arith, ◌⊎◌, dec_lt,
  Option-cases,
}
use native.Mathlib.Nat.{add-zero}
use agh_systems_programming.Common.Locks.{Guard}
use agh_systems_programming.Common.Outcome.{
  Errno, Ret, ok, error, enomem, eintr, done, fault, done-injective, ok-injective, Allocator,
}
use agh_systems_programming.Common.User.{
  Memory, UserAccess, read_bytes, read_bytes-write_bytes, length-read_bytes,
}
use agh_systems_programming.Simple.{msg_str, msg_len, Device, next_pos, fill_loop, simple_read}

take-drop-cons :
    (xs : List ℕ) (n j : ℕ)
    → j < length xs
    → take (suc n) (drop j xs) ≡ get_or xs j 0 ∷ take n (drop (suc j) xs)
take-drop-cons [] n j h = elim h [ ]
take-drop-cons (x ∷ xs) n zero h = refl
take-drop-cons (x ∷ xs) n (suc j) h = take-drop-cons xs n j (omega arith)

-- The part of the message from position `p` on, up to its end, as far as `n` bytes go.
abbrev pub part : ℕ → ℕ → List ℕ
part p n = take n (drop (p % msg_len) msg_str)

next_pos-done : (p : ℕ) → p + 1 < 2 ^ 31 → next_pos p ≡ done (p + 1)
unfolding next_pos
next_pos-done p h = ground arith

fill_loop-suc :
    (n p : ℕ) {bytes : List ℕ} {q : ℕ}
    → p + 1 < 2 ^ 31
    → fill_loop n (p + 1) ≡ done (bytes, q)
    → fill_loop (suc n) p ≡ done (get_or msg_str (p % msg_len) 0 ∷ bytes, q)
unfolding fill_loop
fill_loop-suc n p small e = rw (next_pos-done p small, e)

-- A part is a byte and the part behind it.
part-suc :
    (n p : ℕ)
    → suc n ≤ msg_len - p % msg_len
    → part p (suc n) ≡ get_or msg_str (p % msg_len) 0 ∷ part (p + 1) n
part-suc zero p room = take-drop-cons msg_str 0 (p % msg_len) (omega arith)
part-suc (suc n) p room =
    let next : suc (p % msg_len) ≡ (p + 1) % msg_len = omega arith in
    take-drop-cons msg_str (suc n) (p % msg_len) (omega arith)
    ∙ ap (λ j. get_or msg_str (p % msg_len) 0 ∷ take (suc n) (drop j msg_str)) next

fill_loop-zero : (p : ℕ) → fill_loop zero p ≡ done ([], p)
unfolding fill_loop
fill_loop-zero p = refl

-- The loop copies the part of the message from the position on, as long as it stays in the message.
fill_loop-part :
    (n p : ℕ) → n ≤ msg_len - p % msg_len → p + n < 2 ^ 31 → fill_loop n p ≡ done (part p n, p + n)
fill_loop-part zero p room small = rw add-zero (fill_loop-zero p)
fill_loop-part (suc zero) p room small =
    let e : p + 1 + 0 ≡ p + 1 = omega arith in
    rw (part-suc 0 p room) (fill_loop-suc 0 p (omega arith) (fill_loop-zero (p + 1)))
fill_loop-part (suc (suc n)) p room small =
    let e : p + 1 + suc n ≡ p + suc (suc n) = omega arith in
    rw (part-suc (suc n) p room, ← e)
      (fill_loop-suc (suc n) p (omega arith)
        (fill_loop-part (suc n) (p + 1) (omega arith) (omega arith)))

fill_loop-last : (n p : ℕ) → p ≡ 2 ^ 31 - 1 → fill_loop (suc n) p ≡ fault
unfolding fill_loop next_pos
fill_loop-last n p e = ground arith

fill_loop-over :
    (n p : ℕ) → p + 1 < 2 ^ 31 → fill_loop n (p + 1) ≡ fault → fill_loop (suc n) p ≡ fault
unfolding fill_loop
fill_loop-over n p small e = rw (next_pos-done p small, e)

-- From the position of an `int` on, the loop leaves one, or it overflows.
fill_loop-cases : (n p : ℕ) → p < 2 ^ 31 → (fill_loop n p ≡ fault) ⊎ (p + n < 2 ^ 31)
fill_loop-cases zero p int = inr (omega arith)
fill_loop-cases (suc n) p int = elim (dec_lt (p + 1) (2 ^ 31)) [
  | no last ↦ inl (fill_loop-last n p (omega arith))
  | yes more ↦ elim (fill_loop-cases n (p + 1) more) [
    | inl over ↦ inl (fill_loop-over n p more over)
    | inr fits ↦ inr (omega arith)
  ]
]

-- The bytes that a call at position `p` for `count` bytes hands out: not past the message's end.
abbrev pub share : ℕ → ℕ → ℕ
share p count = min (msg_len - p % msg_len) count

module _ (user : UserAccess) (guard : Guard) (alloc : Allocator) (signal : Bool) (m : Memory)
    (user_buf count : ℕ) where
  open guard use {Lock, acquire}

  -- A call that gets the lock and its buffer, where the position behind it is still an `int`, returns the number of bytes from the position to the end of the message, or `count` if
  -- that is less. These bytes of the message are what it hands to `copy_to_user`; it returns their
  -- number also where the copy is not complete. The position moves by them, and the lock is given
  -- back.
  pub simple_read_lem :
      (s : Device Lock) {l : Lock} {b : List ℕ}
      → acquire signal s.lock ≡ some l
      → alloc.kmalloc 0 (share s.msg_pos count) ≡ some b
      → s.msg_pos + share s.msg_pos count < 2 ^ 31
      → let n = share s.msg_pos count in
        simple_read user guard alloc signal m user_buf count s
        ≡ done (
          ok n,
          record s { msg_pos = s.msg_pos + n },
          (user.copy_to_user m user_buf (part s.msg_pos n)).1,
        )
  unfolding simple_read
  simple_read_lem s got block small =
      let n = share s.msg_pos count in
      let loop = fill_loop-part n s.msg_pos (omega arith) small in
      let back = guard.acquire_back signal s.lock got in rw (got, simple_read, block, loop, back)

  simple_read-over :
      (s : Device Lock) {l : Lock} {b : List ℕ}
      → acquire signal s.lock ≡ some l
      → alloc.kmalloc 0 (share s.msg_pos count) ≡ some b
      → fill_loop (share s.msg_pos count) s.msg_pos ≡ fault
      → simple_read user guard alloc signal m user_buf count s ≡ fault
  unfolding simple_read
  simple_read-over s got block over = rw (got, simple_read, block, over)

  -- A call that is interrupted at the lock returns -EINTR, one that gets no buffer -ENOMEM; both leave
  -- the position, the lock and user memory as they were.
  pub simple_read_fails :
      (s : Device Lock)
      → ((acquire signal s.lock ≡ none)
          → simple_read user guard alloc signal m user_buf count s ≡ done (error eintr, s, m))
        × ((l : Lock)
            → acquire signal s.lock ≡ some l
            → alloc.kmalloc 0 (share s.msg_pos count) ≡ none
            → simple_read user guard alloc signal m user_buf count s ≡ done (error enomem, s, m))
  unfolding simple_read
  simple_read_fails s = (
    λ h. rw (h, simple_read),
    λ l h b. rw (h, simple_read, b, guard.acquire_back signal s.lock h),
  )

-- The message over and over, from position `p` on: `n` bytes.
abbrev pub cycle : ℕ → ℕ → List ℕ
cycle p zero = []
cycle p (suc n) = get_or msg_str (p % msg_len) 0 ∷ cycle (p + 1) n

part-eq-cycle : (n p : ℕ) → n ≤ msg_len - p % msg_len → part p n ≡ cycle p n
part-eq-cycle zero p room = refl
part-eq-cycle (suc zero) p room = part-suc 0 p room
part-eq-cycle (suc (suc n)) p room =
    part-suc (suc n) p room
    ∙ ap (λ bytes. get_or msg_str (p % msg_len) 0 ∷ bytes)
        (part-eq-cycle (suc n) (p + 1) (omega arith))

length-cycle : (n p : ℕ) → length (cycle p n) ≡ n
length-cycle zero p = refl
length-cycle (suc n) p = ap suc (length-cycle n (p + 1))

cycle-append : (n k p : ℕ) → cycle p n ++ cycle (p + n) k ≡ cycle p (n + k)
cycle-append zero k p =
    let e : p + 0 ≡ p = omega arith in let f : 0 + k ≡ k = omega arith in rw (e, f)
cycle-append (suc n) k p =
    let e : suc n + k ≡ suc (n + k) = omega arith in
    let f : p + 1 + n ≡ p + suc n = omega arith in
    rw e (ap (λ bytes. get_or msg_str (p % msg_len) 0 ∷ bytes) (rw f at (cycle-append n k (p + 1))))

module _ (user : UserAccess) (guard : Guard) (alloc : Allocator) where
  open guard use {Lock, acquire}

  -- Calls of any readers, one after the other, each with its own memory: the bytes that the
  -- successful ones give their callers, in order. None of them overflows the position.
  pub data Reads : Device Lock → List ℕ → Device Lock → Type 0 where
    stop : {s : Device Lock} → Reads s [] s
    call :
        {s s' t : Device Lock} {bytes : List ℕ} {m' : Memory} {n : ℕ} (signal : Bool) (m : Memory)
        (user_buf count : ℕ)
        → simple_read user guard alloc signal m user_buf count s ≡ done (ok n, s', m')
        → Reads s' bytes t
        → Reads s (read_bytes m' user_buf n ++ bytes) t
    failed :
        {s s' t : Device Lock} {bytes : List ℕ} {m' : Memory} {e : Errno} (signal : Bool)
        (m : Memory) (user_buf count : ℕ)
        → simple_read user guard alloc signal m user_buf count s ≡ done (error e, s', m')
        → Reads s' bytes t
        → Reads s bytes t

  failed-keeps :
      (s s' : Device Lock) {m' : Memory} {e : Errno} (signal : Bool) (m : Memory)
      (user_buf count : ℕ)
      → s.msg_pos < 2 ^ 31
      → simple_read user guard alloc signal m user_buf count s ≡ done (error e, s', m')
      → s' ≡ s
  failed-keeps s s' signal m user_buf count small e = elim (Option-cases (acquire signal s.lock)) [
    | inl busy ↦
        let kept = (simple_read_fails user guard alloc signal m user_buf count s).0 busy in
        ap (λ (r : Ret × Device Lock × Memory). r.1) (done-injective (sym e ∙ kept))
    | inr (l, got) ↦ elim (Option-cases (alloc.kmalloc 0 (share s.msg_pos count))) [
      | inl out ↦
          let kept = (simple_read_fails user guard alloc signal m user_buf count s).1 l got out in
          ap (λ (r : Ret × Device Lock × Memory). r.1) (done-injective (sym e ∙ kept))
      | inr (b, block) ↦ elim (fill_loop-cases (share s.msg_pos count) s.msg_pos small) [
        | inl over ↦
            let result =
              simple_read-over user guard alloc signal m user_buf count s got block over in
            cc
        | inr fits ↦
            let result =
              simple_read_lem user guard alloc signal m user_buf count s got block fits in
            cc
      ]
    ]
  ]

  -- What one successful call gives, if user memory is mapped.
  module _ (mapped : (m : Memory) (a : ℕ) (xs : List ℕ) → (user.copy_to_user m a xs).0 ≡ 0) where
    call-cycle :
        (s s' : Device Lock) {m' : Memory} {n : ℕ} (signal : Bool) (m : Memory) (user_buf count : ℕ)
        → s.msg_pos < 2 ^ 31
        → simple_read user guard alloc signal m user_buf count s ≡ done (ok n, s', m')
        → (s.msg_pos + n < 2 ^ 31)
          × (s'.msg_pos ≡ s.msg_pos + n)
          × (read_bytes m' user_buf n ≡ cycle s.msg_pos n)
    call-cycle s s' {m'} {n} signal m user_buf count small e =
        elim (Option-cases (acquire signal s.lock)) [
          | inl busy ↦
              let none_read =
                (simple_read_fails user guard alloc signal m user_buf count s).0 busy in
              cc
          | inr (l, got) ↦ elim (Option-cases (alloc.kmalloc 0 (share s.msg_pos count))) [
            | inl out ↦
                let none_read =
                  (simple_read_fails user guard alloc signal m user_buf count s).1 l got out in
                cc
            | inr (b, block) ↦ elim (fill_loop-cases (share s.msg_pos count) s.msg_pos small) [
              | inl over ↦
                  let result =
                    simple_read-over user guard alloc signal m user_buf count s got block over in
                  cc
              | inr fits ↦
                  let k = share s.msg_pos count in
                  let bytes = part s.msg_pos k in
                  let as_cycle = part-eq-cycle k s.msg_pos (omega arith) in
                  let size : length bytes ≡ k = ap length as_cycle ∙ length-cycle k s.msg_pos in
                  let result =
                    simple_read_lem user guard alloc signal m user_buf count s got block fits in
                  let copied = user.to_user_done m user_buf bytes (mapped m user_buf bytes) in
                  let same = done-injective (sym e ∙ result) in
                  let n_eq : n ≡ k =
                    ok-injective (ap (λ (r : Ret × Device Lock × Memory). r.0) same) in
                  (
                    omega (arith, n_eq),
                    ap (λ (r : Ret × Device Lock × Memory). r.1.msg_pos) same
                        ∙ ap (λ j. s.msg_pos + j) (sym n_eq),
                    rw (ap (λ (r : Ret × Device Lock × Memory). r.2) same, copied, n_eq)
                        (rw size at (read_bytes-write_bytes m user_buf bytes) ∙ as_cycle),
                  )
            ]
          ]
        ]

    -- Readers call in whatever order, and whichever of their calls fail: from a position that is an `int`,
    -- and for as long as no call moves it past the largest one, the bytes that the successful calls give,
    -- one call after the other, are the message over and over from the position at the start, with no
    -- byte left out and none given twice; the position has moved by their number. User memory is mapped.
    pub Reads-cycle :
        (s t : Device Lock) {bytes : List ℕ}
        → s.msg_pos < 2 ^ 31
        → Reads s bytes t
        → (bytes ≡ cycle s.msg_pos (length bytes)) × (t.msg_pos ≡ s.msg_pos + length bytes)
    Reads-cycle s t int stop = (refl, omega arith)
    Reads-cycle s t int (failed {s' = s'} signal m user_buf count e rest) =
        let kept = failed-keeps s s' signal m user_buf count int e in
        rw kept at (Reads-cycle s' t (rw kept int) rest)
    Reads-cycle s t int
          (call {s' = s'} {bytes = bytes} {m' = m'} {n = n} signal m user_buf count e rest) =
        let (fits, moved, first) = call-cycle s s' signal m user_buf count int e in
        let (later, last) = Reads-cycle s' t (omega arith) rest in
        let k = length bytes in
        let size : length (read_bytes m' user_buf n ++ bytes) ≡ n + k =
          length-append (read_bytes m' user_buf n) bytes
          ∙ ap (λ j. j + k) (length-read_bytes m' user_buf n) in
        (
          rw size (ap₂ ◌++◌ first (later ∙ ap (λ p. cycle p k) moved) ∙ cycle-append n k s.msg_pos),
          omega (arith, size),
        )
