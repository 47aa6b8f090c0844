-- ===== src/Linked/Write.antt =====
-- `linked_write`: how it ends, and what the list then holds.
use agh_systems_programming.Common.{
  ℕ, zero, suc, ◌+◌, ◌-◌, ◌*◌, ◌/◌, ◌^◌, ◌≤◌, ◌<◌, ◌≡◌, ◌≢◌, refl, ◌∙◌, ap, List, [], ◌∷◌, ◌++◌,
  arith, sym, length-append, take, min, append_assoc, append-nil, Bool, true, false, some, none,
  dec_lt, Bool-cases, Option-cases, inl, inr, ◌⊎◌, ltb, ◌==◌,
}
use native.Mathlib.Nat.{add-zero}
use agh_systems_programming.Common.Outcome.{Errno, Ret, ok, error, enomem, efault, eintr, u64}
use agh_systems_programming.Common.User.{
  Memory, UserAccess, read_bytes, length-read_bytes, read_bytes-append,
}
use agh_systems_programming.Linked.{
  Device, Call, clean_list, is_clear, add_segment, write_loop, linked_write,
}
use agh_systems_programming.Linked.Locks.{Locking}
use agh_systems_programming.Linked.Segments.{
  Segment, internal_size, fill, stream, IsSegment, AllSegments-append, size-append, stream-append,
}
use agh_systems_programming.Linked.Valid.{IsValid, clean_list_lem, take-fill, length-fill}

module _ (user : UserAccess) (locking : Locking) (kzalloc signal : ℕ → Bool) (m : Memory)
    (user_buf count : ℕ) where
  open user use {copy_from_user}
  open locking use {Lock, write_lock, write_unlock}

  -- The bytes of the round at index `k`, as they are copied.
  abbrev pub chunk : ℕ → List ℕ
  chunk k = read_bytes m (user_buf + k) (min internal_size (count - k))

  -- Why the round at index `k` fails with error `e`, for a device whose lock is `l`.
  pub data Cause (l : Lock) (k : ℕ) (e : Errno) : Type 0 where
    no_memory : e ≡ enomem → kzalloc k ≡ false → Cause l k e
    bad_copy :
        e ≡ efault
        → (copy_from_user m (user_buf + k) (min internal_size (count - k))).0 ≢ 0
        → Cause l k e
    interrupted : e ≡ eintr → write_lock (signal k) l ≡ none → Cause l k e

  -- From index `i` on, the next `n` bytes from user memory have joined the stream, the position
  -- has moved by `n`.
  pub record Grown (i n f_pos : ℕ) (s : Device Lock) (c : Call Lock) : Type 0 where
    pub bytes : stream c.device.buffer ≡ stream s.buffer ++ read_bytes m (user_buf + i) n
    pub position : c.f_pos ≡ u64 (f_pos + n)

  -- The ways in which a write that stands at index `i` ends: all the bytes are written; or a round
  -- fails and the bytes before it are; or the command to clear is met, and the list is empty.
  pub data Ending (i f_pos : ℕ) (s : Device Lock) (c : Call Lock) : Type 0 where
    finished :
        c.ret ≡ ok count
        → c.device.write_count ≡ u64 (s.write_count + 1)
        → Grown i (count - i) f_pos s c
        → Ending i f_pos s c
    stopped :
        (e : Errno) (n : ℕ)
        → c.ret ≡ error e
        → c.device.write_count ≡ s.write_count
        → i + n < count
        → Cause s.lock (i + n) e
        → Grown i n f_pos s c
        → Ending i f_pos s c
    cleared :
        (n : ℕ)
        → c.ret ≡ ok count
        → c.device.write_count ≡ s.write_count
        → i + n < count
        → is_clear (fill (chunk (i + n))) ≡ true
        → c.device.buffer ≡ []
        → c.f_pos ≡ u64 (f_pos + n)
        → Ending i f_pos s c

  -- How a call that starts with globals `s` leaves them: valid, with the lock given back.
  pub record Left (i f_pos : ℕ) (s : Device Lock) (c : Call Lock) : Type 0 where
    pub valid : IsValid c.device
    pub unlocked : c.device.lock ≡ s.lock
    pub ending : Ending i f_pos s c

  -- Only the last round copies less than a whole segment.
  rest_or_whole :
      (i : ℕ) → (count - (i + internal_size) ≡ 0) ⊎ (min internal_size (count - i) ≡ internal_size)
  rest_or_whole i = elim (dec_lt count (i + internal_size)) [
    | yes lt ↦ inl (omega arith)
    | no ge ↦ inr (omega arith)
  ]

  bytes_behind :
      (i n : ℕ)
      → (n ≡ 0) ⊎ (min internal_size (count - i) ≡ internal_size)
      → read_bytes m (user_buf + (i + internal_size)) n
        ≡ read_bytes m (user_buf + i + min internal_size (count - i)) n
  unfolding read_bytes
  bytes_behind i n (inl e) = rw e
  bytes_behind i n (inr e) =
      let behind : user_buf + i + internal_size ≡ user_buf + (i + internal_size) = omega arith in
      rw (e, behind)

  module _ {i : ℕ} (inside : i < count) {s : Device Lock} (v : IsValid s) where
    abbrev to_copy : ℕ
    to_copy = min internal_size (count - i)

    abbrev added : Segment
    added = record { length = to_copy; contents = fill (chunk i) }

    added-IsSegment : IsSegment added
    added-IsSegment = record {
      nonempty = omega arith;
      fits = omega arith;
      block = length-fill (chunk i);
    }

    stream-added : stream (added ∷ []) ≡ chunk i
    stream-added =
        let n = length-read_bytes m (user_buf + i) to_copy in
        append-nil (take to_copy (fill (chunk i)))
        ∙ rw n at (take-fill (chunk i) (omega (arith, n)))

    module _ (l : Lock) (back : write_unlock l ≡ s.lock) where
      abbrev grown : Device Lock
      grown = add_segment user locking kzalloc signal m user_buf count l added s

      grown-IsValid : IsValid grown
      unfolding add_segment
      grown-IsValid = record {
        segments = AllSegments-append s.buffer (added ∷ []) v.segments (added-IsSegment, tt);
        total = omega (arith, v.total, size-append s.buffer (added ∷ []));
        live = omega (arith, v.live, length-append s.buffer (added ∷ []));
      }

      stream-grown : stream grown.buffer ≡ stream s.buffer ++ chunk i
      unfolding add_segment
      stream-grown =
          stream-append s.buffer (added ∷ []) ∙ ap (λ b. stream s.buffer ++ b) stream-added

      -- What a later round adds stands behind what this one added.
      Grown-next :
          (n f_pos : ℕ) {c : Call Lock}
          → (n ≡ 0) ⊎ (to_copy ≡ internal_size)
          → Grown (i + internal_size) n (u64 (f_pos + to_copy)) grown c
          → Grown i (to_copy + n) f_pos s c
      Grown-next n f_pos whole g = record {
        bytes =
            g.bytes
            ∙ ap (λ b. b ++ read_bytes m (user_buf + (i + internal_size)) n) stream-grown
            ∙ append_assoc (stream s.buffer) (chunk i)
                (read_bytes m (user_buf + (i + internal_size)) n)
            ∙ ap (λ b. stream s.buffer ++ (chunk i ++ b)) (bytes_behind i n whole)
            ∙ ap (λ b. stream s.buffer ++ b) (sym (read_bytes-append m (user_buf + i) to_copy n));
        position = omega (arith, g.position);
      }

      Ending-next :
          (f_pos : ℕ) {c : Call Lock}
          → Ending (i + internal_size) (u64 (f_pos + to_copy)) grown c
          → Ending i f_pos s c
      unfolding add_segment
      Ending-next f_pos (finished r w g) =
          let whole = rest_or_whole i in
          let e : to_copy + (count - (i + internal_size)) ≡ count - i = omega (arith, whole) in
          finished r w (rw e at (Grown-next (count - (i + internal_size)) f_pos whole g))
      Ending-next f_pos (stopped e n r w lt cause g) =
          let at_next : i + internal_size + n ≡ i + (to_copy + n) = omega arith in
          stopped e (to_copy + n) r w (omega arith) (rw back at (rw at_next at cause))
            (Grown-next n f_pos (inr (omega arith)) g)
      Ending-next f_pos (cleared n r w lt command b p) =
          let at_next : i + internal_size + n ≡ i + (to_copy + n) = omega arith in
          cleared (to_copy + n) r w (omega arith) (rw at_next at command) b (omega arith)

      Left-next :
          (f_pos : ℕ) {c : Call Lock}
          → Left (i + internal_size) (u64 (f_pos + to_copy)) grown c
          → Left i f_pos s c
      unfolding add_segment
      Left-next f_pos left = record {
        valid = left.valid;
        unlocked = left.unlocked ∙ back;
        ending = Ending-next f_pos left.ending;
      }

  -- What `unfolding write_loop` leaves to choose from where the loop stops.
  abbrev stop : Ret → ℕ → Device Lock → Call Lock
  stop r f_pos s = record { ret = r; f_pos = f_pos; device = s; memory = m }

  Grown-none :
      (i f_pos : ℕ) (s : Device Lock) (c : Call Lock) (n : ℕ)
      → f_pos < 2 ^ 64
      → n ≡ 0
      → c.device.buffer ≡ s.buffer
      → c.f_pos ≡ f_pos
      → Grown i n f_pos s c
  unfolding read_bytes
  Grown-none i f_pos s c n small e b p =
      rw e (record {
        bytes = ap stream b ∙ sym (append-nil (stream s.buffer));
        position = omega arith;
      })

  module _ {i f_pos : ℕ} {s : Device Lock} (v : IsValid s) (small : f_pos < 2 ^ 64) where
    Left-finished :
        count ≤ i
        → Left i f_pos s
            (stop (ok count) f_pos (record s { write_count = u64 (s.write_count + 1) }))
    Left-finished h = record {
      valid = ground arith;
      unlocked = refl;
      ending =
          finished refl refl (Grown-none i f_pos s _ (count - i) small (omega arith) refl refl);
    }

    Left-stopped :
        (e : Errno) → i < count → Cause s.lock i e → Left i f_pos s (stop (error e) f_pos s)
    Left-stopped e h cause = record {
      valid = v;
      unlocked = refl;
      ending =
          stopped e 0 refl refl (omega arith) (rw add-zero cause)
            (Grown-none i f_pos s _ 0 small refl refl refl);
    }

    Left-cleared :
        i < count
        → is_clear (fill (chunk i)) ≡ true
        → Left i f_pos s (stop (ok count) f_pos (clean_list s))
    Left-cleared h command = rw (clean_list_lem s v) (record {
      valid = record { segments = tt; total = refl; live = refl };
      unlocked = refl;
      ending = cleared 0 refl refl (omega arith) (rw add-zero command) refl (omega arith);
    })

  -- A round at index `i`, on each of its branches.
  write_loop-Left :
      (fuel i f_pos : ℕ) (s : Device Lock)
      → IsValid s
      → f_pos < 2 ^ 64
      → i ≤ count + 3
      → count + 3 < i + internal_size * fuel
      → (c : Call Lock) × (write_loop user locking kzalloc signal m user_buf count fuel i f_pos s
          ≡ some c)
        × Left i f_pos s c
  unfolding write_loop
  write_loop-Left zero i f_pos s v small near enough = absurd (omega arith)
  write_loop-Left (suc fuel) i f_pos s v small near enough = elim (Bool-cases (ltb i count)) [
    | inr over ↦ (_, rw over, Left-finished v small (ground arith))
    | inl t ↦
        let inside : i < count = ground arith in
        elim (Bool-cases (kzalloc i)) [
          | inr out ↦ (_, rw (t, out), Left-stopped v small enomem inside (no_memory refl out))
          | inl given ↦
              elim (Bool-cases
                ((copy_from_user m (user_buf + i) (min internal_size (count - i))).0 == 0)) [
                  | inr bad ↦ (
                    _,
                    rw (t, given, bad),
                    Left-stopped v small efault inside (bad_copy refl (ground arith)),
                  )
                  | inl good ↦
                      let bytes =
                        user.from_user_done m (user_buf + i) (min internal_size (count - i))
                          (ground arith) in
                      elim (Bool-cases (is_clear (fill (chunk i)))) [
                        | inl command ↦ (
                          _,
                          rw (t, given, good, bytes, command),
                          Left-cleared v small inside command,
                        )
                        | inr other ↦ elim (Option-cases (write_lock (signal i) s.lock)) [
                          | inl busy ↦ (
                            _,
                            rw (t, given, good, bytes, other, busy),
                            Left-stopped v small eintr inside (interrupted refl busy),
                          )
                          | inr (l, taken) ↦
                              let back = locking.write_back (signal i) s.lock taken in
                              let (c, e, left) =
                                write_loop-Left fuel (i + internal_size)
                                  (u64 (f_pos + min internal_size (count - i)))
                                  (grown inside v l back) (grown-IsValid inside v l back)
                                  (omega arith) (omega arith) (omega arith) in
                              (
                                c,
                                rw (t, given, good, bytes, other, taken, bytes) e,
                                Left-next inside v l back f_pos left,
                              )
                        ]
                      ]
                ]
        ]
  ]

-- From valid globals and a position below 2 ^ 64 `linked_write` always returns, and leaves valid globals with the lock given
-- back. Either it returns `count` and all bytes from user memory have joined the stream; or it fails
-- for a cause in one of its rounds, and just the bytes of the rounds before have; or a round's bytes
-- are the command to clear, and it returns `count` with an empty list and the rest not written. The
-- position moves by the bytes of the rounds done, and only in the first case a write is counted.
pub linked_write_lem :
    (user : UserAccess) (locking : Locking) (kzalloc signal : ℕ → Bool) (m : Memory)
    (user_buf count f_pos : ℕ) {s : Device (Locking.Lock locking)}
    → IsValid s
    → f_pos < 2 ^ 64
    → (c : Call (Locking.Lock locking)) × (linked_write user locking kzalloc signal m user_buf count
          f_pos s
        ≡ some c)
      × Left user locking kzalloc signal m user_buf count 0 f_pos s c
unfolding linked_write
linked_write_lem user locking kzalloc signal m user_buf count f_pos {s} v small =
    write_loop-Left user locking kzalloc signal m user_buf count (count / internal_size + 2) 0 f_pos
      s v small (omega arith) (omega arith)
