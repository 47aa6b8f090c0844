-- ===== src/Linked/Copies.antt =====
-- The driver without a lock, and a copy whose locks wait: what is left of a call without the lock.
use agh_systems_programming.Common.{
  ℕ, zero, suc, ◌+◌, ◌-◌, ◌/◌, ◌≡◌, refl, ap, ap₂, ◌∙◌, arith, Bool, Option, none, some, List, [],
  ◌∷◌, drop, min, ltb, ◌==◌, Bool-cases, inl, inr,
}
use agh_systems_programming.Common.Outcome.{ok, u64}
use agh_systems_programming.Common.User.{Memory, UserAccess}
use agh_systems_programming.Linked.{
  Device, Call, clean_loop, clean_list, read_loop, is_clear, linked_read, linked_write, write_loop,
  add_segment,
}
use agh_systems_programming.Linked.Locks.{Locking, waiting}
use agh_systems_programming.Linked.Segments.{Segment, internal_size, fill}

-- No lock at all.
abbrev pub unlocked : Locking
unlocked = waiting {L = Unit {0}} (λ l. l) (λ l. l) (λ l. l) (λ l. l) (λ l. refl) (λ l. refl)

abbrev empty_length : Device (Unit {0}) → Device (Unit {0})
empty_length s = record s { total_length = 0 }

module _ {Lock : Type 0} where
  abbrev pub bare : Device Lock → Device (Unit {0})
  bare s = record {
    read_count = s.read_count;
    write_count = s.write_count;
    buffer = s.buffer;
    total_length = s.total_length;
    live = s.live;
    lock = tt;
  }

  abbrev pub bare_call : Call Lock → Call (Unit {0})
  bare_call c = record { ret = c.ret; f_pos = c.f_pos; device = bare c.device; memory = c.memory }

  abbrev pub bare_end : Option (Call Lock) → Option (Call (Unit {0}))
  bare_end none = none
  bare_end (some c) = some (bare_call c)

  -- A call without a lock, as one that leaves the lock `l`.
  abbrev pub with_lock : Lock → Call (Unit {0}) → Call Lock
  with_lock l c = record {
    ret = c.ret;
    f_pos = c.f_pos;
    device = record {
      read_count = c.device.read_count;
      write_count = c.device.write_count;
      buffer = c.device.buffer;
      total_length = c.device.total_length;
      live = c.device.live;
      lock = l;
    };
    memory = c.memory;
  }

  abbrev pub ended_with_lock : Lock → Option (Call (Unit {0})) → Option (Call Lock)
  ended_with_lock l none = none
  ended_with_lock l (some c) = some (with_lock l c)

  -- The lock that a call leaves.
  abbrev left_lock : Lock → Option (Call Lock) → Lock
  left_lock l none = l
  left_lock l (some c) = c.device.lock

  ended :
      (l : Lock) (o : Option (Call Lock)) → left_lock l o ≡ l → o ≡ ended_with_lock l (bare_end o)
  ended l none e = refl
  ended l (some c) e = ap (λ k. some (with_lock k (bare_call c))) e

  clean_loop-lock :
      (entries : List Segment) (s : Device Lock) → (clean_loop entries s).lock ≡ s.lock
  unfolding clean_loop
  clean_loop-lock [] s = refl
  clean_loop-lock (d ∷ entries) s =
      clean_loop-lock entries (record s { buffer = drop 1 s.buffer; live = s.live - 1 })

  clean_list-lock : (s : Device Lock) → (clean_list s).lock ≡ s.lock
  unfolding clean_list
  clean_list-lock s = clean_loop-lock s.buffer s

  clean_loop-bare :
      (entries : List Segment) (s : Device Lock)
      → bare (clean_loop entries s) ≡ clean_loop entries (bare s)
  unfolding clean_loop
  clean_loop-bare [] s = refl
  clean_loop-bare (d ∷ entries) s =
      clean_loop-bare entries (record s { buffer = drop 1 s.buffer; live = s.live - 1 })

  clean_list-bare : (s : Device Lock) → bare (clean_list s) ≡ clean_list (bare s)
  unfolding clean_list
  clean_list-bare s = ap empty_length (clean_loop-bare s.buffer s)

module _ (user : UserAccess) {L : Type 0} (enter_read leave_read enter_write leave_write : L → L)
    (read_law : (l : L) → leave_read (enter_read l) ≡ l)
    (write_law : (l : L) → leave_write (enter_write l) ≡ l) where
  abbrev locking : Locking
  locking = waiting enter_read leave_read enter_write leave_write read_law write_law

  linked_read-bare :
      (signal signal' : Bool) (m : Memory) (user_buf count f_pos : ℕ) (s : Device L)
      → bare_call (linked_read user locking signal m user_buf count f_pos s)
        ≡ linked_read user unlocked signal' m user_buf count f_pos (bare s)
  unfolding linked_read
  linked_read-bare signal signal' m user_buf count f_pos s =
      elim (Bool-cases (ltb s.total_length f_pos)) [
        | inl behind ↦ rw behind refl
        | inr before ↦
            let r =
              (read_loop user user_buf count f_pos s.buffer
                (record { pos = 0; copied = 0; real_length = 0; memory = m })).0 in
            elim (Bool-cases r) [
              | inl whole ↦ rw (before, whole) refl
              | inr part ↦ rw (before, part) refl
            ]
      ]

  write_loop-bare :
      (kzalloc signal signal' : ℕ → Bool) (m : Memory) (user_buf count fuel i f_pos : ℕ)
      (s : Device L)
      → bare_end (write_loop user locking kzalloc signal m user_buf count fuel i f_pos s)
        ≡ write_loop user unlocked kzalloc signal' m user_buf count fuel i f_pos (bare s)
  unfolding write_loop add_segment
  write_loop-bare kzalloc signal signal' m user_buf count zero i f_pos s = refl
  write_loop-bare kzalloc signal signal' m user_buf count (suc fuel) i f_pos s =
      let leave : Device (Unit {0}) → Option (Call (Unit {0})) =
        λ t. some (record { ret = ok count; f_pos = f_pos; device = t; memory = m }) in
      let to_copy = min internal_size (count - i) in
      let copied = user.copy_from_user m (user_buf + i) to_copy in
      let d : Segment = record { length = to_copy; contents = fill copied.1 } in
      let rest =
        write_loop-bare kzalloc signal signal' m user_buf count fuel (i + internal_size)
          (u64 (f_pos + to_copy))
          (add_segment user locking kzalloc signal m user_buf count (enter_write s.lock) d s) in
      elim (Bool-cases (ltb i count)) [
        | inr past ↦ rw past refl
        | inl more ↦ elim (Bool-cases (kzalloc i)) [
          | inr full ↦ rw (more, full) refl
          | inl block ↦ elim (Bool-cases (copied.0 == 0)) [
            | inr part ↦ rw (more, block, part) refl
            | inl all ↦ elim (Bool-cases (is_clear d.contents)) [
              | inl clears ↦ rw (more, block, all, clears) (ap leave (clean_list-bare s))
              | inr kept ↦ rw (more, block, all, kept) rest
            ]
          ]
        ]
      ]

  linked_write-bare :
      (kzalloc signal signal' : ℕ → Bool) (m : Memory) (user_buf count f_pos : ℕ) (s : Device L)
      → bare_end (linked_write user locking kzalloc signal m user_buf count f_pos s)
        ≡ linked_write user unlocked kzalloc signal' m user_buf count f_pos (bare s)
  unfolding linked_write
  linked_write-bare kzalloc signal signal' m user_buf count f_pos s =
      write_loop-bare kzalloc signal signal' m user_buf count (count / internal_size + 2) 0 f_pos s

  linked_read-lock :
      (signal : Bool) (m : Memory) (user_buf count f_pos : ℕ) (s : Device L)
      → (linked_read user locking signal m user_buf count f_pos s).device.lock ≡ s.lock
  unfolding linked_read
  linked_read-lock signal m user_buf count f_pos s = let back = read_law s.lock in ground arith

  write_loop-lock :
      (kzalloc signal : ℕ → Bool) (m : Memory) (user_buf count fuel i f_pos : ℕ) (s : Device L)
      (l : L)
      → s.lock ≡ l
      → left_lock l (write_loop user locking kzalloc signal m user_buf count fuel i f_pos s) ≡ l
  unfolding write_loop add_segment
  write_loop-lock kzalloc signal m user_buf count zero i f_pos s l e = refl
  write_loop-lock kzalloc signal m user_buf count (suc fuel) i f_pos s l e =
      let to_copy = min internal_size (count - i) in
      let copied = user.copy_from_user m (user_buf + i) to_copy in
      let d : Segment = record { length = to_copy; contents = fill copied.1 } in
      let t = add_segment user locking kzalloc signal m user_buf count (enter_write s.lock) d s in
      let rest =
        write_loop-lock kzalloc signal m user_buf count fuel (i + internal_size)
          (u64 (f_pos + to_copy)) t l (write_law s.lock ∙ e) in
      elim (Bool-cases (ltb i count)) [
        | inr past ↦ rw past e
        | inl more ↦ elim (Bool-cases (kzalloc i)) [
          | inr full ↦ rw (more, full) e
          | inl block ↦ elim (Bool-cases (copied.0 == 0)) [
            | inr part ↦ rw (more, block, part) e
            | inl all ↦ elim (Bool-cases (is_clear d.contents)) [
              | inl clears ↦ rw (more, block, all, clears) (clean_list-lock s ∙ e)
              | inr kept ↦ rw (more, block, all, kept) rest
            ]
          ]
        ]
      ]

  pub linked_read-with_lock :
      (signal signal' : Bool) (m : Memory) (user_buf count f_pos : ℕ) (s : Device L)
      → linked_read user locking signal m user_buf count f_pos s
        ≡ with_lock s.lock (linked_read user unlocked signal' m user_buf count f_pos (bare s))
  linked_read-with_lock signal signal' m user_buf count f_pos s =
      ap₂ with_lock (linked_read-lock signal m user_buf count f_pos s)
        (linked_read-bare signal signal' m user_buf count f_pos s)

  pub linked_write-with_lock :
      (kzalloc signal signal' : ℕ → Bool) (m : Memory) (user_buf count f_pos : ℕ) (s : Device L)
      → linked_write user locking kzalloc signal m user_buf count f_pos s
        ≡ ended_with_lock s.lock
            (linked_write user unlocked kzalloc signal' m user_buf count f_pos (bare s))
  unfolding linked_write
  linked_write-with_lock kzalloc signal signal' m user_buf count f_pos s =
      ended s.lock (linked_write user locking kzalloc signal m user_buf count f_pos s) (
        write_loop-lock kzalloc signal m user_buf count (count / internal_size + 2) 0 f_pos s s.lock
          refl)
      ∙ ap (λ o. ended_with_lock s.lock o)
          (linked_write-bare kzalloc signal signal' m user_buf count f_pos s)
