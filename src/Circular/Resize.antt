-- ===== src/Circular/Resize.antt =====
-- `circular_proc_write`, `circular_init` and `circular_exit`: a new size, and the life of the module.
use agh_systems_programming.Common.{
  Bool, ◌⊎◌, ℕ, zero, suc, ◌+◌, ◌-◌, ◌%◌, ◌≤◌, ◌<◌, ◌≡◌, refl, true, false, Option, some, List, [],
  ◌∷◌, ◌++◌, arith, ◌==◌, dec_lt, length, Option-cases, length-take, get_elem?, take, set,
  Bool-cases, inl, inr, ap, ◌∙◌, length-set, get_elem?-set_self, get_elem?-set_ne, get_elem?-take,
}
use agh_systems_programming.Common.Outcome.{
  Ret, Errno, ok, error, enomem, efault, u64, done, fault, Allocator,
}
use agh_systems_programming.Common.User.{Memory, UserAccess, read_bytes}
use agh_systems_programming.Circular.{
  Device, wrap, copy_over, install, circular_proc_write, circular_init, circular_exit,
}
use agh_systems_programming.Circular.Valid.{IsValid}

-- Blocks that a call with this result does not give back.
abbrev pub lost : Ret → ℕ
lost (ok _) = 0
lost (error efault) = 1
lost (error _) = 0

length-copy_over : (new old : List ℕ) → length (copy_over new old) ≡ length new
unfolding copy_over
length-copy_over [] old = refl
length-copy_over (x ∷ new) [] = refl
length-copy_over (x ∷ new) (c ∷ old) = ap suc (length-copy_over new old)

get_elem?-copy_over :
    (new old : List ℕ) (k : ℕ)
    → k < length new
    → k < length old
    → get_elem? (copy_over new old) k ≡ get_elem? old k
unfolding copy_over
get_elem?-copy_over [] old k h g = elim h [ ]
get_elem?-copy_over (x ∷ new) [] k h g = elim g [ ]
get_elem?-copy_over (x ∷ new) (c ∷ old) zero h g = refl
get_elem?-copy_over (x ∷ new) (c ∷ old) (suc k) h g =
    get_elem?-copy_over new old k (omega arith) (omega arith)

-- The globals after a resize that runs through.
abbrev resized : ℕ → List ℕ → Device → Device
resized value block d = record {
  buff_size = value;
  curr_position = d.curr_position % (value - 1);
  buffer = set (copy_over block (take d.buff_size d.buffer)) (value - 1) 0;
  live = d.live;
}

module _ (value : ℕ) (block : List ℕ) (d : Device) (size : length block ≡ value) where
  length-copied : length (copy_over block (take d.buff_size d.buffer)) ≡ value
  length-copied = length-copy_over block (take d.buff_size d.buffer) ∙ size

  resized-IsValid : 2 ≤ value → IsValid (resized value block d)
  resized-IsValid h =
      let copied = copy_over block (take d.buff_size d.buffer) in
      record {
        big = h;
        block = length-set copied (value - 1) 0 ∙ length-copied;
        inside = omega arith;
        ended = get_elem?-set_self copied (value - 1) 0 (omega (arith, length-copied));
      }

  -- The bytes that both sizes have room for are kept, but for the terminator.
  resized_keeps :
      (k : ℕ)
      → IsValid d
      → k < d.buff_size
      → suc k < value
      → get_elem? (resized value block d).buffer k ≡ get_elem? d.buffer k
  resized_keeps k v old new =
      get_elem?-set_ne (copy_over block (take d.buff_size d.buffer)) (value - 1) k 0 (omega arith)
      ∙ get_elem?-copy_over block (take d.buff_size d.buffer) k (omega arith)
          (omega (arith, length-take d.buff_size d.buffer, v.block))
      ∙ get_elem?-take d.buff_size k d.buffer old

  module _ (user : UserAccess) (alloc : Allocator) (kstrtol : List ℕ → Option ℕ) (count : ℕ) where
    install-small : value ≤ 1 → install user alloc kstrtol count value block d ≡ fault
    unfolding install wrap
    install-small h = ground (arith, length-copied)

    install-large :
        2 ≤ value
        → install user alloc kstrtol count value block d ≡ done (ok count, resized value block d)
    unfolding install wrap
    install-large h = ground (arith, length-copied)

-- `circular_proc_write` gets as far as the new block: both allocations succeed, the text is copied
-- whole, and it is the number `value`.
pub record Accepted (user : UserAccess) (alloc : Allocator) (kstrtol : List ℕ → Option ℕ)
    (m : Memory) (user_buf count value : ℕ) : Type 0 where
  pub temp : List ℕ
  pub has_temp : alloc.kmalloc 0 (u64 (count + 1)) ≡ some temp
  pub copied : (user.copy_from_user m user_buf count).0 ≡ 0
  pub parsed : kstrtol (read_bytes m user_buf count ++ 0 ∷ []) ≡ some value
  pub block : List ℕ
  pub has_block : alloc.kmalloc 1 value ≡ some block

module _ (user : UserAccess) (alloc : Allocator) (kstrtol : List ℕ → Option ℕ) (m : Memory)
    (user_buf count : ℕ) where
  proc_write-install :
      {value : ℕ} (d : Device) (a : Accepted user alloc kstrtol m user_buf count value)
      → circular_proc_write user alloc kstrtol m user_buf count d
        ≡ install user alloc kstrtol count value a.block d
  unfolding circular_proc_write
  proc_write-install d a =
      let bytes = user.from_user_done m user_buf count a.copied in
      rw (a.has_temp, circular_proc_write, a.copied, bytes, a.parsed, a.has_block)

  -- From valid globals a resize that is accepted with a value of at least 2 returns `count` and
  -- leaves valid globals of that size; the position is taken round the new ring, each byte that has
  -- room in both sizes is kept, but for the place of the new terminator, and no block is lost.
  pub circular_proc_write_resize :
      {value : ℕ} {d : Device}
      → IsValid d
      → Accepted user alloc kstrtol m user_buf count value
      → 2 ≤ value
      → (d' : Device) × (circular_proc_write user alloc kstrtol m user_buf count d
          ≡ done (ok count, d'))
        × IsValid d'
        × (d'.buff_size ≡ value)
        × (d'.curr_position ≡ d.curr_position % (value - 1))
        × (d'.live ≡ d.live)
        × ((k : ℕ) → k < d.buff_size → suc k < value → get_elem? d'.buffer k ≡ get_elem? d.buffer k)
  circular_proc_write_resize {value} {d} v a h =
      let size = alloc.kmalloc_size 1 value a.has_block in
      (
        resized value a.block d,
        proc_write-install d a ∙ install-large value a.block d size user alloc kstrtol count h,
        resized-IsValid value a.block d size h,
        refl,
        refl,
        refl,
        λ k old new. resized_keeps value a.block d size k v old new,
      )

  -- The numbers 0 and 1 are not rejected: a resize that is accepted with one of them ends in
  -- undefined behaviour, a write in front of the block or a division by zero, whatever the globals.
  circular_proc_write_crash :
      {value : ℕ} (d : Device)
      → Accepted user alloc kstrtol m user_buf count value
      → value ≤ 1
      → circular_proc_write user alloc kstrtol m user_buf count d ≡ fault
  circular_proc_write_crash {value} d a h =
      proc_write-install d a
      ∙ install-small value a.block d (alloc.kmalloc_size 1 value a.has_block) user alloc kstrtol
          count h

  -- From valid globals a call of `circular_proc_write` ends in one of two ways, whatever text it gets.
  -- Either it returns, with valid globals, on the failing paths too, and has lost a block exactly where
  -- it returns -EFAULT. Or the text is the number 0 or 1, was read whole and got its block, and the call
  -- ends in undefined behaviour.
  pub circular_proc_write-IsValid :
      {d : Device}
      → IsValid d
      → ((r : Ret × Device) × (circular_proc_write user alloc kstrtol m user_buf count d ≡ done r)
          × IsValid r.1
          × (r.1.live ≡ d.live + lost r.0))
        ⊎ ((value : ℕ) × Accepted user alloc kstrtol m user_buf count value
            × (value ≤ 1)
            × (circular_proc_write user alloc kstrtol m user_buf count d ≡ fault))
  unfolding circular_proc_write
  circular_proc_write-IsValid {d} v =
      let (left, bytes) = user.copy_from_user m user_buf count in
      elim (Option-cases (alloc.kmalloc 0 (u64 (count + 1)))) [
        | inl e ↦ inl ((error enomem, d), rw (e, circular_proc_write), v, omega arith)
        | inr (temp, e) ↦ elim (Bool-cases (left == 0)) [
          | inr f ↦ inl (
            (error efault, record d { live = d.live + 1 }),
            rw (e, circular_proc_write, f),
            ground arith,
            refl,
          )
          | inl f ↦ elim (Option-cases (kstrtol (bytes ++ 0 ∷ []))) [
            | inl p ↦ inl (
              (error efault, record d { live = d.live + 1 }),
              rw (e, circular_proc_write, f, p),
              ground arith,
              refl,
            )
            | inr (value, p) ↦ elim (Option-cases (alloc.kmalloc 1 value)) [
              | inl b ↦
                  inl ((error enomem, d), rw (e, circular_proc_write, f, p, b), v, omega arith)
              | inr (block, b) ↦
                  let size = alloc.kmalloc_size 1 value b in
                  elim (dec_lt 1 value) [
                    | yes two ↦ inl (
                      (ok count, resized value block d),
                      rw (e, circular_proc_write, f, p, b)
                          (install-large value block d size user alloc kstrtol count two),
                      resized-IsValid value block d size two,
                      omega arith,
                    )
                    | no small ↦
                        let copied : left ≡ 0 = ground arith in
                        let whole = user.from_user_done m user_buf count copied in
                        let a : Accepted user alloc kstrtol m user_buf count value = record {
                          temp = temp;
                          has_temp = e;
                          copied = copied;
                          parsed = rw whole at p;
                          block = block;
                          has_block = b;
                        } in
                        inr (value, a, omega arith, circular_proc_write_crash d a (omega arith))
                  ]
            ]
          ]
        ]
      ]

-- If `circular_init` returns 0 and the proc entry was made, the device is registered, the globals
-- are valid with one live block, and `circular_exit` takes all of it back. If the proc entry cannot
-- be made, it returns 0 all the same, with nothing registered. If it returns an error, the proc
-- entry is left behind, and so is the buffer where the error is not that of its allocation.
pub circular_init_lem :
    (alloc : Allocator) (proc_ok : Bool) (misc : Option Errno)
    → let (r, s) = circular_init alloc proc_ok misc in
      (r ≡ ok 0
        → proc_ok ≡ true
        → (s.registered ≡ true)
          × (s.proc_entry ≡ true)
          × IsValid s.device
          × (s.device.live ≡ 1)
          × ((circular_exit s).device.live ≡ 0)
          × ((circular_exit s).registered ≡ false)
          × ((circular_exit s).proc_entry ≡ false))
      × (proc_ok ≡ false → (r ≡ ok 0) × (s.registered ≡ false) × (s.proc_entry ≡ false))
      × ((e : Errno)
          → r ≡ error e
          → (s.proc_entry ≡ true) × (s.registered ≡ false) × ((e ≡ enomem) ⊎ (s.device.live ≡ 1)))
unfolding circular_init circular_exit
circular_init_lem alloc proc_ok misc = (λ h p. ground arith, λ p. ground arith, λ e h. ground arith)
