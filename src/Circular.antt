-- ===== src/Circular.antt =====
-- Classes3/Circular/circular.c: a character device over a circular buffer, whose size is set
-- through /proc/circular. The globals are the record `Device`; a handler returns its result with
-- the new globals.
pub mod Valid
pub mod Write
pub mod Read
pub mod Resize
pub mod Interleaved
mod Tests
use agh_systems_programming.Common.{
  ℕ, zero, suc, ◌+◌, ◌-◌, ◌%◌, ◌^◌, Bool, true, false, Option, none, some, List, [], ◌∷◌, ◌++◌, leb,
  ◌==◌, if◌then◌else◌, take, replicate,
}
use agh_systems_programming.Common.Outcome.{
  Errno, Ret, ok, error, enomem, efault, Outcome, done, fault, ◌>>=◌, store, store_bytes, Allocator,
  u64,
}
use agh_systems_programming.Common.User.{Memory, UserAccess}

-- The globals. `buffer` is the block that the pointer names, `live` the number of blocks from
-- `kmalloc` that are not yet given back.
pub record Device : Type 0 where
  pub buff_size : ℕ
  pub curr_position : ℕ
  pub buffer : List ℕ
  pub live : ℕ

-- `pos % (size - 1)` on C integers: % -1 gives 0, and % 0 is undefined.
pub wrap : ℕ → ℕ → Outcome ℕ
wrap pos size = if size == 0 then done 0 else if size == 1 then fault else done (pos % (size - 1))

-- `i++` on an `int`, which overflows at the largest one.
pub next_index : ℕ → Outcome ℕ
next_index i = if i == 2 ^ 31 - 1 then fault else done (i + 1)

-- `strlen`: the index of the first zero byte, which has to lie in the block.
pub strlen : List ℕ → Outcome ℕ
strlen [] = fault
strlen (c ∷ cs) = let rest = strlen cs in if c == 0 then done 0 else (rest >>= λ n. done (n + 1))

module _ (user : UserAccess) where
  open user use {copy_to_user, copy_from_user}

  -- The loop of `circular_write`, with `n` rounds left from index `i` on, which is an `int`. The byte goes into the
  -- buffer before its status is looked at.
  pub write_loop : Memory → ℕ → ℕ → ℕ → ℕ → Device → Outcome (Ret × Device)
  write_loop m user_buf count i zero d = done (ok count, d)
  write_loop m user_buf count i (suc n) d =
      let (left, bytes) = copy_from_user m (user_buf + i) 1 in
      store_bytes d.buffer d.curr_position bytes >>= λ b.
      let rest =
        (wrap (d.curr_position + 1) d.buff_size >>= λ p. next_index i >>= λ j.
        write_loop m user_buf count j n (record d { buffer = b; curr_position = p })) in
      if left == 0 then rest else done (error efault, record d { buffer = b })

  pub circular_write : Memory → ℕ → ℕ → Device → Outcome (Ret × Device)
  unfolding write_loop wrap next_index
  circular_write m user_buf count d = write_loop m user_buf count 0 count d

  -- The result, the new file position and the new user memory. The `count` that the caller asks
  -- for, the third argument, is not read.
  pub circular_read : Memory → ℕ → ℕ → ℕ → Device → Outcome (Ret × ℕ × Memory)
  unfolding strlen
  circular_read m user_buf count f_pos d = strlen d.buffer >>= λ to_copy.
      if leb to_copy f_pos
      then done (ok 0, f_pos, m)
      else let (left, m') = copy_to_user m user_buf (take to_copy d.buffer) in
        if left == 0
        then done (ok to_copy, u64 (f_pos + to_copy), m')
        else done (error efault, f_pos, m')

-- The loop of `circular_proc_write`: bytes below both sizes are copied, the others of the new block
-- stay as `kmalloc` left them.
pub copy_over : List ℕ → List ℕ → List ℕ
copy_over [] old = []
copy_over (x ∷ new) [] = x ∷ new
copy_over (x ∷ new) (c ∷ old) = c ∷ copy_over new old

module _ (user : UserAccess) (alloc : Allocator) (kstrtol : List ℕ → Option ℕ) where
  open user use {copy_from_user}
  open alloc use {kmalloc}

  -- What follows once the new block is there. `value` is the `long` as a bit pattern; an
  -- allocation succeeds only for values that an `int` holds. At 0 the last write is to `buffer[-1]`.
  pub install : ℕ → ℕ → List ℕ → Device → Outcome (Ret × Device)
  unfolding copy_over wrap
  install count value new_buffer d = wrap d.curr_position value >>= λ p.
      store (copy_over new_buffer (take d.buff_size d.buffer)) (value - 1) 0 >>= λ b.
      done (ok count, record { buff_size = value; curr_position = p; buffer = b; live = d.live })

  -- A return before `kfree(temp_buf)` leaves one more block live.
  pub circular_proc_write : Memory → ℕ → ℕ → Device → Outcome (Ret × Device)
  circular_proc_write m user_buf count d = elim (kmalloc 0 (u64 (count + 1))) [
    | none ↦ done (error enomem, d)
    | some temp_buf ↦
        let (left, bytes) = copy_from_user m user_buf count in
        if left == 0
        then elim (kstrtol (bytes ++ 0 ∷ [])) [
          | none ↦ done (error efault, record d { live = d.live + 1 })
          | some value ↦ elim (kmalloc 1 value) [
            | none ↦ done (error enomem, d)
            | some new_buffer ↦ install count value new_buffer d
          ]
        ]
        else done (error efault, record d { live = d.live + 1 })
  ]

-- The module: its globals, and what it has registered.
pub record Module : Type 0 where
  pub device : Device
  pub proc_entry : Bool
  pub registered : Bool

-- The globals as the file initialises them; `buffer` is NULL.
abbrev pub unloaded : Device
unloaded = record { buff_size = 10; curr_position = 0; buffer = []; live = 0 }

-- `proc_ok` says whether `proc_create` gives an entry, and `misc` is the error of `misc_register`,
-- if it has one: it is kept as the result, and the function goes on.
pub circular_init : Allocator → Bool → Option Errno → Ret × Module
circular_init alloc proc_ok misc =
    if proc_ok
    then elim (alloc.kmalloc 0 10) [
      | none ↦ (error enomem, record { device = unloaded; proc_entry = true; registered = false })
      | some b ↦ (
        elim misc [ none ↦ ok 0 | some e ↦ error e ],
        record {
          device = record unloaded { buffer = replicate 10 0; live = 1 };
          proc_entry = true;
          registered = elim misc [ none ↦ true | some _ ↦ false ];
        },
      )
    ]
    else (ok 0, record { device = unloaded; proc_entry = false; registered = false })

-- `kfree` of NULL does nothing.
pub circular_exit : Module → Module
circular_exit s = record {
  device = record s.device { buffer = []; live = s.device.live - 1 };
  proc_entry = false;
  registered = false;
}
