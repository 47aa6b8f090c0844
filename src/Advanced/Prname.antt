-- ===== src/Advanced/Prname.antt =====
-- /dev/prname: what a write leaves, and what a read gives after it.
use agh_systems_programming.Common.{
  ℕ, ◌+◌, ◌^◌, ◌≤◌, ◌<◌, ◌≡◌, ◌⊎◌, inl, inr, refl, Bool, true, false, Option, none, some, List, [],
  ◌∷◌, ◌++◌, ltb, ◌==◌, length, set, arith, length-set, Option-cases, Bool-cases,
}
use agh_systems_programming.Common.Outcome.{
  Ret, ok, error, efault, einval, done, fault, store_bytes, Allocator, u64, u32,
}
use agh_systems_programming.Common.Processes.{Processes}
use agh_systems_programming.Common.User.{Memory, UserAccess}
use agh_systems_programming.Advanced.{Device, choose, prname_write}

-- Bytes that fit into a block are stored in it.
pub store_bytes_fits :
    (buf : List ℕ) (p : ℕ) (xs : List ℕ)
    → p + length xs ≤ length buf
    → (b : List ℕ) × (store_bytes buf p xs ≡ done b)
store_bytes_fits buf p [] h = (buf, refl)
store_bytes_fits buf p (x ∷ xs) h =
    let inside : ltb p (length buf) ≡ true = ground arith in
    let (b, e) = store_bytes_fits (set buf p x) (p + 1) xs (omega (arith, length-set buf p x)) in
    (b, rw inside e)

-- The three ways in which a write with a block ends: a process is chosen, none is, or nothing changes.
abbrev pub Ended :
    (chosen : ℕ → Bool) → (parsed : Option ℕ) → (count : ℕ) → Device → Ret → Device → Type 0
Ended chosen parsed count d r d' =
    ((r ≡ ok count)
      × (d'.prname_written ≡ true)
      × (chosen (u32 d'.proc_id) ≡ true)
      × (parsed ≡ some d'.proc_id))
    ⊎ ((r ≡ error einval)
        × (d'.prname_written ≡ false)
        × (chosen (u32 d'.proc_id) ≡ false)
        × (parsed ≡ some d'.proc_id))
    ⊎ (((r ≡ error einval) ⊎ (r ≡ error efault))
        × (d'.prname_written ≡ d.prname_written)
        × (d'.proc_id ≡ d.proc_id))

module _ (user : UserAccess) (alloc : Allocator) (kstrtol : List ℕ → Option ℕ)
    (processes : Processes) (m : Memory) (user_buf count : ℕ) (d : Device) where
  open user use {copy_from_user}
  open alloc use {kmalloc}

  abbrev parsed : Option ℕ
  parsed = kstrtol ((copy_from_user m user_buf count).1 ++ 0 ∷ [])

  chosen_ends :
      (value : ℕ)
      → parsed ≡ some value
      → let c = choose processes count (record d { live = d.live + 1; proc_id = value }) in
        (c.1.live ≡ d.live + 1) × Ended processes.find_get_pid parsed count d c.0 c.1
  chosen_ends value e = elim (Bool-cases (processes.find_get_pid (u32 value))) [
    | inl there ↦ rw there (refl, inl (refl, refl, there, e))
    | inr absent ↦ rw absent (refl, inr (inl (refl, refl, absent, e)))
  ]

  -- With a block.
  with_block :
      {b : List ℕ}
      → count + 1 < 2 ^ 64
      → kmalloc 0 (count + 1) ≡ some b
      → (r : Ret) × (d' : Device) × (prname_write user alloc kstrtol processes m user_buf count d
          ≡ done (r, d'))
        × (d'.live ≡ d.live + 1)
        × Ended processes.find_get_pid parsed count d r d'
  unfolding prname_write
  with_block {b} small got =
      let whole : u64 (count + 1) ≡ count + 1 = omega arith in
      let size = alloc.kmalloc_size 0 (count + 1) got in
      let inside : ltb count (length b) ≡ true = ground arith in
      elim (Bool-cases ((copy_from_user m user_buf count).0 == 0)) [
        | inr part ↦ (
          error efault,
          record d { live = d.live + 1 },
          rw (whole, prname_write, got, inside, part),
          refl,
          inr (inr (inr refl, refl, refl)),
        )
        | inl all ↦ elim (Option-cases parsed) [
          | inl bad ↦ (
            error einval,
            record d { live = d.live + 1 },
            rw (whole, prname_write, got, inside, all, bad),
            refl,
            inr (inr (inl refl, refl, refl)),
          )
          | inr (value, e) ↦
              let c = choose processes count (record d { live = d.live + 1; proc_id = value }) in
              let (lost, ended) = chosen_ends value e in
              (c.0, c.1, rw (whole, prname_write, got, inside, all, e), lost, ended)
        ]
      ]

  -- `prname_write` for less than 2 ^ 64 - 1 bytes is undefined behaviour if there is no memory for its
  -- block. Else it returns, and whatever it returns, the block is lost: there is one more live block
  -- than before. It returns `count` only if the number was read and belongs to a process, which is then
  -- the one chosen; after a number of no process it returns -EINVAL and none is chosen, and after any
  -- other failure the choice is what it was.
  prname_write_lem :
      count + 1 < 2 ^ 64
      → ((kmalloc 0 (count + 1) ≡ none)
          × (prname_write user alloc kstrtol processes m user_buf count d ≡ fault))
        ⊎ ((r : Ret) × (d' : Device) × (prname_write user alloc kstrtol processes m user_buf count d
              ≡ done (r, d'))
            × (d'.live ≡ d.live + 1)
            × Ended processes.find_get_pid
                (kstrtol ((copy_from_user m user_buf count).1 ++ 0 ∷ []))
                count
                d
                r
                d')
  unfolding prname_write
  prname_write_lem small = elim (Option-cases (kmalloc 0 (count + 1))) [
    | inl missing ↦
        let whole : u64 (count + 1) ≡ count + 1 = omega arith in
        inl (missing, rw (whole, prname_write, missing))
    | inr (b, got) ↦ inr (with_block small got)
  ]
