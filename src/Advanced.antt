-- ===== src/Advanced.antt =====
-- Classes3/Advanced/advanced.c: /dev/prname, which takes the number of a process and gives its name, and
-- /dev/jiffies, which gives the time. A handler returns its result with the new globals.
pub mod Prname
pub mod Reading
pub mod Jiffies
mod Tests
use agh_systems_programming.Common.{
  ℕ, zero, suc, ◌+◌, ◌-◌, ◌%◌, ◌^◌, ◌≤◌, ◌<◌, ◌≡◌, Bool, true, false, Option, none, some, List, [],
  ◌∷◌, ◌++◌, leb, ◌==◌, if◌then◌else◌, length,
}
use agh_systems_programming.Common.Outcome.{
  Errno, Ret, ok, error, enomem, efault, einval, Outcome, done, fault, ◌>>=◌, store, store_bytes,
  Allocator, u64, u32,
}
use agh_systems_programming.Common.Processes.{Processes}
use agh_systems_programming.Common.User.{Memory, UserAccess}

-- The globals; `proc_id` is the `long` as a bit pattern. `live` counts the blocks from `kmalloc`, and
-- `refs` the references to numbers and tasks, that are not given back.
pub record Device : Type 0 where
  pub proc_id : ℕ
  pub prname_written : Bool
  pub live : ℕ
  pub refs : ℕ

abbrev pub loaded : Device
loaded = record { proc_id = 2 ^ 64 - 1; prname_written = false; live = 0; refs = 0 }

-- `prname_write` from the number on.
abbrev pub choose : Processes → (count : ℕ) → Device → Ret × Device
choose processes count d =
    if processes.find_get_pid (u32 d.proc_id)
    then (ok count, record d { prname_written = true; refs = d.refs + 1 })
    else (error einval, record d { prname_written = false })

module _ (user : UserAccess) (alloc : Allocator) (kstrtol : List ℕ → Option ℕ)
    (processes : Processes) where
  open user use {copy_to_user, copy_from_user}
  open alloc use {kmalloc}
  open processes use {find_get_pid, comm}

  -- `temp_buffer[count]` is written before `temp_buffer` is looked at, so that NULL is a fault. No path
  -- gives the block back.
  pub prname_write : Memory → (user_buf count : ℕ) → Device → Outcome (Ret × Device)
  prname_write m user_buf count d = elim (kmalloc 0 (u64 (count + 1))) [
    | none ↦ fault
    | some temp_buffer ↦ store temp_buffer count 0 >>= λ b.
        let (left, bytes) = copy_from_user m user_buf count in
        let d' = record d { live = d.live + 1 } in
        if left == 0
        then elim (kstrtol (bytes ++ 0 ∷ [])) [
          | none ↦ done (error einval, d')
          | some value ↦ done (choose processes count (record d' { proc_id = value }))
        ]
        else done (error efault, d')
  ]

  -- `prname_read` from the task of the name on.
  pub give_name :
      Memory → (user_buf f_pos : ℕ) → List ℕ → Device → Outcome (Ret × ℕ × Device × Memory)
  give_name m user_buf f_pos name d = elim (kmalloc 0 (length name + 1)) [
    | none ↦ done (error enomem, f_pos, d, m)
    | some block ↦ store block (length name) 0 >>= λ ended.
        store_bytes ended 0 (name ++ 0 ∷ []) >>= λ prname_buffer.
        if leb (length name) f_pos
        then done (ok 0, f_pos, record d { live = d.live + 1 }, m)
        else (let (left, m') = copy_to_user m user_buf name in
            if left == 0
            then done (ok (length name), u64 (f_pos + length name), d, m')
            else done (error efault, f_pos, d, m'))
  ]

  -- The result, the new position, the globals and user memory. The `count` asked for is not read.
  pub prname_read :
      Memory → (user_buf count f_pos : ℕ) → Device → Outcome (Ret × ℕ × Device × Memory)
  unfolding give_name
  prname_read m user_buf count f_pos d =
      let pid = u32 d.proc_id in
      if d.prname_written
      then (if find_get_pid pid
          then elim (comm pid) [
            | none ↦ done (ok 0, f_pos, record d { refs = d.refs + 1 }, m)
            | some name ↦ give_name m user_buf f_pos name (record d { refs = d.refs + 2 })
          ]
          else done (ok 0, f_pos, d, m))
      else done (error efault, f_pos, d, m)

module _ (user : UserAccess) (alloc : Allocator) where
  open user use {copy_to_user}
  open alloc use {kmalloc}

  -- `sprintf_ld` is `sprintf` with "%ld"; the text has to fit into the 50 bytes with its end.
  pub jiffies_read :
      (sprintf_ld : ℕ → List ℕ) (jiffies : ℕ)
      → Memory
      → (user_buf count f_pos : ℕ) → Outcome (Ret × ℕ × Memory)
  jiffies_read sprintf_ld jiffies m user_buf count f_pos =
      let text = sprintf_ld jiffies in
      elim (kmalloc 0 50) [
        | none ↦ done (error enomem, f_pos, m)
        | some block ↦ store_bytes block 0 (text ++ 0 ∷ []) >>= λ buff.
            if leb (length text) f_pos
            then done (ok 0, f_pos, m)
            else (let (left, m') = copy_to_user m user_buf text in
                if left == 0
                then done (ok (length text), u64 (f_pos + length text), m')
                else done (error efault, f_pos, m'))
      ]

-- Which of the two devices are registered.
pub record Module : Type 0 where
  pub prname_device : Bool
  pub jiffies_device : Bool

-- The errors of the two calls of `misc_register`, if they have any.
pub advanced_init : (prname jiffies : Option Errno) → Ret × Module
advanced_init (some e) jiffies =
    (error efault, record { prname_device = false; jiffies_device = false })
advanced_init none (some e) =
    (error efault, record { prname_device = true; jiffies_device = false })
advanced_init none none = (ok 0, record { prname_device = true; jiffies_device = true })

pub advanced_exit : Module → Module
advanced_exit s = record { prname_device = false; jiffies_device = false }
