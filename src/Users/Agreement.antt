-- ===== src/Users/Agreement.antt =====
-- The system call pidtoname and the device /dev/prname.
use agh_systems_programming.Common.{
  ℕ, ◌+◌, ◌<◌, ◌≡◌, ◌≢◌, ◌⊎◌, inl, inr, ap, true, false, Bool-cases, Option-cases, ℕ_discrete,
  Option, none, some, List, length,
}
use native.Mathlib.Nat.{zero-add, add-zero}
use agh_systems_programming.Common.Outcome.{ok, error, efault, done, Allocator, u32}
use agh_systems_programming.Common.Processes.{Processes}
use agh_systems_programming.Common.User.{Memory, UserAccess, write_bytes}
use agh_systems_programming.Users.Names.{
  pidtoname, pidtoname_named, pidtoname_gone, pidtoname_no_task, pidtoname_failed,
}
use agh_systems_programming.Advanced.{Device, prname_read}
use agh_systems_programming.Advanced.Reading.{
  prname_read_name, prname_read_failed, prname_read_gone, prname_read_no_task,
}

-- /dev/prname with the number of a process, whatever has become of it since, and memory for each name, of
-- which none is empty: a read from position 0 and `pidtoname` of the number leave the same user memory
-- and keep as many references. If the process is there and its name can be copied, the name is in user
-- memory, the system call returns 0 and the read the length of the name. Of a process that is not there
-- the system call returns -EFAULT and the read 0, and user memory is unchanged; of a copy that fails both
-- return -EFAULT.
pub pidtoname-prname_read :
    (user : UserAccess) (alloc : Allocator) (kstrtol : List ℕ → Option ℕ) (processes : Processes)
    (m : Memory) (user_buf count : ℕ) (d : Device)
    → d.prname_written ≡ true
    → ((name : List ℕ)
        → processes.comm (u32 d.proc_id) ≡ some name
        → (0 < length name) × ((block : List ℕ) × (alloc.kmalloc 0 (length name + 1) ≡ some block)))
    → let pid = u32 d.proc_id in
      let (r, m', kept) = pidtoname user processes pid user_buf m in
      let read = prname_read user alloc kstrtol processes m user_buf count 0 d in
      let d' = record d { refs = d.refs + kept } in
      ((name : List ℕ) × (processes.comm pid ≡ some name)
        × (r ≡ ok 0)
        × (read ≡ done (ok (length name), length name, d', m'))
        × (m' ≡ write_bytes m user_buf name))
      ⊎ (((processes.find_get_pid pid ≡ false) ⊎ (processes.comm pid ≡ none))
          × (r ≡ error efault)
          × (read ≡ done (ok 0, 0, d', m'))
          × (m' ≡ m))
      ⊎ ((name : List ℕ) × (processes.comm pid ≡ some name)
          × ((user.copy_to_user m user_buf name).0 ≢ 0)
          × (r ≡ error efault)
          × (read ≡ done (error efault, 0, d', m')))
pidtoname-prname_read user alloc kstrtol processes m user_buf count d written ready =
    let pid = u32 d.proc_id in
    elim (Bool-cases (processes.find_get_pid pid)) [
      | inr gone ↦
          let call = pidtoname_gone user processes pid user_buf m gone in
          let read =
            prname_read_gone user alloc kstrtol processes m user_buf count 0 d written gone in
          inr (inl (inl gone, ap (λ x. x.0) call, rw (call, add-zero) read, ap (λ x. x.1) call))
      | inl there ↦ elim (Option-cases (processes.comm pid)) [
        | inl nobody ↦
            let call = pidtoname_no_task user processes pid user_buf m there nobody in
            let read =
              prname_read_no_task user alloc kstrtol processes m user_buf count 0 d written there
                nobody in
            inr (inl (inr nobody, ap (λ x. x.0) call, rw call read, ap (λ x. x.1) call))
        | inr (name, named) ↦
            let (some_name, found) = ready name named in
            let (block, got) = found in
            elim (ℕ_discrete (user.copy_to_user m user_buf name).0 0) [
              | yes all ↦
                  let call = pidtoname_named user processes pid user_buf m there named all in
                  let read =
                    prname_read_name user alloc kstrtol processes m user_buf count d written there
                      named got 0 some_name all in
                  inl (
                    name,
                    named,
                    ap (λ x. x.0) call,
                    rw call (rw zero-add at read),
                    ap (λ x. x.1) call,
                  )
              | no part ↦
                  let call = pidtoname_failed user processes pid user_buf m there named part in
                  let read =
                    prname_read_failed user alloc kstrtol processes m user_buf count d written there
                      named got 0 some_name part in
                  inr (inr (name, named, part, ap (λ x. x.0) call, rw call read))
            ]
      ]
    ]
