-- ===== src/Users/Names.antt =====
-- Classes6/labsyscalls/pidtoname.c and freeblocks.c.
use agh_systems_programming.Common.{
  ℕ, ◌≡◌, ◌≢◌, refl, true, false, arith, Option, none, some, List, ◌==◌, if◌then◌else◌,
}
use agh_systems_programming.Common.Outcome.{Ret, ok, error, efault}
use agh_systems_programming.Common.Processes.{Processes}
use agh_systems_programming.Common.User.{Memory, UserAccess, write_bytes}

module _ (user : UserAccess) (processes : Processes) where
  open user use {copy_to_user}
  open processes use {find_get_pid, comm}

  -- The result, user memory, and how many references to numbers and tasks are kept: none is given back.
  pub pidtoname : (proc_id proc_name : ℕ) → Memory → Ret × Memory × ℕ
  pidtoname proc_id proc_name m =
      if find_get_pid proc_id
      then elim (comm proc_id) [
        | none ↦ (error efault, m, 1)
        | some name ↦
            let (left, m') = copy_to_user m proc_name name in
            if left == 0 then (ok 0, m', 2) else (error efault, m', 2)
      ]
      else (error efault, m, 0)

module _ (user : UserAccess) (processes : Processes) (proc_id proc_name : ℕ) (m : Memory) where
  pub pidtoname_named :
      {name : List ℕ}
      → processes.find_get_pid proc_id ≡ true
      → processes.comm proc_id ≡ some name
      → (user.copy_to_user m proc_name name).0 ≡ 0
      → pidtoname user processes proc_id proc_name m ≡ (ok 0, write_bytes m proc_name name, 2)
  unfolding pidtoname
  pidtoname_named {name} there named all =
      let copied = user.to_user_done m proc_name name all in
      rw (pidtoname, there, named, all, copied) refl

  pub pidtoname_gone :
      processes.find_get_pid proc_id ≡ false
      → pidtoname user processes proc_id proc_name m ≡ (error efault, m, 0)
  unfolding pidtoname
  pidtoname_gone gone = rw (pidtoname, gone) refl

  pub pidtoname_no_task :
      processes.find_get_pid proc_id ≡ true
      → processes.comm proc_id ≡ none
      → pidtoname user processes proc_id proc_name m ≡ (error efault, m, 1)
  unfolding pidtoname
  pidtoname_no_task there nobody = rw (pidtoname, there, nobody) refl

  pub pidtoname_failed :
      {name : List ℕ}
      → processes.find_get_pid proc_id ≡ true
      → processes.comm proc_id ≡ some name
      → (user.copy_to_user m proc_name name).0 ≢ 0
      → pidtoname user processes proc_id proc_name m
        ≡ (error efault, (user.copy_to_user m proc_name name).1, 2)
  unfolding pidtoname
  pidtoname_failed {name} there named part =
      let short : (user.copy_to_user m proc_name name).0 == 0 ≡ false = ground arith in
      rw (pidtoname, there, named, short) refl

-- `kern_path` looks a path up, and `vfs_statfs` gives the field `f_bfree` of what it found; the result
-- is that of the call with what is written to `*count`, if anything is.
pub freeblocks :
    {FsPath : Type 0} (kern_path : List ℕ → Option FsPath) (vfs_statfs : FsPath → Option ℕ)
    → List ℕ
    → Ret × Option ℕ
freeblocks kern_path vfs_statfs path = elim (kern_path path) [
  | none ↦ (error efault, none)
  | some fs_path ↦ elim (vfs_statfs fs_path) [
    | none ↦ (error efault, none)
    | some f_bfree ↦ (ok 0, some f_bfree)
  ]
]
