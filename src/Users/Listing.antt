-- ===== src/Users/Listing.antt =====
-- Classes6/labsyscalls/kernelps.c: the system call that gives the names of all processes.
use agh_systems_programming.Common.{
  ℕ, ◌+◌, ◌-◌, Option, none, some, List, [], ◌∷◌, ◌==◌, if◌then◌else◌,
}
use agh_systems_programming.Common.Outcome.{Ret, ok, error, efault, u64}
use agh_systems_programming.Common.User.{Memory, UserAccess, write_bytes}

-- What a call leaves: its result, `*ps_count`, user memory, and by how many readers `tasklist_lock` is
-- held.
pub record Listing : Type 0 where
  pub ret : Ret
  pub ps_count : ℕ
  pub memory : Memory
  pub readers : ℕ

module _ (user : UserAccess) where
  -- The loop over the processes, each given by its name, up to the end of the call. The user's array of
  -- pointers, if there is one, has the pointer `buff iter` at place `iter`, and the names are not
  -- written over it.
  pub list_loop :
      (buff : Option (ℕ → ℕ))
      → List (List ℕ)
      → (iter ps_count : ℕ) → Memory
      → (readers : ℕ) → Listing
  list_loop buff [] iter ps_count m readers = record {
    ret = ok 0;
    ps_count = ps_count;
    memory = m;
    readers = readers - 1;
  }
  list_loop none (comm ∷ procs) iter ps_count m readers =
      list_loop none procs iter (u64 (ps_count + 1)) m readers
  list_loop (some buff) (comm ∷ procs) iter ps_count m readers =
      let (left, m') = user.copy_to_user m (buff iter) comm in
      let rest = list_loop (some buff) procs (iter + 1) (u64 (ps_count + 1)) m' readers in
      if buff iter == 0
      then record {
        ret = error efault;
        ps_count = u64 (ps_count + 1);
        memory = m;
        readers = readers - 1;
      }
      else if left == 0
      then rest
      else record {
        ret = error efault;
        ps_count = u64 (ps_count + 1);
        memory = m';
        readers = readers - 1;
      }

  pub kernelps : (buff : Option (ℕ → ℕ)) → List (List ℕ) → Memory → (readers : ℕ) → Listing
  unfolding list_loop
  kernelps buff procs m readers = list_loop buff procs 0 0 m (readers + 1)

-- The names one after the other, each at its pointer.
abbrev pub write_names : (ℕ → ℕ) → ℕ → List (List ℕ) → Memory → Memory
write_names buff iter [] m = m
write_names buff iter (comm ∷ procs) m =
    write_names buff (iter + 1) procs (write_bytes m (buff iter) comm)
