-- ===== src/Users.antt =====
-- Classes6/labsyscalls: the system calls. Here is topuser.c, which finds the user with most processes.
pub mod Busiest
pub mod Time
pub mod Names
pub mod Listing
pub mod Agreement
mod Tests
use agh_systems_programming.Common.{
  ℕ, zero, suc, ◌+◌, ◌%◌, ◌^◌, Option, none, some, List, [], ◌∷◌, ltb, if◌then◌else◌, get_elem?,
  set,
}
use agh_systems_programming.Common.Outcome.{
  Ret, ok, error, enomem, Outcome, done, fault, ◌>>=◌, Allocator,
}

-- MAX_UID
pub max_uid : ℕ
max_uid = 32767

-- The loop that clears the array.
abbrev pub clear : List ℕ → List ℕ
clear [] = []
clear (x ∷ xs) = 0 ∷ clear xs

-- The loop over the processes, each given by the user that it belongs to. A count is a 32-bit number;
-- `max_count` is an `int`, but is compared as one. A user behind the array is undefined behaviour.
pub count_loop : List ℕ → (proc_per_usr_cnt : List ℕ) → (max_count max_usr : ℕ) → Outcome ℕ
count_loop [] cnt max_count max_usr = done max_usr
count_loop (uid ∷ procs) cnt max_count max_usr = elim (get_elem? cnt uid) [
  | none ↦ fault
  | some c ↦
      let c' = (c + 1) % 2 ^ 32 in
      count_loop procs (set cnt uid c') (if ltb max_count c' then c' else max_count)
        (if ltb max_count c' then uid else max_usr)
]

module _ (alloc : Allocator) where
  -- The result, and what is written to `*usr_id`, if anything is. A block of the array is counted in
  -- its elements.
  pub topuser : List ℕ → Outcome (Ret × Option ℕ)
  unfolding count_loop max_uid
  topuser procs = elim (alloc.kmalloc 0 max_uid) [
    | none ↦ done (error enomem, none)
    | some block ↦ (count_loop procs (clear block) 0 0 >>= λ max_usr. done (ok 0, some max_usr))
  ]
