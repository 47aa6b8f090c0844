-- ===== src/Users/Time.antt =====
-- Classes6/labsyscalls/timeuser.c: the system call that finds the user whose processes ran longest.
pub mod Longest
use agh_systems_programming.Common.{
  ℕ, ◌+◌, ◌%◌, ◌^◌, Option, none, some, List, [], ◌∷◌, ltb, if◌then◌else◌, get_elem?, set,
}
use agh_systems_programming.Common.Outcome.{
  Ret, ok, error, enomem, Outcome, done, fault, ◌>>=◌, Allocator, u64,
}
use agh_systems_programming.Users.{max_uid, clear}

-- The loop over the processes, each given by its user and its `utime`. `max_user` is none as long as
-- the variable has no value.
pub time_loop :
    List (ℕ × ℕ)
    → (per_user_cpu_time : List ℕ) (max_cpu : ℕ) (max_user : Option ℕ) → Outcome (Option ℕ)
time_loop [] time max_cpu max_user = done max_user
time_loop ((uid, utime) ∷ procs) time max_cpu max_user = elim (get_elem? time uid) [
  | none ↦ fault
  | some t ↦
      let t' = u64 (t + utime) in
      time_loop procs (set time uid t') (if ltb max_cpu t' then t' else max_cpu)
        (if ltb max_cpu t' then some uid else max_user)
]

module _ (alloc : Allocator) where
  -- The result, and what is written to `*usr_id`, if anything is; the value of a variable that has none
  -- is undefined behaviour. A block of the array is counted in its elements.
  pub timeuser : List (ℕ × ℕ) → Outcome (Ret × Option ℕ)
  unfolding time_loop max_uid
  timeuser procs = elim (alloc.kmalloc 0 max_uid) [
    | none ↦ done (error enomem, none)
    | some block ↦
        (time_loop procs (clear block) 0 none >>= λ max_user. elim max_user [
          | none ↦ fault
          | some u ↦ done (ok 0, some u)
        ])
  ]
