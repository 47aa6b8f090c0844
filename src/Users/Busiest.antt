-- ===== src/Users/Busiest.antt =====
-- The user that `topuser` finds.
use agh_systems_programming.Common.{
  ℕ, zero, suc, ◌+◌, ◌%◌, ◌^◌, ◌<◌, ◌≤◌, ◌≡◌, refl, ap, ◌∙◌, Bool, true, false, some, List, [], ◌∷◌,
  ltb, ◌==◌, if◌then◌else◌, Option-cases, inl, inr, lt_of_get_elem?, get_elem?, set, length, arith,
  ℕ_discrete, get_elem?-set_self, get_elem?-set_ne, length-set,
}
use agh_systems_programming.Common.Outcome.{ok, done, fault, Allocator}
use agh_systems_programming.Users.{max_uid, clear, count_loop, topuser}
use native.Mathlib.Nat.{mod-eq_of_lt}

-- How many of the processes belong to the user.
abbrev pub processes_of : ℕ → List ℕ → ℕ
processes_of v [] = 0
processes_of v (uid ∷ procs) = (if v == uid then 1 else 0) + processes_of v procs

-- No user has more processes.
abbrev pub Busiest : List ℕ → ℕ → Type 0
Busiest procs u = (v : ℕ) → processes_of v procs ≤ processes_of u procs

abbrev pub all_below : ℕ → List ℕ → Bool
all_below n [] = true
all_below n (x ∷ xs) = if ltb x n then all_below n xs else false

-- `k` more for one user.
abbrev pub more : ℕ → (ℕ → ℕ) → ℕ → ℕ → ℕ
more k seen uid v = if v == uid then seen v + k else seen v

pub set-more :
    (n k : ℕ) (cnt : List ℕ) (seen : ℕ → ℕ) (uid c : ℕ)
    → length cnt ≡ n
    → uid < n
    → c ≡ seen uid + k
    → ((v : ℕ) → v < n → get_elem? cnt v ≡ some (seen v))
    → (v : ℕ) → v < n
    → get_elem? (set cnt uid c) v ≡ some (more k seen uid v)
set-more n k cnt seen uid c size below e h v lt = elim (ℕ_discrete uid v) [
  | yes same ↦ ground (arith, get_elem?-set_self cnt uid c (omega (arith, size)))
  | no other ↦ ground (arith, get_elem?-set_ne cnt uid v c other, h v lt)
]

count_loop-cons :
    (uid c : ℕ) (procs cnt : List ℕ) (max_count max_usr : ℕ)
    → get_elem? cnt uid ≡ some c
    → (c + 1) % 2 ^ 32 ≡ c + 1
    → count_loop (uid ∷ procs) cnt max_count max_usr
      ≡ count_loop procs
          (set cnt uid (c + 1))
          (if ltb max_count (c + 1) then c + 1 else max_count)
          (if ltb max_count (c + 1) then uid else max_usr)
unfolding count_loop
count_loop-cons uid c procs cnt max_count max_usr found fits = rw (count_loop, found, fits) refl

-- With `seen` the processes counted so far.
count_loop-Busiest :
    (n : ℕ) (procs cnt : List ℕ) (seen : ℕ → ℕ) (max_count max_usr : ℕ)
    → length cnt ≡ n
    → ((v : ℕ) → v < n → get_elem? cnt v ≡ some (seen v))
    → all_below n procs ≡ true
    → max_count + length procs < 2 ^ 32
    → max_count ≡ seen max_usr
    → ((v : ℕ) → seen v ≤ max_count)
    → (u : ℕ) × (count_loop procs cnt max_count max_usr ≡ done u)
      × ((v : ℕ) → seen v + processes_of v procs ≤ seen u + processes_of u procs)
unfolding count_loop
count_loop-Busiest n [] cnt seen max_count max_usr size h below small e top =
    (max_usr, refl, λ v. omega (arith, top v))
count_loop-Busiest n (uid ∷ procs) cnt seen max_count max_usr size h below small e top =
    let inside : uid < n = ground arith in
    let found = h uid inside in
    let c = seen uid + 1 in
    let fits : c % 2 ^ 32 ≡ c = mod-eq_of_lt (omega (arith, top uid)) in
    let (u, result, most) =
      count_loop-Busiest n procs (set cnt uid c) (more 1 seen uid)
        (if ltb max_count c then c else max_count) (if ltb max_count c then uid else max_usr)
        (length-set cnt uid c ∙ size) (set-more n 1 cnt seen uid c size inside refl h)
        (ground arith) (ground (arith, top uid)) (ground (arith, top uid))
        (λ v. ground (arith, top v)) in
    (
      u,
      count_loop-cons uid (seen uid) procs cnt max_count max_usr found fits ∙ result,
      λ v. ground (arith, most v),
    )

pub clear-zero : (block : List ℕ) (v : ℕ) → v < length block → get_elem? (clear block) v ≡ some 0
clear-zero [] v h = elim h [ ]
clear-zero (x ∷ xs) zero h = refl
clear-zero (x ∷ xs) (suc v) h = clear-zero xs v (omega arith)

pub length-clear : (block : List ℕ) → length (clear block) ≡ length block
length-clear [] = refl
length-clear (x ∷ xs) = ap suc (length-clear xs)

-- With an array allocated, every process of a user below max_uid and less than 2 ^ 32 processes,
-- `topuser` returns 0 and writes a user such that no user has more processes.
pub topuser-Busiest :
    (alloc : Allocator) (procs : List ℕ) {block : List ℕ}
    → alloc.kmalloc 0 max_uid ≡ some block
    → all_below max_uid procs ≡ true
    → length procs < 2 ^ 32
    → (u : ℕ) × (topuser alloc procs ≡ done (ok 0, some u)) × Busiest procs u
unfolding topuser
topuser-Busiest alloc procs {block = block} got below small =
    let size = alloc.kmalloc_size 0 max_uid got in
    let (u, result, most) =
      count_loop-Busiest max_uid procs (clear block) (λ v. 0) 0 0 (length-clear block ∙ size)
        (λ v h. clear-zero block v (omega (arith, size))) below (omega arith) refl
        (λ v. omega arith) in
    (u, rw (topuser, got, result) refl, λ v. omega (arith, most v))

count_loop-fault :
    (n : ℕ) (procs cnt : List ℕ) (max_count max_usr : ℕ)
    → length cnt ≡ n
    → all_below n procs ≡ false
    → count_loop procs cnt max_count max_usr ≡ fault
unfolding count_loop
count_loop-fault n [] cnt max_count max_usr size below = absurd (ground arith)
count_loop-fault n (uid ∷ procs) cnt max_count max_usr size below =
    elim (Option-cases (get_elem? cnt uid)) [
      | inl missing ↦ rw (count_loop, missing) refl
      | inr (c, found) ↦
          let inside = lt_of_get_elem? cnt uid found in
          let c' = (c + 1) % 2 ^ 32 in
          rw (count_loop, found)
            (count_loop-fault n procs (set cnt uid c') (if ltb max_count c' then c' else max_count)
              (if ltb max_count c' then uid else max_usr) (length-set cnt uid c' ∙ size)
              (ground arith))
    ]

-- With an array allocated, a process of a user from max_uid on takes `topuser` out of the array, which
-- is undefined behaviour.
pub topuser_behind :
    (alloc : Allocator) (procs : List ℕ) {block : List ℕ}
    → alloc.kmalloc 0 max_uid ≡ some block
    → all_below max_uid procs ≡ false
    → topuser alloc procs ≡ fault
unfolding topuser
topuser_behind alloc procs {block = block} got behind =
    let size = alloc.kmalloc_size 0 max_uid got in
    let result =
      count_loop-fault max_uid procs (clear block) 0 0 (length-clear block ∙ size) behind in
    rw (topuser, got, result) refl
