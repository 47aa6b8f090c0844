-- ===== src/Users/Time/Longest.antt =====
-- The user that `timeuser` finds.
use agh_systems_programming.Common.{
  ℕ, ◌+◌, ◌^◌, ◌<◌, ◌≤◌, ◌≡◌, refl, ◌∙◌, true, Option, none, some, List, [], ◌∷◌, ltb, ◌==◌,
  if◌then◌else◌, inl, inr, ◌⊎◌, get_elem?, set, length, arith, length-set,
}
use agh_systems_programming.Common.Outcome.{ok, done, fault, Allocator, u64}
use agh_systems_programming.Users.{max_uid, clear}
use agh_systems_programming.Users.Time.{time_loop, timeuser}
use agh_systems_programming.Users.Busiest.{all_below, more, set-more, clear-zero, length-clear}
use native.Mathlib.Nat.{mod-eq_of_lt}

abbrev pub users_of : List (ℕ × ℕ) → List ℕ
users_of [] = []
users_of ((uid, utime) ∷ procs) = uid ∷ users_of procs

-- The time of all processes, and of those of one user.
abbrev pub time : List (ℕ × ℕ) → ℕ
time [] = 0
time ((uid, utime) ∷ procs) = utime + time procs

abbrev pub time_of : ℕ → List (ℕ × ℕ) → ℕ
time_of v [] = 0
time_of v ((uid, utime) ∷ procs) = (if v == uid then utime else 0) + time_of v procs

-- What the greatest time is, as long as there is no user, and for a user.
abbrev Holds : (ℕ → ℕ) → ℕ → Option ℕ → Type 0
Holds seen max_cpu none = max_cpu ≡ 0
Holds seen max_cpu (some u) = max_cpu ≡ seen u

time_loop-cons :
    (uid utime t : ℕ) (procs : List (ℕ × ℕ)) (cnt : List ℕ) (max_cpu : ℕ) (max_user : Option ℕ)
    → get_elem? cnt uid ≡ some t
    → u64 (t + utime) ≡ t + utime
    → time_loop ((uid, utime) ∷ procs) cnt max_cpu max_user
      ≡ time_loop procs
          (set cnt uid (t + utime))
          (if ltb max_cpu (t + utime) then t + utime else max_cpu)
          (if ltb max_cpu (t + utime) then some uid else max_user)
unfolding time_loop
time_loop-cons uid utime t procs cnt max_cpu max_user found fits = rw (time_loop, found, fits) refl

-- What the loop finds: nobody if nobody has any time, and else a user such that no user has more.
abbrev Found : (ℕ → ℕ) → List (ℕ × ℕ) → Option ℕ → Type 0
Found seen procs none = (v : ℕ) → seen v + time_of v procs ≡ 0
Found seen procs (some u) = (v : ℕ) → seen v + time_of v procs ≤ seen u + time_of u procs

nothing-Found :
    (seen : ℕ → ℕ) (max_cpu : ℕ) (r : Option ℕ)
    → Holds seen max_cpu r
    → ((v : ℕ) → seen v ≤ max_cpu)
    → Found seen [] r
nothing-Found seen max_cpu none e top = λ v. omega (arith, top v, e)
nothing-Found seen max_cpu (some u) e top = λ v. omega (arith, top v, e)

more-Found :
    (seen : ℕ → ℕ) (uid utime : ℕ) (procs : List (ℕ × ℕ)) (r : Option ℕ)
    → Found (more utime seen uid) procs r
    → Found seen ((uid, utime) ∷ procs) r
more-Found seen uid utime procs none h = λ v. ground (arith, h v)
more-Found seen uid utime procs (some u) h = λ v. ground (arith, h v)

more-Holds :
    (seen : ℕ → ℕ) (uid utime max_cpu : ℕ) (max_user : Option ℕ)
    → Holds seen max_cpu max_user
    → ((v : ℕ) → seen v ≤ max_cpu)
    → Holds
        (more utime seen uid)
        (if ltb max_cpu (seen uid + utime) then seen uid + utime else max_cpu)
        (if ltb max_cpu (seen uid + utime) then some uid else max_user)
more-Holds seen uid utime max_cpu none e top = ground (arith, top uid)
more-Holds seen uid utime max_cpu (some u) e top = ground (arith, top uid)

-- With `seen` the time added up so far.
time_loop-Found :
    (n : ℕ) (procs : List (ℕ × ℕ)) (cnt : List ℕ) (seen : ℕ → ℕ) (max_cpu : ℕ) (max_user : Option ℕ)
    → length cnt ≡ n
    → ((v : ℕ) → v < n → get_elem? cnt v ≡ some (seen v))
    → all_below n (users_of procs) ≡ true
    → max_cpu + time procs < 2 ^ 64
    → Holds seen max_cpu max_user
    → ((v : ℕ) → seen v ≤ max_cpu)
    → (r : Option ℕ) × (time_loop procs cnt max_cpu max_user ≡ done r) × Found seen procs r
unfolding time_loop
time_loop-Found n [] cnt seen max_cpu max_user size h below small e top =
    (max_user, refl, nothing-Found seen max_cpu max_user e top)
time_loop-Found n ((uid, utime) ∷ procs) cnt seen max_cpu max_user size h below small e top =
    let inside : uid < n = ground arith in
    let t = seen uid + utime in
    let fits : u64 t ≡ t = mod-eq_of_lt (omega (arith, top uid)) in
    let (r, result, found) =
      time_loop-Found n procs (set cnt uid t) (more utime seen uid)
        (if ltb max_cpu t then t else max_cpu) (if ltb max_cpu t then some uid else max_user)
        (length-set cnt uid t ∙ size) (set-more n utime cnt seen uid t size inside refl h)
        (ground arith) (ground (arith, top uid)) (more-Holds seen uid utime max_cpu max_user e top)
        (λ v. ground (arith, top v)) in
    (
      r,
      time_loop-cons uid utime (seen uid) procs cnt max_cpu max_user (h uid inside) fits ∙ result,
      more-Found seen uid utime procs r found,
    )

ends :
    (alloc : Allocator) (procs : List (ℕ × ℕ)) {block : List ℕ} (r : Option ℕ)
    → alloc.kmalloc 0 max_uid ≡ some block
    → time_loop procs (clear block) 0 none ≡ done r
    → Found (λ v. 0) procs r
    → ((u : ℕ) × (timeuser alloc procs ≡ done (ok 0, some u))
        × ((v : ℕ) → time_of v procs ≤ time_of u procs))
      ⊎ ((timeuser alloc procs ≡ fault) × ((v : ℕ) → time_of v procs ≡ 0))
unfolding timeuser
ends alloc procs none got result found =
    inr (rw (timeuser, got, result) refl, λ v. omega (arith, found v))
ends alloc procs (some u) got result found =
    inl (u, rw (timeuser, got, result) refl, λ v. omega (arith, found v))

-- With an array allocated, every process of a user below max_uid and less than 2 ^ 64 of time in all,
-- `timeuser` returns 0 and writes a user such that the processes of no user ran longer; unless no
-- process has any time, where it writes the value of a variable that has none.
pub timeuser-Longest :
    (alloc : Allocator) (procs : List (ℕ × ℕ)) {block : List ℕ}
    → alloc.kmalloc 0 max_uid ≡ some block
    → all_below max_uid (users_of procs) ≡ true
    → time procs < 2 ^ 64
    → ((u : ℕ) × (timeuser alloc procs ≡ done (ok 0, some u))
        × ((v : ℕ) → time_of v procs ≤ time_of u procs))
      ⊎ ((timeuser alloc procs ≡ fault) × ((v : ℕ) → time_of v procs ≡ 0))
timeuser-Longest alloc procs {block = block} got below small =
    let size = alloc.kmalloc_size 0 max_uid got in
    let (r, result, found) =
      time_loop-Found max_uid procs (clear block) (λ v. 0) 0 none (length-clear block ∙ size)
        (λ v h. clear-zero block v (omega (arith, size))) below (omega arith) refl
        (λ v. omega arith) in
    ends alloc procs r got result found
