-- ===== src/Users/Tests.antt =====
-- The system calls on a few processes.
use agh_systems_programming.Common.{
  ◌⊎◌, ◌≢◌, none, false, ◌+◌, ◌<◌, length, replicate, ℕ, ◌^◌, ◌≡◌, ◌≤◌, ◌==◌, if◌then◌else◌, refl,
  List, [], ◌∷◌, some, true, arith,
}
use agh_systems_programming.Common.Outcome.{ok, error, efault, done, fault, plenty}
use agh_systems_programming.Common.Processes.{Processes}
use agh_systems_programming.Common.User.{Memory, mapped, write_bytes}
use agh_systems_programming.Users.Time.{timeuser}
use agh_systems_programming.Users.Time.Longest.{time_of, users_of, timeuser-Longest}
use agh_systems_programming.Users.Names.{pidtoname}
use agh_systems_programming.Users.Agreement.{pidtoname-prname_read}
use agh_systems_programming.Advanced.{Device, prname_read}
use agh_systems_programming.Users.{max_uid, topuser}
use agh_systems_programming.Users.Busiest.{Busiest, all_below, topuser-Busiest}

abbrev three : List ℕ
three = 7 ∷ 3 ∷ 7 ∷ []

below : all_below max_uid three ≡ true
unfolding max_uid
below = refl

got : plenty.kmalloc 0 max_uid ≡ some (replicate max_uid 255)
unfolding max_uid
got = refl

few : length three < 2 ^ 32
few = omega arith

topuser-Busiest_example : (u : ℕ) × (topuser plenty three ≡ done (ok 0, some u)) × Busiest three u
topuser-Busiest_example = topuser-Busiest plenty three {block = replicate max_uid 255} got below few

-- The users of three processes, with their times.
abbrev timed : List (ℕ × ℕ)
timed = (7, 10) ∷ (3, 25) ∷ (7, 10) ∷ []

timed_below : all_below max_uid (users_of timed) ≡ true
unfolding max_uid
timed_below = refl

timeuser-Longest_example :
    ((u : ℕ) × (timeuser plenty timed ≡ done (ok 0, some u))
      × ((v : ℕ) → time_of v timed ≤ time_of u timed))
    ⊎ ((timeuser plenty timed ≡ fault) × ((v : ℕ) → time_of v timed ≡ 0))
timeuser-Longest_example =
    timeuser-Longest plenty timed {block = replicate max_uid 255} got timed_below (omega arith)

abbrev blank : Memory
blank a = 0

-- "sh" and "ps"
abbrev two_names : List (List ℕ)
two_names = (115 ∷ 104 ∷ []) ∷ (112 ∷ 115 ∷ []) ∷ []

-- An array with one pointer, to 100, and NULL behind it.
abbrev one_pointer : ℕ → ℕ
one_pointer i = if i == 0 then 100 else 0

-- One process, of number 7.
abbrev one_process : Processes
one_process = record {
  find_get_pid = λ pid. pid == 7;
  comm = λ pid. if pid == 7 then some (115 ∷ 104 ∷ []) else none;
  comm_short = λ pid h. ground arith;
}

abbrev chosen : Device
chosen = record { proc_id = 7; prname_written = true; live = 1; refs = 1 }

sh_ready :
    (name : List ℕ)
    → one_process.comm 7 ≡ some name
    → (0 < length name) × ((block : List ℕ) × (plenty.kmalloc 0 (length name + 1) ≡ some block))
sh_ready name h =
    let e : 115 ∷ 104 ∷ [] ≡ name = cc in rw (← e) (omega arith, (replicate 3 255, refl))

pidtoname-prname_read_example :
    let (r, m', kept) = pidtoname mapped one_process 7 100 blank in
    let read = prname_read mapped plenty (λ text. none) one_process blank 100 9 0 chosen in
    let d' = record chosen { refs = 1 + kept } in
    ((name : List ℕ) × (one_process.comm 7 ≡ some name)
      × (r ≡ ok 0)
      × (read ≡ done (ok (length name), length name, d', m'))
      × (m' ≡ write_bytes blank 100 name))
    ⊎ (((one_process.find_get_pid 7 ≡ false) ⊎ (one_process.comm 7 ≡ none))
        × (r ≡ error efault)
        × (read ≡ done (ok 0, 0, d', m'))
        × (m' ≡ blank))
    ⊎ ((name : List ℕ) × (one_process.comm 7 ≡ some name)
        × ((mapped.copy_to_user blank 100 name).0 ≢ 0)
        × (r ≡ error efault)
        × (read ≡ done (error efault, 0, d', m')))
pidtoname-prname_read_example =
    pidtoname-prname_read mapped plenty (λ text. none) one_process blank 100 9 chosen refl sh_ready
