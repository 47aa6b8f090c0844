-- ===== src/Advanced/Tests.antt =====
-- The properties of /dev/prname and /dev/jiffies at concrete inputs.
use agh_systems_programming.Common.{
  ℕ, ◌+◌, ◌-◌, ◌%◌, ◌≡◌, refl, true, false, Option, none, some, List, [], ◌∷◌, ◌==◌, if◌then◌else◌,
  arith,
}
use agh_systems_programming.Common.Outcome.{ok, error, efault, einval, done, plenty}
use agh_systems_programming.Common.Processes.{Processes}
use agh_systems_programming.Common.User.{Memory, mapped, read_bytes, write_bytes}
use agh_systems_programming.Advanced.{
  Device, loaded, prname_write, prname_read, jiffies_read, advanced_init,
}
use agh_systems_programming.Advanced.Reading.{prname_write_then_read}

-- "sh"
abbrev shell : List ℕ
shell = 115 ∷ 104 ∷ []

-- One process, of number 7.
abbrev one_process : Processes
one_process = record {
  find_get_pid = λ pid. pid == 7;
  comm = λ pid. if pid == 7 then some shell else none;
  comm_short = λ pid h. ground arith;
}

-- One digit.
abbrev digit : List ℕ → Option ℕ
digit [] = none
digit (c ∷ rest) = some (c - 48)

abbrev print_digit : ℕ → List ℕ
print_digit n = (48 + n % 10) ∷ []

-- User memory with "7" at each address.
abbrev sevens : Memory
sevens a = 55

prname_write_then_read_example :
    (d' d'' d''' : Device) × (prname_write mapped plenty digit one_process sevens 0 1 loaded
      ≡ done (ok 1, d'))
    × (prname_read mapped plenty digit one_process sevens 5 9 0 d'
        ≡ done (ok 2, 2, d'', write_bytes sevens 5 shell))
    × (prname_read mapped plenty digit one_process (write_bytes sevens 5 shell) 5 9 2 d''
        ≡ done (ok 0, 2, d''', write_bytes sevens 5 shell))
    × (d'''.live ≡ 2)
unfolding read_bytes
prname_write_then_read_example =
    prname_write_then_read mapped plenty digit one_process sevens sevens 0 1 5 9 7 loaded
      (omega arith) refl refl refl refl refl (omega arith) refl refl

-- A second registration that fails leaves the first device registered.
half_registered :
    advanced_init none (some einval)
    ≡ (error efault, record { prname_device = true; jiffies_device = false })
unfolding advanced_init
half_registered = refl

-- The time 8 is read as the byte "8".
eight_read :
    jiffies_read mapped plenty print_digit 8 sevens 5 50 0
    ≡ done (ok 1, 1, write_bytes sevens 5 (56 ∷ []))
unfolding jiffies_read
eight_read = refl
