-- ===== src/Simple/Tests.antt =====
-- Runs of the message device, and the properties at concrete inputs.
use agh_systems_programming.Common.{ℕ, ◌+◌, ◌-◌, ◌≡◌, refl, false, [], ◌∷◌, ◌++◌, length, arith}
use agh_systems_programming.Common.Locks.{Guard, SpinApi, spinning}
use agh_systems_programming.Common.Outcome.{ok, done, plenty}
use agh_systems_programming.Common.User.{Memory, mapped, write_bytes, read_bytes}
use agh_systems_programming.Simple.{Device, simple_read}
use agh_systems_programming.Simple.Message.{cycle, Reads, stop, call, Reads-cycle}

back : (l : ℕ) → l + 1 - 1 ≡ l
back l = omega arith

abbrev spin : SpinApi
spin = record {
  Spinlock = ℕ;
  spin_lock = λ l. l + 1;
  spin_unlock = λ l. l - 1;
  spin_unlock-lock = back;
}

abbrev guard : Guard
guard = spinning spin

abbrev late : Device ℕ
late = record { msg_pos = 46; lock = 0 }

abbrev start : Device ℕ
start = record { msg_pos = 0; lock = 0 }

abbrev blank : Memory
blank a = 0

-- At position 46 two bytes are left before the message starts anew.
ends_with_message :
    simple_read mapped guard plenty false blank 0 10 late
    ≡ done (ok 2, record { msg_pos = 48; lock = 0 }, write_bytes blank 0 (45 ∷ 0 ∷ []))
unfolding simple_read
ends_with_message = refl

two_reads :
    Reads mapped guard plenty late
      (read_bytes (write_bytes blank 0 (45 ∷ 0 ∷ [])) 0 2
        ++ (read_bytes (write_bytes blank 50 (45 ∷ 48 ∷ 49 ∷ [])) 50 3 ++ []))
      (record { msg_pos = 51; lock = 0 })
unfolding simple_read
two_reads =
    call false blank 0 10 refl
      (call {s = record { msg_pos = 48; lock = 0 }} false blank 50 3 refl stop)

Reads-cycle_example :
    let bytes =
      read_bytes (write_bytes blank 0 (45 ∷ 0 ∷ [])) 0 2
      ++ (read_bytes (write_bytes blank 50 (45 ∷ 48 ∷ 49 ∷ [])) 50 3 ++ []) in
    (bytes ≡ cycle 46 (length bytes)) × (51 ≡ 46 + length bytes)
Reads-cycle_example =
    Reads-cycle mapped guard plenty (λ m a xs. refl) late (record { msg_pos = 51; lock = 0 })
      (omega arith) two_reads
