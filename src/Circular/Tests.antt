-- ===== src/Circular/Tests.antt =====
-- Runs of the circular device, and the properties at concrete inputs.
use agh_systems_programming.Common.{
  ◌⊎◌, ◌≤◌, ℕ, zero, suc, ◌+◌, ◌<◌, ◌^◌, ◌≡◌, refl, some, [], ◌∷◌, arith, ◌≢◌, get_elem?, replicate,
}
use agh_systems_programming.Common.Outcome.{Ret, ok, done, fault, plenty}
use agh_systems_programming.Common.User.{Memory, mapped, read_bytes}
use agh_systems_programming.Circular.{
  Device, circular_write, circular_read, install, circular_proc_write,
}
use agh_systems_programming.Circular.Valid.{IsValid}
use agh_systems_programming.Circular.Write.{Written, circular_write-IsValid, circular_write-Written}
use agh_systems_programming.Circular.Read.{IsText, circular_read_overrun}
use agh_systems_programming.Circular.Resize.{
  Accepted, lost, circular_proc_write_resize, circular_proc_write-IsValid,
}

-- Four bytes of room, with the text "AB" and the position behind it.
abbrev small : Device
small = record { buff_size = 5; curr_position = 2; buffer = 65 ∷ 66 ∷ 0 ∷ 0 ∷ 0 ∷ []; live = 1 }

abbrev letters : Memory
letters a = 67 + a

small-IsValid : IsValid small
small-IsValid = record { big = omega arith; block = refl; inside = omega arith; ended = refl }

small-IsText : IsText small.buffer 2
small-IsText = record { ended = refl; nonzero = nonzero }
  where
    nonzero : (k : ℕ) → k < 2 → get_elem? small.buffer k ≢ some 0
    nonzero zero h = ground arith
    nonzero (suc zero) h = ground arith
    nonzero (suc (suc k)) h = absurd (omega arith)

write_wraps :
    circular_write mapped letters 0 3 small
    ≡ done (
      ok 3,
      record { buff_size = 5; curr_position = 1; buffer = 69 ∷ 66 ∷ 67 ∷ 68 ∷ 0 ∷ []; live = 1 },
    )
unfolding circular_write read_bytes
write_wraps = refl

grows_over_garbage :
    circular_proc_write mapped plenty (λ _. some 7) letters 0 1 small
    ≡ done (
      ok 1,
      record {
        buff_size = 7;
        curr_position = 2;
        buffer = 65 ∷ 66 ∷ 0 ∷ 0 ∷ 0 ∷ 255 ∷ 0 ∷ [];
        live = 1;
      },
    )
unfolding circular_proc_write install
grows_over_garbage = refl

circular_write-IsValid_example :
    (r : Ret × Device) × (circular_write mapped letters 0 3 small ≡ done r) × IsValid r.1
circular_write-IsValid_example =
    circular_write-IsValid mapped letters 0 3 small (omega arith) small-IsValid

circular_write-Written_example :
    (d' : Device) × (circular_write mapped letters 0 6 small ≡ done (ok 6, d'))
    × Written 0 6 letters small d'
circular_write-Written_example =
    circular_write-Written mapped letters 0 6 small (omega arith) small-IsValid (λ k h. refl)

circular_read_overrun_example :
    (m' : Memory) × (circular_read mapped letters 100 1 0 small ≡ done (ok 2, 2, m'))
    × (some 66 ≡ some (m' 101))
circular_read_overrun_example =
    circular_read_overrun mapped letters 100 1 small-IsValid (omega arith) small-IsText
      (omega arith) refl

accepted : (value : ℕ) → value < 2 ^ 31 → Accepted mapped plenty (λ _. some value) letters 0 1 value
accepted value h = record {
  temp = replicate 2 255;
  has_temp = refl;
  copied = refl;
  parsed = refl;
  block = replicate value 255;
  has_block = ground arith;
}

circular_proc_write_resize_example :
    (d' : Device) × (circular_proc_write mapped plenty (λ _. some 3) letters 0 1 small
      ≡ done (ok 1, d'))
    × IsValid d'
    × (d'.buff_size ≡ 3)
    × (d'.curr_position ≡ 0)
    × (d'.live ≡ 1)
    × ((k : ℕ) → k < 5 → suc k < 3 → get_elem? d'.buffer k ≡ get_elem? small.buffer k)
circular_proc_write_resize_example =
    circular_proc_write_resize mapped plenty (λ _. some 3) letters 0 1 small-IsValid
      (accepted 3 (omega arith)) (omega arith)

circular_proc_write-IsValid_example :
    ((r : Ret × Device) × (circular_proc_write mapped plenty (λ _. some 3) letters 0 1 small
        ≡ done r)
      × IsValid r.1
      × (r.1.live ≡ 1 + lost r.0))
    ⊎ ((value : ℕ) × Accepted mapped plenty (λ _. some 3) letters 0 1 value
        × (value ≤ 1)
        × (circular_proc_write mapped plenty (λ _. some 3) letters 0 1 small ≡ fault))
circular_proc_write-IsValid_example =
    circular_proc_write-IsValid mapped plenty (λ _. some 3) letters 0 1 small-IsValid

-- The two ways at the numbers 3 and 1.
grows_to_three :
    circular_proc_write mapped plenty (λ _. some 3) letters 0 1 small
    ≡ done (ok 1, record { buff_size = 3; curr_position = 0; buffer = 65 ∷ 66 ∷ 0 ∷ []; live = 1 })
unfolding circular_proc_write install
grows_to_three = refl

crashes_at_one : circular_proc_write mapped plenty (λ _. some 1) letters 0 1 small ≡ fault
unfolding circular_proc_write install
crashes_at_one = refl
