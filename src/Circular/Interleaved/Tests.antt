-- ===== src/Circular/Interleaved/Tests.antt =====
-- Three writers of two bytes each, at a buffer of five bytes with the position in front of the terminator.
use agh_systems_programming.Common.{ℕ, ◌+◌, ◌≡◌, refl, true, false, some, [], ◌∷◌, get_elem?, arith}
use agh_systems_programming.Common.User.{Memory, mapped}
use agh_systems_programming.Circular.{Device}
use agh_systems_programming.Circular.Valid.{IsValid}
use agh_systems_programming.Circular.Interleaved.{start, System, Reach}
use agh_systems_programming.Circular.Interleaved.Race.{IsReady, writers_leave_buffer}

abbrev nearly_full : Device
nearly_full = record {
  buff_size = 5;
  curr_position = 3;
  buffer = 65 ∷ 66 ∷ 67 ∷ 0 ∷ 0 ∷ [];
  live = 1;
}

abbrev letters : ℕ → Memory
letters i a = 70 + i + a

abbrev three : System
three = record {
  device = nearly_full;
  faulted = false;
  thread = λ i. record { memory = letters i; user_buf = 0; count = 2; index = 0; place = start };
}

nearly_full-IsValid : IsValid nearly_full
nearly_full-IsValid = record { big = omega arith; block = refl; inside = omega arith; ended = refl }

three-IsReady : (i : ℕ) → IsReady mapped (three.thread i)
three-IsReady i = record { at_head = refl; more = omega arith; complete = refl }

writers_leave_buffer_example :
    (t : System) × Reach mapped 3 three t
    × (get_elem? t.device.buffer 4 ≡ some 71)
    × (t.faulted ≡ true)
writers_leave_buffer_example =
    writers_leave_buffer mapped 3 three 0 1 2 (omega arith) (omega arith) (omega arith)
      (omega arith) (omega arith) (omega arith) nearly_full-IsValid refl (three-IsReady 0)
      (three-IsReady 1) (three-IsReady 2)
