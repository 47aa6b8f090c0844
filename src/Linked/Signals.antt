-- ===== src/Linked/Signals.antt =====
-- Locks that a signal does not interrupt: no call returns -EINTR.
use agh_systems_programming.Common.{ℕ, ◌+◌, ◌^◌, ◌<◌, ◌≡◌, ◌≢◌, Bool, none, some, arith}
use agh_systems_programming.Common.Outcome.{error, eintr}
use agh_systems_programming.Common.User.{Memory, UserAccess}
use agh_systems_programming.Linked.{Device, Call, linked_read, linked_write}
use agh_systems_programming.Linked.Locks.{Locking}
use agh_systems_programming.Linked.Valid.{IsValid}
use agh_systems_programming.Linked.Write.{
  no_memory, bad_copy, interrupted, Ending, finished, stopped, cleared, linked_write_lem,
}

module _ (user : UserAccess) (locking : Locking) where
  open locking use {Lock, read_lock, write_lock}

  pub linked_read-ne-eintr :
      ((signal : Bool) (l : Lock) → read_lock signal l ≢ none)
      → (signal : Bool) (m : Memory) (user_buf count f_pos : ℕ) (s : Device Lock)
      → (linked_read user locking signal m user_buf count f_pos s).ret ≢ error eintr
  unfolding linked_read
  linked_read-ne-eintr firm signal m user_buf count f_pos s =
      let got = firm signal s.lock in ground arith

  module _ (firm : (signal : Bool) (l : Lock) → write_lock signal l ≢ none) where
    Ending-ne-eintr :
        (kzalloc signal : ℕ → Bool) (m : Memory) (user_buf count f_pos : ℕ) {s : Device Lock}
        {c : Call Lock}
        → Ending user locking kzalloc signal m user_buf count 0 f_pos s c
        → c.ret ≢ error eintr
    Ending-ne-eintr kzalloc signal m user_buf count f_pos (finished r w g) = λ e. cc
    Ending-ne-eintr kzalloc signal m user_buf count f_pos (cleared n r w lt k b p) = λ e. cc
    Ending-ne-eintr kzalloc signal m user_buf count f_pos (stopped e n r w lt (no_memory q h) g) =
        λ e'. cc
    Ending-ne-eintr kzalloc signal m user_buf count f_pos (stopped e n r w lt (bad_copy q h) g) =
        λ e'. cc
    Ending-ne-eintr kzalloc signal m user_buf count f_pos {s}
          (stopped e n r w lt (interrupted q h) g) =
        absurd (firm (signal (0 + n)) s.lock h)

    pub linked_write-ne-eintr :
        (kzalloc signal : ℕ → Bool) (m : Memory) (user_buf count f_pos : ℕ) {s : Device Lock}
        → IsValid s
        → f_pos < 2 ^ 64
        → (c : Call Lock) × (linked_write user locking kzalloc signal m user_buf count f_pos s
            ≡ some c)
          × (c.ret ≢ error eintr)
    linked_write-ne-eintr kzalloc signal m user_buf count f_pos v small =
        let (c, e, left) =
          linked_write_lem user locking kzalloc signal m user_buf count f_pos v small in
        (c, e, Ending-ne-eintr kzalloc signal m user_buf count f_pos left.ending)
