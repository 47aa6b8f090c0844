-- ===== src/Linked/Lifetime.antt =====
-- `linked_init` and `linked_exit`: what is registered, and that nothing stays behind.
use agh_systems_programming.Common.{◌≡◌, refl, Bool, true, false, Option, none, some, arith, []}
use agh_systems_programming.Common.Outcome.{Errno, ok, error}
use agh_systems_programming.Linked.{Module, linked_init, linked_exit}
use agh_systems_programming.Linked.Valid.{IsValid, clean_list_lem, clean_list-IsValid}

-- `linked_init` starts with valid globals and an empty list. It registers all or nothing: both if it
-- returns 0 and the proc entry was made, nothing if it fails. But if the proc entry cannot be made it
-- returns 0 with nothing registered, so that the module counts as loaded.
linked_init_lem :
    {Lock : Type 0} (l : Lock) (proc_ok : Bool) (chrdev : Option Errno)
    → let (r, s) = linked_init l proc_ok chrdev in
      IsValid s.device
      × (s.device.buffer ≡ [])
      × (s.proc_entry ≡ s.registered)
      × (proc_ok ≡ true → chrdev ≡ none → (r ≡ ok 0) × (s.registered ≡ true))
      × ((e : Errno) → proc_ok ≡ true → chrdev ≡ some e → (r ≡ error e) × (s.registered ≡ false))
      × (proc_ok ≡ false → (r ≡ ok 0) × (s.registered ≡ false))
unfolding linked_init
linked_init_lem {Lock} l proc_ok chrdev = (
  valid,
  ground arith,
  ground arith,
  λ p c. ground arith,
  λ e p c. ground arith,
  λ p. ground arith,
)
  where
    valid : IsValid (linked_init l proc_ok chrdev).1.device
    valid = ground arith

-- `linked_exit` on valid globals takes back what is registered, frees every segment once, and
-- leaves valid globals with an empty list of length 0.
linked_exit_lem :
    {Lock : Type 0} (s : Module Lock)
    → IsValid s.device
    → let s' = linked_exit s in
      IsValid s'.device
      × (s'.device ≡ record s.device { buffer = []; live = 0; total_length = 0 })
      × (s'.proc_entry ≡ false)
      × (s'.registered ≡ false)
unfolding linked_exit
linked_exit_lem s v = (clean_list-IsValid s.device v, clean_list_lem s.device v, refl, refl)
