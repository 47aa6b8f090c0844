-- ===== src/Linked/Locks.antt =====
-- What the drivers need of a lock for readers and a lock for writers, as seen by the one thread
-- that calls: taking it may be interrupted by a signal, and giving it back undoes the taking.
use mathlib.Core.Path.{◌≡◌}
use mathlib.Core.Bool.{Bool}
use mathlib.Core.Option.{Option, some}
use native.Mathlib.Omega.{arith}

pub record Locking : Type 1 where
  pub Lock : Type 0
  pub read_lock : (signal : Bool) → Lock → Option Lock
  pub read_unlock : Lock → Lock
  pub write_lock : (signal : Bool) → Lock → Option Lock
  pub write_unlock : Lock → Lock
  pub read_back :
      (signal : Bool) (l : Lock) {l' : Lock} → read_lock signal l ≡ some l' → read_unlock l' ≡ l
  pub write_back :
      (signal : Bool) (l : Lock) {l' : Lock} → write_lock signal l ≡ some l' → write_unlock l' ≡ l

-- Locks that wait until they are had, whatever signals come.
module _ {L : Type 0} (enter leave : L → L) (back : (l : L) → leave (enter l) ≡ l) where
  pub leave-enter : (l : L) {l' : L} → some (enter l) ≡ some l' → leave l' ≡ l
  leave-enter l h = ground (arith, back l)

module _ {L : Type 0} (enter_read leave_read enter_write leave_write : L → L)
    (read_law : (l : L) → leave_read (enter_read l) ≡ l)
    (write_law : (l : L) → leave_write (enter_write l) ≡ l) where
  abbrev pub waiting : Locking
  waiting = record {
    Lock = L;
    read_lock = λ signal l. some (enter_read l);
    read_unlock = leave_read;
    write_lock = λ signal l. some (enter_write l);
    write_unlock = leave_write;
    read_back = λ signal l {l'} h. leave-enter enter_read leave_read read_law l h;
    write_back = λ signal l {l'} h. leave-enter enter_write leave_write write_law l h;
  }
