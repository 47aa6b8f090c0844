-- ===== src/Circular/Interleaved.antt =====
-- Classes3/Circular/circular.c: calls of circular_write by several threads at once. The file has no lock.
mod Race
mod Tests
use agh_systems_programming.Common.{ℕ, ◌+◌, ◌<◌, ◌≤◌, ◌≡◌, ◌≢◌, Bool, true, false, List, [], ◌∷◌}
use agh_systems_programming.Common.Family.{update}
use agh_systems_programming.Common.Outcome.{Ret, ok, error, efault, done, fault, store_bytes}
use agh_systems_programming.Common.User.{Memory, UserAccess}
use agh_systems_programming.Circular.{Device, wrap, next_index}

-- Where a thread stands in its call: at the head of the loop, behind the copy, behind the addition to
-- `curr_position`, or at the end.
pub data Place : Type 0 where
  start copied added : Place
  finished : Ret → Place

-- `index` is the `i` of `circular_write`, and `memory` that of the thread.
pub record Thread : Type 0 where
  pub memory : Memory
  pub user_buf : ℕ
  pub count : ℕ
  pub index : ℕ
  pub place : Place

-- `faulted` says that there was a write outside of the block, a division by zero, or
-- an index past the largest `int`.
pub record System : Type 0 where
  pub device : Device
  pub faulted : Bool
  pub thread : ℕ → Thread

abbrev pub goto : System → ℕ → Place → ℕ → Thread
goto s i p = update s.thread i (record (s.thread i) { place = p })

module _ (user : UserAccess) where
  -- What the copy of a thread gives for its next byte.
  abbrev pub copy : Thread → ℕ × List ℕ
  copy t = user.copy_from_user t.memory (t.user_buf + t.index) 1

  -- A step of one of the `n` threads: a statement of the loop of `circular_write`.
  pub data Step (n : ℕ) (s : System) : System → Type 0 where
    copy_byte :
        (i : ℕ) (b : List ℕ)
        → i < n
        → (s.thread i).place ≡ start
        → (s.thread i).index < (s.thread i).count
        → store_bytes s.device.buffer s.device.curr_position (copy (s.thread i)).1 ≡ done b
        → (copy (s.thread i)).0 ≡ 0
        → Step n s (record s { device = record s.device { buffer = b }; thread = goto s i copied })
    copy_fails :
        (i : ℕ) (b : List ℕ)
        → i < n
        → (s.thread i).place ≡ start
        → (s.thread i).index < (s.thread i).count
        → store_bytes s.device.buffer s.device.curr_position (copy (s.thread i)).1 ≡ done b
        → (copy (s.thread i)).0 ≢ 0
        → Step n s (record s {
          device = record s.device { buffer = b };
          thread = goto s i (finished (error efault));
        })
    copy_faults :
        (i : ℕ)
        → i < n
        → (s.thread i).place ≡ start
        → (s.thread i).index < (s.thread i).count
        → store_bytes s.device.buffer s.device.curr_position (copy (s.thread i)).1 ≡ fault
        → Step n s (record s { faulted = true })
    add_one :
        (i : ℕ)
        → i < n
        → (s.thread i).place ≡ copied
        → Step n s (record s {
          device = record s.device { curr_position = s.device.curr_position + 1 };
          thread = goto s i added;
        })
    take_rest :
        (i p k : ℕ)
        → i < n
        → (s.thread i).place ≡ added
        → wrap s.device.curr_position s.device.buff_size ≡ done p
        → next_index (s.thread i).index ≡ done k
        → Step n s (record s {
          device = record s.device { curr_position = p };
          thread = update s.thread i (record (s.thread i) { place = start; index = k });
        })
    take_rest_faults :
        (i : ℕ)
        → i < n
        → (s.thread i).place ≡ added
        → wrap s.device.curr_position s.device.buff_size ≡ fault
        → Step n s (record s { faulted = true })
    index_faults :
        (i p : ℕ)
        → i < n
        → (s.thread i).place ≡ added
        → wrap s.device.curr_position s.device.buff_size ≡ done p
        → next_index (s.thread i).index ≡ fault
        → Step n s (record s { device = record s.device { curr_position = p }; faulted = true })
    all_written :
        (i : ℕ)
        → i < n
        → (s.thread i).place ≡ start
        → (s.thread i).count ≤ (s.thread i).index
        → Step n s (record s { thread = goto s i (finished (ok (s.thread i).count)) })

  pub data Reach (n : ℕ) (s : System) : System → Type 0 where
    here : Reach n s s
    next : {t u : System} → Reach n s t → Step n t u → Reach n s u
