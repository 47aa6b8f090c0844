-- ===== src/Linked/Interleaved.antt =====
-- Classes5/linked_buffer/*/linked_buffer.c: calls of the driver by several threads at once.
pub mod Run
pub mod Cursor
pub mod Walks
pub mod Snapshot
pub mod Totals
pub mod Lost
pub mod Clearing
mod Tests
use agh_systems_programming.Common.{
  ℕ, ◌+◌, ◌-◌, ◌^◌, ◌≤◌, ◌<◌, ◌≡◌, ◌≢◌, min, Bool, true, false, Option, none, some, List, [], ◌∷◌,
  ◌++◌, leb, ltb, ◌==◌, if◌then◌else◌, take, map,
}
use agh_systems_programming.Common.Family.{update}
use agh_systems_programming.Common.Outcome.{Ret, ok, error, enomem, efault, eintr, u64}
use agh_systems_programming.Common.User.{Memory, UserAccess}
use agh_systems_programming.Linked.{Reading, is_clear}
use agh_systems_programming.Linked.Segments.{Segment, internal_size, fill}

-- What the lock of a copy lets in, by the number of readers inside, and whether a signal ends the wait.
-- A writer is inside for one step only.
pub record Discipline : Type 0 where
  pub may_read : ℕ → Bool
  pub may_write : ℕ → Bool
  pub interruptible : Bool

-- mutex_lock_interruptible for both; down_read and down_write, or read_lock and write_lock;
-- rcu_read_lock and a spinlock of the writers.
abbrev pub mutex : Discipline
mutex = record { may_read = λ r. r == 0; may_write = λ r. r == 0; interruptible = true }

abbrev pub shared : Discipline
shared = record { may_read = λ r. true; may_write = λ r. r == 0; interruptible = false }

abbrev pub rcu : Discipline
rcu = record { may_read = λ r. true; may_write = λ r. true; interruptible = false }

-- An entry of the list. No address is used twice.
pub record Node : Type 0 where
  pub address : ℕ
  pub segment : Segment

abbrev pub segments : List Node → List Segment
segments = map (λ x. x.segment)

-- The entries behind the one at an address, if it is in the list.
abbrev pub after : ℕ → List Node → Option (List Node)
after a [] = none
after a (x ∷ xs) = if x.address == a then some xs else after a xs

-- The entries behind the place where a loop stands: the head of the list, or an entry.
abbrev pub behind : Option ℕ → List Node → Option (List Node)
behind none buffer = some buffer
behind (some a) buffer = after a buffer

-- `list_del`
abbrev pub erase : ℕ → List Node → List Node
erase a [] = []
erase a (x ∷ xs) = if x.address == a then xs else x ∷ erase a xs

-- Where a thread stands in its call. A reader: before the test of `total_length`, before the lock, in
-- the loop behind an entry that it has visited, behind the unlock. A writer: at the head of its loop,
-- before the lock with a segment, behind the unlock, and with `total_length` read for the addition; or
-- in the loop of `clean_list`, with the entry that comes next, if there is one.
pub data Place : Type 0 where
  start asked : Place
  walking : Option ℕ → Reading → Place
  left : Reading → Place
  filled linked : Segment → Place
  loaded : Segment → ℕ → Place
  cleaning : Option ℕ → Place
  finished : Ret → Place

-- A thread with one call. `index` is the `i` of `linked_write`, and `memory` that of the thread.
pub record Thread : Type 0 where
  pub writer : Bool
  pub memory : Memory
  pub user_buf : ℕ
  pub count : ℕ
  pub f_pos : ℕ
  pub index : ℕ
  pub place : Place

-- `readers` counts the readers inside of the lock, and `allocated` is an address that is not in use yet.
-- `faulted` says that memory was used that is not allocated any more.
pub record System : Type 0 where
  pub buffer : List Node
  pub total_length : ℕ
  pub read_count : ℕ
  pub write_count : ℕ
  pub readers : ℕ
  pub allocated : ℕ
  pub faulted : Bool
  pub thread : ℕ → Thread

abbrev pub goto : System → ℕ → Place → ℕ → Thread
goto s i p = update s.thread i (record (s.thread i) { place = p })

abbrev pub first : List Node → Option ℕ
first [] = none
first (x ∷ xs) = some x.address

-- How a round of the loop of `linked_read` ends: it goes on, the room is used up, or a copy fails.
pub data Visit : Type 0 where
  onward full failed : Reading → Visit

pub visit : UserAccess → (user_buf count f_pos : ℕ) → Segment → Reading → Visit
visit user user_buf count f_pos d r =
    let to_copy = min d.length (u64 (count + 2 ^ 64 - r.copied)) in
    let (missing, m') =
      user.copy_to_user r.memory (user_buf + r.copied) (take to_copy d.contents) in
    let r' : Reading = record {
      pos = u64 (r.pos + to_copy);
      copied = u64 (r.copied + to_copy);
      real_length = u64 (r.real_length + d.length);
      memory = m';
    } in
    if ltb r.pos f_pos
    then onward (record r { pos = u64 (r.pos + d.length) })
    else if missing == 0
    then (if leb count r'.copied then full r' else onward r')
    else failed (record r { memory = m' })

abbrev pub begin : Memory → Reading
begin m = record { pos = 0; copied = 0; real_length = 0; memory = m }

module _ (user : UserAccess) where
  abbrev pub visited : Thread → Segment → Reading → Visit
  visited t = visit user t.user_buf t.count t.f_pos

  -- The bytes of a round of `linked_write`, and how many there are.
  abbrev pub part : Thread → ℕ
  part t = min internal_size (t.count - t.index)

  abbrev pub round : Thread → ℕ × List ℕ
  round t = user.copy_from_user t.memory (t.user_buf + t.index) (part t)

  abbrev pub next_segment : Thread → Segment
  next_segment t = record { length = part t; contents = fill (round t).1 }
