-- ===== src/Linked.antt =====
-- Classes5/linked_buffer/*/linked_buffer.c: a character device over a linked list of segments. The
-- four copies of the driver differ in their locks alone; what they share is here, over an interface
-- of locks, and Mutex, Semaphore, Spinlock and Rcu are the copies.
pub mod Locks
pub mod Segments
pub mod Valid
pub mod Write
pub mod Entries
pub mod ReadLoop
pub mod Read
pub mod Reader
pub mod RoundTrip
pub mod Lifetime
pub mod Signals
pub mod Mutex
pub mod Semaphore
pub mod Spinlock
pub mod Rcu
pub mod Copies
pub mod Agreement
pub mod Interleaved
mod Tests
use agh_systems_programming.Common.{
  ℕ, zero, suc, ◌+◌, ◌-◌, ◌/◌, ◌%◌, ◌^◌, min, Bool, true, false, Option, none, some, List, [], ◌∷◌,
  ◌++◌, leb, ltb, ◌&&◌, ◌==◌, if◌then◌else◌, take, drop, get_or,
}
use agh_systems_programming.Common.Outcome.{Errno, Ret, ok, error, enomem, efault, eintr, u64}
use agh_systems_programming.Common.User.{Memory, UserAccess}
use Locks.{Locking}
use Segments.{Segment, internal_size, fill}

-- The globals of a driver, with its lock. `live` is the number of segments that `kzalloc` gave and
-- `kfree` did not take back.
pub record Device (Lock : Type 0) : Type 0 where
  pub read_count : ℕ
  pub write_count : ℕ
  pub buffer : List Segment
  pub total_length : ℕ
  pub live : ℕ
  pub lock : Lock

-- What a call leaves: its result, the file position, the globals and user memory.
pub record Call (Lock : Type 0) : Type 0 where
  pub ret : Ret
  pub f_pos : ℕ
  pub device : Device Lock
  pub memory : Memory

-- The loop of `clean_list`, over the entries that are left: each is unlinked and freed.
pub clean_loop : {Lock : Type 0} → List Segment → Device Lock → Device Lock
clean_loop [] s = s
clean_loop (_ ∷ entries) s =
    clean_loop entries (record s { buffer = drop 1 s.buffer; live = s.live - 1 })

pub clean_list : {Lock : Type 0} → Device Lock → Device Lock
unfolding clean_loop
clean_list s = let s' = clean_loop s.buffer s in record s' { total_length = 0 }

-- Where the loop of `linked_read` stands, or ends.
pub record Reading : Type 0 where
  pub pos : ℕ
  pub copied : ℕ
  pub real_length : ℕ
  pub memory : Memory

-- The loop of `linked_read`, over the entries from the current one on; `false` is a failed copy.
pub read_loop : UserAccess → (user_buf count f_pos : ℕ) → List Segment → Reading → Bool × Reading
read_loop user user_buf count f_pos [] r = (true, r)
read_loop user user_buf count f_pos (d ∷ ds) r =
    let to_copy = min d.length (u64 (count + 2 ^ 64 - r.copied)) in
    let skipped =
      read_loop user user_buf count f_pos ds (record r { pos = u64 (r.pos + d.length) }) in
    let (left, m') = user.copy_to_user r.memory (user_buf + r.copied) (take to_copy d.contents) in
    let r' : Reading = record {
      pos = u64 (r.pos + to_copy);
      copied = u64 (r.copied + to_copy);
      real_length = u64 (r.real_length + d.length);
      memory = m';
    } in
    let rest = read_loop user user_buf count f_pos ds r' in
    if ltb r.pos f_pos
    then skipped
    else if left == 0
    then (if leb count r'.copied then (true, r') else rest)
    else (false, record r { memory = m' })

-- `strncmp(contents, "xxx&", 4) == 0`
pub is_clear : List ℕ → Bool
is_clear c =
    get_or c 0 0 == b'x' && get_or c 1 0 == b'x' && get_or c 2 0 == b'x' && get_or c 3 0 == b'&'

module _ (user : UserAccess) (locking : Locking) where
  open user use {copy_from_user}
  open locking use {Lock, read_lock, read_unlock, write_lock, write_unlock}

  -- `signal` says whether a signal is pending when the lock is asked for.
  pub linked_read : (signal : Bool) → Memory → (user_buf count f_pos : ℕ) → Device Lock → Call Lock
  unfolding read_loop
  linked_read signal m user_buf count f_pos s =
      if ltb s.total_length f_pos
      then record { ret = ok 0; f_pos = f_pos; device = s; memory = m }
      else elim (read_lock signal s.lock) [
        | none ↦ record { ret = error eintr; f_pos = f_pos; device = s; memory = m }
        | some l ↦
            let start : Reading = record { pos = 0; copied = 0; real_length = 0; memory = m } in
            let (complete, r) = read_loop user user_buf count f_pos s.buffer start in
            if complete
            then record {
              ret = ok r.copied;
              f_pos = u64 (f_pos + r.real_length);
              device = record s { lock = read_unlock l; read_count = u64 (s.read_count + 1) };
              memory = r.memory;
            }
            else record {
              ret = error efault;
              f_pos = f_pos;
              device = record s { lock = read_unlock l };
              memory = r.memory;
            }
      ]

  -- What the kernel does in the round at index `i`: whether `kzalloc` gives a block, and whether a
  -- signal is pending at the lock.
  module _ (kzalloc signal : ℕ → Bool) (m : Memory) (user_buf count : ℕ) where
    -- The segment joins the list under the lock; the length and the position follow outside of it.
    pub add_segment : Lock → Segment → Device Lock → Device Lock
    add_segment l d s = record s {
      buffer = s.buffer ++ d ∷ [];
      lock = write_unlock l;
      total_length = u64 (s.total_length + d.length);
      live = s.live + 1;
    }

    abbrev leave : Ret → ℕ → Device Lock → Option (Call Lock)
    leave r f_pos s = some (record { ret = r; f_pos = f_pos; device = s; memory = m })

    -- The loop of `linked_write` from index `i` on; `none` means that the fuel ran out. Where it
    -- stops early the new segment is freed again.
    pub write_loop : ℕ → ℕ → ℕ → Device Lock → Option (Call Lock)
    unfolding clean_list is_clear fill add_segment
    write_loop zero i f_pos s = none
    write_loop (suc fuel) i f_pos s =
        let to_copy = min internal_size (count - i) in
        let (left, bytes) = copy_from_user m (user_buf + i) to_copy in
        let d : Segment = record { length = to_copy; contents = fill bytes } in
        let next = λ (l : Lock).
          write_loop fuel (i + internal_size) (u64 (f_pos + to_copy)) (add_segment l d s) in
        if ltb i count
        then (if kzalloc i
            then (if left == 0
                then (if is_clear d.contents
                    then leave (ok count) f_pos (clean_list s)
                    else elim (write_lock (signal i) s.lock) [
                      | none ↦ leave (error eintr) f_pos s
                      | some l ↦ next l
                    ])
                else leave (error efault) f_pos s)
            else leave (error enomem) f_pos s)
        else leave (ok count) f_pos (record s { write_count = u64 (s.write_count + 1) })

    -- A round for each four bytes begun, and the last test.
    pub linked_write : ℕ → Device Lock → Option (Call Lock)
    unfolding write_loop
    linked_write f_pos s = write_loop (count / internal_size + 2) 0 f_pos s

-- The three numbers that `linked_proc_show` prints.
pub linked_proc_show : {Lock : Type 0} → Device Lock → ℕ × ℕ × ℕ
linked_proc_show s = (s.read_count, s.write_count, s.total_length)

-- The module: its globals, and what it has registered.
pub record Module (Lock : Type 0) : Type 0 where
  pub device : Device Lock
  pub proc_entry : Bool
  pub registered : Bool

abbrev pub empty : {Lock : Type 0} → Lock → Device Lock
empty l = record {
  read_count = 0;
  write_count = 0;
  buffer = [];
  total_length = 0;
  live = 0;
  lock = l;
}

-- `proc_ok` says whether `proc_create` gives an entry; `chrdev` is the error of `register_chrdev`,
-- if it has one.
pub linked_init : {Lock : Type 0} → Lock → Bool → Option Errno → Ret × Module Lock
linked_init l proc_ok chrdev =
    if proc_ok
    then elim chrdev [
      | none ↦ (ok 0, record { device = empty l; proc_entry = true; registered = true })
      | some e ↦ (error e, record { device = empty l; proc_entry = false; registered = false })
    ]
    else (ok 0, record { device = empty l; proc_entry = false; registered = false })

pub linked_exit : {Lock : Type 0} → Module Lock → Module Lock
unfolding clean_list
linked_exit s = record { device = clean_list s.device; proc_entry = false; registered = false }
