-- ===== src/Linked/Spinlock.antt =====
-- Classes5/linked_buffer/spinlock/linked_buffer.c: a read-write spinlock.
use agh_systems_programming.Common.{
  ℕ, zero, suc, ◌+◌, ◌-◌, ◌/◌, ◌^◌, ◌<◌, ◌≡◌, ◌≢◌, ◌∙◌, refl, Bool, false, Option, none, some, [],
  ◌∷◌, ◌++◌, ltb, ◌==◌, if◌then◌else◌, min,
}
use agh_systems_programming.Common.Outcome.{Errno, Ret, ok, error, enomem, efault, eintr, u64}
use agh_systems_programming.Linked.Segments.{Segment, internal_size, fill}
use agh_systems_programming.Common.User.{Memory, UserAccess}
use agh_systems_programming.Linked
use agh_systems_programming.Linked.{Device, Call, Module, Reading, read_loop, is_clear}
use agh_systems_programming.Linked.Locks.{Locking, waiting}
use agh_systems_programming.Linked.Copies.{
  unlocked, bare, with_lock, ended_with_lock, linked_read-with_lock, linked_write-with_lock,
}
use agh_systems_programming.Linked.Valid.{IsValid}
use agh_systems_programming.Linked.Signals.{linked_read-ne-eintr, linked_write-ne-eintr}

-- The kernel's read-write spinlock, as seen by the thread that holds it.
pub record RwlockApi : Type 1 where
  pub Rwlock : Type 0
  pub read_lock : Rwlock → Rwlock
  pub read_unlock : Rwlock → Rwlock
  pub write_lock : Rwlock → Rwlock
  pub write_unlock : Rwlock → Rwlock
  pub read_unlock-read_lock : (l : Rwlock) → read_unlock (read_lock l) ≡ l
  pub write_unlock-write_lock : (l : Rwlock) → write_unlock (write_lock l) ≡ l

module _ (api : RwlockApi) where
  open api use {
    Rwlock, read_lock, read_unlock, write_lock, write_unlock, read_unlock-read_lock,
    write_unlock-write_lock,
  }

  abbrev pub locking : Locking
  locking =
      waiting read_lock read_unlock write_lock write_unlock read_unlock-read_lock
        write_unlock-write_lock

  pub linked_proc_show : Device Rwlock → ℕ × ℕ × ℕ
  unfolding Linked.linked_proc_show
  linked_proc_show = Linked.linked_proc_show

  pub linked_init : Rwlock → Bool → Option Errno → Ret × Module Rwlock
  unfolding Linked.linked_init
  linked_init = Linked.linked_init

  pub linked_exit : Module Rwlock → Module Rwlock
  unfolding Linked.linked_exit
  linked_exit = Linked.linked_exit

  pub clean_list : Device Rwlock → Device Rwlock
  unfolding Linked.clean_list
  clean_list = Linked.clean_list

  module _ (user : UserAccess) where
    -- No signal ends the wait for a lock of this copy, so that `signal` is not looked at.
    pub linked_read :
        (signal : Bool) → Memory → (user_buf count f_pos : ℕ) → Device Rwlock → Call Rwlock
    unfolding read_loop
    linked_read signal m user_buf count f_pos s =
        if ltb s.total_length f_pos
        then record { ret = ok 0; f_pos = f_pos; device = s; memory = m }
        else let l = read_lock s.lock in
          let start : Reading = record { pos = 0; copied = 0; real_length = 0; memory = m } in
          let (complete, r) = read_loop user user_buf count f_pos s.buffer start in
          if complete
          then record {
            ret = ok r.copied;
            f_pos = u64 (f_pos + r.real_length);
            device = record s { lock = read_unlock l; read_count = u64 (s.read_count + 1) };
            memory = r.memory;
          }
          else record {
            ret = error efault;
            f_pos = f_pos;
            device = record s { lock = read_unlock l };
            memory = r.memory;
          }

    module _ (kzalloc signal : ℕ → Bool) (m : Memory) (user_buf count : ℕ) where
      abbrev leave : Ret → ℕ → Device Rwlock → Option (Call Rwlock)
      leave r f_pos s = some (record { ret = r; f_pos = f_pos; device = s; memory = m })

      -- The loop of `linked_write` from index `i` on; `none` means that the fuel ran out.
      pub write_loop : ℕ → ℕ → ℕ → Device Rwlock → Option (Call Rwlock)
      unfolding clean_list Linked.is_clear fill
      write_loop zero i f_pos s = none
      write_loop (suc fuel) i f_pos s =
          let to_copy = min internal_size (count - i) in
          let (left, bytes) = user.copy_from_user m (user_buf + i) to_copy in
          let d : Segment = record { length = to_copy; contents = fill bytes } in
          let l = write_lock s.lock in
          let rest = write_loop fuel (i + internal_size) (u64 (f_pos + to_copy)) (record s {
            buffer = s.buffer ++ d ∷ [];
            lock = write_unlock l;
            total_length = u64 (s.total_length + to_copy);
            live = s.live + 1;
          }) in
          if ltb i count
          then (if kzalloc i
              then (if left == 0
                  then (if is_clear d.contents then leave (ok count) f_pos (clean_list s) else rest)
                  else leave (error efault) f_pos s)
              else leave (error enomem) f_pos s)
          else leave (ok count) f_pos (record s { write_count = u64 (s.write_count + 1) })

      pub linked_write : ℕ → Device Rwlock → Option (Call Rwlock)
      unfolding write_loop
      linked_write f_pos s = write_loop (count / internal_size + 2) 0 f_pos s

    -- The calls of this copy are those over the interface.
    linked_read_shared :
        (signal : Bool) (m : Memory) (user_buf count f_pos : ℕ) (s : Device Rwlock)
        → linked_read signal m user_buf count f_pos s
          ≡ Linked.linked_read user locking signal m user_buf count f_pos s
    unfolding linked_read Linked.linked_read
    linked_read_shared signal m user_buf count f_pos s = refl

    write_loop_shared :
        (kzalloc signal : ℕ → Bool) (m : Memory) (user_buf count fuel i f_pos : ℕ)
        (s : Device Rwlock)
        → write_loop kzalloc signal m user_buf count fuel i f_pos s
          ≡ Linked.write_loop user locking kzalloc signal m user_buf count fuel i f_pos s
    unfolding write_loop clean_list Linked.write_loop Linked.add_segment
    write_loop_shared kzalloc signal m user_buf count zero i f_pos s = refl
    write_loop_shared kzalloc signal m user_buf count (suc fuel) i f_pos s =
        let to_copy = min internal_size (count - i) in
        let d : Segment = record {
          length = to_copy;
          contents = fill (user.copy_from_user m (user_buf + i) to_copy).1;
        } in
        rw
          (write_loop_shared kzalloc signal m user_buf count fuel (i + internal_size)
            (u64 (f_pos + to_copy))
            (Linked.add_segment user locking kzalloc signal m user_buf count (write_lock s.lock) d
              s))
          refl

    linked_write_shared :
        (kzalloc signal : ℕ → Bool) (m : Memory) (user_buf count f_pos : ℕ) (s : Device Rwlock)
        → linked_write kzalloc signal m user_buf count f_pos s
          ≡ Linked.linked_write user locking kzalloc signal m user_buf count f_pos s
    unfolding linked_write Linked.linked_write
    linked_write_shared kzalloc signal m user_buf count f_pos s =
        write_loop_shared kzalloc signal m user_buf count (count / internal_size + 2) 0 f_pos s

    -- The locks of this copy are not given up for a signal: from valid globals and a position
    -- below 2 ^ 64, neither a read nor
    -- a write ever returns -EINTR, and each write returns.
    pub spinlock_uninterrupted :
        (m : Memory) (user_buf count f_pos : ℕ) (s : Device Rwlock)
        → IsValid s
        → f_pos < 2 ^ 64
        → ((signal : Bool) → (linked_read signal m user_buf count f_pos s).ret ≢ error eintr)
          × ((kzalloc signal : ℕ → Bool)
              → (c : Call Rwlock) × (linked_write kzalloc signal m user_buf count f_pos s ≡ some c)
                × (c.ret ≢ error eintr))
    spinlock_uninterrupted m user_buf count f_pos s v small = (
      λ signal.
          rw (linked_read_shared signal m user_buf count f_pos s)
            (linked_read-ne-eintr user locking (λ sig l. cc) signal m user_buf count f_pos s),
      λ kzalloc signal. rw (linked_write_shared kzalloc signal m user_buf count f_pos s) (
          linked_write-ne-eintr user locking (λ sig l. cc) kzalloc signal m user_buf count f_pos v
            small),
    )

    -- A call is one without the lock, with the lock given back.
    pub linked_read-unlocked :
        (signal : Bool) (m : Memory) (user_buf count f_pos : ℕ) (s : Device Rwlock)
        → linked_read signal m user_buf count f_pos s
          ≡ with_lock s.lock
              (Linked.linked_read user unlocked false m user_buf count f_pos (bare s))
    linked_read-unlocked signal m user_buf count f_pos s =
        linked_read_shared signal m user_buf count f_pos s
        ∙ linked_read-with_lock user read_lock read_unlock write_lock write_unlock
            read_unlock-read_lock write_unlock-write_lock signal false m user_buf count f_pos s

    pub linked_write-unlocked :
        (kzalloc signal : ℕ → Bool) (m : Memory) (user_buf count f_pos : ℕ) (s : Device Rwlock)
        → linked_write kzalloc signal m user_buf count f_pos s
          ≡ ended_with_lock s.lock (
              Linked.linked_write user unlocked kzalloc
                (λ i. false)
                m
                user_buf
                count
                f_pos
                (bare s))
    linked_write-unlocked kzalloc signal m user_buf count f_pos s =
        linked_write_shared kzalloc signal m user_buf count f_pos s
        ∙ linked_write-with_lock user read_lock read_unlock write_lock write_unlock
            read_unlock-read_lock write_unlock-write_lock kzalloc signal (λ i. false) m user_buf
            count f_pos s
