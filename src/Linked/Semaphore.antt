-- ===== src/Linked/Semaphore.antt =====
-- Classes5/linked_buffer/semaphore/linked_buffer.c: a read-write semaphore, whose `down` calls wait
-- without regard to signals.
use agh_systems_programming.Common.{
  ℕ, zero, suc, ◌+◌, ◌-◌, ◌/◌, ◌^◌, ◌<◌, ◌≡◌, ◌≢◌, ◌∙◌, refl, Bool, false, Option, none, some, [],
  ◌∷◌, ◌++◌, ltb, ◌==◌, if◌then◌else◌, min,
}
use agh_systems_programming.Common.Outcome.{Errno, Ret, ok, error, enomem, efault, eintr, u64}
use agh_systems_programming.Linked.Segments.{Segment, internal_size, fill}
use agh_systems_programming.Common.User.{Memory, UserAccess}
use agh_systems_programming.Linked
use agh_systems_programming.Linked.{Device, Call, Module, Reading, read_loop, is_clear}
use agh_systems_programming.Linked.Locks.{Locking, waiting}
use agh_systems_programming.Linked.Copies.{
  unlocked, bare, with_lock, ended_with_lock, linked_read-with_lock, linked_write-with_lock,
}
use agh_systems_programming.Linked.Valid.{IsValid}
use agh_systems_programming.Linked.Signals.{linked_read-ne-eintr, linked_write-ne-eintr}

-- The kernel's read-write semaphore, as seen by the thread that holds it.
pub record RwsemApi : Type 1 where
  pub Rwsem : Type 0
  pub down_read : Rwsem → Rwsem
  pub up_read : Rwsem → Rwsem
  pub down_write : Rwsem → Rwsem
  pub up_write : Rwsem → Rwsem
  pub up-down_read : (l : Rwsem) → up_read (down_read l) ≡ l
  pub up-down_write : (l : Rwsem) → up_write (down_write l) ≡ l

module _ (api : RwsemApi) where
  open api use {Rwsem, down_read, up_read, down_write, up_write, up-down_read, up-down_write}

  abbrev pub locking : Locking
  locking = waiting down_read up_read down_write up_write up-down_read up-down_write

  pub linked_proc_show : Device Rwsem → ℕ × ℕ × ℕ
  unfolding Linked.linked_proc_show
  linked_proc_show = Linked.linked_proc_show

  pub linked_init : Rwsem → Bool → Option Errno → Ret × Module Rwsem
  unfolding Linked.linked_init
  linked_init = Linked.linked_init

  pub linked_exit : Module Rwsem → Module Rwsem
  unfolding Linked.linked_exit
  linked_exit = Linked.linked_exit

  pub clean_list : Device Rwsem → Device Rwsem
  unfolding Linked.clean_list
  clean_list = Linked.clean_list

  module _ (user : UserAccess) where
    -- No signal ends the wait for a lock of this copy, so that `signal` is not looked at.
    pub linked_read :
        (signal : Bool) → Memory → (user_buf count f_pos : ℕ) → Device Rwsem → Call Rwsem
    unfolding read_loop
    linked_read signal m user_buf count f_pos s =
        if ltb s.total_length f_pos
        then record { ret = ok 0; f_pos = f_pos; device = s; memory = m }
        else let l = down_read s.lock in
          let start : Reading = record { pos = 0; copied = 0; real_length = 0; memory = m } in
          let (complete, r) = read_loop user user_buf count f_pos s.buffer start in
          if complete
          then record {
            ret = ok r.copied;
            f_pos = u64 (f_pos + r.real_length);
            device = record s { lock = up_read l; read_count = u64 (s.read_count + 1) };
            memory = r.memory;
          }
          else record {
            ret = error efault;
            f_pos = f_pos;
            device = record s { lock = up_read l };
            memory = r.memory;
          }

    module _ (kzalloc signal : ℕ → Bool) (m : Memory) (user_buf count : ℕ) where
      abbrev leave : Ret → ℕ → Device Rwsem → Option (Call Rwsem)
      leave r f_pos s = some (record { ret = r; f_pos = f_pos; device = s; memory = m })

      -- The loop of `linked_write` from index `i` on; `none` means that the fuel ran out.
      pub write_loop : ℕ → ℕ → ℕ → Device Rwsem → Option (Call Rwsem)
      unfolding clean_list Linked.is_clear fill
      write_loop zero i f_pos s = none
      write_loop (suc fuel) i f_pos s =
          let to_copy = min internal_size (count - i) in
          let (left, bytes) = user.copy_from_user m (user_buf + i) to_copy in
          let d : Segment = record { length = to_copy; contents = fill bytes } in
          let l = down_write s.lock in
          let rest = write_loop fuel (i + internal_size) (u64 (f_pos + to_copy)) (record s {
            buffer = s.buffer ++ d ∷ [];
            lock = up_write l;
            total_length = u64 (s.total_length + to_copy);
            live = s.live + 1;
          }) in
          if ltb i count
          then (if kzalloc i
              then (if left == 0
                  then (if is_clear d.contents then leave (ok count) f_pos (clean_list s) else rest)
                  else leave (error efault) f_pos s)
              else leave (error enomem) f_pos s)
          else leave (ok count) f_pos (record s { write_count = u64 (s.write_count + 1) })

      pub linked_write : ℕ → Device Rwsem → Option (Call Rwsem)
      unfolding write_loop
      linked_write f_pos s = write_loop (count / internal_size + 2) 0 f_pos s

    -- The calls of this copy are those over the interface.
    linked_read_shared :
        (signal : Bool) (m : Memory) (user_buf count f_pos : ℕ) (s : Device Rwsem)
        → linked_read signal m user_buf count f_pos s
          ≡ Linked.linked_read user locking signal m user_buf count f_pos s
    unfolding linked_read Linked.linked_read
    linked_read_shared signal m user_buf count f_pos s = refl

    write_loop_shared :
        (kzalloc signal : ℕ → Bool) (m : Memory) (user_buf count fuel i f_pos : ℕ)
        (s : Device Rwsem)
        → write_loop kzalloc signal m user_buf count fuel i f_pos s
          ≡ Linked.write_loop user locking kzalloc signal m user_buf count fuel i f_pos s
    unfolding write_loop clean_list Linked.write_loop Linked.add_segment
    write_loop_shared kzalloc signal m user_buf count zero i f_pos s = refl
    write_loop_shared kzalloc signal m user_buf count (suc fuel) i f_pos s =
        let to_copy = min internal_size (count - i) in
        let d : Segment = record {
          length = to_copy;
          contents = fill (user.copy_from_user m (user_buf + i) to_copy).1;
        } in
        rw
          (write_loop_shared kzalloc signal m user_buf count fuel (i + internal_size)
            (u64 (f_pos + to_copy))
            (Linked.add_segment user locking kzalloc signal m user_buf count (down_write s.lock) d
              s))
          refl

    linked_write_shared :
        (kzalloc signal : ℕ → Bool) (m : Memory) (user_buf count f_pos : ℕ) (s : Device Rwsem)
        → linked_write kzalloc signal m user_buf count f_pos s
          ≡ Linked.linked_write user locking kzalloc signal m user_buf count f_pos s
    unfolding linked_write Linked.linked_write
    linked_write_shared kzalloc signal m user_buf count f_pos s =
        write_loop_shared kzalloc signal m user_buf count (count / internal_size + 2) 0 f_pos s

    -- The locks of this copy are not given up for a signal: from valid globals and a position
    -- below 2 ^ 64, neither a read nor
    -- a write ever returns -EINTR, and each write returns.
    pub semaphore_uninterrupted :
        (m : Memory) (user_buf count f_pos : ℕ) (s : Device Rwsem)
        → IsValid s
        → f_pos < 2 ^ 64
        → ((signal : Bool) → (linked_read signal m user_buf count f_pos s).ret ≢ error eintr)
          × ((kzalloc signal : ℕ → Bool)
              → (c : Call Rwsem) × (linked_write kzalloc signal m user_buf count f_pos s ≡ some c)
                × (c.ret ≢ error eintr))
    semaphore_uninterrupted m user_buf count f_pos s v small = (
      λ signal.
          rw (linked_read_shared signal m user_buf count f_pos s)
            (linked_read-ne-eintr user locking (λ sig l. cc) signal m user_buf count f_pos s),
      λ kzalloc signal. rw (linked_write_shared kzalloc signal m user_buf count f_pos s) (
          linked_write-ne-eintr user locking (λ sig l. cc) kzalloc signal m user_buf count f_pos v
            small),
    )

    -- A call is one without the lock, with the lock given back.
    pub linked_read-unlocked :
        (signal : Bool) (m : Memory) (user_buf count f_pos : ℕ) (s : Device Rwsem)
        → linked_read signal m user_buf count f_pos s
          ≡ with_lock s.lock
              (Linked.linked_read user unlocked false m user_buf count f_pos (bare s))
    linked_read-unlocked signal m user_buf count f_pos s =
        linked_read_shared signal m user_buf count f_pos s
        ∙ linked_read-with_lock user down_read up_read down_write up_write up-down_read
            up-down_write signal false m user_buf count f_pos s

    pub linked_write-unlocked :
        (kzalloc signal : ℕ → Bool) (m : Memory) (user_buf count f_pos : ℕ) (s : Device Rwsem)
        → linked_write kzalloc signal m user_buf count f_pos s
          ≡ ended_with_lock s.lock (
              Linked.linked_write user unlocked kzalloc
                (λ i. false)
                m
                user_buf
                count
                f_pos
                (bare s))
    linked_write-unlocked kzalloc signal m user_buf count f_pos s =
        linked_write_shared kzalloc signal m user_buf count f_pos s
        ∙ linked_write-with_lock user down_read up_read down_write up_write up-down_read
            up-down_write kzalloc signal (λ i. false) m user_buf count f_pos s
