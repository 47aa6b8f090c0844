-- ===== src/Linked/Tests.antt =====
-- Runs of the linked-buffer drivers, and the properties at concrete inputs.
use agh_systems_programming.Common.{
  ℕ, zero, suc, ◌+◌, ◌-◌, ◌%◌, ◌<◌, ◌≡◌, refl, Bool, true, false, some, arith, List, [], ◌∷◌, ◌++◌,
  ltb, ◌==◌, if◌then◌else◌,
}
use agh_systems_programming.Common.Outcome.{ok}
use agh_systems_programming.Common.User.{Memory, mapped, write_bytes, read_bytes}
use agh_systems_programming.Linked.{is_clear, Device, Call, empty, linked_read, linked_write}
use agh_systems_programming.Linked.Locks.{Locking, waiting}
use agh_systems_programming.Linked.Segments.{fill, Segment, stream}
use agh_systems_programming.Linked.Valid.{IsValid}
use agh_systems_programming.Linked.Write.{Left, chunk, linked_write_lem}
use agh_systems_programming.Linked.Entries.{skip}
use agh_systems_programming.Linked.Read.{served, linked_read_lem}
use agh_systems_programming.Linked.Reader.{got, linked_read_all, linked_read_short_loses}
use agh_systems_programming.Linked.RoundTrip.{Smooth, linked_write_then_read}
use agh_systems_programming.Linked.Copies.{unlocked, bare, with_lock, ended_with_lock}
use agh_systems_programming.Linked.Agreement.{copies_agree}
use agh_systems_programming.Linked.Mutex.{MutexApi}
use agh_systems_programming.Linked.Semaphore
use agh_systems_programming.Linked.Semaphore.{RwsemApi}
use agh_systems_programming.Linked.Spinlock
use agh_systems_programming.Linked.Spinlock.{RwlockApi}
use agh_systems_programming.Linked.Rcu
use agh_systems_programming.Linked.Rcu.{RcuApi}

-- A lock that counts how often it is held.
abbrev enter : ℕ → ℕ
enter l = l + 1

abbrev leave : ℕ → ℕ
leave l = l - 1

leave-enter : (l : ℕ) → leave (enter l) ≡ l
leave-enter l = omega arith

abbrev counting : Locking
counting = waiting enter leave enter leave leave-enter leave-enter

abbrev letters : Memory
letters a = 65 + a % 26

abbrev always : ℕ → Bool
always k = true

abbrev never : ℕ → Bool
never k = false

-- "ABCD" and "EF".
abbrev two : Device ℕ
two = record {
  read_count = 0;
  write_count = 1;
  buffer =
      record { length = 4; contents = 65 ∷ 66 ∷ 67 ∷ 68 ∷ [] }
      ∷ record { length = 2; contents = 69 ∷ 70 ∷ 0 ∷ 0 ∷ [] }
      ∷ [];
  total_length = 6;
  live = 2;
  lock = 0;
}

abbrev command : Memory
command a = if ltb a 3 then b'x' else if a == 3 then b'&' else 65

write_makes_two :
    linked_write mapped counting always never letters 0 6 0 (empty 0)
    ≡ some (record { ret = ok 6; f_pos = 6; device = two; memory = letters })
unfolding linked_write read_bytes
write_makes_two = refl

write_command_clears :
    linked_write mapped counting always never command 0 9 0 two
    ≡ some (record {
      ret = ok 9;
      f_pos = 0;
      device = record two { buffer = []; total_length = 0; live = 0 };
      memory = command;
    })
unfolding linked_write read_bytes
write_command_clears = refl

two-IsValid : IsValid two
two-IsValid = omega arith

all_mapped : (m : Memory) (a : ℕ) (xs : List ℕ) → (mapped.copy_to_user m a xs).0 ≡ 0
all_mapped m a xs = refl

linked_write_lem_example :
    (c : Call ℕ) × (linked_write mapped counting always never letters 0 6 0 two ≡ some c)
    × Left mapped counting always never letters 0 6 0 0 two c
linked_write_lem_example =
    linked_write_lem mapped counting always never letters 0 6 0 {s = two} two-IsValid (omega arith)

linked_read_lem_example :
    linked_read mapped counting false letters 100 8 4 two
    ≡ served letters 100 8 4 two (skip 0 4 two.buffer)
linked_read_lem_example =
    linked_read_lem mapped counting all_mapped false letters 100 8 (omega arith) {s = two}
      two-IsValid (omega arith) refl 4 (omega arith)

linked_read_all_example :
    let m' = write_bytes letters 100 (stream two.buffer) in
    (linked_read mapped counting false letters 100 8 0 two ≡ got 6 6 two m')
    × (linked_read mapped counting false letters 100 8 6 two ≡ got 0 6 two letters)
linked_read_all_example =
    linked_read_all mapped counting all_mapped false letters 100 8 (omega arith) {s = two}
      two-IsValid (omega arith) refl (omega arith)

abbrev first : Segment
first = record { length = 4; contents = 65 ∷ 66 ∷ 67 ∷ 68 ∷ [] }

abbrev second : Segment
second = record { length = 2; contents = 69 ∷ 70 ∷ 0 ∷ 0 ∷ [] }

linked_read_short_loses_example :
    (linked_read mapped counting false letters 100 3 0 two
      ≡ got 3 4 two (write_bytes letters 100 (65 ∷ 66 ∷ 67 ∷ [])))
    × (linked_read mapped counting false letters 100 3 4 two
        ≡ served letters 100 3 4 two (second ∷ []))
linked_read_short_loses_example =
    linked_read_short_loses mapped counting all_mapped false letters 100 3 (omega arith) {s = two}
      two-IsValid (omega arith) refl [] first (second ∷ []) refl (omega arith)

ordinary :
    (k : ℕ) → k < 6 → is_clear (fill (chunk mapped counting always never letters 0 6 k)) ≡ false
unfolding is_clear fill read_bytes
ordinary zero h = refl
ordinary (suc zero) h = refl
ordinary (suc (suc zero)) h = refl
ordinary (suc (suc (suc zero))) h = refl
ordinary (suc (suc (suc (suc zero)))) h = refl
ordinary (suc (suc (suc (suc (suc zero))))) h = refl
ordinary (suc (suc (suc (suc (suc (suc k)))))) h = absurd (omega arith)

smooth : Smooth mapped counting always never letters 0 6 0
smooth = record {
  given = λ k. refl;
  copied = λ a n. refl;
  locked = λ k h. cc;
  no_command = ordinary;
}

linked_write_then_read_example :
    (c : Call ℕ) × (linked_write mapped counting always never letters 0 6 6 two ≡ some c)
    × (linked_read mapped counting false letters 100 20 0 c.device
        ≡ got 12 12 c.device
            (write_bytes letters 100 (stream two.buffer ++ read_bytes letters 0 6)))
linked_write_then_read_example =
    linked_write_then_read mapped counting always never letters 0 6 two smooth 6 false letters 100
      20 two-IsValid (omega arith) (omega arith) (omega arith) all_mapped 1 refl

-- Instances of the interfaces to the locks of the four copies. A mutex that a pending signal keeps from being taken.
abbrev mutex_lock : Bool → ℕ → ℕ × ℕ
mutex_lock signal l = if signal then (4, l) else (0, l + 1)

leave-mutex_lock :
    (signal : Bool) (l : ℕ) → (mutex_lock signal l).0 ≡ 0 → leave (mutex_lock signal l).1 ≡ l
leave-mutex_lock signal l h = ground arith

abbrev mutex : MutexApi
mutex = record {
  Mutex = ℕ;
  mutex_lock_interruptible = mutex_lock;
  mutex_unlock = leave;
  lock_unlock = leave-mutex_lock;
}

abbrev rwsem : RwsemApi
rwsem = record {
  Rwsem = ℕ;
  down_read = enter;
  up_read = leave;
  down_write = enter;
  up_write = leave;
  up-down_read = leave-enter;
  up-down_write = leave-enter;
}

abbrev rwlock : RwlockApi
rwlock = record {
  Rwlock = ℕ;
  read_lock = enter;
  read_unlock = leave;
  write_lock = enter;
  write_unlock = leave;
  read_unlock-read_lock = leave-enter;
  write_unlock-write_lock = leave-enter;
}

abbrev rcu : RcuApi
rcu = record {
  Rcu = ℕ;
  rcu_read_lock = enter;
  rcu_read_unlock = leave;
  spin_lock_irqsave = enter;
  spin_unlock_irqrestore = leave;
  synchronize_rcu = λ l. l;
  rcu_unlock-lock = leave-enter;
  spin_unlock-lock = leave-enter;
  synchronize_rcu_lem = λ l. refl;
}

copies_agree_example :
    let read = linked_read mapped unlocked false letters 100 8 0 (bare two) in
    let write = linked_write mapped unlocked always never letters 100 8 0 (bare two) in
    (Semaphore.linked_read rwsem mapped true letters 100 8 0 two ≡ with_lock 0 read)
    × (Spinlock.linked_read rwlock mapped true letters 100 8 0 two ≡ with_lock 0 read)
    × (Rcu.linked_read rcu mapped true letters 100 8 0 two ≡ with_lock 0 read)
    × (Semaphore.linked_write rwsem mapped always never letters 100 8 0 two
        ≡ ended_with_lock 0 write)
    × (Spinlock.linked_write rwlock mapped always never letters 100 8 0 two
        ≡ ended_with_lock 0 write)
    × (Rcu.linked_write rcu mapped always never letters 100 8 0 two ≡ ended_with_lock 0 write)
copies_agree_example =
    copies_agree mapped rwsem rwlock rcu two two two (bare two) true always never letters 100 8 0
      refl refl refl
