-- ===== src/Linked/Agreement.antt =====
-- The copies of Classes5/linked_buffer with semaphore, spinlock and RCU against each other.
use agh_systems_programming.Common.{ℕ, ◌≡◌, Bool, false}
use agh_systems_programming.Common.User.{Memory, UserAccess}
use agh_systems_programming.Linked.{Device, linked_read, linked_write}
use agh_systems_programming.Linked.Copies.{unlocked, bare, with_lock, ended_with_lock}
use agh_systems_programming.Linked.Semaphore
use agh_systems_programming.Linked.Semaphore.{RwsemApi}
use agh_systems_programming.Linked.Spinlock
use agh_systems_programming.Linked.Spinlock.{RwlockApi}
use agh_systems_programming.Linked.Rcu
use agh_systems_programming.Linked.Rcu.{RcuApi}

-- Calls of the copies with semaphore, spinlock and RCU with the same arguments, on globals that are the
-- same but for the lock: each read, and each write, gives what the driver without any lock gives, with
-- the lock given back, so that all three have the same result, file position, user memory, and globals
-- but for the lock, whatever signals come.
pub copies_agree :
    (user : UserAccess) (rwsem : RwsemApi) (rwlock : RwlockApi) (rcu : RcuApi)
    (a : Device rwsem.Rwsem) (b : Device rwlock.Rwlock) (c : Device rcu.Rcu) (s : Device (Unit {0}))
    (signal : Bool) (kzalloc signals : ℕ → Bool) (m : Memory) (user_buf count f_pos : ℕ)
    → bare a ≡ s
    → bare b ≡ s
    → bare c ≡ s
    → let read = linked_read user unlocked false m user_buf count f_pos s in
      let write = linked_write user unlocked kzalloc (λ i. false) m user_buf count f_pos s in
      (Semaphore.linked_read rwsem user signal m user_buf count f_pos a ≡ with_lock a.lock read)
      × (Spinlock.linked_read rwlock user signal m user_buf count f_pos b ≡ with_lock b.lock read)
      × (Rcu.linked_read rcu user signal m user_buf count f_pos c ≡ with_lock c.lock read)
      × (Semaphore.linked_write rwsem user kzalloc signals m user_buf count f_pos a
          ≡ ended_with_lock a.lock write)
      × (Spinlock.linked_write rwlock user kzalloc signals m user_buf count f_pos b
          ≡ ended_with_lock b.lock write)
      × (Rcu.linked_write rcu user kzalloc signals m user_buf count f_pos c
          ≡ ended_with_lock c.lock write)
copies_agree user rwsem rwlock rcu a b c s signal kzalloc signals m user_buf count f_pos ea eb ec =
    (
      rw ea at (Semaphore.linked_read-unlocked rwsem user signal m user_buf count f_pos a),
      rw eb at (Spinlock.linked_read-unlocked rwlock user signal m user_buf count f_pos b),
      rw ec at (Rcu.linked_read-unlocked rcu user signal m user_buf count f_pos c),
      rw ea at
          (Semaphore.linked_write-unlocked rwsem user kzalloc signals m user_buf count f_pos a),
      rw eb at
          (Spinlock.linked_write-unlocked rwlock user kzalloc signals m user_buf count f_pos b),
      rw ec at (Rcu.linked_write-unlocked rcu user kzalloc signals m user_buf count f_pos c),
    )
