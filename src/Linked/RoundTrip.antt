-- ===== src/Linked/RoundTrip.antt =====
-- What one process writes to the linked buffer, another reads.
use agh_systems_programming.Common.{
  ℕ, ◌+◌, ◌-◌, ◌^◌, ◌≤◌, ◌<◌, ◌≡◌, ◌≢◌, ap, List, ◌++◌, arith, length, length-append, min, Bool,
  true, false, some, none,
}
use native.Mathlib.Nat.{add-zero, sub-zero}
use agh_systems_programming.Common.Outcome.{Errno, ok, u64}
use agh_systems_programming.Common.User.{
  Memory, UserAccess, write_bytes, read_bytes, length-read_bytes,
}
use agh_systems_programming.Linked.{Device, Call, is_clear, linked_read, linked_write}
use agh_systems_programming.Linked.Locks.{Locking}
use agh_systems_programming.Linked.Segments.{internal_size, fill, size, stream, length-stream}
use agh_systems_programming.Linked.Valid.{IsValid}
use agh_systems_programming.Linked.Write.{
  chunk, Cause, no_memory, bad_copy, interrupted, Ending, finished, stopped, cleared,
  linked_write_lem,
}
use agh_systems_programming.Linked.Reader.{got, linked_read_all}

-- Nothing goes wrong in a write of the `count` bytes at `user_buf`: blocks are given, copies
-- succeed, the lock is got, and no round's bytes are the command to clear.
pub record Smooth (user : UserAccess) (locking : Locking) (kzalloc signal : ℕ → Bool) (m : Memory)
    (user_buf count : ℕ) (l : Locking.Lock locking) : Type 0 where
  pub given : (k : ℕ) → kzalloc k ≡ true
  pub copied : (a n : ℕ) → (user.copy_from_user m a n).0 ≡ 0
  pub locked : (k : ℕ) → locking.write_lock (signal k) l ≢ none
  pub no_command :
      (k : ℕ)
      → k < count
      → is_clear (fill (chunk user locking kzalloc signal m user_buf count k)) ≡ false

module _ (user : UserAccess) (locking : Locking) (kzalloc signal : ℕ → Bool) (m : Memory)
    (user_buf count : ℕ) (s : Device (Locking.Lock locking))
    (smooth : Smooth user locking kzalloc signal m user_buf count s.lock) where
  no_Cause : (k : ℕ) (e : Errno) → ¬ Cause user locking kzalloc signal m user_buf count s.lock k e
  no_Cause k e (no_memory _ h) = let given = smooth.given k in cc
  no_Cause k e (bad_copy _ h) = h (smooth.copied (user_buf + k) (min internal_size (count - k)))
  no_Cause k e (interrupted _ h) = smooth.locked k h

  -- All of it is written.
  abbrev Done : ℕ → Call (Locking.Lock locking) → Type 0
  Done f_pos c =
      (c.ret ≡ ok count)
      × (stream c.device.buffer ≡ stream s.buffer ++ read_bytes m user_buf count)
      × (c.f_pos ≡ u64 (f_pos + count))
      × (c.device.write_count ≡ u64 (s.write_count + 1))

  Ending-Done :
      (f_pos : ℕ) (c : Call (Locking.Lock locking))
      → Ending user locking kzalloc signal m user_buf count 0 f_pos s c
      → Done f_pos c
  Ending-Done f_pos c (finished r w g) =
      (r, rw (add-zero, sub-zero) at g.bytes, rw sub-zero at g.position, w)
  Ending-Done f_pos c (stopped e n r w lt cause g) = absurd (no_Cause (0 + n) e cause)
  Ending-Done f_pos c (cleared n r w lt command b p) =
      let ordinary = smooth.no_command (0 + n) lt in cc

  -- A write that nothing goes wrong with returns `count`, appends all its bytes to the stream, moves
  -- the position by them and is counted; the globals stay valid and the lock is given back.
  pub linked_write_appends :
      (f_pos : ℕ)
      → IsValid s
      → f_pos < 2 ^ 64
      → (c : Call (Locking.Lock locking)) × (linked_write user locking kzalloc signal m user_buf
            count f_pos s
          ≡ some c)
        × Done f_pos c
        × IsValid c.device
        × (c.device.lock ≡ s.lock)
  linked_write_appends f_pos v small =
      let (c, e, left) =
        linked_write_lem user locking kzalloc signal m user_buf count f_pos v small in
      (c, e, Ending-Done f_pos c left.ending, left.valid, left.unlocked)

  -- From valid globals, what was in the list and the bytes written behind it are read back: after a write that nothing
  -- goes wrong with, a read from position 0 with enough room, with the lock got and the reader's
  -- memory mapped (and position and room below 2 ^ 64), returns the number of all these bytes and puts them, in order, into the reader's
  -- memory, and leaves the position behind them.
  pub linked_write_then_read :
      (f_pos : ℕ) (sig : Bool) (m₂ : Memory) (user_buf₂ count₂ : ℕ)
      → IsValid s
      → f_pos < 2 ^ 64
      → count₂ < 2 ^ 64
      → size s.buffer + count ≤ count₂
      → ((m' : Memory) (a : ℕ) (xs : List ℕ) → (user.copy_to_user m' a xs).0 ≡ 0)
      → (l : Locking.Lock locking) → locking.read_lock sig s.lock ≡ some l
      → (c : Call (Locking.Lock locking)) × (linked_write user locking kzalloc signal m user_buf
            count f_pos s
          ≡ some c)
        × (linked_read user locking sig m₂ user_buf₂ count₂ 0 c.device
            ≡ got
                (size s.buffer + count)
                (size s.buffer + count)
                c.device
                (write_bytes m₂ user_buf₂ (stream s.buffer ++ read_bytes m user_buf count)))
  linked_write_then_read f_pos sig m₂ user_buf₂ count₂ v small₁ small₂ room mapped l taken =
      let (c, e, done, valid, unlocked) = linked_write_appends f_pos v small₁ in
      let n : size c.device.buffer ≡ size s.buffer + count = omega (
        arith,
        length-stream c.device.buffer valid.segments,
        length-stream s.buffer v.segments,
        length-read_bytes m user_buf count,
        ap length done.1,
        length-append (stream s.buffer) (read_bytes m user_buf count),
      ) in
      let read =
        (linked_read_all user locking mapped sig m₂ user_buf₂ count₂ small₂ valid (omega arith)
          {l = l} (rw unlocked taken) (omega arith)).0 in
      (c, e, rw (n, done.1) at read)
