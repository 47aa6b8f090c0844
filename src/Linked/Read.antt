-- ===== src/Linked/Read.antt =====
-- `linked_read`: which bytes it gives, and where it leaves the position.
use agh_systems_programming.Common.{
  ℕ, ◌+◌, ◌^◌, ◌≤◌, ◌<◌, ◌≡◌, ◌∙◌, List, arith, ◌⊎◌, take, min, Bool, false, some, Option-cases,
  inl, inr, ltb,
}
use native.Mathlib.Nat.{add-zero, zero-add, sub-zero}
use agh_systems_programming.Common.Outcome.{Errno, ok, error, u64}
use agh_systems_programming.Common.User.{Memory, UserAccess, write_bytes}
use agh_systems_programming.Linked.{Device, Call, Reading, linked_read}
use agh_systems_programming.Linked.Locks.{Locking}
use agh_systems_programming.Linked.Segments.{Segment, size, stream}
use agh_systems_programming.Linked.Valid.{IsValid}
use agh_systems_programming.Linked.Entries.{skip, touched, skip-AllSegments}
use agh_systems_programming.Linked.ReadLoop.{loop-skip, loop-after}

-- What a read leaves that finds the lock and mapped user memory: the bytes of the entries `rest`, as
-- far as `count` goes, and the position behind the last entry that it reached.
abbrev pub served :
    {Lock : Type 0} → Memory → (user_buf count f_pos : ℕ) → Device Lock → List Segment → Call Lock
served m user_buf count f_pos s rest = record {
  ret = ok (min count (size rest));
  f_pos = u64 (f_pos + touched count rest);
  device = record s { read_count = u64 (s.read_count + 1) };
  memory = write_bytes m user_buf (take count (stream rest));
}

module _ (user : UserAccess) (locking : Locking)
    (mapped : (m : Memory) (a : ℕ) (xs : List ℕ) → (user.copy_to_user m a xs).0 ≡ 0) (signal : Bool)
    (m : Memory) (user_buf count : ℕ) (small : count < 2 ^ 64) {s : Device (Locking.Lock locking)}
    (v : IsValid s) (fits : size s.buffer < 2 ^ 64) {l : Locking.Lock locking}
    (taken : locking.read_lock signal s.lock ≡ some l) where
  -- On valid globals with less than 2 ^ 64 bytes in the list, if the lock is got, user memory is
  -- mapped and `count` is below 2 ^ 64, a read from a position up to the total length
  -- passes over the entries that start before the position, and gives the bytes of the others up to
  -- `count`. The position moves by the whole length of the entries that were reached, and the read is
  -- counted; the list and the lock stay as they were.
  pub linked_read_lem :
      (f_pos : ℕ)
      → f_pos ≤ s.total_length
      → linked_read user locking signal m user_buf count f_pos s
        ≡ served m user_buf count f_pos s (skip 0 f_pos s.buffer)
  unfolding linked_read
  linked_read_lem f_pos near =
      let start : Reading = record { pos = 0; copied = 0; real_length = 0; memory = m } in
      let (p, e, fits', ready) = loop-skip user user_buf count f_pos s.buffer start (omega arith) in
      let (all, le) = skip-AllSegments 0 f_pos s.buffer v.segments in
      let (p', e') =
        loop-after user user_buf count f_pos mapped (skip 0 f_pos s.buffer)
          (record start { pos = p }) all ready (omega arith) small fits' (omega arith) in
      let back = locking.read_back signal s.lock taken in
      let t : ltb s.total_length f_pos ≡ false = ground arith in
      rw (t, taken, e ∙ e', back) (simp (zero-add, add-zero, sub-zero))

-- Whatever user memory and signals do, and whatever the globals are, a read leaves the list, the
-- length and the lock as it found them. If it fails, nothing but user memory has changed; and if it
-- changes the globals at all, then by counting one read.
pub linked_read_frame :
    (user : UserAccess) (locking : Locking) (signal : Bool) (m : Memory) (user_buf count f_pos : ℕ)
    (s : Device (Locking.Lock locking))
    → let c = linked_read user locking signal m user_buf count f_pos s in
      ((c.device ≡ s) ⊎ (c.device ≡ record s { read_count = u64 (s.read_count + 1) }))
      × ((e : Errno) → c.ret ≡ error e → (c.device ≡ s) × (c.f_pos ≡ f_pos))
unfolding linked_read
linked_read_frame user locking signal m user_buf count f_pos s =
    elim (Option-cases (locking.read_lock signal s.lock)) [
      | inl busy ↦ (ground arith, λ e h. ground arith)
      | inr (l, taken) ↦
          let back = locking.read_back signal s.lock taken in (ground arith, λ e h. ground arith)
    ]
