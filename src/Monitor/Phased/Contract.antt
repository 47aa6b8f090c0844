-- ===== src/Monitor/Phased/Contract.antt =====
-- What the threads of Classes1/Task6.c rely on of their buffer, for the buffer of that program.
use agh_systems_programming.Common.{
  zero, suc, ℕ_discrete, ℕ, ◌+◌, ◌-◌, ◌*◌, ◌<◌, ◌≡◌, ◌⊎◌, inl, inr, refl, ◌∙◌, List, true, false,
  if◌then◌else◌, length, arith,
}
use native.Mathlib.Nat.{zero-mul, suc-mul}
use agh_systems_programming.Monitor.{Role, reader, writer}
use agh_systems_programming.Monitor.Invariant.{Laws}
use agh_systems_programming.Monitor.Progress.{Accounts}
use agh_systems_programming.Monitor.Ring.{take_item, put_item}
use agh_systems_programming.Monitor.Ring.Order.{
  Fits, contents, allocate_buffer-Fits, take_item-Fits, take_item-contents, put_item-Fits,
  put_item-contents,
}
use agh_systems_programming.Monitor.Phased.{
  PhasedBuffer, allocate_buffer, protocol, blocked, read_from_concurrent_buffer,
  write_to_concurrent_buffer,
}

-- The ring is fit; when it is time to read there is an item, else there is room for one.
pub record InPhase (b : PhasedBuffer) : Type 0 where
  pub fits : Fits b.ring
  pub some_left : b.reading_time ≡ true → 0 < b.ring.number_items
  pub some_room : b.reading_time ≡ false → b.ring.number_items < b.ring.size

module _ (b : PhasedBuffer) (h : InPhase b) where
  pub any_item : blocked reader b ≡ false → 0 < b.ring.number_items
  any_item passed = h.some_left (ground arith)

  pub read-InPhase : blocked reader b ≡ false → InPhase (read_from_concurrent_buffer b).1
  unfolding take_item
  read-InPhase passed = record {
    fits = take_item-Fits b.ring h.fits (any_item passed);
    some_left = λ e. ground (arith, any_item passed);
    some_room = λ e. ground (arith, any_item passed, h.fits.full);
  }

  pub write-InPhase :
      (v : ℕ) → blocked writer b ≡ false → InPhase (write_to_concurrent_buffer v b).0
  unfolding put_item
  write-InPhase v passed = record {
    fits = put_item-Fits b.ring h.fits v (h.some_room passed);
    some_left = λ e. ground arith;
    some_room = λ e. ground (arith, h.some_room passed);
  }

pub read-blocked :
    (r : Role) (b : PhasedBuffer)
    → blocked reader b ≡ false
    → (read_from_concurrent_buffer b).2 ≡ false
    → blocked r b ≡ true
    → blocked r (read_from_concurrent_buffer b).1 ≡ true
read-blocked reader b h quiet stuck = ground arith
read-blocked writer b h quiet stuck = ground arith

pub write-blocked :
    (r : Role) (v : ℕ) (b : PhasedBuffer)
    → blocked writer b ≡ false
    → (write_to_concurrent_buffer v b).1 ≡ false
    → blocked r b ≡ true
    → blocked r (write_to_concurrent_buffer v b).0 ≡ true
write-blocked reader v b h quiet stuck = ground arith
write-blocked writer v b h quiet stuck = ground arith

abbrev pub laws : Laws protocol
laws = record {
  Fit = InPhase;
  contents = λ b. contents b.ring;
  read-Fit = read-InPhase;
  write-Fit = λ v b fit. write-InPhase b fit v;
  read-contents = λ b fit h. take_item-contents b.ring fit.fits (any_item b fit h);
  write-contents = λ v b fit h. put_item-contents b.ring fit.fits v (fit.some_room h);
  read-blocked = λ r b fit. read-blocked r b;
  write-blocked = λ r v b fit. write-blocked r v b;
}

pub allocate_buffer-InPhase :
    (size : ℕ) (block : List ℕ)
    → 0 < size
    → length block ≡ size
    → InPhase (allocate_buffer size block)
allocate_buffer-InPhase size block pos h = record {
  fits = allocate_buffer-Fits size block pos h;
  some_left = λ e. absurd (ground arith);
  some_room = λ e. pos;
}

-- Items and writes left make up the reads left, and fill the buffer a whole number of times, where
-- the items that are being read do not count.
abbrev pub Whole : PhasedBuffer → (writes reads : ℕ) → Type 0
Whole b writes reads =
    (b.ring.number_items + writes ≡ reads)
    × (k : ℕ) × ((if b.reading_time then writes else b.ring.number_items + writes)
        ≡ k * b.ring.size)

-- A number of items below the size that fills the buffer a whole number of times is 0.
no_part : (k n size : ℕ) → n < size → n ≡ k * size → n ≡ 0
no_part zero n size small e = e ∙ zero-mul size
no_part (suc k) n size small e = absurd (omega (arith, suc-mul k size))

-- A full buffer counts once.
one_less : (k n size : ℕ) → 0 < size → size + n ≡ k * size → (j : ℕ) × (n ≡ j * size)
one_less zero n size pos e = absurd (omega (arith, zero-mul size))
one_less (suc k) n size pos e = (k, omega (arith, suc-mul k size))

pub read-Whole :
    (b : PhasedBuffer) (writes reads : ℕ)
    → InPhase b
    → blocked reader b ≡ false
    → Whole b writes (reads + 1)
    → Whole (read_from_concurrent_buffer b).1 writes reads
unfolding take_item
read-Whole b writes reads h passed (sum, k, whole) =
    let left = any_item b h passed in (omega (arith, left), k, ground (arith, left))

pub write-Whole :
    (v : ℕ) (b : PhasedBuffer) (writes reads : ℕ)
    → InPhase b
    → blocked writer b ≡ false
    → Whole b (writes + 1) reads
    → Whole (write_to_concurrent_buffer v b).0 writes reads
unfolding put_item
write-Whole v b writes reads h passed (sum, k, whole) =
    let room = h.some_room passed in
    let total : b.ring.number_items + (writes + 1) ≡ k * b.ring.size = ground arith in
    elim (ℕ_discrete b.ring.number_items (b.ring.size - 1)) [
      | yes last ↦
          let (j, fewer) = one_less k writes b.ring.size (omega arith) (omega arith) in
          (omega arith, j, ground arith)
      | no more ↦ (omega arith, k, ground arith)
    ]

pub drained :
    (b : PhasedBuffer) (reads : ℕ)
    → InPhase b
    → blocked reader b ≡ true
    → Whole b 0 reads
    → reads ≡ 0
drained b reads h stays (sum, k, whole) =
    let off : b.reading_time ≡ false = ground arith in
    let total : b.ring.number_items ≡ k * b.ring.size = ground arith in
    omega (arith, no_part k b.ring.number_items b.ring.size (h.some_room off) total)

pub filled : (b : PhasedBuffer) (writes : ℕ) → Whole b writes 0 → writes ≡ 0
filled b writes (sum, k, whole) = omega arith

pub exclusive : (b : PhasedBuffer) → blocked reader b ≡ true → blocked writer b ≡ false
exclusive b h = ground arith

abbrev pub accounts : Accounts laws
accounts = record {
  Account = Whole;
  read-Account = read-Whole;
  write-Account = write-Whole;
  drained = drained;
  filled = λ b writes fit h. filled b writes;
  exclusive = λ b fit. exclusive b;
}

pub blocked-phase :
    (r : Role) (b : PhasedBuffer)
    → InPhase b
    → blocked r b ≡ true
    → ((r ≡ reader) × (b.reading_time ≡ false) × (b.ring.number_items < b.ring.size))
      ⊎ ((r ≡ writer) × (b.reading_time ≡ true) × (0 < b.ring.number_items))
blocked-phase reader b h stays =
    let off : b.reading_time ≡ false = ground arith in inl (refl, off, h.some_room off)
blocked-phase writer b h stays = inr (refl, stays, h.some_left stays)
