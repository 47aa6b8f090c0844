-- ===== src/Monitor/Bounded/Contract.antt =====
-- What the threads of Classes1/Task2.c rely on of their buffer, for the buffer of that program.
use agh_systems_programming.Common.{ℕ, ◌+◌, ◌<◌, ◌≤◌, ◌≡◌, true, false, length, arith}
use agh_systems_programming.Monitor.{Role, reader, writer}
use agh_systems_programming.Monitor.Invariant.{Laws}
use agh_systems_programming.Monitor.Progress.{Accounts}
use agh_systems_programming.Monitor.Ring.{take_item, put_item, ConcurrentBuffer}
use agh_systems_programming.Monitor.Ring.Order.{
  Fits, contents, take_item-Fits, take_item-contents, put_item-Fits, put_item-contents,
}
use agh_systems_programming.Monitor.Bounded.{
  protocol, blocked, read_from_concurrent_buffer, write_to_concurrent_buffer,
}

pub any_item : (b : ConcurrentBuffer) → blocked reader b ≡ false → 0 < b.number_items
any_item b h = ground arith

pub room : (b : ConcurrentBuffer) → Fits b → blocked writer b ≡ false → b.number_items < b.size
room b fits h = ground (arith, fits.full)

-- A reader ends what a writer waits for only in a full buffer, and broadcasts there.
pub read-blocked :
    (r : Role) (b : ConcurrentBuffer)
    → blocked reader b ≡ false
    → (read_from_concurrent_buffer b).2 ≡ false
    → blocked r b ≡ true
    → blocked r (read_from_concurrent_buffer b).1 ≡ true
read-blocked reader b h quiet stuck = absurd (ground arith)
read-blocked writer b h quiet stuck = absurd (ground arith)

pub write-blocked :
    (r : Role) (v : ℕ) (b : ConcurrentBuffer)
    → blocked writer b ≡ false
    → (write_to_concurrent_buffer v b).1 ≡ false
    → blocked r b ≡ true
    → blocked r (write_to_concurrent_buffer v b).0 ≡ true
write-blocked reader v b h quiet stuck = absurd (ground arith)
write-blocked writer v b h quiet stuck = absurd (ground arith)

-- The number of items at which a role waits.
abbrev pub awaited : Role → ConcurrentBuffer → ℕ
awaited reader b = 0
awaited writer b = b.size

pub blocked-awaited :
    (r : Role) (b : ConcurrentBuffer) → blocked r b ≡ true → b.number_items ≡ awaited r b
blocked-awaited reader b h = ground arith
blocked-awaited writer b h = ground arith

pub Fits-points :
    (b : ConcurrentBuffer)
    → Fits b
    → (b.reading_point < length b.values)
      × (b.writing_point < length b.values)
      × (b.number_items ≤ length b.values)
Fits-points b fits = (
  omega (arith, fits.inside, fits.block),
  ground (arith, fits.behind, fits.inside, fits.full, fits.block),
  omega (arith, fits.full, fits.block),
)

abbrev pub laws : Laws protocol
laws = record {
  Fit = Fits;
  contents = contents;
  read-Fit = λ b fits h. take_item-Fits b fits (any_item b h);
  write-Fit = λ v b fits h. put_item-Fits b fits v (room b fits h);
  read-contents = λ b fits h. take_item-contents b fits (any_item b h);
  write-contents = λ v b fits h. put_item-contents b fits v (room b fits h);
  read-blocked = λ r b fits. read-blocked r b;
  write-blocked = λ r v b fits. write-blocked r v b;
}

-- Items and writes left make up the reads left.
abbrev pub Even : ConcurrentBuffer → (writes reads : ℕ) → Type 0
Even b writes reads = b.number_items + writes ≡ reads

pub read-Even :
    (b : ConcurrentBuffer) (writes reads : ℕ)
    → blocked reader b ≡ false
    → Even b writes (reads + 1)
    → Even (read_from_concurrent_buffer b).1 writes reads
unfolding take_item
read-Even b writes reads h e = omega (arith, any_item b h)

pub write-Even :
    (v : ℕ) (b : ConcurrentBuffer) (writes reads : ℕ)
    → Even b (writes + 1) reads
    → Even (write_to_concurrent_buffer v b).0 writes reads
unfolding put_item
write-Even v b writes reads e = omega arith

pub drained :
    (b : ConcurrentBuffer) (reads : ℕ) → blocked reader b ≡ true → Even b 0 reads → reads ≡ 0
drained b reads h e = omega (arith, blocked-awaited reader b h)

pub exclusive : (b : ConcurrentBuffer) → Fits b → blocked reader b ≡ true → blocked writer b ≡ false
exclusive b fits h = ground (arith, fits.inside)

pub filled : (b : ConcurrentBuffer) (writes : ℕ) → Even b writes 0 → writes ≡ 0
filled b writes e = omega arith

abbrev pub accounts : Accounts laws
accounts = record {
  Account = Even;
  read-Account = λ b writes reads fits. read-Even b writes reads;
  write-Account = λ v b writes reads fits h. write-Even v b writes reads;
  drained = λ b reads fits. drained b reads;
  filled = λ b writes fits h e. filled b writes e;
  exclusive = exclusive;
}
