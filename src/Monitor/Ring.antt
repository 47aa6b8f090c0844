-- ===== src/Monitor/Ring.antt =====
-- The buffer that Classes1/Task2.c and Classes1/Task6.c have in common: `concurrent_buffer` but for
-- the mutex, the condition variable and the flag of Task6.
pub mod Order
use agh_systems_programming.Common.{ℕ, ◌+◌, ◌-◌, ◌%◌, List, get_or, set}

-- `values` is the field `data`.
pub record ConcurrentBuffer : Type 0 where
  pub size : ℕ
  pub number_items : ℕ
  pub reading_point : ℕ
  pub writing_point : ℕ
  pub values : List ℕ

-- `block` is what `malloc` gives; the code does not ask whether it gave one.
abbrev pub allocate_buffer : (size : ℕ) → List ℕ → ConcurrentBuffer
allocate_buffer size block = record {
  size = size;
  number_items = 0;
  reading_point = 0;
  writing_point = 0;
  values = block;
}

-- The work of `read_from_concurrent_buffer`, and the value it prints.
unfoldable pub take_item : ConcurrentBuffer → ℕ × ConcurrentBuffer
take_item b = (
  get_or b.values b.reading_point 0,
  record b { number_items = b.number_items - 1; reading_point = (b.reading_point + 1) % b.size },
)

-- The work of `write_to_concurrent_buffer`; `val` is what `rand` gives.
unfoldable pub put_item : (val : ℕ) → ConcurrentBuffer → ConcurrentBuffer
put_item val b = record b {
  number_items = b.number_items + 1;
  values = set b.values b.writing_point val;
  writing_point = (b.writing_point + 1) % b.size;
}
