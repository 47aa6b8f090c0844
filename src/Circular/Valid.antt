-- ===== src/Circular/Valid.antt =====
-- What holds of the globals of circular.c between two calls, once the module is loaded.
use agh_systems_programming.Common.{
  ℕ, ◌+◌, ◌-◌, ◌%◌, ◌≤◌, ◌<◌, ◌≡◌, refl, some, List, [], ◌∷◌, arith, length, get_elem?, set,
  length-set, get_elem?-set_ne,
}
use agh_systems_programming.Common.Outcome.{done, store_bytes}
use agh_systems_programming.Circular.{Device, wrap}

-- The block has the size that `buff_size` says, the write position stays off its last byte, and
-- that byte is the terminator.
pub record IsValid (d : Device) : Type 0 where
  pub big : 2 ≤ d.buff_size
  pub block : length d.buffer ≡ d.buff_size
  pub inside : d.curr_position + 1 < d.buff_size
  pub ended : get_elem? d.buffer (d.buff_size - 1) ≡ some 0

-- The buffer with one copied byte in it, or none.
abbrev pub landed : Device → List ℕ → List ℕ
landed d [] = d.buffer
landed d (x ∷ _) = set d.buffer d.curr_position x

abbrev pub advance : Device → List ℕ → Device
advance d bytes = record d {
  buffer = landed d bytes;
  curr_position = (d.curr_position + 1) % (d.buff_size - 1);
}

module _ {d : Device} (v : IsValid d) where
  pub store_landed :
      (bytes : List ℕ)
      → length bytes ≤ 1
      → store_bytes d.buffer d.curr_position bytes ≡ done (landed d bytes)
  store_landed [] h = refl
  store_landed (x ∷ []) h = ground arith
  store_landed (x ∷ y ∷ bytes) h = absurd (omega arith)

  pub landed-IsValid : (bytes : List ℕ) → IsValid (record d { buffer = landed d bytes })
  landed-IsValid [] = v
  landed-IsValid (x ∷ _) = ground (
    arith,
    length-set d.buffer d.curr_position x,
    get_elem?-set_ne d.buffer d.curr_position (d.buff_size - 1) x,
  )

  pub advance-IsValid : (bytes : List ℕ) → IsValid (advance d bytes)
  advance-IsValid bytes = ground (arith, landed-IsValid bytes)

  pub wrap-inside : (p : ℕ) → wrap p d.buff_size ≡ done (p % (d.buff_size - 1))
  unfolding wrap
  wrap-inside p = ground arith
