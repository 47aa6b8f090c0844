-- ===== src/Linked/Valid.antt =====
-- What holds of the globals of a linked-buffer driver between two calls.
use agh_systems_programming.Common.{
  ℕ, ◌-◌, ◌≤◌, ◌≡◌, refl, List, [], ◌∷◌, ◌++◌, arith, length, length-append, drop, take, replicate,
  length-take,
}
use agh_systems_programming.Common.Outcome.{u64}
use agh_systems_programming.Linked.{Device, clean_loop, clean_list}
use agh_systems_programming.Linked.Segments.{Segment, internal_size, fill, size, AllSegments}

-- Every entry is as `linked_write` makes it, `total_length` counts their bytes, and no segment is
-- lost or freed twice.
pub record IsValid {Lock : Type 0} (s : Device Lock) : Type 0 where
  pub segments : AllSegments s.buffer
  pub total : s.total_length ≡ u64 (size s.buffer)
  pub live : s.live ≡ length s.buffer

clean_loop-eq :
    {Lock : Type 0} (xs : List Segment) (s : Device Lock)
    → s.buffer ≡ xs
    → s.live ≡ length xs
    → clean_loop xs s ≡ record s { buffer = []; live = 0 }
unfolding clean_loop
clean_loop-eq [] s b l = ground arith
clean_loop-eq (x ∷ xs) s b l =
    clean_loop-eq xs (record s { buffer = drop 1 s.buffer; live = s.live - 1 }) (ground arith)
      (omega arith)

-- `clean_list` on valid globals empties the list, frees each of its segments once, and changes
-- nothing else but the length.
pub clean_list_lem :
    {Lock : Type 0} (s : Device Lock)
    → IsValid s
    → clean_list s ≡ record s { buffer = []; live = 0; total_length = 0 }
unfolding clean_list
clean_list_lem s v = rw (clean_loop-eq s.buffer s refl v.live)

pub clean_list-IsValid : {Lock : Type 0} (s : Device Lock) → IsValid s → IsValid (clean_list s)
clean_list-IsValid s v =
    rw (clean_list_lem s v) (record { segments = tt; total = refl; live = refl })

-- The segment for up to four bytes.
abbrev pub segment : List ℕ → Segment
segment bytes = record { length = length bytes; contents = fill bytes }

pub take-fill :
    (bytes : List ℕ) → length bytes ≤ internal_size → take (length bytes) (fill bytes) ≡ bytes
unfolding fill
take-fill [] h = refl
take-fill (a ∷ []) h = refl
take-fill (a ∷ b ∷ []) h = refl
take-fill (a ∷ b ∷ c ∷ []) h = refl
take-fill (a ∷ b ∷ c ∷ d ∷ []) h = refl
take-fill (a ∷ b ∷ c ∷ d ∷ e ∷ bytes) h = absurd (omega arith)

pub length-fill : (bytes : List ℕ) → length (fill bytes) ≡ internal_size
unfolding fill
length-fill bytes = omega (
  arith,
  length-take internal_size (bytes ++ replicate internal_size 0),
  length-append bytes (replicate internal_size 0),
)
