-- ===== src/Linked/Segments.antt =====
-- The entries of the list (`struct data`), and the bytes that a list of them stands for.
use agh_systems_programming.Common.{
  ℕ, ◌+◌, ◌≤◌, ◌<◌, ◌≡◌, refl, List, [], ◌∷◌, ◌++◌, append_assoc, arith, length, take, replicate,
  length-append, length-take,
}

abbrev pub internal_size : ℕ
internal_size = 4

-- `struct data`: `contents` has `internal_size` bytes, of which the first `length` count.
pub record Segment : Type 0 where
  pub length : ℕ
  pub contents : List ℕ

-- Bytes copied into a block that `kzalloc` filled with zeros.
unfoldable pub fill : List ℕ → List ℕ
fill bytes = take internal_size (bytes ++ replicate internal_size 0)

-- The number of bytes in a list of segments.
abbrev pub size : List Segment → ℕ
size [] = 0
size (d ∷ ds) = d.length + size ds

-- The bytes themselves.
abbrev pub stream : List Segment → List ℕ
stream [] = []
stream (d ∷ ds) = take d.length d.contents ++ stream ds

-- An entry as `linked_write` makes it.
pub record IsSegment (d : Segment) : Type 0 where
  pub nonempty : 0 < d.length
  pub fits : d.length ≤ internal_size
  pub block : length d.contents ≡ internal_size

abbrev pub AllSegments : List Segment → Type 0
AllSegments [] = Unit {0}
AllSegments (d ∷ ds) = IsSegment d × AllSegments ds

pub AllSegments-append :
    (xs ys : List Segment) → AllSegments xs → AllSegments ys → AllSegments (xs ++ ys)
AllSegments-append [] ys a b = b
AllSegments-append (x ∷ xs) ys a b = (a.0, AllSegments-append xs ys a.1 b)

pub size-append : (xs ys : List Segment) → size (xs ++ ys) ≡ size xs + size ys
size-append [] ys = omega arith
size-append (x ∷ xs) ys = omega (arith, size-append xs ys)

pub stream-append : (xs ys : List Segment) → stream (xs ++ ys) ≡ stream xs ++ stream ys
stream-append [] ys = refl
stream-append (x ∷ xs) ys = rw (stream-append xs ys, append_assoc)

pub length-stream : (xs : List Segment) → AllSegments xs → length (stream xs) ≡ size xs
length-stream [] a = refl
length-stream (x ∷ xs) a = omega (
  arith,
  length-append (take x.length x.contents) (stream xs),
  length-take x.length x.contents,
  length-stream xs a.1,
  a.0.fits,
  a.0.block,
)

pub AllSegments-prefix :
    (xs ys : List Segment) → AllSegments (xs ++ ys) → AllSegments xs × AllSegments ys
AllSegments-prefix [] ys a = (tt, a)
AllSegments-prefix (x ∷ xs) ys a =
    let (front, back) = AllSegments-prefix xs ys a.1 in ((a.0, front), back)
