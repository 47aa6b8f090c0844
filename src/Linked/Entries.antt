-- ===== src/Linked/Entries.antt =====
-- Which entries a read reaches, and how far it moves the position.
use agh_systems_programming.Common.{
  ℕ, ◌+◌, ◌-◌, ◌≤◌, ◌<◌, ◌≡◌, refl, ◌∙◌, List, [], ◌∷◌, ◌++◌, arith, length, take, append-nil, ltb,
  leb, if◌then◌else◌, take-append, take-take, take_all, length-take,
}
use agh_systems_programming.Linked.Segments.{Segment, size, stream, IsSegment, AllSegments}

-- The entries from the first one on that starts at the position asked for, or behind it; `pos` is
-- where the list starts.
unfoldable pub skip : (pos f_pos : ℕ) → List Segment → List Segment
skip pos f_pos [] = []
skip pos f_pos (d ∷ ds) = if ltb pos f_pos then skip (pos + d.length) f_pos ds else d ∷ ds

-- The bytes of all the entries that a read of `want` bytes reaches, the last one whole.
unfoldable pub touched : (want : ℕ) → List Segment → ℕ
touched want [] = 0
touched want (d ∷ ds) = d.length + (if leb want d.length then 0 else touched (want - d.length) ds)

pub skip-nil : (pos f_pos : ℕ) → skip pos f_pos [] ≡ []
unfolding skip
skip-nil pos f_pos = refl

pub skip-before :
    {pos f_pos : ℕ} (d : Segment) (ds : List Segment)
    → pos < f_pos
    → skip pos f_pos (d ∷ ds) ≡ skip (pos + d.length) f_pos ds
unfolding skip
skip-before d ds h = ground arith

pub skip-at : {pos f_pos : ℕ} (ds : List Segment) → f_pos ≤ pos → skip pos f_pos ds ≡ ds
unfolding skip
skip-at [] h = refl
skip-at (d ∷ ds) h = ground arith

pub touched-nil : (want : ℕ) → touched want [] ≡ 0
unfolding touched
touched-nil want = refl

pub touched-last :
    {want : ℕ} (d : Segment) (ds : List Segment)
    → want ≤ d.length
    → touched want (d ∷ ds) ≡ d.length
unfolding touched
touched-last d ds h = ground arith

pub touched-more :
    {want : ℕ} (d : Segment) (ds : List Segment)
    → d.length < want
    → touched want (d ∷ ds) ≡ d.length + touched (want - d.length) ds
unfolding touched
touched-more d ds h = ground arith

module _ (d : Segment) (ds : List Segment) (g : IsSegment d) where
  -- The bytes of a whole entry.
  pub length-entry : length (take d.length d.contents) ≡ d.length
  length-entry = omega (arith, length-take d.length d.contents, g.fits, g.block)

  pub take-stream_last :
      {want : ℕ} → want ≤ d.length → take want (stream (d ∷ ds)) ≡ take want d.contents
  take-stream_last {want} h =
      let none_left : want - length (take d.length d.contents) ≡ 0 = omega (arith, length-entry) in
      take-append want (take d.length d.contents) (stream ds)
      ∙ rw (none_left, take-take want d.length d.contents h) (append-nil (take want d.contents))

  pub take-stream_more :
      {want : ℕ}
      → d.length ≤ want
      → take want (stream (d ∷ ds)) ≡ take d.length d.contents ++ take (want - d.length) (stream ds)
  take-stream_more {want} h =
      take-append want (take d.length d.contents) (stream ds)
      ∙ rw (length-entry, take_all want (take d.length d.contents) (omega (arith, length-entry)))

pub skip-AllSegments :
    (pos f_pos : ℕ) (ds : List Segment)
    → AllSegments ds
    → AllSegments (skip pos f_pos ds) × (size (skip pos f_pos ds) ≤ size ds)
unfolding skip
skip-AllSegments pos f_pos [] a = (tt, omega arith)
skip-AllSegments pos f_pos (d ∷ ds) a =
    ground (arith, skip-AllSegments (pos + d.length) f_pos ds a.1)
