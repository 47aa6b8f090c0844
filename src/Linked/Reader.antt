-- ===== src/Linked/Reader.antt =====
-- What a reader of the linked buffer gets by several calls, and what it loses.
use agh_systems_programming.Common.{
  ℕ, ◌+◌, ◌-◌, ◌^◌, ◌≤◌, ◌<◌, ◌≡◌, refl, ◌∙◌, ap, List, [], ◌∷◌, ◌++◌, arith, sym, take, min,
  append_assoc, append-nil, Bool, some, take_all,
}
use agh_systems_programming.Common.Outcome.{ok, u64}
use agh_systems_programming.Common.User.{Memory, UserAccess, write_bytes, write_bytes-nil}
use agh_systems_programming.Linked.{Device, Call, linked_read}
use agh_systems_programming.Linked.Locks.{Locking}
use agh_systems_programming.Linked.Segments.{
  Segment, size, stream, AllSegments, AllSegments-prefix, length-stream, size-append,
}
use agh_systems_programming.Linked.Valid.{IsValid}
use agh_systems_programming.Linked.Read.{served, linked_read_lem}
use agh_systems_programming.Linked.Entries.{
  skip, touched, skip-before, skip-at, touched-last, take-stream_last,
}

-- A position that is the length of a prefix of the list names the entry behind it.
skip-prefix :
    (pos f_pos : ℕ) (pre rest : List Segment)
    → AllSegments pre
    → pos + size pre ≡ f_pos
    → skip pos f_pos (pre ++ rest) ≡ rest
skip-prefix pos f_pos [] rest a e = skip-at {pos = pos} {f_pos = f_pos} rest (omega arith)
skip-prefix pos f_pos (d ∷ pre) rest a e =
    skip-before {pos = pos} {f_pos = f_pos} d (pre ++ rest) (omega (arith, a.0.nonempty))
    ∙ skip-prefix (pos + d.length) f_pos pre rest a.1 (omega arith)

-- A read for at least what is left reaches each entry.
touched_all : (want : ℕ) (ds : List Segment) → size ds ≤ want → touched want ds ≡ size ds
unfolding touched
touched_all want [] h = refl
touched_all want (d ∷ ds) h = ground (arith, touched_all (want - d.length) ds)

-- The globals with one more read counted.
abbrev pub counted : {Lock : Type 0} → Device Lock → Device Lock
counted s = record s { read_count = u64 (s.read_count + 1) }

-- A read that returns `n`.
abbrev pub got : {Lock : Type 0} → (n f_pos : ℕ) → Device Lock → Memory → Call Lock
got n f_pos s m = record { ret = ok n; f_pos = f_pos; device = counted s; memory = m }

module _ (user : UserAccess) (locking : Locking)
    (mapped : (m : Memory) (a : ℕ) (xs : List ℕ) → (user.copy_to_user m a xs).0 ≡ 0) (signal : Bool)
    (m : Memory) (user_buf count : ℕ) (small : count < 2 ^ 64) {s : Device (Locking.Lock locking)}
    (v : IsValid s) (fits : size s.buffer < 2 ^ 64) {l : Locking.Lock locking}
    (taken : locking.read_lock signal s.lock ≡ some l) where
  -- The position in front of the entries `rest`.
  read_at :
      (pre rest : List Segment)
      → s.buffer ≡ pre ++ rest
      → linked_read user locking signal m user_buf count (size pre) s
        ≡ served m user_buf count (size pre) s rest
  read_at pre rest split =
      let all = AllSegments-prefix pre rest (rw split at v.segments) in
      let total = v.total in
      let sizes : size s.buffer ≡ size pre + size rest = ap size split ∙ size-append pre rest in
      linked_read_lem user locking mapped signal m user_buf count small v fits taken (size pre)
        (omega arith)
      ∙ ap (served m user_buf count (size pre) s)
          (ap (skip 0 (size pre)) split ∙ skip-prefix 0 (size pre) pre rest all.0 (omega arith))

  -- From the position in front of the entries `rest`, a read for at least as many bytes as they have
  -- gives all of them.
  read_rest :
      (pre rest : List Segment)
      → s.buffer ≡ pre ++ rest
      → size rest ≤ count
      → linked_read user locking signal m user_buf count (size pre) s
        ≡ got (size rest) (size s.buffer) s (write_bytes m user_buf (stream rest))
  read_rest pre rest split enough =
      let all = AllSegments-prefix pre rest (rw split at v.segments) in
      let sizes : size s.buffer ≡ size pre + size rest = ap size split ∙ size-append pre rest in
      let whole = take_all count (stream rest) (omega (arith, length-stream rest all.1)) in
      let n : min count (size rest) ≡ size rest = omega arith in
      let to_end : u64 (size pre + touched count rest) ≡ size s.buffer =
        omega (arith, touched_all count rest enough) in
      read_at pre rest split ∙ rw (n, to_end, whole)

  -- On valid globals with less than 2 ^ 64 bytes in the list, with the lock got, user memory mapped
  -- and `count` below 2 ^ 64, a reader that asks for at least all the bytes gets the stream whole by one read from position 0,
  -- which leaves the position at its length, and by the next read 0, the end of the file, with
  -- nothing more written to its memory.
  pub linked_read_all :
      size s.buffer ≤ count
      → let m' = write_bytes m user_buf (stream s.buffer) in
        let n = size s.buffer in
        (linked_read user locking signal m user_buf count 0 s ≡ got n n s m')
        × (linked_read user locking signal m user_buf count n s ≡ got 0 n s m)
  linked_read_all enough = (
    read_rest [] s.buffer refl enough,
    read_rest s.buffer [] (sym (append-nil s.buffer)) (omega arith)
        ∙ ap (got 0 (size s.buffer) s) (write_bytes-nil m user_buf),
  )

  -- On valid globals with less than 2 ^ 64 bytes in the list, with the lock got and user memory
  -- mapped, a read from the start of an entry `d` that ends inside it loses the rest of it: it gives the first `count` bytes of
  -- `d` and moves the position behind `d`, so that a read from there gives the entries behind, and no
  -- part of `d`, however many bytes it asks for.
  pub linked_read_short_loses :
      (pre : List Segment) (d : Segment) (rest : List Segment)
      → s.buffer ≡ pre ++ d ∷ rest
      → count < d.length
      → (linked_read user locking signal m user_buf count (size pre) s
          ≡ got count (size pre + d.length) s (write_bytes m user_buf (take count d.contents)))
        × (linked_read user locking signal m user_buf count (size pre + d.length) s
            ≡ served m user_buf count (size pre + d.length) s rest)
  linked_read_short_loses pre d rest split inside =
      let all = AllSegments-prefix pre (d ∷ rest) (rw split at v.segments) in
      let sizes : size s.buffer ≡ size pre + (d.length + size rest) =
        ap size split ∙ size-append pre (d ∷ rest) in
      let n : min count (size (d ∷ rest)) ≡ count = omega arith in
      let behind : u64 (size pre + touched count (d ∷ rest)) ≡ size pre + d.length =
        omega (arith, touched-last {want = count} d rest (omega arith)) in
      let bytes = take-stream_last d rest all.1.0 {want = count} (omega arith) in
      let next : size (pre ++ d ∷ []) ≡ size pre + d.length =
        omega (arith, size-append pre (d ∷ [])) in
      (
        read_at pre (d ∷ rest) split ∙ rw (n, behind, bytes),
        rw next at (read_at (pre ++ d ∷ []) rest (split ∙ sym (append_assoc pre (d ∷ []) rest))),
      )
