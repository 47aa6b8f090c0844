-- ===== src/Linked/ReadLoop.antt =====
-- The loop of `linked_read`.
use agh_systems_programming.Common.{
  ℕ, ◌+◌, ◌-◌, ◌^◌, ◌≤◌, ◌<◌, ◌≡◌, refl, ◌∙◌, ap, List, [], ◌∷◌, arith, length, sym, ◌⊎◌, take, min,
  Bool, true, false, dec_lt, inl, inr, ltb, leb, if◌then◌else◌, take-nil,
}
use agh_systems_programming.Common.Outcome.{u64}
use agh_systems_programming.Common.User.{
  Memory, UserAccess, write_bytes, write_bytes-nil, write_bytes-append,
}
use agh_systems_programming.Linked.{Reading, read_loop}
use agh_systems_programming.Linked.Segments.{Segment, size, stream, IsSegment, AllSegments}
use agh_systems_programming.Linked.Entries.{
  skip, touched, skip-nil, skip-before, skip-at, touched-nil, touched-last, touched-more,
  length-entry, take-stream_last, take-stream_more,
}

reading_eq :
    {p p' c c' l l' : ℕ} {m m' : Memory}
    → p ≡ p'
    → c ≡ c'
    → l ≡ l'
    → m ≡ m'
    → ◌≡◌ {A = Reading}
        (record { pos = p; copied = c; real_length = l; memory = m })
        (record { pos = p'; copied = c'; real_length = l'; memory = m' })
reading_eq e₀ e₁ e₂ e₃ =
    λ i. record { pos = e₀ i; copied = e₁ i; real_length = e₂ i; memory = e₃ i }

-- The bytes that `want` more bytes make of a reading at entries `ds`, with user memory mapped.
abbrev pub after : (user_buf want : ℕ) → List Segment → ℕ → Reading → Reading
after user_buf want ds p r = record {
  pos = p;
  copied = r.copied + min want (size ds);
  real_length = r.real_length + touched want ds;
  memory = write_bytes r.memory (user_buf + r.copied) (take want (stream ds));
}

module _ (user : UserAccess) (user_buf count f_pos : ℕ) where
  abbrev pub loop : List Segment → Reading → Bool × Reading
  loop = read_loop user user_buf count f_pos

  loop-before :
      (d : Segment) (ds : List Segment) (r : Reading)
      → r.pos < f_pos
      → r.pos + d.length < 2 ^ 64
      → loop (d ∷ ds) r ≡ loop ds (record r { pos = r.pos + d.length })
  unfolding read_loop
  loop-before d ds r h fits =
      let no_wrap : u64 (r.pos + d.length) ≡ r.pos + d.length = omega arith in
      let t : ltb r.pos f_pos ≡ true = ground arith in rw (t, no_wrap)

  -- Entries in front of the position are passed over.
  pub loop-skip :
      (ds : List Segment) (r : Reading)
      → r.pos + size ds < 2 ^ 64
      → (p : ℕ) × (loop ds r ≡ loop (skip r.pos f_pos ds) (record r { pos = p }))
        × (p + size (skip r.pos f_pos ds) < 2 ^ 64)
        × ((skip r.pos f_pos ds ≡ []) ⊎ (f_pos ≤ p))
  loop-skip [] r h =
      let none_left = skip-nil r.pos f_pos in (r.pos, rw none_left, rw none_left h, inl none_left)
  loop-skip (d ∷ ds) r h = elim (dec_lt r.pos f_pos) [
    | no ge ↦
        let at_entry = skip-at {pos = r.pos} {f_pos = f_pos} (d ∷ ds) (omega arith) in
        (r.pos, rw at_entry, rw at_entry h, inr (omega arith))
    | yes lt ↦
        let (p, e, fits, ready) =
          loop-skip ds (record r { pos = r.pos + d.length }) (omega arith) in
        let before = skip-before d ds lt in
        (p, rw before (loop-before d ds r lt (omega arith) ∙ e), rw before fits, rw before ready)
  ]

  module _ (mapped : (m : Memory) (a : ℕ) (xs : List ℕ) → (user.copy_to_user m a xs).0 ≡ 0) where
    -- At an entry: it is copied, as far as the caller has room, and counted whole.
    loop-at :
        (d : Segment) (ds : List Segment) (r : Reading)
        → f_pos ≤ r.pos
        → r.copied ≤ count
        → count < 2 ^ 64
        → r.pos + d.length < 2 ^ 64
        → r.real_length + d.length < 2 ^ 64
        → let n = min d.length (count - r.copied) in
          let r' : Reading = record {
            pos = r.pos + n;
            copied = r.copied + n;
            real_length = r.real_length + d.length;
            memory = write_bytes r.memory (user_buf + r.copied) (take n d.contents);
          } in
          loop (d ∷ ds) r ≡ (if leb count (r.copied + n) then (true, r') else loop ds r')
    unfolding read_loop
    loop-at d ds r at_entry room small p q =
        let n = min d.length (count - r.copied) in
        let left : u64 (count + 2 ^ 64 - r.copied) ≡ count - r.copied = omega arith in
        let t : ltb r.pos f_pos ≡ false = ground arith in
        let e₀ : u64 (r.pos + n) ≡ r.pos + n = omega arith in
        let e₁ : u64 (r.copied + n) ≡ r.copied + n = omega arith in
        let e₂ : u64 (r.real_length + d.length) ≡ r.real_length + d.length = omega arith in
        rw (
          t,
          left,
          mapped r.memory (user_buf + r.copied) (take n d.contents),
          user.to_user_done r.memory (user_buf + r.copied) (take n d.contents)
              (mapped r.memory (user_buf + r.copied) (take n d.contents)),
          e₀,
          e₁,
          e₂,
        )

    loop-nil : (r : Reading) → loop [] r ≡ (true, after user_buf (count - r.copied) [] r.pos r)
    unfolding read_loop
    loop-nil r =
        ap (λ r'. (true, r'))
          (reading_eq refl (omega arith) (omega (arith, touched-nil (count - r.copied))) (
            sym (
              rw (take-nil ℕ (count - r.copied)) (write_bytes-nil r.memory (user_buf + r.copied)))))

    loop-last :
        (d : Segment) (ds : List Segment) (r : Reading)
        → IsSegment d
        → count - r.copied ≤ d.length
        → let n = min d.length (count - r.copied) in
          ◌≡◌ {A = Reading}
            (record {
              pos = r.pos + n;
              copied = r.copied + n;
              real_length = r.real_length + d.length;
              memory = write_bytes r.memory (user_buf + r.copied) (take n d.contents);
            })
            (after user_buf (count - r.copied) (d ∷ ds) (r.pos + n) r)
    loop-last d ds r g last =
        let want : min d.length (count - r.copied) ≡ count - r.copied = omega arith in
        reading_eq refl (omega arith) (omega (arith, touched-last d ds last)) (
          ap (write_bytes r.memory (user_buf + r.copied)) (rw (want, take-stream_last d ds g last)))

    after-more :
        (d : Segment) (ds : List Segment) (r : Reading) (p : ℕ)
        → IsSegment d
        → d.length < count - r.copied
        → let n = min d.length (count - r.copied) in
          after user_buf (count - (r.copied + n)) ds p (record {
            pos = r.pos + n;
            copied = r.copied + n;
            real_length = r.real_length + d.length;
            memory = write_bytes r.memory (user_buf + r.copied) (take n d.contents);
          })
          ≡ after user_buf (count - r.copied) (d ∷ ds) p r
    after-more d ds r p g more =
        let whole : min d.length (count - r.copied) ≡ d.length = omega arith in
        let want : count - (r.copied + d.length) ≡ count - r.copied - d.length = omega arith in
        let bytes = take d.length d.contents in
        let behind : user_buf + (r.copied + d.length) ≡ user_buf + r.copied + length bytes =
          omega (arith, length-entry d ds g) in
        rw (whole, want)
          (reading_eq refl (omega arith) (omega (arith, touched-more d ds more)) (
            rw (take-stream_more d ds g {want = count - r.copied} (omega arith), behind)
              (write_bytes-append r.memory (user_buf + r.copied) bytes
                (take (count - r.copied - d.length) (stream ds)))))

    -- From the first entry at the position on, the bytes asked for are copied.
    pub loop-after :
        (ds : List Segment) (r : Reading)
        → AllSegments ds
        → (ds ≡ []) ⊎ (f_pos ≤ r.pos)
        → r.copied ≤ count
        → count < 2 ^ 64
        → r.pos + size ds < 2 ^ 64
        → r.real_length + size ds < 2 ^ 64
        → (p : ℕ) × (loop ds r ≡ (true, after user_buf (count - r.copied) ds p r))
    loop-after [] r a at_entry room small p q = (r.pos, loop-nil r)
    loop-after (d ∷ ds) r a (inl e) room small p q = cc
    loop-after (d ∷ ds) r a (inr at_entry) room small p q =
        let n = min d.length (count - r.copied) in
        let step = loop-at d ds r at_entry room small (omega arith) (omega arith) in
        elim (dec_lt d.length (count - r.copied)) [
          | no last ↦
              let full : leb count (r.copied + n) ≡ true = ground arith in
              (
                r.pos + n,
                step ∙ rw full (ap (λ r'. (true, r')) (loop-last d ds r a.0 (omega arith))),
              )
          | yes more ↦
              let part : leb count (r.copied + n) ≡ false = ground arith in
              let (p', e) =
                loop-after ds
                  (record {
                    pos = r.pos + n;
                    copied = r.copied + n;
                    real_length = r.real_length + d.length;
                    memory = write_bytes r.memory (user_buf + r.copied) (take n d.contents);
                  })
                  a.1 (inr (omega arith)) (omega arith) small (omega arith) (omega arith) in
              (p', step ∙ rw part (e ∙ ap (λ r'. (true, r')) (after-more d ds r p' a.0 more)))
        ]
