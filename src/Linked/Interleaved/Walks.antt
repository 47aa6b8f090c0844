-- ===== src/Linked/Interleaved/Walks.antt =====
-- Where a reader stands in a list that others add to.
use agh_systems_programming.Common.{
  ℕ, ◌+◌, ◌-◌, ◌^◌, ◌≡◌, ◌∙◌, refl, ap, min, Bool, true, false, Option, some, List, [], ◌∷◌, ◌++◌,
  ltb, leb, ◌==◌, Bool-cases, inl, inr, take,
}
use agh_systems_programming.Common.Family.{update}
use agh_systems_programming.Common.Outcome.{u64}
use agh_systems_programming.Common.User.{UserAccess}
use agh_systems_programming.Linked.{Reading, read_loop}
use agh_systems_programming.Linked.Segments.{Segment}
use agh_systems_programming.Linked.Interleaved.{
  Node, segments, behind, start, asked, walking, left, filled, linked, loaded, cleaning, finished,
  Place, Thread, System, Visit, onward, full, failed, visit, begin, visited,
}
use agh_systems_programming.Linked.Interleaved.Cursor.{
  ascending, all_below, behind-onward, behind-append,
}

segments-append :
    (xs : List Node) (y : Node) (tail : List Segment)
    → segments (xs ++ y ∷ []) ++ tail ≡ segments xs ++ y.segment ∷ tail
segments-append [] y tail = refl
segments-append (x ∷ xs) y tail = ap (λ l. x.segment ∷ l) (segments-append xs y tail)

module _ (user : UserAccess) where
  -- The loop, a round at a time.
  abbrev pub loop : Thread → List Segment → Reading → Bool × Reading
  loop t = read_loop user t.user_buf t.count t.f_pos

  abbrev pub proceed : Thread → List Segment → Visit → Bool × Reading
  proceed t ds (onward r) = loop t ds r
  proceed t ds (full r) = (true, r)
  proceed t ds (failed r) = (false, r)

  pub loop-cons :
      (t : Thread) (d : Segment) (ds : List Segment) (r : Reading)
      → loop t (d ∷ ds) r ≡ proceed t ds (visited user t d r)
  unfolding read_loop visit
  loop-cons t d ds r = elim (Bool-cases (ltb r.pos t.f_pos)) [
    | inl skips ↦ rw skips refl
    | inr there ↦
        let to_copy = min d.length (u64 (t.count + 2 ^ 64 - r.copied)) in
        let c = user.copy_to_user r.memory (t.user_buf + r.copied) (take to_copy d.contents) in
        elim (Bool-cases (c.0 == 0)) [
          | inr part ↦ rw (there, part) refl
          | inl whole ↦ elim (Bool-cases (leb t.count (u64 (r.copied + to_copy)))) [
            | inl used ↦ rw (there, whole, used) refl
            | inr room ↦ rw (there, whole, room) refl
          ]
        ]
  ]

  -- What a loop has found so far and what is behind it make up the whole loop, whatever joins the list.
  abbrev pub Walks : List Node → Thread → Place → Type 0
  Walks buffer t (walking c r) =
      (rest : List Node) × (behind c buffer ≡ some rest)
      × ((tail : List Segment)
          → loop t (segments buffer ++ tail) (begin t.memory) ≡ loop t (segments rest ++ tail) r)
  Walks buffer t (cleaning c) = ⊥
  Walks buffer t _ = Unit {0}

  pub record Sound (s : System) : Type 0 where
    pub up : ascending s.buffer ≡ true
    pub fresh : all_below s.allocated s.buffer ≡ true
    pub each : (k : ℕ) → Walks s.buffer (s.thread k) (s.thread k).place
    pub valid : s.faulted ≡ false

  pub update-Walks :
      (buffer : List Node) (f : ℕ → Thread) (i : ℕ) (u : Thread)
      → ((k : ℕ) → Walks buffer (f k) (f k).place)
      → Walks buffer u u.place
      → (k : ℕ) → Walks buffer (update f i u k) (update f i u k).place
  update-Walks buffer f i u all new k = elim (Bool-cases (k == i)) [
    | inl e ↦ rw e new
    | inr ne ↦ rw ne (all k)
  ]

  pub append-Walks :
      (buffer : List Node) (y : Node) (t : Thread) (p : Place)
      → Walks buffer t p
      → Walks (buffer ++ y ∷ []) t p
  append-Walks buffer y t (walking c r) (rest, e, same) = (
    rest ++ y ∷ [],
    behind-append c buffer y rest e,
    λ tail.
        rw (segments-append buffer y tail, segments-append rest y tail) (same (y.segment ∷ tail)),
  )
  append-Walks buffer y t start h = tt
  append-Walks buffer y t asked h = tt
  append-Walks buffer y t (left r) h = tt
  append-Walks buffer y t (filled d) h = tt
  append-Walks buffer y t (linked d) h = tt
  append-Walks buffer y t (loaded d v) h = tt
  append-Walks buffer y t (cleaning c) h = h
  append-Walks buffer y t (finished r) h = tt

  -- A thread moves, and the list stays as it is.
  pub move-Sound :
      (s : System) (i : ℕ) (u : Thread) {total_length read_count write_count readers : ℕ}
      → Sound s
      → Walks s.buffer u u.place
      → Sound (record s {
        total_length = total_length;
        read_count = read_count;
        write_count = write_count;
        readers = readers;
        thread = update s.thread i u;
      })
  move-Sound s i u h new = record {
    up = h.up;
    fresh = h.fresh;
    each = update-Walks s.buffer s.thread i u h.each new;
    valid = h.valid;
  }

  pub at_place :
      (buffer : List Node) (t : Thread) {p : Place}
      → Walks buffer t t.place
      → t.place ≡ p
      → Walks buffer t p
  at_place buffer t h e = rw e at h

  pub not_cleaning :
      (s : System) (i : ℕ) {c : Option ℕ} → Sound s → (s.thread i).place ≡ cleaning c → ⊥
  not_cleaning s i h at = at_place s.buffer (s.thread i) (h.each i) at

  pub onward-Walks :
      (buffer : List Node) (t : Thread) (c : Option ℕ) (r r' : Reading) (x : Node)
      (rest : List Node)
      → ascending buffer ≡ true
      → Walks buffer t (walking c r)
      → behind c buffer ≡ some (x ∷ rest)
      → visited user t x.segment r ≡ onward r'
      → Walks buffer t (walking (some x.address) r')
  onward-Walks buffer t c r r' x rest up (rest', e, same) there goes =
      let next_up : rest' ≡ x ∷ rest = cc in
      (
        rest,
        behind-onward c buffer x rest up there,
        λ tail.
            same tail
            ∙ (rw next_up (loop-cons t x.segment (segments rest ++ tail) r ∙ rw goes refl)),
      )

-- The driver with a list as other calls have left it, when no call of these threads has begun.
pub record Fresh (s : System) : Type 0 where
  pub up : ascending s.buffer ≡ true
  pub fresh : all_below s.allocated s.buffer ≡ true
  pub waiting : (k : ℕ) → (s.thread k).place ≡ start
  pub valid : s.faulted ≡ false

module _ (user : UserAccess) where
  pub Fresh-Sound : (s : System) → Fresh s → Sound user s
  Fresh-Sound s h = record {
    up = h.up;
    fresh = h.fresh;
    each = λ k. rw (h.waiting k) tt;
    valid = h.valid;
  }
