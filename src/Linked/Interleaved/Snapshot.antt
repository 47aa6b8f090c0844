-- ===== src/Linked/Interleaved/Snapshot.antt =====
-- What a reader sees of the list while others add to it.
use agh_systems_programming.Common.{
  ℕ, ◌≡◌, ◌∙◌, refl, sym, ap, true, false, Option, none, some, List, [], ◌∷◌, ◌++◌, arith,
  append-nil,
}
use mathlib.Core.Path.{subst}
use agh_systems_programming.Common.User.{UserAccess}
use agh_systems_programming.Linked.{Reading, read_loop}
use agh_systems_programming.Linked.Segments.{Segment}
use agh_systems_programming.Linked.Interleaved.{
  Discipline, Node, segments, behind, walking, Thread, System, begin, visited,
}
use agh_systems_programming.Linked.Interleaved.Run.{
  Step, read_behind, read_ask, read_interrupted, read_lock, read_onward, read_full, read_failed,
  read_end, read_freed, read_return, write_return, write_no_memory, write_bad_copy, write_fill,
  write_clear, write_interrupted, write_link, write_load, write_store, clean_one, clean_freed,
  clean_end, End, Reach, here, next, clears, quiet, ends,
}
use agh_systems_programming.Linked.Interleaved.Cursor.{ascending-append, all_below-append}
use agh_systems_programming.Linked.Interleaved.Walks.{
  loop, proceed, loop-cons, Walks, Sound, update-Walks, append-Walks, move-Sound, at_place,
  not_cleaning, onward-Walks, Fresh, Fresh-Sound,
}

some_same : {a b : End} → some a ≡ some b → a ≡ b
some_same e = cc

none-some : {o : Option (List Node)} {l : List Node} → o ≡ none → o ≡ some l → ⊥
none-some e e' = cc

module _ (user : UserAccess) where
  module _ (discipline : Discipline) (n : ℕ) where
    pub Step-Sound :
        (s t : System)
        → Sound user s
        → (step : Step user discipline n s t) → clears user step ≡ false
        → Sound user t
    Step-Sound s t h (read_behind i lt reader at less) still = move-Sound user s i _ h tt
    Step-Sound s t h (read_ask i lt reader at le) still = move-Sound user s i _ h tt
    Step-Sound s t h (read_interrupted i lt at signal) still = move-Sound user s i _ h tt
    Step-Sound s t h (read_lock i lt at free) still =
        move-Sound user s i _ h (s.buffer, refl, λ tail. refl)
    Step-Sound s t h (read_onward i c r r' x rest lt at there goes) still =
        move-Sound user s i _ h (
          onward-Walks user s.buffer (s.thread i) c r r' x rest h.up
            (at_place user s.buffer (s.thread i) (h.each i) at) there goes)
    Step-Sound s t h (read_full i c r r' x rest lt at there goes) still = move-Sound user s i _ h tt
    Step-Sound s t h (read_failed i c r r' x rest lt at there goes) still =
        move-Sound user s i _ h tt
    Step-Sound s t h (read_end i c r lt at there) still = move-Sound user s i _ h tt
    Step-Sound s t h (read_freed i c r lt at gone) still =
        let (rest, e, same) = at_place user s.buffer (s.thread i) (h.each i) at in
        absurd (none-some gone e)
    Step-Sound s t h (read_return i r lt at) still = move-Sound user s i _ h tt
    Step-Sound s t h (write_return i lt writer at done) still = move-Sound user s i _ h tt
    Step-Sound s t h (write_no_memory i lt writer at more) still = move-Sound user s i _ h tt
    Step-Sound s t h (write_bad_copy i lt writer at more part) still = move-Sound user s i _ h tt
    Step-Sound s t h (write_fill i lt writer at more copied plain) still =
        move-Sound user s i _ h tt
    Step-Sound s t h (write_clear i lt writer at more copied command) still = cc
    Step-Sound s t h (write_interrupted i d lt at signal) still = move-Sound user s i _ h tt
    Step-Sound s t h (write_link i d lt at free) still =
        let y : Node = record { address = s.allocated; segment = d } in
        record {
          up = ascending-append s.buffer y h.up h.fresh;
          fresh = all_below-append s.allocated s.buffer y h.fresh refl;
          each =
              update-Walks user (s.buffer ++ y ∷ []) s.thread i _
                (λ k. append-Walks user s.buffer y (s.thread k) (s.thread k).place (h.each k)) tt;
          valid = h.valid;
        }
    Step-Sound s t h (write_load i d lt at) still = move-Sound user s i _ h tt
    Step-Sound s t h (write_store i v d lt at) still = move-Sound user s i _ h tt
    Step-Sound s t h (clean_one i a rest lt at there) still = absurd (not_cleaning user s i h at)
    Step-Sound s t h (clean_freed i a lt at gone) still = absurd (not_cleaning user s i h at)
    Step-Sound s t h (clean_end i lt at) still = absurd (not_cleaning user s i h at)

    pub Reach-Sound :
        (s t : System)
        → Sound user s
        → (run : Reach user discipline n s t) → quiet user run ≡ true
        → Sound user t
    Reach-Sound s t h here still = h
    Reach-Sound s t h (next {t = u} before step) still =
        Step-Sound u t (Reach-Sound s u h before (ground arith)) step (ground arith)

    loop-nil : (t : Thread) (r : Reading) → loop user t [] r ≡ (true, r)
    unfolding read_loop
    loop-nil t r = refl

    so_far :
        (t : Thread) (buffer rest : List Node) (r : Reading)
        → ((tail : List Segment)
            → loop user t (segments buffer ++ tail) (begin t.memory)
              ≡ loop user t (segments rest ++ tail) r)
        → loop user t (segments buffer) (begin t.memory) ≡ loop user t (segments rest) r
    so_far t buffer rest r same =
        let a : segments buffer ++ [] ≡ segments buffer = append-nil (segments buffer) in
        let b : segments rest ++ [] ≡ segments rest = append-nil (segments rest) in
        ap (λ l. loop user t l (begin t.memory)) (sym a) ∙ same [] ∙ ap (λ l. loop user t l r) b

    -- Where a loop ends, it has what the whole loop gives on the list as it then is.
    loop_end :
        (t : Thread) (buffer : List Node) (c : Option ℕ) (r : Reading)
        → Walks user buffer t (walking c r)
        → behind c buffer ≡ some []
        → loop user t (segments buffer) (begin t.memory) ≡ (true, r)
    loop_end t buffer c r (rest, e, same) there =
        let nothing : rest ≡ [] = cc in
        so_far t buffer rest r same ∙ ap (λ l. loop user t (segments l) r) nothing ∙ loop-nil t r

    loop_stop :
        (t : Thread) (buffer : List Node) (c : Option ℕ) (r : Reading) (x : Node) (rest : List Node)
        → Walks user buffer t (walking c r)
        → behind c buffer ≡ some (x ∷ rest)
        → loop user t (segments buffer) (begin t.memory)
          ≡ proceed user t (segments rest) (visited user t x.segment r)
    loop_stop t buffer c r x rest (rest', e, same) there =
        let next_up : rest' ≡ x ∷ rest = cc in
        so_far t buffer rest' r same
        ∙ ap (λ l. loop user t (segments l) r) next_up
        ∙ loop-cons user t x.segment (segments rest) r

    -- The loop has ended as the whole loop on the list as it is does.
    abbrev pub Ended : System → End → Type 0
    Ended s e =
        loop user (s.thread e.reader) (segments s.buffer) (begin (s.thread e.reader).memory)
        ≡ (e.complete, e.reading)

    pub ends-loop :
        (s t : System) (e : End)
        → Sound user s
        → (step : Step user discipline n s t) → ends user step ≡ some e
        → Ended s e
    ends-loop s t e h (read_end j c r lt at there) is =
        subst (λ e. Ended s e) (some_same is)
          (loop_end (s.thread j) s.buffer c r (at_place user s.buffer (s.thread j) (h.each j) at)
            there)
    ends-loop s t e h (read_full j c r r' x rest lt at there goes) is =
        subst (λ e. Ended s e) (some_same is)
          (loop_stop (s.thread j) s.buffer c r x rest
              (at_place user s.buffer (s.thread j) (h.each j) at) there
            ∙ rw goes refl)
    ends-loop s t e h (read_failed j c r r' x rest lt at there goes) is =
        subst (λ e. Ended s e) (some_same is)
          (loop_stop (s.thread j) s.buffer c r x rest
              (at_place user s.buffer (s.thread j) (h.each j) at) there
            ∙ rw goes refl)
    ends-loop s _ e h (read_behind i _ _ _ _) is = cc
    ends-loop s _ e h (read_ask i _ _ _ _) is = cc
    ends-loop s _ e h (read_interrupted i _ _ _) is = cc
    ends-loop s _ e h (read_lock i _ _ _) is = cc
    ends-loop s _ e h (read_onward i c r _ _ rest _ _ _ _) is = cc
    ends-loop s _ e h (read_freed i c r _ _ _) is = cc
    ends-loop s _ e h (read_return i r _ _) is = cc
    ends-loop s _ e h (write_return i _ _ _ _) is = cc
    ends-loop s _ e h (write_no_memory i _ _ _ _) is = cc
    ends-loop s _ e h (write_bad_copy i _ _ _ _ _) is = cc
    ends-loop s _ e h (write_fill i _ _ _ _ _ _) is = cc
    ends-loop s _ e h (write_clear i _ _ _ _ _ _) is = cc
    ends-loop s _ e h (write_interrupted i d _ _ _) is = cc
    ends-loop s _ e h (write_link i d _ _ _) is = cc
    ends-loop s _ e h (write_load i d _ _) is = cc
    ends-loop s _ e h (write_store i v d _ _) is = cc
    ends-loop s _ e h (clean_one i a rest _ _ _) is = cc
    ends-loop s _ e h (clean_freed i a _ _ _) is = cc
    ends-loop s _ e h (clean_end i _ _) is = cc

-- Calls of the driver by several threads at once, in any of its copies, with no clearing of the list.
-- From a driver with a list as other calls have left it, where no call of these threads has begun,
-- however the steps of the calls interleave, no memory is used that was freed; and where the loop of a
-- reader ends, it has just what the loop of a `linked_read` alone gives on the list as it then is,
-- though writers may have added to the list while it ran.
pub reads_as_alone :
    (user : UserAccess) (discipline : Discipline) (n : ℕ) (s t u : System) (e : End)
    → Fresh s
    → (run : Reach user discipline n s t) → quiet user run ≡ true
    → (step : Step user discipline n t u) → ends user step ≡ some e
    → let reader = t.thread e.reader in
      (t.faulted ≡ false)
      × (read_loop user reader.user_buf reader.count reader.f_pos
            (segments t.buffer)
            (begin reader.memory)
          ≡ (e.complete, e.reading))
reads_as_alone user discipline n s t u e fresh run still step ending =
    let sound = Reach-Sound user discipline n s t (Fresh-Sound user s fresh) run still in
    (sound.valid, ends-loop user discipline n t u e sound step ending)
