-- ===== src/Linked/Interleaved/Lost.antt =====
-- Two additions to `total_length` at once.
use agh_systems_programming.Common.{ℕ, ◌+◌, ◌<◌, ◌≡◌, ◌≢◌, refl, arith}
use agh_systems_programming.Common.Family.{update}
use agh_systems_programming.Common.Outcome.{u64}
use agh_systems_programming.Common.User.{UserAccess}
use agh_systems_programming.Linked.Segments.{Segment, internal_size}
use agh_systems_programming.Linked.Interleaved.{
  Discipline, start, linked, loaded, Thread, System, goto,
}
use agh_systems_programming.Linked.Interleaved.Run.{
  Step, write_load, write_store, Reach, here, next,
}

-- A writer behind the addition.
abbrev added : Thread → Segment → Thread
added t d = record t {
  f_pos = u64 (t.f_pos + d.length);
  index = t.index + internal_size;
  place = start;
}

module _ (user : UserAccess) (discipline : Discipline) (n : ℕ) where
  -- Calls of the driver by several threads at once, in any of its copies. In each state in which two
  -- writers have linked a segment and not begun to add its length to `total_length`, there is a way to
  -- go on on which both add, and `total_length` has grown by the one length only.
  pub addition_lost :
      (s : System) (i j : ℕ) (d e : Segment)
      → i ≢ j
      → i < n
      → j < n
      → (s.thread i).place ≡ linked d
      → (s.thread j).place ≡ linked e
      → (t : System) × Reach user discipline n s t
        × ((t.thread i).place ≡ start)
        × ((t.thread j).place ≡ start)
        × (t.buffer ≡ s.buffer)
        × (t.total_length ≡ u64 (s.total_length + e.length))
  addition_lost s i j d e ne lt lt' at at' =
      let v = s.total_length in
      let s1 : System = record s { thread = goto s i (loaded d v) } in
      let step1 : Step user discipline n s s1 = write_load i d lt at in
      let p1 : (s1.thread j).place ≡ linked e = ground arith in
      let s2 : System = record s1 { thread = goto s1 j (loaded e v) } in
      let step2 : Step user discipline n s1 s2 = write_load j e lt' p1 in
      let p2 : (s2.thread i).place ≡ loaded d v = ground arith in
      let s3 : System = record s2 {
        total_length = u64 (v + d.length);
        thread = update s2.thread i (added (s2.thread i) d);
      } in
      let step3 : Step user discipline n s2 s3 = write_store i v d lt p2 in
      let p3 : (s3.thread j).place ≡ loaded e v = ground arith in
      let s4 : System = record s3 {
        total_length = u64 (v + e.length);
        thread = update s3.thread j (added (s3.thread j) e);
      } in
      let step4 : Step user discipline n s3 s4 = write_store j v e lt' p3 in
      (
        s4,
        next (next (next (next here step1) step2) step3) step4,
        ground arith,
        ground arith,
        refl,
        refl,
      )
