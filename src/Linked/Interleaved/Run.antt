-- ===== src/Linked/Interleaved/Run.antt =====
-- The steps of the threads, and what they reach.
use agh_systems_programming.Common.{
  ℕ, ◌+◌, ◌-◌, ◌≤◌, ◌<◌, ◌≡◌, ◌≢◌, Bool, true, false, Option, none, some, List, [], ◌∷◌, ◌++◌,
  if◌then◌else◌,
}
use agh_systems_programming.Common.Family.{update}
use agh_systems_programming.Common.Outcome.{ok, error, enomem, efault, eintr, u64}
use agh_systems_programming.Common.User.{UserAccess}
use agh_systems_programming.Linked.{Reading, is_clear}
use agh_systems_programming.Linked.Segments.{Segment, internal_size}
use agh_systems_programming.Linked.Interleaved.{
  Discipline, Node, after, behind, erase, start, asked, walking, left, filled, linked, loaded,
  cleaning, finished, System, goto, first, onward, full, failed, begin, visited, round,
  next_segment,
}

-- The end of a loop of `linked_read`: the thread, whether all copies were complete, and what it has.
pub record End : Type 0 where
  pub reader : ℕ
  pub complete : Bool
  pub reading : Reading

module _ (user : UserAccess) where
  -- A step of one of the `n` threads. What a thread does with the lock up to the unlock, or up to the
  -- next entry of the list, is one step; so is what it does with memory of its own. The numbers of
  -- calls are added to in one step, but `total_length` is read and written in two, as nothing guards it.
  pub data Step (discipline : Discipline) (n : ℕ) (s : System) : System → Type 0 where
    read_behind :
        (i : ℕ)
        → i < n
        → (s.thread i).writer ≡ false
        → (s.thread i).place ≡ start
        → s.total_length < (s.thread i).f_pos
        → Step discipline n s (record s { thread = goto s i (finished (ok 0)) })
    read_ask :
        (i : ℕ)
        → i < n
        → (s.thread i).writer ≡ false
        → (s.thread i).place ≡ start
        → (s.thread i).f_pos ≤ s.total_length
        → Step discipline n s (record s { thread = goto s i asked })
    read_interrupted :
        (i : ℕ)
        → i < n
        → (s.thread i).place ≡ asked
        → discipline.interruptible ≡ true
        → Step discipline n s (record s { thread = goto s i (finished (error eintr)) })
    read_lock :
        (i : ℕ)
        → i < n
        → (s.thread i).place ≡ asked
        → discipline.may_read s.readers ≡ true
        → Step discipline n s (record s {
          readers = s.readers + 1;
          thread = goto s i (walking none (begin (s.thread i).memory));
        })
    read_onward :
        (i : ℕ) (c : Option ℕ) (r r' : Reading) (x : Node) (rest : List Node)
        → i < n
        → (s.thread i).place ≡ walking c r
        → behind c s.buffer ≡ some (x ∷ rest)
        → visited user (s.thread i) x.segment r ≡ onward r'
        → Step discipline n s (record s { thread = goto s i (walking (some x.address) r') })
    read_full :
        (i : ℕ) (c : Option ℕ) (r r' : Reading) (x : Node) (rest : List Node)
        → i < n
        → (s.thread i).place ≡ walking c r
        → behind c s.buffer ≡ some (x ∷ rest)
        → visited user (s.thread i) x.segment r ≡ full r'
        → Step discipline n s (record s { readers = s.readers - 1; thread = goto s i (left r') })
    read_failed :
        (i : ℕ) (c : Option ℕ) (r r' : Reading) (x : Node) (rest : List Node)
        → i < n
        → (s.thread i).place ≡ walking c r
        → behind c s.buffer ≡ some (x ∷ rest)
        → visited user (s.thread i) x.segment r ≡ failed r'
        → Step discipline n s (record s {
          readers = s.readers - 1;
          thread =
              update s.thread i
                (record (s.thread i) { memory = r'.memory; place = finished (error efault) });
        })
    read_end :
        (i : ℕ) (c : Option ℕ) (r : Reading)
        → i < n
        → (s.thread i).place ≡ walking c r
        → behind c s.buffer ≡ some []
        → Step discipline n s (record s { readers = s.readers - 1; thread = goto s i (left r) })
    read_freed :
        (i : ℕ) (c : Option ℕ) (r : Reading)
        → i < n
        → (s.thread i).place ≡ walking c r
        → behind c s.buffer ≡ none
        → Step discipline n s (record s { faulted = true })
    read_return :
        (i : ℕ) (r : Reading)
        → i < n
        → (s.thread i).place ≡ left r
        → Step discipline n s (record s {
          read_count = u64 (s.read_count + 1);
          thread = update s.thread i (record (s.thread i) {
            f_pos = u64 ((s.thread i).f_pos + r.real_length);
            memory = r.memory;
            place = finished (ok r.copied);
          });
        })
    write_return :
        (i : ℕ)
        → i < n
        → (s.thread i).writer ≡ true
        → (s.thread i).place ≡ start
        → (s.thread i).count ≤ (s.thread i).index
        → Step discipline n s (record s {
          write_count = u64 (s.write_count + 1);
          thread = goto s i (finished (ok (s.thread i).count));
        })
    write_no_memory :
        (i : ℕ)
        → i < n
        → (s.thread i).writer ≡ true
        → (s.thread i).place ≡ start
        → (s.thread i).index < (s.thread i).count
        → Step discipline n s (record s { thread = goto s i (finished (error enomem)) })
    write_bad_copy :
        (i : ℕ)
        → i < n
        → (s.thread i).writer ≡ true
        → (s.thread i).place ≡ start
        → (s.thread i).index < (s.thread i).count
        → (round user (s.thread i)).0 ≢ 0
        → Step discipline n s (record s { thread = goto s i (finished (error efault)) })
    write_fill :
        (i : ℕ)
        → i < n
        → (s.thread i).writer ≡ true
        → (s.thread i).place ≡ start
        → (s.thread i).index < (s.thread i).count
        → (round user (s.thread i)).0 ≡ 0
        → is_clear (next_segment user (s.thread i)).contents ≡ false
        → Step discipline n s
            (record s { thread = goto s i (filled (next_segment user (s.thread i))) })
    write_clear :
        (i : ℕ)
        → i < n
        → (s.thread i).writer ≡ true
        → (s.thread i).place ≡ start
        → (s.thread i).index < (s.thread i).count
        → (round user (s.thread i)).0 ≡ 0
        → is_clear (next_segment user (s.thread i)).contents ≡ true
        → Step discipline n s (record s { thread = goto s i (cleaning (first s.buffer)) })
    write_interrupted :
        (i : ℕ) (d : Segment)
        → i < n
        → (s.thread i).place ≡ filled d
        → discipline.interruptible ≡ true
        → Step discipline n s (record s { thread = goto s i (finished (error eintr)) })
    write_link :
        (i : ℕ) (d : Segment)
        → i < n
        → (s.thread i).place ≡ filled d
        → discipline.may_write s.readers ≡ true
        → Step discipline n s (record s {
          buffer = s.buffer ++ record { address = s.allocated; segment = d } ∷ [];
          allocated = s.allocated + 1;
          thread = goto s i (linked d);
        })
    write_load :
        (i : ℕ) (d : Segment)
        → i < n
        → (s.thread i).place ≡ linked d
        → Step discipline n s (record s { thread = goto s i (loaded d s.total_length) })
    write_store :
        (i v : ℕ) (d : Segment)
        → i < n
        → (s.thread i).place ≡ loaded d v
        → Step discipline n s (record s {
          total_length = u64 (v + d.length);
          thread = update s.thread i (record (s.thread i) {
            f_pos = u64 ((s.thread i).f_pos + d.length);
            index = (s.thread i).index + internal_size;
            place = start;
          });
        })
    clean_one :
        (i a : ℕ) (rest : List Node)
        → i < n
        → (s.thread i).place ≡ cleaning (some a)
        → after a s.buffer ≡ some rest
        → Step discipline n s
            (record s { buffer = erase a s.buffer; thread = goto s i (cleaning (first rest)) })
    clean_freed :
        (i a : ℕ)
        → i < n
        → (s.thread i).place ≡ cleaning (some a)
        → after a s.buffer ≡ none
        → Step discipline n s (record s { faulted = true })
    clean_end :
        (i : ℕ)
        → i < n
        → (s.thread i).place ≡ cleaning none
        → Step discipline n s
            (record s { total_length = 0; thread = goto s i (finished (ok (s.thread i).count)) })

  pub data Reach (discipline : Discipline) (n : ℕ) (s : System) : System → Type 0 where
    here : Reach discipline n s s
    next : {t u : System} → Reach discipline n s t → Step discipline n t u → Reach discipline n s u

  -- Is the step one that finds the command to clear the list?
  abbrev pub clears :
      {discipline : Discipline} {n : ℕ} {s t : System} → Step discipline n s t → Bool
  clears (write_clear i lt writer at more copied command) = true
  clears _ = false

  -- Does a run have no such step?
  abbrev pub quiet :
      {discipline : Discipline} {n : ℕ} {s t : System} → Reach discipline n s t → Bool
  quiet here = true
  quiet (next before step) = if clears step then false else quiet before

  -- The loop that ends with the step, if one does.
  abbrev pub ends :
      {discipline : Discipline} {n : ℕ} {s t : System} → Step discipline n s t → Option End
  ends (read_full i c r r' x rest lt at there goes) =
      some (record { reader = i; complete = true; reading = r' })
  ends (read_failed i c r r' x rest lt at there goes) =
      some (record { reader = i; complete = false; reading = r' })
  ends (read_end i c r lt at there) = some (record { reader = i; complete = true; reading = r })
  ends _ = none
