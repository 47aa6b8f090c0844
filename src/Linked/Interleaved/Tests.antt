-- ===== src/Linked/Interleaved/Tests.antt =====
-- A reader, and a writer that adds an entry while it reads.
use agh_systems_programming.Common.{
  ◌+◌, ◌%◌, ◌≤◌, ◌≡◌, refl, true, false, some, none, [], ◌∷◌, ◌==◌, if◌then◌else◌, arith,
}
use agh_systems_programming.Common.Family.{update}
use agh_systems_programming.Common.User.{Memory, mapped, write_bytes, read_bytes}
use agh_systems_programming.Linked.{Reading, read_loop, is_clear}
use agh_systems_programming.Linked.Segments.{Segment, fill}
use agh_systems_programming.Linked.Interleaved.{
  rcu, mutex, start, asked, walking, left, filled, linked, Thread, System, goto, begin, visit,
}
use agh_systems_programming.Linked.Interleaved.Run.{
  read_ask, read_lock, read_onward, read_end, write_fill, write_link, Reach, here, next,
}
use agh_systems_programming.Linked.Interleaved.Walks.{Fresh}
use agh_systems_programming.Linked.Interleaved.Snapshot.{reads_as_alone}
use agh_systems_programming.Linked.Interleaved.Totals.{total_length_bounded}
use agh_systems_programming.Linked.Interleaved.Lost.{addition_lost}
use agh_systems_programming.Linked.Interleaved.Clearing.{clear_frees_under_reader}

abbrev letters : Memory
letters a = 65 + a % 26

abbrev reader : Thread
reader = record {
  writer = false;
  memory = letters;
  user_buf = 100;
  count = 20;
  f_pos = 0;
  index = 0;
  place = start;
}

abbrev writer : Thread
writer = record {
  writer = true;
  memory = letters;
  user_buf = 4;
  count = 4;
  f_pos = 0;
  index = 0;
  place = start;
}

-- "ABCD" and "EFGH"
abbrev old : Segment
old = record { length = 4; contents = 65 ∷ 66 ∷ 67 ∷ 68 ∷ [] }

abbrev new : Segment
new = record { length = 4; contents = 69 ∷ 70 ∷ 71 ∷ 72 ∷ [] }

abbrev created : System
created = record {
  buffer = record { address = 0; segment = old } ∷ [];
  total_length = 4;
  read_count = 0;
  write_count = 0;
  readers = 0;
  allocated = 1;
  faulted = false;
  thread = λ i. if i == 0 then reader else writer;
}

created-Fresh : Fresh created
created-Fresh = record { up = refl; fresh = refl; waiting = λ k. ground arith; valid = refl }

abbrev reader_inside : System
reader_inside = record created {
  readers = 1;
  thread = goto (record created { thread = goto created 0 asked }) 0 (walking none (begin letters));
}

reaches_inside : Reach mapped rcu 2 created reader_inside
reaches_inside =
    next (next here (read_ask 0 (omega arith) refl refl (omega arith)))
      (read_lock 0 (omega arith) refl refl)

abbrev one_read : Reading
one_read = record {
  pos = 4;
  copied = 4;
  real_length = 4;
  memory = write_bytes letters 100 old.contents;
}

abbrev both_read : Reading
both_read = record {
  pos = 8;
  copied = 8;
  real_length = 8;
  memory = write_bytes one_read.memory 104 new.contents;
}

abbrev visited_one : System
visited_one = record reader_inside { thread = goto reader_inside 0 (walking (some 0) one_read) }

reaches_visited : Reach mapped rcu 2 created visited_one
unfolding visit
reaches_visited = next reaches_inside (
    read_onward 0 none (begin letters) one_read (record { address = 0; segment = old }) []
      (omega arith) refl refl refl)

abbrev writer_filled : System
writer_filled = record visited_one { thread = goto visited_one 1 (filled new) }

reaches_filled : Reach mapped rcu 2 created writer_filled
unfolding is_clear fill read_bytes
reaches_filled = next reaches_visited (write_fill 1 (omega arith) refl refl (omega arith) refl refl)

abbrev grown : System
grown = record writer_filled {
  buffer = record { address = 0; segment = old } ∷ record { address = 1; segment = new } ∷ [];
  allocated = 2;
  thread = goto writer_filled 1 (linked new);
}

reaches_grown : Reach mapped rcu 2 created grown
reaches_grown = next reaches_filled (write_link 1 new (omega arith) refl refl)

abbrev visited_both : System
visited_both = record grown { thread = goto grown 0 (walking (some 1) both_read) }

reaches_both : Reach mapped rcu 2 created visited_both
unfolding visit
reaches_both = next reaches_grown (
    read_onward 0 (some 0) one_read both_read (record { address = 1; segment = new }) []
      (omega arith) refl refl refl)

reads_as_alone_example :
    (false ≡ false)
    × (read_loop mapped 100 20 0 (old ∷ new ∷ []) (begin letters) ≡ (true, both_read))
unfolding reaches_both reaches_grown reaches_filled reaches_visited reaches_inside
reads_as_alone_example =
    reads_as_alone mapped rcu 2 created visited_both
      (record visited_both { readers = 0; thread = goto visited_both 0 (left both_read) })
      (record { reader = 0; complete = true; reading = both_read }) created-Fresh reaches_both refl
      (read_end 0 (some 1) both_read (omega arith) refl refl) refl

total_length_bounded_example : 4 ≤ 8
unfolding reaches_both reaches_grown reaches_filled reaches_visited reaches_inside
total_length_bounded_example =
    total_length_bounded mapped rcu 2 created visited_both created-Fresh (omega arith) reaches_both
      refl

-- Two writers behind their segments.
abbrev two_linked : System
two_linked = record created {
  buffer = record { address = 0; segment = old } ∷ record { address = 1; segment = new } ∷ [];
  total_length = 0;
  allocated = 2;
  thread = λ i.
      if i == 0 then record writer { place = linked old } else record writer { place = linked new };
}

addition_lost_example :
    (t : System) × Reach mapped mutex 2 two_linked t
    × ((t.thread 0).place ≡ start)
    × ((t.thread 1).place ≡ start)
    × (t.buffer ≡ two_linked.buffer)
    × (t.total_length ≡ 4)
addition_lost_example =
    addition_lost mapped mutex 2 two_linked 0 1 old new (omega arith) (omega arith) (omega arith)
      refl refl

-- The writer's bytes are "xxx&".
abbrev command : Memory
command a = if a == 7 then 38 else 120

abbrev clearing : System
clearing = record visited_one {
  thread = update visited_one.thread 1 (record writer { memory = command });
}

clear_frees_under_reader_example :
    (t : System) × Reach mapped mutex 2 clearing t × (t.faulted ≡ true)
unfolding is_clear fill read_bytes
clear_frees_under_reader_example =
    clear_frees_under_reader mapped mutex 2 clearing 0 1 0 one_read (omega arith) (omega arith)
      (omega arith) refl refl refl (omega arith) refl refl
