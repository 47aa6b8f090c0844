-- ===== src/Attempts/Tests.antt =====
-- One writer and one reader with one call each, and the two objects of Task5 with value 5.
use agh_systems_programming.Common.{ℕ, ◌<◌, ◌≤◌, ◌≡◌, ◌≢◌, refl, some, true, false, arith}
use agh_systems_programming.Attempts.{
  outside, entering, reading, leaving, writing, System, at, done_at, write_start, write_end,
  read_start, read_admit, read_full, read_leave, read_end, Reach, here, next,
}
use agh_systems_programming.Attempts.Exclusion.{is_reading, tally}
use agh_systems_programming.Attempts.Results.{
  first, Reached, attempts_read_stable, attempts_can_finish, readers_within_limit,
  zero_limit_closes,
}

abbrev draw : ℕ → ℕ
draw i = 3

abbrev created : System
created = first (some draw) 1 1 1 1 2 5

abbrev Seen : System → Type 0
Seen = Reached (some draw) 1 1 1 1 2 5

-- The writer writes 7 to the object at place 0.
abbrev writes_first : System
writes_first = at created 0 (record (created.object 0) { writers_mutex = true }) 0 (writing 0)

abbrev written : System
written =
    done_at writes_first 0 (record (writes_first.object 0) { value = 7; writers_mutex = false }) 0

-- The reader reads the object at place 1.
abbrev enters : ℕ → System
enters o = at written o (record (written.object o) { readers_mutex = true }) 1 (entering o)

abbrev reads_one : System
reads_one =
    at (enters 1) 1
      (record ((enters 1).object 1) {
        writers_mutex = true;
        readers_count = 1;
        readers_mutex = false;
      })
      1 (reading 1)

abbrev leaves_one : System
leaves_one =
    at reads_one 1 (record (reads_one.object 1) { readers_count = 0; readers_mutex = true }) 1
      (leaving 1)

abbrev finished : System
finished =
    done_at leaves_one 1
      (record (leaves_one.object 1) { writers_mutex = false; readers_mutex = false }) 1

Seen-enters : (o : ℕ) → o < 2 → Seen (enters o)
Seen-enters o lt =
    next
      (next (next here (write_start 0 0 (omega arith) (omega arith) refl refl (omega arith) refl))
        (write_end 0 0 7 (omega arith) refl))
      (read_start 1 o (omega arith) lt refl refl (omega arith) (ground arith))

Seen-reads : Seen reads_one
Seen-reads = next (Seen-enters 1 (omega arith)) (read_admit 1 1 (omega arith) refl refl refl)

Seen-finished : Seen finished
Seen-finished =
    next (next Seen-reads (read_leave 1 1 (omega arith) refl refl))
      (read_end 1 1 (omega arith) refl)

attempts_read_stable_example :
    ((reads_one.thread 0).place ≢ writing 1)
    × ((leaves_one.object 1).value ≡ (reads_one.object 1).value)
attempts_read_stable_example =
    attempts_read_stable (some draw) 1 1 1 1 2 5 reads_one leaves_one 1 0 1 Seen-reads (omega arith)
      (omega arith) refl (read_leave 1 1 (omega arith) refl refl)

attempts_can_finish_example :
    (u : System) × Reach 2 2 (enters 1) u
    × ((i : ℕ) → i < 2 → ((u.thread i).runs ≡ 0) × ((u.thread i).place ≡ outside))
attempts_can_finish_example =
    attempts_can_finish (some draw) 1 1 1 1 2 5 (enters 1) (omega arith)
      (Seen-enters 1 (omega arith))

readers_within_limit_example : tally (is_reading 1) 2 reads_one.thread ≤ 1
readers_within_limit_example = readers_within_limit draw 1 1 1 1 2 5 reads_one 1 Seen-reads

abbrev turned_away : System
turned_away =
    at (enters 0) 0 (record ((enters 0).object 0) { writers_mutex = true; readers_mutex = false }) 1
      outside

zero_limit_closes_example :
    ((turned_away.object 0).writers_mutex ≡ true)
    × ((turned_away.object 0).value ≡ ((enters 0).object 0).value)
zero_limit_closes_example =
    zero_limit_closes draw 1 1 1 1 2 5 (enters 0) turned_away turned_away 1
      (Seen-enters 0 (omega arith)) refl refl (omega arith)
      (read_full 1 0 (omega arith) refl refl refl) (λ h. cc h) here
