-- ===== src/ReadersWriters/First/Tests.antt =====
-- One reader and one writer with one call each, round an object of value 5.
use agh_systems_programming.Common.{◌≤◌, ◌≡◌, refl, [], ◌∷◌, true, false, arith}
use agh_systems_programming.Common.Family.{update}
use agh_systems_programming.ReadersWriters.{
  outside, counted, reading, leaving, testing, working, goto, finish, rouse, System, enter, first,
  follow, leave, last, quit, lock, wait, pass, wake, relock, work_done, here, next,
}
use agh_systems_programming.ReadersWriters.Deadlock.{Stuck}
use agh_systems_programming.ReadersWriters.First.{write_to_concurrent_object, protocol, start}
use agh_systems_programming.ReadersWriters.First.Results.{
  Reached, last_value, reads_last_write, first_no_deadlock,
}
use agh_systems_programming.ReadersWriters.First.Termination.{first_terminates}
use agh_systems_programming.ReadersWriters.Termination.{steps}

abbrev created : System protocol
created = start 1 1 1 5

abbrev writer_works : System protocol
writer_works = record created {
  writer_mutex = true;
  thread = goto (goto created.thread 1 testing) 1 working;
}

abbrev written : System protocol
written = record writer_works {
  shared = 7;
  writer_mutex = false;
  thread =
      update (rouse false writer_works.thread) 1
        (record (writer_works.thread 1) { place = outside; runs = 0 });
}

abbrev reader_reads : System protocol
reader_reads = record written {
  readers_count = 1;
  writer_mutex = true;
  thread = goto (goto written.thread 0 counted) 0 reading;
}

abbrev reader_leaves : System protocol
reader_leaves = record reader_reads {
  readers_count = 0;
  reader_mutex = true;
  thread = goto reader_reads.thread 0 leaving;
}

abbrev finished : System protocol
finished = record reader_leaves {
  reader_mutex = false;
  writer_mutex = false;
  thread = finish reader_leaves.thread 0;
}

reaches_working : Reached 1 1 1 1 5 [] writer_works
reaches_working =
    next (next here (lock 1 write_to_concurrent_object (omega arith) refl refl (omega arith) refl))
      (pass 1 write_to_concurrent_object (omega arith) refl refl refl)

reaches_reading : Reached 1 1 1 1 5 ((write_to_concurrent_object, 7) ∷ []) reader_reads
reaches_reading =
    next
      (next
        (next reaches_working (work_done 1 7 write_to_concurrent_object (omega arith) refl refl))
        (enter 0 (omega arith) refl refl (omega arith) refl))
      (first 0 (omega arith) refl refl refl)

reaches_finished : Reached 1 1 1 1 5 ((write_to_concurrent_object, 7) ∷ []) finished
reaches_finished =
    next (next reaches_reading (leave 0 (omega arith) refl refl)) (last 0 (omega arith) refl refl)

reads_last_write_example :
    (reader_reads.shared ≡ last_value 5 ((write_to_concurrent_object, 7) ∷ []))
    × (reader_leaves.shared ≡ reader_reads.shared)
reads_last_write_example =
    reads_last_write 1 1 1 1 5 reader_reads reader_leaves 0 reaches_reading refl
      (leave 0 (omega arith) refl refl)

-- All calls are done, and no thread can move.
finished-Stuck : Stuck 2 finished
finished-Stuck e t (enter i lt task at left free) = absurd (ground arith)
finished-Stuck e t (first i lt at one free) = absurd (ground arith)
finished-Stuck e t (follow i lt at more) = absurd (ground arith)
finished-Stuck e t (leave i lt at free) = absurd (ground arith)
finished-Stuck e t (last i lt at none_left) = absurd (ground arith)
finished-Stuck e t (quit i lt at some_left) = absurd (ground arith)
finished-Stuck e t (lock i j lt task at left free) = absurd (ground arith)
finished-Stuck e t (wait i j lt task at h) = absurd (ground arith)
finished-Stuck e t (pass i j lt task at h) = absurd (ground arith)
finished-Stuck e t (wake i lt at) = refl
finished-Stuck e t (relock i lt at free) = absurd (ground arith)
finished-Stuck e t (work_done i v j lt task at) = absurd (ground arith)

first_no_deadlock_example : (finished.thread 0).runs ≡ 0
first_no_deadlock_example =
    first_no_deadlock 1 1 1 1 5 finished reaches_finished finished-Stuck 0 (omega arith)

first_terminates_example :
    (steps reaches_finished ≤ 7) × (Stuck 2 finished → steps reaches_finished ≡ 7)
first_terminates_example = first_terminates 1 1 1 1 5 finished reaches_finished
