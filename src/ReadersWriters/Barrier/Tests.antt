-- ===== src/ReadersWriters/Barrier/Tests.antt =====
-- One writer, one reader and the critic, round an object of value 5.
use agh_systems_programming.Common.{
  ℕ, ◌+◌, ◌*◌, ◌≤◌, ◌≡◌, inl, refl, List, [], ◌∷◌, Bool, true, false, arith,
}
use agh_systems_programming.Common.Family.{update}
use agh_systems_programming.ReadersWriters.{
  outside, counted, reading, leaving, testing, waiting, working, goto, finish, rouse, System, enter,
  first, follow, leave, last, quit, lock, wait, pass, wake, relock, work_done, here, next,
}
use agh_systems_programming.ReadersWriters.Deadlock.{Stuck}
use agh_systems_programming.ReadersWriters.Termination.{steps, wakeups}
use agh_systems_programming.ReadersWriters.Barrier.Termination.{barrier_terminates}
use agh_systems_programming.ReadersWriters.Barrier.{
  Call, write_to_object, critic_round, clear_record, allocate_object, work, protocol, start,
}
use agh_systems_programming.ReadersWriters.Barrier.Record.{wrote, last_value}
use agh_systems_programming.ReadersWriters.Barrier.Results.{
  Reached, saves_after_all, barrier_no_deadlock,
}

abbrev block : List Bool
block = true ∷ []

abbrev created : System protocol
created = start 1 1 1 1 5 block

-- Thread `i` makes the call `j`, with no other thread in between.
abbrev before : System protocol → ℕ → System protocol
before s i = record s { writer_mutex = true; thread = goto (goto s.thread i testing) i working }

abbrev behind : System protocol → ℕ → Call → ℕ → ℕ → System protocol
behind s i j v runs = record s {
  shared = (work j v s.shared).0;
  writer_mutex = false;
  thread =
      update (rouse (work j v s.shared).1 s.thread) i
        (record (s.thread i) { place = outside; runs = runs });
}

abbrev written : System protocol
written = behind (before created 0) 0 (write_to_object 0) 7 0

abbrev saves : System protocol
saves = before written 2

abbrev saved : System protocol
saved = behind saves 2 critic_round 0 1

abbrev reader_reads : System protocol
reader_reads = record saved {
  readers_count = 1;
  writer_mutex = true;
  thread = goto (goto saved.thread 1 counted) 1 reading;
}

abbrev reader_leaves : System protocol
reader_leaves = record reader_reads {
  readers_count = 0;
  reader_mutex = true;
  thread = goto reader_reads.thread 1 leaving;
}

abbrev reader_gone : System protocol
reader_gone = record reader_leaves {
  reader_mutex = false;
  writer_mutex = false;
  thread = finish reader_leaves.thread 1;
}

abbrev finished : System protocol
finished = record reader_gone { thread = goto (goto reader_gone.thread 2 testing) 2 waiting }

reaches_saves : Reached 1 1 1 1 5 block ((write_to_object 0, 7) ∷ []) saves
unfolding work allocate_object clear_record
reaches_saves =
    next
      (next
        (next
          (next (next here (lock 0 (write_to_object 0) (omega arith) refl refl (omega arith) refl))
            (pass 0 (write_to_object 0) (omega arith) refl refl refl))
          (work_done 0 7 (write_to_object 0) (omega arith) refl refl))
        (lock 2 critic_round (omega arith) refl refl (omega arith) refl))
      (pass 2 critic_round (omega arith) refl refl refl)

abbrev calls : List (Call × ℕ)
calls = (critic_round, 0) ∷ (write_to_object 0, 7) ∷ []

reaches_reading : Reached 1 1 1 1 5 block calls reader_reads
unfolding work allocate_object
reaches_reading =
    next
      (next (next reaches_saves (work_done 2 0 critic_round (omega arith) refl refl))
        (enter 1 (omega arith) refl refl (omega arith) refl))
      (first 1 (omega arith) refl refl refl)

reaches_finished : Reached 1 1 1 1 5 block calls finished
unfolding work allocate_object clear_record
reaches_finished =
    next
      (next
        (next (next reaches_reading (leave 1 (omega arith) refl refl))
          (last 1 (omega arith) refl refl))
        (lock 2 critic_round (omega arith) refl refl (omega arith) refl))
      (wait 2 critic_round (omega arith) refl refl refl)

saves_after_all_example :
    (wrote 0 ((write_to_object 0, 7) ∷ []) ≡ true)
    × (saves.shared.value ≡ last_value 5 ((write_to_object 0, 7) ∷ []))
unfolding work allocate_object
saves_after_all_example =
    saves_after_all 1 1 1 1 5 block saves 2 0 refl reaches_saves (inl (refl, refl)) (omega arith)

-- All calls are done but for the critic's, which waits, and no thread can move.
finished-Stuck : Stuck 3 finished
unfolding work allocate_object clear_record
finished-Stuck e t (enter i lt task at left free) = absurd (ground arith)
finished-Stuck e t (first i lt at one free) = absurd (ground arith)
finished-Stuck e t (follow i lt at more) = absurd (ground arith)
finished-Stuck e t (leave i lt at free) = absurd (ground arith)
finished-Stuck e t (last i lt at none_left) = absurd (ground arith)
finished-Stuck e t (quit i lt at some_left) = absurd (ground arith)
finished-Stuck e t (lock i j lt task at left free) = absurd (ground arith)
finished-Stuck e t (wait i j lt task at h) = absurd (ground arith)
finished-Stuck e t (pass i j lt task at h) = absurd (ground arith)
finished-Stuck e t (wake i lt at) = refl
finished-Stuck e t (relock i lt at free) = absurd (ground arith)
finished-Stuck e t (work_done i v j lt task at) = absurd (ground arith)

barrier_no_deadlock_example : (finished.thread 0).runs ≡ 0
barrier_no_deadlock_example =
    barrier_no_deadlock 1 1 1 1 5 block finished refl reaches_finished finished-Stuck 0
      (omega arith)

-- The steps of that run.
barrier_steps : (steps reaches_finished ≡ 12) × (wakeups reaches_finished ≡ 0)
unfolding steps wakeups reaches_saves reaches_reading reaches_finished
barrier_steps = (refl, refl)

barrier_terminates_example :
    steps reaches_finished
    ≤ 1 * (1 * (2 * (2 * (1 + 1 + 1) + 3))) + 1 * (1 * 4) + 3 + 3 * wakeups reaches_finished
barrier_terminates_example =
    barrier_terminates 1 1 1 1 5 block finished (omega arith) refl reaches_finished
