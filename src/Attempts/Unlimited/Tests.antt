-- ===== src/Attempts/Unlimited/Tests.antt =====
-- One writer and one reader with one call each, and two objects of Task3 with value 5.
use agh_systems_programming.Common.{◌≡◌, ◌↔◌, refl, true, false, arith}
use agh_systems_programming.Attempts.{unlimited, writing}
use agh_systems_programming.Attempts
use agh_systems_programming.Attempts.Unlimited.{
  System, at, done_at, write_start, write_end, Reach, here, next, start,
}
use agh_systems_programming.Attempts.Unlimited.Simulation.{no_limits, task3_unlimited}

abbrev created : System
created = start 5 1 1 1

-- The writer writes 7 to the object at place 1.
abbrev writes_one : System
writes_one = at created 1 (record (created.object 1) { writers_mutex = true }) 0 (writing 1)

abbrev written : System
written = done_at writes_one 1 (record (writes_one.object 1) { value = 7; writers_mutex = false }) 0

Reach-written : Reach 2 2 created written
Reach-written =
    next (next here (write_start 0 1 (omega arith) (omega arith) refl refl (omega arith) refl))
      (write_end 0 1 7 (omega arith) refl)

written_value : (written.object 1).value ≡ 7
written_value = refl

task3_unlimited_example :
    Attempts.Reach 2 2 (Attempts.start (unlimited 5) 1 1 1) (no_limits written)
    ↔ ((t : System) × Reach 2 2 (start 5 1 1 1) t × (no_limits written ≡ no_limits t))
task3_unlimited_example = task3_unlimited 2 2 5 1 1 1 (no_limits written)
