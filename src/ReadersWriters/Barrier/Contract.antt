-- ===== src/ReadersWriters/Barrier/Contract.antt =====
-- What the threads of Classes1/Task4.c rely on of their object, for the object of that program.
use agh_systems_programming.Common.{ℕ, ◌<◌, ◌≡◌, ◌∙◌, sym, true, List, ◌∷◌, arith}
use agh_systems_programming.ReadersWriters.Invariant.{Laws}
use agh_systems_programming.ReadersWriters.Barrier.{
  ConcurrentObject, Call, write_to_object, critic_round, work, protocol,
}
use agh_systems_programming.ReadersWriters.Barrier.Record.{
  History, wrote, all_marked, write-History, critic-History, work-blocked,
}

-- A writer's index is that of an entry of the record.
abbrev pub Allowed : ℕ → Call → Type 0
Allowed num_writers (write_to_object k) = k < num_writers
Allowed num_writers critic_round = Unit {0}

pub work-History :
    (num_writers initial_data : ℕ) (j : Call) (v : ℕ) (es : List (Call × ℕ)) (b : ConcurrentObject)
    → Allowed num_writers j
    → History num_writers initial_data es b
    → History num_writers initial_data ((j, v) ∷ es) (work j v b).0
work-History num_writers initial_data (write_to_object k) v es b below h =
    write-History num_writers initial_data k v es b below h
work-History num_writers initial_data critic_round v es b below h =
    critic-History num_writers initial_data v es b h

abbrev pub laws : (num_writers initial_data : ℕ) → Laws protocol
laws num_writers initial_data = record {
  Allowed = Allowed num_writers;
  History = History num_writers initial_data;
  work-History =
      λ j v es b allowed h passed. work-History num_writers initial_data j v es b allowed h;
  work-blocked = work-blocked;
}

-- With all writers counted, each has written since the last round.
pub full-wrote :
    (num_writers initial_data : ℕ) (es : List (Call × ℕ)) (b : ConcurrentObject)
    → History num_writers initial_data es b
    → b.writers_count ≡ b.num_writers
    → (k : ℕ) → k < num_writers
    → wrote k es ≡ true
full-wrote num_writers initial_data es b h full k below =
    sym (h.marked k below)
    ∙ all_marked b.writers_record k (omega (arith, h.counted, h.writers, h.block))
        (omega (arith, h.block))
