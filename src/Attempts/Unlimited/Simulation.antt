-- ===== src/Attempts/Unlimited/Simulation.antt =====
-- The steps of Task3 beside those of the parent module at objects without a limit.
use mathlib.Core.Path.{subst}
use agh_systems_programming.Common.{
  ℕ, ◌+◌, ◌-◌, ◌≡◌, ◌↔◌, refl, sym, true, false, none, if◌then◌else◌, ◌==◌,
}
use agh_systems_programming.Common.Family.{update-map}
use agh_systems_programming.Attempts.{
  Place, outside, entering, reading, leaving, writing, unlimited,
}
use agh_systems_programming.Attempts
use agh_systems_programming.Attempts.Unlimited.{
  ConcurrentObject, System, at, done_at, tried, Step, write_refused, write_start, write_end,
  read_start, read_busy, read_admit, read_leave, read_end, Reach, here, next, start,
}

-- The object with a limit that is not there.
abbrev pub no_limit : ConcurrentObject → Attempts.ConcurrentObject
no_limit b = record {
  value = b.value;
  readers_count = b.readers_count;
  array_idx = b.array_idx;
  readers_limit = none;
  readers_mutex = b.readers_mutex;
  writers_mutex = b.writers_mutex;
}

abbrev pub no_limits : System → Attempts.System
no_limits s = record { object = λ o. no_limit (s.object o); thread = s.thread }

no_limits-at :
    (s : System) (o : ℕ) (b : ConcurrentObject) (i : ℕ) (p : Place)
    → no_limits (at s o b i p) ≡ Attempts.at (no_limits s) o (no_limit b) i p
no_limits-at s o b i p = rw (update-map no_limit s.object o b)

no_limits-done_at :
    (s : System) (o : ℕ) (b : ConcurrentObject) (i : ℕ)
    → no_limits (done_at s o b i) ≡ Attempts.done_at (no_limits s) o (no_limit b) i
no_limits-done_at s o b i = rw (update-map no_limit s.object o b)

module _ (n size : ℕ) where
  limited_at :
      (s : System) (o : ℕ) (b : ConcurrentObject) (i : ℕ) (p : Place)
      → Attempts.Step n size (no_limits s) (Attempts.at (no_limits s) o (no_limit b) i p)
      → Attempts.Step n size (no_limits s) (no_limits (at s o b i p))
  limited_at s o b i p =
      subst (λ u. Attempts.Step n size (no_limits s) u) (sym (no_limits-at s o b i p))

  limited_done :
      (s : System) (o : ℕ) (b : ConcurrentObject) (i : ℕ)
      → Attempts.Step n size (no_limits s) (Attempts.done_at (no_limits s) o (no_limit b) i)
      → Attempts.Step n size (no_limits s) (no_limits (done_at s o b i))
  limited_done s o b i =
      subst (λ u. Attempts.Step n size (no_limits s) u) (sym (no_limits-done_at s o b i))

  -- A step of Task3 is one of the parent module.
  no_limits-Step :
      (s t : System) → Step n size s t → Attempts.Step n size (no_limits s) (no_limits t)
  no_limits-Step s t (write_refused i o lt lt' w out left held) =
      Attempts.write_refused i o lt lt' w out left held
  no_limits-Step s t (write_start i o lt lt' w out left free) =
      limited_at s o (record (s.object o) { writers_mutex = true }) i (writing o)
        (Attempts.write_start i o lt lt' w out left free)
  no_limits-Step s t (write_end i o v lt in_call) =
      limited_done s o (record (s.object o) { value = v; writers_mutex = false }) i
        (Attempts.write_end i o v lt in_call)
  no_limits-Step s t (read_start i o lt lt' r out left free) =
      limited_at s o (record (s.object o) { readers_mutex = true }) i (entering o)
        (Attempts.read_start i o lt lt' r out left free)
  no_limits-Step s t (read_busy i o lt in_call taken) =
      limited_at s o (record (s.object o) { readers_mutex = false }) i outside
        (Attempts.read_busy i o lt in_call taken)
  no_limits-Step s t (read_admit i o lt in_call free) =
      limited_at s o
        (record (s.object o) {
          writers_mutex = tried (s.object o);
          readers_count = (s.object o).readers_count + 1;
          readers_mutex = false;
        })
        i (reading o) (Attempts.read_admit i o lt in_call free refl)
  no_limits-Step s t (read_leave i o lt in_call free) =
      limited_at s o
        (record (s.object o) {
          readers_count = (s.object o).readers_count - 1;
          readers_mutex = true;
        })
        i (leaving o) (Attempts.read_leave i o lt in_call free)
  no_limits-Step s t (read_end i o lt in_call) =
      limited_done s o
        (record (s.object o) {
          writers_mutex =
              if (s.object o).readers_count == 0 then false else (s.object o).writers_mutex;
          readers_mutex = false;
        })
        i (Attempts.read_end i o lt in_call)

  -- A step of the parent module from such a state is one of Task3.
  Step-no_limits :
      (s : System) (u : Attempts.System)
      → Attempts.Step n size (no_limits s) u
      → (t : System) × Step n size s t × (u ≡ no_limits t)
  Step-no_limits s u (Attempts.write_refused i o lt lt' w out left held) =
      (s, write_refused i o lt lt' w out left held, refl)
  Step-no_limits s u (Attempts.write_start i o lt lt' w out left free) = (
    _,
    write_start i o lt lt' w out left free,
    sym (no_limits-at s o (record (s.object o) { writers_mutex = true }) i (writing o)),
  )
  Step-no_limits s u (Attempts.write_end i o v lt in_call) = (
    _,
    write_end i o v lt in_call,
    sym (no_limits-done_at s o (record (s.object o) { value = v; writers_mutex = false }) i),
  )
  Step-no_limits s u (Attempts.read_start i o lt lt' r out left free) = (
    _,
    read_start i o lt lt' r out left free,
    sym (no_limits-at s o (record (s.object o) { readers_mutex = true }) i (entering o)),
  )
  Step-no_limits s u (Attempts.read_busy i o lt in_call taken) = (
    _,
    read_busy i o lt in_call taken,
    sym (no_limits-at s o (record (s.object o) { readers_mutex = false }) i outside),
  )
  Step-no_limits s u (Attempts.read_full i o lt in_call free full) = absurd (cc full)
  Step-no_limits s u (Attempts.read_admit i o lt in_call free open_still) = (
    _,
    read_admit i o lt in_call free,
    sym (
        no_limits-at s o
          (record (s.object o) {
            writers_mutex = tried (s.object o);
            readers_count = (s.object o).readers_count + 1;
            readers_mutex = false;
          })
          i (reading o)),
  )
  Step-no_limits s u (Attempts.read_leave i o lt in_call free) = (
    _,
    read_leave i o lt in_call free,
    sym (
        no_limits-at s o
          (record (s.object o) {
            readers_count = (s.object o).readers_count - 1;
            readers_mutex = true;
          })
          i (leaving o)),
  )
  Step-no_limits s u (Attempts.read_end i o lt in_call) = (
    _,
    read_end i o lt in_call,
    sym (
        no_limits-done_at s o
          (record (s.object o) {
            writers_mutex =
                if (s.object o).readers_count == 0 then false else (s.object o).writers_mutex;
            readers_mutex = false;
          })
          i),
  )

  no_limits-Reach :
      (s t : System) → Reach n size s t → Attempts.Reach n size (no_limits s) (no_limits t)
  no_limits-Reach s t here = Attempts.here
  no_limits-Reach s t (next {t = r} run step) =
      Attempts.next (no_limits-Reach s r run) (no_limits-Step r t step)

  Reach-no_limits :
      (s : System) (u : Attempts.System)
      → Attempts.Reach n size (no_limits s) u
      → (t : System) × Reach n size s t × (u ≡ no_limits t)
  Reach-no_limits s u Attempts.here = (s, here, refl)
  Reach-no_limits s u (Attempts.next {t = v} run step) =
      let (t, run', same) = Reach-no_limits s v run in
      let (t', step', same') =
        Step-no_limits t u (subst (λ w. Attempts.Step n size w u) same step) in
      (t', next run' step', same')

  -- Task3 reaches a state, with any numbers of threads, objects and calls, if and only if the threads of the
  -- parent module reach the same state with a limit added to each object that is not there, from objects
  -- that are created without a limit. They reach no state that is not of this form.
  pub task3_unlimited :
      (initial_data num_writers writer_turns reader_turns : ℕ) (u : Attempts.System)
      → Attempts.Reach n size
          (Attempts.start (unlimited initial_data) num_writers writer_turns reader_turns)
          u
        ↔ ((t : System) × Reach n size (start initial_data num_writers writer_turns reader_turns) t
            × (u ≡ no_limits t))
  task3_unlimited initial_data num_writers writer_turns reader_turns u =
      let s = start initial_data num_writers writer_turns reader_turns in
      (
        Reach-no_limits s u,
        λ (t, run, same).
            subst (λ w. Attempts.Reach n size (no_limits s) w) (sym same) (no_limits-Reach s t run),
      )
