-- ===== src/Attempts/Results.antt =====
-- What the threads of Classes1/Task3.c and Classes1/Task5.c do, however they interleave.
use mathlib.Core.Path.{subst}
use agh_systems_programming.Common.{
  sym, ap, ap₂, ◌∙◌, ℕ_discrete, ℕ, ◌+◌, ◌<◌, ◌≤◌, ◌≡◌, ◌≢◌, refl, true, false, Option, none, some,
  arith,
}
use agh_systems_programming.Common.Family.{update, total, le-total, total-update}
use agh_systems_programming.Attempts.{
  ConcurrentObject, objects_of, outside, entering, reading, writing, Thread, System, at, busy,
  tried, is_full, write_refused, write_start, write_end, read_start, read_busy, read_admit,
  read_leave, read_end, Step, read_full, Reach, create, start,
}
use agh_systems_programming.Attempts.Exclusion.{
  Locked, is_writing, is_reading, tally, shut_out, within_limit, Step-Locked, Reach-Locked,
  outside-Locked,
}
use agh_systems_programming.Attempts.Standstill.{Stuck, stuck_no_calls}
use agh_systems_programming.Attempts.Completion.{load, complete}
use agh_systems_programming.Attempts.Limit.{
  Closed, Reach-Closed, Reach-readers_limit, reading_value,
}

objects_of-Locked :
    (draw : Option (ℕ → ℕ)) (initial_data n : ℕ) (f : ℕ → Thread) (o : ℕ)
    → ((i : ℕ) → (f i).place ≡ outside)
    → Locked n f o (objects_of draw initial_data o)
objects_of-Locked none initial_data n f o out =
    outside-Locked n f o (objects_of none initial_data o) out refl refl refl
objects_of-Locked (some draw) initial_data n f o out =
    outside-Locked n f o (objects_of (some draw) initial_data o) out refl refl refl

-- The object at place 1 lets a reader in.
objects_of-open :
    (draw : Option (ℕ → ℕ)) (initial_data : ℕ) (b : ConcurrentObject)
    → b.readers_limit ≡ (objects_of draw initial_data 1).readers_limit
    → shut_out b ≡ false
objects_of-open none initial_data b e = ground arith
objects_of-open (some draw) initial_data b e = ground arith

zero_is_full :
    (b : ConcurrentObject) → b.readers_limit ≡ some 0 → within_limit b ≡ true → is_full b ≡ true
zero_is_full b limit capped = ground arith

turned-Closed :
    (n : ℕ) (t : System) (i : ℕ)
    → Locked n t.thread 0 (t.object 0)
    → i < n
    → (t.thread i).place ≡ entering 0
    → (t.object 0).readers_limit ≡ some 0
    → busy (t.object 0) ≡ false
    → Closed n
        (update t.thread i (record (t.thread i) { place = outside }))
        0
        (record (t.object 0) { writers_mutex = tried (t.object 0); readers_mutex = false })
turned-Closed n t i inv lt there limit free =
    let m =
      total-update (λ t. is_writing 0 t.place) n t.thread i
        (record (t.thread i) { place = outside }) lt in
    ground arith

module _ (draw : Option (ℕ → ℕ))
    (num_writers num_readers writer_turns reader_turns num_objects initial_data : ℕ) where
  abbrev pub first : System
  first = start (objects_of draw initial_data) num_writers writer_turns reader_turns

  abbrev pub Reached : System → Type 0
  Reached = Reach (num_writers + num_readers) num_objects first

  create_outside : (i : ℕ) → (create num_writers writer_turns reader_turns i).place ≡ outside
  create_outside i = ground arith

  Reached-Locked :
      (t : System)
      → Reached t
      → (o : ℕ) → Locked (num_writers + num_readers) t.thread o (t.object o)
  Reached-Locked t reach =
      Reach-Locked (num_writers + num_readers) num_objects first t
        (λ o.
          objects_of-Locked draw initial_data (num_writers + num_readers) first.thread o
            create_outside)
        reach

  -- However the threads of Task3 or of Task5 interleave: while a thread reads an object, no thread
  -- writes to it, and no step of any thread changes its value.
  pub attempts_read_stable :
      (t u : System) (i j o : ℕ)
      → Reached t
      → i < num_writers + num_readers
      → j < num_writers + num_readers
      → (t.thread i).place ≡ reading o
      → Step (num_writers + num_readers) num_objects t u
      → ((t.thread j).place ≢ writing o) × ((u.object o).value ≡ (t.object o).value)
  attempts_read_stable t u i j o reach lt lt' there step =
      let n = num_writers + num_readers in
      let inv = Reached-Locked t reach o in
      (
        λ e. ground (
          arith,
          le-total (λ t. is_reading o t.place) n t.thread i lt,
          le-total (λ t. is_writing o t.place) n t.thread j lt',
        ),
        reading_value n num_objects t u i o inv lt there step,
      )

  -- However the threads of Task3 or of Task5 interleave, with two objects or more: a state in which no
  -- thread can take a step, but for attempts of writers that fail, is one in which every call of every
  -- thread has succeeded.
  pub attempts_no_standstill :
      (t : System)
      → 1 < num_objects
      → Reached t
      → Stuck (num_writers + num_readers) num_objects t
      → (i : ℕ) → i < num_writers + num_readers
      → (t.thread i).runs ≡ 0
  attempts_no_standstill t two reach stuck i lt =
      let n = num_writers + num_readers in
      let limit = Reach-readers_limit n num_objects first t reach 1 in
      stuck_no_calls n num_objects t (Reached-Locked t reach) stuck 1 two
        (objects_of-open draw initial_data (t.object 1) limit) i lt

  -- However the threads of Task3 or of Task5 have interleaved so far, with two objects or more: there is
  -- a way to go on at the end of which every call of every thread has succeeded.
  pub attempts_can_finish :
      (t : System)
      → 1 < num_objects
      → Reached t
      → (u : System) × Reach (num_writers + num_readers) num_objects t u
        × ((i : ℕ)
            → i < num_writers + num_readers
            → ((u.thread i).runs ≡ 0) × ((u.thread i).place ≡ outside))
  attempts_can_finish t two reach =
      let n = num_writers + num_readers in
      let limit = Reach-readers_limit n num_objects first t reach 1 in
      complete n num_objects (total load n t.thread) t 1 (Reached-Locked t reach) two
        (objects_of-open draw initial_data (t.object 1) limit) (omega arith)

abbrev turned : System → ℕ → ℕ → System
turned t o i =
    at t o (record (t.object o) { writers_mutex = tried (t.object o); readers_mutex = false }) i
      outside

-- A reader that finds an object full goes on by being turned away.
left_full :
    (n size : ℕ) (t v : System) (i o : ℕ)
    → Step n size t v
    → (t.thread i).place ≡ entering o
    → (v.thread i).place ≢ entering o
    → busy (t.object o) ≡ false
    → is_full (t.object o) ≡ true
    → v ≡ turned t o i
left_full n size t v i o (write_refused j k lt in_array task place left locked) there gone free
      full =
    absurd (gone there)
left_full n size t v i o (write_start j k lt in_array task place left unlocked) there gone free
      full =
    absurd (gone (ground arith))
left_full n size t v i o (write_end j k x lt place) there gone free full =
    absurd (gone (ground arith))
left_full n size t v i o (read_start j k lt in_array task place left unlocked) there gone free
      full =
    absurd (gone (ground arith))
left_full n size t v i o (read_busy j k lt place taken) there gone free full =
    absurd (gone (ground arith))
left_full n size t v i o (read_full j k lt place passed filled) there gone free full =
    elim (ℕ_discrete j i) [
      | no other ↦ absurd (gone (ground arith))
      | yes same ↦
          let there' : (t.thread j).place ≡ entering o = rw same there in
          let at_k : k ≡ o = ground arith in ap₂ (λ a b. turned t a b) at_k same
    ]
left_full n size t v i o (read_admit j k lt place passed room) there gone free full =
    absurd (gone (ground arith))
left_full n size t v i o (read_leave j k lt place unlocked) there gone free full =
    absurd (gone (ground arith))
left_full n size t v i o (read_end j k lt place) there gone free full = absurd (gone (ground arith))

module _ (draw : ℕ → ℕ)
    (num_writers num_readers writer_turns reader_turns num_objects initial_data : ℕ) where
  abbrev pub LimitedReached : System → Type 0
  LimitedReached =
      Reached (some draw) num_writers num_readers writer_turns reader_turns num_objects initial_data

  -- However the threads of Task5 interleave: no more threads read the object at place `o` at once than
  -- `o`, which is what the call with its arguments in the wrong order makes the limit; so nobody ever
  -- reads the object at place 0.
  pub readers_within_limit :
      (t : System) (o : ℕ)
      → LimitedReached t
      → tally (is_reading o) (num_writers + num_readers) t.thread ≤ o
  readers_within_limit t o reach =
      let n = num_writers + num_readers in
      let first' =
        first (some draw) num_writers num_readers writer_turns reader_turns num_objects
          initial_data in
      let limit = Reach-readers_limit n num_objects first' t reach o in
      let inv =
        Reached-Locked (some draw) num_writers num_readers writer_turns reader_turns num_objects
          initial_data t reach o in
      ground arith

  -- In Task5, when a reader behind the readers' mutex of the object at place 0, whose writers' mutex is
  -- free, takes its next step: from then on, whatever the threads do, the writers' mutex of that object is
  -- locked and its value is what it was.
  pub zero_limit_closes :
      (t v u : System) (i : ℕ)
      → LimitedReached t
      → (t.thread i).place ≡ entering 0
      → busy (t.object 0) ≡ false
      → i < num_writers + num_readers
      → Step (num_writers + num_readers) num_objects t v
      → (v.thread i).place ≢ entering 0
      → Reach (num_writers + num_readers) num_objects v u
      → ((u.object 0).writers_mutex ≡ true) × ((u.object 0).value ≡ (t.object 0).value)
  zero_limit_closes t v u i reach there free lt step gone reach' =
      let n = num_writers + num_readers in
      let first' =
        first (some draw) num_writers num_readers writer_turns reader_turns num_objects
          initial_data in
      let limit = Reach-readers_limit n num_objects first' t reach 0 in
      let inv =
        Reached-Locked (some draw) num_writers num_readers writer_turns reader_turns num_objects
          initial_data t reach in
      let full : is_full (t.object 0) ≡ true = zero_is_full (t.object 0) limit (inv 0).capped in
      let same = left_full n num_objects t v i 0 step there gone free full in
      let closed = turned-Closed n t i (inv 0) lt there limit free in
      let (end, kept) =
        Reach-Closed n num_objects v u 0 (Step-Locked n num_objects t v inv step)
          (subst (λ w. Closed n w.thread 0 (w.object 0)) (sym same) closed) reach' in
      (end.stays, kept ∙ ap (λ w. (w.object 0).value) same)
