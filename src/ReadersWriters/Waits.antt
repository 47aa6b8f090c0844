-- ===== src/ReadersWriters/Waits.antt =====
-- What the threads wait for, and what was done to the object.
use agh_systems_programming.Common.{
  ℕ, ◌<◌, ◌≡◌, ◌≢◌, ap, refl, Bool, true, false, List, ◌∷◌, arith, ℕ_discrete, dec_lt,
}
use agh_systems_programming.Common.Family.{update, two-le-total}
use agh_systems_programming.ReadersWriters.{
  Protocol, Place, outside, counted, reading, leaving, testing, waiting, woken, working, Task,
  reads, writes, Thread, rouse, woken_up, System,
}
use agh_systems_programming.ReadersWriters.Tally.{is_inside}
use agh_systems_programming.ReadersWriters.Invariant.{Laws, Locked}

abbrev pub writes_there : Place → Bool
writes_there testing = true
writes_there waiting = true
writes_there woken = true
writes_there working = true
writes_there _ = false

abbrev pub reads_there : Place → Bool
reads_there counted = true
reads_there reading = true
reads_there leaving = true
reads_there _ = false

abbrev pub is_writer : {Job : Type 0} → Task Job → Bool
is_writer reads = false
is_writer (writes j) = true

-- A thread behind the others does nothing; readers and writers stand at their own places; a call that waits and
-- is not woken is blocked, and one behind its loop is not; the object is as its history says.
pub record Waits {protocol : Protocol} (laws : Laws protocol) (n : ℕ) (es : List (protocol.Job × ℕ))
    (s : System protocol) : Type 0 where
  pub among : (i : ℕ) → (s.thread i).place ≢ outside → i < n
  pub own : (i : ℕ) → writes_there (s.thread i).place ≡ true → is_writer (s.thread i).task ≡ true
  pub of_readers :
      (i : ℕ) → reads_there (s.thread i).place ≡ true → is_writer (s.thread i).task ≡ false
  pub allowed : (i : ℕ) (j : protocol.Job) → (s.thread i).task ≡ writes j → laws.Allowed j
  pub sleeping :
      (i : ℕ) (j : protocol.Job)
      → (s.thread i).task ≡ writes j
      → (s.thread i).place ≡ waiting
      → protocol.blocked j s.shared ≡ true
  pub ready :
      (i : ℕ) (j : protocol.Job)
      → (s.thread i).task ≡ writes j
      → (s.thread i).place ≡ working
      → protocol.blocked j s.shared ≡ false
  pub history : laws.History es s.shared

-- No two threads are at once between taking the writers' mutex for a call and giving it up.
pub alone :
    {protocol : Protocol} (n : ℕ) (s : System protocol)
    → Locked n s
    → (i j : ℕ) → i < n
    → j < n
    → is_inside (s.thread i).place ≡ 1
    → is_inside (s.thread j).place ≡ 1
    → i ≡ j
alone n s inv i j hi hj at at' = elim (dec_lt i j) [
  | yes lt ↦ absurd (ground (arith, two-le-total (λ t. is_inside t.place) n s.thread i j lt hj))
  | no ge ↦ elim (dec_lt j i) [
    | yes gt ↦ absurd (ground (arith, two-le-total (λ t. is_inside t.place) n s.thread j i gt hi))
    | no le ↦ omega arith
  ]
]

task_kept :
    {Job : Type 0} (f : ℕ → Thread Job) (i : ℕ) (u : Thread Job)
    → u.task ≡ (f i).task
    → (k : ℕ) {j : Job} → (update f i u k).task ≡ writes j
    → (f k).task ≡ writes j
task_kept f i u same k h = elim (ℕ_discrete k i) [ yes e ↦ ground arith | no ne ↦ ground arith ]

module _ {protocol : Protocol} (laws : Laws protocol) (n : ℕ) (es : List (protocol.Job × ℕ)) where
  open protocol use {Shared, Job, endless, blocked, work}

  -- A step of thread `i` alone, that leaves the object as it is.
  pub move-Waits :
      (s : System protocol) (c : ℕ) (rm wm : Bool) (i : ℕ) (u : Thread Job)
      → Waits laws n es s
      → i < n
      → u.task ≡ (s.thread i).task
      → (writes_there u.place ≡ true → is_writer u.task ≡ true)
      → (reads_there u.place ≡ true → is_writer u.task ≡ false)
      → ((j : Job) → u.task ≡ writes j → u.place ≡ waiting → blocked j s.shared ≡ true)
      → ((j : Job) → u.task ≡ writes j → u.place ≡ working → blocked j s.shared ≡ false)
      → Waits laws n es (record {
        shared = s.shared;
        readers_count = c;
        reader_mutex = rm;
        writer_mutex = wm;
        thread = update s.thread i u;
      })
  move-Waits s c rm wm i u inv lt same own of_readers sleeps passes = record {
    among = λ k h. ground (arith, inv.among k);
    own = λ k h. ground (arith, inv.own k);
    of_readers = λ k h. ground (arith, inv.of_readers k);
    allowed = λ k j h. inv.allowed k j (task_kept s.thread i u same k h);
    sleeping = λ k j h at. ground (arith, inv.sleeping k j, sleeps j);
    ready = λ k j h at. ground (arith, inv.ready k j, passes j);
    history = inv.history;
  }

-- What a broadcast leaves as it was.
roused_task :
    {Job : Type 0} (f : ℕ → Thread Job) (all : Bool) (k : ℕ) → (rouse all f k).task ≡ (f k).task
roused_task f all k = ground arith

roused_waiting :
    {Job : Type 0} (f : ℕ → Thread Job) (all : Bool) (k : ℕ)
    → (rouse all f k).place ≡ waiting
    → (all ≡ false) × ((f k).place ≡ waiting)
roused_waiting f false k h = (refl, h)
roused_waiting f true k h = absurd (never (f k).place h)
  where
    never : (p : Place) → woken_up p ≢ waiting
    never outside h = cc
    never counted h = cc
    never reading h = cc
    never leaving h = cc
    never testing h = cc
    never waiting h = cc
    never woken h = cc
    never working h = cc

roused_working :
    {Job : Type 0} (f : ℕ → Thread Job) (all : Bool) (k : ℕ)
    → (rouse all f k).place ≡ working
    → (f k).place ≡ working
roused_working f all k h = ground arith

roused_there :
    {Job : Type 0} (f : ℕ → Thread Job) (all : Bool) (k : ℕ)
    → writes_there (rouse all f k).place ≡ writes_there (f k).place
roused_there f all k = ground arith

roused_reads :
    {Job : Type 0} (f : ℕ → Thread Job) (all : Bool) (k : ℕ)
    → reads_there (rouse all f k).place ≡ reads_there (f k).place
roused_reads f all k = ground arith

roused_outside :
    {Job : Type 0} (f : ℕ → Thread Job) (all : Bool) (k : ℕ)
    → (f k).place ≡ outside
    → (rouse all f k).place ≡ outside
roused_outside f all k h = ground arith

-- The thread that ended its call is outside, so that one at another place is another.
another :
    {Job : Type 0} (g : ℕ → Thread Job) (i k : ℕ) (u : Thread Job) (p : Place)
    → u.place ≡ outside
    → p ≢ outside
    → (update g i u k).place ≡ p
    → (k ≢ i) × ((g k).place ≡ p)
another g i k u p ended ne h = elim (ℕ_discrete k i) [
  | yes e ↦ absurd (ne (ground arith))
  | no other ↦ (other, ground arith)
]

module _ {protocol : Protocol} (laws : Laws protocol) (n : ℕ) (es : List (protocol.Job × ℕ)) where
  open protocol use {Shared, Job, endless, blocked, work}

  pub work-Waits :
      (s : System protocol) (i v runs : ℕ) (j : Job)
      → Locked n s
      → Waits laws n es s
      → i < n
      → (s.thread i).task ≡ writes j
      → (s.thread i).place ≡ working
      → Waits laws n ((j, v) ∷ es) (record s {
        shared = (work j v s.shared).0;
        writer_mutex = false;
        thread =
            update
              (rouse (work j v s.shared).1 s.thread)
              i
              (record (s.thread i) { place = outside; runs = runs });
      })
  work-Waits s i v runs j locked inv lt task at =
      let all = (work j v s.shared).1 in
      let passed = inv.ready i j task at in
      let ended : Thread Job = record (s.thread i) { place = outside; runs = runs } in
      record {
        among = λ k h. ground (arith, inv.among k, roused_outside s.thread all k);
        own = λ k h.
            ground (arith, inv.own k, roused_there s.thread all k, roused_task s.thread all k);
        of_readers = λ k h.
            ground
              (arith, inv.of_readers k, roused_reads s.thread all k, roused_task s.thread all k);
        allowed = λ k j' h. inv.allowed k j' (roused_kept k h);
        sleeping = λ k j' h there.
            let (quiet, slept) =
              roused_waiting s.thread all k
                (another (rouse all s.thread) i k ended waiting refl (λ e. ground arith) there).1 in
            laws.work-blocked j v s.shared j' passed quiet
              (inv.sleeping k j' (roused_kept k h) slept);
        ready = λ k j' h there.
            let (other, there') =
              another (rouse all s.thread) i k ended working refl (λ e. ground arith) there in
            let worked = roused_working s.thread all k there' in
            absurd (
              other (
                alone n s locked k i (inv.among k (λ e. ground arith)) lt (ap is_inside worked)
                  (ap is_inside at)));
        history = laws.work-History j v es s.shared (inv.allowed i j task) inv.history passed;
      }
    where
      roused_kept :
          (k : ℕ) {j' : Job}
          → (update
              (rouse (work j v s.shared).1 s.thread)
              i
              (record (s.thread i) { place = outside; runs = runs })
              k).task
            ≡ writes j'
          → (s.thread k).task ≡ writes j'
      roused_kept k h = ground (arith, roused_task s.thread (work j v s.shared).1 k)
