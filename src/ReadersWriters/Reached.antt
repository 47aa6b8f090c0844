-- ===== src/ReadersWriters/Reached.antt =====
-- The states that the threads round one object reach.
use agh_systems_programming.Common.{
  ℕ, ◌+◌, ◌-◌, ◌<◌, ◌≡◌, ap, refl, ◌∙◌, true, false, List, [], arith,
}
use agh_systems_programming.Common.Family.{le-total, total-zero}
use agh_systems_programming.ReadersWriters.{
  Protocol, Place, outside, counted, reading, leaving, testing, waiting, woken, working, writes,
  Thread, Event, note, System, run, Step, enter, first, follow, leave, last, quit, lock, wait, pass,
  wake, relock, work_done, Reach, here, next,
}
use agh_systems_programming.ReadersWriters.Tally.{is_inside, is_reading, is_counted, is_leaving}
use agh_systems_programming.ReadersWriters.Invariant.{Laws, Locked, Step-Locked}
use agh_systems_programming.ReadersWriters.Waits.{Waits, is_writer, move-Waits, work-Waits}

module _ {protocol : Protocol} (laws : Laws protocol) (n : ℕ) where
  open protocol use {Shared, Job, endless, blocked, work}

  Step-Waits :
      (s t : System protocol) {e : Event Job} {es : List (Job × ℕ)}
      → Locked n s
      → Waits laws n es s
      → Step protocol n s e t
      → Waits laws n (note e es) t
  Step-Waits s t {es = es} locked inv (enter i lt task at left free) =
      move-Waits laws n es s (s.readers_count + 1) true s.writer_mutex i
        (record (s.thread i) { place = counted }) inv lt refl (λ h. cc) (λ h. ap is_writer task)
        (λ j h k. cc) (λ j h k. cc)
  Step-Waits s t {es = es} locked inv (first i lt at one free) =
      move-Waits laws n es s s.readers_count false true i (record (s.thread i) { place = reading })
        inv lt refl (λ h. cc) (λ h. inv.of_readers i (ground arith)) (λ j h k. cc) (λ j h k. cc)
  Step-Waits s t {es = es} locked inv (follow i lt at more) =
      move-Waits laws n es s s.readers_count false s.writer_mutex i
        (record (s.thread i) { place = reading }) inv lt refl (λ h. cc)
        (λ h. inv.of_readers i (ground arith)) (λ j h k. cc) (λ j h k. cc)
  Step-Waits s t {es = es} locked inv (leave i lt at free) =
      move-Waits laws n es s (s.readers_count - 1) true s.writer_mutex i
        (record (s.thread i) { place = leaving }) inv lt refl (λ h. cc)
        (λ h. inv.of_readers i (ground arith)) (λ j h k. cc) (λ j h k. cc)
  Step-Waits s t {es = es} locked inv (last i lt at none_left) =
      move-Waits laws n es s s.readers_count false false i
        (record (s.thread i) { place = outside; runs = (s.thread i).runs - 1 }) inv lt refl
        (λ h. cc) (λ h. cc) (λ j h k. cc) (λ j h k. cc)
  Step-Waits s t {es = es} locked inv (quit i lt at some_left) =
      move-Waits laws n es s s.readers_count false s.writer_mutex i
        (record (s.thread i) { place = outside; runs = (s.thread i).runs - 1 }) inv lt refl
        (λ h. cc) (λ h. cc) (λ j h k. cc) (λ j h k. cc)
  Step-Waits s t {es = es} locked inv (lock i j lt task at left free) =
      move-Waits laws n es s s.readers_count s.reader_mutex true i
        (record (s.thread i) { place = testing }) inv lt refl (λ h. ap is_writer task) (λ h. cc)
        (λ j h k. cc) (λ j h k. cc)
  Step-Waits s t {es = es} locked inv (wait i j lt task at stuck) =
      move-Waits laws n es s s.readers_count s.reader_mutex false i
        (record (s.thread i) { place = waiting }) inv lt refl (λ h. ap is_writer task) (λ h. cc)
        (λ j' h k. ground arith) (λ j h k. cc)
  Step-Waits s t {es = es} locked inv (pass i j lt task at passed) =
      move-Waits laws n es s s.readers_count s.reader_mutex s.writer_mutex i
        (record (s.thread i) { place = working }) inv lt refl (λ h. ap is_writer task) (λ h. cc)
        (λ j h k. cc) (λ j' h k. ground arith)
  Step-Waits s t {es = es} locked inv (wake i lt at) =
      move-Waits laws n es s s.readers_count s.reader_mutex s.writer_mutex i
        (record (s.thread i) { place = woken }) inv lt refl (λ h. inv.own i (ground arith))
        (λ h. cc) (λ j h k. cc) (λ j h k. cc)
  Step-Waits s t {es = es} locked inv (relock i lt at free) =
      move-Waits laws n es s s.readers_count s.reader_mutex true i
        (record (s.thread i) { place = testing }) inv lt refl (λ h. inv.own i (ground arith))
        (λ h. cc) (λ j h k. cc) (λ j h k. cc)
  Step-Waits s t {es = es} locked inv (work_done i v j lt task at) =
      work-Waits laws n es s i v (run protocol j (s.thread i).runs) j locked inv lt task at

  pub Reach-Locked :
      (s t : System protocol) {es : List (Job × ℕ)}
      → Locked n s
      → Reach protocol n s es t
      → Locked n t
  Reach-Locked s t locked here = locked
  Reach-Locked s t locked (next {t = u} before step) =
      Step-Locked n u t (Reach-Locked s u locked before) step

  pub Reach-Waits :
      (s t : System protocol) {es : List (Job × ℕ)}
      → Locked n s
      → Waits laws n [] s
      → Reach protocol n s es t
      → Waits laws n es t
  Reach-Waits s t locked inv here = inv
  Reach-Waits s t locked inv (next {t = u} before step) =
      Step-Waits u t (Reach-Locked s u locked before) (Reach-Waits s u locked inv before) step

-- Both mutexes free, and every thread outside of its call.
pub record Fresh {protocol : Protocol} (s : System protocol) : Type 0 where
  pub no_readers : s.readers_count ≡ 0
  pub reader_free : s.reader_mutex ≡ false
  pub writer_free : s.writer_mutex ≡ false
  pub all_outside : (i : ℕ) → (s.thread i).place ≡ outside

pub Fresh-Locked : {protocol : Protocol} (n : ℕ) (s : System protocol) → Fresh s → Locked n s
Fresh-Locked {protocol} n s fresh =
    let none = λ (w : Place → ℕ) (e : w outside ≡ 0).
      total-zero (λ (t : Thread protocol.Job). w t.place) n s.thread
        (λ i. ap w (fresh.all_outside i) ∙ e) in
    let c = none is_counted refl in
    let r = none is_reading refl in
    let l = none is_leaving refl in
    let w = none is_inside refl in
    ground (arith, fresh.no_readers, fresh.reader_free, fresh.writer_free)

pub Fresh-Waits :
    {protocol : Protocol} (laws : Laws protocol) (n : ℕ) (s : System protocol)
    → Fresh s
    → ((i : ℕ) (j : protocol.Job) → (s.thread i).task ≡ writes j → laws.Allowed j)
    → laws.History [] s.shared
    → Waits laws n [] s
Fresh-Waits laws n s fresh allowed history = record {
  among = λ i h. absurd (h (fresh.all_outside i));
  own = λ i h. ground (arith, fresh.all_outside i);
  of_readers = λ i h. ground (arith, fresh.all_outside i);
  allowed = allowed;
  sleeping = λ i j h at. ground (arith, fresh.all_outside i);
  ready = λ i j h at. ground (arith, fresh.all_outside i);
  history = history;
}

-- While a thread reads, no step changes the object.
pub reading_stable :
    {protocol : Protocol} (n : ℕ) (s t : System protocol) {e : Event protocol.Job}
    → Locked n s
    → (i : ℕ) → i < n
    → (s.thread i).place ≡ reading
    → Step protocol n s e t
    → t.shared ≡ s.shared
reading_stable n s t locked i lt at (work_done k v j lt' task at') = absurd (
    ground (
      arith,
      le-total (λ t. is_reading t.place) n s.thread i lt,
      le-total (λ t. is_inside t.place) n s.thread k lt',
    ))
reading_stable n s t locked i lt at (enter _ _ _ _ _ _) = refl
reading_stable n s t locked i lt at (first _ _ _ _ _) = refl
reading_stable n s t locked i lt at (follow _ _ _ _) = refl
reading_stable n s t locked i lt at (leave _ _ _ _) = refl
reading_stable n s t locked i lt at (last _ _ _ _) = refl
reading_stable n s t locked i lt at (quit _ _ _ _) = refl
reading_stable n s t locked i lt at (lock _ _ _ _ _ _ _) = refl
reading_stable n s t locked i lt at (wait _ _ _ _ _ _) = refl
reading_stable n s t locked i lt at (pass _ _ _ _ _ _) = refl
reading_stable n s t locked i lt at (wake _ _ _) = refl
reading_stable n s t locked i lt at (relock _ _ _ _) = refl
