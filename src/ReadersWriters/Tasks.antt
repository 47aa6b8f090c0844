-- ===== src/ReadersWriters/Tasks.antt =====
-- What no step changes: the task of a thread, and the calls left of one that goes on for ever.
use agh_systems_programming.Common.{ℕ, ◌≡◌, refl, ◌∙◌, true, List, [], arith}
use agh_systems_programming.ReadersWriters.{
  Protocol, writes, Event, System, Step, enter, first, follow, leave, last, quit, lock, wait, pass,
  wake, relock, work_done, Reach, here, next,
}
use agh_systems_programming.ReadersWriters.Invariant.{Laws, Locked}
use agh_systems_programming.ReadersWriters.Waits.{Waits}
use agh_systems_programming.ReadersWriters.Reached.{Reach-Waits}

module _ {protocol : Protocol} (n : ℕ) where
  open protocol use {Shared, Job, endless, blocked, work}

  pub Step-task :
      (s t : System protocol) {e : Event Job}
      → Step protocol n s e t
      → (k : ℕ) → (t.thread k).task ≡ (s.thread k).task
  Step-task s t (enter i lt task at left free) k = ground arith
  Step-task s t (first i lt at one free) k = ground arith
  Step-task s t (follow i lt at more) k = ground arith
  Step-task s t (leave i lt at free) k = ground arith
  Step-task s t (last i lt at none_left) k = ground arith
  Step-task s t (quit i lt at some_left) k = ground arith
  Step-task s t (lock i j lt task at left free) k = ground arith
  Step-task s t (wait i j lt task at h) k = ground arith
  Step-task s t (pass i j lt task at h) k = ground arith
  Step-task s t (wake i lt at) k = ground arith
  Step-task s t (relock i lt at free) k = ground arith
  Step-task s t (work_done i v j lt task at) k = ground arith

  pub Step-runs :
      (laws : Laws protocol) (s t : System protocol) {e : Event Job} {es : List (Job × ℕ)}
      → Waits laws n es s
      → Step protocol n s e t
      → (k : ℕ) (j : Job) → (s.thread k).task ≡ writes j
      → endless j ≡ true
      → (t.thread k).runs ≡ (s.thread k).runs
  Step-runs laws s t inv (enter i lt task at left free) k j own always = ground arith
  Step-runs laws s t inv (first i lt at one free) k j own always = ground arith
  Step-runs laws s t inv (follow i lt at more) k j own always = ground arith
  Step-runs laws s t inv (leave i lt at free) k j own always = ground arith
  Step-runs laws s t inv (last i lt at none_left) k j own always = ground (arith, inv.of_readers i)
  Step-runs laws s t inv (quit i lt at some_left) k j own always = ground (arith, inv.of_readers i)
  Step-runs laws s t inv (lock i j' lt task at left free) k j own always = ground arith
  Step-runs laws s t inv (wait i j' lt task at h) k j own always = ground arith
  Step-runs laws s t inv (pass i j' lt task at h) k j own always = ground arith
  Step-runs laws s t inv (wake i lt at) k j own always = ground arith
  Step-runs laws s t inv (relock i lt at free) k j own always = ground arith
  Step-runs laws s t inv (work_done i v j' lt task at) k j own always = ground arith

  pub Reach-task :
      (s t : System protocol) {es : List (Job × ℕ)}
      → Reach protocol n s es t
      → (k : ℕ) → (t.thread k).task ≡ (s.thread k).task
  Reach-task s t here k = refl
  Reach-task s t (next {t = u} before step) k = Step-task u t step k ∙ Reach-task s u before k

  pub Reach-runs :
      (laws : Laws protocol) (s t : System protocol) {es : List (Job × ℕ)}
      → Locked n s
      → Waits laws n [] s
      → Reach protocol n s es t
      → (k : ℕ) (j : Job) → (s.thread k).task ≡ writes j
      → endless j ≡ true
      → (t.thread k).runs ≡ (s.thread k).runs
  Reach-runs laws s t locked inv here k j own always = refl
  Reach-runs laws s t locked inv (next {t = u} before step) k j own always =
      Step-runs laws u t (Reach-Waits laws n s u locked inv before) step k j
        (Reach-task s u before k ∙ own) always
      ∙ Reach-runs laws s u locked inv before k j own always
