-- ===== src/ReadersWriters/Termination.antt =====
-- How many steps a thread round the object has left, and what calls put by for others.
pub mod Bound
use agh_systems_programming.Common.{
  ℕ, zero, suc, ◌+◌, ◌-◌, ◌*◌, ◌<◌, ◌≤◌, ◌≡◌, ◌≢◌, refl, ap, Bool, true, false, List, if◌then◌else◌,
  arith, Bool-cases, inl, inr,
}
use agh_systems_programming.Common.Family.{
  update, total, total-update, total-le, one_call, one_call-le,
}
use agh_systems_programming.ReadersWriters.{
  Protocol, Place, outside, counted, reading, leaving, testing, waiting, woken, working, Task,
  reads, writes, Thread, woken_up, goto, finish, rouse, run, Event, System, Step, enter, first,
  follow, leave, last, quit, lock, wait, pass, wake, relock, work_done, Reach, here, next,
}
use agh_systems_programming.ReadersWriters.Invariant.{Laws, Locked}
use agh_systems_programming.ReadersWriters.Waits.{Waits, is_writer}
use agh_systems_programming.ReadersWriters.Reached.{Reach-Locked, Reach-Waits}
use agh_systems_programming.ReadersWriters.Deadlock.{spurious}

module _ {protocol : Protocol} where
  -- The steps of a run.
  unfoldable pub steps :
      {n : ℕ} {s t : System protocol} {es : List (protocol.Job × ℕ)} → Reach protocol n s es t → ℕ
  steps here = 0
  steps (next before step) = suc (steps before)

  -- The wakeups of a run for which there was no broadcast.
  unfoldable pub wakeups :
      {n : ℕ} {s t : System protocol} {es : List (protocol.Job × ℕ)} → Reach protocol n s es t → ℕ
  wakeups here = 0
  wakeups (next before step) = wakeups before + (if spurious step then 1 else 0)

-- What calls put by in the object, `c` each at most, for the calls that are made for ever, which take `c` each
-- at least.
pub record Credits {protocol : Protocol} (laws : Laws protocol) (c : ℕ) : Type 0 where
  pub credit : protocol.Shared → ℕ
  pub puts_by :
      (j : protocol.Job) (v : ℕ) (b : protocol.Shared)
      → protocol.endless j ≡ false
      → credit (protocol.work j v b).0 ≤ credit b + c
  pub takes :
      (j : protocol.Job) (v : ℕ) (es : List (protocol.Job × ℕ)) (b : protocol.Shared)
      → laws.History es b
      → protocol.endless j ≡ true
      → protocol.blocked j b ≡ false
      → credit (protocol.work j v b).0 + c ≤ credit b

-- How many steps of its call the thread has taken, those before it was woken left out.
abbrev spent : Place → ℕ
spent counted = 1
spent reading = 2
spent leaving = 3
spent testing = 1
spent waiting = 2
spent working = 2
spent _ = 0

module _ (protocol : Protocol) (c : ℕ) where
  open protocol use {Job, endless}

  -- The steps for the calls left. Those of a call without end but the first are paid for by others.
  abbrev allotted : Task Job → ℕ → ℕ
  allotted reads r = r * 4
  allotted (writes j) r = if endless j then 3 else r * (2 * c)

  abbrev pub to_come : Thread Job → ℕ
  to_come t = allotted t.task t.runs - spent t.place

abbrev Busy : {Job : Type 0} → (ℕ → Thread Job) → Type 0
Busy f = (j : ℕ) → (f j).place ≢ outside → 0 < (f j).runs

spent-le : (p : Place) → spent p ≤ 3
spent-le p = ground arith

module _ (protocol : Protocol) (c : ℕ) (large : 2 ≤ c) where
  open protocol use {Job, endless}

  allotted-le : (task : Task Job) (r : ℕ) → 0 < r → 3 ≤ allotted protocol c task r
  allotted-le reads r pos = omega arith
  allotted-le (writes j) r pos =
      let room = one_call-le (2 * c) r pos in
      elim (Bool-cases (endless j)) [ inl always ↦ ground arith | inr ends ↦ ground arith ]

  goto-to_come :
      (t : Thread Job) (p : Place) (k : ℕ)
      → 0 < t.runs
      → spent t.place + 1 ≡ spent p + k
      → to_come protocol c (record t { place = p }) + 1 ≡ to_come protocol c t + k
  goto-to_come t p k pos e =
      omega (arith, allotted-le t.task t.runs pos, spent-le p, spent-le t.place)

  allotted-reads :
      (task : Task Job) (r : ℕ) → is_writer task ≡ false → allotted protocol c task r ≡ r * 4
  allotted-reads reads r h = refl
  allotted-reads (writes j) r h = absurd (cc h)

  finish-to_come :
      (t : Thread Job)
      → is_writer t.task ≡ false
      → t.place ≡ leaving
      → 0 < t.runs
      → to_come protocol c (record t { place = outside; runs = t.runs - 1 }) + 1
        ≡ to_come protocol c t
  finish-to_come t own at pos =
      let a = allotted-reads t.task t.runs own in
      let b = allotted-reads t.task (t.runs - 1) own in
      let e : spent t.place ≡ 3 = ap spent at in omega arith

  -- A call of an endless job leaves the thread as it was, another takes what was allotted to it.
  work-to_come :
      (t : Thread Job) (j : Job)
      → t.task ≡ writes j
      → t.place ≡ working
      → 0 < t.runs
      → to_come protocol c (record t { place = outside; runs = run protocol j t.runs })
          + (if endless j then 0 else 2 * c)
        ≡ to_come protocol c t + 2
  work-to_come t j own at pos =
      let a : allotted protocol c t.task t.runs ≡ (if endless j then 3 else t.runs * (2 * c)) =
        ap (λ x. allotted protocol c x t.runs) own in
      let b : allotted protocol c t.task (run protocol j t.runs)
          ≡ (if endless j then 3 else run protocol j t.runs * (2 * c)) =
        ap (λ x. allotted protocol c x (run protocol j t.runs)) own in
      let one = one_call (2 * c) t.runs pos in
      let room = one_call-le (2 * c) t.runs pos in
      let e : spent t.place ≡ 2 = ap spent at in
      elim (Bool-cases (endless j)) [ inl always ↦ ground arith | inr ends ↦ ground arith ]

  roused-to_come :
      (f : ℕ → Thread Job) (all : Bool) (j : ℕ)
      → to_come protocol c (rouse all f j) ≤ to_come protocol c (f j) + 2
  roused-to_come f all j =
      let less : (p : Place) → spent p ≤ spent (woken_up p) + 2 = λ p. ground arith in
      let h = less (f j).place in ground arith
