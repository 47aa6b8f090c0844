-- ===== src/ReadersWriters/Termination/Bound.antt =====
-- How many steps the threads round the object take.
use agh_systems_programming.Common.{
  ℕ, ◌+◌, ◌-◌, ◌*◌, ◌<◌, ◌≤◌, ◌≡◌, ◌≢◌, ap, sym, ◌∙◌, [], false, List, if◌then◌else◌, arith,
  Bool-cases, inl, inr,
}
use agh_systems_programming.Common.Family.{update, total, total-update, total-le}
use agh_systems_programming.ReadersWriters.{
  Protocol, Place, outside, counted, reading, leaving, testing, waiting, woken, working, writes,
  Thread, goto, finish, rouse, run, Event, System, Step, enter, first, follow, leave, last, quit,
  lock, wait, pass, wake, relock, work_done, Reach, here, next,
}
use agh_systems_programming.ReadersWriters.Invariant.{Laws, Locked}
use agh_systems_programming.ReadersWriters.Waits.{Waits, is_writer, reads_there}
use agh_systems_programming.ReadersWriters.Reached.{Reach-Waits}
use agh_systems_programming.ReadersWriters.Deadlock.{spurious}
use agh_systems_programming.ReadersWriters.Termination.{
  steps, wakeups, Credits, spent, to_come, Busy, goto-to_come, finish-to_come, work-to_come,
  roused-to_come,
}

-- All that the threads have left, with what is put by.
abbrev potential :
    {protocol : Protocol} {laws : Laws protocol} {c : ℕ} → Credits laws c → ℕ → System protocol → ℕ
potential {protocol} {c = c} credits n s =
    total (to_come protocol c) n s.thread + credits.credit s.shared

-- What a wakeup with no broadcast costs, and any other step.
abbrev extra :
    {protocol : Protocol} {n : ℕ} {s t : System protocol} {e : Event protocol.Job}
    → Step protocol n s e t
    → ℕ
extra step = if spurious step then 3 else 0

module _ {protocol : Protocol} (laws : Laws protocol) (c n : ℕ) (large : c ≡ 2 * n + 3)
    (credits : Credits laws c) where
  open protocol use {Job, Shared, endless, work}

  goto-less :
      (f : ℕ → Thread Job) (i : ℕ) (p : Place) (k : ℕ)
      → i < n
      → 0 < (f i).runs
      → spent (f i).place + 1 ≡ spent p + k
      → total (to_come protocol c) n (goto f i p) + 1 ≡ total (to_come protocol c) n f + k
  goto-less f i p k lt pos e = omega (
    arith,
    total-update (to_come protocol c) n f i (record (f i) { place = p }) lt,
    goto-to_come protocol c (omega arith) (f i) p k pos e,
  )

  finish-less :
      (f : ℕ → Thread Job) (i : ℕ)
      → i < n
      → is_writer (f i).task ≡ false
      → (f i).place ≡ leaving
      → 0 < (f i).runs
      → total (to_come protocol c) n (finish f i) + 1 ≡ total (to_come protocol c) n f
  finish-less f i lt own at pos = omega (
    arith,
    total-update (to_come protocol c) n f i
        (record (f i) { place = outside; runs = (f i).runs - 1 }) lt,
    finish-to_come protocol c (omega arith) (f i) own at pos,
  )

  work-less :
      (f : ℕ → Thread Job) (i v : ℕ) (j : Job) (es : List (Job × ℕ)) (b : Shared)
      → i < n
      → (f i).task ≡ writes j
      → (f i).place ≡ working
      → 0 < (f i).runs
      → laws.History es b
      → protocol.blocked j b ≡ false
      → total (to_come protocol c) n (
            update
              (rouse (work j v b).1 f)
              i
              (record (f i) { place = outside; runs = run protocol j (f i).runs }))
          + credits.credit (work j v b).0
          + 1
        ≤ total (to_come protocol c) n f + credits.credit b
  work-less f i v j es b lt own at pos history passed =
      let all = (work j v b).1 in
      let u : Thread Job = record (f i) { place = outside; runs = run protocol j (f i).runs } in
      let moved = total-update (to_come protocol c) n (rouse all f) i u lt in
      let others =
        total-le (to_come protocol c) 2 n f (rouse all f)
          (λ k below. roused-to_come protocol c (omega arith) f all k) in
      let still : to_come protocol c (rouse all f i) ≡ to_come protocol c (f i) = ground arith in
      let mine = work-to_come protocol c (omega arith) (f i) j own at pos in
      elim (Bool-cases (endless j)) [
        | inl always ↦ let paid = credits.takes j v es b history always passed in ground arith
        | inr ends ↦ let paid = credits.puts_by j v b ends in ground arith
      ]

  away :
      (s : System protocol) (i : ℕ) (p : Place)
      → Busy s.thread
      → (s.thread i).place ≡ p
      → p ≢ outside
      → 0 < (s.thread i).runs
  away s i p busy at ne = busy i (λ out. ne (sym at ∙ out))

  Step-Busy :
      (s t : System protocol) {e : Event Job} {es : List (Job × ℕ)}
      → Waits laws n es s
      → Busy s.thread
      → (step : Step protocol n s e t)
      → Busy t.thread × (potential credits n t + 1 ≤ potential credits n s + extra step)
  Step-Busy s t inv busy (enter i lt task at left free) =
      let m = goto-less s.thread i counted 0 lt left (ground arith) in
      (λ q. ground (arith, busy q), omega arith)
  Step-Busy s t inv busy (first i lt at one free) =
      let m =
        goto-less s.thread i reading 0 lt (away s i counted busy at (λ h. cc)) (ground arith) in
      (λ q. ground (arith, busy q), omega arith)
  Step-Busy s t inv busy (follow i lt at more) =
      let m =
        goto-less s.thread i reading 0 lt (away s i counted busy at (λ h. cc)) (ground arith) in
      (λ q. ground (arith, busy q), omega arith)
  Step-Busy s t inv busy (leave i lt at free) =
      let m =
        goto-less s.thread i leaving 0 lt (away s i reading busy at (λ h. cc)) (ground arith) in
      (λ q. ground (arith, busy q), omega arith)
  Step-Busy s t inv busy (lock i j lt task at left free) =
      let m = goto-less s.thread i testing 0 lt left (ground arith) in
      (λ q. ground (arith, busy q), omega arith)
  Step-Busy s t inv busy (wait i j lt task at h) =
      let m =
        goto-less s.thread i waiting 0 lt (away s i testing busy at (λ h. cc)) (ground arith) in
      (λ q. ground (arith, busy q), omega arith)
  Step-Busy s t inv busy (pass i j lt task at h) =
      let m =
        goto-less s.thread i working 0 lt (away s i testing busy at (λ h. cc)) (ground arith) in
      (λ q. ground (arith, busy q), omega arith)
  Step-Busy s t inv busy (wake i lt at) =
      let m = goto-less s.thread i woken 3 lt (away s i waiting busy at (λ h. cc)) (ground arith) in
      (λ q. ground (arith, busy q), omega arith)
  Step-Busy s t inv busy (relock i lt at free) =
      let m = goto-less s.thread i testing 0 lt (away s i woken busy at (λ h. cc)) (ground arith) in
      (λ q. ground (arith, busy q), omega arith)
  Step-Busy s t inv busy (last i lt at none_left) =
      let m =
        finish-less s.thread i lt (inv.of_readers i (ap reads_there at)) at
          (away s i leaving busy at (λ h. cc)) in
      (λ q. ground (arith, busy q), omega arith)
  Step-Busy s t inv busy (quit i lt at some_left) =
      let m =
        finish-less s.thread i lt (inv.of_readers i (ap reads_there at)) at
          (away s i leaving busy at (λ h. cc)) in
      (λ q. ground (arith, busy q), omega arith)
  Step-Busy s t {es = es} inv busy (work_done i v j lt task at) =
      let m =
        work-less s.thread i v j es s.shared lt task at (away s i working busy at (λ h. cc))
          inv.history (inv.ready i j task at) in
      (λ q. ground (arith, busy q), omega arith)

  pub Reach-Busy :
      (s t : System protocol) {es : List (Job × ℕ)}
      → Locked n s
      → Waits laws n [] s
      → Busy s.thread
      → (run : Reach protocol n s es t)
      → Busy t.thread
        × (steps run + potential credits n t ≤ potential credits n s + 3 * wakeups run)
  unfolding steps wakeups
  Reach-Busy s t locked inv busy here = (busy, omega arith)
  Reach-Busy s t locked inv busy (next {t = u} before step) =
      let (busy', count) = Reach-Busy s u locked inv busy before in
      let (busy'', less) = Step-Busy u t (Reach-Waits laws n s u locked inv before) busy' step in
      (busy'', ground arith)
