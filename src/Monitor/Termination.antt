-- ===== src/Monitor/Termination.antt =====
-- How many steps the threads around one buffer take.
use agh_systems_programming.Common.{
  ℕ, suc, ◌+◌, ◌-◌, ◌*◌, ◌<◌, ◌≤◌, ◌≡◌, ap, refl, none, Bool, true, List, if◌then◌else◌, arith,
}
use agh_systems_programming.Common.Family.{
  one_call, one_call-le, update, total, total-differ, total-update, total-le, total-blocks,
}
use agh_systems_programming.Monitor.{
  Protocol, reader, writer, Place, outside, testing, waiting, woken, working, Thread, in_call,
  roused, goto, finish, create, Event, System, Step, lock, wait, pass, wake, relock, take_out,
  put_in, Reach, here, next,
}
use agh_systems_programming.Monitor.Progress.{spurious}

-- How many steps of its call the thread has taken, those before it was woken left out.
abbrev spent : Place → ℕ
spent testing = 1
spent waiting = 2
spent working = 2
spent _ = 0

-- The steps that a thread has left, at `c` for a call.
abbrev to_come : ℕ → Thread → ℕ
to_come c t = t.runs * c - spent t.place

abbrev Busy : (ℕ → Thread) → Type 0
Busy f = (j : ℕ) → in_call (f j).place ≡ true → 0 < (f j).runs

module _ (c n : ℕ) where
  goto-to_come :
      (f : ℕ → Thread) (i : ℕ) (p : Place)
      → i < n
      → total (to_come c) n (goto f i p) + to_come c (f i)
        ≡ total (to_come c) n f + ((f i).runs * c - spent p)
  goto-to_come f i p lt =
      let kept = total-differ (to_come c) i n f (goto f i p) (λ j other. ground arith) lt in
      ground (arith, kept)

  roused-to_come : (t : Thread) → to_come c (roused t) ≤ to_come c t + 2
  roused-to_come t = ground arith

  finish-to_come :
      (f : ℕ → Thread) (i : ℕ) (all : Bool)
      → i < n
      → total (to_come c) n (finish f i all) + to_come c (f i)
        ≤ total (to_come c) n f + n * 2 + ((f i).runs - 1) * c
  finish-to_come f i all lt =
      let g = finish f i all in
      let back = total-update (to_come c) n g i (f i) lt in
      let less =
        total-le (to_come c) 2 n f (update g i (f i))
          (λ j below. ground (arith, roused-to_come (f j))) in
      let mine : to_come c (g i) ≡ ((f i).runs - 1) * c = ground arith in omega arith

  -- A step within a call, whose thread has taken `a` steps and then `b`.
  goto-less :
      (f : ℕ → Thread) (i : ℕ) (p : Place) (k : ℕ)
      → 2 ≤ c
      → i < n
      → 0 < (f i).runs
      → spent (f i).place + 1 ≡ spent p + k
      → total (to_come c) n (goto f i p) + 1 ≡ total (to_come c) n f + k
  goto-less f i p k big lt pos e =
      let room = one_call-le c (f i).runs pos in
      let small : (q : Place) → spent q ≤ 2 = λ q. ground arith in
      let a = small p in let b = small (f i).place in let m = goto-to_come f i p lt in omega arith

  -- The end of a call, that wakes the others or not.
  finish-less :
      (f : ℕ → Thread) (i : ℕ) (all : Bool)
      → c ≡ 2 * n + 3
      → i < n
      → 0 < (f i).runs
      → spent (f i).place ≡ 2
      → total (to_come c) n (finish f i all) + 1 ≤ total (to_come c) n f
  finish-less f i all e lt pos two =
      let room = one_call-le c (f i).runs pos in
      let one = one_call c (f i).runs pos in let m = finish-to_come f i all lt in omega arith

-- What a wakeup with no broadcast costs, and any other step.
abbrev extra :
    {protocol : Protocol} {n : ℕ} {s t : System protocol} {e : Event} → Step protocol n s e t → ℕ
extra step = if spurious step then 3 else 0

module _ {protocol : Protocol} (c n : ℕ) (large : c ≡ 2 * n + 3) where
  Step-Busy :
      (s t : System protocol) {e : Event}
      → Busy s.thread
      → (step : Step protocol n s e t)
      → Busy t.thread
        × (total (to_come c) n t.thread + 1 ≤ total (to_come c) n s.thread + extra step)
  Step-Busy s t busy (lock i lt at left free) =
      let m = goto-less c n s.thread i testing 0 (omega arith) lt left (ground arith) in
      (λ j. ground (arith, busy j), omega arith)
  Step-Busy s t busy (wait i lt at h) =
      let m =
        goto-less c n s.thread i waiting 0 (omega arith) lt (busy i (ap in_call at))
          (ground arith) in
      (λ j. ground (arith, busy j), omega arith)
  Step-Busy s t busy (pass i lt at h) =
      let m =
        goto-less c n s.thread i working 0 (omega arith) lt (busy i (ap in_call at))
          (ground arith) in
      (λ j. ground (arith, busy j), omega arith)
  Step-Busy s t busy (wake i lt at) =
      let m =
        goto-less c n s.thread i woken 3 (omega arith) lt (busy i (ap in_call at)) (ground arith) in
      (λ j. ground (arith, busy j), omega arith)
  Step-Busy s t busy (relock i lt at free) =
      let m =
        goto-less c n s.thread i testing 0 (omega arith) lt (busy i (ap in_call at))
          (ground arith) in
      (λ j. ground (arith, busy j), omega arith)
  Step-Busy s t busy (take_out i lt at r) =
      let m =
        finish-less c n s.thread i (protocol.read s.buffer).2 large lt (busy i (ap in_call at))
          (ground arith) in
      (λ j. ground (arith, busy j), omega arith)
  Step-Busy s t busy (put_in i v lt at r) =
      let m =
        finish-less c n s.thread i (protocol.write v s.buffer).1 large lt (busy i (ap in_call at))
          (ground arith) in
      (λ j. ground (arith, busy j), omega arith)

module _ {protocol : Protocol} where
  -- The steps of a run.
  unfoldable pub steps :
      {n : ℕ} {s t : System protocol} {ws rs : List ℕ} → Reach protocol n s ws rs t → ℕ
  steps here = 0
  steps (next before step) = suc (steps before)

  -- The wakeups of a run for which there was no broadcast.
  unfoldable pub wakeups :
      {n : ℕ} {s t : System protocol} {ws rs : List ℕ} → Reach protocol n s ws rs t → ℕ
  wakeups here = 0
  wakeups (next before step) = wakeups before + (if spurious step then 1 else 0)

  Reach-Busy :
      (c n : ℕ) (s t : System protocol) {ws rs : List ℕ}
      → c ≡ 2 * n + 3
      → Busy s.thread
      → (run : Reach protocol n s ws rs t)
      → Busy t.thread
        × (steps run + total (to_come c) n t.thread
            ≤ total (to_come c) n s.thread + 3 * wakeups run)
  unfolding steps wakeups
  Reach-Busy c n s t large busy here = (busy, omega arith)
  Reach-Busy c n s t large busy (next {t = u} before step) =
      let (busy', count) = Reach-Busy c n s u large busy before in
      let (busy'', less) = Step-Busy c n large u t busy' step in (busy'', ground arith)

  -- However the threads of Task2 or Task6 interleave, whatever their buffer does: a run has at most
  -- 2 n + 3 steps for each call that `main` gives to one of the n threads, and three for each wakeup with
  -- no broadcast.
  pub threads_terminate :
      (num_readers num_writers reader_runs writer_runs : ℕ) (b : protocol.Buffer)
      (t : System protocol) {ws rs : List ℕ}
      → let n = num_readers + num_writers in
        let first : System protocol = record {
          buffer = b;
          thread = create num_readers reader_runs writer_runs;
          holder = none;
        } in
        (run : Reach protocol n first ws rs t)
        → steps run
          ≤ num_readers * (reader_runs * (2 * n + 3))
            + num_writers * (writer_runs * (2 * n + 3))
            + 3 * wakeups run
  threads_terminate num_readers num_writers reader_runs writer_runs b t run =
      let n = num_readers + num_writers in
      let c = 2 * n + 3 in
      let first : System protocol = record {
        buffer = b;
        thread = create num_readers reader_runs writer_runs;
        holder = none;
      } in
      let (_, count) = Reach-Busy c n first t refl (λ j h. absurd (ground arith)) run in
      let all =
        total-blocks (to_come c) num_readers num_writers
          (record { role = reader; runs = reader_runs; place = outside })
          (record { role = writer; runs = writer_runs; place = outside }) in
      let r : reader_runs * c - 0 ≡ reader_runs * c = omega arith in
      let w : writer_runs * c - 0 ≡ writer_runs * c = omega arith in
      let start' = rw (r, w) at all in omega arith
