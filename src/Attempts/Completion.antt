-- ===== src/Attempts/Completion.antt =====
-- From each state, a run on which every call succeeds.
use agh_systems_programming.Common.{
  ℕ, zero, suc, ◌+◌, ◌-◌, ◌*◌, ◌<◌, ◌≤◌, ◌≡◌, inl, inr, refl, ap, true, false, ◌==◌, if◌then◌else◌,
  arith, ℕ_discrete, Bool-cases,
}
use agh_systems_programming.Common.Family.{total, total-update, total_pos, le-total}
use agh_systems_programming.Attempts.{
  ConcurrentObject, Place, outside, entering, reading, leaving, writing, reads, writes, Thread,
  System, at, done_at, busy, is_full, tried, Step, write_start, write_end, read_start, read_busy,
  read_full, read_admit, read_leave, read_end, Reach, here, next,
}
use agh_systems_programming.Attempts.Exclusion.{
  Locked, is_entering, is_writing, is_reading, is_leaving, tally, shut_out, Reach-Locked,
}
use agh_systems_programming.Attempts.Limit.{Reach-readers_limit}
use agh_systems_programming.Attempts.Standstill.{Task-cases}

-- How far a thread is from the end of its call, or of its attempt.
abbrev pub depth : Place → ℕ
depth outside = 0
depth (entering o) = 3
depth (reading o) = 2
depth (leaving o) = 1
depth (writing o) = 1

abbrev pub load : Thread → ℕ
load t = 4 * t.runs + depth t.place

at_outside : (p : Place) → depth p ≡ 0 → p ≡ outside
at_outside outside e = refl
at_outside (entering k) e = cc
at_outside (reading k) e = cc
at_outside (leaving k) e = cc
at_outside (writing k) e = cc

Reach-append :
    {n size : ℕ} {s t u : System} → Reach n size s t → Reach n size t u → Reach n size s u
Reach-append r here = r
Reach-append r (next r' step) = next (Reach-append r r') step

module _ (n size : ℕ) where
  -- A run that brings the threads nearer to the end.
  abbrev Nearer : System → Type 0
  Nearer s = (u : System) × Reach n size s u × (total load n u.thread < total load n s.thread)

  at-Nearer :
      (s : System) (o i : ℕ) (b : ConcurrentObject) (p : Place)
      → i < n
      → Step n size s (at s o b i p)
      → depth p < depth (s.thread i).place
      → Nearer s
  at-Nearer s o i b p lt step less = (
    at s o b i p,
    next here step,
    omega (arith, total-update load n s.thread i (record (s.thread i) { place = p }) lt),
  )

  done-Nearer :
      (s : System) (o i : ℕ) (b : ConcurrentObject)
      → i < n
      → Step n size s (done_at s o b i)
      → 0 < depth (s.thread i).place
      → Nearer s
  done-Nearer s o i b lt step less = (
    done_at s o b i,
    next here step,
    omega (
      arith,
      total-update load n s.thread i
          (record (s.thread i) { place = outside; runs = (s.thread i).runs - 1 }) lt,
    ),
  )

  module _ (s : System) (inv : (o : ℕ) → Locked n s.thread o (s.object o)) where
    from_entering : (i o : ℕ) → i < n → (s.thread i).place ≡ entering o → Nearer s
    from_entering i o lt there = elim (Bool-cases (busy (s.object o))) [
      | inl held_up ↦ at-Nearer s o i _ outside lt (read_busy i o lt there held_up) (ground arith)
      | inr passed ↦ elim (Bool-cases (is_full (s.object o))) [
        | inl full ↦
            at-Nearer s o i _ outside lt (read_full i o lt there passed full) (ground arith)
        | inr room ↦
            at-Nearer s o i _ (reading o) lt (read_admit i o lt there passed room) (ground arith)
      ]
    ]

    from_leaving : (i o : ℕ) → i < n → (s.thread i).place ≡ leaving o → Nearer s
    from_leaving i o lt there = done-Nearer s o i _ lt (read_end i o lt there) (ground arith)

    -- A reader that is to leave waits for one who comes or goes.
    from_reading : (i o : ℕ) → i < n → (s.thread i).place ≡ reading o → Nearer s
    from_reading i o lt there = elim (Bool-cases (s.object o).readers_mutex) [
      | inr free ↦ at-Nearer s o i _ (leaving o) lt (read_leave i o lt there free) (ground arith)
      | inl taken ↦ elim (ℕ_discrete (tally (is_entering o) n s.thread) 0) [
        | no some_one ↦
            let (j, below, pos) = total_pos (λ t. is_entering o t.place) n s.thread (omega arith) in
            from_entering j o below (at_entering (s.thread j).place pos)
        | yes nobody ↦
            let h = inv o in
            let some_one : 0 < tally (is_leaving o) n s.thread = ground arith in
            let (j, below, pos) = total_pos (λ t. is_leaving o t.place) n s.thread some_one in
            from_leaving j o below (at_leaving (s.thread j).place pos)
      ]
    ]
      where
        at_entering : (p : Place) → 0 < is_entering o p → p ≡ entering o
        at_entering (entering k) pos = ground arith
        at_entering outside pos = elim pos [ ]
        at_entering (reading k) pos = elim pos [ ]
        at_entering (leaving k) pos = elim pos [ ]
        at_entering (writing k) pos = elim pos [ ]

        at_leaving : (p : Place) → 0 < is_leaving o p → p ≡ leaving o
        at_leaving (leaving k) pos = ground arith
        at_leaving outside pos = elim pos [ ]
        at_leaving (reading k) pos = elim pos [ ]
        at_leaving (entering k) pos = elim pos [ ]
        at_leaving (writing k) pos = elim pos [ ]

    from_place : (i : ℕ) (p : Place) → i < n → (s.thread i).place ≡ p → 0 < depth p → Nearer s
    from_place i outside lt there pos = elim pos [ ]
    from_place i (entering o) lt there pos = from_entering i o lt there
    from_place i (reading o) lt there pos = from_reading i o lt there
    from_place i (leaving o) lt there pos = from_leaving i o lt there
    from_place i (writing o) lt there pos =
        done-Nearer s o i _ lt (write_end i o 0 lt there) (ground arith)

    -- A whole call of a thread, when all threads are outside.
    module _ (out : (i : ℕ) → i < n → (s.thread i).place ≡ outside) (i o : ℕ) (lt : i < n)
        (in_array : o < size) (opened : shut_out (s.object o) ≡ false)
        (left : 0 < (s.thread i).runs) where
      weightless : (w : Place → ℕ) → w outside ≡ 0 → tally w n s.thread ≡ 0
      weightless w e = elim (ℕ_discrete (tally w n s.thread) 0) [
        | yes nobody ↦ nobody
        | no some_one ↦
            let (j, below, pos) = total_pos (λ t. w t.place) n s.thread (omega arith) in
            absurd (omega (arith, e, ap w (out j below), pos))
      ]

      free :
          ((s.object o).readers_mutex ≡ false)
          × ((s.object o).writers_mutex ≡ false)
          × ((s.object o).readers_count ≡ 0)
      free =
          let h = inv o in
          let a = weightless (is_entering o) refl in
          let b = weightless (is_reading o) refl in
          let c = weightless (is_leaving o) refl in
          let d = weightless (is_writing o) refl in let e = h.accounted opened in ground arith

      write_call : (s.thread i).task ≡ writes → Nearer s
      write_call task =
          let (rm, wm, none_in) = free in
          let s1 = at s o (record (s.object o) { writers_mutex = true }) i (writing o) in
          let step : Step n size s s1 = write_start i o lt in_array task (out i lt) left wm in
          let there : (s1.thread i).place ≡ writing o = ground arith in
          let runs : (s1.thread i).runs ≡ (s.thread i).runs = ground arith in
          let a = total-update load n s.thread i (record (s.thread i) { place = writing o }) lt in
          let b =
            total-update load n s1.thread i
              (record (s1.thread i) { place = outside; runs = (s1.thread i).runs - 1 }) lt in
          (
            done_at s1 o (record (s1.object o) { value = 0; writers_mutex = false }) i,
            next (next here step) (write_end i o 0 lt there),
            ground (arith, a, b, out i lt),
          )

      read_call : (s.thread i).task ≡ reads → Nearer s
      read_call task =
          let (rm, wm, none_in) = free in
          let b0 = s.object o in
          let s1 = at s o (record b0 { readers_mutex = true }) i (entering o) in
          let step1 : Step n size s s1 = read_start i o lt in_array task (out i lt) left rm in
          let b1 = s1.object o in
          let p1 : (s1.thread i).place ≡ entering o = ground arith in
          let passed : busy b1 ≡ false = ground arith in
          let room : is_full b1 ≡ false = ground arith in
          let s2 =
            at s1 o
              (record b1 {
                writers_mutex = tried b1;
                readers_count = b1.readers_count + 1;
                readers_mutex = false;
              })
              i (reading o) in
          let step2 : Step n size s1 s2 = read_admit i o lt p1 passed room in
          let b2 = s2.object o in
          let p2 : (s2.thread i).place ≡ reading o = ground arith in
          let rm2 : b2.readers_mutex ≡ false = ground arith in
          let s3 =
            at s2 o (record b2 { readers_count = b2.readers_count - 1; readers_mutex = true }) i
              (leaving o) in
          let step3 : Step n size s2 s3 = read_leave i o lt p2 rm2 in
          let p3 : (s3.thread i).place ≡ leaving o = ground arith in
          let r3 : (s3.thread i).runs ≡ (s.thread i).runs = ground arith in
          let r2 : (s2.thread i).runs ≡ (s.thread i).runs = ground arith in
          let r1 : (s1.thread i).runs ≡ (s.thread i).runs = ground arith in
          let m1 = total-update load n s.thread i (record (s.thread i) { place = entering o }) lt in
          let m2 =
            total-update load n s1.thread i (record (s1.thread i) { place = reading o }) lt in
          let m3 =
            total-update load n s2.thread i (record (s2.thread i) { place = leaving o }) lt in
          let b3 = s3.object o in
          let s4 =
            done_at s3 o
              (record b3 {
                writers_mutex = if b3.readers_count == 0 then false else b3.writers_mutex;
                readers_mutex = false;
              })
              i in
          let m4 =
            total-update load n s3.thread i
              (record (s3.thread i) { place = outside; runs = (s3.thread i).runs - 1 }) lt in
          let l1 : load (s1.thread i) ≡ 4 * (s.thread i).runs + 3 = ground arith in
          let l2 : load (s2.thread i) ≡ 4 * (s.thread i).runs + 2 = ground arith in
          let l3 : load (s3.thread i) ≡ 4 * (s.thread i).runs + 1 = ground arith in
          let l0 : load (s.thread i) ≡ 4 * (s.thread i).runs = ground (arith, out i lt) in
          (
            s4,
            next (next (next (next here step1) step2) step3) (read_end i o lt p3),
            omega (arith, r3, m1, m2, m3, m4, l0, l1, l2, l3),
          )

    -- From a state in which calls are left, or threads are inside of one.
    nearer :
        (o : ℕ) → o < size → shut_out (s.object o) ≡ false → 0 < total load n s.thread → Nearer s
    nearer o in_array opened more = elim (ℕ_discrete (total (λ t. depth t.place) n s.thread) 0) [
      | no inside ↦
          let (i, lt, pos) = total_pos (λ t. depth t.place) n s.thread (omega arith) in
          from_place i (s.thread i).place lt refl pos
      | yes nobody ↦
          let out = λ (j : ℕ) (below : j < n).
            at_outside (s.thread j).place
              (omega (arith, le-total (λ t. depth t.place) n s.thread j below)) in
          let (i, lt, pos) = total_pos load n s.thread more in
          let left : 0 < (s.thread i).runs = ground (arith, out i lt) in
          elim (Task-cases (s.thread i).task) [
            | inl task ↦ read_call out i o lt in_array opened left task
            | inr task ↦ write_call out i o lt in_array opened left task
          ]
    ]

  unloaded :
      (s : System) (i : ℕ)
      → i < n
      → total load n s.thread ≡ 0
      → ((s.thread i).runs ≡ 0) × ((s.thread i).place ≡ outside)
  unloaded s i lt nothing =
      let below = le-total load n s.thread i lt in
      (omega arith, at_outside (s.thread i).place (omega arith))

  -- On fuel: the load goes down from run to run.
  pub complete :
      (m : ℕ) (s : System) (o : ℕ)
      → ((o : ℕ) → Locked n s.thread o (s.object o))
      → o < size
      → shut_out (s.object o) ≡ false
      → total load n s.thread ≤ m
      → (u : System) × Reach n size s u
        × ((i : ℕ) → i < n → ((u.thread i).runs ≡ 0) × ((u.thread i).place ≡ outside))
  complete zero s o inv in_array opened small = (s, here, λ i lt. unloaded s i lt (omega arith))
  complete (suc m) s o inv in_array opened small = elim (ℕ_discrete (total load n s.thread) 0) [
    | yes nothing ↦ (s, here, λ i lt. unloaded s i lt nothing)
    | no more ↦
        let (t, before, less) = nearer s inv o in_array opened (omega arith) in
        let same = Reach-readers_limit n size s t before o in
        let (u, after, done) =
          complete m t o (Reach-Locked n size s t inv before) in_array (ground arith)
            (omega arith) in
        (u, Reach-append before after, done)
  ]
