-- ===== src/Monitor/Deadlock.antt =====
-- States in which no thread can move but by a spurious wakeup.
use agh_systems_programming.Common.{
  ℕ, ◌<◌, ◌≡◌, ◌≢◌, ◌⊎◌, refl, none, true, false, arith, Bool-cases, Option-cases, ℕ_discrete, inl,
  inr,
}
use agh_systems_programming.Monitor.{
  Role, reader, writer, Protocol, Place, outside, testing, waiting, woken, working, Thread, Event,
  System, Step, lock, wait, pass, relock, take_out, put_in,
}
use agh_systems_programming.Monitor.Counts.{share, remaining, remaining-zero, share-le-remaining}
use agh_systems_programming.Monitor.Invariant.{Laws, Inv}
use agh_systems_programming.Monitor.Progress.{Accounts, Counted, spurious}

Role-cases : (r : Role) → (r ≡ reader) ⊎ (r ≡ writer)
Role-cases reader = inl refl
Role-cases writer = inr refl

Place-cases :
    (p : Place) → (p ≡ outside) ⊎ (p ≡ waiting) ⊎ (p ≡ woken) ⊎ (p ≡ testing) ⊎ (p ≡ working)
Place-cases outside = inl refl
Place-cases waiting = inr (inl refl)
Place-cases woken = inr (inr (inl refl))
Place-cases testing = inr (inr (inr (inl refl)))
Place-cases working = inr (inr (inr (inr refl)))

own_share : (r : Role) (t : Thread) → share r t ≢ 0 → t.role ≡ r
own_share reader t h = elim (Role-cases t.role) [ inl e ↦ e | inr e ↦ absurd (h (ground arith)) ]
own_share writer t h = elim (Role-cases t.role) [ inl e ↦ absurd (h (ground arith)) | inr e ↦ e ]

runs_pos : (r : Role) (t : Thread) → share r t ≢ 0 → 0 < t.runs
runs_pos r t h = ground arith

share_own : (r : Role) (t : Thread) → t.role ≡ r → share r t ≡ t.runs
share_own reader t e = ground arith
share_own writer t e = ground arith

module _ {protocol : Protocol} {laws : Laws protocol} (accounts : Accounts laws) (n : ℕ)
    (t : System protocol) (inv : Inv laws t) (c : Counted accounts n t)
    (stuck : (e : Event) (u : System protocol) (step : Step protocol n t e u)
      → spurious step ≡ true) where
  open protocol use {Buffer, blocked, read, write}

  impossible :
      {e : Event} {u : System protocol} (step : Step protocol n t e u) → spurious step ≢ false
  impossible {e = e} {u = u} step h = let k = stuck e u step in absurd (ground arith)

  at_test : (i : ℕ) → i < n → (t.thread i).place ≢ testing
  at_test i lt at = elim (Bool-cases (blocked (t.thread i).role t.buffer)) [
    | inl stays ↦ absurd (impossible (wait i lt at stays) refl)
    | inr passes ↦ absurd (impossible (pass i lt at passes) refl)
  ]

  at_work : (i : ℕ) → i < n → (t.thread i).place ≢ working
  at_work i lt at = elim (Role-cases (t.thread i).role) [
    | inl r ↦ absurd (impossible (take_out i lt at r) refl)
    | inr r ↦ absurd (impossible (put_in i 0 lt at r) refl)
  ]

  free : t.holder ≡ none
  free = elim (Option-cases t.holder) [
    | inl unheld ↦ unheld
    | inr (i, held) ↦ elim (Place-cases (t.thread i).place) [
      | inr (inr (inr (inl at))) ↦ absurd (at_test i (c.among i held) at)
      | inr (inr (inr (inr at))) ↦ absurd (at_work i (c.among i held) at)
      | inl at ↦ absurd (ground (arith, c.held i held))
      | inr (inl at) ↦ absurd (ground (arith, c.held i held))
      | inr (inr (inl at)) ↦ absurd (ground (arith, c.held i held))
    ]
  ]

  still_waiting : (i : ℕ) → i < n → 0 < (t.thread i).runs → (t.thread i).place ≡ waiting
  still_waiting i lt left = elim (Place-cases (t.thread i).place) [
    | inl at ↦ absurd (impossible (lock i lt at left free) refl)
    | inr (inl at) ↦ at
    | inr (inr (inl at)) ↦ absurd (impossible (relock i lt at free) refl)
    | inr (inr (inr (inl at))) ↦ absurd (at_test i lt at)
    | inr (inr (inr (inr at))) ↦ absurd (at_work i lt at)
  ]

  no_share : (r : Role) → blocked r t.buffer ≡ false → (j : ℕ) → j < n → share r (t.thread j) ≡ 0
  no_share r passed j lt = elim (ℕ_discrete (share r (t.thread j)) 0) [
    | yes done ↦ done
    | no left ↦
        let own : (t.thread j).role ≡ r = own_share r (t.thread j) left in
        let pos : 0 < (t.thread j).runs = runs_pos r (t.thread j) left in
        let stays : blocked r t.buffer ≡ true =
          rw own at (inv.sleeping j (still_waiting j lt pos)) in
        absurd (ground arith)
  ]

  -- A role that does not wait has no calls left.
  none_left : (r : Role) → blocked r t.buffer ≡ false → remaining r n t.thread ≡ 0
  none_left r passed = remaining-zero r n t.thread (λ j lt. no_share r passed j lt)

  not_both : blocked writer t.buffer ≡ true → blocked reader t.buffer ≡ false
  not_both stays = elim (Bool-cases (blocked reader t.buffer)) [
    | inl both ↦ let passed = accounts.exclusive t.buffer inv.fit both in absurd (ground arith)
    | inr passed ↦ passed
  ]

  pub stuck_no_calls : (i : ℕ) → i < n → (t.thread i).runs ≡ 0
  stuck_no_calls i lt = elim (ℕ_discrete (t.thread i).runs 0) [
    | yes done ↦ done
    | no left ↦
        let at : (t.thread i).place ≡ waiting = still_waiting i lt (omega arith) in
        elim (Role-cases (t.thread i).role) [
          | inl r ↦
              let stays : blocked reader t.buffer ≡ true = rw r at (inv.sleeping i at) in
              let writes = none_left writer (accounts.exclusive t.buffer inv.fit stays) in
              let reads =
                accounts.drained t.buffer (remaining reader n t.thread) inv.fit stays
                  (rw writes at c.account) in
              omega (
                arith,
                share_own reader (t.thread i) r,
                share-le-remaining reader n t.thread i lt,
                reads,
              )
          | inr r ↦
              let stays : blocked writer t.buffer ≡ true = rw r at (inv.sleeping i at) in
              let reads = none_left reader (not_both stays) in
              let writes =
                accounts.filled t.buffer (remaining writer n t.thread) inv.fit stays
                  (rw reads at c.account) in
              omega (
                arith,
                share_own writer (t.thread i) r,
                share-le-remaining writer n t.thread i lt,
                writes,
              )
        ]
  ]
