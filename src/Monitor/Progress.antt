-- ===== src/Monitor/Progress.antt =====
-- The calls that are left, over the steps of the threads around one buffer.
use agh_systems_programming.Common.{ℕ, ◌+◌, ◌<◌, ◌≡◌, sym, ap, List, some, Bool, true, false, arith}
use agh_systems_programming.Monitor.{
  reader, writer, Protocol, Place, testing, waiting, woken, working, Thread, inside, in_call, goto,
  finish, Event, System, Step, lock, wait, pass, wake, relock, take_out, put_in, Reach, here, next,
}
use agh_systems_programming.Monitor.Counts.{remaining, remaining-goto, remaining-finish}
use agh_systems_programming.Monitor.Invariant.{Laws, Inv}
use agh_systems_programming.Monitor.Safety.{Reach-Inv}

-- How a buffer and the calls of writers and of readers left go together: when a role has no calls
-- left, no call of the other role waits.
pub record Accounts {protocol : Protocol} (laws : Laws protocol) : Type 1 where
  pub Account : protocol.Buffer → (writes reads : ℕ) → Type 0
  pub read-Account :
      (b : protocol.Buffer) (writes reads : ℕ)
      → laws.Fit b
      → protocol.blocked reader b ≡ false
      → Account b writes (reads + 1)
      → Account (protocol.read b).1 writes reads
  pub write-Account :
      (v : ℕ) (b : protocol.Buffer) (writes reads : ℕ)
      → laws.Fit b
      → protocol.blocked writer b ≡ false
      → Account b (writes + 1) reads
      → Account (protocol.write v b).0 writes reads
  pub drained :
      (b : protocol.Buffer) (reads : ℕ)
      → laws.Fit b
      → protocol.blocked reader b ≡ true
      → Account b 0 reads
      → reads ≡ 0
  pub filled :
      (b : protocol.Buffer) (writes : ℕ)
      → laws.Fit b
      → protocol.blocked writer b ≡ true
      → Account b writes 0
      → writes ≡ 0
  pub exclusive :
      (b : protocol.Buffer)
      → laws.Fit b
      → protocol.blocked reader b ≡ true
      → protocol.blocked writer b ≡ false

-- A thread in a call has that call left, the one that holds the mutex is inside, and the calls left
-- are accounted for.
pub record Counted {protocol : Protocol} {laws : Laws protocol} (accounts : Accounts laws) (n : ℕ)
    (s : System protocol) : Type 0 where
  pub busy : (i : ℕ) → in_call (s.thread i).place ≡ true → 0 < (s.thread i).runs
  pub held : (i : ℕ) → s.holder ≡ some i → inside (s.thread i).place ≡ true
  pub among : (i : ℕ) → s.holder ≡ some i → i < n
  pub account :
      accounts.Account s.buffer (remaining writer n s.thread) (remaining reader n s.thread)

-- Is the step a thread's waking with no broadcast?
abbrev pub spurious :
    {protocol : Protocol} {n : ℕ} {s t : System protocol} {e : Event} → Step protocol n s e t → Bool
spurious (wake i lt at) = true
spurious _ = false

module _ {protocol : Protocol} {laws : Laws protocol} (accounts : Accounts laws) (n : ℕ) where
  open protocol use {Buffer, blocked, read, write}
  open accounts use {Account}

  goto-Account :
      (b : Buffer) (f : ℕ → Thread) (i : ℕ) (p : Place)
      → Account b (remaining writer n f) (remaining reader n f)
      → Account b (remaining writer n (goto f i p)) (remaining reader n (goto f i p))
  goto-Account b f i p h = rw (remaining-goto writer n f i p, remaining-goto reader n f i p) h

  pub Step-Counted :
      (s t : System protocol) {e : Event}
      → Inv laws s
      → Counted accounts n s
      → Step protocol n s e t
      → Counted accounts n t
  Step-Counted s t inv c (lock i lt at left free) = record {
    busy = λ j h. ground (arith, c.busy j);
    held = λ j h. ground (arith, c.held j);
    among = λ j h. ground (arith, c.among j);
    account = goto-Account s.buffer s.thread i testing c.account;
  }
  Step-Counted s t inv c (wait i lt at h) = record {
    busy = λ j h. ground (arith, c.busy j);
    held = λ j h. ground arith;
    among = λ j h. ground arith;
    account = goto-Account s.buffer s.thread i waiting c.account;
  }
  Step-Counted s t inv c (pass i lt at h) = record {
    busy = λ j h. ground (arith, c.busy j);
    held = λ j h. ground (arith, c.held j);
    among = c.among;
    account = goto-Account s.buffer s.thread i working c.account;
  }
  Step-Counted s t inv c (wake i lt at) = record {
    busy = λ j h. ground (arith, c.busy j);
    held = λ j h. ground (arith, c.held j);
    among = c.among;
    account = goto-Account s.buffer s.thread i woken c.account;
  }
  Step-Counted s t inv c (relock i lt at free) = record {
    busy = λ j h. ground (arith, c.busy j);
    held = λ j h. ground (arith, c.held j);
    among = λ j h. ground (arith, c.among j);
    account = goto-Account s.buffer s.thread i testing c.account;
  }
  Step-Counted s t inv c (take_out i lt at r) =
      let passed : blocked reader s.buffer ≡ false = rw r at (inv.ready i at) in
      let all = (read s.buffer).2 in
      let pos : 0 < (s.thread i).runs = c.busy i (ap in_call at) in
      let reads : remaining reader n s.thread ≡ remaining reader n (finish s.thread i all) + 1 =
        sym (rw r at (remaining-finish reader n s.thread i all lt pos)) in
      let writes : remaining writer n s.thread ≡ remaining writer n (finish s.thread i all) =
        ground (arith, remaining-finish writer n s.thread i all lt pos) in
      record {
        busy = λ j h. ground (arith, c.busy j);
        held = λ j h. ground arith;
        among = λ j h. ground arith;
        account =
            accounts.read-Account s.buffer (remaining writer n (finish s.thread i all))
              (remaining reader n (finish s.thread i all)) inv.fit passed
              (rw (reads, writes) at c.account);
      }
  Step-Counted s t inv c (put_in i v lt at r) =
      let passed : blocked writer s.buffer ≡ false = rw r at (inv.ready i at) in
      let all = (write v s.buffer).1 in
      let pos : 0 < (s.thread i).runs = c.busy i (ap in_call at) in
      let writes : remaining writer n s.thread ≡ remaining writer n (finish s.thread i all) + 1 =
        sym (rw r at (remaining-finish writer n s.thread i all lt pos)) in
      let reads : remaining reader n s.thread ≡ remaining reader n (finish s.thread i all) =
        ground (arith, remaining-finish reader n s.thread i all lt pos) in
      record {
        busy = λ j h. ground (arith, c.busy j);
        held = λ j h. ground arith;
        among = λ j h. ground arith;
        account =
            accounts.write-Account v s.buffer (remaining writer n (finish s.thread i all))
              (remaining reader n (finish s.thread i all)) inv.fit passed
              (rw (reads, writes) at c.account);
      }

  pub Reach-Counted :
      (s t : System protocol) {ws rs : List ℕ}
      → Inv laws s
      → Counted accounts n s
      → Reach protocol n s ws rs t
      → Counted accounts n t
  Reach-Counted s t inv c here = c
  Reach-Counted s t inv c (next {t = u} before step) =
      Step-Counted u t (Reach-Inv laws n s u inv before) (Reach-Counted s u inv c before) step
