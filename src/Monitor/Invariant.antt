-- ===== src/Monitor/Invariant.antt =====
-- What every interleaving of the threads around one buffer keeps.
use agh_systems_programming.Common.{
  ℕ, ◌≡◌, ap, ◌++◌, ◌∷◌, List, [], some, none, Bool, true, false, arith,
}
use agh_systems_programming.Monitor.{
  Role, reader, writer, Protocol, waiting, working, inside, finish, Event, System, Step, lock, wait,
  pass, wake, relock, take_out, put_in,
}

-- What the threads rely on of their buffer: reading and writing, each behind its test, keep the buffer
-- fit, are first in first out, and broadcast whenever they end what another role waits for.
pub record Laws (protocol : Protocol) : Type 1 where
  pub Fit : protocol.Buffer → Type 0
  pub contents : protocol.Buffer → List ℕ
  pub read-Fit :
      (b : protocol.Buffer) → Fit b → protocol.blocked reader b ≡ false → Fit (protocol.read b).1
  pub write-Fit :
      (v : ℕ) (b : protocol.Buffer)
      → Fit b
      → protocol.blocked writer b ≡ false
      → Fit (protocol.write v b).0
  pub read-contents :
      (b : protocol.Buffer)
      → Fit b
      → protocol.blocked reader b ≡ false
      → contents b ≡ (protocol.read b).0 ∷ contents (protocol.read b).1
  pub write-contents :
      (v : ℕ) (b : protocol.Buffer)
      → Fit b
      → protocol.blocked writer b ≡ false
      → contents (protocol.write v b).0 ≡ contents b ++ v ∷ []
  pub read-blocked :
      (r : Role) (b : protocol.Buffer)
      → Fit b
      → protocol.blocked reader b ≡ false
      → (protocol.read b).2 ≡ false
      → protocol.blocked r b ≡ true
      → protocol.blocked r (protocol.read b).1 ≡ true
  pub write-blocked :
      (r : Role) (v : ℕ) (b : protocol.Buffer)
      → Fit b
      → protocol.blocked writer b ≡ false
      → (protocol.write v b).1 ≡ false
      → protocol.blocked r b ≡ true
      → protocol.blocked r (protocol.write v b).0 ≡ true

-- The buffer is fit, a thread at the test or behind it is the one that holds the mutex, the test of a
-- thread that waits is still true, and that of a thread behind the loop still false.
pub record Inv {protocol : Protocol} (laws : Laws protocol) (s : System protocol) : Type 0 where
  pub fit : laws.Fit s.buffer
  pub owner : (i : ℕ) → inside (s.thread i).place ≡ true → s.holder ≡ some i
  pub sleeping :
      (i : ℕ) → (s.thread i).place ≡ waiting → protocol.blocked (s.thread i).role s.buffer ≡ true
  pub ready :
      (i : ℕ) → (s.thread i).place ≡ working → protocol.blocked (s.thread i).role s.buffer ≡ false

module _ {protocol : Protocol} (laws : Laws protocol) where
  open protocol use {Buffer, blocked, read, write}

  -- Where thread `i` gives the mutex up, no other thread is inside.
  pub alone :
      {s : System protocol}
      → Inv laws s
      → (i j : ℕ) → inside (s.thread i).place ≡ true
      → inside (s.thread j).place ≡ true
      → i ≡ j
  alone inv i j hi hj = grind (arith, inv.owner i hi, inv.owner j hj)

  -- The end of a call by thread `i`, which holds the mutex.
  finish-Inv :
      (s : System protocol) (i : ℕ) (b : Buffer) (all : Bool)
      → Inv laws s
      → inside (s.thread i).place ≡ true
      → laws.Fit b
      → ((r : Role) → all ≡ false → blocked r s.buffer ≡ true → blocked r b ≡ true)
      → Inv laws (record { buffer = b; thread = finish s.thread i all; holder = none })
  finish-Inv s i b all inv here good keeps = record {
    fit = good;
    owner = λ j h. ground (arith, alone inv i j here);
    sleeping = λ j h. ground (arith, inv.sleeping j, keeps (s.thread j).role);
    ready = λ j h. ground (arith, alone inv i j here);
  }

  pub Step-Inv :
      (n : ℕ) (s t : System protocol) {e : Event} → Inv laws s → Step protocol n s e t → Inv laws t
  Step-Inv n s t inv (lock i lt at left free) = record {
    fit = inv.fit;
    owner = λ j h. ground (arith, inv.owner j);
    sleeping = λ j h. ground (arith, inv.sleeping j);
    ready = λ j h. ground (arith, inv.ready j);
  }
  Step-Inv n s t inv (wait i lt at h) = record {
    fit = inv.fit;
    owner = λ j here. ground (arith, alone inv i j);
    sleeping = λ j here. ground (arith, inv.sleeping j);
    ready = λ j here. ground (arith, inv.ready j);
  }
  Step-Inv n s t inv (pass i lt at h) = record {
    fit = inv.fit;
    owner = λ j here. ground (arith, inv.owner j);
    sleeping = λ j here. ground (arith, inv.sleeping j);
    ready = λ j here. ground (arith, inv.ready j);
  }
  Step-Inv n s t inv (wake i lt at) = record {
    fit = inv.fit;
    owner = λ j here. ground (arith, inv.owner j);
    sleeping = λ j here. ground (arith, inv.sleeping j);
    ready = λ j here. ground (arith, inv.ready j);
  }
  Step-Inv n s t inv (relock i lt at free) = record {
    fit = inv.fit;
    owner = λ j here. ground (arith, inv.owner j);
    sleeping = λ j here. ground (arith, inv.sleeping j);
    ready = λ j here. ground (arith, inv.ready j);
  }
  Step-Inv n s t inv (take_out i lt at r) =
      let passed : blocked reader s.buffer ≡ false = rw r at (inv.ready i at) in
      finish-Inv s i (read s.buffer).1 (read s.buffer).2 inv (ap inside at)
        (laws.read-Fit s.buffer inv.fit passed)
        (λ role quiet. laws.read-blocked role s.buffer inv.fit passed quiet)
  Step-Inv n s t inv (put_in i v lt at r) =
      let passed : blocked writer s.buffer ≡ false = rw r at (inv.ready i at) in
      finish-Inv s i (write v s.buffer).0 (write v s.buffer).1 inv (ap inside at)
        (laws.write-Fit v s.buffer inv.fit passed)
        (λ role quiet. laws.write-blocked role v s.buffer inv.fit passed quiet)
