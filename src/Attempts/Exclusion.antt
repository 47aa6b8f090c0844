-- ===== src/Attempts/Exclusion.antt =====
-- What every interleaving keeps of the mutexes and the count of each object.
use agh_systems_programming.Common.{
  ℕ, ◌+◌, ◌-◌, ◌<◌, ◌≤◌, ◌≡◌, ◌≢◌, ap, Bool, true, false, none, some, ◌==◌, ltb, leb, ℕ_discrete,
  if◌then◌else◌, arith,
}
use agh_systems_programming.Common.Family.{update, total, total-update, total-zero}
use agh_systems_programming.Attempts.{
  ConcurrentObject, Place, outside, entering, reading, leaving, writing, Thread, System, Step,
  write_refused, write_start, write_end, read_start, read_busy, read_full, read_admit, read_leave,
  read_end, Reach, here, next,
}

abbrev pub is_entering : ℕ → Place → ℕ
is_entering o (entering k) = if k == o then 1 else 0
is_entering o _ = 0

abbrev pub is_reading : ℕ → Place → ℕ
is_reading o (reading k) = if k == o then 1 else 0
is_reading o _ = 0

abbrev pub is_leaving : ℕ → Place → ℕ
is_leaving o (leaving k) = if k == o then 1 else 0
is_leaving o _ = 0

abbrev pub is_writing : ℕ → Place → ℕ
is_writing o (writing k) = if k == o then 1 else 0
is_writing o _ = 0

abbrev pub tally : (Place → ℕ) → ℕ → (ℕ → Thread) → ℕ
tally w n f = total (λ t. w t.place) n f

-- Do readers hold the writers' mutex, of whom so many are admitted and so many leave?
abbrev pub held : ℕ → ℕ → ℕ
held r l = if ltb 0 (r + l) then 1 else 0

abbrev pub bit : Bool → ℕ
bit true = 1
bit false = 0

abbrev pub shut_out : ConcurrentObject → Bool
shut_out b = elim b.readers_limit [ none ↦ false | some k ↦ k == 0 ]

abbrev pub within_limit : ConcurrentObject → Bool
within_limit b = elim b.readers_limit [ none ↦ true | some k ↦ leb b.readers_count k ]

-- The writers' mutex may be locked with nobody to unlock it where no reader is let in at all.
pub record Locked (n : ℕ) (f : ℕ → Thread) (o : ℕ) (b : ConcurrentObject) : Type 0 where
  pub reader_locked : tally (is_entering o) n f + tally (is_leaving o) n f ≡ bit b.readers_mutex
  pub counts : b.readers_count ≡ tally (is_reading o) n f
  pub excluded :
      tally (is_writing o) n f + held (tally (is_reading o) n f) (tally (is_leaving o) n f)
      ≤ bit b.writers_mutex
  pub accounted :
      shut_out b ≡ false
      → tally (is_writing o) n f + held (tally (is_reading o) n f) (tally (is_leaving o) n f)
        ≡ bit b.writers_mutex
  pub unread : shut_out b ≡ true → tally (is_leaving o) n f ≡ 0
  pub capped : within_limit b ≡ true

-- The four tallies of an object, before and after a thread moves.
abbrev Moved : ℕ → ℕ → (ℕ → Thread) → (ℕ → Thread) → Place → Place → Type 0
Moved o n f g p q =
    (tally (is_entering o) n g + is_entering o p ≡ tally (is_entering o) n f + is_entering o q)
    × (tally (is_reading o) n g + is_reading o p ≡ tally (is_reading o) n f + is_reading o q)
    × (tally (is_leaving o) n g + is_leaving o p ≡ tally (is_leaving o) n f + is_leaving o q)
    × (tally (is_writing o) n g + is_writing o p ≡ tally (is_writing o) n f + is_writing o q)

update-Moved :
    (o n : ℕ) (f : ℕ → Thread) (i : ℕ) (u : Thread) {p : Place}
    → i < n
    → (f i).place ≡ p
    → Moved o n f (update f i u) p u.place
update-Moved o n f i u lt e = rw (← e) (
  total-update (λ t. is_entering o t.place) n f i u lt,
  total-update (λ t. is_reading o t.place) n f i u lt,
  total-update (λ t. is_leaving o t.place) n f i u lt,
  total-update (λ t. is_writing o t.place) n f i u lt,
)

-- An object that a thread neither comes to nor leaves.
Locked-still :
    (n : ℕ) (f g : ℕ → Thread) (o : ℕ) (b : ConcurrentObject) (p q : Place)
    → Locked n f o b
    → Moved o n f g p q
    → is_entering o p + is_reading o p + is_leaving o p + is_writing o p ≡ 0
    → is_entering o q + is_reading o q + is_leaving o q + is_writing o q ≡ 0
    → Locked n g o b
Locked-still n f g o b p q inv m away_p away_q = ground arith

update_self : (f : ℕ → ConcurrentObject) (k : ℕ) (b : ConcurrentObject) → update f k b k ≡ b
update_self f k b = ground arith

update_ne :
    (f : ℕ → ConcurrentObject) (k o : ℕ) (b : ConcurrentObject) → o ≢ k → update f k b o ≡ f o
update_ne f k o b ne = ground arith

-- Where a thread moves at object `k`, from place `p` to place `q` there.
Locked-update :
    (n : ℕ) (s : System) (i k o : ℕ) (u : Thread) (b : ConcurrentObject) {p : Place}
    → ((o : ℕ) → Locked n s.thread o (s.object o))
    → i < n
    → (s.thread i).place ≡ p
    → (o ≢ k → is_entering o p + is_reading o p + is_leaving o p + is_writing o p ≡ 0)
    → (o ≢ k
        → is_entering o u.place + is_reading o u.place + is_leaving o u.place + is_writing o u.place
          ≡ 0)
    → (Locked n s.thread k (s.object k)
        → Moved k n s.thread (update s.thread i u) p u.place
        → Locked n (update s.thread i u) k b)
    → Locked n (update s.thread i u) o (update s.object k b o)
Locked-update n s i k o u b {p = p} inv lt there away_p away_q keeps = elim (ℕ_discrete o k) [
  | yes e ↦
      rw (e, update_self s.object k b) (keeps (inv k) (update-Moved k n s.thread i u lt there))
  | no ne ↦ rw (update_ne s.object k o b ne) (
      Locked-still n s.thread (update s.thread i u) o (s.object o) p u.place (inv o)
        (update-Moved o n s.thread i u lt there) (away_p ne) (away_q ne))
]

pub Step-Locked :
    (n size : ℕ) (s t : System)
    → ((o : ℕ) → Locked n s.thread o (s.object o))
    → Step n size s t
    → (o : ℕ) → Locked n t.thread o (t.object o)
Step-Locked n size s t inv (write_refused i k lt in_array task there left locked) o = inv o
Step-Locked n size s t inv (write_start i k lt in_array task there left free) o =
    Locked-update n s i k o (record (s.thread i) { place = writing k }) _ inv lt there
      (λ ne. ground arith) (λ ne. ground arith) (λ h m. ground arith)
Step-Locked n size s t inv (write_end i k v lt there) o =
    Locked-update n s i k o (record (s.thread i) { place = outside; runs = (s.thread i).runs - 1 })
      _ inv lt there (λ ne. ground arith) (λ ne. ground arith) (λ h m. ground arith)
Step-Locked n size s t inv (read_start i k lt in_array task there left free) o =
    Locked-update n s i k o (record (s.thread i) { place = entering k }) _ inv lt there
      (λ ne. ground arith) (λ ne. ground arith) (λ h m. ground arith)
Step-Locked n size s t inv (read_busy i k lt there held_up) o =
    Locked-update n s i k o (record (s.thread i) { place = outside }) _ inv lt there
      (λ ne. ground arith) (λ ne. ground arith) (λ h m. ground arith)
Step-Locked n size s t inv (read_full i k lt there passed full) o =
    Locked-update n s i k o (record (s.thread i) { place = outside }) _ inv lt there
      (λ ne. ground arith) (λ ne. ground arith) (λ h m. ground arith)
Step-Locked n size s t inv (read_admit i k lt there passed room) o =
    Locked-update n s i k o (record (s.thread i) { place = reading k }) _ inv lt there
      (λ ne. ground arith) (λ ne. ground arith) (λ h m. ground arith)
Step-Locked n size s t inv (read_leave i k lt there free) o =
    Locked-update n s i k o (record (s.thread i) { place = leaving k }) _ inv lt there
      (λ ne. ground arith) (λ ne. ground arith) (λ h m. ground arith)
Step-Locked n size s t inv (read_end i k lt there) o =
    Locked-update n s i k o (record (s.thread i) { place = outside; runs = (s.thread i).runs - 1 })
      _ inv lt there (λ ne. ground arith) (λ ne. ground arith) (λ h m. ground arith)

pub Reach-Locked :
    (n size : ℕ) (s t : System)
    → ((o : ℕ) → Locked n s.thread o (s.object o))
    → Reach n size s t
    → (o : ℕ) → Locked n t.thread o (t.object o)
Reach-Locked n size s t inv here = inv
Reach-Locked n size s t inv (next {t = u} before step) =
    Step-Locked n size u t (Reach-Locked n size s u inv before) step

-- Nobody uses the object, and every thread is outside of its call.
pub outside-Locked :
    (n : ℕ) (f : ℕ → Thread) (o : ℕ) (b : ConcurrentObject)
    → ((i : ℕ) → (f i).place ≡ outside)
    → b.readers_count ≡ 0
    → b.readers_mutex ≡ false
    → b.writers_mutex ≡ false
    → Locked n f o b
outside-Locked n f o b out count rm wm =
    let e = total-zero (λ t. is_entering o t.place) n f (λ i. ap (is_entering o) (out i)) in
    let r = total-zero (λ t. is_reading o t.place) n f (λ i. ap (is_reading o) (out i)) in
    let l = total-zero (λ t. is_leaving o t.place) n f (λ i. ap (is_leaving o) (out i)) in
    let w = total-zero (λ t. is_writing o t.place) n f (λ i. ap (is_writing o) (out i)) in
    ground arith
