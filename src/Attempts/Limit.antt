-- ===== src/Attempts/Limit.antt =====
-- What no step changes of an object, and the object that lets no reader in.
use agh_systems_programming.Common.{ℕ, ◌-◌, ◌<◌, ◌≡◌, refl, ◌∙◌, true, arith}
use agh_systems_programming.Common.Family.{le-total, total-update}
use agh_systems_programming.Attempts.{
  ConcurrentObject, outside, entering, reading, leaving, writing, Thread, System, at, Step,
  write_refused, write_start, write_end, read_start, read_busy, read_full, read_admit, read_leave,
  read_end, Reach, here, next,
}
use agh_systems_programming.Attempts.Exclusion.{
  Locked, is_writing, is_reading, is_leaving, tally, shut_out, Reach-Locked,
}

pub Step-readers_limit :
    (n size : ℕ) (s t : System)
    → Step n size s t
    → (o : ℕ) → (t.object o).readers_limit ≡ (s.object o).readers_limit
Step-readers_limit n size s t (write_refused i k lt in_array task there left locked) o =
    ground arith
Step-readers_limit n size s t (write_start i k lt in_array task there left free) o = ground arith
Step-readers_limit n size s t (write_end i k v lt there) o = ground arith
Step-readers_limit n size s t (read_start i k lt in_array task there left free) o = ground arith
Step-readers_limit n size s t (read_busy i k lt there held_up) o = ground arith
Step-readers_limit n size s t (read_full i k lt there passed full) o = ground arith
Step-readers_limit n size s t (read_admit i k lt there passed room) o = ground arith
Step-readers_limit n size s t (read_leave i k lt there free) o = ground arith
Step-readers_limit n size s t (read_end i k lt there) o = ground arith

pub Reach-readers_limit :
    (n size : ℕ) (s t : System)
    → Reach n size s t
    → (o : ℕ) → (t.object o).readers_limit ≡ (s.object o).readers_limit
Reach-readers_limit n size s t here o = refl
Reach-readers_limit n size s t (next {t = u} before step) o =
    Step-readers_limit n size u t step o ∙ Reach-readers_limit n size s u before o

-- An object that lets no reader in, locked for writers with no writer there.
pub record Closed (n : ℕ) (f : ℕ → Thread) (o : ℕ) (b : ConcurrentObject) : Type 0 where
  pub none_in : shut_out b ≡ true
  pub stays : b.writers_mutex ≡ true
  pub nobody : tally (is_writing o) n f ≡ 0

Step-Closed :
    (n size : ℕ) (s t : System) (o : ℕ)
    → ((o : ℕ) → Locked n s.thread o (s.object o))
    → Closed n s.thread o (s.object o)
    → Step n size s t
    → Closed n t.thread o (t.object o) × ((t.object o).value ≡ (s.object o).value)
Step-Closed n size s t o inv closed (write_refused i k lt in_array task there left locked) =
    (closed, refl)
Step-Closed n size s t o inv closed (write_start i k lt in_array task there left free) =
    let m =
      total-update (λ t. is_writing o t.place) n s.thread i
        (record (s.thread i) { place = writing k }) lt in
    let h = inv o in
    ground (
      arith,
      h.unread,
      le-total (λ t. is_writing o t.place) n s.thread i lt,
      le-total (λ t. is_leaving o t.place) n s.thread i lt,
    )
Step-Closed n size s t o inv closed (write_end i k v lt there) =
    let m =
      total-update (λ t. is_writing o t.place) n s.thread i
        (record (s.thread i) { place = outside; runs = (s.thread i).runs - 1 }) lt in
    let h = inv o in
    ground (
      arith,
      h.unread,
      le-total (λ t. is_writing o t.place) n s.thread i lt,
      le-total (λ t. is_leaving o t.place) n s.thread i lt,
    )
Step-Closed n size s t o inv closed (read_start i k lt in_array task there left free) =
    let m =
      total-update (λ t. is_writing o t.place) n s.thread i
        (record (s.thread i) { place = entering k }) lt in
    let h = inv o in
    ground (
      arith,
      h.unread,
      le-total (λ t. is_writing o t.place) n s.thread i lt,
      le-total (λ t. is_leaving o t.place) n s.thread i lt,
    )
Step-Closed n size s t o inv closed (read_busy i k lt there held_up) =
    let m =
      total-update (λ t. is_writing o t.place) n s.thread i
        (record (s.thread i) { place = outside }) lt in
    let h = inv o in
    ground (
      arith,
      h.unread,
      le-total (λ t. is_writing o t.place) n s.thread i lt,
      le-total (λ t. is_leaving o t.place) n s.thread i lt,
    )
Step-Closed n size s t o inv closed (read_full i k lt there passed full) =
    let m =
      total-update (λ t. is_writing o t.place) n s.thread i
        (record (s.thread i) { place = outside }) lt in
    let h = inv o in
    ground (
      arith,
      h.unread,
      le-total (λ t. is_writing o t.place) n s.thread i lt,
      le-total (λ t. is_leaving o t.place) n s.thread i lt,
    )
Step-Closed n size s t o inv closed (read_admit i k lt there passed room) =
    let m =
      total-update (λ t. is_writing o t.place) n s.thread i
        (record (s.thread i) { place = reading k }) lt in
    let h = inv o in
    ground (
      arith,
      h.unread,
      le-total (λ t. is_writing o t.place) n s.thread i lt,
      le-total (λ t. is_leaving o t.place) n s.thread i lt,
    )
Step-Closed n size s t o inv closed (read_leave i k lt there free) =
    let m =
      total-update (λ t. is_writing o t.place) n s.thread i
        (record (s.thread i) { place = leaving k }) lt in
    let h = inv o in
    ground (
      arith,
      h.unread,
      le-total (λ t. is_writing o t.place) n s.thread i lt,
      le-total (λ t. is_leaving o t.place) n s.thread i lt,
    )
Step-Closed n size s t o inv closed (read_end i k lt there) =
    let m =
      total-update (λ t. is_writing o t.place) n s.thread i
        (record (s.thread i) { place = outside; runs = (s.thread i).runs - 1 }) lt in
    let h = inv o in
    ground (
      arith,
      h.unread,
      le-total (λ t. is_writing o t.place) n s.thread i lt,
      le-total (λ t. is_leaving o t.place) n s.thread i lt,
    )

pub Reach-Closed :
    (n size : ℕ) (s t : System) (o : ℕ)
    → ((o : ℕ) → Locked n s.thread o (s.object o))
    → Closed n s.thread o (s.object o)
    → Reach n size s t
    → Closed n t.thread o (t.object o) × ((t.object o).value ≡ (s.object o).value)
Reach-Closed n size s t o inv closed here = (closed, refl)
Reach-Closed n size s t o inv closed (next {t = u} before step) =
    let (still, same) = Reach-Closed n size s u o inv closed before in
    let (now, kept) = Step-Closed n size u t o (Reach-Locked n size s u inv before) still step in
    (now, kept ∙ same)

-- The value of an object with readers is not changed.
pub reading_value :
    (n size : ℕ) (s t : System) (i o : ℕ)
    → Locked n s.thread o (s.object o)
    → i < n
    → (s.thread i).place ≡ reading o
    → Step n size s t
    → (t.object o).value ≡ (s.object o).value
reading_value n size s t i o inv below at (write_refused j k lt in_array task there left locked) =
    ground arith
reading_value n size s t i o inv below at (write_start j k lt in_array task there left free) =
    ground arith
reading_value n size s t i o inv below at (write_end j k v lt there) = ground (
  arith,
  le-total (λ t. is_reading o t.place) n s.thread i below,
  le-total (λ t. is_writing o t.place) n s.thread j lt,
)
reading_value n size s t i o inv below at (read_start j k lt in_array task there left free) =
    ground arith
reading_value n size s t i o inv below at (read_busy j k lt there held_up) = ground arith
reading_value n size s t i o inv below at (read_full j k lt there passed full) = ground arith
reading_value n size s t i o inv below at (read_admit j k lt there passed room) = ground arith
reading_value n size s t i o inv below at (read_leave j k lt there free) = ground arith
reading_value n size s t i o inv below at (read_end j k lt there) = ground arith
