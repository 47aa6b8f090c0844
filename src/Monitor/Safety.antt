-- ===== src/Monitor/Safety.antt =====
-- What holds in every state that the threads around one buffer reach.
use agh_systems_programming.Common.{
  ℕ, ◌≡◌, sym, ap, ◌∙◌, ◌++◌, List, false, append_assoc, append-nil,
}
use agh_systems_programming.Monitor.{
  reader, writer, Protocol, Event, System, Step, lock, wait, pass, wake, relock, take_out, put_in,
  Reach, here, next, given, taken,
}
use agh_systems_programming.Monitor.Invariant.{Laws, Inv, Step-Inv}

module _ {protocol : Protocol} (laws : Laws protocol) where
  open protocol use {Buffer, blocked, read, write}
  open laws use {contents}

  pub Reach-Inv :
      (n : ℕ) (s t : System protocol) {ws rs : List ℕ}
      → Inv laws s
      → Reach protocol n s ws rs t
      → Inv laws t
  Reach-Inv n s t inv here = inv
  Reach-Inv n s t inv (next {t = u} before step) =
      Step-Inv laws n u t (Reach-Inv n s u inv before) step

  Step-contents :
      (n : ℕ) (s t : System protocol) (e : Event)
      → Inv laws s
      → Step protocol n s e t
      → contents s.buffer ++ given protocol e ≡ taken protocol e ++ contents t.buffer
  Step-contents n s t e inv (lock i lt at left free) = append-nil (contents s.buffer)
  Step-contents n s t e inv (wait i lt at h) = append-nil (contents s.buffer)
  Step-contents n s t e inv (pass i lt at h) = append-nil (contents s.buffer)
  Step-contents n s t e inv (wake i lt at) = append-nil (contents s.buffer)
  Step-contents n s t e inv (relock i lt at free) = append-nil (contents s.buffer)
  Step-contents n s t e inv (take_out i lt at r) =
      let passed : blocked reader s.buffer ≡ false = rw r at (inv.ready i at) in
      append-nil (contents s.buffer) ∙ laws.read-contents s.buffer inv.fit passed
  Step-contents n s t e inv (put_in i v lt at r) =
      let passed : blocked writer s.buffer ≡ false = rw r at (inv.ready i at) in
      sym (laws.write-contents v s.buffer inv.fit passed)

  -- What is in the buffer at the start and what is written come out in this order, and what did not
  -- come out is in the buffer.
  pub Reach-contents :
      (n : ℕ) (s t : System protocol) {ws rs : List ℕ}
      → Inv laws s
      → Reach protocol n s ws rs t
      → contents s.buffer ++ ws ≡ rs ++ contents t.buffer
  Reach-contents n s t inv here = append-nil (contents s.buffer)
  Reach-contents n s t inv (next {ws = ws} {rs = rs} {t = u} {e = e} before step) =
      sym (append_assoc (contents s.buffer) ws (given protocol e))
      ∙ ap (λ xs. xs ++ given protocol e) (Reach-contents n s u inv before)
      ∙ append_assoc rs (contents u.buffer) (given protocol e)
      ∙ ap (λ xs. rs ++ xs) (Step-contents n u t e (Reach-Inv n s u inv before) step)
      ∙ sym (append_assoc rs (taken protocol e) (contents t.buffer))
