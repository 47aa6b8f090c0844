-- ===== src/Linked/Interleaved/Clearing.antt =====
-- A call that clears the list while another one reads it.
use agh_systems_programming.Common.{ℕ, ◌<◌, ◌≡◌, ◌≢◌, refl, true, some, List, [], ◌∷◌, arith}
use agh_systems_programming.Common.User.{UserAccess}
use agh_systems_programming.Linked.{Reading, is_clear}
use agh_systems_programming.Linked.Interleaved.{
  Discipline, Node, after, erase, first, start, walking, cleaning, Place, System, goto, round,
  next_segment,
}
use agh_systems_programming.Linked.Interleaved.Run.{
  Step, write_clear, clean_one, read_freed, Reach, here, next,
}

after_here : (x : Node) (xs : List Node) → after x.address (x ∷ xs) ≡ some xs
after_here x xs = ground arith

erase_here : (x : Node) (xs : List Node) → erase x.address (x ∷ xs) ≡ xs
erase_here x xs = ground arith

goto_self : (s : System) (j : ℕ) (q : Place) → (goto s j q j).place ≡ q
goto_self s j q = ground arith

goto_other :
    (s : System) (i j : ℕ) (q : Place) {p : Place}
    → i ≢ j
    → (s.thread i).place ≡ p
    → (goto s j q i).place ≡ p
goto_other s i j q ne at = ground arith

module _ (user : UserAccess) (discipline : Discipline) (n : ℕ) where
  Reach-append :
      {s t u : System}
      → Reach user discipline n s t
      → Reach user discipline n t u
      → Reach user discipline n s u
  Reach-append r here = r
  Reach-append r (next r' step) = next (Reach-append r r') step

  -- The loop of `clean_list` to its end.
  clean_all :
      (entries : List Node) (s : System) (i j : ℕ) (p : Place)
      → i ≢ j
      → j < n
      → s.buffer ≡ entries
      → (s.thread j).place ≡ cleaning (first entries)
      → (s.thread i).place ≡ p
      → (t : System) × Reach user discipline n s t × (t.buffer ≡ []) × ((t.thread i).place ≡ p)
  clean_all [] s i j p ne lt all at stays = (s, here, all, stays)
  clean_all (x ∷ entries) s i j p ne lt all at stays =
      let there : after x.address s.buffer ≡ some entries = rw all (after_here x entries) in
      let t : System = record s {
        buffer = erase x.address s.buffer;
        thread = goto s j (cleaning (first entries));
      } in
      let step : Step user discipline n s t = clean_one j x.address entries lt at there in
      let (u, run, nothing, kept) =
        clean_all entries t i j p ne lt (rw all (erase_here x entries))
          (goto_self s j (cleaning (first entries)))
          (goto_other s i j (cleaning (first entries)) ne stays) in
      (u, Reach-append (next here step) run, nothing, kept)

  -- Calls of the driver by several threads at once, in any of its copies. In each state in which a reader
  -- stands behind an entry of the list, inside of its lock, and another thread is to find the command to
  -- clear the list in its next bytes: there is a way to go on on which the reader uses memory that was
  -- freed, as `clean_list` asks for no lock.
  pub clear_frees_under_reader :
      (s : System) (i j a : ℕ) (r : Reading)
      → i ≢ j
      → i < n
      → j < n
      → (s.thread i).place ≡ walking (some a) r
      → (s.thread j).writer ≡ true
      → (s.thread j).place ≡ start
      → (s.thread j).index < (s.thread j).count
      → (round user (s.thread j)).0 ≡ 0
      → is_clear (next_segment user (s.thread j)).contents ≡ true
      → (t : System) × Reach user discipline n s t × (t.faulted ≡ true)
  clear_frees_under_reader s i j a r ne lt lt' reads writes at more copied command =
      let t : System = record s { thread = goto s j (cleaning (first s.buffer)) } in
      let step : Step user discipline n s t = write_clear j lt' writes at more copied command in
      let (u, run, nothing, kept) =
        clean_all s.buffer t i j (walking (some a) r) ne lt' refl
          (goto_self s j (cleaning (first s.buffer)))
          (goto_other s i j (cleaning (first s.buffer)) ne reads) in
      (
        record u { faulted = true },
        next (Reach-append (next here step) run)
            (read_freed i (some a) r lt kept (rw nothing refl)),
        refl,
      )
