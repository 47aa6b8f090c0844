-- ===== src/Circular/Interleaved/Race.antt =====
-- Three calls of circular_write at once, at the end of the buffer.
use agh_systems_programming.Common.{
  ℕ, ◌+◌, ◌-◌, ◌<◌, ◌≡◌, ◌≢◌, refl, ap, ◌∙◌, true, some, [], ◌∷◌, length, get_elem?, set,
  length-set, get_elem?-set_self, arith,
}
use agh_systems_programming.Common.Outcome.{done, fault, store_bytes}
use agh_systems_programming.Common.User.{UserAccess, read_bytes}
use agh_systems_programming.Circular.Valid.{IsValid}
use agh_systems_programming.Circular.Interleaved.{
  start, copied, added, Thread, System, goto, copy, copy_byte, copy_faults, add_one, Reach, here,
  next,
}

-- The byte that a thread writes next.
abbrev pub byte : Thread → ℕ
byte t = t.memory (t.user_buf + t.index)

module _ (user : UserAccess) where
  -- The thread is at the head of its loop, with a byte left whose copy will be complete.
  pub record IsReady (t : Thread) : Type 0 where
    pub at_head : t.place ≡ start
    pub more : t.index < t.count
    pub complete : (copy user t).0 ≡ 0

  copied_byte : (t : Thread) → IsReady t → (copy user t).1 ≡ byte t ∷ []
  unfolding read_bytes
  copied_byte t ready = user.from_user_done t.memory (t.user_buf + t.index) 1 ready.complete

  -- Thread `i` takes its turn up to the addition.
  one_byte :
      (n : ℕ) (r s : System) (i : ℕ)
      → Reach user n r s
      → i < n
      → IsReady (s.thread i)
      → s.device.curr_position < length s.device.buffer
      → (t : System) × Reach user n r t
        × (t.device ≡ record s.device {
          buffer = set s.device.buffer s.device.curr_position (byte (s.thread i));
          curr_position = s.device.curr_position + 1;
        })
        × ((j : ℕ) → i ≢ j → t.thread j ≡ s.thread j)
  one_byte n r s i before lt ready inside =
      let b = set s.device.buffer s.device.curr_position (byte (s.thread i)) in
      let s1 : System = record s {
        device = record s.device { buffer = b };
        thread = goto s i copied;
      } in
      let stored : store_bytes s.device.buffer s.device.curr_position (copy user (s.thread i)).1
          ≡ done b =
        rw (copied_byte (s.thread i) ready) (ground arith) in
      let p1 : (s1.thread i).place ≡ copied = ground arith in
      (
        record s1 {
          device = record s1.device { curr_position = s1.device.curr_position + 1 };
          thread = goto s1 i added;
        },
        next (next before (copy_byte i b lt ready.at_head ready.more stored ready.complete))
            (add_one i lt p1),
        refl,
        λ j other. ground arith,
      )

  -- Three threads that write to the circular device at once. In each state with valid globals and the
  -- position at the last byte in front of the terminator, in which three threads are at the head of their
  -- loops with a byte left that can be copied, there is a way to go on on which the second of them
  -- overwrites the terminator and the third writes outside of the block.
  pub writers_leave_buffer :
      (n : ℕ) (s : System) (i j k : ℕ)
      → i ≢ j
      → i ≢ k
      → j ≢ k
      → i < n
      → j < n
      → k < n
      → IsValid s.device
      → s.device.curr_position + 2 ≡ s.device.buff_size
      → IsReady (s.thread i)
      → IsReady (s.thread j)
      → IsReady (s.thread k)
      → (t : System) × Reach user n s t
        × (get_elem? t.device.buffer (s.device.buff_size - 1) ≡ some (byte (s.thread j)))
        × (t.faulted ≡ true)
  writers_leave_buffer n s i j k ij ik jk lt_i lt_j lt_k valid last ready_i ready_j ready_k =
      let d = s.device in
      let (s1, run1, dev1, same1) =
        one_byte n s s i here lt_i ready_i (omega (arith, valid.block)) in
      let pos1 : s1.device.curr_position + 1 ≡ d.buff_size =
        omega (arith, ap (λ x. x.curr_position) dev1) in
      let len1 : length s1.device.buffer ≡ d.buff_size =
        ap (λ x. length x.buffer) dev1
        ∙ length-set d.buffer d.curr_position (byte (s.thread i))
        ∙ valid.block in
      let next_j : IsReady (s1.thread j) = rw (same1 j ij) ready_j in
      let (s2, run2, dev2, same2) = one_byte n s s1 j run1 lt_j next_j (omega arith) in
      let pos2 : s2.device.curr_position ≡ d.buff_size =
        omega (arith, ap (λ x. x.curr_position) dev2) in
      let len2 : length s2.device.buffer ≡ d.buff_size =
        ap (λ x. length x.buffer) dev2
        ∙ length-set s1.device.buffer s1.device.curr_position (byte (s1.thread j))
        ∙ len1 in
      let next_k : IsReady (s2.thread k) = rw (same2 k jk, same1 k ik) ready_k in
      let outside : store_bytes s2.device.buffer s2.device.curr_position (copy user (s2.thread k)).1
          ≡ fault =
        rw (copied_byte (s2.thread k) next_k) (ground arith) in
      let here_last : d.buff_size - 1 ≡ s1.device.curr_position = omega arith in
      (
        record s2 { faulted = true },
        next run2 (copy_faults k lt_k next_k.at_head next_k.more outside),
        rw (here_last, ap (λ x. x.buffer) dev2, same1 j ij)
            (get_elem?-set_self s1.device.buffer s1.device.curr_position (byte (s.thread j))
              (omega arith)),
        refl,
      )
