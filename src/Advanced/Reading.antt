-- ===== src/Advanced/Reading.antt =====
-- /dev/prname: what a read gives, and a write followed by reads.
use agh_systems_programming.Common.{
  ℕ, ◌+◌, ◌^◌, ◌≤◌, ◌<◌, ◌≡◌, ◌≢◌, ◌==◌, refl, ap, true, false, Option, none, some, List, [], ◌∷◌,
  ◌++◌, leb, ltb, length, set, arith, length-append, length-set,
}
use native.Mathlib.Nat.{zero-add}
use agh_systems_programming.Common.Outcome.{ok, error, efault, done, Allocator, u64, u32}
use agh_systems_programming.Common.Processes.{Processes}
use agh_systems_programming.Common.User.{Memory, UserAccess, read_bytes, write_bytes}
use agh_systems_programming.Advanced.{Device, prname_write, prname_read, give_name}
use agh_systems_programming.Advanced.Prname.{store_bytes_fits}

module _ (user : UserAccess) (alloc : Allocator) (kstrtol : List ℕ → Option ℕ)
    (processes : Processes) (m : Memory) (user_buf count : ℕ) (d : Device) {name block : List ℕ}
    (written : d.prname_written ≡ true) (there : processes.find_get_pid (u32 d.proc_id) ≡ true)
    (named : processes.comm (u32 d.proc_id) ≡ some name)
    (got : alloc.kmalloc 0 (length name + 1) ≡ some block) where
  -- Behind the name, or at its end. Each read takes two references and keeps them.
  pub prname_read_end :
      (f_pos : ℕ)
      → length name ≤ f_pos
      → prname_read user alloc kstrtol processes m user_buf count f_pos d
        ≡ done (ok 0, f_pos, record d { live = d.live + 1; refs = d.refs + 2 }, m)
  unfolding prname_read
  prname_read_end f_pos behind =
      let size = alloc.kmalloc_size 0 (length name + 1) got in
      let inside : ltb (length name) (length block) ≡ true = ground arith in
      let (b, stored) =
        store_bytes_fits (set block (length name) 0) 0 (name ++ 0 ∷ [])
          (omega (arith, length-set block (length name) 0, length-append name (0 ∷ []))) in
      let past : leb (length name) f_pos ≡ true = ground arith in
      rw (written, there, named, give_name, got, inside, stored, past)
        (ap
          (λ w.
            done (
              ok 0,
              f_pos,
              record d { prname_written = w; live = d.live + 1; refs = d.refs + 2 },
              m,
            ))
          written)

  pub prname_read_name :
      (f_pos : ℕ)
      → f_pos < length name
      → (user.copy_to_user m user_buf name).0 ≡ 0
      → prname_read user alloc kstrtol processes m user_buf count f_pos d
        ≡ done (
          ok (length name),
          f_pos + length name,
          record d { refs = d.refs + 2 },
          write_bytes m user_buf name,
        )
  unfolding prname_read
  prname_read_name f_pos before all =
      let size = alloc.kmalloc_size 0 (length name + 1) got in
      let short = processes.comm_short (u32 d.proc_id) named in
      let inside : ltb (length name) (length block) ≡ true = ground arith in
      let (b, stored) =
        store_bytes_fits (set block (length name) 0) 0 (name ++ 0 ∷ [])
          (omega (arith, length-set block (length name) 0, length-append name (0 ∷ []))) in
      let past : leb (length name) f_pos ≡ false = ground arith in
      let small : u64 (f_pos + length name) ≡ f_pos + length name = omega arith in
      let copied = user.to_user_done m user_buf name all in
      rw (written, there, named, give_name, got, inside, stored, past, all, copied, small)
        (ap
          (λ w. done (
            ok (length name),
            f_pos + length name,
            record d { prname_written = w; refs = d.refs + 2 },
            write_bytes m user_buf name,
          ))
          written)

  -- A copy that is not complete.
  pub prname_read_failed :
      (f_pos : ℕ)
      → f_pos < length name
      → (user.copy_to_user m user_buf name).0 ≢ 0
      → prname_read user alloc kstrtol processes m user_buf count f_pos d
        ≡ done (
          error efault,
          f_pos,
          record d { refs = d.refs + 2 },
          (user.copy_to_user m user_buf name).1,
        )
  unfolding prname_read
  prname_read_failed f_pos before part =
      let size = alloc.kmalloc_size 0 (length name + 1) got in
      let inside : ltb (length name) (length block) ≡ true = ground arith in
      let (b, stored) =
        store_bytes_fits (set block (length name) 0) 0 (name ++ 0 ∷ [])
          (omega (arith, length-set block (length name) 0, length-append name (0 ∷ []))) in
      let past : leb (length name) f_pos ≡ false = ground arith in
      let short : (user.copy_to_user m user_buf name).0 == 0 ≡ false = ground arith in
      rw (written, there, named, give_name, got, inside, stored, past, short)
        (ap
          (λ w. done (
            error efault,
            f_pos,
            record d { prname_written = w; refs = d.refs + 2 },
            (user.copy_to_user m user_buf name).1,
          ))
          written)

module _ (user : UserAccess) (alloc : Allocator) (kstrtol : List ℕ → Option ℕ)
    (processes : Processes) (m : Memory) (user_buf count f_pos : ℕ) (d : Device)
    (written : d.prname_written ≡ true) where
  -- No process has the number any more.
  pub prname_read_gone :
      processes.find_get_pid (u32 d.proc_id) ≡ false
      → prname_read user alloc kstrtol processes m user_buf count f_pos d ≡ done (ok 0, f_pos, d, m)
  unfolding prname_read
  prname_read_gone gone = ground arith

  -- The number is there, but no task has it.
  pub prname_read_no_task :
      processes.find_get_pid (u32 d.proc_id) ≡ true
      → processes.comm (u32 d.proc_id) ≡ none
      → prname_read user alloc kstrtol processes m user_buf count f_pos d
        ≡ done (ok 0, f_pos, record d { refs = d.refs + 1 }, m)
  unfolding prname_read
  prname_read_no_task there nobody =
      rw (written, there, nobody)
        (ap (λ w. done (ok 0, f_pos, record d { prname_written = w; refs = d.refs + 1 }, m))
          written)

module _ (user : UserAccess) (alloc : Allocator) (kstrtol : List ℕ → Option ℕ)
    (processes : Processes) where
  -- The number of a process with a name, written to /dev/prname and read back as the name: if memory is
  -- there and all copies are complete, the write returns `count`; a read from position 0 then returns
  -- the length of the name and puts the name into user memory; and a read from the position that it
  -- leaves returns 0. Of the three calls the write and the last read each lose a block.
  pub prname_write_then_read :
      (m m' : Memory) (user_buf count user_buf' count' value : ℕ) (d : Device)
      {name temp_buffer block : List ℕ}
      → count + 1 < 2 ^ 64
      → alloc.kmalloc 0 (count + 1) ≡ some temp_buffer
      → (user.copy_from_user m user_buf count).0 ≡ 0
      → kstrtol (read_bytes m user_buf count ++ 0 ∷ []) ≡ some value
      → processes.find_get_pid (u32 value) ≡ true
      → processes.comm (u32 value) ≡ some name
      → 0 < length name
      → alloc.kmalloc 0 (length name + 1) ≡ some block
      → (user.copy_to_user m' user_buf' name).0 ≡ 0
      → (d' d'' d''' : Device) × (prname_write user alloc kstrtol processes m user_buf count d
          ≡ done (ok count, d'))
        × (prname_read user alloc kstrtol processes m' user_buf' count' 0 d'
            ≡ done (ok (length name), length name, d'', write_bytes m' user_buf' name))
        × (prname_read user alloc kstrtol processes
              (write_bytes m' user_buf' name)
              user_buf'
              count'
              (length name)
              d''
            ≡ done (ok 0, length name, d''', write_bytes m' user_buf' name))
        × (d'''.live ≡ d.live + 2)
  unfolding prname_write
  prname_write_then_read m m' user_buf count user_buf' count' value d {name} {temp_buffer} {block}
        small got all parsed there named some_name got' all' =
      let d' = record d {
        proc_id = value;
        prname_written = true;
        live = d.live + 1;
        refs = d.refs + 1;
      } in
      let d'' = record d' { refs = d'.refs + 2 } in
      let whole : u64 (count + 1) ≡ count + 1 = omega arith in
      let size = alloc.kmalloc_size 0 (count + 1) got in
      let inside : ltb count (length temp_buffer) ≡ true = ground arith in
      let bytes = user.from_user_done m user_buf count all in
      (
        d',
        d'',
        record d'' { refs = d''.refs + 2; live = d''.live + 1 },
        rw (whole, prname_write, got, inside, all, bytes, parsed, there),
        rw zero-add at (
            prname_read_name user alloc kstrtol processes m' user_buf' count' d' refl there named
              got' 0 some_name all'),
        prname_read_end user alloc kstrtol processes (write_bytes m' user_buf' name) user_buf'
            count' d'' refl there named got' (length name) (omega arith),
        omega arith,
      )
