-- ===== src/Advanced/Jiffies.antt =====
-- /dev/jiffies.
use agh_systems_programming.Common.{
  ℕ, ◌+◌, ◌≤◌, ◌<◌, ◌≡◌, true, false, some, List, [], ◌∷◌, ◌++◌, leb, length, arith, length-append,
}
use agh_systems_programming.Common.Outcome.{ok, done, Allocator, u64}
use agh_systems_programming.Common.User.{Memory, UserAccess, write_bytes}
use agh_systems_programming.Advanced.{jiffies_read}
use agh_systems_programming.Advanced.Prname.{store_bytes_fits}

module _ (user : UserAccess) (alloc : Allocator) (sprintf_ld : ℕ → List ℕ)
    (short : (n : ℕ) → length (sprintf_ld n) ≤ 20) {block : List ℕ}
    (got : alloc.kmalloc 0 50 ≡ some block) (m : Memory) (user_buf count : ℕ) where
  -- With memory, and with "%ld" giving 20 bytes or less: a read of /dev/jiffies from position 0, with
  -- a complete copy, returns the length of the number's text and puts the text into user memory; a
  -- later read from the position it leaves returns 0, unless the text has grown longer by then.
  pub jiffies_read_then_end :
      (jiffies jiffies' : ℕ)
      → 0 < length (sprintf_ld jiffies)
      → length (sprintf_ld jiffies') ≤ length (sprintf_ld jiffies)
      → (user.copy_to_user m user_buf (sprintf_ld jiffies)).0 ≡ 0
      → let n = length (sprintf_ld jiffies) in
        let m' = write_bytes m user_buf (sprintf_ld jiffies) in
        (jiffies_read user alloc sprintf_ld jiffies m user_buf count 0 ≡ done (ok n, n, m'))
        × (jiffies_read user alloc sprintf_ld jiffies' m' user_buf count n ≡ done (ok 0, n, m'))
  unfolding jiffies_read
  jiffies_read_then_end jiffies jiffies' any no_longer all =
      let n = length (sprintf_ld jiffies) in
      let size = alloc.kmalloc_size 0 50 got in
      let (b, stored) =
        store_bytes_fits block 0 (sprintf_ld jiffies ++ 0 ∷ [])
          (omega (arith, size, short jiffies, length-append (sprintf_ld jiffies) (0 ∷ []))) in
      let (b', stored') =
        store_bytes_fits block 0 (sprintf_ld jiffies' ++ 0 ∷ [])
          (omega (arith, size, short jiffies', length-append (sprintf_ld jiffies') (0 ∷ []))) in
      let before : leb n 0 ≡ false = ground arith in
      let past : leb (length (sprintf_ld jiffies')) n ≡ true = ground arith in
      let small : u64 (0 + n) ≡ n = omega (arith, short jiffies) in
      let copied = user.to_user_done m user_buf (sprintf_ld jiffies) all in
      (
        rw (jiffies_read, got, stored, before, all, copied, small),
        rw (jiffies_read, got, stored', past),
      )
