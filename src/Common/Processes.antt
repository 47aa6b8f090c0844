-- ===== src/Common/Processes.antt =====
-- The kernel's table of processes, as the drivers and system calls see it.
use Prim.Native.Nat.{ℕ, ◌<◌}
use mathlib.Core.Path.{◌≡◌}
use mathlib.Core.Bool.{Bool}
use mathlib.Core.List.{List}
use mathlib.Core.Option.{Option, some}
use agh_systems_programming.Common.Lists.{length}

-- `find_get_pid` says whether there is such a number, and `comm` is the
-- name of its task, if it has one, up to the zero byte that ends it.
pub record Processes : Type 0 where
  pub find_get_pid : ℕ → Bool
  pub comm : ℕ → Option (List ℕ)
  pub comm_short : (pid : ℕ) {name : List ℕ} → comm pid ≡ some name → length name < 16
