-- ===== src/SelectWeak.antt =====
-- utils/src/select_weak.rs: the adapter that merges a strong and a weak stream round-robin and
-- finishes with the strong one. The two fused streams are the section's parameters.
pub mod Order
pub mod Script
pub mod Serves
pub mod Merging
pub mod Full
mod Tests
use jsonrpc_client_rs.Base.{Bool, true, false, if◌then◌else◌}
use jsonrpc_client_rs.Poll.{Answer, item, finished, waiting, failed}

-- `struct SelectWithWeak`.
pub record Select (S W : Type 0) : Type 0 where
  pub strong : S
  pub weak : W
  pub use_strong : Bool
  pub weak_done : Bool

-- `select_with_weak`.
unfoldable pub select_with_weak : {S W : Type 0} → S → W → Select S W
select_with_weak s w = record { strong = s; weak = w; use_strong = false; weak_done = false }

module _ {S W A : Type 0} (poll_strong : S → Answer A × S) (poll_weak : W → Answer A × W) where
  -- The `match` of `check_weak`.
  abbrev weak_answer : Select S W → Answer A × W → Answer A × Select S W
  weak_answer s (finished, w) = (waiting, record s { weak = w; weak_done = true })
  weak_answer s (a, w) = (a, record s { weak = w })

  unfoldable pub check_weak : Select S W → Answer A × Select S W
  check_weak s = if s.weak_done then (waiting, s) else weak_answer s (poll_weak s.weak)

  unfoldable pub check_strong : Select S W → Answer A × Select S W
  check_strong s = let (a, t) = poll_strong s.strong in (a, record s { strong = t })

  -- `match first { Ok(Async::NotReady) => second, other => other }`.
  abbrev pub or_else :
      Answer A × Select S W → (Select S W → Answer A × Select S W) → Answer A × Select S W
  or_else (waiting, s) second = second s
  or_else (a, s) second = (a, s)

  unfoldable pub poll : Select S W → Answer A × Select S W
  unfolding check_weak check_strong
  poll s =
      if s.use_strong
      then or_else (check_strong (record s { use_strong = false })) check_weak
      else or_else (check_weak (record s { use_strong = true })) check_strong
