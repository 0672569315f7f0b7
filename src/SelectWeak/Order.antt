-- ===== src/SelectWeak/Order.antt =====
-- The order in which the merged stream of utils/src/select_weak.rs serves its two sides.
use jsonrpc_client_rs.Base.{◌≡◌, ◌↔◌, ◌⊎◌, true, false, not, arith}
use jsonrpc_client_rs.Poll.{Answer, item, finished, waiting}
use jsonrpc_client_rs.SelectWeak.{Select, check_weak, poll}

module _ {S W A : Type 0} (poll_strong : S → Answer A × S) (poll_weak : W → Answer A × W) where
  -- The turn changes hands at every poll, whatever the two sides answer.
  pub poll-turn : (s : Select S W) → (poll poll_strong poll_weak s).1.use_strong ≡ not s.use_strong
  unfolding poll
  poll-turn s = ground arith

  -- The merged stream finishes exactly when the strong stream finishes and it is the turn of the
  -- strong stream or the weak one has nothing to give; the end of the weak stream ends nothing.
  pub poll-finished_iff :
      (s : Select S W)
      → ((poll poll_strong poll_weak s).0 ≡ finished) ↔ (
          ((poll_strong s.strong).0 ≡ finished)
          × ((s.use_strong ≡ true) ⊎ ((check_weak poll_strong poll_weak s).0 ≡ waiting)))
  unfolding poll
  poll-finished_iff s = (λ h. ground arith, λ h. ground arith)

  -- An item that the strong stream holds ready is served by the next poll of the merged stream or
  -- by the one after it, whatever the weak stream does.
  pub poll-strong_soon :
      (s : Select S W) (a : A) (t : S)
      → poll_strong s.strong ≡ (item a, t)
      → let (first, s1) = poll poll_strong poll_weak s in
        let (second, s2) = poll poll_strong poll_weak s1 in
        ((first ≡ item a) × (s1.strong ≡ t))
        ⊎ ((s1.strong ≡ s.strong) × (second ≡ item a) × (s2.strong ≡ t))
  unfolding poll
  poll-strong_soon s a t h = ground arith

  -- An item that the weak stream holds ready, if the merged stream has not seen the end of the
  -- weak one, is served by the next poll or by the one after it, whatever the strong stream does.
  pub poll-weak_soon :
      (s : Select S W) (a : A) (w : W)
      → s.weak_done ≡ false
      → poll_weak s.weak ≡ (item a, w)
      → let (first, s1) = poll poll_strong poll_weak s in
        let (second, s2) = poll poll_strong poll_weak s1 in
        ((first ≡ item a) × (s1.weak ≡ w))
        ⊎ ((s1.weak ≡ s.weak) × (second ≡ item a) × (s2.weak ≡ w))
  unfolding poll
  poll-weak_soon s a w d h = ground arith

  -- Once the merged stream has seen the end of the weak stream it never polls it again, and
  -- answers as the strong stream does.
  pub poll-weak_done :
      (s : Select S W)
      → s.weak_done ≡ true
      → let (a, s') = poll poll_strong poll_weak s in
        (a ≡ (poll_strong s.strong).0)
        × (s'.strong ≡ (poll_strong s.strong).1)
        × (s'.weak ≡ s.weak)
        × (s'.weak_done ≡ true)
  unfolding poll
  poll-weak_done s d = ground arith
