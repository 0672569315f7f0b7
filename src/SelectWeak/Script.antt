-- ===== src/SelectWeak/Script.antt =====
-- The merged stream over two streams given by their answers, as the receivers of two channels are.
use jsonrpc_client_rs.Base.{ℕ, ◌+◌, ◌<◌, ◌≤◌, ◌≡◌, List, [], ◌∷◌, length, arith}
use jsonrpc_client_rs.Poll.{Answer, item, finished, waiting, failed, pull_fused}
use jsonrpc_client_rs.SelectWeak.{Select, poll}

module _ {A : Type 0} where
  -- How many answers the two sides still hold.
  abbrev pub backlog : Select (List (Answer A)) (List (Answer A)) → ℕ
  backlog s = length s.strong + length s.weak

  pull_fused-length : (l : List (Answer A)) → length (pull_fused l).1 ≤ length l
  pull_fused-length [] = omega arith
  pull_fused-length (item a ∷ l) = omega arith
  pull_fused-length (finished ∷ l) = omega arith
  pull_fused-length (waiting ∷ l) = omega arith
  pull_fused-length (failed ∷ l) = omega arith

  pull_fused-item :
      (l : List (Answer A)) (a : A) → (pull_fused l).0 ≡ item a → length (pull_fused l).1 < length l
  pull_fused-item [] a h = cc
  pull_fused-item (item b ∷ l) a h = omega arith
  pull_fused-item (finished ∷ l) a h = cc
  pull_fused-item (waiting ∷ l) a h = cc
  pull_fused-item (failed ∷ l) a h = cc

  -- An item that is served leaves fewer answers to come.
  pub poll-backlog :
      (s : Select (List (Answer A)) (List (Answer A))) (a : A)
      → (poll pull_fused pull_fused s).0 ≡ item a
      → backlog (poll pull_fused pull_fused s).1 < backlog s
  unfolding poll
  poll-backlog s a h = ground (
    arith,
    pull_fused-length s.strong,
    pull_fused-length s.weak,
    pull_fused-item s.strong a,
    pull_fused-item s.weak a,
  )

  -- No poll adds to them.
  pub poll-backlog_le :
      (s : Select (List (Answer A)) (List (Answer A)))
      → backlog (poll pull_fused pull_fused s).1 ≤ backlog s
  unfolding poll
  poll-backlog_le s = ground (arith, pull_fused-length s.strong, pull_fused-length s.weak)
