-- ===== src/SelectWeak/Tests.antt =====
-- Runs of the merged stream of utils/src/select_weak.rs.
use jsonrpc_client_rs.Base.{ℕ, ◌≡◌, refl, ◌↔◌, ◌⊎◌, true, false, List, [], ◌∷◌}
use jsonrpc_client_rs.Poll.{Answer, item, finished, waiting, pull_fused}
use jsonrpc_client_rs.SelectWeak.{Select, check_weak, poll}
use jsonrpc_client_rs.SelectWeak.Order.{poll-finished_iff, poll-strong_soon, poll-weak_soon}

abbrev both : Select (List (Answer ℕ)) (List (Answer ℕ))
both = record {
  strong = item 1 ∷ finished ∷ [];
  weak = item 2 ∷ finished ∷ [];
  use_strong = false;
  weak_done = false;
}

poll-finished_iff_example : ((poll pull_fused pull_fused both).0 ≡ finished) ↔ (
    ((pull_fused both.strong).0 ≡ finished)
    × ((both.use_strong ≡ true) ⊎ ((check_weak pull_fused pull_fused both).0 ≡ waiting)))
poll-finished_iff_example = poll-finished_iff pull_fused pull_fused both

poll-strong_soon_example :
    let (first, s1) = poll pull_fused pull_fused both in
    let (second, s2) = poll pull_fused pull_fused s1 in
    ((first ≡ item 1) × (s1.strong ≡ finished ∷ []))
    ⊎ ((s1.strong ≡ both.strong) × (second ≡ item 1) × (s2.strong ≡ finished ∷ []))
poll-strong_soon_example = poll-strong_soon pull_fused pull_fused both 1 (finished ∷ []) refl

poll-weak_soon_example :
    let (first, s1) = poll pull_fused pull_fused both in
    let (second, s2) = poll pull_fused pull_fused s1 in
    ((first ≡ item 2) × (s1.weak ≡ finished ∷ []))
    ⊎ ((s1.weak ≡ both.weak) × (second ≡ item 2) × (s2.weak ≡ finished ∷ []))
poll-weak_soon_example = poll-weak_soon pull_fused pull_fused both 2 (finished ∷ []) refl refl

abbrev half : Select (List (Answer ℕ)) (List (Answer ℕ))
half = record both { weak_done = true }
