-- ===== src/SelectWeak/Merging.antt =====
-- The order of what the merged stream of utils/src/select_weak.rs gives out.
use jsonrpc_client_rs.Base.{
  ◌≡◌, refl, ap, ◌∙◌, subst, ◌≢◌, ◌⊎◌, inl, inr, List, [], ◌∷◌, ◌++◌, Bool, true, false,
}
use jsonrpc_client_rs.Poll.{Answer, item, finished, waiting, failed, pull_fused}
use jsonrpc_client_rs.SelectWeak.{check_weak, check_strong, poll, or_else}
use jsonrpc_client_rs.SelectWeak.Serves.{Channels, Gives, stays, skips, gives}

-- The items among the answers that a channel will give.
abbrev pub items : {A : Type 0} → List (Answer A) → List A
items [] = []
items (item a ∷ l) = a ∷ items l
items (_ ∷ l) = items l

-- A list that takes turns between two others, each in its order.
pub data Merges {A : Type 0} : List A → List A → List A → Type 0 where
  over : Merges [] [] []
  from_strong : {x : A} {a b l : List A} → Merges a b l → Merges (x ∷ a) b (x ∷ l)
  from_weak : {x : A} {a b l : List A} → Merges a b l → Merges a (x ∷ b) (x ∷ l)

module _ {A : Type 0} where
  -- What an answer took out of the channels.
  abbrev Took : Channels A → Answer A → Channels A → Type 0
  Took s (item x) t =
      ((items s.strong ≡ x ∷ items t.strong) × (items s.weak ≡ items t.weak))
      ⊎ ((items s.strong ≡ items t.strong) × (items s.weak ≡ x ∷ items t.weak))
  Took s _ t = (items s.strong ≡ items t.strong) × (items s.weak ≡ items t.weak)

  abbrev at : Bool → Bool → List (Answer A) → List (Answer A) → Channels A
  at u d s w = record { strong = s; weak = w; use_strong = u; weak_done = d }

  check_strong-Took :
      (u d : Bool) (s w : List (Answer A))
      → let (a, t) = check_strong pull_fused pull_fused (at u d s w) in Took (at u d s w) a t
  unfolding check_strong
  check_strong-Took u d [] w = (refl, refl)
  check_strong-Took u d (item x ∷ s) w = inl (refl, refl)
  check_strong-Took u d (finished ∷ s) w = (refl, refl)
  check_strong-Took u d (waiting ∷ s) w = (refl, refl)
  check_strong-Took u d (failed ∷ s) w = (refl, refl)

  check_weak-Took :
      (u d : Bool) (s w : List (Answer A))
      → let (a, t) = check_weak pull_fused pull_fused (at u d s w) in Took (at u d s w) a t
  unfolding check_weak
  check_weak-Took u true s w = (refl, refl)
  check_weak-Took u false s [] = (refl, refl)
  check_weak-Took u false s (item x ∷ w) = inr (refl, refl)
  check_weak-Took u false s (finished ∷ w) = (refl, refl)
  check_weak-Took u false s (waiting ∷ w) = (refl, refl)
  check_weak-Took u false s (failed ∷ w) = (refl, refl)

  Took-after : (s t u : Channels A) (a : Answer A) → Took s waiting t → Took t a u → Took s a u
  Took-after s t u (item x) (p, q) (inl (p', q')) = inl (p ∙ p', q ∙ q')
  Took-after s t u (item x) (p, q) (inr (p', q')) = inr (p ∙ p', q ∙ q')
  Took-after s t u finished (p, q) (p', q') = (p ∙ p', q ∙ q')
  Took-after s t u waiting (p, q) (p', q') = (p ∙ p', q ∙ q')
  Took-after s t u failed (p, q) (p', q') = (p ∙ p', q ∙ q')

  or_else-Took :
      (s : Channels A) (a : Answer A) (t : Channels A) (second : Channels A → Answer A × Channels A)
      → Took s a t
      → Took t (second t).0 (second t).1
      → Took s
          (or_else pull_fused pull_fused (a, t) second).0
          (or_else pull_fused pull_fused (a, t) second).1
  or_else-Took s (item x) t second h k = h
  or_else-Took s finished t second h k = h
  or_else-Took s waiting t second h k = Took-after s t _ _ h k
  or_else-Took s failed t second h k = h

  at-Took :
      (u d : Bool) (s w : List (Answer A))
      → let (a, t) = poll pull_fused pull_fused (at u d s w) in Took (at u d s w) a t
  unfolding poll
  at-Took true d s w =
      let (a, t) = check_strong pull_fused pull_fused (at false d s w) in
      or_else-Took (at true d s w) a t (check_weak pull_fused pull_fused)
        (check_strong-Took false d s w) (check_weak-Took t.use_strong t.weak_done t.strong t.weak)
  at-Took false d s w =
      let (a, t) = check_weak pull_fused pull_fused (at true d s w) in
      or_else-Took (at false d s w) a t (check_strong pull_fused pull_fused)
        (check_weak-Took true d s w) (check_strong-Took t.use_strong t.weak_done t.strong t.weak)

  poll-Took :
      (s : Channels A) → Took s (poll pull_fused pull_fused s).0 (poll pull_fused pull_fused s).1
  poll-Took s = at-Took s.use_strong s.weak_done s.strong s.weak

  -- How the items of a run came out of the two channels.
  abbrev pub Merged : Channels A → List A → Channels A → Type 0
  Merged s l t =
      (a : List A) × ((b : List A) × Merges a b l
        × (items s.strong ≡ a ++ items t.strong)
        × (items s.weak ≡ b ++ items t.weak))

  Merged-serve :
      (s t u : Channels A) (x : A) (l : List A)
      → Took s (item x) t
      → Merged t l u
      → Merged s (x ∷ l) u
  Merged-serve s t u x l (inl (p, q)) (a, (b, m, h, k)) =
      (x ∷ a, (b, from_strong m, p ∙ ap (λ y. x ∷ y) h, q ∙ k))
  Merged-serve s t u x l (inr (p, q)) (a, (b, m, h, k)) =
      (a, (x ∷ b, from_weak m, p ∙ h, q ∙ ap (λ y. x ∷ y) k))

  Merged-skip :
      (s t u : Channels A) (q : Answer A) (l : List A)
      → ((x : A) → q ≢ item x)
      → Took s q t
      → Merged t l u
      → Merged s l u
  Merged-skip s t u (item x) l n k m = absurd (n x refl)
  Merged-skip s t u finished l n (p, q) (a, (b, m, h, k)) = (a, (b, m, p ∙ h, q ∙ k))
  Merged-skip s t u waiting l n (p, q) (a, (b, m, h, k)) = (a, (b, m, p ∙ h, q ∙ k))
  Merged-skip s t u failed l n (p, q) (a, (b, m, h, k)) = (a, (b, m, p ∙ h, q ∙ k))

  -- What the merged stream gives out comes from the two channels, each in its order; nothing is lost.
  pub Gives-Merged : {s t : Channels A} {l : List A} → Gives s l t → Merged s l t
  Gives-Merged stays = ([], ([], over, refl, refl))
  Gives-Merged {s = s} {t = t} (skips {l = l} n g) =
      Merged-skip s (poll pull_fused pull_fused s).1 t (poll pull_fused pull_fused s).0 l n
        (poll-Took s) (Gives-Merged g)
  Gives-Merged {s = s} {t = t} (gives {a = x} {l = l} e g) =
      Merged-serve s (poll pull_fused pull_fused s).1 t x l
        (subst (λ q. Took s q (poll pull_fused pull_fused s).1) e (poll-Took s)) (Gives-Merged g)
