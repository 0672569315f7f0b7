-- ===== src/SelectWeak/Full.antt =====
-- The merged receivers of two channels that hold messages, and nothing else, in the terms of
-- `SelectWithWeak` of utils/src/select_weak.rs.
use jsonrpc_client_rs.Base.{
  ◌≡◌, refl, sym, ap, ◌⊎◌, inl, inr, subst, List, [], ◌∷◌, ◌++◌, Bool, true, false,
}
use jsonrpc_client_rs.Poll.{Answer, item, finished, waiting, failed, pull_fused}
use jsonrpc_client_rs.SelectWeak
use jsonrpc_client_rs.SelectWeak.Serves.{Channels, Serves, stop, idle, serve}

-- A channel that holds messages, with no pause and no end among them.
abbrev pub OnlyItems : {A : Type 0} → List (Answer A) → Type 0
OnlyItems [] = Unit {0}
OnlyItems (item a ∷ l) = OnlyItems l
OnlyItems (_ ∷ l) = ⊥

-- A message that waits in a channel, and one that stands in a list.
abbrev pub Waits : {A : Type 0} → A → List (Answer A) → Type 0
Waits m [] = ⊥
Waits m (item a ∷ l) = (a ≡ m) ⊎ Waits m l
Waits m (_ ∷ l) = Waits m l

abbrev pub Among : {A : Type 0} → A → List A → Type 0
Among m [] = ⊥
Among m (a ∷ l) = (a ≡ m) ⊎ Among m l

pub OnlyItems-++ :
    {A : Type 0} (l k : List (Answer A)) → OnlyItems l → OnlyItems k → OnlyItems (l ++ k)
OnlyItems-++ [] k h j = j
OnlyItems-++ (item a ∷ l) k h j = OnlyItems-++ l k h j
OnlyItems-++ (finished ∷ l) k h j = absurd h
OnlyItems-++ (waiting ∷ l) k h j = absurd h
OnlyItems-++ (failed ∷ l) k h j = absurd h

pub Waits-left : {A : Type 0} (m : A) (l k : List (Answer A)) → Waits m l → Waits m (l ++ k)
Waits-left m [] k h = absurd h
Waits-left m (item a ∷ l) k (inl e) = inl e
Waits-left m (item a ∷ l) k (inr h) = inr (Waits-left m l k h)
Waits-left m (finished ∷ l) k h = Waits-left m l k h
Waits-left m (waiting ∷ l) k h = Waits-left m l k h
Waits-left m (failed ∷ l) k h = Waits-left m l k h

pub Waits-right : {A : Type 0} (m : A) (l k : List (Answer A)) → Waits m k → Waits m (l ++ k)
Waits-right m [] k h = h
Waits-right m (item a ∷ l) k h = inr (Waits-right m l k h)
Waits-right m (finished ∷ l) k h = Waits-right m l k h
Waits-right m (waiting ∷ l) k h = Waits-right m l k h
Waits-right m (failed ∷ l) k h = Waits-right m l k h

module _ {A : Type 0} where
  abbrev pub Full : Channels A → Type 0
  Full rx = OnlyItems rx.strong × OnlyItems rx.weak × (rx.weak_done ≡ false)

  abbrev pub Queued : A → Channels A → Type 0
  Queued m rx = Waits m rx.strong ⊎ Waits m rx.weak

  -- Channels that are empty.
  abbrev pub Drained : Channels A → Type 0
  Drained rx = (rx.strong ≡ []) × (rx.weak ≡ [])

  -- What a poll of full channels answers: nothing, if nothing is left, or an item; and what it
  -- leaves in them.
  abbrev pub Served : Channels A → Answer A → Channels A → Type 0
  Served rx (item a) rx' = Full rx' × ((m : A) → Queued m rx → (a ≡ m) ⊎ Queued m rx')
  Served rx waiting rx' = Full rx' × Drained rx' × ((m : A) → Queued m rx → ⊥)
  Served rx _ rx' = ⊥

  abbrev at : Bool → List (Answer A) → List (Answer A) → Channels A
  at b s w = record { strong = s; weak = w; use_strong = b; weak_done = false }

  at-Served :
      (b : Bool) (s w : List (Answer A))
      → OnlyItems s
      → OnlyItems w
      → let (a, rx) = SelectWeak.poll pull_fused pull_fused (at b s w) in Served (at b s w) a rx
  unfolding SelectWeak.poll
  at-Served true [] [] h k = ((tt, tt, refl), (refl, refl), λ m q. elim q [ inl x ↦ x | inr x ↦ x ])
  at-Served false [] [] h k =
      ((tt, tt, refl), (refl, refl), λ m q. elim q [ inl x ↦ x | inr x ↦ x ])
  at-Served true [] (item a ∷ w) h k = (
    (tt, k, refl),
    λ m q. elim q [ inl x ↦ absurd x | inr (inl e) ↦ inl e | inr (inr x) ↦ inr (inr x) ],
  )
  at-Served false [] (item a ∷ w) h k = (
    (tt, k, refl),
    λ m q. elim q [ inl x ↦ absurd x | inr (inl e) ↦ inl e | inr (inr x) ↦ inr (inr x) ],
  )
  at-Served true (item a ∷ s) w h k = (
    (h, k, refl),
    λ m q. elim q [ inl (inl e) ↦ inl e | inl (inr x) ↦ inr (inl x) | inr x ↦ inr (inr x) ],
  )
  at-Served false (item a ∷ s) [] h k = (
    (h, tt, refl),
    λ m q. elim q [ inl (inl e) ↦ inl e | inl (inr x) ↦ inr (inl x) | inr x ↦ absurd x ],
  )
  at-Served false (item a ∷ s) (item c ∷ w) h k = (
    (h, k, refl),
    λ m q. elim q [ inl x ↦ inr (inl x) | inr (inl e) ↦ inl e | inr (inr x) ↦ inr (inr x) ],
  )
  at-Served b (finished ∷ s) w h k = absurd h
  at-Served b (waiting ∷ s) w h k = absurd h
  at-Served b (failed ∷ s) w h k = absurd h
  at-Served b s (finished ∷ w) h k = absurd k
  at-Served b s (waiting ∷ w) h k = absurd k
  at-Served b s (failed ∷ w) h k = absurd k

  poll-Served :
      (rx : Channels A)
      → Full rx
      → let (a, rx') = SelectWeak.poll pull_fused pull_fused rx in Served rx a rx'
  poll-Served rx (s, w, d) =
      subst (λ x. let (a, rx') = SelectWeak.poll pull_fused pull_fused x in Served x a rx')
        (ap (λ b. record rx { weak_done = b }) (sym d))
        (at-Served rx.use_strong rx.strong rx.weak s w)

  pub Served-Full : (rx : Channels A) (a : Answer A) (rx' : Channels A) → Served rx a rx' → Full rx'
  Served-Full rx (item a) rx' h = h.0
  Served-Full rx waiting rx' h = h.0
  Served-Full rx finished rx' h = absurd h
  Served-Full rx failed rx' h = absurd h

  pub Served-is :
      (rx : Channels A) {a : Answer A}
      → (SelectWeak.poll pull_fused pull_fused rx).0 ≡ a
      → Full rx
      → Served rx a (SelectWeak.poll pull_fused pull_fused rx).1
  Served-is rx e f =
      subst (λ x. Served rx x (SelectWeak.poll pull_fused pull_fused rx).1) e (poll-Served rx f)

  Drained-Queued : (rx : Channels A) (m : A) → Drained rx → Queued m rx → ⊥
  Drained-Queued rx m (s, w) (inl h) = rw s at h
  Drained-Queued rx m (s, w) (inr h) = rw w at h

  -- Of what full channels serve until they are empty, nothing that waited is missing.
  pub Serves-Among :
      {rx rx' : Channels A} {ms : List A} (m : A)
      → Serves rx ms rx'
      → Full rx
      → Drained rx'
      → Queued m rx
      → Among m ms
  Serves-Among {rx = rx} m stop f d q = absurd (Drained-Queued rx m d q)
  Serves-Among {rx = rx} m (idle e s) f d q = let (_, _, out) = Served-is rx e f in absurd (out m q)
  Serves-Among {rx = rx} m (serve e s) f d q =
      let (full, kept) = Served-is rx e f in
      elim (kept m q) [ inl h ↦ inl h | inr h ↦ inr (Serves-Among m s full d h) ]
