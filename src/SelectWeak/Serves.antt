-- ===== src/SelectWeak/Serves.antt =====
-- What a merged stream gives out over a number of polls.
use jsonrpc_client_rs.Base.{◌≡◌, ◌≢◌, List, [], ◌∷◌, ◌++◌, sym, subst}
use jsonrpc_client_rs.Poll.{Answer, item, waiting, pull_fused}
use jsonrpc_client_rs.SelectWeak.{Select, poll}

-- The merged receivers of two channels.
abbrev pub Channels : Type 0 → Type 0
Channels A = Select (List (Answer A)) (List (Answer A))

-- The items that are served between two states, in their order; the last poll may have had nothing
-- to give.
pub data Serves {A : Type 0} : Channels A → List A → Channels A → Type 0 where
  stop : {s : Channels A} → Serves s [] s
  idle :
      {s t : Channels A}
      → (poll pull_fused pull_fused s).0 ≡ waiting
      → t ≡ (poll pull_fused pull_fused s).1
      → Serves s [] t
  serve :
      {s t : Channels A} {a : A} {l : List A}
      → (poll pull_fused pull_fused s).0 ≡ item a
      → Serves (poll pull_fused pull_fused s).1 l t
      → Serves s (a ∷ l) t

-- The items that are given out between two states, with polls in between that give none.
pub data Gives {A : Type 0} : Channels A → List A → Channels A → Type 0 where
  stays : {s : Channels A} → Gives s [] s
  skips :
      {s t : Channels A} {l : List A}
      → ((a : A) → (poll pull_fused pull_fused s).0 ≢ item a)
      → Gives (poll pull_fused pull_fused s).1 l t
      → Gives s l t
  gives :
      {s t : Channels A} {a : A} {l : List A}
      → (poll pull_fused pull_fused s).0 ≡ item a
      → Gives (poll pull_fused pull_fused s).1 l t
      → Gives s (a ∷ l) t

pub Gives-trans :
    {A : Type 0} {s t u : Channels A} {l m : List A}
    → Gives s l t
    → Gives t m u
    → Gives s (l ++ m) u
Gives-trans stays h = h
Gives-trans (skips e g) h = skips e (Gives-trans g h)
Gives-trans (gives e g) h = gives e (Gives-trans g h)

pub Serves-Gives : {A : Type 0} {s t : Channels A} {l : List A} → Serves s l t → Gives s l t
Serves-Gives stop = stays
Serves-Gives {s = s} (idle e h) = subst (λ x. Gives s [] x) (sym h) (skips (λ a q. cc (e, q)) stays)
Serves-Gives (serve e g) = gives e (Serves-Gives g)
