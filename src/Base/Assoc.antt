-- ===== src/Base/Assoc.antt =====
-- Maps as association lists: `HashMap` and `BTreeMap` of the standard library. A new key goes to
-- the end, so a map filled in the order of its keys is walked in that order.
pub mod Unique
use mathlib.Core.Path.{◌≡◌, refl}
use mathlib.Core.Logic.{◌≢◌}
use mathlib.Core.Bool.{Bool}
use mathlib.Core.Option.{Option, none, some}
use mathlib.Core.List.{List, [], ◌∷◌}
use native.Mathlib.Omega.{arith}
use jsonrpc_client_rs.Base.Tests.{if◌then◌else◌, is_some}
use jsonrpc_client_rs.Base.Keys.{Key, ◌==◌, ==_self, ==_ne}

abbrev pub Assoc {ℓ κ} : Type ℓ → Type κ → Type (ℓ ⊔ κ)
Assoc K V = List (K × V)

module _ {ℓ κ} {K : Type ℓ} {V : Type κ} ⦃key : Key K⦄ where
  unfoldable pub lookup : K → Assoc K V → Option V
  lookup k [] = none
  lookup k ((j, v) ∷ m) = if k == j then some v else lookup k m

  unfoldable pub insert : K → V → Assoc K V → Assoc K V
  insert k v [] = (k, v) ∷ []
  insert k v ((j, w) ∷ m) = if k == j then (k, v) ∷ m else (j, w) ∷ insert k v m

  unfoldable pub erase : K → Assoc K V → Assoc K V
  erase k [] = []
  erase k ((j, w) ∷ m) = let rest = erase k m in if k == j then rest else (j, w) ∷ rest

  abbrev pub contains_key : K → Assoc K V → Bool
  contains_key k m = is_some (lookup k m)

  pub lookup-insert_self : (k : K) (v : V) (m : Assoc K V) → lookup k (insert k v m) ≡ some v
  unfolding lookup insert
  lookup-insert_self k v [] = ground (arith, ==_self k)
  lookup-insert_self k v ((j, w) ∷ m) = ground (arith, ==_self k, lookup-insert_self k v m)

  pub lookup-insert_ne :
      (i k : K) (v : V) (m : Assoc K V) → i ≢ k → lookup i (insert k v m) ≡ lookup i m
  unfolding lookup insert
  lookup-insert_ne i k v [] h = ground (arith, ==_ne i k h)
  lookup-insert_ne i k v ((j, w) ∷ m) h =
      ground (arith, ==_ne i k h, key.exact k j, key.exact i j, lookup-insert_ne i k v m h)

  pub lookup-erase_self : (k : K) (m : Assoc K V) → lookup k (erase k m) ≡ none
  unfolding lookup erase
  lookup-erase_self k [] = refl
  lookup-erase_self k ((j, w) ∷ m) = ground (arith, lookup-erase_self k m)

  pub lookup-erase_ne : (i k : K) (m : Assoc K V) → i ≢ k → lookup i (erase k m) ≡ lookup i m
  unfolding lookup erase
  lookup-erase_ne i k [] h = refl
  lookup-erase_ne i k ((j, w) ∷ m) h =
      ground (arith, key.exact k j, key.exact i j, lookup-erase_ne i k m h)

  -- Erasing a key that is not there changes nothing.
  pub erase_absent : (k : K) (m : Assoc K V) → lookup k m ≡ none → erase k m ≡ m
  unfolding lookup erase
  erase_absent k [] h = refl
  erase_absent k ((j, w) ∷ m) h = ground (arith, erase_absent k m)

  pub lookup-insert :
      (i k : K) (v : V) (m : Assoc K V)
      → lookup i (insert k v m) ≡ (if i == k then some v else lookup i m)
  unfolding lookup insert
  lookup-insert i k v [] = refl
  lookup-insert i k v ((j, w) ∷ m) =
      ground (arith, lookup-insert i k v m, key.exact k j, key.exact i j, key.exact i k)

  pub lookup-erase :
      (i k : K) (m : Assoc K V) → lookup i (erase k m) ≡ (if i == k then none else lookup i m)
  unfolding lookup erase
  lookup-erase i k [] = ground arith
  lookup-erase i k ((j, w) ∷ m) =
      ground (arith, lookup-erase i k m, key.exact k j, key.exact i j, key.exact i k)
