-- ===== src/Base/Assoc/Unique.antt =====
-- Association lists in which no key stands twice.
use jsonrpc_client_rs.Base.{
  ◌≡◌, refl, sym, ap, ◌∙◌, inl, inr, none, [], ◌∷◌, Bool-cases, Key, ◌==◌, arith, false,
}
use jsonrpc_client_rs.Base.Assoc.{Assoc, lookup, insert, erase, lookup-insert_ne}

module _ {ℓ κ} {K : Type ℓ} {V : Type κ} ⦃key : Key K⦄ where
  abbrev pub IsUnique : Assoc K V → Type κ
  IsUnique [] = Unit {κ}
  IsUnique ((k, v) ∷ m) = (lookup k m ≡ none) × IsUnique m

  erase-lookup : (i k : K) (m : Assoc K V) → lookup i m ≡ none → lookup i (erase k m) ≡ none
  unfolding lookup erase
  erase-lookup i k [] h = refl
  erase-lookup i k ((j, w) ∷ m) h = ground (arith, erase-lookup i k m)

  pub erase-IsUnique : (k : K) (m : Assoc K V) → IsUnique m → IsUnique (erase k m)
  unfolding erase
  erase-IsUnique k [] u = tt
  erase-IsUnique k ((j, w) ∷ m) (a, u) = elim (Bool-cases (k == j)) [
    | inl e ↦ rw e (erase-IsUnique k m u)
    | inr e ↦ rw e (erase-lookup j k m a, erase-IsUnique k m u)
  ]

  insert-lookup :
      (i k : K) (v : V) (m : Assoc K V)
      → (k == i) ≡ false
      → lookup i m ≡ none
      → lookup i (insert k v m) ≡ none
  insert-lookup i k v m n h = lookup-insert_ne i k v m (λ e. cc (n, (key.exact k i).1 (sym e))) ∙ h

  pub insert-IsUnique : (k : K) (v : V) (m : Assoc K V) → IsUnique m → IsUnique (insert k v m)
  unfolding insert
  insert-IsUnique k v [] u = (unfold lookup in refl, tt)
  insert-IsUnique k v ((j, w) ∷ m) (a, u) = elim (Bool-cases (k == j)) [
    | inl e ↦ rw e (ap (λ x. lookup x m) ((key.exact k j).0 e) ∙ a, u)
    | inr e ↦ rw e (insert-lookup j k v m e a, insert-IsUnique k v m u)
  ]
