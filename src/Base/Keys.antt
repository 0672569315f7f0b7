-- ===== src/Base/Keys.antt =====
-- Equality as an interface, for the keys of maps.
use Prim.Native.Nat.{ℕ}
use Prim.Native.String.{String}
use mathlib.Core.Path.{◌≡◌, refl}
use mathlib.Core.Logic.{◌↔◌, ◌≢◌}
use mathlib.Core.Bool.{Bool, true, false}
use text.Mathlib.Text.{◌==◌ as same_text}
use text.Mathlib.TextEquality.{eq_iff as same_text_iff}
use jsonrpc_client_rs.Base.Tests.{num_eq, num_eq_iff}

-- A type whose values are told apart by a test.
pub record Key {κ} (K : Type κ) : Type κ where
  pub same : K → K → Bool
  pub exact : (x y : K) → (same x y ≡ true) ↔ (x ≡ y)

instance abbrev pub string_key : Key String
string_key = record { same = same_text; exact = same_text_iff }

instance abbrev pub nat_key : Key ℕ
nat_key = record { same = num_eq; exact = num_eq_iff }

module _ {κ} {K : Type κ} ⦃key : Key K⦄ where
  infix 50 ◌==◌
  abbrev pub ◌==◌ : K → K → Bool
  x == y = key.same x y

  pub ==_self : (x : K) → (x == x) ≡ true
  ==_self x = (key.exact x x).1 refl

  pub ==_ne : (x y : K) → x ≢ y → (x == y) ≡ false
  ==_ne x y h = go (x == y) refl
    where
      go : (t : Bool) → (x == y) ≡ t → t ≡ false
      go false p = refl
      go true p = absurd (h ((key.exact x y).0 p))
