-- ===== src/Base/Action.antt =====
-- `Result` of the standard library, and methods that take `&mut self` and return a `Result`:
-- what they wrote before an early return by `?` stays written.
use mathlib.Core.Path.{◌≡◌, refl}
use mathlib.Core.Logic.{◌⊎◌, inl, inr}
use native.Mathlib.Omega.{arith}

pub data Result (A E : Type 0) : Type 0 where
  ok : A → Result A E
  err : E → Result A E

pub Result-cases :
    {A E : Type 0} (r : Result A E) → ((a : A) × (r ≡ ok a)) ⊎ ((e : E) × (r ≡ err e))
Result-cases (ok a) = inl (a, refl)
Result-cases (err e) = inr (e, refl)

abbrev pub Action : Type 0 → Type 0 → Type 0 → Type 0
Action C E A = C → Result A E × C

abbrev pub done : {C E : Type 0} → Action C E (Unit {0})
done c = (ok tt, c)

abbrev pub fail : {C E A : Type 0} → E → Action C E A
fail e c = (err e, c)

abbrev pub modify : {C E : Type 0} → (C → C) → Action C E (Unit {0})
modify f c = (ok tt, f c)

infixl 5 ◌>>=◌ ◌>>◌
abbrev pub ◌>>=◌ : {C E A B : Type 0} → Action C E A → (A → Action C E B) → Action C E B
◌>>=◌ m f c = let (r, c') = m c in elim r [ ok a ↦ f a c' | err e ↦ (err e, c') ]

abbrev pub ◌>>◌ : {C E B : Type 0} → Action C E (Unit {0}) → Action C E B → Action C E B
m >> k = m >>= λ _. k

-- What an action does to the state, on success and on error alike.
module _ {C E : Type 0} (R : C → C → Type 0) where
  abbrev pub Does : {A : Type 0} → Action C E A → Type 0
  Does m = (c : C) → R c (m c).1

  pub >>-Does :
      {B : Type 0} (trans : (a b c : C) → R a b → R b c → R a c) (m : Action C E (Unit {0}))
      (k : Action C E B)
      → Does m
      → Does k
      → Does (m >> k)
  >>-Does trans m k hm hk c = go (m c) refl (hm c)
    where
      ends : Result (Unit {0}) E × C → Type 0
      ends p = R c (◌>>=◌ {A = Unit {0}} (λ _. p) (λ _. k) c).1

      go : (p : Result (Unit {0}) E × C) → m c ≡ p → R c p.1 → ends p
      go (ok a, c') e h = trans c c' _ h (hk c')
      go (err x, c') e h = h

-- What holds behind the first action, and is kept by the second, holds behind both.
pub >>-holds :
    {C E B : Type 0} (P : C → Type 0) (m : Action C E (Unit {0})) (k : Action C E B) (c : C)
    → P (m c).1
    → ((d : C) → P d → P (k d).1)
    → P ((m >> k) c).1
>>-holds {C = C} {E = E} P m k c h keep = go (m c) h
  where
    go : (p : Result (Unit {0}) E × C) → P p.1 → P (◌>>=◌ {A = Unit {0}} (λ _. p) (λ _. k) c).1
    go (ok a, d) h = keep d h
    go (err e, d) h = h

-- Two actions in a row succeed only if each does.
pub >>-ok :
    {C E B : Type 0} (m : Action C E (Unit {0})) (k : Action C E B) (c : C) (b : B)
    → ((m >> k) c).0 ≡ ok b
    → ((m c).0 ≡ ok tt) × ((k (m c).1).0 ≡ ok b) × ((m >> k) c ≡ k (m c).1)
>>-ok m k c b h = ground arith

-- The second runs from what the first left if that succeeds.
pub >>-continues :
    {C E B : Type 0} (m : Action C E (Unit {0})) (k : Action C E B) (c : C)
    → (m c).0 ≡ ok tt
    → (m >> k) c ≡ k (m c).1
>>-continues m k c h = ground arith

pub >>-from :
    {C E B : Type 0} (m : Action C E (Unit {0})) (k : Action C E B) (c d : C)
    → m c ≡ (ok tt, d)
    → (m >> k) c ≡ k d
>>-from m k c d h = ground arith
