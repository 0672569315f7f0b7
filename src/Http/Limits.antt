-- ===== src/Http/Limits.antt =====
-- Futures with a time limit: `TimeLimited` of http/src/lib.rs.
use jsonrpc_client_rs.Base.{ℕ, zero, suc, ◌<◌, ◌≡◌, refl, Bool, none, some, arith}
use jsonrpc_client_rs.Base.Action.{Result, ok, err}
use jsonrpc_client_rs.Poll.{after, Fut, never, then_fut, outcome}
use jsonrpc_client_rs.Http.{ErrorKind, request_timeout}
use jsonrpc_client_rs.Http.TimeLimited.{select2, limited, new, run}

module _ {A : Type 0} (tie : Bool) where
  select2_first :
      (m n : ℕ) (r : Result A ErrorKind) (t : Result (Unit {0}) (Unit {0}))
      → m < n
      → outcome (run (limited (select2 tie (after m r) (after n t)))) ≡ some r
  unfolding outcome run select2 after then_fut
  select2_first zero zero r t h = absurd (omega arith)
  select2_first zero (suc n) (ok a) t h = refl
  select2_first zero (suc n) (err e) t h = refl
  select2_first (suc m) zero r t h = absurd (omega arith)
  select2_first (suc m) (suc n) r t h = select2_first m n r t (omega arith)

  select2_second :
      (m n : ℕ) (r : Result A ErrorKind) (t : Result (Unit {0}) (Unit {0}))
      → n < m
      → outcome (run (limited (select2 tie (after m r) (after n t)))) ≡ some (err request_timeout)
  unfolding outcome run select2 after then_fut
  select2_second zero n r t h = absurd (omega arith)
  select2_second (suc m) zero r (ok _) h = refl
  select2_second (suc m) zero r (err _) h = refl
  select2_second (suc m) (suc n) r t h = select2_second m n r t (omega arith)

  select2_never :
      (n : ℕ) (t : Result (Unit {0}) (Unit {0}))
      → outcome (run {A = A} (limited (select2 tie never (after n t)))) ≡ some (err request_timeout)
  unfolding outcome run select2 after then_fut
  select2_never zero (ok _) = refl
  select2_never zero (err _) = refl
  select2_never (suc n) t = select2_never n t

  outcome-after : (m : ℕ) (r : Result A ErrorKind) → outcome (after m r) ≡ some r
  unfolding outcome after
  outcome-after zero r = refl
  outcome-after (suc m) r = outcome-after m r

  -- With a time limit whose timer resolves at its poll n, a future that resolves at an earlier
  -- poll gives its own result, and one that would resolve at a later poll or never gives
  -- RequestTimeout; without a time limit a future gives its own result.
  pub time_limit :
      (timer : ℕ → Fut (Unit {0}) (Unit {0})) (limit early late n : ℕ) (r : Result A ErrorKind)
      (t : Result (Unit {0}) (Unit {0}))
      → timer limit ≡ after n t
      → early < n
      → n < late
      → (outcome (run (new tie timer (after early r) (some limit))) ≡ some r)
        × (outcome (run (new tie timer (after late r) (some limit))) ≡ some (err request_timeout))
        × (outcome (run {A = A} (new tie timer never (some limit))) ≡ some (err request_timeout))
        × (outcome (run (new tie timer (after late r) none)) ≡ some r)
  unfolding new
  time_limit timer limit early late n r t e before behind = rw e (
    select2_first early n r t before,
    select2_second late n r t behind,
    select2_never n t,
    unfold run in outcome-after late r,
  )
