-- ===== src/Poll.antt =====
-- The vocabulary of the futures crate, which the sources of core, utils and pubsub are written in:
-- what a poll answers, a future as the answers that it gives, and a stream likewise.
use jsonrpc_client_rs.Base.{ℕ, zero, suc, Option, none, some, List, [], ◌∷◌}
use jsonrpc_client_rs.Base.Action.{Result, ok, err}

-- `Async<T>`.
pub data Async (A : Type 0) : Type 0 where
  ready : A → Async A
  not_ready : Async A

-- `Poll<Option<T>, E>` of a stream: `Ok(Ready(Some(a)))`, `Ok(Ready(None))`, `Ok(NotReady)` and
-- `Err(_)`, whose error the callers replace by their own.
pub data Answer (A : Type 0) : Type 0 where
  item : A → Answer A
  finished : Answer A
  waiting : Answer A
  failed : Answer A

-- A stream as the answers that it will give, in order; past the last it waits.
abbrev pub pull : {A : Type 0} → List (Answer A) → Answer A × List (Answer A)
pull [] = (waiting, [])
pull (a ∷ rest) = (a, rest)

-- The same stream behind `fuse()`: once finished, it answers so for ever.
abbrev pub pull_fused : {A : Type 0} → List (Answer A) → Answer A × List (Answer A)
pull_fused [] = (waiting, [])
pull_fused (finished ∷ rest) = (finished, finished ∷ rest)
pull_fused (a ∷ rest) = (a, rest)

-- A future as the polls of it that are still to come: it resolves now, answers `NotReady` once
-- more, or answers so for ever.
pub data Fut (A E : Type 0) : Type 0 where
  now : Result A E → Fut A E
  later : Fut A E → Fut A E
  never : Fut A E

-- `poll()` on a future: the result, or what is left of it.
pub data Polled (A E : Type 0) : Type 0 where
  resolved : Result A E → Polled A E
  pending : Fut A E → Polled A E

abbrev pub poll_fut : {A E : Type 0} → Fut A E → Polled A E
poll_fut (now r) = resolved r
poll_fut (later f) = pending f
poll_fut never = pending never

-- `map` on the item of a future.
abbrev pub map_ok : {A B E : Type 0} → (A → B) → Result A E → Result B E
map_ok f (ok a) = ok (f a)
map_ok f (err e) = err e

unfoldable pub map_fut : {A B E : Type 0} → (A → B) → Fut A E → Fut B E
map_fut f (now r) = now (map_ok f r)
map_fut f (later g) = later (map_fut f g)
map_fut f never = never

-- `and_then`: another future behind one that succeeds.
unfoldable pub then_fut : {A B E : Type 0} → Fut A E → (A → Fut B E) → Fut B E
then_fut (now (ok a)) k = k a
then_fut (now (err e)) k = now (err e)
then_fut (later f) k = later (then_fut f k)
then_fut never k = never

-- `map_err` on the error of a future.
unfoldable pub map_err_fut : {A E F : Type 0} → (E → F) → Fut A E → Fut A F
map_err_fut g (now (ok a)) = now (ok a)
map_err_fut g (now (err e)) = now (err (g e))
map_err_fut g (later f) = later (map_err_fut g f)
map_err_fut g never = never

-- What a future resolves to when it is driven to its end, if it has one.
unfoldable pub outcome : {A E : Type 0} → Fut A E → Option (Result A E)
outcome (now r) = some r
outcome (later f) = outcome f
outcome never = none

-- A future that resolves at its poll number `n`, counted from 0.
unfoldable pub after : {A E : Type 0} → ℕ → Result A E → Fut A E
after zero r = now r
after (suc n) r = later (after n r)
