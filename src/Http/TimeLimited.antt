-- ===== src/Http/TimeLimited.antt =====
-- `TimeLimited` of http/src/lib.rs.
use jsonrpc_client_rs.Base.{ℕ, Bool, Option, none, some, if◌then◌else◌}
use jsonrpc_client_rs.Base.Action.{Result, ok, err}
use jsonrpc_client_rs.Poll.{Fut, now, later, never, then_fut}
use jsonrpc_client_rs.Http.{ErrorKind, request_timeout}

-- Which of the two futures of `select2` resolved, and to what.
pub data Selected (A : Type 0) : Type 0 where
  first : Result A ErrorKind → Selected A
  second : Result (Unit {0}) (Unit {0}) → Selected A

-- `future.select2(timeout)`: both are polled until one resolves. When both do in one poll, `tie` says
-- that the first is taken.
unfoldable pub select2 :
    {A : Type 0} → Bool → Fut A ErrorKind → Fut (Unit {0}) (Unit {0}) → Fut (Selected A) ErrorKind
select2 tie (now r) (now t) = now (ok (if tie then first r else second t))
select2 tie (now r) (later t) = now (ok (first r))
select2 tie (now r) never = now (ok (first r))
select2 tie (later f) (now t) = now (ok (second t))
select2 tie never (now t) = now (ok (second t))
select2 tie (later f) (later t) = later (select2 tie f t)
select2 tie (later f) never = later (select2 tie f never)
select2 tie never (later t) = later (select2 tie never t)
select2 tie never never = never

-- `enum TimeLimited`.
pub data TimeLimited (A : Type 0) : Type 0 where
  limited : Fut (Selected A) ErrorKind → TimeLimited A
  unlimited : Fut A ErrorKind → TimeLimited A

-- `TimeLimited::new`. `timer` is the future of `Timeout::new`, which is expected to succeed.
unfoldable pub new :
    {A : Type 0}
    → Bool
    → (ℕ → Fut (Unit {0}) (Unit {0}))
    → Fut A ErrorKind
    → Option ℕ
    → TimeLimited A
new tie timer future (some time_limit) = limited (select2 tie future (timer time_limit))
new tie timer future none = unlimited future

-- What the poll of a limited future makes of the selection.
abbrev pub selected_result : {A : Type 0} → Selected A → Result A ErrorKind
selected_result (first (ok a)) = ok a
selected_result (first (err e)) = err e
selected_result (second (ok _)) = err request_timeout
selected_result (second (err _)) = err request_timeout

-- `Future::poll` of `TimeLimited`, as the future that it makes.
unfoldable pub run : {A : Type 0} → TimeLimited A → Fut A ErrorKind
run (limited future) = then_fut future λ s. now (selected_result s)
run (unlimited future) = future
