-- ===== src/Http/Processing.antt =====
-- `create_request_processing_future` of http/src/lib.rs.
use jsonrpc_client_rs.Base.{ℕ, Bool, Option, none, some, List, [], ◌∷◌, num_eq, if◌then◌else◌}
use jsonrpc_client_rs.Base.Action.{Result, ok, err}
use jsonrpc_client_rs.Poll.{Fut, now, then_fut, outcome}
use jsonrpc_client_rs.Http.{ErrorKind, http_error}
use jsonrpc_client_rs.Http.TimeLimited.{new, run}

-- What the code takes from hyper and from the timers of tokio, for requests R, responses P and
-- bodies B: the sending of a request, the status of a response, and its whole body.
pub record Hyper (R P B : Type 0) : Type 0 where
  pub request : R → Fut P ErrorKind
  pub status : P → ℕ
  pub body : P → Fut B ErrorKind
  pub timer : ℕ → Fut (Unit {0}) (Unit {0})
  pub tie : Bool

module _ {R P B : Type 0} (hyper : Hyper R P B) where
  -- The test of the status, against 200.
  abbrev pub check_status : P → Fut P ErrorKind
  check_status response =
      if num_eq (hyper.status response) 200
      then now (ok response)
      else now (err (http_error (hyper.status response)))

  -- The future of one request up to its result.
  unfoldable pub respond : Option ℕ → R → Fut B ErrorKind
  respond timeout request =
      then_fut
        (then_fut (run (new hyper.tie hyper.timer (hyper.request request) timeout)) check_status)
        hyper.body

  -- `for_each` on the requests: the results that go into their oneshot channels, in order. A request
  -- is taken when the one before it has been answered.
  unfoldable pub process : Option ℕ → List (R × ℕ) → List (ℕ × Result B ErrorKind)
  process timeout [] = []
  process timeout ((request, response_tx) ∷ rest) =
      let later = process timeout rest in
      elim (outcome (respond timeout request)) [ some r ↦ (response_tx, r) ∷ later | none ↦ [] ]
