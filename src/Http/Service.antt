-- ===== src/Http/Service.antt =====
-- The requests that `create_request_processing_future` of http/src/lib.rs answers.
use jsonrpc_client_rs.Base.{
  ℕ, ◌≡◌, ◌↔◌, refl, sym, ◌∙◌, Option, none, some, List, [], ◌∷◌, ◌++◌, num_eq, if◌then◌else◌,
  arith,
}
use jsonrpc_client_rs.Base.Action.{Result, ok, err}
use jsonrpc_client_rs.Poll.{Fut, now, later, never, then_fut, outcome}
use jsonrpc_client_rs.Http.{ErrorKind, http_error}
use jsonrpc_client_rs.Http.TimeLimited.{new, run}
use jsonrpc_client_rs.Http.Processing.{Hyper, check_status, respond, process}

module _ {R P B : Type 0} (hyper : Hyper R P B) where
  -- How the result of a request comes of the response and of its body.
  abbrev status_checked : P → Option (Result B ErrorKind)
  status_checked p =
      if num_eq (hyper.status p) 200
      then outcome (hyper.body p)
      else some (err (http_error (hyper.status p)))

  abbrev responded : Option (Result P ErrorKind) → Option (Result B ErrorKind)
  responded none = none
  responded (some (err e)) = some (err e)
  responded (some (ok p)) = status_checked p

  body_lem : (p : P) → outcome (then_fut (check_status hyper p) hyper.body) ≡ status_checked p
  unfolding outcome then_fut
  body_lem p = ground arith

  respond_head :
      (head : Fut P ErrorKind)
      → outcome (then_fut (then_fut head (check_status hyper)) hyper.body)
        ≡ responded (outcome head)
  unfolding outcome then_fut
  respond_head (now (ok p)) = body_lem p
  respond_head (now (err e)) = refl
  respond_head (later head) = respond_head head
  respond_head never = refl

  respond_lem :
      (timeout : Option ℕ) (request : R)
      → outcome (respond hyper timeout request)
        ≡ responded (outcome (run (new hyper.tie hyper.timer (hyper.request request) timeout)))
  unfolding respond
  respond_lem timeout request =
      respond_head (run (new hyper.tie hyper.timer (hyper.request request) timeout))

  responded_ok :
      (o : Option (Result P ErrorKind)) (b : B)
      → responded o ≡ some (ok b)
      → (p : P) × (o ≡ some (ok p))
        × (hyper.status p ≡ 200)
        × (outcome (hyper.body p) ≡ some (ok b))
  responded_ok none b h = cc
  responded_ok (some (err e)) b h = cc
  responded_ok (some (ok p)) b h = (p, refl, ground arith, ground arith)

  -- A request gives a body exactly if its response comes within the time limit, has the status
  -- 200, and its body comes.
  pub respond_ok :
      (timeout : Option ℕ) (request : R) (b : B)
      → (outcome (respond hyper timeout request) ≡ some (ok b)) ↔ (
          (p : P) × (outcome (run (new hyper.tie hyper.timer (hyper.request request) timeout))
            ≡ some (ok p))
          × (hyper.status p ≡ 200)
          × (outcome (hyper.body p) ≡ some (ok b)))
  respond_ok timeout request b = (
    λ h. responded_ok _ b (sym (respond_lem timeout request) ∙ h),
    λ (p, h, s, e). respond_lem timeout request ∙ rw h (ground arith),
  )

  stuck_lem :
      (timeout : Option ℕ) (request : R) (p : P)
      → outcome (run (new hyper.tie hyper.timer (hyper.request request) timeout)) ≡ some (ok p)
      → hyper.status p ≡ 200
      → outcome (hyper.body p) ≡ none
      → outcome (respond hyper timeout request) ≡ none
  stuck_lem timeout request p h s b = ground (arith, respond_lem timeout request)

  -- If the response to a request comes within the time limit with the status 200 and its body
  -- never ends, neither it nor any request behind it is answered: the answers are those of the
  -- requests in front of it alone.
  pub process_stuck :
      (timeout : Option ℕ) (front : List (R × ℕ)) (request : R) (tx : ℕ) (behind : List (R × ℕ))
      (p : P)
      → outcome (run (new hyper.tie hyper.timer (hyper.request request) timeout)) ≡ some (ok p)
      → hyper.status p ≡ 200
      → outcome (hyper.body p) ≡ none
      → process hyper timeout (front ++ (request, tx) ∷ behind) ≡ process hyper timeout front
  unfolding process
  process_stuck timeout [] request tx behind p h s b =
      ground (arith, stuck_lem timeout request p h s b)
  process_stuck timeout ((first, tx') ∷ front) request tx behind p h s b =
      ground (arith, process_stuck timeout front request tx behind p h s b)
