-- ===== src/Core/Server/Outcomes.antt =====
-- The futures that `process_request` of core/src/server.rs builds: the responses that they send when
-- they are driven to their end.
use jsonrpc_client_rs.Base.{
  ℕ, ◌+◌, ◌≡◌, refl, Option, none, some, List, [], ◌∷◌, ◌++◌, nat_key, Bool, if◌then◌else◌, arith,
}
use jsonrpc_client_rs.Base.Action.{Result, ok, err}
use jsonrpc_client_rs.Base.Assoc.{Assoc}
use jsonrpc_client_rs.Poll.{Fut, now, later, never, poll_fut, outcome}
use jsonrpc_client_rs.Core.Types.{Output, Response, ErrorKind}
use jsonrpc_client_rs.Core.Server.Drivable.{
  DrivableCall, calling, calling_batch, sending, failing, spent, Driven, waits, finishes, fails,
  Channel, responses, drive_sending, send_batch, after_call, after_batch, poll_call,
}

-- How many responses pass a test.
abbrev pub count : (Response → Bool) → List Response → ℕ
count test [] = 0
count test (r ∷ l) = (if test r then 1 else 0) + count test l

pub count-append :
    (test : Response → Bool) (l m : List Response)
    → count test (l ++ m) ≡ count test l + count test m
count-append test [] m = omega arith
count-append test (r ∷ l) m = omega (arith, count-append test l m)

-- What a response comes to that is being sent.
abbrev pub landed : Response → Option (Result (Unit {0}) (Unit {0})) → List Response
landed r (some (ok _)) = r ∷ []
landed r (some (err _)) = []
landed r none = []

module _ {T : Type 0} (chan : Channel T) where
  abbrev pub batch_comes : T → List Output → List Response
  batch_comes sink [] = []
  batch_comes sink (o ∷ l) =
      landed (Response.batch (o ∷ l)) (outcome (chan.send sink (Response.batch (o ∷ l))))

  abbrev pub call_comes : T → Option (Result (Option Output) ErrorKind) → List Response
  call_comes sink (some (ok (some o))) =
      landed (Response.single o) (outcome (chan.send sink (Response.single o)))
  call_comes sink (some (ok none)) = []
  call_comes sink (some (err e)) = []
  call_comes sink none = []

  abbrev pub results_come : T → Option (Result (List (Option Output)) ErrorKind) → List Response
  results_come sink (some (ok results)) = batch_comes sink (responses results)
  results_come sink (some (err e)) = []
  results_come sink none = []

  -- The specification of a future: the responses that it sends when it is driven to its end.
  abbrev pub comes : DrivableCall T → List Response
  comes (calling f sink) = call_comes sink (outcome f)
  comes (calling_batch f sink) = results_come sink (outcome f)
  comes (sending r f) = landed r (outcome f)
  comes (failing e) = []
  comes spent = []

  -- What a poll of a future brought, and what it left.
  abbrev pub brings : Driven T → List Response
  brings (waits f) = comes f
  brings (finishes l) = l
  brings (fails e) = []

  drive_sending-brings :
      (r : Response) (f : Fut (Unit {0}) (Unit {0}))
      → brings (drive_sending r (poll_fut f)) ≡ landed r (outcome f)
  unfolding outcome
  drive_sending-brings r (now (ok _)) = refl
  drive_sending-brings r (now (err _)) = refl
  drive_sending-brings r (later f) = refl
  drive_sending-brings r never = refl

  send_batch-brings :
      (sink : T) (l : List Output) → brings (send_batch chan sink l) ≡ batch_comes sink l
  send_batch-brings sink [] = refl
  send_batch-brings sink (o ∷ l) =
      drive_sending-brings (Response.batch (o ∷ l)) (chan.send sink (Response.batch (o ∷ l)))

  after_call-brings :
      (sink : T) (f : Fut (Option Output) ErrorKind)
      → brings (after_call chan sink (poll_fut f)) ≡ call_comes sink (outcome f)
  unfolding outcome
  after_call-brings sink (now (ok (some o))) =
      drive_sending-brings (Response.single o) (chan.send sink (Response.single o))
  after_call-brings sink (now (ok none)) = refl
  after_call-brings sink (now (err e)) = refl
  after_call-brings sink (later f) = refl
  after_call-brings sink never = refl

  after_batch-brings :
      (sink : T) (f : Fut (List (Option Output)) ErrorKind)
      → brings (after_batch chan sink (poll_fut f)) ≡ results_come sink (outcome f)
  unfolding outcome
  after_batch-brings sink (now (ok l)) = send_batch-brings sink (responses l)
  after_batch-brings sink (now (err e)) = refl
  after_batch-brings sink (later f) = refl
  after_batch-brings sink never = refl

  pub poll_call-brings : (f : DrivableCall T) → brings (poll_call chan f) ≡ comes f
  unfolding poll_call
  poll_call-brings (calling f sink) = after_call-brings sink f
  poll_call-brings (calling_batch f sink) = after_batch-brings sink f
  poll_call-brings (sending r f) = drive_sending-brings r f
  poll_call-brings (failing e) = refl
  poll_call-brings spent = refl

  -- The responses that pending futures come to.
  abbrev pub due : Assoc ℕ (DrivableCall T) → List Response
  due [] = []
  due ((key, f) ∷ m) = comes f ++ due m
