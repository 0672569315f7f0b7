-- ===== src/Core/Server/Drivable.antt =====
-- `DrivableCall` of core/src/server.rs: the futures that `process_request` builds, as the stages
-- that a poll takes them through.
use jsonrpc_client_rs.Base.{Option, none, some, List, [], ◌∷◌, map}
use jsonrpc_client_rs.Base.Action.{ok, err}
use jsonrpc_client_rs.Poll.{Fut, Polled, resolved, pending, poll_fut}
use jsonrpc_client_rs.Core.Types.{Output, Response, Request, ErrorKind, shutdown}
use jsonrpc_client_rs.Core.Server.Handlers.{Handlers, PendingCall, handle_single_call}

-- A call of a handler, or of a batch of them; the sending of its response; an error to be returned;
-- and a future that has resolved.
pub data DrivableCall (T : Type 0) : Type 0 where
  calling : PendingCall → T → DrivableCall T
  calling_batch : Fut (List (Option Output)) ErrorKind → T → DrivableCall T
  sending : Response → Fut (Unit {0}) (Unit {0}) → DrivableCall T
  failing : ErrorKind → DrivableCall T
  spent : DrivableCall T

-- What a poll leads to: `NotReady` and the future that is left, `Ready` with the response that went
-- out if there was one, or an error.
pub data Driven (T : Type 0) : Type 0 where
  waits : DrivableCall T → Driven T
  finishes : List Response → Driven T
  fails : ErrorKind → Driven T

-- What the code takes from the futures crate: `sink.send(..)`, and `futures_unordered(..)` with the
-- results of its futures as they come.
pub record Channel (T : Type 0) : Type 0 where
  pub send : T → Response → Fut (Unit {0}) (Unit {0})
  pub unordered : List PendingCall → Fut (List (Option Output)) ErrorKind

-- `filter_map(|maybe_response| maybe_response)`.
abbrev pub responses : List (Option Output) → List Output
responses [] = []
responses (none ∷ l) = responses l
responses (some o ∷ l) = o ∷ responses l

-- `sink.send(..).map_err(|_| ErrorKind::Shutdown.into())`.
abbrev pub drive_sending : {T : Type 0} → Response → Polled (Unit {0}) (Unit {0}) → Driven T
drive_sending r (resolved (ok _)) = finishes (r ∷ [])
drive_sending r (resolved (err _)) = fails shutdown
drive_sending r (pending f) = waits (sending r f)

module _ {T : Type 0} (chan : Channel T) where
  abbrev pub send_response : T → Response → Driven T
  send_response sink r = drive_sending r (poll_fut (chan.send sink r))

  -- The `and_then` on the output of a single call.
  abbrev pub after_call : T → Polled (Option Output) ErrorKind → Driven T
  after_call sink (resolved (ok (some output))) = send_response sink (Response.single output)
  after_call sink (resolved (ok none)) = finishes []
  after_call sink (resolved (err e)) = fails e
  after_call sink (pending f) = waits (calling f sink)

  -- The `and_then` on the collected results of a batch.
  abbrev pub send_batch : T → List Output → Driven T
  send_batch sink [] = finishes []
  send_batch sink (o ∷ l) = send_response sink (Response.batch (o ∷ l))

  abbrev pub after_batch : T → Polled (List (Option Output)) ErrorKind → Driven T
  after_batch sink (resolved (ok results)) = send_batch sink (responses results)
  after_batch sink (resolved (err e)) = fails e
  after_batch sink (pending f) = waits (calling_batch f sink)

  -- One poll. A server drops the futures that have resolved, unless its poll returned an error: then
  -- they stay, and another poll would panic in the code, where they wait here.
  unfoldable pub poll_call : DrivableCall T → Driven T
  poll_call (calling f sink) = after_call sink (poll_fut f)
  poll_call (calling_batch f sink) = after_batch sink (poll_fut f)
  poll_call (sending r f) = drive_sending r (poll_fut f)
  poll_call (failing e) = fails e
  poll_call spent = waits spent

  -- The future that `process_request` builds for a request.
  unfoldable pub driveable_future : Handlers → Request → T → DrivableCall T
  driveable_future h (Request.single call) sink = calling (handle_single_call h call) sink
  driveable_future h (Request.batch calls) sink =
      calling_batch (chan.unordered (map (handle_single_call h) calls)) sink
