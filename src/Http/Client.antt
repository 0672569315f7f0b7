-- ===== src/Http/Client.antt =====
-- A client of core/src/lib.rs over the transport of http/src/lib.rs.
mod Tests
use jsonrpc_client_rs.Base.{ℕ, String, ◌≡◌, refl, ap, ◌∙◌, Option, none, some, List, [], ◌∷◌, map}
use jsonrpc_client_rs.Base.Action.{Result, ok, err}
use jsonrpc_client_rs.Poll.{
  Async, ready, not_ready, Answer, item, finished, waiting, failed, Fut, outcome,
}
use jsonrpc_client_rs.Core.Types.{Value, Params, num, ErrorKind, transport_error, shutdown}
use jsonrpc_client_rs.Core.Serialize.{Serde, serialize_parameters, serialize_method_request}
use jsonrpc_client_rs.Core.Client.{
  Client, OutgoingMessage, rpc_call, SinkAnswer, taken, broken, ServerHandler, raised,
}
use jsonrpc_client_rs.Core.Client.Send.{new_with_server}
use jsonrpc_client_rs.Core.Client.Incoming.{outcome as output_outcome}
use jsonrpc_client_rs.Core.Client.Drive.{poll, polls}
use jsonrpc_client_rs.Core.Handle.{call_method}
use jsonrpc_client_rs.Core.Handle.Settled.{settled}
use jsonrpc_client_rs.Core.System.Cut.{put_off, call_cut}
use jsonrpc_client_rs.Http
use jsonrpc_client_rs.Http.Processing.{Hyper, respond, process}
use jsonrpc_client_rs.Http.Handle.{
  Bytes, Headers, Request, HttpHandle, create_request, stream_answer,
}
use jsonrpc_client_rs.Http.Exchange.{response_to}
use jsonrpc_client_rs.Http.Text.{sink_fut, pushed, sink_fut-process}

-- The first answers of the sink of `io_pair` to `poll_complete`, by what the text that it has taken
-- comes to after `n` polls.
abbrev pub completes : {B : Type 0} → ℕ → Option (Result B Http.ErrorKind) → List SinkAnswer
completes n (some (ok _)) = put_off n (taken ∷ [])
completes n (some (err _)) = put_off n (broken ∷ [])
completes n none = put_off n []

-- The answers of the stream of `io_pair`, as the client takes them.
abbrev pub as_answer : Result (Async (Option String)) Http.ErrorKind → Answer String
as_answer (ok (ready (some text))) = item text
as_answer (ok (ready none)) = finished
as_answer (ok not_ready) = waiting
as_answer (err e) = failed

-- The answers of that stream, by what the push of the sink left in its channel.
abbrev pub arrives :
    (Bytes → Option String)
    → Option (Result (List (Answer Bytes)) Http.ErrorKind)
    → List (Answer String)
arrives from_utf8 (some (ok l)) = map (λ a. as_answer (stream_answer from_utf8 a)) l
arrives from_utf8 (some (err e)) = []
arrives from_utf8 none = []

module _ {H P S T A : Type 0} (headers : Headers H) (hyper : Hyper (Request H) P Bytes)
    (serde : Serde) (server : ServerHandler S T) (from_value : Value → Option A)
    (send : OutgoingMessage → Fut (Unit {0}) (Unit {0}))
    (post : Request H → Result (Unit {0}) (Unit {0})) (h : HttpHandle H)
    (into_bytes : String → Bytes) (timeout : Option ℕ) where
  -- A client that was just made over the HTTP transport, with one method call in its channel, a
  -- handler that only waits and a transport that closes at once: if the parameters of the call
  -- are written, serde writes the call with the id 1, the event loop takes the request of it,
  -- with no request in front of it, and that request fails, be it by its status, its body or the
  -- time limit, which the sink tells at its poll n, counted from 0, then the poll behind n polls
  -- of the client ends in TransportError, and once it is dropped the future of the call fails
  -- with Shutdown.
  pub http_call_cut :
      {B : Type 0} (push : Bytes → Fut B (Unit {0})) (rest : List (Request H × ℕ)) (method : String)
      (parameters : Option Value) (p : Option Params) (tx response_tx n : ℕ) (text : String) (s : S)
      (sink : T) (e : Http.ErrorKind)
      → ((s : S) → server.poll s ≡ (ok not_ready, s))
      → serialize_parameters parameters ≡ ok p
      → outcome (send (rpc_call method p tx)) ≡ some (ok tt)
      → serialize_method_request serde (num 1) method p ≡ ok text
      → post (create_request headers h (into_bytes text)) ≡ ok tt
      → outcome (respond hyper timeout (create_request headers h (into_bytes text))) ≡ some (err e)
      → let answers =
          process hyper timeout
            ((create_request headers h (into_bytes text), response_tx) ∷ rest) in
        let fate =
          outcome
            (sink_fut headers post h into_bytes push text (response_to response_tx answers)) in
        let c =
          new_with_server
            (item (rpc_call method p tx) ∷ [])
            []
            (record { starts = []; completes = completes n fate; closes = []; accepted = [] })
            []
            s
            sink in
        let (r, d) = poll serde server (polls serde server n c) in
        (r ≡ err (raised transport_error))
        × (outcome (call_method from_value send method parameters tx (settled tx d.completed))
            ≡ some (err shutdown))
  http_call_cut push rest method parameters p tx response_tx n text s sink e calm takes sends
        written posts fails =
      let fate =
        sink_fut-process headers hyper h into_bytes push text timeout response_tx rest post posts
        ∙ ap (pushed push) fails in
      let (ends, _, gone) =
        call_cut serde server calm from_value send method parameters p tx n text s sink takes sends
          written in
      rw fate (ends, gone)
