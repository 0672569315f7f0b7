-- ===== src/Core/System/Completed.antt =====
-- A call of a `ClientHandle` on its way through a client of core/src/lib.rs that was just made: to
-- the transport, and back with the response of the peer.
use jsonrpc_client_rs.Base.{
  ℕ, String, ◌≡◌, refl, ap, ◌∙◌, Option, none, some, List, [], ◌∷◌, true, false, nat_key, arith,
}
use jsonrpc_client_rs.Base.Action.{Result, ok, ◌>>◌, >>-from}
use jsonrpc_client_rs.Base.Assoc.{lookup, insert, erase}
use jsonrpc_client_rs.Poll.{not_ready, item, waiting, Fut, outcome}
use jsonrpc_client_rs.SelectWeak
use jsonrpc_client_rs.SelectWeak.{select_with_weak}
use jsonrpc_client_rs.Core.IdGenerator
use jsonrpc_client_rs.Core.IdGenerator.{IdGenerator}
use jsonrpc_client_rs.Core.Types.{Value, Params, num, id_key, Output, ErrorKind}
use jsonrpc_client_rs.Core.Serialize.{
  Serde, serialize_parameters, serialize_method_request, incoming_from_str, response,
}
use jsonrpc_client_rs.Core.Client.{
  Client, OutgoingMessage, rpc_call, SinkAnswer, ServerHandler, Method,
}
use jsonrpc_client_rs.Core.Client.Send.{
  new_with_server, send_payload, add_new_call, poll_transport_tx,
}
use jsonrpc_client_rs.Core.Client.Incoming.{
  version, is_v2, outcome as output_outcome, complete_call, handle_response,
  handle_transport_rx_payload, drain_rx, poll_transport_rx, poll_server,
}
use jsonrpc_client_rs.Core.Client.Outgoing.{
  issue_call, poll_rx, handle_client_payload, outgoing_round, outgoing_loop, poll_outgoing_messages,
}
use jsonrpc_client_rs.Core.Client.Drive.{
  should_shut_down, send_leftover, handle_messages, poll, polls,
}
use jsonrpc_client_rs.Core.Handle.{call_method}
use jsonrpc_client_rs.Core.Handle.Calls.{reply_to, resolved_to, call_method-replied}

module _ {S T : Type 0} (serde : Serde) (server : ServerHandler S T) where
  -- A new client with one call, over a transport that takes what it is given and then brings one
  -- text.
  abbrev pub calling : String → Option Params → ℕ → List SinkAnswer → String → S → T → Client S T
  calling method p tx closes payload s sink =
      new_with_server (item (rpc_call method p tx) ∷ []) []
        (record { starts = []; completes = []; closes = closes; accepted = [] })
        (waiting ∷ item payload ∷ []) s sink

  -- The same once the call is on its way.
  abbrev called : String → ℕ → List SinkAnswer → String → S → T → Client S T
  called text tx closes payload s sink = record (calling "" none tx closes payload s sink) {
    outgoing_payload_rx = record (select_with_weak [] []) { use_strong = false };
    id_generator = record { next_id = 2 };
    pending_client_requests = (num 1, tx) ∷ [];
    transport_tx = record { starts = []; completes = []; closes = closes; accepted = text ∷ [] };
    transport_rx = item payload ∷ [];
  }

  -- The five steps of `handle_messages`, of which the last decides.
  pub handle-steps :
      (c c0 c1 c2 c3 : Client S T)
      → send_leftover c ≡ (ok tt, c0)
      → poll_server server c0 ≡ (ok tt, c1)
      → poll_transport_rx serde server c1 ≡ (ok tt, c2)
      → poll_outgoing_messages serde c2 ≡ (ok tt, c3)
      → handle_messages serde server c ≡ poll_transport_tx c3
  unfolding handle_messages
  handle-steps c c0 c1 c2 c3 e0 e1 e2 e3 =
      let m4 : Method S T (Unit {0}) = poll_outgoing_messages serde >> poll_transport_tx in
      let m3 : Method S T (Unit {0}) = poll_transport_rx serde server >> m4 in
      >>-from send_leftover (poll_server server >> m3) c c0 e0
      ∙ >>-from (poll_server server) m3 c0 c1 e1
      ∙ >>-from (poll_transport_rx serde server) m4 c1 c2 e2
      ∙ >>-from (poll_outgoing_messages serde) poll_transport_tx c2 c3 e3

  -- The same in a poll that goes well.
  poll-steps :
      (c c0 c1 c2 c3 d : Client S T)
      → should_shut_down c ≡ false
      → send_leftover c ≡ (ok tt, c0)
      → poll_server server c0 ≡ (ok tt, c1)
      → poll_transport_rx serde server c1 ≡ (ok tt, c2)
      → poll_outgoing_messages serde c2 ≡ (ok tt, c3)
      → poll_transport_tx c3 ≡ (ok tt, d)
      → poll serde server c ≡ (ok not_ready, d)
  unfolding poll
  poll-steps c c0 c1 c2 c3 d runs e0 e1 e2 e3 e4 =
      let whole = handle-steps c c0 c1 c2 c3 e0 e1 e2 e3 ∙ e4 in ground (arith, runs, whole)

  pub poll_server-calm :
      (c : Client S T) (s : S)
      → c.shutting_down ≡ false
      → server.poll c.server_handler ≡ (ok not_ready, s)
      → poll_server server c ≡ (ok tt, record c { server_handler = s; shutting_down = false })
  unfolding poll_server
  poll_server-calm c s runs calm = ground arith

  pub handle_client_payload-call :
      (c : Client S T) (method : String) (p : Option Params) (tx : ℕ) (text : String)
      → c.id_generator.next_id ≡ 1
      → serialize_method_request serde (num 1) method p ≡ ok text
      → handle_client_payload serde (rpc_call method p tx) c
        ≡ send_payload text
            (add_new_call (num 1) tx (record c { id_generator = record { next_id = 2 } }))
  unfolding handle_client_payload IdGenerator.next issue_call
  handle_client_payload-call c method p tx text e written = rw (e, written) refl

  calling-poll :
      (method : String) (p : Option Params) (tx : ℕ) (closes : List SinkAnswer)
      (payload text : String) (s s1 : S) (sink : T)
      → server.poll s ≡ (ok not_ready, s1)
      → serialize_method_request serde (num 1) method p ≡ ok text
      → poll serde server (calling method p tx closes payload s sink)
        ≡ (ok not_ready, called text tx closes payload s1 sink)
  unfolding new_with_server select_with_weak IdGenerator.new should_shut_down send_leftover
      poll_transport_rx drain_rx poll_outgoing_messages outgoing_loop outgoing_round poll_rx
      SelectWeak.poll send_payload add_new_call insert poll_transport_tx
  calling-poll method p tx closes payload text s s1 sink calm written =
      let c = calling method p tx closes payload s sink in
      let c1 = record c { server_handler = s1 } in
      let c2 = record c1 { transport_rx = item payload ∷ [] } in
      let d = called text tx closes payload s1 sink in
      poll-steps c c c1 c2 d d refl refl (poll_server-calm c s1 refl calm) refl
        (>>-from (handle_client_payload serde (rpc_call method p tx)) (outgoing_loop serde 1)
          (record c2 {
            outgoing_payload_rx = record (select_with_weak [] []) { use_strong = true };
          })
          (record d { outgoing_payload_rx = record (select_with_weak [] []) { use_strong = true } })
          (handle_client_payload-call _ method p tx text refl written))
        refl

  -- The same once the response came.
  abbrev completed : String → ℕ → List SinkAnswer → S → T → Result Value ErrorKind → Client S T
  completed text tx closes s sink result = record (called text tx closes "" s sink) {
    outgoing_payload_rx = record (select_with_weak [] []) { use_strong = true };
    pending_client_requests = [];
    transport_rx = [];
    completed = (tx, result) ∷ [];
  }

  pub handle_response-one :
      (c : Client S T) (output : Output) (tx : ℕ) (result : Result Value ErrorKind)
      → is_v2 (version output) ≡ true
      → output_outcome output ≡ (num 1, result)
      → c.pending_client_requests ≡ (num 1, tx) ∷ []
      → handle_response output c
        ≡ (ok tt, record c { pending_client_requests = []; completed = (tx, result) ∷ c.completed })
  unfolding handle_response complete_call lookup erase
  handle_response-one c output tx result v o e = rw (v, o, e) refl

  called-poll :
      (text : String) (tx : ℕ) (closes : List SinkAnswer) (payload : String) (s s1 : S) (sink : T)
      (output : Output) (result : Result Value ErrorKind)
      → server.poll s ≡ (ok not_ready, s1)
      → incoming_from_str serde payload ≡ ok (response output)
      → is_v2 (version output) ≡ true
      → output_outcome output ≡ (num 1, result)
      → poll serde server (called text tx closes payload s sink)
        ≡ (ok not_ready, completed text tx closes s1 sink result)
  unfolding new_with_server select_with_weak IdGenerator.new should_shut_down send_leftover
      poll_transport_rx drain_rx handle_transport_rx_payload poll_outgoing_messages outgoing_loop
      outgoing_round poll_rx SelectWeak.poll poll_transport_tx
  called-poll text tx closes payload s s1 sink output result calm reads v o =
      let c = called text tx closes payload s sink in
      let c1 = record c { server_handler = s1 } in
      let c2 = record c1 {
        transport_rx = [];
        pending_client_requests = [];
        completed = (tx, result) ∷ [];
      } in
      let d = completed text tx closes s1 sink result in
      poll-steps c c c1 c2 d d refl refl (poll_server-calm c s1 refl calm)
        (>>-from (handle_transport_rx_payload serde server payload) (drain_rx serde server [])
          (record c1 { transport_rx = [] }) c2
          (rw reads
            (handle_response-one (record c1 { transport_rx = [] }) output tx result v o refl)))
        refl refl

  -- A client that was just made, with one method call in its channel, over a transport that takes
  -- what it is given and brings one text after one wait, with a server that does not end: if the
  -- parameters of the call are written, serde writes the call with the id 1, and the text is read
  -- as a response of version 2.0 with that id, then one poll gives the text of the call, alone,
  -- to the transport, and after the second the future of the call resolves to what the response
  -- says: the result as it is read, or the error of the peer.
  pub call_completed :
      {A : Type 0} (from_value : Value → Option A)
      (send : OutgoingMessage → Fut (Unit {0}) (Unit {0})) (method : String)
      (parameters : Option Value) (p : Option Params) (tx : ℕ) (closes : List SinkAnswer)
      (payload text : String) (s s1 s2 : S) (sink : T) (output : Output)
      (result : Result Value ErrorKind)
      → serialize_parameters parameters ≡ ok p
      → outcome (send (rpc_call method p tx)) ≡ some (ok tt)
      → serialize_method_request serde (num 1) method p ≡ ok text
      → server.poll s ≡ (ok not_ready, s1)
      → server.poll s1 ≡ (ok not_ready, s2)
      → incoming_from_str serde payload ≡ ok (response output)
      → is_v2 (version output) ≡ true
      → output_outcome output ≡ (num 1, result)
      → let c = calling method p tx closes payload s sink in
        let d = polls serde server 2 c in
        ((polls serde server 1 c).transport_tx.accepted ≡ text ∷ [])
        × (outcome (call_method from_value send method parameters tx (reply_to tx d.completed))
            ≡ resolved_to from_value send result)
  unfolding polls
  call_completed from_value send method parameters p tx closes payload text s s1 s2 sink output
        result takes sends written calm calm1 reads v o =
      let first = calling-poll method p tx closes payload text s s1 sink calm written in
      let second = called-poll text tx closes payload s1 s2 sink output result calm1 reads v o in
      (
        ap (λ q. q.1.transport_tx.accepted) first,
        call_method-replied from_value send method parameters p tx result _ [] takes sends
            (ap (λ q. (poll serde server q.1).1.completed) first ∙ ap (λ q. q.1.completed) second),
      )
