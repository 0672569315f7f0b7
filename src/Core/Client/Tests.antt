-- ===== src/Core/Client/Tests.antt =====
-- Runs of the client of core/src/lib.rs on small inputs.
use jsonrpc_client_rs.Base.{
  ◌≡◌, ◌≢◌, refl, inl, inr, ◌+◌, none, some, true, false, List, [], ◌∷◌, ◌++◌, ◌==◌, string_key,
  if◌then◌else◌, arith,
}
use jsonrpc_client_rs.Base.Action.{ok, err}
use jsonrpc_client_rs.Base.Assoc.{lookup, insert, erase}
use jsonrpc_client_rs.Poll.{not_ready, Answer, item, waiting}
use jsonrpc_client_rs.Core.Types.{Value, num, id_key, v2, Output, success, transport_error}
use jsonrpc_client_rs.Core.IdGenerator.{next}
use jsonrpc_client_rs.Core.IdGenerator
use jsonrpc_client_rs.Core.Serialize.{
  Serde, value_of_params, serialize_method_request, serialize_parameters, value_to_params,
  incoming_from_str,
}
use jsonrpc_client_rs.Core.Client.{
  Client, OutgoingMessage, rpc_call, TransportTx, busy, close, ServerHandler, raised, panicked,
}
use jsonrpc_client_rs.Core.Client.Send.{
  new_with_server, send_payload, add_new_call, poll_transport_tx,
}
use jsonrpc_client_rs.Core.Client.Incoming.{
  handle_response, poll_server, drain_rx, poll_transport_rx, handle_transport_rx_payload,
  complete_call,
}
use jsonrpc_client_rs.Core.Client.Outgoing.{
  handle_client_payload, outgoing_round, poll_outgoing_messages, outgoing_loop, poll_rx, issue_call,
}
use jsonrpc_client_rs.Core.Client.Drive.{
  should_shut_down, handle_messages, poll, polls, send_leftover, handle_shutdown, close_transport,
  finish,
}
use jsonrpc_client_rs.Core.Client.Tally.{held, answered, in_queue, queued}
use jsonrpc_client_rs.Core.Client.Conserved.{calls_conserved}
use jsonrpc_client_rs.Core.Client.Calls.{call_answered}
use jsonrpc_client_rs.Core.Client.Fresh.{next_id_unused}
use jsonrpc_client_rs.Core.Client.Wire.{Wrote, wire, texts, gen_after_all}
use jsonrpc_client_rs.Core.Client.Written.{AllWait, polls_in_order}
use jsonrpc_client_rs.Core.Client.Stopped.{Silent, stopped-Silent}
use jsonrpc_client_rs.SelectWeak.Merging.{Merged}
use jsonrpc_client_rs.SelectWeak.Full.{Among, Drained}
use jsonrpc_client_rs.Core.Client.Panics.{poll_no_panic}
use jsonrpc_client_rs.Core.Client.Flush.{handle_messages_flushes}
use jsonrpc_client_rs.Core.Client.Ending.{
  verdict, left_over, resolves, keeps, poll_shutting_down, poll_running, fatal_error_reported,
}
use jsonrpc_client_rs.SelectWeak
use jsonrpc_client_rs.SelectWeak.{select_with_weak}

-- A call is written as the name of its method, and one text is the response to the first call.
abbrev reply : Output
reply = success (some v2) (Value.text "pong") (num 1)

abbrev json : Serde
json = record {
  params_to_value = λ p. some (value_of_params p);
  call_to_string = λ call. some call.method;
  notification_to_string = λ note. some note.method;
  response_to_string = λ r. none;
  output_from_str = λ s. if s == "reply" then some reply else none;
  request_from_str = λ s. none;
}

abbrev server : ServerHandler (Unit {0}) (Unit {0})
server = record { poll = λ s. (ok not_ready, s); process_request = λ req tx s. (ok tt, s) }

abbrev sink : TransportTx
sink = record { starts = busy ∷ []; completes = []; closes = busy ∷ []; accepted = [] }

abbrev calls : List (Answer OutgoingMessage)
calls = item (rpc_call "ping" none 7) ∷ waiting ∷ item (rpc_call "pong" none 8) ∷ []

abbrev start : Client (Unit {0}) (Unit {0})
start = new_with_server calls [] sink (waiting ∷ item "reply" ∷ []) tt tt

-- A client whose first call waits for its response.
abbrev asked : Client (Unit {0}) (Unit {0})
asked = record start { pending_client_requests = (num 1, 7) ∷ [] }

-- A client that met an error.
abbrev broken_client : Client (Unit {0}) (Unit {0})
broken_client = record start { fatal_error = some transport_error }

calls_conserved_example :
    let d = polls json server 3 start in
    in_queue 7 d.outgoing_payload_rx + held 7 d.pending_client_requests + answered 7 d.completed
    ≡ queued 7 calls + queued 7 []
calls_conserved_example =
    calls_conserved json server calls [] sink (waiting ∷ item "reply" ∷ []) tt tt 7 3 (omega arith)

ping_text : serialize_method_request json (next start.id_generator).0 "ping" none ≡ ok "ping"
unfolding serialize_method_request serialize_parameters value_to_params new_with_server
ping_text = refl

call_answered_example :
    let d = (handle_client_payload json (rpc_call "ping" none 7) start).1 in
    let e = (handle_response reply d).1 in
    (e.completed ≡ (7, ok (Value.text "pong")) ∷ [])
    × (lookup (num 1) e.pending_client_requests ≡ none)
    × (lookup (num 2) e.pending_client_requests ≡ none)
unfolding new_with_server IdGenerator.new next lookup
call_answered_example =
    call_answered json start "ping" none 7 "ping" reply (ok (Value.text "pong")) (num 2) ping_text
      refl refl (λ e. cc)

next_id_unused_example :
    let d = polls json server 4 start in
    lookup (next d.id_generator).0 d.pending_client_requests ≡ none
next_id_unused_example =
    next_id_unused json server calls [] sink (waiting ∷ item "reply" ∷ []) tt tt 4 (omega arith)

start_waits : AllWait json server 2 start × (should_shut_down (polls json server 2 start) ≡ false)
unfolding polls poll should_shut_down handle_messages send_leftover poll_server poll_transport_rx
    drain_rx poll_outgoing_messages outgoing_loop outgoing_round poll_rx SelectWeak.poll
    handle_client_payload issue_call send_payload add_new_call poll_transport_tx new_with_server
    select_with_weak serialize_method_request serialize_parameters value_to_params IdGenerator.new
    next handle_transport_rx_payload incoming_from_str handle_response complete_call lookup insert
    erase
start_waits = (((tt, refl), refl), refl)

polls_in_order_example :
    let d = polls json server 2 start in
    (ms : List OutgoingMessage) × Merged start.outgoing_payload_rx ms d.outgoing_payload_rx
    × (wire d ≡ wire start ++ texts json start.id_generator ms)
    × (d.id_generator ≡ gen_after_all json start.id_generator ms)
polls_in_order_example = polls_in_order json server 2 start start_waits.0 start_waits.1

poll_shutting_down_example :
    let (r, d) = poll json server broken_client in
    let (answer, tx) = close broken_client.transport_tx in
    (r ≡ verdict answer broken_client.fatal_error)
    × (d.transport_tx ≡ tx)
    × (d.fatal_error ≡ left_over answer broken_client.fatal_error)
    × (d.pending_payload ≡ broken_client.pending_payload)
    × (d.outgoing_payload_rx ≡ broken_client.outgoing_payload_rx)
    × (d.id_generator ≡ broken_client.id_generator)
    × (d.shutting_down ≡ broken_client.shutting_down)
unfolding should_shut_down
poll_shutting_down_example = poll_shutting_down json server broken_client refl

broken_waits : AllWait json server 1 broken_client
unfolding polls poll should_shut_down handle_shutdown poll_transport_rx drain_rx
    handle_transport_rx_payload incoming_from_str handle_response complete_call lookup
    close_transport finish new_with_server
broken_waits = (tt, refl)

stopped-Silent_example :
    (should_shut_down (polls json server 1 broken_client) ≡ true)
    × Silent broken_client (polls json server 1 broken_client)
    × Silent broken_client (poll json server (polls json server 1 broken_client)).1
unfolding should_shut_down
stopped-Silent_example = stopped-Silent json server 1 broken_client refl broken_waits

poll_running_example :
    let (r, d) = handle_messages json server start in
    let (answer, _) = close d.transport_tx in
    let (result, e) = poll json server start in
    (result ≡ resolves r answer d.fatal_error) × (e.fatal_error ≡ keeps r answer d.fatal_error)
unfolding should_shut_down new_with_server
poll_running_example = poll_running json server start refl

fatal_error_reported_example :
    (poll json server (polls json server 1 broken_client)).0 ≡ err (raised transport_error)
unfolding new_with_server
fatal_error_reported_example =
    fatal_error_reported json server 1 0 broken_client transport_error refl refl

poll_no_panic_example : (poll json server (polls json server 3 start)).0 ≢ err panicked
unfolding new_with_server select_with_weak
poll_no_panic_example = poll_no_panic json server start 3 (tt, tt)

-- The same over a transport that takes what it is given.
abbrev open_start : Client (Unit {0}) (Unit {0})
open_start =
    new_with_server (item (rpc_call "ping" none 7) ∷ item (rpc_call "pong" none 8) ∷ []) []
      (record { starts = []; completes = []; closes = []; accepted = [] }) [] tt tt

open_start_works : (handle_messages json server open_start).0 ≡ ok tt
unfolding handle_messages send_leftover poll_server poll_transport_rx drain_rx
    poll_outgoing_messages outgoing_loop outgoing_round poll_rx SelectWeak.poll
    handle_client_payload issue_call send_payload add_new_call poll_transport_tx new_with_server
    select_with_weak serialize_method_request serialize_parameters value_to_params IdGenerator.new
    next
open_start_works = refl

handle_messages_flushes_example :
    let m = rpc_call "pong" none 8 in
    let d = (handle_messages json server open_start).1 in
    ((ms : List OutgoingMessage) × Wrote json open_start d ms × Among m ms)
    × Drained d.outgoing_payload_rx
    × (d.pending_payload ≡ none)
unfolding new_with_server select_with_weak
handle_messages_flushes_example =
    handle_messages_flushes json server open_start (rpc_call "pong" none 8) refl (tt, tt, refl)
      (inl (inr (inl refl))) open_start_works
