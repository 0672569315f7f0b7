-- ===== src/Core/Handle/Tests.antt =====
-- Runs of the handles of core/src.
use jsonrpc_client_rs.Base.{
  nat_key, ◌≡◌, ◌≢◌, ◌+◌, ◌⊎◌, arith, refl, String, Option, none, some, [], ◌∷◌, ◌++◌, string_key,
}
use jsonrpc_client_rs.Base.Action.{Result, ok, err}
use jsonrpc_client_rs.Base.Assoc.{lookup}
use jsonrpc_client_rs.Poll.{not_ready, item, waiting, Fut, now, later, outcome}
use jsonrpc_client_rs.Core.Types.{
  Value, num, v2, Output, failure, method_not_found, ErrorKind, shutdown, json_rpc_error,
}
use jsonrpc_client_rs.Core.IdGenerator.{next}
use jsonrpc_client_rs.Core.IdGenerator
use jsonrpc_client_rs.Core.Serialize.{
  Serde, value_of_params, serialize_parameters, value_to_params, serialize_method_request,
  serialize_notification_request,
}
use jsonrpc_client_rs.Core.Client.{
  Client, OutgoingMessage, rpc_call, notification, broken, start_send, ServerHandler, TransportTx,
}
use jsonrpc_client_rs.Core.Client.Send.{new_with_server}
use jsonrpc_client_rs.Core.Client.Incoming.{handle_response}
use jsonrpc_client_rs.Core.Client.Outgoing.{handle_client_payload}
use jsonrpc_client_rs.Core.Server.Handlers.{Handler, on_notification, already_exists}
use jsonrpc_client_rs.Core.Server.Handlers
use jsonrpc_client_rs.Core.Server.State.{
  Server, HandlerMsg, add_handler, remove_handler, new, handle_msg,
}
use jsonrpc_client_rs.Core.Handle.{call_method, send_notification, add, remove, refused}
use jsonrpc_client_rs.Core.Handle.Calls.{reply_to, call_round_trip, resolved_to}
use jsonrpc_client_rs.Core.Handle.Settled.{settled, call_settled}
use jsonrpc_client_rs.Core.Client.Drive.{polls}
use jsonrpc_client_rs.Core.Client.Tally.{in_queue, held, answered}
use jsonrpc_client_rs.Core.Handle.Notifications.{verdict, kept, notification_sent}
use jsonrpc_client_rs.Core.Client.Wire.{wire}
use jsonrpc_client_rs.Core.Handle.Registration.{added_to, removed_to, register_unregister}

abbrev json : Serde
json = record {
  params_to_value = λ p. some (value_of_params p);
  call_to_string = λ call. some call.method;
  notification_to_string = λ note. some note.method;
  response_to_string = λ r. none;
  output_from_str = λ s. none;
  request_from_str = λ s. none;
}

-- The channel to the client takes everything, one poll later.
abbrev send : OutgoingMessage → Fut (Unit {0}) (Unit {0})
send m = later (now (ok tt))

abbrev as_value : Value → Option Value
as_value v = some v

abbrev start : Client (Unit {0}) (Unit {0})
start =
    new_with_server [] [] (record { starts = []; completes = []; closes = []; accepted = [] }) [] tt
      tt

abbrev quiet : ServerHandler (Unit {0}) (Unit {0})
quiet = record { poll = λ s. (ok not_ready, s); process_request = λ req t s. (ok tt, s) }

abbrev no_answers : TransportTx
no_answers = record { starts = []; completes = []; closes = []; accepted = [] }

call_settled_example :
    let d =
      polls json quiet 2
        (new_with_server (item (rpc_call "ping" none 7) ∷ []) [] no_answers (waiting ∷ []) tt tt) in
    let f =
      outcome (call_method as_value send "ping" (some Value.null) 7 (settled 7 d.completed)) in
    ((r : Result Value ErrorKind) × (lookup 7 d.completed ≡ some r)
      × (answered 7 d.completed ≡ 1)
      × (f ≡ resolved_to as_value send r))
    ⊎ ((in_queue 7 d.outgoing_payload_rx + held 7 d.pending_client_requests ≡ 1)
        × (f ≡ some (err shutdown)))
unfolding serialize_parameters value_to_params outcome
call_settled_example =
    call_settled as_value send json quiet (item (rpc_call "ping" none 7) ∷ []) [] no_answers
      (waiting ∷ []) tt tt "ping" (some Value.null) none 7 2 (omega arith) refl refl refl

abbrev refusal : Output
refusal = failure (some v2) method_not_found (num 1)

ping_text : serialize_method_request json (next start.id_generator).0 "ping" none ≡ ok "ping"
unfolding serialize_method_request serialize_parameters value_to_params new_with_server
ping_text = refl

call_round_trip_example :
    let d = (handle_client_payload json (rpc_call "ping" none 7) start).1 in
    let e = (handle_response refusal d).1 in
    outcome (call_method as_value send "ping" (some Value.null) 7 (reply_to 7 e.completed))
    ≡ some (err (json_rpc_error method_not_found))
unfolding serialize_parameters value_to_params outcome new_with_server IdGenerator.new next
call_round_trip_example =
    call_round_trip json as_value send start "ping" (some Value.null) none 7 "ping" refusal
      (err (json_rpc_error method_not_found)) refl refl ping_text refl refl

-- The sink refuses the first text.
abbrev refused_start : Client (Unit {0}) (Unit {0})
refused_start =
    new_with_server [] []
      (record { starts = broken ∷ []; completes = []; closes = []; accepted = [] }) [] tt tt

note_text : serialize_notification_request json "note" none ≡ ok "note"
unfolding serialize_notification_request serialize_parameters value_to_params
note_text = refl

notification_sent_example :
    let (r, d) = handle_client_payload json (notification "note" none 7) refused_start in
    let a = (start_send "note" refused_start.transport_tx).0 in
    (outcome (send_notification send "note" (some Value.null) 7 (reply_to 7 d.acknowledged))
      ≡ some (ok tt))
    × (r ≡ verdict a)
    × (wire d ≡ wire refused_start ++ kept a "note")
unfolding serialize_parameters value_to_params outcome new_with_server
notification_sent_example =
    notification_sent json send refused_start "note" (some Value.null) none 7 "note" refl refl
      note_text refl refl

abbrev empty_server : Server (Unit {0})
empty_server = new []

abbrev quiet_callback : Handler
quiet_callback = on_notification λ note. now (ok tt)

abbrev loud_callback : Handler
loud_callback = on_notification λ note. now (err shutdown)

abbrev to_server : HandlerMsg → Fut (Unit {0}) (Unit {0})
to_server m = now (ok tt)

names_differ : ◌≢◌ {A = String} "b" "a"
names_differ e = cc ((string_key.exact "b" "a").1 e)

register_unregister_example :
    let s1 = handle_msg (add_handler "a" quiet_callback 1) empty_server in
    let s2 = handle_msg (add_handler "a" loud_callback 2) s1 in
    let s3 = handle_msg (remove_handler "a" 3) s2 in
    (outcome (add to_server "a" quiet_callback 1 (added_to 1 s1.replies)) ≡ some (ok tt))
    × (outcome (add to_server "a" loud_callback 2 (added_to 2 s2.replies))
        ≡ some (err (refused (record { handler = loud_callback; kind = already_exists }))))
    × (outcome (remove to_server "a" 3 (removed_to 3 s3.replies)) ≡ some (ok quiet_callback))
    × (lookup "b" s3.handler_map.handlers ≡ lookup "b" empty_server.handler_map.handlers)
unfolding new Handlers.new lookup outcome
register_unregister_example =
    register_unregister to_server "a" "b" quiet_callback loud_callback 1 2 3 empty_server refl
      names_differ refl refl refl
