-- ===== src/Core/System/Tests.antt =====
-- Runs of a client of core/src/lib.rs with a server of core/src/server.rs.
use jsonrpc_client_rs.Base.{◌≡◌, refl, none, some, [], ◌∷◌, string_key, arith}
use jsonrpc_client_rs.Base.Action.{ok}
use jsonrpc_client_rs.Poll.{not_ready, outcome, Fut, now, after, item, map_fut}
use jsonrpc_client_rs.SelectWeak.{select_with_weak}
use jsonrpc_client_rs.SelectWeak.Full.{Among}
use jsonrpc_client_rs.Core.Types.{
  Value, num, v2, Output, success, MethodCall, method_call, Request, ErrorKind,
}
use jsonrpc_client_rs.Core.Serialize.{
  Serde, value_of_params, serialize_method_request, serialize_parameters, value_to_params,
  incoming_from_str, request, IncomingMessage,
}
use jsonrpc_client_rs.Core.Client.{TransportTx, rpc_call, ServerHandler}
use jsonrpc_client_rs.Core.Client.Drive.{polls as client_polls}
use jsonrpc_client_rs.Core.Handle.{call_method}
use jsonrpc_client_rs.Core.Handle.Calls.{reply_to}
use jsonrpc_client_rs.Core.System.Completed.{calling as new_call, call_completed}
use jsonrpc_client_rs.Core.Client.Send.{new_with_server}
use jsonrpc_client_rs.Core.Server.Handlers.{on_method}
use jsonrpc_client_rs.Core.Server.Drivable.{Channel, calling, poll_call}
use jsonrpc_client_rs.Core.Server.State.{drain_handler_chan}
use jsonrpc_client_rs.Core.System.{ServerClient, polls}
use jsonrpc_client_rs.Core.System.Peer.{peer_call_answered}
use jsonrpc_client_rs.Core.System.Start.{Transport, Ends, into_client, into_client_refuses}
use jsonrpc_client_rs.Core.System.Registered.{starting, registered_call_answered}
use jsonrpc_client_rs.Base.Assoc.{lookup}

abbrev ping : MethodCall
ping = record { version = some v2; method = "ping"; params = none; id = num 5 }

abbrev pong : Output
pong = success (some v2) (Value.text "pong") (num 5)

-- Every text that comes in is the call, and every response is written as one text.
abbrev json : Serde
json = record {
  params_to_value = λ p. some (value_of_params p);
  call_to_string = λ call. some call.method;
  notification_to_string = λ note. some note.method;
  response_to_string = λ r. some "pong";
  output_from_str = λ s. none;
  request_from_str = λ s. some (Request.single (method_call ping));
}

abbrev chan : Channel (Unit {0})
chan = record { send = λ sink r. now (ok tt); unordered = λ calls. now (ok []) }

abbrev tx : TransportTx
tx = record { starts = []; completes = []; closes = []; accepted = [] }

abbrev answer_late : MethodCall → Fut Output ErrorKind
answer_late call = after 2 (ok pong)

ping_parses : incoming_from_str json "ping" ≡ ok (request (Request.single (method_call ping)))
unfolding incoming_from_str
ping_parses = refl

registered_call_answered_example :
    Among "pong"
      (polls json chan 3
        (starting json chan (λ r. refl) "ping" answer_late 9 "ping" tt tx)).transport_tx.accepted
registered_call_answered_example =
    registered_call_answered json chan (λ r. refl) 2 9 "ping" ping tt tx answer_late pong "pong"
      refl refl ping_parses refl refl refl

-- A client whose server has a callback set and another call under way.
abbrev running : ServerClient (Unit {0})
running =
    new_with_server [] [] tx (item "ping" ∷ [])
      (record {
        handler_chan = none;
        handler_map = record { handlers = ("ping", on_method answer_late) ∷ [] };
        pending_futures = (1, calling (after 4 (ok none)) tt) ∷ [];
        id_generator = record { next_id = 2 };
        replies = [];
        delivered = [];
      })
      tt

peer_call_answered_example : Among "pong" (polls json chan 3 running).transport_tx.accepted
unfolding new_with_server select_with_weak drain_handler_chan lookup after poll_call map_fut
peer_call_answered_example =
    peer_call_answered json chan (λ r. refl) 2 running "ping" ping answer_late pong "pong"
      ((tt, tt, refl), refl, refl, refl, refl, refl) refl (omega arith, omega arith, tt)
      (omega arith) (omega arith) (tt, tt) ping_parses refl refl refl refl

abbrev transport : Transport
transport = record { sink = tx; stream = item "ping" ∷ [] }

abbrev ends : Ends (Unit {0})
ends = record {
  client_handle_rx = item (rpc_call "sum" none 3) ∷ [];
  server_response_rx = [];
  server_response_tx = tt;
}

into_client_refuses_example :
    Among "pong" (polls json chan 1 (into_client transport ends)).transport_tx.accepted
unfolding select_with_weak
into_client_refuses_example =
    into_client_refuses json chan (λ r. refl) transport ends "ping" "pong" ping refl refl refl
      (tt, tt, refl) ping_parses refl refl

-- A serde that writes a call as the name of its method and reads one text as the first response.
abbrev answering : Serde
answering = record json {
  output_from_str = λ s. some (success (some v2) (Value.text "pong") (num 1));
}

abbrev quiet_server : ServerHandler (Unit {0}) (Unit {0})
quiet_server = record { poll = λ s. (ok not_ready, s); process_request = λ req tx s. (ok tt, s) }

call_text : serialize_method_request answering (num 1) "sum" none ≡ ok "sum"
unfolding serialize_method_request serialize_parameters value_to_params
call_text = refl

reply_read :
    incoming_from_str answering "reply"
    ≡ ok (IncomingMessage.response (success (some v2) (Value.text "pong") (num 1)))
unfolding incoming_from_str
reply_read = refl

call_completed_example :
    let c = new_call answering quiet_server "sum" none 7 [] "reply" tt tt in
    let d = client_polls answering quiet_server 2 c in
    ((client_polls answering quiet_server 1 c).transport_tx.accepted ≡ "sum" ∷ [])
    × (outcome
          (call_method some (λ m. now (ok tt)) "sum" (some Value.null) 7 (reply_to 7 d.completed))
        ≡ some (ok (Value.text "pong")))
unfolding serialize_parameters value_to_params outcome
call_completed_example =
    call_completed answering quiet_server some (λ m. now (ok tt)) "sum" (some Value.null) none 7 []
      "reply" "sum" tt tt tt tt (success (some v2) (Value.text "pong") (num 1))
      (ok (Value.text "pong")) refl refl call_text refl refl reply_read refl refl
