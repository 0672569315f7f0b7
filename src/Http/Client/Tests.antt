-- ===== src/Http/Client/Tests.antt =====
-- Runs of a client over HTTP.
use jsonrpc_client_rs.Base.{ℕ, String, ◌≡◌, refl, Option, none, some, List, [], ◌∷◌, true, nat_key}
use jsonrpc_client_rs.Base.Action.{ok, err}
use jsonrpc_client_rs.Poll.{not_ready, Answer, item, Fut, now, later, then_fut, after, outcome}
use jsonrpc_client_rs.Core.Types.{Value, num, v2, success, transport_error, shutdown}
use jsonrpc_client_rs.Core.Serialize.{
  Serde, value_of_params, serialize_method_request, serialize_parameters, value_to_params,
}
use jsonrpc_client_rs.Core.Client.{OutgoingMessage, rpc_call, ServerHandler, raised}
use jsonrpc_client_rs.Core.Client.Send.{new_with_server}
use jsonrpc_client_rs.Core.Client.Drive.{poll, polls}
use jsonrpc_client_rs.Core.Handle.{call_method}
use jsonrpc_client_rs.Core.Handle.Settled.{settled}
use jsonrpc_client_rs.Http.{http_error}
use jsonrpc_client_rs.Http.TimeLimited.{new, run}
use jsonrpc_client_rs.Http.Processing.{Hyper, respond, process}
use jsonrpc_client_rs.Http.Handle.{Bytes, Headers, Request, HttpHandle, create_request}
use jsonrpc_client_rs.Http.Exchange.{response_to}
use jsonrpc_client_rs.Http.Text.{sink_fut}
use jsonrpc_client_rs.Http.Client.{completes, http_call_cut}

-- Calls are written as the names of their methods, and every text is the response to the first.
abbrev json : Serde
json = record {
  params_to_value = λ p. some (value_of_params p);
  call_to_string = λ call. some call.method;
  notification_to_string = λ note. some note.method;
  response_to_string = λ r. none;
  output_from_str = λ s. some (success (some v2) (Value.text "pong") (num 1));
  request_from_str = λ s. none;
}

abbrev quiet_server : ServerHandler (Unit {0}) (Unit {0})
quiet_server = record { poll = λ s. (ok not_ready, s); process_request = λ req tx s. (ok tt, s) }

-- No headers, and a server that sends the body back under a status.
abbrev headers : Headers (Unit {0})
headers = record {
  empty = tt;
  set = λ name value h. h;
  extend = λ g h. h;
  get = λ name h. none;
  json = "application/json";
  content_length = λ n. "length";
}

abbrev replying : ℕ → Hyper (Request (Unit {0})) Bytes Bytes
replying code = record {
  request = λ r. now (ok r.body);
  status = λ p. code;
  body = λ p. now (ok p);
  timer = λ n. after n (ok tt);
  tie = true;
}

abbrev handle : HttpHandle (Unit {0})
handle = record { uri = "http://localhost"; headers = tt }

abbrev send : OutgoingMessage → Fut (Unit {0}) (Unit {0})
send m = now (ok tt)

abbrev to_bytes : String → Bytes
to_bytes s = 1 ∷ []

abbrev reply_text : Bytes → Option String
reply_text b = some "reply"

sum_text : serialize_method_request json (num 1) "sum" none ≡ ok "sum"
unfolding serialize_method_request serialize_parameters value_to_params
sum_text = refl

refused :
    outcome (respond (replying 500) none (create_request headers handle (to_bytes "sum")))
    ≡ some (err (http_error 500))
unfolding respond run new then_fut outcome create_request
refused = refl

http_call_cut_example :
    let answers =
      process (replying 500) none ((create_request headers handle (to_bytes "sum"), 9) ∷ []) in
    let fate = outcome (
      sink_fut headers
        (λ r. ok tt)
        handle
        to_bytes
        (λ b. now (ok tt))
        "sum"
        (response_to 9 answers)) in
    let c =
      new_with_server
        (item (rpc_call "sum" none 7) ∷ [])
        []
        (record { starts = []; completes = completes 3 fate; closes = []; accepted = [] })
        []
        tt
        tt in
    let (r, d) = poll json quiet_server (polls json quiet_server 3 c) in
    (r ≡ err (raised transport_error))
    × (outcome (call_method some send "sum" (some Value.null) 7 (settled 7 d.completed))
        ≡ some (err shutdown))
unfolding serialize_parameters value_to_params outcome
http_call_cut_example =
    http_call_cut headers (replying 500) json quiet_server some send (λ r. ok tt) handle to_bytes
      none (λ b. now (ok tt)) [] "sum" (some Value.null) none 7 9 3 "sum" tt tt (http_error 500)
      (λ s. refl) refl refl sum_text refl refused

-- The channel of the stream, which takes bytes after a wait and hands them to its reader.
abbrev push : Bytes → Fut (List (Answer Bytes)) (Unit {0})
push b = later (now (ok (item b ∷ [])))
