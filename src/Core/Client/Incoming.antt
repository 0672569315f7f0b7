-- ===== src/Core/Client/Incoming.antt =====
-- What comes in from the transport and from the server handler: `handle_response`,
-- `handle_transport_rx_payload`, `poll_transport_rx` and `poll_server` of core/src/lib.rs.
use jsonrpc_client_rs.Base.{
  String, Bool, true, false, Option, none, some, List, [], ◌∷◌, if◌then◌else◌,
}
use jsonrpc_client_rs.Base.Action.{Result, ok, err, ◌>>◌}
use jsonrpc_client_rs.Base.Assoc.{lookup, erase}
use jsonrpc_client_rs.Poll.{Async, ready, not_ready, Answer, item, finished, waiting, failed}
use jsonrpc_client_rs.Core.Types.{
  Value, RequestId, id_key, Version, v2, Output, success, failure, Request, ErrorKind,
  transport_error, invalid_version, shutdown, json_rpc_error,
}
use jsonrpc_client_rs.Core.Serialize.{Serde, IncomingMessage, response, request, incoming_from_str}
use jsonrpc_client_rs.Core.Client.{Client, ServerHandler, Stop, raised, Method}
use jsonrpc_client_rs.Core.Client.Send.{send_rpc_response}

-- `output.version()`.
abbrev pub version : Output → Option Version
version (success v result id) = v
version (failure v error id) = v

abbrev pub is_v2 : Option Version → Bool
is_v2 none = false
is_v2 (some v2) = true

-- The pair of the id and the result that the `match` on an output makes.
abbrev pub outcome : Output → RequestId × Result Value ErrorKind
outcome (success v result id) = (id, ok result)
outcome (failure v error id) = (id, err (json_rpc_error error))

-- What a call into the server handler returned, as the result of a method.
abbrev lift : {A : Type 0} → Result A ErrorKind → Result A Stop
lift (ok a) = ok a
lift (err e) = err (raised e)

module _ {S T : Type 0} where
  -- `pending_client_requests.remove(&id)`, and the answer to the call that is found.
  unfoldable pub complete_call : RequestId × Result Value ErrorKind → Client S T → Client S T
  complete_call (id, result) c = elim (lookup id c.pending_client_requests) [
    | some chan ↦
        send_rpc_response chan result
          (record c { pending_client_requests = erase id c.pending_client_requests })
    | none ↦ c
  ]

  unfoldable pub handle_response : Output → Method S T (Unit {0})
  handle_response output c =
      if is_v2 (version output)
      then (ok tt, complete_call (outcome output) c)
      else (err (raised invalid_version), c)

  abbrev pub read_on : List (Answer String) → Client S T → Client S T
  read_on rest c = record c { transport_rx = rest }

  module _ (server : ServerHandler S T) where
    unfoldable pub process_request : Request → Method S T (Unit {0})
    process_request req c =
        let (r, s) = server.process_request req c.server_response_tx c.server_handler in
        (lift r, record c { server_handler = s })

    abbrev server_polled : Result (Async (Unit {0})) ErrorKind → Method S T (Unit {0})
    server_polled (ok not_ready) c = (ok tt, record c { shutting_down = false })
    server_polled (ok (ready _)) c = (ok tt, record c { shutting_down = true })
    server_polled (err e) c = (err (raised e), c)

    unfoldable pub poll_server : Method S T (Unit {0})
    poll_server c =
        let (r, s) = server.poll c.server_handler in
        if c.shutting_down then (ok tt, c) else server_polled r (record c { server_handler = s })

    abbrev pub on_message : Result IncomingMessage ErrorKind → Method S T (Unit {0})
    on_message (ok (request req)) c = process_request req c
    on_message (ok (response output)) c = handle_response output c
    on_message (err e) c = (err (raised e), c)

  module _ (serde : Serde) (server : ServerHandler S T) where
    unfoldable pub handle_transport_rx_payload : String → Method S T (Unit {0})
    handle_transport_rx_payload payload = on_message server (incoming_from_str serde payload)

    -- The loop of `poll_transport_rx` on the answers that the stream will give.
    unfoldable pub drain_rx : List (Answer String) → Method S T (Unit {0})
    drain_rx [] c = (ok tt, read_on [] c)
    drain_rx (item payload ∷ rest) c =
        let next = drain_rx rest in (handle_transport_rx_payload payload >> next) (read_on rest c)
    drain_rx (finished ∷ rest) c = (err (raised shutdown), read_on rest c)
    drain_rx (waiting ∷ rest) c = (ok tt, read_on rest c)
    drain_rx (failed ∷ rest) c = (err (raised transport_error), read_on rest c)

    unfoldable pub poll_transport_rx : Method S T (Unit {0})
    poll_transport_rx c = drain_rx c.transport_rx c
