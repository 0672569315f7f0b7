-- ===== src/Core/Client/Send.antt =====
-- `new_with_server`, `send_payload`, `send_rpc_response`, `add_new_call` and `poll_transport_tx` of
-- core/src/lib.rs.
use jsonrpc_client_rs.Base.{ℕ, String, false, none, some, List, [], ◌∷◌, is_some, if◌then◌else◌}
use jsonrpc_client_rs.Base.Action.{Result, ok, err}
use jsonrpc_client_rs.Base.Assoc.{insert}
use jsonrpc_client_rs.Poll.{Answer}
use jsonrpc_client_rs.SelectWeak.{select_with_weak}
use jsonrpc_client_rs.Core.Types.{Value, RequestId, id_key, ErrorKind, transport_error}
use jsonrpc_client_rs.Core.IdGenerator
use jsonrpc_client_rs.Core.Client.{
  Client, OutgoingMessage, SinkAnswer, taken, busy, broken, TransportTx, start_send, poll_complete,
  Stop, raised, Method,
}

-- `Client::new_with_server`: the two channels, the transport's two halves, and the handler.
unfoldable pub new_with_server :
    {S T : Type 0}
    → List (Answer OutgoingMessage)
    → List (Answer OutgoingMessage)
    → TransportTx
    → List (Answer String)
    → S
    → T
    → Client S T
unfolding select_with_weak IdGenerator.new
new_with_server client_handle_rx server_response_rx tx rx server_handler server_response_tx =
    record {
      outgoing_payload_rx = select_with_weak client_handle_rx server_response_rx;
      id_generator = IdGenerator.new;
      shutting_down = false;
      pending_client_requests = [];
      pending_payload = none;
      fatal_error = none;
      server_handler = server_handler;
      server_response_tx = server_response_tx;
      transport_tx = tx;
      transport_rx = rx;
      completed = [];
      acknowledged = [];
    }

-- `chain_err(..)?` on the answer to `poll_complete`.
abbrev pub completion_result : SinkAnswer → Result (Unit {0}) Stop
completion_result broken = err (raised transport_error)
completion_result _ = ok tt

module _ {S T : Type 0} where
  -- The `match` of `send_payload` on the sink's answer.
  abbrev pub sent : SinkAnswer → String → Method S T (Unit {0})
  sent taken payload c = (ok tt, c)
  sent busy payload c = (ok tt, record c { pending_payload = some payload })
  sent broken payload c = (err (raised transport_error), c)

  unfoldable pub send_payload : String → Method S T (Unit {0})
  send_payload payload c =
      let (answer, tx) = start_send payload c.transport_tx in
      if is_some c.fatal_error
      then (err (raised transport_error), c)
      else sent answer payload (record c { transport_tx = tx })

  abbrev pub send_rpc_response : ℕ → Result Value ErrorKind → Client S T → Client S T
  send_rpc_response chan value c = record c { completed = (chan, value) ∷ c.completed }

  abbrev pub acknowledge : ℕ → Result (Unit {0}) ErrorKind → Client S T → Client S T
  acknowledge chan value c = record c { acknowledged = (chan, value) ∷ c.acknowledged }

  unfoldable pub add_new_call : RequestId → ℕ → Client S T → Client S T
  add_new_call id completion c = record c {
    pending_client_requests = insert id completion c.pending_client_requests;
  }

  unfoldable pub poll_transport_tx : Method S T (Unit {0})
  poll_transport_tx c =
      let (answer, tx) = poll_complete c.transport_tx in
      if is_some c.fatal_error
      then (ok tt, c)
      else (completion_result answer, record c { transport_tx = tx })
