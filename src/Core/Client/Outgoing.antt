-- ===== src/Core/Client/Outgoing.antt =====
-- What goes out: `handle_client_payload` and `poll_outgoing_messages` of core/src/lib.rs.
use jsonrpc_client_rs.Base.{ℕ, zero, suc, String, is_some, if◌then◌else◌}
use jsonrpc_client_rs.Base.Action.{Result, ok, err, ◌>>◌}
use jsonrpc_client_rs.Poll.{Answer, item, finished, waiting, failed, pull_fused}
use jsonrpc_client_rs.SelectWeak
use jsonrpc_client_rs.SelectWeak.Script.{backlog}
use jsonrpc_client_rs.Core.Types.{RequestId, ErrorKind, serialize_error, shutdown}
use jsonrpc_client_rs.Core.IdGenerator
use jsonrpc_client_rs.Core.Serialize.{
  Serde, or_err, serialize_method_request, serialize_notification_request,
}
use jsonrpc_client_rs.Core.Client.{
  Client, OutgoingMessage, rpc_call, notification, response, raised, panicked, Method,
}
use jsonrpc_client_rs.Core.Client.Send.{send_payload, send_rpc_response, acknowledge, add_new_call}

module _ {S T : Type 0} where
  -- The three `match`es of `handle_client_payload` on what serde made of the message.
  unfoldable pub issue_call : RequestId → ℕ → Result String ErrorKind → Method S T (Unit {0})
  issue_call id completion (ok payload) c = send_payload payload (add_new_call id completion c)
  issue_call id completion (err e) c = (ok tt, send_rpc_response completion (err e) c)

  unfoldable pub issue_notification : ℕ → Result String ErrorKind → Method S T (Unit {0})
  issue_notification completion (ok payload) c =
      send_payload payload (acknowledge completion (ok tt) c)
  issue_notification completion (err e) c = (ok tt, acknowledge completion (err e) c)

  unfoldable pub issue_response : Result String ErrorKind → Method S T (Unit {0})
  issue_response (ok payload) c = send_payload payload c
  issue_response (err e) c = (err (raised e), c)

  unfoldable pub poll_rx : Client S T → Answer OutgoingMessage × Client S T
  poll_rx c =
      let (a, rx) = SelectWeak.poll pull_fused pull_fused c.outgoing_payload_rx in
      (a, record c { outgoing_payload_rx = rx })

module _ {S T : Type 0} (serde : Serde) where
  unfoldable pub handle_client_payload : OutgoingMessage → Method S T (Unit {0})
  unfolding IdGenerator.next
  handle_client_payload (rpc_call method parameters completion) c =
      let (new_id, g) = IdGenerator.next c.id_generator in
      issue_call new_id completion (serialize_method_request serde new_id method parameters)
        (record c { id_generator = g })
  handle_client_payload (notification method parameters completion) c =
      issue_notification completion (serialize_notification_request serde method parameters) c
  handle_client_payload (response r) c =
      issue_response (or_err serialize_error (serde.response_to_string r)) c

  -- The `match` of `poll_outgoing_messages` on what the merged channels answer, and the rest of the
  -- loop.
  abbrev pub on_outgoing : Answer OutgoingMessage → Method S T (Unit {0}) → Method S T (Unit {0})
  on_outgoing waiting next c = (ok tt, c)
  on_outgoing (item call) next c = (handle_client_payload call >> next) c
  on_outgoing finished next c = (err (raised shutdown), c)
  on_outgoing failed next c = (err panicked, c)

  -- One round of the loop in front of the rounds that follow.
  unfoldable pub outgoing_round : Method S T (Unit {0}) → Method S T (Unit {0})
  outgoing_round next c =
      if is_some c.pending_payload then (ok tt, c) else on_outgoing (poll_rx c).0 next (poll_rx c).1

  -- `while self.pending_payload.is_none()`, on fuel.
  unfoldable pub outgoing_loop : ℕ → Method S T (Unit {0})
  outgoing_loop zero c = (ok tt, c)
  outgoing_loop (suc fuel) c = let next = outgoing_loop fuel in outgoing_round next c

  -- One round more than there are answers to come.
  unfoldable pub poll_outgoing_messages : Method S T (Unit {0})
  poll_outgoing_messages c = outgoing_loop (suc (backlog c.outgoing_payload_rx)) c
