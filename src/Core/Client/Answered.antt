-- ===== src/Core/Client/Answered.antt =====
-- The completion channels of calls over the methods of the client in core/src/lib.rs.
use jsonrpc_client_rs.Base.{ℕ, zero, suc, String, ◌+◌, ◌≤◌, inl, inr, Option-cases, arith}
use jsonrpc_client_rs.Base.Action.{Result, ok, err, Does}
use jsonrpc_client_rs.Base.Assoc.{lookup}
use jsonrpc_client_rs.Poll.{Answer, item, finished, waiting, failed}
use jsonrpc_client_rs.Core.Types.{Value, RequestId, id_key, ErrorKind, Output, Request}
use jsonrpc_client_rs.Core.IdGenerator.{next}
use jsonrpc_client_rs.Core.Serialize.{Serde, IncomingMessage, request, response, incoming_from_str}
use jsonrpc_client_rs.Core.Client.{Client, OutgoingMessage, rpc_call, ServerHandler, Method}
use jsonrpc_client_rs.Core.Client.Send.{send_payload, poll_transport_tx, add_new_call}
use jsonrpc_client_rs.Core.Client.Incoming.{
  complete_call, handle_response, process_request, on_message, handle_transport_rx_payload,
  poll_transport_rx, poll_server, outcome,
}
use jsonrpc_client_rs.Core.Client.Outgoing.{
  issue_call, issue_notification, issue_response, handle_client_payload, poll_rx, on_outgoing,
  outgoing_round, outgoing_loop, poll_outgoing_messages,
}
use jsonrpc_client_rs.Core.Client.Drive.{send_leftover, finish, close_transport, poll, polls}
use jsonrpc_client_rs.Core.Client.Rules.{
  poll_transport_rx-Does, handle_messages-Does, handle_shutdown-Does, poll-Does,
}
use jsonrpc_client_rs.Core.Client.Tally.{
  tally, Falls, in_queue, held, answered, carries, held-insert, held-erase, poll-in_queue,
}

module _ {S T : Type 0} where
  Falls-trans : (a b c : Client S T) → Falls a b → Falls b c → Falls a c
  Falls-trans a b c h j k = omega (arith, h k, j k)

  send_payload-Falls : (payload : String) → Does (Falls {S = S} {T = T}) (send_payload payload)
  unfolding send_payload
  send_payload-Falls payload c k = ground arith

  poll_transport_tx-Falls : Does (Falls {S = S} {T = T}) poll_transport_tx
  unfolding poll_transport_tx
  poll_transport_tx-Falls c k = ground arith

  complete_call-Falls :
      (o : RequestId × Result Value ErrorKind) (c : Client S T) → Falls c (complete_call o c)
  unfolding complete_call
  complete_call-Falls (id, r) c k = elim (Option-cases (lookup id c.pending_client_requests)) [
    | inl e ↦ ground arith
    | inr (v, e) ↦ ground (arith, held-erase k id v c.pending_client_requests)
  ]

  handle_response-Falls : (o : Output) → Does (Falls {S = S} {T = T}) (handle_response o)
  unfolding handle_response
  handle_response-Falls o c k = ground (arith, complete_call-Falls (outcome o) c k)

  module _ (server : ServerHandler S T) where
    process_request-Falls : (req : Request) → Does Falls (process_request server req)
    unfolding process_request
    process_request-Falls req c k = ground arith

    poll_server-Falls : Does Falls (poll_server server)
    unfolding poll_server
    poll_server-Falls c k = ground arith

    on_message-Falls : (m : Result IncomingMessage ErrorKind) → Does Falls (on_message server m)
    on_message-Falls (ok (request req)) c = process_request-Falls req c
    on_message-Falls (ok (response o)) c = handle_response-Falls o c
    on_message-Falls (err e) c = λ k. omega arith

  module _ (serde : Serde) (server : ServerHandler S T) where
    poll_transport_rx-Falls : Does Falls (poll_transport_rx serde server)
    unfolding handle_transport_rx_payload
    poll_transport_rx-Falls =
        poll_transport_rx-Does Falls Falls-trans serde server (λ rest c k. omega arith)
          (λ payload. on_message-Falls server (incoming_from_str serde payload))

  -- A message that is taken from the channels moves its completion channel on.
  module _ (serde : Serde) where
    handle_client_payload-tally :
        (m : OutgoingMessage) (c : Client S T) (k : ℕ)
        → tally k (handle_client_payload serde m c).1 ≤ carries k (item m) + tally k c
    unfolding handle_client_payload issue_call issue_notification issue_response send_payload
        add_new_call next
    handle_client_payload-tally (rpc_call m p v) c k =
        ground (arith, held-insert k (next c.id_generator).0 v c.pending_client_requests)
    handle_client_payload-tally m c k = ground arith

    on_outgoing-tally :
        (n : Method S T (Unit {0}))
        → Does Falls n
        → (a : Answer OutgoingMessage) (c : Client S T) (k : ℕ)
        → tally k (on_outgoing serde a n c).1 ≤ carries k a + tally k c
    on_outgoing-tally n h (item m) c k =
        ground (arith, handle_client_payload-tally m c k, h (handle_client_payload serde m c).1 k)
    on_outgoing-tally n h finished c k = omega arith
    on_outgoing-tally n h waiting c k = omega arith
    on_outgoing-tally n h failed c k = omega arith

    outgoing_loop-Falls : (f : ℕ) → Does (Falls {S = S} {T = T}) (outgoing_loop serde f)
    unfolding outgoing_loop outgoing_round poll_rx
    outgoing_loop-Falls zero c k = omega arith
    outgoing_loop-Falls (suc f) c k = ground (
      arith,
      poll-in_queue k c.outgoing_payload_rx,
      on_outgoing-tally (outgoing_loop serde f) (outgoing_loop-Falls f) (poll_rx c).0 (poll_rx c).1
          k,
    )

    poll_outgoing_messages-Falls : Does (Falls {S = S} {T = T}) (poll_outgoing_messages serde)
    unfolding poll_outgoing_messages
    poll_outgoing_messages-Falls c = outgoing_loop-Falls _ c

  send_leftover-Falls : Does (Falls {S = S} {T = T}) send_leftover
  unfolding send_leftover send_payload
  send_leftover-Falls c k = ground arith

  close_transport-Falls : Does (Falls {S = S} {T = T}) close_transport
  unfolding close_transport finish
  close_transport-Falls c k = ground arith

  module _ (serde : Serde) (server : ServerHandler S T) where
    -- No poll of the client makes the tally of a channel grow.
    pub poll-Falls : Does Falls (poll serde server)
    poll-Falls =
        poll-Does Falls Falls-trans serde server (λ c k. omega arith) (λ b c k. omega arith)
          (λ e c k. omega arith)
          (handle_shutdown-Does Falls Falls-trans serde server
            (poll_transport_rx-Falls serde server) close_transport-Falls)
          (handle_messages-Does Falls Falls-trans serde server send_leftover-Falls
            (poll_server-Falls server) (poll_transport_rx-Falls serde server)
            (poll_outgoing_messages-Falls serde) poll_transport_tx-Falls)

    polls-tally : (n : ℕ) (c : Client S T) (k : ℕ) → tally k (polls serde server n c) ≤ tally k c
    unfolding polls
    polls-tally zero c k = omega arith
    polls-tally (suc n) c k =
        omega (arith, poll-Falls (polls serde server n c) k, polls-tally n c k)

    -- If a completion channel occurs at most once among the queued calls, the calls that wait for
    -- a response and the answers already sent, then it still does after any number of polls of
    -- the client, whatever the transport, the server handler and serde do. So a call is answered
    -- at most once, and not while it is queued or waits.
    pub answered_once :
        (c : Client S T) (k n : ℕ)
        → in_queue k c.outgoing_payload_rx
            + held k c.pending_client_requests
            + answered k c.completed
          ≤ 1
        → let d = polls serde server n c in
          in_queue k d.outgoing_payload_rx
            + held k d.pending_client_requests
            + answered k d.completed
          ≤ 1
    answered_once c k n h = omega (arith, polls-tally n c k)
