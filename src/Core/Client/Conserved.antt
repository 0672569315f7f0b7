-- ===== src/Core/Client/Conserved.antt =====
-- How often the completion channels of calls occur over polls of the client in core/src/lib.rs.
use jsonrpc_client_rs.Base.{
  ℕ, zero, suc, String, ◌+◌, ◌<◌, ◌≡◌, refl, ◌∙◌, inl, inr, List, is_some, arith, Bool-cases,
  length,
}
use jsonrpc_client_rs.Base.Action.{Does, >>-holds}
use jsonrpc_client_rs.Base.Assoc.Unique.{IsUnique, insert-IsUnique}
use jsonrpc_client_rs.Poll.{Answer, item, finished, waiting, failed}
use jsonrpc_client_rs.SelectWeak.{select_with_weak}
use jsonrpc_client_rs.Core.Types.{id_key}
use jsonrpc_client_rs.Core.IdGenerator.{next, u64_mod}
use jsonrpc_client_rs.Core.Serialize.{Serde, incoming_from_str}
use jsonrpc_client_rs.Core.Client.{
  Client, OutgoingMessage, rpc_call, ServerHandler, Method, TransportTx,
}
use jsonrpc_client_rs.Core.Client.Send.{send_payload, add_new_call, new_with_server}
use jsonrpc_client_rs.Core.Client.Incoming.{handle_transport_rx_payload, poll_transport_rx}
use jsonrpc_client_rs.Core.Client.Outgoing.{
  issue_call, issue_notification, issue_response, handle_client_payload, poll_rx, on_outgoing,
  outgoing_round, outgoing_loop, poll_outgoing_messages,
}
use jsonrpc_client_rs.Core.Client.Drive.{poll, polls}
use jsonrpc_client_rs.Core.Client.Rules.{
  poll_transport_rx-Does, handle_messages-Does, handle_shutdown-Does, poll-Does,
}
use jsonrpc_client_rs.Core.Client.Loop.{waiting_messages, poll_rx-falls}
use jsonrpc_client_rs.Core.Client.Fresh.{
  Inv, lookup-Issued, handle_client_payload-Inv, poll_rx-Inv, poll_rx-ids, new_with_server-Inv,
}
use jsonrpc_client_rs.Core.Client.Tally.{
  tally, in_queue, queued, held, answered, carries, poll-in_queue,
}
use jsonrpc_client_rs.Core.Client.Whole.{
  held-insert_new, Whole, Conserves, Conserves-trans, send_leftover-Conserves,
  poll_transport_tx-Conserves, close_transport-Conserves, poll_server-Conserves,
  on_message-Conserves,
}

module _ {S T : Type 0} where
  module _ (serde : Serde) where
    handle_client_payload-Conserves :
        (m : OutgoingMessage) (c : Client S T) (k : ℕ)
        → Whole c
        → IsUnique (handle_client_payload serde m c).1.pending_client_requests
          × (tally k (handle_client_payload serde m c).1 ≡ carries k (item m) + tally k c)
    unfolding handle_client_payload issue_call issue_notification issue_response send_payload
        add_new_call next
    handle_client_payload-Conserves (rpc_call m p v) c k (i, u) =
        let n = (next c.id_generator).0 in
        let absent = lookup-Issued c.id_generator.next_id c.pending_client_requests i.issued in
        ground (
          arith,
          insert-IsUnique n v c.pending_client_requests u,
          held-insert_new k n v c.pending_client_requests absent,
        )
    handle_client_payload-Conserves m c k (i, u) = ground arith

    -- What a client is after it dealt with an answer of the channels.
    abbrev Dealt : Answer OutgoingMessage → Client S T → Client S T → Type 0
    Dealt a c d = Whole d × ((k : ℕ) → tally k d ≡ carries k a + tally k c)

    on_outgoing-Dealt :
        (n : Method S T (Unit {0}))
        → Does Conserves n
        → (a : Answer OutgoingMessage) (c : Client S T) → Whole c
        → ((m : OutgoingMessage)
            → a ≡ item m
            → c.id_generator.next_id + waiting_messages c + 1 < u64_mod)
        → Dealt a c (on_outgoing serde a n c).1
    on_outgoing-Dealt n h (item m) c w room =
        >>-holds (Dealt (item m) c) (handle_client_payload serde m) n c
          (
            (
              handle_client_payload-Inv serde m c w.0.issued (room m refl),
              (handle_client_payload-Conserves m c 0 w).0,
            ),
            λ k. (handle_client_payload-Conserves m c k w).1,
          )
          (λ d (u, e). let (v, f) = h d u in (v, λ k. f k ∙ e k))
    on_outgoing-Dealt n h finished c w room = (w, λ k. omega arith)
    on_outgoing-Dealt n h waiting c w room = (w, λ k. omega arith)
    on_outgoing-Dealt n h failed c w room = (w, λ k. omega arith)

    poll_rx-Whole : (c : Client S T) → Whole c → Whole (poll_rx c).1
    poll_rx-Whole c (v, u) = (poll_rx-Inv c v, unfold poll_rx in u)

    poll_rx-tally :
        (c : Client S T) (k : ℕ) → carries k (poll_rx c).0 + tally k (poll_rx c).1 ≡ tally k c
    unfolding poll_rx
    poll_rx-tally c k = omega (arith, poll-in_queue k c.outgoing_payload_rx)

    poll_rx-room :
        (c : Client S T) (m : OutgoingMessage)
        → Inv c
        → (poll_rx c).0 ≡ item m
        → (poll_rx c).1.id_generator.next_id + waiting_messages (poll_rx c).1 + 1 < u64_mod
    poll_rx-room c m v e =
        let (same, _) = poll_rx-ids c in rw same (omega (arith, v.room, poll_rx-falls c m e))

    outgoing_loop-Conserves : (f : ℕ) → Does (Conserves {S = S} {T = T}) (outgoing_loop serde f)
    unfolding outgoing_loop outgoing_round
    outgoing_loop-Conserves zero c w = (w, λ k. refl)
    outgoing_loop-Conserves (suc f) c w = elim (Bool-cases (is_some c.pending_payload)) [
      | inl e ↦ rw e (w, λ k. refl)
      | inr e ↦
          let (v, t) =
            on_outgoing-Dealt (outgoing_loop serde f) (outgoing_loop-Conserves f) (poll_rx c).0
              (poll_rx c).1 (poll_rx-Whole c w) (λ m h. poll_rx-room c m w.0 h) in
          rw e (v, λ k. t k ∙ poll_rx-tally c k)
    ]

    poll_outgoing_messages-Conserves :
        Does (Conserves {S = S} {T = T}) (poll_outgoing_messages serde)
    unfolding poll_outgoing_messages
    poll_outgoing_messages-Conserves c = outgoing_loop-Conserves _ c

  module _ (serde : Serde) (server : ServerHandler S T) where
    poll_transport_rx-Conserves : Does Conserves (poll_transport_rx serde server)
    unfolding handle_transport_rx_payload
    poll_transport_rx-Conserves =
        poll_transport_rx-Does Conserves Conserves-trans serde server
          (λ rest c (v, u). ((record { issued = v.issued; room = v.room }, u), λ k. refl))
          (λ payload. on_message-Conserves server (incoming_from_str serde payload))

    poll-Conserves : Does Conserves (poll serde server)
    poll-Conserves =
        poll-Does Conserves Conserves-trans serde server (λ c w. (w, λ k. refl))
          (λ b c (v, u). ((record { issued = v.issued; room = v.room }, u), λ k. refl))
          (λ e c (v, u). ((record { issued = v.issued; room = v.room }, u), λ k. refl))
          (handle_shutdown-Does Conserves Conserves-trans serde server poll_transport_rx-Conserves
            close_transport-Conserves)
          (handle_messages-Does Conserves Conserves-trans serde server send_leftover-Conserves
            (poll_server-Conserves server) poll_transport_rx-Conserves
            (poll_outgoing_messages-Conserves serde) poll_transport_tx-Conserves)

    polls-Conserves : (n : ℕ) (c : Client S T) → Conserves c (polls serde server n c)
    unfolding polls
    polls-Conserves zero c w = (w, λ k. refl)
    polls-Conserves (suc n) c w =
        let (v, e) = polls-Conserves n c w in
        let (u, f) = poll-Conserves (polls serde server n c) v in (u, λ k. f k ∙ e k)

    -- In a new client whose two channels hold fewer than 2 ^ 64 - 1 answers in all, a completion
    -- channel stands, after any number of polls and whatever the transport, the server handler
    -- and serde do, among the queued calls, the calls that wait for a response and the answers
    -- already sent together exactly as often as in the channels at first: no call is lost, and
    -- none is answered twice.
    pub calls_conserved :
        (strong weak : List (Answer OutgoingMessage)) (tx : TransportTx) (rx : List (Answer String))
        (s : S) (t : T) (k n : ℕ)
        → length strong + length weak + 1 < u64_mod
        → let d = polls serde server n (new_with_server strong weak tx rx s t) in
          in_queue k d.outgoing_payload_rx
            + held k d.pending_client_requests
            + answered k d.completed
          ≡ queued k strong + queued k weak
    calls_conserved strong weak tx rx s t k n room =
        let c = new_with_server strong weak tx rx s t in
        let w : Whole c =
          (new_with_server-Inv strong weak tx rx s t room, unfold new_with_server in tt) in
        (polls-Conserves n c w).1 k
        ∙ unfold new_with_server in unfold select_with_weak in omega arith
