-- ===== src/Core/Client/Order.antt =====
-- `handle_messages` of core/src/lib.rs and the order of the outgoing messages.
use jsonrpc_client_rs.Base.{
  ℕ, zero, suc, ◌≡◌, refl, sym, ap, subst, subst₂, ◌∙◌, none, List, [], ◌∷◌, ◌++◌, append-nil,
  append_assoc, is_some, Option-cases, Bool-cases, inl, inr, arith,
}
use jsonrpc_client_rs.Base.Action.{Result, ok, err, ◌>>◌, Does, >>-ok}
use jsonrpc_client_rs.Poll.{Answer, item, finished, waiting, failed}
use jsonrpc_client_rs.SelectWeak.Serves.{Serves, stop, idle, serve}
use jsonrpc_client_rs.Core.Types.{ErrorKind}
use jsonrpc_client_rs.Core.Serialize.{Serde, incoming_from_str, IncomingMessage, request, response}
use jsonrpc_client_rs.Core.Client.{Client, OutgoingMessage, ServerHandler, Method}
use jsonrpc_client_rs.Core.Client.Send.{send_payload, poll_transport_tx}
use jsonrpc_client_rs.Core.Client.Incoming.{
  complete_call, handle_response, process_request, on_message, handle_transport_rx_payload,
  poll_transport_rx, poll_server,
}
use jsonrpc_client_rs.Core.Client.Outgoing.{
  handle_client_payload, poll_rx, on_outgoing, outgoing_round, outgoing_loop,
  poll_outgoing_messages,
}
use jsonrpc_client_rs.Core.Client.Drive.{send_leftover, handle_messages}
use jsonrpc_client_rs.Core.Client.Rules.{poll_transport_rx-Does}
use jsonrpc_client_rs.Core.Client.Wire.{
  wire, Wrote, Handled, gen_after_all, handle_client_payload_writes,
}

module _ {S T : Type 0} where
  Wrote-none :
      (serde : Serde) (c d : Client S T)
      → Serves c.outgoing_payload_rx [] d.outgoing_payload_rx
      → wire d ≡ wire c
      → d.id_generator ≡ c.id_generator
      → Wrote serde c d []
  Wrote-none serde c d s w g = record {
    served = s;
    written = w ∙ sym (append-nil (wire c));
    ids = g;
  }

  Wrote-cons :
      (serde : Serde) (m : OutgoingMessage) (ms : List OutgoingMessage) (c d e : Client S T)
      → (poll_rx c).0 ≡ item m
      → Handled serde m (poll_rx c).1 d
      → Wrote serde d e ms
      → Wrote serde c e (m ∷ ms)
  unfolding poll_rx
  Wrote-cons serde m ms c d e h (w, g, rx, _) after = record {
    served = serve h (subst (λ x. Serves x ms e.outgoing_payload_rx) rx after.served);
    written = simp (after.written, w, g) (append_assoc (wire c) _ _);
    ids = after.ids ∙ ap (λ x. gen_after_all serde x ms) g;
  }

  -- The messages that a run of the loop wrote.
  abbrev Writes : Serde → Client S T → Client S T → Type 0
  Writes serde c d =
      (ms : List OutgoingMessage) × Wrote serde c d ms × (d.fatal_error ≡ c.fatal_error)

  on_outgoing-Writes :
      (serde : Serde) (n : Method S T (Unit {0}))
      → ((d : Client S T) → (n d).0 ≡ ok tt → Writes serde d (n d).1)
      → (a : Answer OutgoingMessage) (c : Client S T) → c.pending_payload ≡ none
      → (poll_rx c).0 ≡ a
      → (on_outgoing serde a n (poll_rx c).1).0 ≡ ok tt
      → Writes serde c (on_outgoing serde a n (poll_rx c).1).1
  unfolding poll_rx
  on_outgoing-Writes serde n ih (item m) c p e h =
      let d = (handle_client_payload serde m (poll_rx c).1).1 in
      let (first, second, both) = >>-ok (handle_client_payload serde m) n (poll_rx c).1 tt h in
      let handled = handle_client_payload_writes serde m (poll_rx c).1 p first in
      let (ms, wrote, same) = ih d second in
      (
        m ∷ ms,
        rw both (Wrote-cons serde m ms c d (n d).1 e handled wrote),
        rw both (same ∙ handled.3),
      )
  on_outgoing-Writes serde n ih finished c p e h = cc
  on_outgoing-Writes serde n ih waiting c p e h =
      ([], Wrote-none serde c (poll_rx c).1 (idle e refl) refl refl, refl)
  on_outgoing-Writes serde n ih failed c p e h = cc

  outgoing_round-Writes :
      (serde : Serde) (n : Method S T (Unit {0}))
      → ((d : Client S T) → (n d).0 ≡ ok tt → Writes serde d (n d).1)
      → (c : Client S T) → (outgoing_round serde n c).0 ≡ ok tt
      → Writes serde c (outgoing_round serde n c).1
  unfolding outgoing_round
  outgoing_round-Writes serde n ih c h = elim (Bool-cases (is_some c.pending_payload)) [
    | inl e ↦ rw e ([], Wrote-none serde c c stop refl refl, refl)
    | inr e ↦ rw e (on_outgoing-Writes serde n ih (poll_rx c).0 c (ground arith) refl (rw e at h))
  ]

  pub outgoing_loop-Writes :
      (serde : Serde) (f : ℕ) (c : Client S T)
      → (outgoing_loop serde f c).0 ≡ ok tt
      → Writes serde c (outgoing_loop serde f c).1
  unfolding outgoing_loop
  outgoing_loop-Writes serde zero c h = ([], Wrote-none serde c c stop refl refl, refl)
  outgoing_loop-Writes serde (suc f) c h =
      outgoing_round-Writes serde (outgoing_loop serde f) (outgoing_loop-Writes serde f) c h

  -- What a method leaves alone that writes nothing and takes no message.
  abbrev Quiet : Client S T → Client S T → Type 0
  Quiet c d =
      (wire d ≡ wire c)
      × (d.outgoing_payload_rx ≡ c.outgoing_payload_rx)
      × (d.id_generator ≡ c.id_generator)
      × (d.fatal_error ≡ c.fatal_error)

  Quiet-trans : (a b c : Client S T) → Quiet a b → Quiet b c → Quiet a c
  Quiet-trans a b c (w, r, g, f) (x, s, h, k) = (x ∙ w, s ∙ r, h ∙ g, k ∙ f)

  send_leftover-Quiet : (c : Client S T) → (send_leftover c).0 ≡ ok tt → Quiet c (send_leftover c).1
  unfolding send_leftover send_payload
  send_leftover-Quiet c h = elim (Option-cases c.pending_payload) [
    | inl e ↦ ground arith
    | inr (p, e) ↦
        ground (
          arith,
          append-nil c.transport_tx.accepted,
          append-nil (c.transport_tx.accepted ++ p ∷ []),
        )
  ]

  poll_server-Quiet : (server : ServerHandler S T) → Does Quiet (poll_server server)
  unfolding poll_server
  poll_server-Quiet server c = ground arith

  on_message-Quiet :
      (server : ServerHandler S T) (m : Result IncomingMessage ErrorKind)
      → Does Quiet (on_message server m)
  unfolding process_request handle_response complete_call
  on_message-Quiet server (ok (request req)) c = (refl, refl, refl, refl)
  on_message-Quiet server (ok (response o)) c = ground arith
  on_message-Quiet server (err e) c = (refl, refl, refl, refl)

  pub poll_transport_rx-Quiet :
      (serde : Serde) (server : ServerHandler S T) → Does Quiet (poll_transport_rx serde server)
  unfolding handle_transport_rx_payload
  poll_transport_rx-Quiet serde server =
      poll_transport_rx-Does Quiet Quiet-trans serde server (λ rest c. (refl, refl, refl, refl))
        (λ payload. on_message-Quiet server (incoming_from_str serde payload))

  poll_transport_tx-Quiet : Does Quiet poll_transport_tx
  unfolding poll_transport_tx
  poll_transport_tx-Quiet c = ground arith

  Wrote-Quiet :
      (serde : Serde) (ms : List OutgoingMessage) (a b c d : Client S T)
      → Quiet a b
      → Wrote serde b c ms
      → Quiet c d
      → Wrote serde a d ms
  Wrote-Quiet serde ms a b c d (w, r, g, f) v (x, s, h, k) = record {
    served = subst₂ (λ y z. Serves y ms z) r (sym s) v.served;
    written = simp (x, v.written, w, g);
    ids = h ∙ v.ids ∙ ap (λ y. gen_after_all serde y ms) g;
  }

  -- A turn of the client that succeeds takes a run of messages from the outgoing channels and
  -- appends the texts that serde makes of them, in that order, to what the transport took and
  -- what waited for it; nothing is lost or repeated, and the id generator is that which the run
  -- leaves.
  pub handle_messages_writes :
      (serde : Serde) (server : ServerHandler S T) (c : Client S T)
      → (handle_messages serde server c).0 ≡ ok tt
      → (ms : List OutgoingMessage) × Wrote serde c (handle_messages serde server c).1 ms
  unfolding handle_messages poll_outgoing_messages
  handle_messages_writes serde server c h =
      let m4 : Method S T (Unit {0}) = poll_outgoing_messages serde >> poll_transport_tx in
      let m3 : Method S T (Unit {0}) = poll_transport_rx serde server >> m4 in
      let m2 : Method S T (Unit {0}) = poll_server server >> m3 in
      let c1 = (send_leftover c).1 in
      let c2 = (poll_server server c1).1 in
      let c3 = (poll_transport_rx serde server c2).1 in
      let c4 = (poll_outgoing_messages serde c3).1 in
      let (h1, k1, e1) = >>-ok send_leftover m2 c tt h in
      let (h2, k2, e2) = >>-ok (poll_server server) m3 c1 tt k1 in
      let (h3, k3, e3) = >>-ok (poll_transport_rx serde server) m4 c2 tt k2 in
      let (h4, k4, e4) = >>-ok (poll_outgoing_messages serde) poll_transport_tx c3 tt k3 in
      let (ms, wrote, _) = outgoing_loop-Writes serde _ c3 h4 in
      let before : Quiet c c3 =
        Quiet-trans c c2 c3
          (Quiet-trans c c1 c2 (send_leftover-Quiet c h1) (poll_server-Quiet server c1))
          (poll_transport_rx-Quiet serde server c2) in
      (
        ms,
        rw (e1, e2, e3, e4)
            (Wrote-Quiet serde ms c c3 c4 (poll_transport_tx c4).1 before wrote
              (poll_transport_tx-Quiet c4)),
      )
