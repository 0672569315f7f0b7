-- ===== src/Core/System/Relay.antt =====
-- The channel that takes the responses of the default server of core/src/server.rs to the client of
-- core/src/lib.rs.
use jsonrpc_client_rs.Base.{ap, inl, inr, List, [], ◌∷◌}
use jsonrpc_client_rs.Poll.{item}
use jsonrpc_client_rs.SelectWeak.Full.{
  OnlyItems, Waits, Queued, OnlyItems-++, Waits-left, Waits-right,
}
use jsonrpc_client_rs.Core.Types.{Response}
use jsonrpc_client_rs.Core.Client.{OutgoingMessage, response}
use jsonrpc_client_rs.Core.Server.Serving.{Has}
use jsonrpc_client_rs.Core.System.{ServerClient, sent_messages, relay}
use jsonrpc_client_rs.Core.System.Outgoing.{Running}

sent_messages-OnlyItems : (l : List Response) → OnlyItems (sent_messages l)
sent_messages-OnlyItems [] = tt
sent_messages-OnlyItems (r ∷ l) =
    OnlyItems-++ (sent_messages l) (item (response r) ∷ []) (sent_messages-OnlyItems l) tt

sent_messages-Waits :
    (r : Response) (l : List Response) → Has r l → Waits (response r) (sent_messages l)
sent_messages-Waits r [] h = absurd h
sent_messages-Waits r (x ∷ l) (inl e) =
    Waits-right (response r) (sent_messages l) (item (response x) ∷ []) (inl (ap response e))
sent_messages-Waits r (x ∷ l) (inr h) =
    Waits-left (response r) (sent_messages l) (item (response x) ∷ []) (sent_messages-Waits r l h)

module _ {T : Type 0} where
  pub relay-Running : (c : ServerClient T) → Running c → Running (relay c)
  unfolding relay
  relay-Running c ((s, w, d), a, b, p, f, o) = (
    (
      s,
      OnlyItems-++ c.outgoing_payload_rx.weak (sent_messages c.server_handler.delivered) w
          (sent_messages-OnlyItems c.server_handler.delivered),
      d,
    ),
    a,
    b,
    p,
    f,
    o,
  )

  pub relay-Queued :
      (m : OutgoingMessage) (c : ServerClient T)
      → Queued m c.outgoing_payload_rx
      → Queued m (relay c).outgoing_payload_rx
  unfolding relay
  relay-Queued m c (inl h) = inl h
  relay-Queued m c (inr h) =
      inr (Waits-left m c.outgoing_payload_rx.weak (sent_messages c.server_handler.delivered) h)

  pub relay-Has :
      (r : Response) (c : ServerClient T)
      → Has r c.server_handler.delivered
      → Queued (response r) (relay c).outgoing_payload_rx
  unfolding relay
  relay-Has r c h = inr (
      Waits-right (response r) c.outgoing_payload_rx.weak (sent_messages c.server_handler.delivered)
        (sent_messages-Waits r c.server_handler.delivered h))
