-- ===== src/Core/Client/Flush.antt =====
-- The messages that wait in the outgoing channels when `handle_messages` of core/src/lib.rs runs
-- over a transport that takes what it is given.
use jsonrpc_client_rs.Base.{
  ℕ, zero, suc, String, ◌<◌, ◌≡◌, refl, ap, ◌∙◌, none, List, [], is_some, false, arith,
}
use jsonrpc_client_rs.Base.Action.{ok, ◌>>◌, >>-ok}
use jsonrpc_client_rs.Poll.{Answer, item, finished, waiting, failed}
use jsonrpc_client_rs.Core.Serialize.{Serde}
use jsonrpc_client_rs.Core.Client.{Client, OutgoingMessage, ServerHandler, Method}
use jsonrpc_client_rs.Core.Client.Send.{send_payload, add_new_call, poll_transport_tx}
use jsonrpc_client_rs.Core.Client.Incoming.{poll_server, poll_transport_rx}
use jsonrpc_client_rs.Core.Client.Outgoing.{
  issue_call, issue_notification, issue_response, poll_rx, handle_client_payload, on_outgoing,
  outgoing_round, outgoing_loop, poll_outgoing_messages,
}
use jsonrpc_client_rs.Core.Client.Drive.{send_leftover, handle_messages}
use jsonrpc_client_rs.Core.Client.Loop.{waiting_messages, poll_rx-falls, handle_client_payload-rx}
use jsonrpc_client_rs.Core.Client.Ending.{poll_transport_rx-Outbound}
use jsonrpc_client_rs.Core.Client.Wire.{Wrote}
use jsonrpc_client_rs.Core.Client.Order.{handle_messages_writes}
use jsonrpc_client_rs.SelectWeak.Full.{Among, Full, Queued, Drained, Served-is, Serves-Among}

module _ {S T : Type 0} where
  -- A client that has no payload waiting over a transport that takes what it is given, with
  -- channels that hold only messages.
  abbrev pub Open : Client S T → Type 0
  Open c = (c.transport_tx.starts ≡ []) × (c.pending_payload ≡ none)

  abbrev pub Free : Client S T → Type 0
  Free c = Open c × Full c.outgoing_payload_rx

  abbrev pub Flushed : Client S T → Type 0
  Flushed c = Drained c.outgoing_payload_rx × (c.pending_payload ≡ none)

  send_payload-Open : (payload : String) (c : Client S T) → Open c → Open (send_payload payload c).1
  unfolding send_payload
  send_payload-Open payload c h = ground arith

  send_leftover-Open : (c : Client S T) → c.transport_tx.starts ≡ [] → Open (send_leftover c).1
  unfolding send_leftover send_payload
  send_leftover-Open c h = ground arith

  module _ (serde : Serde) where
    handle_client_payload-Open :
        (m : OutgoingMessage) (c : Client S T) → Open c → Open (handle_client_payload serde m c).1
    unfolding handle_client_payload issue_call issue_notification issue_response add_new_call
        send_payload
    handle_client_payload-Open m c h = ground arith

    on_outgoing-Flushed :
        (next : Method S T (Unit {0})) (a : Answer OutgoingMessage) (c : Client S T)
        → ((call : OutgoingMessage)
            → a ≡ item call
            → (next (handle_client_payload serde call c).1).0 ≡ ok tt
            → Flushed (next (handle_client_payload serde call c).1).1)
        → (a ≡ waiting → Flushed c)
        → (on_outgoing serde a next c).0 ≡ ok tt
        → Flushed (on_outgoing serde a next c).1
    on_outgoing-Flushed next (item m) c k w h =
        let (_, second, both) = >>-ok (handle_client_payload serde m) next c tt h in
        rw both (k m refl second)
    on_outgoing-Flushed next waiting c k w h = w refl
    on_outgoing-Flushed next finished c k w h = cc
    on_outgoing-Flushed next failed c k w h = cc

    outgoing_round-Flushed :
        (next : Method S T (Unit {0})) (c : Client S T)
        → ((d : Client S T)
            → waiting_messages d < waiting_messages c
            → Free d
            → (next d).0 ≡ ok tt
            → Flushed (next d).1)
        → Free c
        → (outgoing_round serde next c).0 ≡ ok tt
        → Flushed (outgoing_round serde next c).1
    unfolding outgoing_round poll_rx
    outgoing_round-Flushed next c ih ((s, p), f) h =
        let none_waits : is_some c.pending_payload ≡ false = rw p refl in
        rw none_waits (
          on_outgoing-Flushed next (poll_rx c).0 (poll_rx c).1
            (λ call e k.
              let (full, _) = Served-is c.outgoing_payload_rx e f in
              let rx = handle_client_payload-rx serde call (poll_rx c).1 in
              ih (handle_client_payload serde call (poll_rx c).1).1 (rw rx (poll_rx-falls c call e))
                (handle_client_payload-Open call (poll_rx c).1 (s, p), rw rx full) k)
            (λ e. ((Served-is c.outgoing_payload_rx e f).1, p)) (rw none_waits at h))

    pub outgoing_loop-Flushed :
        (fuel : ℕ) (c : Client S T)
        → waiting_messages c < fuel
        → Free c
        → (outgoing_loop serde fuel c).0 ≡ ok tt
        → Flushed (outgoing_loop serde fuel c).1
    unfolding outgoing_loop
    outgoing_loop-Flushed zero c f o h = absurd (omega arith)
    outgoing_loop-Flushed (suc fuel) c f o h =
        outgoing_round-Flushed (outgoing_loop serde fuel) c
          (λ d less. outgoing_loop-Flushed fuel d (omega arith)) o h

  module _ (serde : Serde) (server : ServerHandler S T) where
    poll_server-Free : (c : Client S T) → Free c → Free (poll_server server c).1
    unfolding poll_server
    poll_server-Free c h = ground arith

    poll_transport_tx-Flushed : (c : Client S T) → Flushed c → Flushed (poll_transport_tx c).1
    unfolding poll_transport_tx
    poll_transport_tx-Flushed c h = ground arith

    send_leftover-rx :
        (c : Client S T) → (send_leftover c).1.outgoing_payload_rx ≡ c.outgoing_payload_rx
    unfolding send_leftover send_payload
    send_leftover-rx c = ground arith

    poll_transport_rx-Free : (c : Client S T) → Free c → Free (poll_transport_rx serde server c).1
    poll_transport_rx-Free c ((s, p), f) =
        let (tx, pending, rx, _, _, _) = poll_transport_rx-Outbound serde server c in
        ((ap (λ t. t.starts) tx ∙ s, pending ∙ p), rw rx f)

    handle_messages-Flushed :
        (c : Client S T)
        → c.transport_tx.starts ≡ []
        → Full c.outgoing_payload_rx
        → (handle_messages serde server c).0 ≡ ok tt
        → Flushed (handle_messages serde server c).1
    unfolding handle_messages poll_outgoing_messages
    handle_messages-Flushed c free full h =
        let m4 : Method S T (Unit {0}) = poll_outgoing_messages serde >> poll_transport_tx in
        let m3 : Method S T (Unit {0}) = poll_transport_rx serde server >> m4 in
        let m2 : Method S T (Unit {0}) = poll_server server >> m3 in
        let c1 = (send_leftover c).1 in
        let c2 = (poll_server server c1).1 in
        let c3 = (poll_transport_rx serde server c2).1 in
        let c4 = (poll_outgoing_messages serde c3).1 in
        let (_, k1, e1) = >>-ok send_leftover m2 c tt h in
        let (_, k2, e2) = >>-ok (poll_server server) m3 c1 tt k1 in
        let (_, k3, e3) = >>-ok (poll_transport_rx serde server) m4 c2 tt k2 in
        let (h4, _, e4) = >>-ok (poll_outgoing_messages serde) poll_transport_tx c3 tt k3 in
        let free1 : Free c1 = (send_leftover-Open c free, rw (send_leftover-rx c) full) in
        let free3 = poll_transport_rx-Free c2 (poll_server-Free c1 free1) in
        let flushed =
          outgoing_loop-Flushed serde (suc (waiting_messages c3)) c3 (omega arith) free3 h4 in
        rw (e1, e2, e3, e4) (poll_transport_tx-Flushed c4 flushed)

    -- A turn of the client that succeeds, over a transport that takes what it is given and with
    -- channels that hold messages alone, writes every message that waits in either channel: each
    -- is in the run that was written, both channels are empty, and no payload is held back.
    pub handle_messages_flushes :
        (c : Client S T) (m : OutgoingMessage)
        → c.transport_tx.starts ≡ []
        → Full c.outgoing_payload_rx
        → Queued m c.outgoing_payload_rx
        → (handle_messages serde server c).0 ≡ ok tt
        → let d = (handle_messages serde server c).1 in
          ((ms : List OutgoingMessage) × Wrote serde c d ms × Among m ms)
          × Drained d.outgoing_payload_rx
          × (d.pending_payload ≡ none)
    handle_messages_flushes c m free full q h =
        let (ms, wrote) = handle_messages_writes serde server c h in
        let (drained, kept) = handle_messages-Flushed c free full h in
        ((ms, wrote, Serves-Among m wrote.served full drained q), drained, kept)
