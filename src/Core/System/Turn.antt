-- ===== src/Core/System/Turn.antt =====
-- One poll of a client of core/src/lib.rs with the default server of core/src/server.rs.
use jsonrpc_client_rs.Base.{
  String, ◌≡◌, refl, sym, ap, ◌∙◌, ◌⊎◌, inl, inr, subst, some, [], ◌∷◌, false, arith,
}
use jsonrpc_client_rs.Base.Action.{ok, ◌>>◌, >>-from, modify}
use jsonrpc_client_rs.Poll.{not_ready, item}
use jsonrpc_client_rs.SelectWeak.Full.{Among, Queued}
use jsonrpc_client_rs.Core.Types.{Response, Request}
use jsonrpc_client_rs.Core.Serialize.{Serde, incoming_from_str, request}
use jsonrpc_client_rs.Core.Client.{response, Method}
use jsonrpc_client_rs.Core.Client.Send.{poll_transport_tx}
use jsonrpc_client_rs.Core.Client.Incoming.{
  poll_transport_rx, poll_server, read_on, drain_rx, handle_transport_rx_payload,
}
use jsonrpc_client_rs.Core.Client.Incoming
use jsonrpc_client_rs.Core.Client.Outgoing.{poll_outgoing_messages}
use jsonrpc_client_rs.Core.Client.Drive.{send_leftover, should_shut_down}
use jsonrpc_client_rs.Core.Server.Drivable.{Channel}
use jsonrpc_client_rs.Core.Server.State.{Server, server_handler, process_request}
use jsonrpc_client_rs.Core.Server.State
use jsonrpc_client_rs.Core.Server.Serving.{Has}
use jsonrpc_client_rs.Core.System.{ServerClient, relay, after_server, turn, poll}
use jsonrpc_client_rs.Core.System.Outgoing.{Prints, Running, outgoing_turn}
use jsonrpc_client_rs.Core.System.Relay.{relay-Running, relay-Queued, relay-Has}

module _ {T : Type 0} (serde : Serde) (chan : Channel T) (prints : Prints serde) where
  send_leftover-empty : (c : ServerClient T) → Running c → send_leftover c ≡ (ok tt, c)
  unfolding send_leftover
  send_leftover-empty c (_, _, _, p, _, _) = rw p refl

  -- The client behind a poll of its server that went well.
  abbrev pub served : ServerClient T → ServerClient T
  served c = record c {
    shutting_down = false;
    server_handler = (State.poll chan c.server_handler).1;
  }

  poll_server-served :
      (c : ServerClient T)
      → c.shutting_down ≡ false
      → (State.poll chan c.server_handler).0 ≡ ok not_ready
      → poll_server (server_handler chan) c ≡ (ok tt, served c)
  unfolding poll_server
  poll_server-served c o h = ground arith

  -- The responses of a kind, and what the transport took before, end up with the transport.
  abbrev Carries : (Response → Type 0) → ServerClient T → ServerClient T → Type 0
  Carries Q c d =
      ((r : Response) (p : String)
        → Q r
        → serde.response_to_string r ≡ some p
        → Among p d.transport_tx.accepted)
      × ((p : String) → Among p c.transport_tx.accepted → Among p d.transport_tx.accepted)

  -- A client that behaves, with its server in the state `s`.
  abbrev pub Ticks : (Response → Type 0) → Server T → ServerClient T → ServerClient T → Type 0
  Ticks Q s c d =
      Running d
      × (d.server_handler ≡ record s { delivered = [] })
      × (d.server_response_tx ≡ c.server_response_tx)
      × (d.transport_rx ≡ [])
      × Carries Q c d

  -- What the client holds of the server's responses.
  abbrev Holds : ServerClient T → Response → Type 0
  Holds e r = Queued (response r) e.outgoing_payload_rx ⊎ Has r e.server_handler.delivered

  abbrev sending : Method (Server T) T (Unit {0})
  sending = poll_outgoing_messages serde >> poll_transport_tx

  -- The rest of a turn once everything was read from the transport.
  sending-Ticks :
      (e : ServerClient T)
      → Running e
      → e.transport_rx ≡ []
      → ((sending (relay e)).0 ≡ ok tt) × Ticks (Holds e) e.server_handler e (sending (relay e)).1
  unfolding relay
  sending-Ticks e run read =
      let ((fine, after, (s, t, x)), puts, keeps) =
        outgoing_turn serde prints (relay e) (relay-Running e run) in
      (
        fine,
        (
          after,
          s,
          t,
          x ∙ read,
          (
            λ r p q.
                puts r p elim q [ inl h ↦ relay-Queued (response r) e h | inr h ↦ relay-Has r e h ],
            keeps,
          ),
        ),
      )

  -- A turn of a client that reads one thing at most.
  turn-after_server :
      (c : ServerClient T)
      → Running c
      → (State.poll chan c.server_handler).0 ≡ ok not_ready
      → turn serde chan c ≡ after_server serde chan (relay (served c))
  unfolding turn
  turn-after_server c run calm =
      let (_, _, _, _, _, o) = run in
      let server = poll_server (server_handler chan) in
      >>-from send_leftover (server >> (modify relay >> after_server serde chan)) c c
        (send_leftover-empty c run)
      ∙ >>-from server (modify relay >> after_server serde chan) c (served c)
          (poll_server-served c o calm)

  poll-turn :
      (c d : ServerClient T)
      → Running c
      → turn serde chan c ≡ (ok tt, d)
      → poll serde chan c ≡ (ok not_ready, d)
  unfolding poll should_shut_down
  poll-turn c d (_, _, _, _, f, o) h = ground arith

  -- A poll of a client that behaves, where reading from the transport leaves it as `e`.
  poll-Ticks :
      (c e : ServerClient T)
      → Running c
      → (State.poll chan c.server_handler).0 ≡ ok not_ready
      → poll_transport_rx serde (server_handler chan) (relay (served c)) ≡ (ok tt, e)
      → Running e
      → e.transport_rx ≡ []
      → e.server_response_tx ≡ c.server_response_tx
      → e.transport_tx ≡ c.transport_tx
      → ((poll serde chan c).0 ≡ ok not_ready)
        × Ticks (Holds e) e.server_handler c (poll serde chan c).1
  poll-Ticks c e run calm reads runs read tx taken =
      let d = (sending (relay e)).1 in
      let (fine, (after, s, t, x, (puts, keeps))) = sending-Ticks e runs read in
      let whole : turn serde chan c ≡ (ok tt, d) =
        turn-after_server c run calm
        ∙ >>-from (poll_transport_rx serde (server_handler chan)) (modify relay >> sending)
            (relay (served c)) e reads
        ∙ ap (λ r. (r, d)) fine in
      rw (poll-turn c d run whole) (
        refl,
        (
          after,
          s,
          t ∙ tx,
          x,
          (puts, λ p q. keeps p (subst (λ y. Among p y.accepted) (sym taken) q)),
        ),
      )

  served-Running : (c : ServerClient T) → Running c → Running (relay (served c))
  served-Running c (full, a, b, p, f, o) = relay-Running (served c) (full, a, b, p, f, refl)

  -- A poll in which nothing arrives.
  pub poll_quiet :
      (c : ServerClient T)
      → Running c
      → (State.poll chan c.server_handler).0 ≡ ok not_ready
      → c.transport_rx ≡ []
      → let s = (State.poll chan c.server_handler).1 in
        Ticks (λ r. Has r s.delivered) s c (poll serde chan c).1
  unfolding poll_transport_rx drain_rx relay
  poll_quiet c run calm empty =
      let d = relay (served c) in
      let e = read_on [] d in
      let runs = served-Running c run in
      let reads : poll_transport_rx serde (server_handler chan) d ≡ (ok tt, e) =
        ap (λ l. drain_rx serde (server_handler chan) l d) empty in
      let (_, (after, s, t, x, (puts, keeps))) =
        poll-Ticks c e run calm reads runs refl refl refl in
      (after, s, t, x, (λ r p h. puts r p (inl (relay-Has r (served c) h)), keeps))

  -- The server behind a poll and then a request from the transport.
  abbrev pub asked : Request → ServerClient T → Server T
  asked req c =
      (State.process_request chan req c.server_response_tx
        (record (State.poll chan c.server_handler).1 { delivered = [] })).1

  -- A poll in which a request arrives.
  pub poll_request :
      (c : ServerClient T) (payload : String) (req : Request)
      → Running c
      → (State.poll chan c.server_handler).0 ≡ ok not_ready
      → c.transport_rx ≡ item payload ∷ []
      → incoming_from_str serde payload ≡ ok (request req)
      → Ticks (λ r. Has r (asked req c).delivered) (asked req c) c (poll serde chan c).1
  unfolding poll_transport_rx drain_rx relay handle_transport_rx_payload Incoming.process_request
      process_request
  poll_request c payload req run calm one parses =
      let d = relay (served c) in
      let e = record d { transport_rx = []; server_handler = asked req c } in
      let runs : Running e = served-Running c run in
      let reads : poll_transport_rx serde (server_handler chan) d ≡ (ok tt, e) =
        ap (λ l. drain_rx serde (server_handler chan) l d) one ∙ rw parses refl in
      let (_, (after, s, t, x, (puts, keeps))) =
        poll-Ticks c e run calm reads runs refl refl refl in
      (after, s, t, x, (λ r p h. puts r p (inr h), keeps))
