-- ===== src/Core/Client/Panics.antt =====
-- The `unreachable!()` of `poll_outgoing_messages` in core/src/lib.rs.
use jsonrpc_client_rs.Base.{
  ℕ, zero, suc, String, ◌≢◌, List, [], ◌∷◌, is_some, Bool-cases, inl, inr, arith,
}
use jsonrpc_client_rs.Base.Action.{Result, ok, err, ◌>>=◌, ◌>>◌}
use jsonrpc_client_rs.Poll.{Answer, item, finished, waiting, failed, pull_fused}
use jsonrpc_client_rs.SelectWeak
use jsonrpc_client_rs.SelectWeak.Serves.{Channels}
use jsonrpc_client_rs.SelectWeak.Script.{backlog}
use jsonrpc_client_rs.Core.Types.{shutdown}
use jsonrpc_client_rs.Core.Serialize.{Serde}
use jsonrpc_client_rs.Core.Client.{
  Client, OutgoingMessage, ServerHandler, Stop, raised, panicked, Method,
}
use jsonrpc_client_rs.Core.Client.Send.{send_payload, add_new_call, poll_transport_tx}
use jsonrpc_client_rs.Core.Client.Incoming.{
  complete_call, handle_response, process_request, poll_server, handle_transport_rx_payload,
  drain_rx, poll_transport_rx,
}
use jsonrpc_client_rs.Core.Client.Outgoing.{
  issue_call, issue_notification, issue_response, poll_rx, handle_client_payload, on_outgoing,
  outgoing_round, outgoing_loop, poll_outgoing_messages,
}
use jsonrpc_client_rs.Core.Client.Drive.{
  finish, send_leftover, close_transport, handle_messages, handle_shutdown, after_messages, poll,
  polls, should_shut_down,
}

-- The answers of a receiver of a channel, which never fails.
abbrev pub NeverFails : {A : Type 0} → List (Answer A) → Type 0
NeverFails [] = Unit {0}
NeverFails (failed ∷ l) = ⊥
NeverFails (a ∷ l) = NeverFails l

abbrev pub Receives : {A : Type 0} → Channels A → Type 0
Receives rx = NeverFails rx.strong × NeverFails rx.weak

abbrev Sound : {A : Type 0} → Answer A → Type 0
Sound failed = ⊥
Sound _ = Unit {0}

pull_fused-NeverFails :
    {A : Type 0} (l : List (Answer A))
    → NeverFails l
    → Sound (pull_fused l).0 × NeverFails (pull_fused l).1
pull_fused-NeverFails [] h = (tt, tt)
pull_fused-NeverFails (item a ∷ l) h = (tt, h)
pull_fused-NeverFails (finished ∷ l) h = (tt, h)
pull_fused-NeverFails (waiting ∷ l) h = (tt, h)
pull_fused-NeverFails (failed ∷ l) h = absurd h

poll-Receives :
    {A : Type 0} (rx : Channels A)
    → Receives rx
    → Sound (SelectWeak.poll pull_fused pull_fused rx).0
      × Receives (SelectWeak.poll pull_fused pull_fused rx).1
unfolding SelectWeak.poll
poll-Receives rx h =
    ground (arith, pull_fused-NeverFails rx.strong h.0, pull_fused-NeverFails rx.weak h.1)

-- A result that is no panic.
abbrev Ends : {A : Type 0} → Result A Stop → Type 0
Ends (ok a) = Unit {0}
Ends (err (raised e)) = Unit {0}
Ends (err panicked) = ⊥

module _ {S T : Type 0} where
  abbrev Fed : Client S T → Type 0
  Fed c = Receives c.outgoing_payload_rx

  -- A method that does not panic while the channels do not fail, and keeps them so.
  abbrev Safe : {A : Type 0} → Method S T A → Type 0
  Safe m = (c : Client S T) → Fed c → Ends (m c).0 × Fed (m c).1

  >>-Safe :
      {B : Type 0} (m : Method S T (Unit {0})) (k : Method S T B) → Safe m → Safe k → Safe (m >> k)
  >>-Safe m k hm hk c h = go (m c) (hm c h)
    where
      go :
          (p : Result (Unit {0}) Stop × Client S T)
          → Ends p.0 × Fed p.1
          → let q = ◌>>=◌ {A = Unit {0}} (λ _. p) (λ _. k) c in Ends q.0 × Fed q.1
      go (ok a, d) (e, f) = hk d f
      go (err (raised x), d) (e, f) = (tt, f)
      go (err panicked, d) (e, f) = absurd e

  send_payload-Safe : (payload : String) → Safe (send_payload payload)
  unfolding send_payload
  send_payload-Safe payload c h = ground arith

  send_leftover-Safe : Safe send_leftover
  unfolding send_leftover send_payload
  send_leftover-Safe c h = ground arith

  poll_transport_tx-Safe : Safe poll_transport_tx
  unfolding poll_transport_tx
  poll_transport_tx-Safe c h = ground arith

  close_transport-Safe : Safe close_transport
  unfolding close_transport finish
  close_transport-Safe c h = ground arith

  module _ (server : ServerHandler S T) where
    poll_server-Safe : Safe (poll_server server)
    unfolding poll_server
    poll_server-Safe c h = ground arith

  module _ (serde : Serde) (server : ServerHandler S T) where
    handle_transport_rx_payload-Safe :
        (payload : String) → Safe (handle_transport_rx_payload serde server payload)
    unfolding handle_transport_rx_payload process_request handle_response complete_call
    handle_transport_rx_payload-Safe payload c h = ground arith

    drain_rx-Safe : (l : List (Answer String)) → Safe (drain_rx serde server l)
    unfolding drain_rx
    drain_rx-Safe [] c h = (tt, h)
    drain_rx-Safe (item payload ∷ l) c h =
        >>-Safe (handle_transport_rx_payload serde server payload) (drain_rx serde server l)
          (handle_transport_rx_payload-Safe payload) (drain_rx-Safe l) _ h
    drain_rx-Safe (finished ∷ l) c h = (tt, h)
    drain_rx-Safe (waiting ∷ l) c h = (tt, h)
    drain_rx-Safe (failed ∷ l) c h = (tt, h)

    poll_transport_rx-Safe : Safe (poll_transport_rx serde server)
    unfolding poll_transport_rx
    poll_transport_rx-Safe c h = drain_rx-Safe c.transport_rx c h

  module _ (serde : Serde) where
    handle_client_payload-Safe : (m : OutgoingMessage) → Safe (handle_client_payload serde m)
    unfolding handle_client_payload issue_call issue_notification issue_response add_new_call
        send_payload
    handle_client_payload-Safe m c h = ground arith

    on_outgoing-Safe :
        (next : Method S T (Unit {0})) (a : Answer OutgoingMessage)
        → Safe next
        → Sound a
        → Safe (on_outgoing serde a next)
    on_outgoing-Safe next waiting k s c h = (tt, h)
    on_outgoing-Safe next finished k s c h = (tt, h)
    on_outgoing-Safe next failed k s c h = absurd s
    on_outgoing-Safe next (item m) k s c h =
        >>-Safe (handle_client_payload serde m) next (handle_client_payload-Safe m) k c h

    outgoing_loop-Safe : (fuel : ℕ) → Safe (outgoing_loop serde fuel)
    unfolding outgoing_loop outgoing_round poll_rx
    outgoing_loop-Safe zero c h = (tt, h)
    outgoing_loop-Safe (suc fuel) c h =
        let (s, f) = poll-Receives c.outgoing_payload_rx h in
        let next = outgoing_loop serde fuel in
        elim (Bool-cases (is_some c.pending_payload)) [
          | inl e ↦ rw e (tt, h)
          | inr e ↦ rw e (on_outgoing-Safe next (poll_rx c).0 (outgoing_loop-Safe fuel) s _ f)
        ]

    poll_outgoing_messages-Safe : Safe (poll_outgoing_messages serde)
    unfolding poll_outgoing_messages
    poll_outgoing_messages-Safe c h = outgoing_loop-Safe (suc (backlog c.outgoing_payload_rx)) c h

  module _ (serde : Serde) (server : ServerHandler S T) where
    handle_messages-Safe : Safe (handle_messages serde server)
    unfolding handle_messages
    handle_messages-Safe =
        let m4 : Method S T (Unit {0}) = poll_outgoing_messages serde >> poll_transport_tx in
        let m3 : Method S T (Unit {0}) = poll_transport_rx serde server >> m4 in
        let m2 : Method S T (Unit {0}) = poll_server server >> m3 in
        >>-Safe send_leftover m2 send_leftover-Safe (
          >>-Safe (poll_server server) m3 (poll_server-Safe server) (
            >>-Safe (poll_transport_rx serde server) m4 (poll_transport_rx-Safe serde server) (
              >>-Safe (poll_outgoing_messages serde) poll_transport_tx
                (poll_outgoing_messages-Safe serde) poll_transport_tx-Safe)))

    handle_shutdown-Safe : Safe (handle_shutdown serde server)
    unfolding handle_shutdown
    handle_shutdown-Safe c h =
        close_transport-Safe (poll_transport_rx serde server c).1
          (poll_transport_rx-Safe serde server c h).1

    after_messages-Safe :
        (r : Result (Unit {0}) Stop) (c : Client S T)
        → Ends r
        → Fed c
        → let q = after_messages serde server r c in Ends q.0 × Fed q.1
    after_messages-Safe (ok _) c e h = (tt, h)
    after_messages-Safe (err (raised shutdown)) c e h = handle_shutdown-Safe _ h
    after_messages-Safe (err (raised x)) c e h = handle_shutdown-Safe _ h
    after_messages-Safe (err panicked) c e h = absurd e

    poll-Safe : Safe (poll serde server)
    unfolding poll
    poll-Safe c h =
        let (e, f) = handle_messages-Safe c h in
        elim (Bool-cases (should_shut_down c)) [
          | inl q ↦ rw q (handle_shutdown-Safe c h)
          | inr q ↦ rw q (
              after_messages-Safe (handle_messages serde server c).0
                (handle_messages serde server c).1 e f)
        ]

    polls-Fed : (n : ℕ) (c : Client S T) → Fed c → Fed (polls serde server n c)
    unfolding polls
    polls-Fed zero c h = h
    polls-Fed (suc n) c h = (poll-Safe (polls serde server n c) (polls-Fed n c h)).1

    -- If the receivers of the two outgoing channels never answer with an error, no poll of the
    -- client meets unreachable!(), after any number of polls and whatever the transport, serde
    -- and the server handler do.
    pub poll_no_panic :
        (c : Client S T) (n : ℕ)
        → Receives c.outgoing_payload_rx
        → (poll serde server (polls serde server n c)).0 ≢ err panicked
    poll_no_panic c n h e =
        let ends = (poll-Safe (polls serde server n c) (polls-Fed n c h)).0 in ground (arith, e)
