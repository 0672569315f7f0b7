-- ===== src/Core/Client/Loop.antt =====
-- The loop of `poll_outgoing_messages` of core/src/lib.rs and its fuel.
use jsonrpc_client_rs.Base.{ℕ, zero, suc, ◌<◌, ◌≡◌, refl, ap, is_some, if◌then◌else◌, arith}
use jsonrpc_client_rs.Base.Action.{ok}
use jsonrpc_client_rs.Poll.{Answer, item, finished, waiting, failed}
use jsonrpc_client_rs.SelectWeak.Script.{backlog, poll-backlog}
use jsonrpc_client_rs.Core.Serialize.{Serde}
use jsonrpc_client_rs.Core.Client.{Client, OutgoingMessage, Method}
use jsonrpc_client_rs.Core.Client.Send.{send_payload, add_new_call}
use jsonrpc_client_rs.Core.Client.Outgoing.{
  issue_call, issue_notification, issue_response, handle_client_payload, poll_rx, on_outgoing,
  outgoing_round, outgoing_loop, poll_outgoing_messages,
}

module _ {S T : Type 0} where
  abbrev pub waiting_messages : Client S T → ℕ
  waiting_messages c = backlog c.outgoing_payload_rx

  pub poll_rx-falls :
      (c : Client S T) (m : OutgoingMessage)
      → (poll_rx c).0 ≡ item m
      → waiting_messages (poll_rx c).1 < waiting_messages c
  unfolding poll_rx
  poll_rx-falls c m h = poll-backlog c.outgoing_payload_rx m h

  module _ (serde : Serde) where
    pub handle_client_payload-rx :
        (m : OutgoingMessage) (c : Client S T)
        → (handle_client_payload serde m c).1.outgoing_payload_rx ≡ c.outgoing_payload_rx
    unfolding handle_client_payload issue_call issue_notification issue_response send_payload
        add_new_call
    handle_client_payload-rx m c = ground arith

    -- A round needs of what follows only how it treats clients with fewer answers to come.
    on_outgoing_agree :
        (m n : Method S T (Unit {0})) (a : Answer OutgoingMessage) (c : Client S T)
        → ((call : OutgoingMessage)
            → a ≡ item call
            → m (handle_client_payload serde call c).1 ≡ n (handle_client_payload serde call c).1)
        → on_outgoing serde a m c ≡ on_outgoing serde a n c
    on_outgoing_agree m n (item call) c h = ground (arith, h call refl)
    on_outgoing_agree m n finished c h = refl
    on_outgoing_agree m n waiting c h = refl
    on_outgoing_agree m n failed c h = refl

    outgoing_round_agree :
        (m n : Method S T (Unit {0})) (c : Client S T)
        → ((d : Client S T) → waiting_messages d < waiting_messages c → m d ≡ n d)
        → outgoing_round serde m c ≡ outgoing_round serde n c
    unfolding outgoing_round
    outgoing_round_agree m n c h = ap (if◌then◌else◌ (is_some c.pending_payload) (ok tt, c)) (
        on_outgoing_agree m n (poll_rx c).0 (poll_rx c).1
          λ call e. h _ (rw (handle_client_payload-rx call (poll_rx c).1) (poll_rx-falls c call e)))

    -- With more fuel than there are answers to come, the fuel makes no difference.
    pub outgoing_loop_fuel :
        (f g : ℕ) (c : Client S T)
        → waiting_messages c < f
        → waiting_messages c < g
        → outgoing_loop serde f c ≡ outgoing_loop serde g c
    unfolding outgoing_loop
    outgoing_loop_fuel zero g c hf hg = absurd (omega arith)
    outgoing_loop_fuel (suc f) zero c hf hg = absurd (omega arith)
    outgoing_loop_fuel (suc f) (suc g) c hf hg =
        outgoing_round_agree (outgoing_loop serde f) (outgoing_loop serde g) c
          λ d h. outgoing_loop_fuel f g d (omega arith) (omega arith)

    -- Poll_outgoing_messages, which runs on fuel, satisfies the equation of the loop of the
    -- source: it is one round of the loop followed by poll_outgoing_messages itself.
    poll_outgoing_messages_loop :
        (c : Client S T)
        → poll_outgoing_messages serde c ≡ outgoing_round serde (poll_outgoing_messages serde) c
    unfolding poll_outgoing_messages outgoing_loop
    poll_outgoing_messages_loop c =
        outgoing_round_agree _ _ c λ d h.
          outgoing_loop_fuel (waiting_messages c) (suc (waiting_messages d)) d h (omega arith)
