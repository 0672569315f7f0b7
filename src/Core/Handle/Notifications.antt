-- ===== src/Core/Handle/Notifications.antt =====
-- Notifications through a `ClientHandle` of core/src/lib.rs: `send_notification`, and what
-- `handle_client_payload` and `send_payload` make of its message.
use jsonrpc_client_rs.Base.{
  ℕ, String, ◌≡◌, refl, Option, none, some, List, [], ◌∷◌, ◌++◌, append-nil, arith,
}
use jsonrpc_client_rs.Base.Action.{Result, ok, err}
use jsonrpc_client_rs.Poll.{Fut, now, later, never, then_fut, map_err_fut, outcome}
use jsonrpc_client_rs.Core.Types.{Value, Params, ErrorKind, shutdown, transport_error}
use jsonrpc_client_rs.Core.Serialize.{Serde, serialize_parameters, serialize_notification_request}
use jsonrpc_client_rs.Core.Client.{
  Client, OutgoingMessage, notification, SinkAnswer, broken, start_send, Stop, raised,
}
use jsonrpc_client_rs.Core.Client.Send.{send_payload, acknowledge}
use jsonrpc_client_rs.Core.Client.Outgoing.{issue_notification, handle_client_payload}
use jsonrpc_client_rs.Core.Client.Wire.{wire}
use jsonrpc_client_rs.Core.Handle.{send_notification}
use jsonrpc_client_rs.Core.Handle.Calls.{reply_to, replied}

-- Whether the handling of a text goes on, and what the transport has or will get of it, by what the
-- sink answers.
abbrev pub verdict : SinkAnswer → Result (Unit {0}) Stop
verdict broken = err (raised transport_error)
verdict _ = ok tt

abbrev pub kept : SinkAnswer → String → List String
kept broken text = []
kept _ text = text ∷ []

received :
    (rx : Fut (Result (Unit {0}) ErrorKind) (Unit {0})) (r : Result (Unit {0}) ErrorKind)
    → outcome rx ≡ some (ok r)
    → outcome (then_fut (map_err_fut (λ (_ : Unit {0}). shutdown) rx) now) ≡ some r
unfolding outcome then_fut map_err_fut
received (now (ok (ok tt))) r e = cc (e)
received (now (ok (err x))) r e = cc (e)
received (now (err x)) r e = cc
received (later rx) r e = received rx r e
received never r e = cc

sent :
    (s : Fut (Unit {0}) (Unit {0})) (rx : Fut (Result (Unit {0}) ErrorKind) (Unit {0}))
    (r : Result (Unit {0}) ErrorKind)
    → outcome s ≡ some (ok tt)
    → outcome rx ≡ some (ok r)
    → outcome (
        then_fut (then_fut (map_err_fut (λ _. shutdown) s) λ _. map_err_fut (λ _. shutdown) rx) now)
      ≡ some r
unfolding outcome then_fut map_err_fut
sent (now (ok tt)) rx r e h = received rx r h
sent (now (err x)) rx r e h = cc
sent (later s) rx r e h = sent s rx r e h
sent never rx r e h = cc

module _ {S T : Type 0} where
  send_payload-answer :
      (text : String) (c : Client S T)
      → c.pending_payload ≡ none
      → c.fatal_error ≡ none
      → let (r, d) = send_payload text c in
        let a = (start_send text c.transport_tx).0 in
        (r ≡ verdict a) × (wire d ≡ wire c ++ kept a text) × (d.acknowledged ≡ c.acknowledged)
  unfolding send_payload
  send_payload-answer text c p f =
      ground (
        arith,
        append-nil c.transport_tx.accepted,
        append-nil (c.transport_tx.accepted ++ text ∷ []),
      )

module _ (send : OutgoingMessage → Fut (Unit {0}) (Unit {0})) where
  sent_notification :
      (method : String) (parameters : Option Value) (p : Option Params) (tx : ℕ)
      (r : Result (Unit {0}) ErrorKind) (l rest : List (ℕ × Result (Unit {0}) ErrorKind))
      → serialize_parameters parameters ≡ ok p
      → outcome (send (notification method p tx)) ≡ some (ok tt)
      → l ≡ (tx, r) ∷ rest
      → outcome (send_notification send method parameters tx (reply_to tx l)) ≡ some r
  unfolding send_notification then_fut
  sent_notification method parameters p tx r l rest h s e =
      rw h (sent (send (notification method p tx)) (reply_to tx l) r s (replied tx r l rest e))

module _ {S T : Type 0} (serde : Serde) (send : OutgoingMessage → Fut (Unit {0}) (Unit {0})) where
  -- The future of a notification that serde does not write fails with that error, and nothing goes
  -- to the transport.
  pub notification_unwritten :
      (c : Client S T) (method : String) (parameters : Option Value) (p : Option Params) (tx : ℕ)
      (e : ErrorKind)
      → serialize_parameters parameters ≡ ok p
      → outcome (send (notification method p tx)) ≡ some (ok tt)
      → serialize_notification_request serde method p ≡ err e
      → let (r, d) = handle_client_payload serde (notification method p tx) c in
        (outcome (send_notification send method parameters tx (reply_to tx d.acknowledged))
          ≡ some (err e))
        × (r ≡ ok tt)
        × (wire d ≡ wire c)
  unfolding handle_client_payload issue_notification
  notification_unwritten c method parameters p tx e h s w =
      rw w (
        sent_notification send method parameters p tx (err e) _ c.acknowledged h s refl,
        refl,
        refl,
      )

  -- If the parameters of a notification are written, the channel takes it, serde writes it as a
  -- text, and the client that handles it has no text waiting and no stored error, then the future
  -- of send_notification resolves to success whatever the sink answers to the text: if the sink
  -- takes it or is busy, the handling goes on and the text comes behind all that went to the
  -- transport, in it or held back; if the sink fails, the handling ends in TransportError and the
  -- text is in neither.
  pub notification_sent :
      (c : Client S T) (method : String) (parameters : Option Value) (p : Option Params) (tx : ℕ)
      (text : String)
      → serialize_parameters parameters ≡ ok p
      → outcome (send (notification method p tx)) ≡ some (ok tt)
      → serialize_notification_request serde method p ≡ ok text
      → c.pending_payload ≡ none
      → c.fatal_error ≡ none
      → let (r, d) = handle_client_payload serde (notification method p tx) c in
        let a = (start_send text c.transport_tx).0 in
        (outcome (send_notification send method parameters tx (reply_to tx d.acknowledged))
          ≡ some (ok tt))
        × (r ≡ verdict a)
        × (wire d ≡ wire c ++ kept a text)
  unfolding handle_client_payload issue_notification
  notification_sent c method parameters p tx text h s w empty runs = rw w (
      let (r, d, l) = send_payload-answer text (acknowledge tx (ok tt) c) empty runs in
      (sent_notification send method parameters p tx (ok tt) _ c.acknowledged h s l, r, d))
