-- ===== src/Core/Client/Wire.antt =====
-- What goes to the transport from `handle_client_payload` and `send_payload` of core/src/lib.rs.
use jsonrpc_client_rs.Base.{
  String, ◌≡◌, Option, none, some, List, [], ◌∷◌, ◌++◌, append-nil, inl, inr, arith,
}
use jsonrpc_client_rs.Base.Action.{Result, ok, err, Result-cases}
use jsonrpc_client_rs.SelectWeak.Serves.{Serves}
use jsonrpc_client_rs.Core.Types.{ErrorKind, serialize_error}
use jsonrpc_client_rs.Core.IdGenerator.{IdGenerator, next}
use jsonrpc_client_rs.Core.Serialize.{
  Serde, or_err, serialize_method_request, serialize_notification_request,
}
use jsonrpc_client_rs.Core.Client.{Client, OutgoingMessage, rpc_call, notification}
use jsonrpc_client_rs.Core.Client.Send.{send_payload, acknowledge, add_new_call}
use jsonrpc_client_rs.Core.Client.Outgoing.{
  issue_call, issue_notification, issue_response, handle_client_payload,
}

abbrev pub held_back : Option String → List String
held_back none = []
held_back (some p) = p ∷ []

abbrev pub text_of : Result String ErrorKind → List String
text_of (ok payload) = payload ∷ []
text_of (err e) = []

-- The specification: the texts of a sequence of messages, where each call takes the next id and a
-- message that serde refuses has no text; and the id generator behind them.
module _ (serde : Serde) where
  abbrev pub text : IdGenerator → OutgoingMessage → List String
  text g (rpc_call method p chan) = text_of (serialize_method_request serde (next g).0 method p)
  text g (notification method p chan) = text_of (serialize_notification_request serde method p)
  text g (OutgoingMessage.response r) =
      text_of (or_err serialize_error (serde.response_to_string r))

  abbrev pub gen_after : IdGenerator → OutgoingMessage → IdGenerator
  gen_after g (rpc_call method p chan) = (next g).1
  gen_after g (notification method p chan) = g
  gen_after g (OutgoingMessage.response r) = g

  abbrev pub texts : IdGenerator → List OutgoingMessage → List String
  texts g [] = []
  texts g (m ∷ ms) = text g m ++ texts (gen_after g m) ms

  abbrev pub gen_after_all : IdGenerator → List OutgoingMessage → IdGenerator
  gen_after_all g [] = g
  gen_after_all g (m ∷ ms) = gen_after_all (gen_after g m) ms

module _ {S T : Type 0} where
  -- What the transport took, and then what waits to be taken.
  abbrev pub wire : Client S T → List String
  wire c = c.transport_tx.accepted ++ held_back c.pending_payload

  -- The client wrote the messages that the channels served.
  pub record Wrote (serde : Serde) (c d : Client S T) (ms : List OutgoingMessage) : Type 0 where
    pub served : Serves c.outgoing_payload_rx ms d.outgoing_payload_rx
    pub written : wire d ≡ wire c ++ texts serde c.id_generator ms
    pub ids : d.id_generator ≡ gen_after_all serde c.id_generator ms

  send_payload_writes :
      (payload : String) (c : Client S T)
      → c.pending_payload ≡ none
      → (send_payload payload c).0 ≡ ok tt
      → wire (send_payload payload c).1 ≡ wire c ++ payload ∷ []
  unfolding send_payload
  send_payload_writes payload c p h = ground (
    arith,
    append-nil c.transport_tx.accepted,
    append-nil (c.transport_tx.accepted ++ payload ∷ []),
  )

  -- What sending a payload leaves alone.
  send_payload_rest :
      (payload : String) (c : Client S T)
      → let d = (send_payload payload c).1 in
        (d.id_generator ≡ c.id_generator)
        × (d.outgoing_payload_rx ≡ c.outgoing_payload_rx)
        × (d.fatal_error ≡ c.fatal_error)
  unfolding send_payload
  send_payload_rest payload c = ground arith

  -- What a message that was handled leads to.
  abbrev pub Handled : Serde → OutgoingMessage → Client S T → Client S T → Type 0
  Handled serde m c d =
      (wire d ≡ wire c ++ text serde c.id_generator m)
      × (d.id_generator ≡ gen_after serde c.id_generator m)
      × (d.outgoing_payload_rx ≡ c.outgoing_payload_rx)
      × (d.fatal_error ≡ c.fatal_error)

  pub handle_client_payload_writes :
      (serde : Serde) (m : OutgoingMessage) (c : Client S T)
      → c.pending_payload ≡ none
      → (handle_client_payload serde m c).0 ≡ ok tt
      → Handled serde m c (handle_client_payload serde m c).1
  unfolding handle_client_payload issue_call issue_notification issue_response add_new_call next
  handle_client_payload_writes serde (rpc_call method p chan) c e h =
      elim (Result-cases (serialize_method_request serde (next c.id_generator).0 method p)) [
        | inl (payload, q) ↦
            let d =
              add_new_call (next c.id_generator).0 chan
                (record c { id_generator = (next c.id_generator).1 }) in
            ground (arith, q, send_payload_writes payload d, send_payload_rest payload d)
        | inr (x, q) ↦ ground (arith, q, append-nil (wire c))
      ]
  handle_client_payload_writes serde (notification method p chan) c e h =
      elim (Result-cases (serialize_notification_request serde method p)) [
        | inl (payload, q) ↦
            let d = acknowledge chan (ok tt) c in
            ground (arith, q, send_payload_writes payload d, send_payload_rest payload d)
        | inr (x, q) ↦ ground (arith, q, append-nil (wire c))
      ]
  handle_client_payload_writes serde (OutgoingMessage.response r) c e h =
      elim (Result-cases (or_err serialize_error (serde.response_to_string r))) [
        | inl (payload, q) ↦
            ground (arith, q, send_payload_writes payload c, send_payload_rest payload c)
        | inr (x, q) ↦ ground (arith, q, append-nil (wire c))
      ]
