-- ===== src/Core/Client/Whole.antt =====
-- The methods of the client in core/src/lib.rs that take no message from the outgoing channels, and
-- how often the completion channels of calls occur before and after them.
use jsonrpc_client_rs.Base.{
  ℕ, ◌+◌, ◌≡◌, refl, sym, ap, ◌∙◌, inl, inr, none, some, [], ◌∷◌, arith, Bool-cases, Option-cases,
  subst,
}
use jsonrpc_client_rs.Base.Action.{Result, ok, err, Does}
use jsonrpc_client_rs.Base.Assoc.{Assoc, lookup, insert, erase, erase_absent}
use jsonrpc_client_rs.Base.Assoc.Unique.{IsUnique, erase-IsUnique}
use jsonrpc_client_rs.Core.Types.{Value, RequestId, id_key, ErrorKind}
use jsonrpc_client_rs.Core.Serialize.{IncomingMessage, request, response}
use jsonrpc_client_rs.Core.Client.{Client, ServerHandler}
use jsonrpc_client_rs.Core.Client.Send.{send_payload, poll_transport_tx}
use jsonrpc_client_rs.Core.Client.Incoming.{
  complete_call, handle_response, process_request, on_message, poll_server, outcome,
}
use jsonrpc_client_rs.Core.Client.Drive.{send_leftover, finish, close_transport}
use jsonrpc_client_rs.Core.Client.Fresh.{
  Inv, Keeps, send_leftover-Keeps, poll_transport_tx-Keeps, close_transport-Keeps,
  poll_server-Keeps, on_message-Keeps,
}
use jsonrpc_client_rs.Core.Client.Tally.{tally, held, one}

pub held-insert_new :
    (k : ℕ) (i : RequestId) (v : ℕ) (m : Assoc RequestId ℕ)
    → lookup i m ≡ none
    → held k (insert i v m) ≡ one k v + held k m
unfolding insert lookup
held-insert_new k i v [] h = omega arith
held-insert_new k i v ((j, w) ∷ m) h = ground (arith, held-insert_new k i v m)

held-erase_unique :
    (k : ℕ) (i : RequestId) (v : ℕ) (m : Assoc RequestId ℕ)
    → IsUnique m
    → lookup i m ≡ some v
    → one k v + held k (erase i m) ≡ held k m
unfolding lookup erase
held-erase_unique k i v [] u h = cc
held-erase_unique k i v ((j, w) ∷ m) (a, u) h = elim (Bool-cases (id_key.same i j)) [
  | inl e ↦
      let gone = erase_absent i m (ap (λ x. lookup x m) ((id_key.exact i j).0 e) ∙ a) in
      ground (arith, gone)
  | inr e ↦ ground (arith, held-erase_unique k i v m u)
]

module _ {S T : Type 0} where
  -- The ids that wait were issued, with room for more, and are different from each other.
  abbrev pub Whole : Client S T → Type 0
  Whole c = Inv c × IsUnique c.pending_client_requests

  abbrev pub Conserves : Client S T → Client S T → Type 0
  Conserves c d = Whole c → Whole d × ((k : ℕ) → tally k d ≡ tally k c)

  pub Conserves-trans : (a b c : Client S T) → Conserves a b → Conserves b c → Conserves a c
  Conserves-trans a b c f g w = let (v, e) = f w in let (u, h) = g v in (u, λ k. h k ∙ e k)

  -- What neither takes a message nor touches the calls that wait.
  abbrev pub Untouched : Client S T → Client S T → Type 0
  Untouched c d =
      (d.pending_client_requests ≡ c.pending_client_requests) × ((k : ℕ) → tally k d ≡ tally k c)

  untouched : (c d : Client S T) → Keeps c d → Untouched c d → Conserves c d
  untouched c d keeps (p, e) (v, u) = ((keeps v, subst IsUnique (sym p) u), e)

  pub send_leftover-Conserves : Does Conserves send_leftover
  send_leftover-Conserves c =
      untouched c _ (send_leftover-Keeps c)
        (unfold send_leftover send_payload in (ground arith, λ k. ground arith))

  pub poll_transport_tx-Conserves : Does Conserves poll_transport_tx
  poll_transport_tx-Conserves c =
      untouched c _ (poll_transport_tx-Keeps c)
        (unfold poll_transport_tx in (ground arith, λ k. ground arith))

  pub close_transport-Conserves : Does Conserves close_transport
  close_transport-Conserves c =
      untouched c _ (close_transport-Keeps c)
        (unfold close_transport finish in (ground arith, λ k. ground arith))

  pub poll_server-Conserves : (server : ServerHandler S T) → Does Conserves (poll_server server)
  poll_server-Conserves server c =
      untouched c _ (poll_server-Keeps server c)
        (unfold poll_server in (ground arith, λ k. ground arith))

  complete_call-unknown :
      (id : RequestId) (r : Result Value ErrorKind) (c : Client S T)
      → lookup id c.pending_client_requests ≡ none
      → complete_call (id, r) c ≡ c
  unfolding complete_call
  complete_call-unknown id r c e = ground arith

  complete_call-known :
      (id : RequestId) (r : Result Value ErrorKind) (c : Client S T) (v : ℕ)
      → lookup id c.pending_client_requests ≡ some v
      → complete_call (id, r) c ≡ record c {
        pending_client_requests = erase id c.pending_client_requests;
        completed = (v, r) ∷ c.completed;
      }
  unfolding complete_call
  complete_call-known id r c v e = ground arith

  complete_call-Conserves :
      (id : RequestId) (r : Result Value ErrorKind) (c : Client S T)
      → IsUnique c.pending_client_requests
      → IsUnique (complete_call (id, r) c).pending_client_requests
        × ((k : ℕ) → tally k (complete_call (id, r) c) ≡ tally k c)
  complete_call-Conserves id r c u = elim (Option-cases (lookup id c.pending_client_requests)) [
    | inl e ↦ rw (complete_call-unknown id r c e) (u, λ k. refl)
    | inr (v, e) ↦ rw (complete_call-known id r c v e) (
      erase-IsUnique id c.pending_client_requests u,
      λ k. omega (arith, held-erase_unique k id v c.pending_client_requests u e),
    )
  ]

  pub on_message-Conserves :
      (server : ServerHandler S T) (m : Result IncomingMessage ErrorKind)
      → Does Conserves (on_message server m)
  on_message-Conserves server (ok (request req)) c w =
      untouched c _ (on_message-Keeps server (ok (request req)) c)
        (unfold process_request in (refl, λ k. refl)) w
  on_message-Conserves server (ok (response o)) c w =
      let (v, u) = w in
      let keeps = on_message-Keeps server (ok (response o)) c v in
      let (uniq, same) = complete_call-Conserves (outcome o).0 (outcome o).1 c u in
      unfold handle_response in ((keeps, ground (arith, uniq)), λ k. ground (arith, same k))
  on_message-Conserves server (err e) c w = (w, λ k. refl)
