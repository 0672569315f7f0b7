-- ===== src/Core/Handle/Settled.antt =====
-- Calls through a `ClientHandle` of core/src/lib.rs when the client is gone.
use jsonrpc_client_rs.Base.{
  ℕ, String, ◌+◌, ◌<◌, ◌≤◌, ◌≡◌, ◌⊎◌, inl, inr, refl, ◌∙◌, Option, none, some, List, [], ◌∷◌,
  length, nat_key, Option-cases, arith,
}
use jsonrpc_client_rs.Base.Action.{Result, ok, err}
use jsonrpc_client_rs.Base.Assoc.{lookup}
use jsonrpc_client_rs.Poll.{Answer, Fut, now, outcome}
use jsonrpc_client_rs.Core.Types.{Value, Params, ErrorKind, shutdown}
use jsonrpc_client_rs.Core.IdGenerator.{u64_mod}
use jsonrpc_client_rs.Core.Serialize.{Serde, serialize_parameters}
use jsonrpc_client_rs.Core.Client.{OutgoingMessage, rpc_call, ServerHandler, TransportTx}
use jsonrpc_client_rs.Core.Client.Send.{new_with_server}
use jsonrpc_client_rs.Core.Client.Drive.{polls}
use jsonrpc_client_rs.Core.Client.Tally.{in_queue, queued, held, answered}
use jsonrpc_client_rs.Core.Client.Conserved.{calls_conserved}
use jsonrpc_client_rs.Core.Handle.{call_method}
use jsonrpc_client_rs.Core.Handle.Calls.{resolved_to, call_method_lem}

-- The receiving end of a oneshot channel whose sender is gone: what was sent, or `Canceled`.
unfoldable pub settled : {R : Type 0} → ℕ → List (ℕ × R) → Fut R (Unit {0})
settled tx answers = elim (lookup tx answers) [ some r ↦ now (ok r) | none ↦ now (err tt) ]

settled_sent :
    {R : Type 0} (tx : ℕ) (l : List (ℕ × R)) (r : R)
    → lookup tx l ≡ some r
    → outcome (settled tx l) ≡ some (ok r)
unfolding settled outcome
settled_sent tx l r e = ground arith

settled_dropped :
    {R : Type 0} (tx : ℕ) (l : List (ℕ × R))
    → lookup tx l ≡ none
    → outcome (settled tx l) ≡ some (err tt)
unfolding settled outcome
settled_dropped tx l e = ground arith

answered_absent : {R : Type 0} (k : ℕ) (l : List (ℕ × R)) → lookup k l ≡ none → answered k l ≡ 0
unfolding lookup
answered_absent k [] h = refl
answered_absent k ((v, r) ∷ l) h = ground (arith, answered_absent k l)

answered_present :
    {R : Type 0} (k : ℕ) (l : List (ℕ × R)) (r : R) → lookup k l ≡ some r → 1 ≤ answered k l
unfolding lookup
answered_present k [] r h = cc
answered_present k ((v, q) ∷ l) r h = ground (arith, answered_present k l r)

module _ {A : Type 0} (from_value : Value → Option A)
    (send : OutgoingMessage → Fut (Unit {0}) (Unit {0})) where
  pub settled_call :
      (method : String) (parameters : Option Value) (p : Option Params) (tx : ℕ)
      (l : List (ℕ × Result Value ErrorKind))
      → serialize_parameters parameters ≡ ok p
      → outcome (send (rpc_call method p tx)) ≡ some (ok tt)
      → ((r : Result Value ErrorKind) × (lookup tx l ≡ some r)
          × (outcome (call_method from_value send method parameters tx (settled tx l))
              ≡ resolved_to from_value send r))
        ⊎ ((lookup tx l ≡ none)
            × (outcome (call_method from_value send method parameters tx (settled tx l))
                ≡ some (err shutdown)))
  settled_call method parameters p tx l h s =
      let lem = call_method_lem from_value send method parameters tx (settled tx l) p h in
      elim (Option-cases (lookup tx l)) [
        | inl e ↦ inr (e, lem ∙ rw (s, settled_dropped tx l e) refl)
        | inr (ok v, e) ↦ inl (ok v, e, lem ∙ rw (s, settled_sent tx l (ok v) e) refl)
        | inr (err x, e) ↦ inl (err x, e, lem ∙ rw (s, settled_sent tx l (err x) e) refl)
      ]

  -- A call whose parameters are written, whose message the channel to the client takes, and whose
  -- completion channel stands once in the channels of a new client, which hold fewer than 2 ^ 64
  -- - 1 answers in all, does not hang when the client is dropped after any number of polls:
  -- either it was answered, exactly once, and its future resolves to what that answer says, or it
  -- was still queued or waiting for a response, and its future fails with Shutdown.
  pub call_settled :
      {S T : Type 0} (serde : Serde) (server : ServerHandler S T)
      (strong weak : List (Answer OutgoingMessage)) (sink : TransportTx) (rx : List (Answer String))
      (s : S) (t : T) (method : String) (parameters : Option Value) (p : Option Params) (tx n : ℕ)
      → length strong + length weak + 1 < u64_mod
      → queued tx strong + queued tx weak ≡ 1
      → serialize_parameters parameters ≡ ok p
      → outcome (send (rpc_call method p tx)) ≡ some (ok tt)
      → let d = polls serde server n (new_with_server strong weak sink rx s t) in
        let f =
          outcome (call_method from_value send method parameters tx (settled tx d.completed)) in
        ((r : Result Value ErrorKind) × (lookup tx d.completed ≡ some r)
          × (answered tx d.completed ≡ 1)
          × (f ≡ resolved_to from_value send r))
        ⊎ ((in_queue tx d.outgoing_payload_rx + held tx d.pending_client_requests ≡ 1)
            × (f ≡ some (err shutdown)))
  call_settled serde server strong weak sink rx s t method parameters p tx n room once h sends =
      let d = polls serde server n (new_with_server strong weak sink rx s t) in
      let total = calls_conserved serde server strong weak sink rx s t tx n room in
      elim (settled_call method parameters p tx d.completed h sends) [
        | inl (r, e, f) ↦
            inl (r, e, omega (arith, total, once, answered_present tx d.completed r e), f)
        | inr (e, f) ↦ inr (omega (arith, total, once, answered_absent tx d.completed e), f)
      ]
