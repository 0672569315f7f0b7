-- ===== src/Core/Handle/Calls.antt =====
-- Calls through a `ClientHandle` of core/src/lib.rs.
use jsonrpc_client_rs.Base.{
  ℕ, String, ◌≡◌, ◌≢◌, refl, sym, ◌∙◌, ◌⊎◌, ◌↔◌, Option, none, some, true, List, ◌∷◌, arith,
  nat_key, ==_self, inl, inr,
}
use jsonrpc_client_rs.Base.Action.{Result, ok, err, Result-cases}
use jsonrpc_client_rs.Base.Assoc.{lookup}
use jsonrpc_client_rs.Poll.{Fut, now, later, never, then_fut, map_err_fut, outcome}
use jsonrpc_client_rs.Core.Types.{
  Value, Params, RequestId, Output, ErrorKind, shutdown, deserialize_error,
}
use jsonrpc_client_rs.Core.IdGenerator.{IdGenerator, next}
use jsonrpc_client_rs.Core.Serialize.{Serde, serialize_parameters, serialize_method_request, or_err}
use jsonrpc_client_rs.Core.Client.{Client, OutgoingMessage, rpc_call}
use jsonrpc_client_rs.Core.Client.Incoming.{
  version, is_v2, outcome as output_outcome, handle_response,
}
use jsonrpc_client_rs.Core.Client.Outgoing.{handle_client_payload}
use jsonrpc_client_rs.Core.Client.Calls.{call_answered}
use jsonrpc_client_rs.Core.Handle.{call_method, send_client_call}

-- What a call comes to once its message is sent, by what the channel and the oneshot channel do.
module _ {A B : Type 0} (read : A → Result B ErrorKind) where
  abbrev pub received :
      Option (Result (Result A ErrorKind) (Unit {0})) → Option (Result B ErrorKind)
  received none = none
  received (some (err _)) = some (err shutdown)
  received (some (ok (err e))) = some (err e)
  received (some (ok (ok v))) = some (read v)

  abbrev pub sent :
      Option (Result (Unit {0}) (Unit {0}))
      → Option (Result B ErrorKind)
      → Option (Result B ErrorKind)
  sent none r = none
  sent (some (err _)) r = some (err shutdown)
  sent (some (ok _)) r = r

  received_lem :
      (rx : Fut (Result A ErrorKind) (Unit {0}))
      → outcome (then_fut (then_fut (map_err_fut (λ _. shutdown) rx) now) (λ r. now (read r)))
        ≡ received (outcome rx)
  unfolding outcome then_fut map_err_fut
  received_lem (now (ok (ok v))) = refl
  received_lem (now (ok (err e))) = refl
  received_lem (now (err e)) = refl
  received_lem (later rx) = received_lem rx
  received_lem never = refl

  pub sent_lem :
      (s : Fut (Unit {0}) (Unit {0})) (rx : Fut (Result A ErrorKind) (Unit {0}))
      → outcome (
          then_fut
            (then_fut
              (map_err_fut (λ _. shutdown) s)
              λ _. then_fut (map_err_fut (λ _. shutdown) rx) now)
            λ r. now (read r))
        ≡ sent (outcome s) (received (outcome rx))
  unfolding outcome then_fut map_err_fut
  sent_lem (now (ok _)) rx = received_lem rx
  sent_lem (now (err _)) rx = refl
  sent_lem (later s) rx = sent_lem s rx
  sent_lem never rx = refl

module _ {A : Type 0} (from_value : Value → Option A)
    (send : OutgoingMessage → Fut (Unit {0}) (Unit {0})) where
  abbrev pub read : Value → Result A ErrorKind
  read v = or_err deserialize_error (from_value v)

  pub call_method_lem :
      (method : String) (parameters : Option Value) (tx : ℕ)
      (rx : Fut (Result Value ErrorKind) (Unit {0})) (p : Option Params)
      → serialize_parameters parameters ≡ ok p
      → outcome (call_method from_value send method parameters tx rx)
        ≡ sent read (outcome (send (rpc_call method p tx))) (received read (outcome rx))
  unfolding call_method send_client_call then_fut
  call_method_lem method parameters tx rx p h =
      rw h (sent_lem read (send (rpc_call method p tx)) rx)

  sent_ok :
      (s : Option (Result (Unit {0}) (Unit {0})))
      (r : Option (Result (Result Value ErrorKind) (Unit {0}))) (a : A)
      → sent read s (received read r) ≡ some (ok a)
      → (s ≡ some (ok tt)) × ((v : Value) × (r ≡ some (ok (ok v))) × (from_value v ≡ some a))
  sent_ok none r a h = cc
  sent_ok (some (err _)) r a h = cc
  sent_ok (some (ok _)) none a h = cc
  sent_ok (some (ok _)) (some (err _)) a h = cc
  sent_ok (some (ok _)) (some (ok (err e))) a h = cc
  sent_ok (some (ok _)) (some (ok (ok v))) a h = (refl, (v, refl, ground arith))

  unwritten :
      (method : String) (parameters : Option Value) (tx : ℕ)
      (rx : Fut (Result Value ErrorKind) (Unit {0})) (e : ErrorKind)
      → serialize_parameters parameters ≡ err e
      → outcome (call_method from_value send method parameters tx rx) ≡ some (err e)
  unfolding call_method then_fut outcome
  unwritten method parameters tx rx e h = rw h refl

  -- A call gives a value exactly if its parameters are written, the channel takes the call with
  -- them, a result comes back through the oneshot channel, and that is read as the value.
  pub call_method_ok :
      (method : String) (parameters : Option Value) (tx : ℕ)
      (rx : Fut (Result Value ErrorKind) (Unit {0})) (a : A)
      → (outcome (call_method from_value send method parameters tx rx) ≡ some (ok a)) ↔ (
          (p : Option Params) × (serialize_parameters parameters ≡ ok p)
          × (outcome (send (rpc_call method p tx)) ≡ some (ok tt))
          × ((v : Value) × (outcome rx ≡ some (ok (ok v))) × (from_value v ≡ some a)))
  call_method_ok method parameters tx rx a = elim (Result-cases (serialize_parameters parameters)) [
    | inl (p, h) ↦
        let lem = call_method_lem method parameters tx rx p h in
        (
          λ q.
              let (s, given) =
                sent_ok (outcome (send (rpc_call method p tx))) (outcome rx) a (sym lem ∙ q) in
              (p, h, s, given),
          λ (p', h', s, (v, r, f)).
              call_method_lem method parameters tx rx p' h' ∙ rw (s, r) (rw f refl),
        )
    | inr (e, h) ↦
        (λ q. cc (q, unwritten method parameters tx rx e h), λ (p', h', _, _). cc (h, h'))
  ]

  -- A call whose parameters are written ends in Shutdown if the channel refuses it, or takes it
  -- and the other end of the oneshot channel goes, and in the error that comes back if the
  -- channel takes it and one does.
  pub call_method_fails :
      (method : String) (parameters : Option Value) (tx : ℕ)
      (rx : Fut (Result Value ErrorKind) (Unit {0})) (p : Option Params) (e : ErrorKind)
      → serialize_parameters parameters ≡ ok p
      → ((outcome (send (rpc_call method p tx)) ≡ some (err tt)) × (e ≡ shutdown))
        ⊎ ((outcome (send (rpc_call method p tx)) ≡ some (ok tt))
            × (((outcome rx ≡ some (err tt)) × (e ≡ shutdown)) ⊎ (outcome rx ≡ some (ok (err e)))))
      → outcome (call_method from_value send method parameters tx rx) ≡ some (err e)
  call_method_fails method parameters tx rx p e h g =
      ground (arith, call_method_lem method parameters tx rx p h)

-- The receiving end of a oneshot channel, by what the client sent into such channels.
unfoldable pub reply_to : {R : Type 0} → ℕ → List (ℕ × R) → Fut R (Unit {0})
reply_to tx answers = elim (lookup tx answers) [ some r ↦ now (ok r) | none ↦ never ]

pub replied :
    {R : Type 0} (tx : ℕ) (r : R) (l rest : List (ℕ × R))
    → l ≡ (tx, r) ∷ rest
    → outcome (reply_to tx l) ≡ some (ok r)
unfolding reply_to lookup outcome
replied tx r l rest h = ground (arith, h, ==_self tx)

-- What a call comes to that was sent, and whose oneshot channel a result was put into.
module _ {A : Type 0} (from_value : Value → Option A)
    (send : OutgoingMessage → Fut (Unit {0}) (Unit {0})) where
  abbrev pub resolved_to : Result Value ErrorKind → Option (Result A ErrorKind)
  resolved_to (ok v) = some (or_err deserialize_error (from_value v))
  resolved_to (err e) = some (err e)

  pub call_method-replied :
      (method : String) (parameters : Option Value) (p : Option Params) (tx : ℕ)
      (result : Result Value ErrorKind) (l rest : List (ℕ × Result Value ErrorKind))
      → serialize_parameters parameters ≡ ok p
      → outcome (send (rpc_call method p tx)) ≡ some (ok tt)
      → l ≡ (tx, result) ∷ rest
      → outcome (call_method from_value send method parameters tx (reply_to tx l))
        ≡ resolved_to result
  call_method-replied method parameters p tx result l rest h s e =
      call_method_lem from_value send method parameters tx (reply_to tx l) p h
      ∙ rw (s, replied tx result l rest e) (by_result result)
    where
      by_result :
          (r : Result Value ErrorKind)
          → sent
              (read from_value send)
              (some (ok tt))
              (received (read from_value send) (some (ok r)))
            ≡ resolved_to r
      by_result (ok v) = refl
      by_result (err x) = refl

null_next : (g : IdGenerator) → RequestId.null ≢ (next g).0
unfolding next
null_next g e = cc

module _ {S T A : Type 0} (serde : Serde) (from_value : Value → Option A)
    (send : OutgoingMessage → Fut (Unit {0}) (Unit {0})) where
  -- If the parameters of a call are written, the channel takes the call, serde writes it, and a
  -- response of version 2.0 with its id comes in after the client handled it, then the future of
  -- the call resolves to what the response says: the result as serde reads it, or the error of
  -- the peer.
  pub call_round_trip :
      (c : Client S T) (method : String) (parameters : Option Value) (p : Option Params) (tx : ℕ)
      (payload : String) (output : Output) (result : Result Value ErrorKind)
      → serialize_parameters parameters ≡ ok p
      → outcome (send (rpc_call method p tx)) ≡ some (ok tt)
      → serialize_method_request serde (next c.id_generator).0 method p ≡ ok payload
      → is_v2 (version output) ≡ true
      → output_outcome output ≡ ((next c.id_generator).0, result)
      → let d = (handle_client_payload serde (rpc_call method p tx) c).1 in
        let e = (handle_response output d).1 in
        outcome (call_method from_value send method parameters tx (reply_to tx e.completed))
        ≡ resolved_to from_value send result
  call_round_trip c method parameters p tx payload output result h s w v o =
      let d = (handle_client_payload serde (rpc_call method p tx) c).1 in
      let e = (handle_response output d).1 in
      let (answer, _, _) =
        call_answered serde c method p tx payload output result RequestId.null w v o
          (null_next c.id_generator) in
      call_method-replied from_value send method parameters p tx result e.completed c.completed h s
        answer
