-- ===== src/Http/Exchange.antt =====
-- A request from `HttpHandle::send_fut` of http/src/lib.rs to the event loop and back.
use jsonrpc_client_rs.Base.{
  ℕ, ◌≡◌, refl, Option, none, some, List, ◌∷◌, arith, nat_key, string_key, ==_self,
}
use jsonrpc_client_rs.Base.Action.{Result, ok, err}
use jsonrpc_client_rs.Base.Assoc.{lookup}
use jsonrpc_client_rs.Poll.{Fut, now, never, then_fut, map_err_fut, outcome}
use jsonrpc_client_rs.Http.{ErrorKind}
use jsonrpc_client_rs.Http.Processing.{Hyper, respond, process}
use jsonrpc_client_rs.Http.Handle.{Bytes, Headers, Request, HttpHandle, create_request, send_fut}

-- The receiving end of the oneshot channel of a request, by what the event loop sent.
unfoldable pub response_to :
    {B : Type 0} → ℕ → List (ℕ × Result B ErrorKind) → Fut (Result B ErrorKind) (Unit {0})
response_to tx answers = elim (lookup tx answers) [ some r ↦ now (ok r) | none ↦ never ]

module _ {H P : Type 0} (headers : Headers H) (hyper : Hyper (Request H) P Bytes) where
  process_first :
      (timeout : Option ℕ) (request : Request H) (tx : ℕ) (rest : List (Request H × ℕ))
      → lookup tx (process hyper timeout ((request, tx) ∷ rest))
        ≡ outcome (respond hyper timeout request)
  unfolding process lookup
  process_first timeout request tx rest = ground (arith, ==_self tx)

  abbrev reply : Option (Result Bytes ErrorKind) → Fut (Result Bytes ErrorKind) (Unit {0})
  reply none = never
  reply (some r) = now (ok r)

  response_to_lem :
      (tx : ℕ) (l : List (ℕ × Result Bytes ErrorKind)) (o : Option (Result Bytes ErrorKind))
      → lookup tx l ≡ o
      → response_to tx l ≡ reply o
  unfolding response_to
  response_to_lem tx l none e = ground arith
  response_to_lem tx l (some r) e = ground arith

  received :
      (g : Unit {0} → ErrorKind) (tx : ℕ) (l : List (ℕ × Result Bytes ErrorKind))
      (o : Option (Result Bytes ErrorKind))
      → lookup tx l ≡ o
      → outcome (then_fut (map_err_fut g (response_to tx l)) now) ≡ o
  unfolding outcome then_fut map_err_fut
  received g tx l none e = rw (response_to_lem tx l none e) refl
  received g tx l (some (ok b)) e = rw (response_to_lem tx l (some (ok b)) e) refl
  received g tx l (some (err x)) e = rw (response_to_lem tx l (some (err x)) e) refl

  -- If the event loop takes the request that a handle makes of a body, and has no request in
  -- front of it, the future of send_fut resolves exactly as that request does at the event loop,
  -- whatever requests follow, and never if it never does.
  pub send_fut-process :
      (h : HttpHandle H) (json_data : Bytes) (timeout : Option ℕ) (tx : ℕ)
      (rest : List (Request H × ℕ)) (send : Request H → Result (Unit {0}) (Unit {0}))
      → send (create_request headers h json_data) ≡ ok tt
      → let request = create_request headers h json_data in
        let answers = process hyper timeout ((request, tx) ∷ rest) in
        outcome (send_fut headers send h json_data (response_to tx answers))
        ≡ outcome (respond hyper timeout request)
  unfolding send_fut then_fut map_err_fut
  send_fut-process h json_data timeout tx rest send e =
      let request = create_request headers h json_data in
      rw e (
        received _ tx (process hyper timeout ((request, tx) ∷ rest))
          (outcome (respond hyper timeout request)) (process_first timeout request tx rest))
