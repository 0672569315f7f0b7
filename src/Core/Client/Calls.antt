-- ===== src/Core/Client/Calls.antt =====
-- A call and its response: `handle_client_payload` and `handle_response` of core/src/lib.rs.
use jsonrpc_client_rs.Base.{
  ℕ, String, ◌≡◌, refl, ◌≢◌, Option, none, some, ◌∷◌, true, arith, ap, ◌∙◌,
}
use jsonrpc_client_rs.Base.Action.{Result, ok}
use jsonrpc_client_rs.Base.Assoc.{
  lookup, insert, erase, lookup-insert_self, lookup-insert_ne, lookup-erase_self, lookup-erase_ne,
}
use jsonrpc_client_rs.Core.Types.{Value, Params, RequestId, id_key, ErrorKind, Output}
use jsonrpc_client_rs.Core.IdGenerator.{next}
use jsonrpc_client_rs.Core.Serialize.{Serde, serialize_method_request}
use jsonrpc_client_rs.Core.Client.{Client, rpc_call}
use jsonrpc_client_rs.Core.Client.Send.{send_payload, add_new_call}
use jsonrpc_client_rs.Core.Client.Incoming.{complete_call, handle_response, version, is_v2, outcome}
use jsonrpc_client_rs.Core.Client.Outgoing.{issue_call, handle_client_payload}

module _ {S T : Type 0} where
  abbrev forget : RequestId → ℕ → Result Value ErrorKind → Client S T → Client S T
  forget id chan result c = record c {
    pending_client_requests = erase id c.pending_client_requests;
    completed = (chan, result) ∷ c.completed;
  }

  handle_response_hit :
      (c : Client S T) (output : Output) (id : RequestId) (chan : ℕ)
      (result : Result Value ErrorKind)
      → is_v2 (version output) ≡ true
      → outcome output ≡ (id, result)
      → lookup id c.pending_client_requests ≡ some chan
      → handle_response output c ≡ (ok tt, forget id chan result c)
  unfolding handle_response complete_call
  handle_response_hit c output id chan result v o h = rw (v, o) (rw (h, complete_call))

  handle_response_miss :
      (c : Client S T) (output : Output) (id : RequestId) (result : Result Value ErrorKind)
      → is_v2 (version output) ≡ true
      → outcome output ≡ (id, result)
      → lookup id c.pending_client_requests ≡ none
      → handle_response output c ≡ (ok tt, c)
  unfolding handle_response complete_call
  handle_response_miss c output id result v o h = rw (v, o) (rw (h, complete_call))

  -- A response of version 2.0 to a call that waits answers its completion channel and forgets the
  -- call; the same response again succeeds and changes nothing, and the other pending calls wait
  -- on.
  pub handle_response_twice :
      (c : Client S T) (output : Output) (id j : RequestId) (chan : ℕ)
      (result : Result Value ErrorKind)
      → is_v2 (version output) ≡ true
      → outcome output ≡ (id, result)
      → lookup id c.pending_client_requests ≡ some chan
      → j ≢ id
      → let (r, d) = handle_response output c in
        (r ≡ ok tt)
        × (d.completed ≡ (chan, result) ∷ c.completed)
        × (lookup id d.pending_client_requests ≡ none)
        × (lookup j d.pending_client_requests ≡ lookup j c.pending_client_requests)
        × (handle_response output d ≡ (ok tt, d))
  handle_response_twice c output id j chan result v o h ne =
      rw (handle_response_hit c output id chan result v o h) (
        refl,
        refl,
        lookup-erase_self id c.pending_client_requests,
        lookup-erase_ne j id c.pending_client_requests ne,
        handle_response_miss (forget id chan result c) output id result v o
            (lookup-erase_self id c.pending_client_requests),
      )

  issue_pending :
      (serde : Serde) (c : Client S T) (method : String) (p : Option Params) (chan : ℕ)
      (payload : String)
      → serialize_method_request serde (next c.id_generator).0 method p ≡ ok payload
      → let d = (handle_client_payload serde (rpc_call method p chan) c).1 in
        (d.pending_client_requests ≡ insert (next c.id_generator).0 chan c.pending_client_requests)
        × (d.completed ≡ c.completed)
  unfolding handle_client_payload issue_call send_payload add_new_call next
  issue_pending serde c method p chan payload h = ground arith

  -- If serde writes the call, then after the call was issued the response of version 2.0 with its
  -- id answers its completion channel with the result of that response, forgets the call, and
  -- leaves the other pending calls alone, whether or not the transport took the call at once.
  pub call_answered :
      (serde : Serde) (c : Client S T) (method : String) (p : Option Params) (chan : ℕ)
      (payload : String) (output : Output) (result : Result Value ErrorKind) (j : RequestId)
      → serialize_method_request serde (next c.id_generator).0 method p ≡ ok payload
      → is_v2 (version output) ≡ true
      → outcome output ≡ ((next c.id_generator).0, result)
      → j ≢ (next c.id_generator).0
      → let d = (handle_client_payload serde (rpc_call method p chan) c).1 in
        let e = (handle_response output d).1 in
        (e.completed ≡ (chan, result) ∷ c.completed)
        × (lookup (next c.id_generator).0 e.pending_client_requests ≡ none)
        × (lookup j e.pending_client_requests ≡ lookup j c.pending_client_requests)
  call_answered serde c method p chan payload output result j h v o ne =
      let id = (next c.id_generator).0 in
      let d = (handle_client_payload serde (rpc_call method p chan) c).1 in
      let (registered, silent) = issue_pending serde c method p chan payload h in
      let found : lookup id d.pending_client_requests ≡ some chan =
        rw registered (lookup-insert_self id chan c.pending_client_requests) in
      let (_, answer, gone, others, _) =
        handle_response_twice d output id j chan result v o found ne in
      (
        answer ∙ ap (◌∷◌ (chan, result)) silent,
        gone,
        others ∙ rw registered (lookup-insert_ne j id chan c.pending_client_requests ne),
      )
