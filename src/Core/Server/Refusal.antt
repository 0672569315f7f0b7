-- ===== src/Core/Server/Refusal.antt =====
-- A request whose future fails at its first poll, and the poll of the server that returns the error.
use jsonrpc_client_rs.Base.{
  ℕ, ◌+◌, ◌≤◌, ◌<◌, ◌≡◌, refl, ◌∙◌, ap, none, some, [], ◌∷◌, nat_key, arith,
}
use jsonrpc_client_rs.Base.Action.{ok, err}
use jsonrpc_client_rs.Base.Assoc.{Assoc, insert}
use jsonrpc_client_rs.Core.Types.{Request, ErrorKind}
use jsonrpc_client_rs.Core.IdGenerator.{u64_mod}
use jsonrpc_client_rs.Core.Server.Drivable.{
  DrivableCall, failing, fails, Channel, poll_call, driveable_future,
}
use jsonrpc_client_rs.Core.Server.State.{Server, push_future, poll, process_request}
use jsonrpc_client_rs.Core.Server.Pending.{Rising, first_error}
use jsonrpc_client_rs.Core.Server.Driving.{Inv, answer, poll_answer, process_request-Inv}

module _ {T : Type 0} where
  first_error-insert :
      (chan : Channel T) (lo hi : ℕ) (e : ErrorKind) (m : Assoc ℕ (DrivableCall T))
      → Rising lo hi m
      → first_error chan m ≡ none
      → first_error chan (insert hi (failing e) m) ≡ some e
  unfolding first_error insert poll_call
  first_error-insert chan lo hi e [] v h = refl
  first_error-insert chan lo hi e ((key, f) ∷ m) v h =
      ground (arith, first_error-insert chan (key + 1) hi e m v.2)

  -- A request whose future fails at its first poll is accepted, and its error is what the next
  -- poll of the server returns, if the keys of the pending futures rise, none of them meets an
  -- error, and the key generator is at least 1 and does not wrap.
  pub process_request_error :
      (chan : Channel T) (req : Request) (sink : T) (s : Server T) (e : ErrorKind)
      → Inv s
      → 1 ≤ s.id_generator.next_id
      → s.id_generator.next_id + 1 < u64_mod
      → first_error chan s.pending_futures ≡ none
      → poll_call chan (driveable_future chan s.handler_map req sink) ≡ fails e
      → let (r, t) = process_request chan req sink s in (r ≡ ok tt) × ((poll chan t).0 ≡ err e)
  process_request_error chan req sink s e v low room calm h =
      let t = (process_request chan req sink s).1 in
      let pushed : t.pending_futures ≡ insert s.id_generator.next_id (failing e) s.pending_futures =
        unfold process_request push_future in rw h in
      (
        unfold process_request in refl,
        poll_answer chan t (process_request-Inv chan req sink s v low room)
            ∙ ap (answer chan) (
                ap (first_error chan) pushed
                ∙ first_error-insert chan 1 s.id_generator.next_id e s.pending_futures v calm),
      )
