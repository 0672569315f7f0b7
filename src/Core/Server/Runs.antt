-- ===== src/Core/Server/Runs.antt =====
-- The server over any sequence of polls and incoming requests.
use jsonrpc_client_rs.Base.{
  ℕ, ◌+◌, ◌≤◌, ◌<◌, ◌≡◌, refl, ap, ◌∙◌, Bool, List, [], ◌∷◌, length, arith,
}
use jsonrpc_client_rs.Base.Action.{Result, ok, err}
use jsonrpc_client_rs.Core.Types.{Request, ErrorKind}
use jsonrpc_client_rs.Core.IdGenerator.{IdGenerator, u64_mod}
use jsonrpc_client_rs.Core.IdGenerator
use jsonrpc_client_rs.Core.Server.Drivable.{
  Driven, waits, finishes, fails, Channel, poll_call, driveable_future,
}
use jsonrpc_client_rs.Core.Server.State.{
  Server, Event, new, push_future, drain_handler_chan, poll_futures, settle, poll, enqueue,
  process_request,
}
use jsonrpc_client_rs.Core.Server.Driving.{
  drain_handler_chan-SameFutures, Inv, poll-Inv, process_request-Inv,
}

-- What happens to a server: it is polled, or a request comes in with the sender for its response.
pub data Input (T : Type 0) : Type 0 where
  polled : Input T
  requested : Request → T → Input T

module _ {T : Type 0} (chan : Channel T) where
  -- The server behind a sequence of inputs, the last of which stands in front.
  unfoldable pub run : List (Input T) → Server T → Server T
  run [] s = s
  run (polled ∷ inputs) s = (poll chan (run inputs s)).1
  run (requested req sink ∷ inputs) s = (process_request chan req sink (run inputs s)).1

  settle-id :
      (p : Result (List (ℕ × Bool)) ErrorKind) (s : Server T)
      → (settle chan p s).1.id_generator ≡ s.id_generator
  settle-id (ok l) s = refl
  settle-id (err e) s = refl

  poll-id : (s : Server T) → (poll chan s).1.id_generator ≡ s.id_generator
  unfolding poll
  poll-id s =
      let d = drain_handler_chan s in
      let (_, g, _) = drain_handler_chan-SameFutures s in
      settle-id (poll_futures chan d.pending_futures).polled _ ∙ g

  enqueue-id :
      (d : Driven T) (s : Server T)
      → s.id_generator.next_id + 1 < u64_mod
      → let n = (enqueue chan d s).id_generator.next_id in
        (s.id_generator.next_id ≤ n) × (n ≤ s.id_generator.next_id + 1)
  unfolding push_future
  enqueue-id (waits f) s h = (omega arith, omega arith)
  enqueue-id (finishes r) s h = (omega arith, omega arith)
  enqueue-id (fails e) s h = (omega arith, omega arith)

  process_request-id :
      (req : Request) (sink : T) (s : Server T)
      → s.id_generator.next_id + 1 < u64_mod
      → let n = (process_request chan req sink s).1.id_generator.next_id in
        (s.id_generator.next_id ≤ n) × (n ≤ s.id_generator.next_id + 1)
  unfolding process_request
  process_request-id req sink s h =
      enqueue-id (poll_call chan (driveable_future chan s.handler_map req sink)) s h

  -- The keys rise, and each input issued at most one.
  abbrev Counted : ℕ → Server T → Type 0
  Counted k s = Inv s × (1 ≤ s.id_generator.next_id) × (s.id_generator.next_id ≤ k + 1)

  new-Counted : (events : List Event) → Counted 0 (new events)
  unfolding new IdGenerator.new
  new-Counted events = (tt, omega arith, omega arith)

  run-Counted :
      (inputs : List (Input T)) (events : List Event)
      → length inputs + 1 < u64_mod
      → Counted (length inputs) (run inputs (new events))
  unfolding run
  run-Counted [] events h = new-Counted events
  run-Counted (polled ∷ inputs) events h =
      let (v, low, high) = run-Counted inputs events (omega arith) in
      let s = run inputs (new events) in
      let same = ap (λ g. g.next_id) (poll-id s) in
      (poll-Inv chan s v, omega (arith, same), omega (arith, same))
  run-Counted (requested req sink ∷ inputs) events h =
      let (v, low, high) = run-Counted inputs events (omega arith) in
      let s = run inputs (new events) in
      let (above, below) = process_request-id req sink s (omega arith) in
      (process_request-Inv chan req sink s v low (omega arith), omega arith, omega arith)

  -- After any sequence of polls and incoming requests, fewer than 2 ^ 64 - 1 in all, the keys of
  -- the pending futures of a new server rise and are below the next key, whatever the messages of
  -- its handles, the handlers and the channel do.
  pub run-Inv :
      (inputs : List (Input T)) (events : List Event)
      → length inputs + 1 < u64_mod
      → Inv (run inputs (new events))
  run-Inv inputs events h = (run-Counted inputs events h).0
