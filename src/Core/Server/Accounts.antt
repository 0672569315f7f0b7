-- ===== src/Core/Server/Accounts.antt =====
-- Which responses the server of core/src/server.rs sends: `process_request` and its poll against what
-- the futures of the requests come to.
use jsonrpc_client_rs.Base.{
  ℕ, ◌+◌, ◌<◌, ◌≡◌, refl, sym, ap, none, List, [], ◌∷◌, ◌++◌, length, nat_key, Bool, arith, subst,
}
use jsonrpc_client_rs.Base.Action.{Result, ok, err}
use jsonrpc_client_rs.Base.Assoc.{Assoc, lookup, insert}
use jsonrpc_client_rs.Core.Types.{Response, Request, ErrorKind}
use jsonrpc_client_rs.Core.IdGenerator.{u64_mod}
use jsonrpc_client_rs.Core.Server.Drivable.{
  DrivableCall, failing, Driven, waits, finishes, fails, Channel, poll_call, driveable_future,
}
use jsonrpc_client_rs.Core.Server.State.{
  Server, Round, Event, new, push_future, drain_handler_chan, poll_futures, poll_entry, settle,
  poll, enqueue, process_request,
}
use jsonrpc_client_rs.Core.Server.Pending.{
  Rising, Matches, first_error, survivors, sent, sent_by, keep_waiting, round-Matches,
}
use jsonrpc_client_rs.Core.Server.Driving.{drain_handler_chan-SameFutures, Inv}
use jsonrpc_client_rs.Core.Server.Outcomes.{
  count, count-append, comes, brings, poll_call-brings, due,
}
use jsonrpc_client_rs.Core.Server.Runs.{Input, polled, requested, run, run-Inv}

Rising-next : {A : Type 0} (lo hi : ℕ) (m : Assoc ℕ A) → Rising lo hi m → lookup hi m ≡ none
unfolding lookup
Rising-next lo hi [] h = refl
Rising-next lo hi ((key, f) ∷ m) h = ground (arith, Rising-next (key + 1) hi m h.2)

module _ {T : Type 0} (chan : Channel T) where
  module _ (test : Response → Bool) where
    abbrev owes : Assoc ℕ (DrivableCall T) → ℕ
    owes m = count test (due chan m)

    owes-insert :
        (key : ℕ) (f : DrivableCall T) (m : Assoc ℕ (DrivableCall T))
        → lookup key m ≡ none
        → owes (insert key f m) ≡ count test (comes chan f) + owes m
    unfolding insert lookup
    owes-insert key f [] h = count-append test (comes chan f) []
    owes-insert key f ((k, g) ∷ m) h = ground (
      arith,
      owes-insert key f m,
      count-append test (comes chan f) (comes chan g ++ due chan m),
      count-append test (comes chan g) (due chan m),
      count-append test (comes chan g) (due chan (insert key f m)),
    )

    -- A round, and a round without an error once its ready futures are removed.
    poll_futures-owes :
        (m : Assoc ℕ (DrivableCall T))
        → let r = poll_futures chan m in count test r.out + owes r.futures ≡ owes m
    unfolding poll_futures
    poll_futures-owes [] = omega arith
    poll_futures-owes ((key, f) ∷ m) =
        entry (poll_call chan f) (poll_call-brings chan f) (poll_futures chan m)
          (poll_futures-owes m)
      where
        entry :
            (d : Driven T)
            → brings chan d ≡ comes chan f
            → (rest : Round T) → count test rest.out + owes rest.futures ≡ owes m
            → let r = poll_entry chan key d m rest in
              count test r.out + owes r.futures ≡ count test (comes chan f ++ due chan m)
        entry (waits g) y rest h = omega (
          arith,
          ap (count test) y,
          h,
          count-append test (comes chan g) (due chan rest.futures),
          count-append test (comes chan f) (due chan m),
        )
        entry (finishes r) y rest h = omega (
          arith,
          ap (count test) y,
          h,
          count-append test rest.out r,
          count-append test (comes chan f) (due chan m),
        )
        entry (fails e) y rest h =
            omega (arith, ap (count test) y, count-append test (comes chan f) (due chan m))

    survivors-owes :
        (m : Assoc ℕ (DrivableCall T)) → count test (sent chan m) + owes (survivors chan m) ≡ owes m
    unfolding sent survivors
    survivors-owes [] = omega arith
    survivors-owes ((key, f) ∷ m) =
        entry (poll_call chan f) (poll_call-brings chan f) (survivors-owes m)
      where
        entry :
            (d : Driven T)
            → brings chan d ≡ comes chan f
            → count test (sent chan m) + owes (survivors chan m) ≡ owes m
            → count test (sent chan m ++ sent_by d) + owes (keep_waiting key d (survivors chan m))
              ≡ count test (comes chan f ++ due chan m)
        entry (waits g) y h = omega (
          arith,
          ap (count test) y,
          h,
          count-append test (sent chan m) [],
          count-append test (comes chan g) (due chan (survivors chan m)),
          count-append test (comes chan f) (due chan m),
        )
        entry (finishes r) y h = omega (
          arith,
          ap (count test) y,
          h,
          count-append test (sent chan m) r,
          count-append test (comes chan f) (due chan m),
        )
        entry (fails e) y h = omega (
          arith,
          ap (count test) y,
          h,
          count-append test (sent chan m) [],
          count-append test (comes chan f) (due chan m),
        )

    -- The responses that went out and those that the pending futures come to.
    abbrev total : Server T → ℕ
    total s = count test s.delivered + owes s.pending_futures

    settle-total :
        (p : Result (List (ℕ × Bool)) ErrorKind) (s : Server T) (m : Assoc ℕ (DrivableCall T))
        (o more : List Response)
        → Matches 0 (first_error chan m) (survivors chan m) (sent chan m) p s.pending_futures o
        → s.delivered ≡ o ++ more
        → count test o + owes s.pending_futures ≡ owes m
        → total (settle chan p s).1 ≡ count test more + owes m
    settle-total (ok l) s m o more (_, _, left, out) d h = omega (
      arith,
      ap (count test) d,
      count-append test o more,
      ap (count test) out,
      ap owes left,
      survivors-owes m,
    )
    settle-total (err e) s m o more h d g =
        omega (arith, ap (count test) d, count-append test o more)

    poll-total : (s : Server T) → Inv s → total (poll chan s).1 ≡ total s
    unfolding poll
    poll-total s v =
        let d = drain_handler_chan s in
        let (p, g, o) = drain_handler_chan-SameFutures s in
        let r = poll_futures chan d.pending_futures in
        let rising = subst (Rising 1 s.id_generator.next_id) (sym p) v in
        omega (
          arith,
          settle-total r.polled
              (record d { pending_futures = r.futures; delivered = r.out ++ d.delivered })
              d.pending_futures r.out d.delivered
              (round-Matches chan 0 1 s.id_generator.next_id d.pending_futures (omega arith) rising)
              refl (poll_futures-owes d.pending_futures),
          ap owes p,
          ap (count test) o,
        )

    enqueue-total :
        (d : Driven T) (s : Server T)
        → Inv s
        → total (enqueue chan d s) ≡ count test (brings chan d) + total s
    unfolding push_future
    enqueue-total (waits f) s v = omega (
      arith,
      owes-insert s.id_generator.next_id f s.pending_futures
          (Rising-next 1 s.id_generator.next_id s.pending_futures v),
    )
    enqueue-total (fails e) s v = omega (
      arith,
      owes-insert s.id_generator.next_id (failing e) s.pending_futures
          (Rising-next 1 s.id_generator.next_id s.pending_futures v),
    )
    enqueue-total (finishes r) s v = omega (arith, count-append test r s.delivered)

    process_request-total :
        (req : Request) (sink : T) (s : Server T)
        → Inv s
        → total (process_request chan req sink s).1
          ≡ count test (comes chan (driveable_future chan s.handler_map req sink)) + total s
    unfolding process_request
    process_request-total req sink s v =
        let f = driveable_future chan s.handler_map req sink in
        omega
          (arith, enqueue-total (poll_call chan f) s v, ap (count test) (poll_call-brings chan f))

  -- The specification of a run: what the future of each request comes to, with the callbacks that
  -- are set when it comes in.
  unfoldable pub promised : List (Input T) → List Event → List Response
  promised [] events = []
  promised (polled ∷ inputs) events = promised inputs events
  promised (requested req sink ∷ inputs) events =
      comes chan (driveable_future chan (run chan inputs (new events)).handler_map req sink)
      ++ promised inputs events

  -- After any sequence of polls and incoming requests of a new server, fewer than 2 ^ 64 - 1 in
  -- all, whatever the messages of its handles, the handlers and the channel do, also when futures
  -- fail: for each test on responses, as many of the responses that were sent and those that the
  -- pending futures come to when they are driven to their end pass it as of the responses that
  -- the futures of the requests come to, each with the callbacks that were set when it came in.
  pub run-accounts :
      (test : Response → Bool) (inputs : List (Input T)) (events : List Event)
      → length inputs + 1 < u64_mod
      → let s = run chan inputs (new events) in
        count test s.delivered + count test (due chan s.pending_futures)
        ≡ count test (promised inputs events)
  unfolding run promised
  run-accounts test [] events h = unfold new in refl
  run-accounts test (polled ∷ inputs) events h =
      let s = run chan inputs (new events) in
      omega (
        arith,
        poll-total test s (run-Inv chan inputs events (omega arith)),
        run-accounts test inputs events (omega arith),
      )
  run-accounts test (requested req sink ∷ inputs) events h =
      let s = run chan inputs (new events) in
      omega (
        arith,
        process_request-total test req sink s (run-Inv chan inputs events (omega arith)),
        run-accounts test inputs events (omega arith),
        count-append test (comes chan (driveable_future chan s.handler_map req sink))
            (promised inputs events),
      )
