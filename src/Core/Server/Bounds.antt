-- ===== src/Core/Server/Bounds.antt =====
-- How many responses `process_request` and the poll of the server in core/src/server.rs send.
use jsonrpc_client_rs.Base.{
  ℕ, ◌+◌, ◌≤◌, ap, List, [], ◌∷◌, ◌++◌, length, length-append, nat_key, Bool, true, false, arith,
}
use jsonrpc_client_rs.Base.Action.{Result, ok, err}
use jsonrpc_client_rs.Base.Assoc.{Assoc, insert, erase}
use jsonrpc_client_rs.Core.Types.{Request, ErrorKind}
use jsonrpc_client_rs.Core.Server.Drivable.{
  DrivableCall, calling, calling_batch, sending, failing, spent, Driven, waits, finishes, fails,
  Channel, poll_call, driveable_future,
}
use jsonrpc_client_rs.Core.Server.State.{
  Server, Round, Event, new, push_future, drain_handler_chan, remove_ready, poll_futures,
  poll_entry, settle, poll, enqueue, process_request,
}
use jsonrpc_client_rs.Core.Server.Driving.{drain_handler_chan-SameFutures}
use jsonrpc_client_rs.Core.Server.Runs.{Input, polled, requested, run}

module _ {T : Type 0} where
  -- How many responses a future may still send, and a poll of it sent or left to be sent.
  abbrev pub may_send : DrivableCall T → ℕ
  may_send (calling f sink) = 1
  may_send (calling_batch f sink) = 1
  may_send (sending r f) = 1
  may_send (failing e) = 0
  may_send spent = 0

  abbrev yields : Driven T → ℕ
  yields (waits f) = may_send f
  yields (finishes r) = length r
  yields (fails e) = 0

  abbrev pub load : Assoc ℕ (DrivableCall T) → ℕ
  load [] = 0
  load ((key, f) ∷ m) = may_send f + load m

  poll_call-yields :
      (chan : Channel T) (f : DrivableCall T) → yields (poll_call chan f) ≤ may_send f
  unfolding poll_call
  poll_call-yields chan (calling f sink) = ground arith
  poll_call-yields chan (calling_batch f sink) = ground arith
  poll_call-yields chan (sending r f) = ground arith
  poll_call-yields chan (failing e) = omega arith
  poll_call-yields chan spent = omega arith

  load-insert :
      (key : ℕ) (f : DrivableCall T) (m : Assoc ℕ (DrivableCall T))
      → load (insert key f m) ≤ may_send f + load m
  unfolding insert
  load-insert key f [] = omega arith
  load-insert key f ((k, g) ∷ m) = ground (arith, load-insert key f m)

  load-erase : (key : ℕ) (m : Assoc ℕ (DrivableCall T)) → load (erase key m) ≤ load m
  unfolding erase
  load-erase key [] = omega arith
  load-erase key ((k, g) ∷ m) = ground (arith, load-erase key m)

  load-remove_ready :
      (l : List (ℕ × Bool)) (m : Assoc ℕ (DrivableCall T)) → load (remove_ready l m) ≤ load m
  unfolding remove_ready
  load-remove_ready [] m = omega arith
  load-remove_ready ((key, true) ∷ l) m =
      omega (arith, load-remove_ready l (erase key m), load-erase key m)
  load-remove_ready ((key, false) ∷ l) m = load-remove_ready l m

  module _ (chan : Channel T) where
    poll_futures-load :
        (m : Assoc ℕ (DrivableCall T))
        → let r = poll_futures chan m in length r.out + load r.futures ≤ load m
    unfolding poll_futures
    poll_futures-load [] = omega arith
    poll_futures-load ((key, f) ∷ m) =
        entry (poll_call chan f) (poll_call-yields chan f) (poll_futures chan m)
          (poll_futures-load m)
      where
        entry :
            (d : Driven T)
            → yields d ≤ may_send f
            → (rest : Round T) → length rest.out + load rest.futures ≤ load m
            → let r = poll_entry chan key d m rest in
              length r.out + load r.futures ≤ may_send f + load m
        entry (waits g) y rest h = omega (arith, y, h)
        entry (finishes r) y rest h = omega (arith, y, h, length-append {0} rest.out r)
        entry (fails e) y rest h = omega arith

    -- The responses that were sent and those that may still be.
    abbrev owed : Server T → ℕ
    owed s = length s.delivered + load s.pending_futures

    settle-owed :
        (p : Result (List (ℕ × Bool)) ErrorKind) (s : Server T) → owed (settle chan p s).1 ≤ owed s
    settle-owed (ok l) s = omega (arith, load-remove_ready l s.pending_futures)
    settle-owed (err e) s = omega arith

    poll-owed : (s : Server T) → owed (poll chan s).1 ≤ owed s
    unfolding poll
    poll-owed s =
        let d = drain_handler_chan s in
        let (p, _, o) = drain_handler_chan-SameFutures s in
        let r = poll_futures chan d.pending_futures in
        omega (
          arith,
          settle-owed r.polled
              (record d { pending_futures = r.futures; delivered = r.out ++ d.delivered }),
          poll_futures-load d.pending_futures,
          length-append {0} r.out d.delivered,
          ap load p,
          ap (length {0}) o,
        )

    enqueue-owed : (d : Driven T) (s : Server T) → owed (enqueue chan d s) ≤ yields d + owed s
    unfolding push_future
    enqueue-owed (waits f) s = omega (arith, load-insert s.id_generator.next_id f s.pending_futures)
    enqueue-owed (fails e) s =
        omega (arith, load-insert s.id_generator.next_id (failing e) s.pending_futures)
    enqueue-owed (finishes r) s = omega (arith, length-append {0} r s.delivered)

    process_request-owed :
        (req : Request) (sink : T) (s : Server T)
        → owed (process_request chan req sink s).1 ≤ 1 + owed s
    unfolding process_request
    process_request-owed req sink s =
        let f = driveable_future chan s.handler_map req sink in
        omega (arith, enqueue-owed (poll_call chan f) s, poll_call-yields chan f, at_most_one req)
      where
        at_most_one : (r : Request) → may_send (driveable_future chan s.handler_map r sink) ≤ 1
        at_most_one (Request.single call) = unfold driveable_future in omega arith
        at_most_one (Request.batch calls) = unfold driveable_future in omega arith

    abbrev pub requests : List (Input T) → ℕ
    requests [] = 0
    requests (polled ∷ inputs) = requests inputs
    requests (requested req sink ∷ inputs) = 1 + requests inputs

    -- After any sequence of polls and incoming requests of a new server, the responses that were
    -- sent and those that its pending futures may still send are together no more than the
    -- requests that came in.
    pub run-responses :
        (inputs : List (Input T)) (events : List Event)
        → let s = run chan inputs (new events) in
          length s.delivered + load s.pending_futures ≤ requests inputs
    unfolding run
    run-responses [] events = unfold new in omega arith
    run-responses (polled ∷ inputs) events =
        omega (arith, poll-owed (run chan inputs (new events)), run-responses inputs events)
    run-responses (requested req sink ∷ inputs) events = omega (
      arith,
      process_request-owed req sink (run chan inputs (new events)),
      run-responses inputs events,
    )
