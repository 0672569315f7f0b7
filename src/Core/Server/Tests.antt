-- ===== src/Core/Server/Tests.antt =====
-- Runs of the server of core/src/server.rs on small inputs.
use jsonrpc_client_rs.Base.{
  Bool, true, false, ℕ, ap, ◌≡◌, refl, Option, none, some, List, [], ◌∷◌, ◌++◌, map, length, ◌+◌,
  ◌≤◌, string_key, arith,
}
use jsonrpc_client_rs.Base.Action.{Result, ok, err}
use jsonrpc_client_rs.Base.Assoc.{lookup}
use jsonrpc_client_rs.Poll.{not_ready, Fut, now, later, never, map_fut, outcome, after}
use jsonrpc_client_rs.Core.Types.{
  Value, num, v2, Output, success, failure, invalid_request, method_not_found, Call, invalid,
  MethodCall, Notification, method_call, notification, Request, Response, ErrorKind, shutdown,
}
use jsonrpc_client_rs.Core.Server.Handlers.{
  Handler, on_method, on_notification, Handlers, PendingCall, handle_single_call,
}
use jsonrpc_client_rs.Core.Server.Drivable.{
  calling, fails, Channel, poll_call, driveable_future, responses,
}
use jsonrpc_client_rs.Core.Server.State.{
  Server, add_handler, remove_handler, Event, arrives, quiet, drain, poll, process_request, new,
}
use mathlib.Core.List.Perm
use mathlib.Core.List.{Perm}
use jsonrpc_client_rs.Core.Server.Handlers
use jsonrpc_client_rs.Core.Server.Batches.{
  AllResolve, AllAnswer, Unordered, batch_sent, Finishes, batch_answered,
}
use jsonrpc_client_rs.Core.Server.Refinement.{view, replay, drain-refines}
use jsonrpc_client_rs.Core.Server.Bounds.{load, run-responses}
use jsonrpc_client_rs.Core.Server.Answers.{Yields, All, Collects}
use jsonrpc_client_rs.Core.Server.Pending.{first_error, survivors, sent}
use jsonrpc_client_rs.Core.Server.Driving.{Inv, poll_calm}
use jsonrpc_client_rs.Core.Server.Refusal.{process_request_error}
use jsonrpc_client_rs.Core.Server.Runs.{Input, polled, requested, run}
use jsonrpc_client_rs.Core.Server.Outcomes.{count, due}
use jsonrpc_client_rs.Core.Server.Accounts.{promised, run-accounts}
use jsonrpc_client_rs.Core.Server.Silence.{polls, notifications_unanswered}

-- Futures of which each is waited for in turn, up to the first error.
abbrev Outputs : Type 0
Outputs = Fut (List (Option Output)) ErrorKind

unfoldable join : PendingCall → Outputs → Outputs
join (now (ok o)) rest = map_fut (◌∷◌ o) rest
join (now (err e)) rest = now (err e)
join (later f) rest = later (join f rest)
join never rest = never

unfoldable in_turn : List PendingCall → Outputs
in_turn [] = now (ok [])
in_turn (f ∷ fs) = join f (in_turn fs)

abbrev Nothing : List (Option Output) → Type 0
Nothing = All (λ (o : Option Output). o ≡ none)

map_fut-Nothing :
    (o : Option Output) (rest : Outputs)
    → o ≡ none
    → Yields Nothing rest
    → Yields Nothing (map_fut (◌∷◌ o) rest)
unfolding map_fut
map_fut-Nothing o (now (ok l)) h r = (h, r)
map_fut-Nothing o (now (err e)) h r = tt
map_fut-Nothing o (later f) h r = map_fut-Nothing o f h r
map_fut-Nothing o never h r = tt

join-Nothing :
    (f : PendingCall) (rest : Outputs)
    → Yields (λ o. o ≡ none) f
    → Yields Nothing rest
    → Yields Nothing (join f rest)
unfolding join
join-Nothing (now (ok o)) rest h r = map_fut-Nothing o rest h r
join-Nothing (now (err e)) rest h r = tt
join-Nothing (later f) rest h r = join-Nothing f rest h r
join-Nothing never rest h r = tt

abbrev chan : Channel (Unit {0})
chan = record { send = λ sink r. now (ok tt); unordered = in_turn }

chan-Collects : Collects chan
unfolding in_turn
chan-Collects [] h = tt
chan-Collects (f ∷ fs) h = join-Nothing f (in_turn fs) h.0 (chan-Collects fs h.1)

-- A method that answers late, and a notification.
abbrev late_method : Handler
late_method = on_method λ call. later (now (ok (success (some v2) Value.null call.id)))

abbrev failing_notification : Handler
failing_notification = on_notification λ note. now (err shutdown)

abbrev handlers : Handlers
handlers = record { handlers = ("sum", late_method) ∷ ("log", failing_notification) ∷ [] }

abbrev note : Notification
note = record { version = some v2; method = "log"; params = none }

abbrev log_call : MethodCall
log_call = record { version = some v2; method = "log"; params = none; id = num 5 }

abbrev log_note : Request
log_note = Request.batch (notification note ∷ notification note ∷ [])

-- A server with one future under way.
abbrev running : Server (Unit {0})
running = record {
  handler_chan = none;
  handler_map = handlers;
  pending_futures = (1, calling (later (now (ok none))) tt) ∷ [];
  id_generator = record { next_id = 2 };
  replies = [];
  delivered = [];
}

abbrev events : List Event
events = arrives (add_handler "a" late_method 3) ∷ arrives (remove_handler "b" 4) ∷ quiet ∷ []

running-Inv : Inv running
running-Inv = (omega arith, omega arith, tt)

poll_calm_example :
    let (r, t) = poll chan running in
    (r ≡ ok not_ready)
    × (t.pending_futures ≡ survivors chan running.pending_futures)
    × (t.delivered ≡ sent chan running.pending_futures ++ running.delivered)
    × (t.id_generator ≡ running.id_generator)
unfolding first_error poll_call
poll_calm_example = poll_calm chan running running-Inv refl

log_fails : poll_call chan (driveable_future chan handlers log_note tt) ≡ fails shutdown
unfolding poll_call driveable_future in_turn join handle_single_call lookup map_fut
log_fails = refl

process_request_error_example :
    let (r, t) = process_request chan log_note tt running in
    (r ≡ ok tt) × ((poll chan t).0 ≡ err shutdown)
unfolding first_error poll_call
process_request_error_example =
    process_request_error chan log_note tt running shutdown running-Inv (omega arith) (omega arith)
      refl log_fails

notifications_unanswered_example :
    let (r, t) = process_request chan log_note tt running in
    (r ≡ ok tt) × ((polls chan 3 t).delivered ≡ [])
notifications_unanswered_example =
    notifications_unanswered chan log_note tt running 3 chan-Collects (tt, (tt, tt)) (refl, tt)

-- Two requests and two polls of a new server.
abbrev inputs : List (Input (Unit {0}))
inputs = polled ∷ requested log_note tt ∷ polled ∷ requested log_note tt ∷ []

-- Whether a response is to a single call.
abbrev is_single : Response → Bool
is_single (Response.single o) = true
is_single (Response.batch l) = false

run-accounts_example :
    let s = run chan inputs (new events) in
    count is_single s.delivered + count is_single (due chan s.pending_futures)
    ≡ count is_single (promised chan inputs events)
run-accounts_example = run-accounts chan is_single inputs events (omega arith)

drain-refines_example :
    (view (drain events running).handler_map, (drain events running).replies)
    ≡ replay events (view running.handler_map) running.replies
drain-refines_example = drain-refines events running

run-responses_example :
    let s = run chan inputs (new events) in length s.delivered + load s.pending_futures ≤ 2
run-responses_example = run-responses chan inputs events

abbrev joined :
    Option (Result (Option Output) ErrorKind)
    → Option (List (Option Output))
    → Option (List (Option Output))
joined (some (ok o)) (some l) = some (o ∷ l)
joined _ _ = none

-- A channel that collects the results of a batch once all of them are there.
unfoldable collected : List PendingCall → Option (List (Option Output))
collected [] = some []
collected (f ∷ fs) = joined (outcome f) (collected fs)

abbrev given : Option (List (Option Output)) → Fut (List (Option Output)) ErrorKind
given (some l) = now (ok l)
given none = never

abbrev gathering : Channel (Unit {0})
gathering = record { send = λ sink r. now (ok tt); unordered = λ fs. given (collected fs) }

collected-AllResolve :
    (fs : List PendingCall) (os : List (Option Output)) → AllResolve fs os → collected fs ≡ some os
unfolding collected
collected-AllResolve [] [] r = refl
collected-AllResolve [] (o ∷ os) r = absurd r
collected-AllResolve (f ∷ fs) [] r = absurd r
collected-AllResolve (f ∷ fs) (o ∷ os) (e, r) = rw (e, collected-AllResolve fs os r) refl

gathering-Unordered : Unordered gathering
unfolding after
gathering-Unordered fs os r = (0, (os, ap given (collected-AllResolve fs os r), Perm.rfl))

abbrev batch_calls : List Call
batch_calls = method_call log_call ∷ invalid (num 9) ∷ []

abbrev batch_results : List (Option Output)
batch_results =
    some (failure (some v2) method_not_found (num 5))
    ∷ some (failure (some v2) invalid_request (num 9))
    ∷ []

batch_results-AllResolve : AllResolve (map (handle_single_call handlers) batch_calls) batch_results
unfolding handle_single_call lookup outcome Handlers.failure
batch_results-AllResolve = (refl, (refl, tt))

batch_answered_example :
    (n : ℕ) × ((outs : List Output) × Perm outs (responses batch_results)
      × AllAnswer batch_calls batch_results
      × Finishes gathering n
          (driveable_future gathering handlers (Request.batch batch_calls) tt)
          (batch_sent outs))
batch_answered_example =
    batch_answered gathering handlers batch_calls batch_results tt gathering-Unordered
      batch_results-AllResolve (λ r. refl)
