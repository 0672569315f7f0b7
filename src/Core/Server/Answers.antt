-- ===== src/Core/Server/Answers.antt =====
-- What comes of a request: which calls are answered, and with what.
use jsonrpc_client_rs.Base.{◌≡◌, refl, Option, none, some, List, [], ◌∷◌, map, string_key}
use jsonrpc_client_rs.Base.Action.{ok, err}
use jsonrpc_client_rs.Base.Assoc.{lookup}
use jsonrpc_client_rs.Poll.{Fut, now, later, never, map_fut}
use jsonrpc_client_rs.Core.Types.{
  v2, Output, failure as failure_output, invalid_request, method_not_found, MethodCall,
  Notification, Call, method_call, notification, invalid, Request,
}
use jsonrpc_client_rs.Core.Server.Handlers.{
  Handler, on_method, on_notification, Handlers, answer_method, answer_notification, failure,
  PendingCall, handle_single_call,
}
use jsonrpc_client_rs.Core.Server.Drivable.{
  DrivableCall, calling, calling_batch, sending, failing, spent, Driven, waits, finishes, fails,
  Channel, poll_call, driveable_future, responses,
}

-- What a future resolves to, if it does and not to an error.
abbrev pub Yields : {A E : Type 0} → (A → Type 0) → Fut A E → Type 0
Yields P (now (ok a)) = P a
Yields P (now (err e)) = Unit {0}
Yields P (later f) = Yields P f
Yields P never = Unit {0}

Yields-map :
    {A B E : Type 0} (P : B → Type 0) (g : A → B) (f : Fut A E)
    → ((a : A) → P (g a))
    → Yields P (map_fut g f)
unfolding map_fut
Yields-map P g (now (ok a)) h = h a
Yields-map P g (now (err e)) h = tt
Yields-map P g (later f) h = Yields-map P g f h
Yields-map P g never h = tt

-- What JSON-RPC wants of the answer to a call: one output to a method call, none to a notification,
-- and an `Invalid Request` error to anything else, with its id.
abbrev pub Answers : Call → Option Output → Type 0
Answers (method_call call) o = (p : Output) × (o ≡ some p)
Answers (notification note) o = o ≡ none
Answers (invalid id) o = o ≡ some (failure_output (some v2) invalid_request id)

answer_method-Answers :
    (call : MethodCall) (h : Option Handler)
    → Yields (Answers (method_call call)) (answer_method call h)
answer_method-Answers call (some (on_method f)) =
    Yields-map (Answers (method_call call)) some (f call) (λ o. (o, refl))
answer_method-Answers call (some (on_notification f)) = (failure call.id method_not_found, refl)
answer_method-Answers call none = (failure call.id method_not_found, refl)

answer_notification-Answers :
    (note : Notification) (h : Option Handler)
    → Yields (Answers (notification note)) (answer_notification note h)
answer_notification-Answers note (some (on_notification f)) =
    Yields-map (Answers (notification note)) (λ _. none) (f note) (λ _. refl)
answer_notification-Answers note (some (on_method f)) = refl
answer_notification-Answers note none = refl

-- Whatever handlers are set, the future of a method call resolves to one output, that of a
-- notification to none, and that of an invalid call to an Invalid Request failure with its id,
-- unless the future does not resolve or resolves to an error.
pub handle_single_call-Answers :
    (h : Handlers) (call : Call) → Yields (Answers call) (handle_single_call h call)
unfolding handle_single_call
handle_single_call-Answers h (method_call call) =
    answer_method-Answers call (lookup call.method h.handlers)
handle_single_call-Answers h (notification note) =
    answer_notification-Answers note (lookup note.method h.handlers)
handle_single_call-Answers h (invalid id) = refl

-- No handler of the method kind is set under a name.
abbrev pub NoMethod : Option Handler → Type 0
NoMethod (some (on_method f)) = ⊥
NoMethod _ = Unit {0}

-- A method call for which no method handler is set, be the name free or that of a notification
-- handler, is answered at once by a Method not found failure of version 2.0 with its id.
pub handle_single_call_unknown :
    (h : Handlers) (call : MethodCall)
    → NoMethod (lookup call.method h.handlers)
    → handle_single_call h (method_call call)
      ≡ now (ok (some (failure_output (some v2) method_not_found call.id)))
unfolding handle_single_call
handle_single_call_unknown h call e = go (lookup call.method h.handlers) e
  where
    go :
        (o : Option Handler)
        → NoMethod o
        → answer_method call o ≡ now (ok (some (failure_output (some v2) method_not_found call.id)))
    go (some (on_method f)) e = absurd e
    go (some (on_notification f)) e = unfold failure in refl
    go none e = unfold failure in refl

-- Every element of a list.
abbrev pub All : {A : Type 0} → (A → Type 0) → List A → Type 0
All P [] = Unit {0}
All P (x ∷ l) = P x × All P l

abbrev pub IsNotification : Call → Type 0
IsNotification (method_call call) = ⊥
IsNotification (notification note) = Unit {0}
IsNotification (invalid id) = ⊥

-- A request that holds notifications alone.
abbrev pub OnlyNotifies : Request → Type 0
OnlyNotifies (Request.single call) = IsNotification call
OnlyNotifies (Request.batch calls) = All IsNotification calls

-- `futures_unordered` collects the results of its futures and adds none of its own: if none of them
-- resolves to an output, its list holds none.
abbrev pub Collects : {T : Type 0} → Channel T → Type 0
Collects chan =
    (fs : List PendingCall)
    → All (Yields (λ o. o ≡ none)) fs
    → Yields (All (λ (o : Option Output). o ≡ none)) (chan.unordered fs)

-- A future that will send nothing.
abbrev pub Silent : {T : Type 0} → DrivableCall T → Type 0
Silent (calling f sink) = Yields (λ o. o ≡ none) f
Silent (calling_batch f sink) = Yields (All (λ (o : Option Output). o ≡ none)) f
Silent (sending r f) = ⊥
Silent (failing e) = Unit {0}
Silent spent = Unit {0}

abbrev pub StaysSilent : {T : Type 0} → Driven T → Type 0
StaysSilent (waits f) = Silent f
StaysSilent (finishes r) = r ≡ []
StaysSilent (fails e) = Unit {0}

responses-none :
    (l : List (Option Output)) → All (λ (o : Option Output). o ≡ none) l → responses l ≡ []
responses-none [] h = refl
responses-none (none ∷ l) h = responses-none l h.1
responses-none (some o ∷ l) h = cc (h.0)

-- However often it is driven, a future that sends nothing sends nothing.
pub poll_call-Silent :
    {T : Type 0} (chan : Channel T) (f : DrivableCall T) → Silent f → StaysSilent (poll_call chan f)
unfolding poll_call
poll_call-Silent chan (calling (now (ok none)) sink) h = refl
poll_call-Silent chan (calling (now (ok (some o))) sink) h = cc (h)
poll_call-Silent chan (calling (now (err e)) sink) h = tt
poll_call-Silent chan (calling (later f) sink) h = h
poll_call-Silent chan (calling never sink) h = tt
poll_call-Silent chan (calling_batch (now (ok l)) sink) h = rw (responses-none l h) refl
poll_call-Silent chan (calling_batch (now (err e)) sink) h = tt
poll_call-Silent chan (calling_batch (later f) sink) h = h
poll_call-Silent chan (calling_batch never sink) h = tt
poll_call-Silent chan (sending r f) h = absurd h
poll_call-Silent chan (failing e) h = tt
poll_call-Silent chan spent h = tt

calls_none :
    (h : Handlers) (calls : List Call)
    → All IsNotification calls
    → All (Yields (λ o. o ≡ none)) (map (handle_single_call h) calls)
calls_none h [] n = tt
calls_none h (notification note ∷ l) n =
    (handle_single_call-Answers h (notification note), calls_none h l n.1)
calls_none h (method_call call ∷ l) n = absurd n.0
calls_none h (invalid id ∷ l) n = absurd n.0

-- A request of notifications alone, single or a batch, becomes a future that sends nothing, whatever
-- the handlers do.
pub driveable_future-Silent :
    {T : Type 0} (chan : Channel T) (h : Handlers) (req : Request) (sink : T)
    → Collects chan
    → OnlyNotifies req
    → Silent (driveable_future chan h req sink)
unfolding driveable_future
driveable_future-Silent chan h (Request.single (notification note)) sink c n =
    handle_single_call-Answers h (notification note)
driveable_future-Silent chan h (Request.single (method_call call)) sink c n = absurd n
driveable_future-Silent chan h (Request.single (invalid id)) sink c n = absurd n
driveable_future-Silent chan h (Request.batch calls) sink c n =
    c (map (handle_single_call h) calls) (calls_none h calls n)
