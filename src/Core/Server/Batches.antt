-- ===== src/Core/Server/Batches.antt =====
-- A batch of calls on its way through `process_request` of core/src/server.rs.
use mathlib.Core.List.Perm
use mathlib.Core.List.{Perm, filter_map}
use jsonrpc_client_rs.Base.{
  ℕ, zero, suc, ◌≡◌, refl, ap, subst, subst₂, Option, none, some, List, [], ◌∷◌, map,
}
use jsonrpc_client_rs.Base.Action.{ok, err}
use jsonrpc_client_rs.Poll.{Fut, now, later, never, after, outcome}
use jsonrpc_client_rs.Core.Types.{Output, Response, Call, Request}
use jsonrpc_client_rs.Core.Server.Handlers.{Handlers, PendingCall, handle_single_call}
use jsonrpc_client_rs.Core.Server.Drivable.{
  DrivableCall, calling_batch, waits, finishes, Channel, responses, send_batch, poll_call,
  driveable_future,
}
use jsonrpc_client_rs.Core.Server.Answers.{Yields, Answers, handle_single_call-Answers}

-- Futures that resolve, one by one, to the results of a list.
abbrev pub AllResolve : List PendingCall → List (Option Output) → Type 0
AllResolve [] [] = Unit {0}
AllResolve (f ∷ fs) (o ∷ os) = (outcome f ≡ some (ok o)) × AllResolve fs os
AllResolve _ _ = ⊥

-- What a batch's calls and their results are to each other in JSON-RPC.
abbrev pub AllAnswer : List Call → List (Option Output) → Type 0
AllAnswer [] [] = Unit {0}
AllAnswer (call ∷ calls) (o ∷ os) = Answers call o × AllAnswer calls os
AllAnswer _ _ = ⊥

-- `futures_unordered(..).collect()`: if each of the futures resolves, it does in the end, to their
-- results in the order in which they came.
abbrev pub Unordered : {T : Type 0} → Channel T → Type 0
Unordered chan =
    (fs : List PendingCall) (os : List (Option Output))
    → AllResolve fs os
    → (n : ℕ) × ((l : List (Option Output)) × (chan.unordered fs ≡ after n (ok l)) × Perm l os)

-- What goes out for the outputs of a batch: one response, or nothing if there are none.
abbrev pub batch_sent : List Output → List Response
batch_sent [] = []
batch_sent (o ∷ l) = Response.batch (o ∷ l) ∷ []

module _ {T : Type 0} (chan : Channel T) where
  -- A future that waits in its first `n` polls and then ends with what it sent.
  abbrev pub Finishes : ℕ → DrivableCall T → List Response → Type 0
  Finishes zero f rs = poll_call chan f ≡ finishes rs
  Finishes (suc n) f rs = (g : DrivableCall T) × (poll_call chan f ≡ waits g) × Finishes n g rs

  send_batch-takes :
      (sink : T) (outs : List Output)
      → ((r : Response) → chan.send sink r ≡ now (ok tt))
      → send_batch chan sink outs ≡ finishes (batch_sent outs)
  send_batch-takes sink [] h = refl
  send_batch-takes sink (o ∷ l) h = rw (h (Response.batch (o ∷ l))) refl

  batch-Finishes :
      (n : ℕ) (sink : T) (l : List (Option Output))
      → ((r : Response) → chan.send sink r ≡ now (ok tt))
      → Finishes n (calling_batch (after n (ok l)) sink) (batch_sent (responses l))
  unfolding after poll_call
  batch-Finishes zero sink l h = send_batch-takes sink (responses l) h
  batch-Finishes (suc n) sink l h =
      (calling_batch (after n (ok l)) sink, refl, batch-Finishes n sink l h)

Yields-outcome :
    {A E : Type 0} (P : A → Type 0) (f : Fut A E) (a : A)
    → Yields P f
    → outcome f ≡ some (ok a)
    → P a
unfolding outcome
Yields-outcome P (now (ok b)) a y e = subst P (cc (e)) y
Yields-outcome P (now (err x)) a y e = cc
Yields-outcome P (later f) a y e = Yields-outcome P f a y e
Yields-outcome P never a y e = cc

resolved-AllAnswer :
    (h : Handlers) (calls : List Call) (os : List (Option Output))
    → AllResolve (map (handle_single_call h) calls) os
    → AllAnswer calls os
resolved-AllAnswer h [] [] r = tt
resolved-AllAnswer h [] (o ∷ os) r = absurd r
resolved-AllAnswer h (call ∷ calls) [] r = absurd r
resolved-AllAnswer h (call ∷ calls) (o ∷ os) (e, r) = (
  Yields-outcome (Answers call) (handle_single_call h call) o (handle_single_call-Answers h call) e,
  resolved-AllAnswer h calls os r,
)

responses-filter_map : (l : List (Option Output)) → filter_map (λ o. o) l ≡ responses l
unfolding filter_map
responses-filter_map [] = refl
responses-filter_map (none ∷ l) = responses-filter_map l
responses-filter_map (some o ∷ l) = ap (λ x. o ∷ x) (responses-filter_map l)

-- If the calls of a batch all resolve, futures_unordered gives their results in some order in the
-- end, and the channel takes each response, then the future of the batch finishes at one of its
-- polls; what it sends is one response that holds, in some order, exactly the outputs of the
-- calls, or nothing if there are none, and each call has what JSON-RPC wants: an output for a
-- method call, none for a notification, and an Invalid Request failure with its id for anything
-- else.
pub batch_answered :
    {T : Type 0} (chan : Channel T) (h : Handlers) (calls : List Call) (os : List (Option Output))
    (sink : T)
    → Unordered chan
    → AllResolve (map (handle_single_call h) calls) os
    → ((r : Response) → chan.send sink r ≡ now (ok tt))
    → (n : ℕ) × ((outs : List Output) × Perm outs (responses os)
        × AllAnswer calls os
        × Finishes chan n (driveable_future chan h (Request.batch calls) sink) (batch_sent outs))
unfolding driveable_future
batch_answered chan h calls os sink unordered resolved takes =
    let (n, (l, e, p)) = unordered (map (handle_single_call h) calls) os resolved in
    (
      n,
      (
        responses l,
        subst₂ (λ x y. Perm x y) (responses-filter_map l) (responses-filter_map os)
            (Perm.filter_map (λ o. o) p),
        resolved-AllAnswer h calls os resolved,
        rw e (batch-Finishes chan n sink l takes),
      ),
    )
