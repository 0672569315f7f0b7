-- ===== src/Core/Server/Silence.antt =====
-- Notifications in `process_request` and in the poll of the server of core/src/server.rs.
use jsonrpc_client_rs.Base.{
  ℕ, zero, suc, ◌≡◌, refl, sym, ◌∙◌, ap, subst, List, [], ◌∷◌, ◌++◌, Bool, true, false, nat_key,
  Bool-cases, inl, inr, ◌==◌,
}
use jsonrpc_client_rs.Base.Action.{Result, ok, err}
use jsonrpc_client_rs.Base.Assoc.{Assoc, insert, erase}
use jsonrpc_client_rs.Core.Types.{Request, ErrorKind}
use jsonrpc_client_rs.Core.Server.Drivable.{
  DrivableCall, failing, Driven, waits, finishes, fails, Channel, poll_call, driveable_future,
}
use jsonrpc_client_rs.Core.Server.Answers.{
  Silent, StaysSilent, poll_call-Silent, driveable_future-Silent, Collects, OnlyNotifies,
}
use jsonrpc_client_rs.Core.Server.State.{
  Server, Round, push_future, drain_handler_chan, remove_ready, poll_entry, poll_futures, settle,
  poll, enqueue, process_request,
}
use jsonrpc_client_rs.Core.Server.Driving.{drain_handler_chan-SameFutures}

module _ {T : Type 0} where
  abbrev pub AllSilent : Assoc ℕ (DrivableCall T) → Type 0
  AllSilent [] = Unit {0}
  AllSilent ((key, f) ∷ m) = Silent f × AllSilent m

  insert-AllSilent :
      (k : ℕ) (f : DrivableCall T) (m : Assoc ℕ (DrivableCall T))
      → Silent f
      → AllSilent m
      → AllSilent (insert k f m)
  unfolding insert
  insert-AllSilent k f [] h a = (h, tt)
  insert-AllSilent k f ((key, g) ∷ m) h a = elim (Bool-cases (k == key)) [
    | inl e ↦ rw e (h, a.1)
    | inr e ↦ rw e (a.0, insert-AllSilent k f m h a.1)
  ]

  erase-AllSilent : (k : ℕ) (m : Assoc ℕ (DrivableCall T)) → AllSilent m → AllSilent (erase k m)
  unfolding erase
  erase-AllSilent k [] a = tt
  erase-AllSilent k ((key, g) ∷ m) a = elim (Bool-cases (k == key)) [
    | inl e ↦ rw e (erase-AllSilent k m a.1)
    | inr e ↦ rw e (a.0, erase-AllSilent k m a.1)
  ]

  remove_ready-AllSilent :
      (l : List (ℕ × Bool)) (m : Assoc ℕ (DrivableCall T))
      → AllSilent m
      → AllSilent (remove_ready l m)
  unfolding remove_ready
  remove_ready-AllSilent [] m a = a
  remove_ready-AllSilent ((key, true) ∷ l) m a =
      remove_ready-AllSilent l (erase key m) (erase-AllSilent key m a)
  remove_ready-AllSilent ((key, false) ∷ l) m a = remove_ready-AllSilent l m a

  module _ (chan : Channel T) where
    poll_entry-silent :
        (key : ℕ) (d : Driven T) (m : Assoc ℕ (DrivableCall T)) (r : Round T)
        → StaysSilent d
        → AllSilent m
        → AllSilent r.futures
        → r.out ≡ []
        → AllSilent (poll_entry chan key d m r).futures × ((poll_entry chan key d m r).out ≡ [])
    poll_entry-silent key (waits f) m r h a b e = ((h, b), e)
    poll_entry-silent key (finishes out) m r h a b e = ((tt, b), rw (e, h) refl)
    poll_entry-silent key (fails x) m r h a b e = ((tt, a), refl)

    poll_futures-silent :
        (m : Assoc ℕ (DrivableCall T))
        → AllSilent m
        → AllSilent (poll_futures chan m).futures × ((poll_futures chan m).out ≡ [])
    unfolding poll_futures
    poll_futures-silent [] a = (tt, refl)
    poll_futures-silent ((key, f) ∷ m) a =
        let (b, e) = poll_futures-silent m a.1 in
        poll_entry-silent key (poll_call chan f) m (poll_futures chan m)
          (poll_call-Silent chan f a.0) a.1 b e

    settle-silent :
        (p : Result (List (ℕ × Bool)) ErrorKind) (s : Server T)
        → AllSilent s.pending_futures
        → AllSilent (settle chan p s).1.pending_futures
          × ((settle chan p s).1.delivered ≡ s.delivered)
    settle-silent (ok l) s a = (remove_ready-AllSilent l s.pending_futures a, refl)
    settle-silent (err e) s a = (a, refl)

    poll-silent :
        (s : Server T)
        → AllSilent s.pending_futures
        → AllSilent (poll chan s).1.pending_futures × ((poll chan s).1.delivered ≡ s.delivered)
    unfolding poll
    poll-silent s a =
        let d = drain_handler_chan s in
        let (p, g, o) = drain_handler_chan-SameFutures s in
        let r = poll_futures chan d.pending_futures in
        let (b, e) = poll_futures-silent d.pending_futures (subst AllSilent (sym p) a) in
        let (c, f) =
          settle-silent r.polled
            (record d { pending_futures = r.futures; delivered = r.out ++ d.delivered }) b in
        (c, f ∙ ap (λ x. x ++ d.delivered) e ∙ o)

    -- The state of the server after a number of polls.
    unfoldable pub polls : ℕ → Server T → Server T
    polls zero s = s
    polls (suc n) s = (poll chan (polls n s)).1

    polls-silent :
        (n : ℕ) (s : Server T)
        → AllSilent s.pending_futures
        → AllSilent (polls n s).pending_futures × ((polls n s).delivered ≡ s.delivered)
    unfolding polls
    polls-silent zero s a = (a, refl)
    polls-silent (suc n) s a =
        let (b, e) = polls-silent n s a in let (c, f) = poll-silent (polls n s) b in (c, f ∙ e)

    enqueue-silent :
        (d : Driven T) (s : Server T)
        → StaysSilent d
        → AllSilent s.pending_futures
        → AllSilent (enqueue chan d s).pending_futures
          × ((enqueue chan d s).delivered ≡ s.delivered)
    unfolding push_future
    enqueue-silent (waits f) s h a =
        (insert-AllSilent s.id_generator.next_id f s.pending_futures h a, refl)
    enqueue-silent (fails e) s h a =
        (insert-AllSilent s.id_generator.next_id (failing e) s.pending_futures tt a, refl)
    enqueue-silent (finishes r) s h a = (a, ap (λ x. x ++ s.delivered) h)

    -- A request of notifications alone, single or a batch, is accepted and leads to no response
    -- however often the server is polled, if no future that was pending before will send
    -- anything, and if futures_unordered collects no outputs when its futures give none.
    pub notifications_unanswered :
        (req : Request) (sink : T) (s : Server T) (n : ℕ)
        → Collects chan
        → OnlyNotifies req
        → AllSilent s.pending_futures
        → let (r, t) = process_request chan req sink s in
          (r ≡ ok tt) × ((polls n t).delivered ≡ s.delivered)
    unfolding process_request
    notifications_unanswered req sink s n c o a =
        let f = driveable_future chan s.handler_map req sink in
        let quiet =
          poll_call-Silent chan f (driveable_future-Silent chan s.handler_map req sink c o) in
        let (b, e) = enqueue-silent (poll_call chan f) s quiet a in
        let (_, g) = polls-silent n (enqueue chan (poll_call chan f) s) b in (refl, g ∙ e)
