-- ===== src/Core/Server/Driving.antt =====
-- The poll of the server of core/src/server.rs and the keys of its futures.
use jsonrpc_client_rs.Base.{
  ℕ, ◌+◌, ◌≤◌, ◌<◌, ◌%◌, ◌≡◌, refl, sym, ◌∙◌, ap, subst, Option, none, some, List, [], ◌∷◌, ◌++◌,
  Bool, true, false, nat_key, arith, Option-cases, inl, inr,
}
use jsonrpc_client_rs.Base.Action.{Result, ok, err}
use jsonrpc_client_rs.Base.Assoc.{Assoc, erase}
use jsonrpc_client_rs.Poll.{Async, not_ready}
use jsonrpc_client_rs.Core.Types.{Response, Request, ErrorKind}
use jsonrpc_client_rs.Core.IdGenerator.{u64_mod, IdGenerator}
use jsonrpc_client_rs.Core.Server.Drivable.{
  DrivableCall, failing, Driven, waits, finishes, fails, Channel, poll_call, driveable_future,
}
use jsonrpc_client_rs.Core.Server.State.{
  Server, HandlerMsg, add_handler, remove_handler, Event, arrives, closes, quiet, push_future,
  handle_msg, drain, drain_handler_chan, remove_ready, poll_futures, settle, poll, enqueue,
  process_request,
}
use jsonrpc_client_rs.Core.Server.Pending.{
  Rising, Rising-insert, erase-Rising, Matches, first_error, survivors, sent, poll_futures-Rising,
  round-Matches,
}

module _ {T : Type 0} where
  -- What the messages of a `ServerHandle` leave alone.
  abbrev pub SameFutures : Server T → Server T → Type 0
  SameFutures s t =
      (t.pending_futures ≡ s.pending_futures)
      × (t.id_generator ≡ s.id_generator)
      × (t.delivered ≡ s.delivered)

  handle_msg-SameFutures : (m : HandlerMsg) (s : Server T) → SameFutures s (handle_msg m s)
  unfolding handle_msg
  handle_msg-SameFutures (add_handler name handler tx) s = (refl, refl, refl)
  handle_msg-SameFutures (remove_handler name tx) s = (refl, refl, refl)

  drain-SameFutures : (l : List Event) (s : Server T) → SameFutures s (drain l s)
  unfolding drain
  drain-SameFutures [] s = (refl, refl, refl)
  drain-SameFutures (arrives m ∷ l) s =
      let (p, g, d) = handle_msg-SameFutures m s in
      let (p', g', d') = drain-SameFutures l (handle_msg m s) in (p' ∙ p, g' ∙ g, d' ∙ d)
  drain-SameFutures (quiet ∷ l) s = (refl, refl, refl)
  drain-SameFutures (closes ∷ l) s = (refl, refl, refl)

  pub drain_handler_chan-SameFutures : (s : Server T) → SameFutures s (drain_handler_chan s)
  unfolding drain_handler_chan
  drain_handler_chan-SameFutures s = elim (Option-cases s.handler_chan) [
    | inl e ↦ rw (e, drain_handler_chan) (refl, refl, refl)
    | inr (l, e) ↦
        rw (e, drain_handler_chan) (drain-SameFutures l (record s { handler_chan = none }))
  ]

  -- The keys of the pending futures rise and were all issued.
  abbrev pub Inv : Server T → Type 0
  Inv s = Rising 1 s.id_generator.next_id s.pending_futures

  module _ (chan : Channel T) where
    abbrev pub answer : Option ErrorKind → Result (Async (Unit {0})) ErrorKind
    answer none = ok not_ready
    answer (some e) = err e

    -- What a poll leads to, against the specification of a round.
    abbrev Settles :
        Option ErrorKind
        → Assoc ℕ (DrivableCall T)
        → List Response
        → IdGenerator
        → Result (Async (Unit {0})) ErrorKind × Server T
        → Type 0
    Settles none waiting out g (r, t) =
        (r ≡ ok not_ready)
        × (t.pending_futures ≡ waiting)
        × (t.delivered ≡ out)
        × (t.id_generator ≡ g)
    Settles (some e) waiting out g (r, t) = (r ≡ err e) × (t.id_generator ≡ g)

    settle-Settles :
        (p : Result (List (ℕ × Bool)) ErrorKind) (d : Server T) (e : Option ErrorKind)
        (waiting : Assoc ℕ (DrivableCall T)) (out o more : List Response)
        → Matches 0 e waiting out p d.pending_futures o
        → d.delivered ≡ o ++ more
        → Settles e waiting (out ++ more) d.id_generator (settle chan p d)
    settle-Settles (ok l) d none waiting out o more (x, a, w, q) h =
        (refl, w, h ∙ ap (λ y. y ++ more) q, refl)
    settle-Settles (ok l) d (some e) waiting out o more (x, a, w, q) h = cc (x)
    settle-Settles (err y) d none waiting out o more m h = cc (m)
    settle-Settles (err y) d (some e) waiting out o more m h = (ground arith, refl)

    poll-Settles :
        (s : Server T)
        → Inv s
        → Settles
            (first_error chan s.pending_futures)
            (survivors chan s.pending_futures)
            (sent chan s.pending_futures ++ s.delivered)
            s.id_generator
            (poll chan s)
    unfolding poll
    poll-Settles s v =
        let d = drain_handler_chan s in
        let (p, g, o) = drain_handler_chan-SameFutures s in
        let r = poll_futures chan d.pending_futures in
        let rising = subst (Rising 1 s.id_generator.next_id) (sym p) v in
        let done =
          settle-Settles r.polled
            (record d { pending_futures = r.futures; delivered = r.out ++ d.delivered })
            (first_error chan d.pending_futures) (survivors chan d.pending_futures)
            (sent chan d.pending_futures) r.out d.delivered
            (round-Matches chan 0 1 s.id_generator.next_id d.pending_futures (omega arith) rising)
            refl in
        subst
          (λ x.
            Settles (first_error chan x) (survivors chan x) (sent chan x ++ s.delivered)
              s.id_generator (poll chan s))
          p
          (subst
            (λ x.
              Settles (first_error chan d.pending_futures) (survivors chan d.pending_futures)
                (sent chan d.pending_futures ++ x) s.id_generator (poll chan s))
            o
            (subst
              (λ x.
                Settles (first_error chan d.pending_futures) (survivors chan d.pending_futures)
                  (sent chan d.pending_futures ++ d.delivered) x (poll chan s))
              g done))

    -- If the keys of the pending futures rise, a poll of the server returns the first error that
    -- one of them meets, in the order of the keys, and waits if there is none.
    pub poll_answer :
        (s : Server T) → Inv s → (poll chan s).0 ≡ answer (first_error chan s.pending_futures)
    poll_answer s v = go (first_error chan s.pending_futures) (poll chan s) (poll-Settles s v)
      where
        go :
            (e : Option ErrorKind) (q : Result (Async (Unit {0})) ErrorKind × Server T)
            → Settles e
                (survivors chan s.pending_futures)
                (sent chan s.pending_futures ++ s.delivered)
                s.id_generator
                q
            → q.0 ≡ answer e
        go none q h = h.0
        go (some e) q h = h.0

    -- If the keys of the pending futures rise and none of the futures meets an error, a poll of
    -- the server waits, keeps exactly the futures that still wait, each as its own poll left it,
    -- sends the responses of the others, and leaves the key generator alone.
    pub poll_calm :
        (s : Server T)
        → Inv s
        → first_error chan s.pending_futures ≡ none
        → let (r, t) = poll chan s in
          (r ≡ ok not_ready)
          × (t.pending_futures ≡ survivors chan s.pending_futures)
          × (t.delivered ≡ sent chan s.pending_futures ++ s.delivered)
          × (t.id_generator ≡ s.id_generator)
    poll_calm s v h =
        subst
          (λ e.
            Settles e (survivors chan s.pending_futures)
              (sent chan s.pending_futures ++ s.delivered) s.id_generator (poll chan s))
          h (poll-Settles s v)

  remove_ready-Rising :
      (lo hi : ℕ) (l : List (ℕ × Bool)) (m : Assoc ℕ (DrivableCall T))
      → Rising lo hi m
      → Rising lo hi (remove_ready l m)
  unfolding remove_ready
  remove_ready-Rising lo hi [] m h = h
  remove_ready-Rising lo hi ((key, true) ∷ l) m h =
      remove_ready-Rising lo hi l (erase key m) (erase-Rising key lo hi m h)
  remove_ready-Rising lo hi ((key, false) ∷ l) m h = remove_ready-Rising lo hi l m h

  settle-Inv :
      (chan : Channel T) (p : Result (List (ℕ × Bool)) ErrorKind) (s : Server T)
      → Inv s
      → Inv (settle chan p s).1
  settle-Inv chan (ok l) s v = remove_ready-Rising 1 s.id_generator.next_id l s.pending_futures v
  settle-Inv chan (err e) s v = v

  -- A poll of the server keeps the keys of its pending futures rising and below the next key.
  pub poll-Inv : (chan : Channel T) (s : Server T) → Inv s → Inv (poll chan s).1
  unfolding poll
  poll-Inv chan s v =
      let d = drain_handler_chan s in
      let (p, g, o) = drain_handler_chan-SameFutures s in
      let r = poll_futures chan d.pending_futures in
      let rising : Rising 1 d.id_generator.next_id d.pending_futures = rw (p, g) v in
      settle-Inv chan r.polled
        (record d { pending_futures = r.futures; delivered = r.out ++ d.delivered })
        (poll_futures-Rising chan 1 d.id_generator.next_id d.pending_futures rising)

  push_future-Inv :
      (f : DrivableCall T) (s : Server T)
      → Inv s
      → 1 ≤ s.id_generator.next_id
      → s.id_generator.next_id + 1 < u64_mod
      → Inv (push_future f s)
  unfolding push_future
  push_future-Inv f s v low room =
      let e : (s.id_generator.next_id + 1) % u64_mod ≡ s.id_generator.next_id + 1 = omega arith in
      rw e (Rising-insert 1 s.id_generator.next_id f s.pending_futures low v)

  -- A request that comes in keeps the keys of the pending futures rising and below the next key,
  -- if the key generator is at least 1 and does not wrap.
  pub process_request-Inv :
      (chan : Channel T) (req : Request) (sink : T) (s : Server T)
      → Inv s
      → 1 ≤ s.id_generator.next_id
      → s.id_generator.next_id + 1 < u64_mod
      → Inv (process_request chan req sink s).1
  unfolding process_request
  process_request-Inv chan req sink s v low room =
      go (poll_call chan (driveable_future chan s.handler_map req sink))
    where
      go : (d : Driven T) → Inv (enqueue chan d s)
      go (waits f) = push_future-Inv f s v low room
      go (fails e) = push_future-Inv (failing e) s v low room
      go (finishes r) = v
