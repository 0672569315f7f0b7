-- ===== src/Core/Server/Serving.antt =====
-- The polls of the server in core/src/server.rs, from a request to its response.
use jsonrpc_client_rs.Base.{
  ℕ, zero, suc, ◌+◌, ◌≤◌, ◌<◌, ◌≡◌, refl, ap, ◌⊎◌, inl, inr, none, some, List, [], ◌∷◌, ◌++◌,
  nat_key, string_key, ◌==◌, false, arith, Bool-cases,
}
use jsonrpc_client_rs.Base.Action.{ok}
use jsonrpc_client_rs.Base.Assoc.{Assoc, lookup, insert, lookup-insert_self}
use jsonrpc_client_rs.Poll.{Fut, now, map_fut, after}
use jsonrpc_client_rs.Core.Types.{Request, Response, MethodCall, method_call, Output, ErrorKind}
use jsonrpc_client_rs.Core.IdGenerator.{u64_mod}
use jsonrpc_client_rs.Core.Server.Handlers.{on_method, handle_single_call, handle_method_call}
use jsonrpc_client_rs.Core.Server.Drivable.{
  DrivableCall, calling, Driven, waits, finishes, fails, Channel, poll_call, driveable_future,
}
use jsonrpc_client_rs.Core.Server.State.{Server, push_future, poll, process_request}
use jsonrpc_client_rs.Core.Server.Pending.{first_error, survivors, sent, keep_waiting, sent_by}
use jsonrpc_client_rs.Core.Server.Driving.{Inv, poll_calm, poll-Inv, process_request-Inv}
use jsonrpc_client_rs.Core.Server.Silence.{polls}

-- A response stands in a list.
abbrev pub Has : Response → List Response → Type 0
Has r [] = ⊥
Has r (x ∷ l) = (x ≡ r) ⊎ Has r l

pub Has-left : (r : Response) (xs ys : List Response) → Has r xs → Has r (xs ++ ys)
Has-left r [] ys h = absurd h
Has-left r (x ∷ xs) ys (inl e) = inl e
Has-left r (x ∷ xs) ys (inr h) = inr (Has-left r xs ys h)

Has-right : (r : Response) (xs ys : List Response) → Has r ys → Has r (xs ++ ys)
Has-right r [] ys h = h
Has-right r (x ∷ xs) ys h = inr (Has-right r xs ys h)

module _ {T : Type 0} (chan : Channel T) where
  -- A future that meets no error in its next `n` polls.
  abbrev pub Continues : (DrivableCall T → Type 0) → Driven T → Type 0
  Continues P (waits f) = P f
  Continues P (finishes r) = Unit {0}
  Continues P (fails e) = ⊥

  abbrev pub Calm : ℕ → DrivableCall T → Type 0
  Calm zero f = Unit {0}
  Calm (suc n) f = Continues (Calm n) (poll_call chan f)

  abbrev pub AllCalm : ℕ → Assoc ℕ (DrivableCall T) → Type 0
  AllCalm n [] = Unit {0}
  AllCalm n ((key, f) ∷ m) = Calm n f × AllCalm n m

  -- A future that waits in its first `n` polls and sends a response in the next.
  abbrev pub Delivers : ℕ → DrivableCall T → Response → Type 0
  Delivers zero f r = poll_call chan f ≡ finishes (r ∷ [])
  Delivers (suc n) f r = (g : DrivableCall T) × (poll_call chan f ≡ waits g) × Delivers n g r

  pub first_error-AllCalm :
      (n : ℕ) (m : Assoc ℕ (DrivableCall T)) → AllCalm (suc n) m → first_error chan m ≡ none
  unfolding first_error
  first_error-AllCalm n [] h = refl
  first_error-AllCalm n ((key, f) ∷ m) h = ground (arith, first_error-AllCalm n m h.1)

  pub survivors-AllCalm :
      (n : ℕ) (m : Assoc ℕ (DrivableCall T)) → AllCalm (suc n) m → AllCalm n (survivors chan m)
  unfolding survivors
  survivors-AllCalm n [] h = tt
  survivors-AllCalm n ((key, f) ∷ m) h = go (poll_call chan f) h.0 (survivors-AllCalm n m h.1)
    where
      go :
          (d : Driven T)
          → Continues (Calm n) d
          → AllCalm n (survivors chan m)
          → AllCalm n (keep_waiting key d (survivors chan m))
      go (waits g) c a = (c, a)
      go (finishes r) c a = a
      go (fails e) c a = absurd c

  pub lookup-survivors :
      (key : ℕ) (f g : DrivableCall T) (m : Assoc ℕ (DrivableCall T))
      → lookup key m ≡ some f
      → poll_call chan f ≡ waits g
      → lookup key (survivors chan m) ≡ some g
  unfolding lookup survivors
  lookup-survivors key f g [] h w = cc
  lookup-survivors key f g ((k, x) ∷ m) h w = elim (Bool-cases (key == k)) [
    | inl e ↦ let same : x ≡ f = ground (arith, e) in rw (same, w, keep_waiting) (ground (arith, e))
    | inr e ↦
        let kept = lookup-survivors key f g m (ground (arith, e)) w in go (poll_call chan x) e kept
  ]
    where
      go :
          (d : Driven T)
          → (key == k) ≡ false
          → lookup key (survivors chan m) ≡ some g
          → lookup key (keep_waiting k d (survivors chan m)) ≡ some g
      go (waits y) e i = rw e i
      go (finishes y) e i = i
      go (fails y) e i = i

  pub Has-sent :
      (key : ℕ) (f : DrivableCall T) (r : Response) (m : Assoc ℕ (DrivableCall T))
      → lookup key m ≡ some f
      → poll_call chan f ≡ finishes (r ∷ [])
      → Has r (sent chan m)
  unfolding lookup sent
  Has-sent key f r [] h w = cc
  Has-sent key f r ((k, x) ∷ m) h w = elim (Bool-cases (key == k)) [
    | inl e ↦
        let same : x ≡ f = ground (arith, e) in
        Has-right r (sent chan m) (sent_by (poll_call chan x)) (rw (same, w) (inl refl))
    | inr e ↦
        Has-left r (sent chan m) (sent_by (poll_call chan x))
          (Has-sent key f r m (ground (arith, e)) w)
  ]

  -- The polls of a state, the first of them made apart.
  polls-first : (n : ℕ) (s : Server T) → polls chan (suc n) s ≡ polls chan n (poll chan s).1
  unfolding polls
  polls-first zero s = refl
  polls-first (suc n) s = ap (λ t. (poll chan t).1) (polls-first n s)

  polls-keep :
      (n : ℕ) (r : Response) (s : Server T)
      → Inv s
      → AllCalm n s.pending_futures
      → Has r s.delivered
      → Has r (polls chan n s).delivered
  polls-keep zero r s v c h = unfold polls in h
  polls-keep (suc n) r s v c h =
      let (_, p, d, _) = poll_calm chan s v (first_error-AllCalm n s.pending_futures c) in
      rw (polls-first n s) (
        polls-keep n r (poll chan s).1 (poll-Inv chan s v)
          (rw p (survivors-AllCalm n s.pending_futures c))
          (rw d (Has-right r (sent chan s.pending_futures) s.delivered h)))

  polls-Delivers :
      (n key : ℕ) (f : DrivableCall T) (r : Response) (s : Server T)
      → Inv s
      → AllCalm (suc n) s.pending_futures
      → lookup key s.pending_futures ≡ some f
      → Delivers n f r
      → Has r (polls chan (suc n) s).delivered
  polls-Delivers zero key f r s v c h d =
      let (_, _, out, _) = poll_calm chan s v (first_error-AllCalm 0 s.pending_futures c) in
      rw (polls-first 0 s) (
        unfold polls in
        rw out (
          Has-left r (sent chan s.pending_futures) s.delivered
            (Has-sent key f r s.pending_futures h d)))
  polls-Delivers (suc n) key f r s v c h (g, w, d) =
      let (_, p, _, _) = poll_calm chan s v (first_error-AllCalm (suc n) s.pending_futures c) in
      rw (polls-first (suc n) s) (
        polls-Delivers n key g r (poll chan s).1 (poll-Inv chan s v)
          (rw p (survivors-AllCalm (suc n) s.pending_futures c))
          (rw p (lookup-survivors key f g s.pending_futures h w)) d)

  pub insert-AllCalm :
      (n key : ℕ) (f : DrivableCall T) (m : Assoc ℕ (DrivableCall T))
      → Calm n f
      → AllCalm n m
      → AllCalm n (insert key f m)
  unfolding insert
  insert-AllCalm n key f [] c a = (c, tt)
  insert-AllCalm n key f ((k, g) ∷ m) c a = elim (Bool-cases (key == k)) [
    | inl e ↦ rw e (c, a.1)
    | inr e ↦ rw e (a.0, insert-AllCalm n key f m c a.1)
  ]

  pub Calm-Delivers : (n : ℕ) (f : DrivableCall T) (r : Response) → Delivers n f r → Calm (suc n) f
  Calm-Delivers zero f r d = rw d tt
  Calm-Delivers (suc n) f r (g, w, d) = rw w (Calm-Delivers n g r d)

  -- A request whose future sends its response at its poll n is answered after n polls of the
  -- server.
  pub process_request_served :
      (req : Request) (sink : T) (r : Response) (n : ℕ) (s : Server T)
      → Inv s
      → 1 ≤ s.id_generator.next_id
      → s.id_generator.next_id + 1 < u64_mod
      → AllCalm n s.pending_futures
      → Delivers n (driveable_future chan s.handler_map req sink) r
      → Has r (polls chan n (process_request chan req sink s).1).delivered
  process_request_served req sink r zero s v low room c d =
      unfold polls process_request in rw d (inl refl)
  process_request_served req sink r (suc n) s v low room c (g, w, d) =
      let t = (process_request chan req sink s).1 in
      let pushed : t.pending_futures ≡ insert s.id_generator.next_id g s.pending_futures =
        unfold process_request push_future in rw w refl in
      polls-Delivers n s.id_generator.next_id g r t (process_request-Inv chan req sink s v low room)
        (rw pushed (
          insert-AllCalm (suc n) s.id_generator.next_id g s.pending_futures (Calm-Delivers n g r d)
            c))
        (rw pushed (lookup-insert_self s.id_generator.next_id g s.pending_futures)) d

  pub after-Delivers :
      (n : ℕ) (sink : T) (out : Output)
      → chan.send sink (Response.single out) ≡ now (ok tt)
      → Delivers n (calling (map_fut some (after n (ok out))) sink) (Response.single out)
  unfolding poll_call map_fut after
  after-Delivers zero sink out e = rw e refl
  after-Delivers (suc n) sink out e =
      (calling (map_fut some (after n (ok out))) sink, refl, after-Delivers n sink out e)

  -- A call of a method whose callback answers at its poll n, likewise.
  pub method_call_served :
      (call : MethodCall) (handler : MethodCall → Fut Output ErrorKind) (sink : T) (out : Output)
      (n : ℕ) (s : Server T)
      → Inv s
      → 1 ≤ s.id_generator.next_id
      → s.id_generator.next_id + 1 < u64_mod
      → AllCalm n s.pending_futures
      → lookup call.method s.handler_map.handlers ≡ some (on_method handler)
      → handler call ≡ after n (ok out)
      → chan.send sink (Response.single out) ≡ now (ok tt)
      → let t = (process_request chan (Request.single (method_call call)) sink s).1 in
        Has (Response.single out) (polls chan n t).delivered
  method_call_served call handler sink out n s v low room c found answers sends =
      process_request_served (Request.single (method_call call)) sink (Response.single out) n s v
        low room c
        (unfold driveable_future handle_single_call handle_method_call in
          rw (found, answers) (after-Delivers n sink out sends))
