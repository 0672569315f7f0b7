-- ===== src/Core/System/Peer.antt =====
-- A call of the peer, from its text on the transport to the text of its answer, through
-- core/src/lib.rs and core/src/server.rs.
use jsonrpc_client_rs.Base.{
  ℕ, zero, suc, String, ◌+◌, ◌≤◌, ◌<◌, ◌≡◌, refl, ◌∙◌, inl, some, [], ◌∷◌, string_key, nat_key,
  arith,
}
use jsonrpc_client_rs.Base.Action.{ok}
use jsonrpc_client_rs.Base.Assoc.{lookup, insert, lookup-insert_self}
use jsonrpc_client_rs.Poll.{item, Fut, now, after}
use jsonrpc_client_rs.SelectWeak.Full.{Among}
use jsonrpc_client_rs.Core.Types.{Response, Request, MethodCall, method_call, Output, ErrorKind}
use jsonrpc_client_rs.Core.IdGenerator.{u64_mod}
use jsonrpc_client_rs.Core.Serialize.{Serde, incoming_from_str, request}
use jsonrpc_client_rs.Core.Server.Handlers.{on_method, handle_single_call, handle_method_call}
use jsonrpc_client_rs.Core.Server.Drivable.{
  DrivableCall, waits, Channel, poll_call, driveable_future,
}
use jsonrpc_client_rs.Core.Server.State.{
  Server, push_future, drain_handler_chan, poll_futures, settle, process_request,
}
use jsonrpc_client_rs.Core.Server.State
use jsonrpc_client_rs.Core.Server.Pending.{sent, survivors}
use jsonrpc_client_rs.Core.Server.Driving.{Inv, poll_calm, poll-Inv, process_request-Inv}
use jsonrpc_client_rs.Core.Server.Serving.{
  Has-left, AllCalm, Delivers, first_error-AllCalm, survivors-AllCalm, lookup-survivors, Has-sent,
  insert-AllCalm, Calm-Delivers, after-Delivers,
}
use jsonrpc_client_rs.Core.System.{ServerClient, poll, polls}
use jsonrpc_client_rs.Core.System.Outgoing.{Prints, Running}
use jsonrpc_client_rs.Core.System.Turn.{poll_quiet, poll_request, asked}

-- A poll of the server leaves the handlers as the messages of its handles made them.
poll-handler_map :
    {T : Type 0} (chan : Channel T) (s : Server T)
    → (State.poll chan s).1.handler_map ≡ (drain_handler_chan s).handler_map
unfolding State.poll
poll-handler_map chan s = ground arith

-- A request whose future waits is kept under the next key.
process_request-pending :
    {T : Type 0} (chan : Channel T) (req : Request) (sink : T) (s : Server T) (g : DrivableCall T)
    → poll_call chan (driveable_future chan s.handler_map req sink) ≡ waits g
    → (process_request chan req sink s).1.pending_futures
      ≡ insert s.id_generator.next_id g s.pending_futures
unfolding process_request push_future
process_request-pending chan req sink s g h = rw h refl

module _ {T : Type 0} (serde : Serde) (chan : Channel T) (prints : Prints serde) where
  -- A client that behaves and has read everything, and whose server meets no error in `n` polls.
  abbrev Steady : ℕ → ServerClient T → Type 0
  Steady n c =
      Running c
      × (c.transport_rx ≡ [])
      × Inv c.server_handler
      × AllCalm chan n c.server_handler.pending_futures

  poll-Steady : (n : ℕ) (c : ServerClient T) → Steady (suc n) c → Steady n (poll serde chan c).1
  poll-Steady n c (run, read, v, calm) =
      let s = c.server_handler in
      let (fine, p, _, _) =
        poll_calm chan s v (first_error-AllCalm chan n s.pending_futures calm) in
      let (after, e, _, x, _) = poll_quiet serde chan prints c run fine read in
      (
        after,
        x,
        rw e (poll-Inv chan s v),
        rw (e, p) (survivors-AllCalm chan n s.pending_futures calm),
      )

  -- What the transport took stays taken.
  polls-keep :
      (n : ℕ) (text : String) (c : ServerClient T)
      → Steady n c
      → Among text c.transport_tx.accepted
      → Among text (polls serde chan n c).transport_tx.accepted
  unfolding polls
  polls-keep zero text c steady h = h
  polls-keep (suc n) text c steady h =
      let (run, read, v, calm) = steady in
      let s = c.server_handler in
      let (fine, _, _, _) =
        poll_calm chan s v (first_error-AllCalm chan n s.pending_futures calm) in
      let (_, _, _, _, (_, keeps)) = poll_quiet serde chan prints c run fine read in
      polls-keep n text (poll serde chan c).1 (poll-Steady n c steady) (keeps text h)

  -- The answer of a future that is under way reaches the transport.
  polls-Delivers :
      (n key : ℕ) (f : DrivableCall T) (r : Response) (text : String) (c : ServerClient T)
      → Steady (suc n) c
      → lookup key c.server_handler.pending_futures ≡ some f
      → Delivers chan n f r
      → serde.response_to_string r ≡ some text
      → Among text (polls serde chan (suc n) c).transport_tx.accepted
  unfolding polls
  polls-Delivers zero key f r text c (run, read, v, calm) found d prints_r =
      let s = c.server_handler in
      let (fine, _, out, _) =
        poll_calm chan s v (first_error-AllCalm chan 0 s.pending_futures calm) in
      let (_, _, _, _, (puts, _)) = poll_quiet serde chan prints c run fine read in
      puts r text
        (rw out (
          Has-left r (sent chan s.pending_futures) s.delivered
            (Has-sent chan key f r s.pending_futures found d)))
        prints_r
  polls-Delivers (suc n) key f r text c steady found (g, w, d) prints_r =
      let (run, read, v, calm) = steady in
      let s = c.server_handler in
      let (fine, p, _, _) =
        poll_calm chan s v (first_error-AllCalm chan (suc n) s.pending_futures calm) in
      let (_, e, _, _, _) = poll_quiet serde chan prints c run fine read in
      polls-Delivers n key g r text (poll serde chan c).1 (poll-Steady (suc n) c steady)
        (rw (e, p) (lookup-survivors chan key f g s.pending_futures found w)) d prints_r

  -- A request whose future answers at its poll number `n`, counted from 0.
  pub request_answered :
      (n : ℕ) (c : ServerClient T) (payload : String) (req : Request) (r : Response) (text : String)
      → Running c
      → c.transport_rx ≡ item payload ∷ []
      → Inv c.server_handler
      → 1 ≤ c.server_handler.id_generator.next_id
      → c.server_handler.id_generator.next_id + 1 < u64_mod
      → AllCalm chan (suc n) c.server_handler.pending_futures
      → incoming_from_str serde payload ≡ ok (request req)
      → Delivers chan n
          (driveable_future chan
            (drain_handler_chan c.server_handler).handler_map
            req
            c.server_response_tx)
          r
      → serde.response_to_string r ≡ some text
      → Among text (polls serde chan (suc n) c).transport_tx.accepted
  unfolding polls
  request_answered zero c payload req r text run one v low room calm parses d prints_r =
      let s = c.server_handler in
      let (fine, _, _, _) =
        poll_calm chan s v (first_error-AllCalm chan 0 s.pending_futures calm) in
      let (_, _, _, _, (puts, _)) =
        poll_request serde chan prints c payload req run fine one parses in
      puts r text (unfold process_request in rw (poll-handler_map chan s, d) (inl refl)) prints_r
  request_answered (suc n) c payload req r text run one v low room calm parses (g, w, d) prints_r =
      let s = c.server_handler in
      let (fine, p, _, i) =
        poll_calm chan s v (first_error-AllCalm chan (suc n) s.pending_futures calm) in
      let s1 = record (State.poll chan s).1 { delivered = [] } in
      let t = asked serde chan prints req c in
      let (after, e, _, x, _) = poll_request serde chan prints c payload req run fine one parses in
      let pushed : t.pending_futures
          ≡ insert s.id_generator.next_id g (survivors chan s.pending_futures) =
        process_request-pending chan req c.server_response_tx s1 g (rw (poll-handler_map chan s) w)
        ∙ rw (p, i) refl in
      polls-Delivers n s.id_generator.next_id g r text (poll serde chan c).1
        (
          after,
          x,
          rw e (
              process_request-Inv chan req c.server_response_tx s1 (poll-Inv chan s v) (rw i low)
                (rw i room)),
          rw (e, pushed)
              (insert-AllCalm chan (suc n) s.id_generator.next_id g
                (survivors chan s.pending_futures) (Calm-Delivers chan n g r d)
                (survivors-AllCalm chan (suc n) s.pending_futures calm)),
        )
        (rw (e, pushed)
          (lookup-insert_self s.id_generator.next_id g (survivors chan s.pending_futures)))
        d prints_r

  -- A client that is neither shutting down nor failed, over a transport that takes what it is
  -- given, with no payload held back and only messages in its channels, is brought one text that
  -- is read as a method call. If serde writes every response, the keys of its server are in order
  -- with room for one more, the futures that the server has under way meet no error in n + 1
  -- polls, a method callback is set under the name once the messages of the handles are taken, it
  -- answers the call at its poll n, counted from 0, and the channel takes the response, then
  -- after n + 1 polls of the client the text of that response is among those that the transport
  -- took.
  pub peer_call_answered :
      (n : ℕ) (c : ServerClient T) (payload : String) (call : MethodCall)
      (handler : MethodCall → Fut Output ErrorKind) (out : Output) (text : String)
      → Running c
      → c.transport_rx ≡ item payload ∷ []
      → Inv c.server_handler
      → 1 ≤ c.server_handler.id_generator.next_id
      → c.server_handler.id_generator.next_id + 1 < u64_mod
      → AllCalm chan (suc n) c.server_handler.pending_futures
      → incoming_from_str serde payload ≡ ok (request (Request.single (method_call call)))
      → lookup call.method (drain_handler_chan c.server_handler).handler_map.handlers
        ≡ some (on_method handler)
      → handler call ≡ after n (ok out)
      → chan.send c.server_response_tx (Response.single out) ≡ now (ok tt)
      → serde.response_to_string (Response.single out) ≡ some text
      → Among text (polls serde chan (suc n) c).transport_tx.accepted
  peer_call_answered n c payload call handler out text run one v low room calm parses found answers
        sends writes =
      let sink = c.server_response_tx in
      request_answered n c payload (Request.single (method_call call)) (Response.single out) text
        run one v low room calm parses
        (unfold driveable_future handle_single_call handle_method_call in
          rw (found, answers) (after-Delivers chan n sink out sends))
        writes
