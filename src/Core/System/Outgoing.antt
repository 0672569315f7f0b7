-- ===== src/Core/System/Outgoing.antt =====
-- The outgoing messages of a client over a transport that takes what it is given, from
-- `poll_outgoing_messages` to `poll_transport_tx` of core/src/lib.rs.
use jsonrpc_client_rs.Base.{
  ℕ, zero, suc, String, ◌≡◌, refl, sym, ap, ◌∙◌, inl, inr, subst, none, some, List, [], ◌∷◌, ◌++◌,
  is_some, true, false, append-nil, arith,
}
use jsonrpc_client_rs.Base.Action.{Result, ok, ◌>>◌, >>-continues}
use jsonrpc_client_rs.Poll.{Answer, item, finished, waiting, failed}
use jsonrpc_client_rs.SelectWeak.Serves.{Channels}
use jsonrpc_client_rs.SelectWeak.Full.{
  Among, Full, Queued, Served, Served-is, Served-Full, Serves-Among,
}
use jsonrpc_client_rs.Core.Types.{Response}
use jsonrpc_client_rs.Core.Serialize.{Serde}
use jsonrpc_client_rs.Core.IdGenerator.{IdGenerator}
use jsonrpc_client_rs.Core.Client.{
  Client, OutgoingMessage, rpc_call, notification, response, Method, Stop,
}
use jsonrpc_client_rs.Core.Client.Send.{send_payload, add_new_call, poll_transport_tx}
use jsonrpc_client_rs.Core.Client.Outgoing.{
  issue_call, issue_notification, issue_response, poll_rx, handle_client_payload, on_outgoing,
  outgoing_round, outgoing_loop, poll_outgoing_messages,
}
use jsonrpc_client_rs.Core.Client.Loop.{waiting_messages}
use jsonrpc_client_rs.Core.Client.Wire.{text, texts, gen_after, wire}
use jsonrpc_client_rs.Core.Client.Flush.{outgoing_loop-Flushed}
use jsonrpc_client_rs.Core.Client.Order.{outgoing_loop-Writes}

-- serde writes every response, as it does for a value that is already JSON.
abbrev pub Prints : Serde → Type 0
Prints serde = (r : Response) → is_some (serde.response_to_string r) ≡ true

Among-left : {A : Type 0} (p : A) (xs ys : List A) → Among p xs → Among p (xs ++ ys)
Among-left p [] ys h = absurd h
Among-left p (x ∷ xs) ys (inl e) = inl e
Among-left p (x ∷ xs) ys (inr h) = inr (Among-left p xs ys h)

Among-right : {A : Type 0} (p : A) (xs ys : List A) → Among p ys → Among p (xs ++ ys)
Among-right p [] ys h = h
Among-right p (x ∷ xs) ys h = inr (Among-right p xs ys h)

-- The text of a response is among those of the messages that it is among.
texts-Among :
    (serde : Serde) (g : IdGenerator) (r : Response) (p : String) (ms : List OutgoingMessage)
    → serde.response_to_string r ≡ some p
    → Among (response r) ms
    → Among p (texts serde g ms)
texts-Among serde g r p [] e h = absurd h
texts-Among serde g r p (m ∷ ms) e (inl h) =
    Among-left p (text serde g m) (texts serde (gen_after serde g m) ms)
      (subst (λ x. Among p (text serde g x)) (sym h) (rw e (inl refl)))
texts-Among serde g r p (m ∷ ms) e (inr h) =
    Among-right p (text serde g m) (texts serde (gen_after serde g m) ms)
      (texts-Among serde (gen_after serde g m) r p ms e h)

module _ {S T : Type 0} where
  -- A client that runs over a transport that takes what it is given, with nothing held back and no
  -- end of its channels in sight.
  abbrev pub Running : Client S T → Type 0
  Running c =
      Full c.outgoing_payload_rx
      × (c.transport_tx.starts ≡ [])
      × (c.transport_tx.completes ≡ [])
      × (c.pending_payload ≡ none)
      × (c.fatal_error ≡ none)
      × (c.shutting_down ≡ false)

  -- What the outgoing side leaves alone.
  abbrev pub Inbound : Client S T → Client S T → Type 0
  Inbound c d =
      (d.server_handler ≡ c.server_handler)
      × (d.server_response_tx ≡ c.server_response_tx)
      × (d.transport_rx ≡ c.transport_rx)

  -- A method that succeeds on such a client, and what it leads to.
  abbrev pub Goes : Client S T → Result (Unit {0}) Stop × Client S T → Type 0
  Goes c (r, d) = (r ≡ ok tt) × Running d × Inbound c d

  module _ (serde : Serde) (prints : Prints serde) where
    handle_client_payload-Goes :
        (m : OutgoingMessage) (c : Client S T)
        → Running c
        → Goes c (handle_client_payload serde m c)
    unfolding handle_client_payload issue_call issue_notification issue_response add_new_call
        send_payload
    handle_client_payload-Goes (rpc_call method p chan) c h = ground arith
    handle_client_payload-Goes (notification method p chan) c h = ground arith
    handle_client_payload-Goes (response r) c h = ground (arith, prints r)

    Goes-trans :
        (c d : Client S T) (q : Result (Unit {0}) Stop × Client S T)
        → Inbound c d
        → Goes d q
        → Goes c q
    Goes-trans c d (r, e) (s, t, u) (fine, run, (s', t', u')) =
        (fine, run, (s' ∙ s, t' ∙ t, u' ∙ u))

    poll_rx-Running : (c : Client S T) → Running c → Running (poll_rx c).1
    unfolding poll_rx
    poll_rx-Running c (full, a, b, p, f, o) = (
      Served-Full c.outgoing_payload_rx (poll_rx c).0 (poll_rx c).1.outgoing_payload_rx
          (Served-is c.outgoing_payload_rx refl full),
      a,
      b,
      p,
      f,
      o,
    )

    on_outgoing-Goes :
        (next : Method S T (Unit {0})) (a : Answer OutgoingMessage) (c : Client S T)
        → ((call : OutgoingMessage)
            → a ≡ item call
            → let d = (handle_client_payload serde call c).1 in Running d → Goes d (next d))
        → (rx : Channels OutgoingMessage) → Served rx a c.outgoing_payload_rx
        → Running c
        → Goes c (on_outgoing serde a next c)
    on_outgoing-Goes next (item m) c k rx s h =
        let (fine, run, same) = handle_client_payload-Goes m c h in
        let d = (handle_client_payload serde m c).1 in
        rw (>>-continues (handle_client_payload serde m) next c fine)
          (Goes-trans c d (next d) same (k m refl run))
    on_outgoing-Goes next waiting c k rx s h = (refl, h, (refl, refl, refl))
    on_outgoing-Goes next finished c k rx s h = absurd s
    on_outgoing-Goes next failed c k rx s h = absurd s

    outgoing_loop-Goes :
        (fuel : ℕ) (c : Client S T) → Running c → Goes c (outgoing_loop serde fuel c)
    unfolding outgoing_loop outgoing_round poll_rx
    outgoing_loop-Goes zero c h = (refl, h, (refl, refl, refl))
    outgoing_loop-Goes (suc fuel) c h =
        let (full, _, _, none_waits, _, _) = h in
        let next = outgoing_loop serde fuel in
        let none_held : is_some c.pending_payload ≡ false = rw none_waits refl in
        rw none_held (
          on_outgoing-Goes next (poll_rx c).0 (poll_rx c).1 (λ call e. outgoing_loop-Goes fuel _)
            c.outgoing_payload_rx (Served-is c.outgoing_payload_rx refl full) (poll_rx-Running c h))

    poll_transport_tx-Goes :
        (c : Client S T)
        → Running c
        → Goes c (poll_transport_tx c)
          × ((poll_transport_tx c).1.transport_tx.accepted ≡ c.transport_tx.accepted)
    unfolding poll_transport_tx
    poll_transport_tx-Goes c h = ground arith

    -- What the transport took, if nothing is held back.
    wire-accepted : (c : Client S T) → Running c → wire c ≡ c.transport_tx.accepted
    wire-accepted c (_, _, _, p, _, _) = rw p (append-nil c.transport_tx.accepted)

    -- What the outgoing channels hold is with the transport afterwards, and nothing else changed
    -- hands.
    pub outgoing_turn :
        (c : Client S T)
        → Running c
        → let q = (poll_outgoing_messages serde >> poll_transport_tx) c in
          Goes c q
          × ((r : Response) (p : String)
              → Queued (response r) c.outgoing_payload_rx
              → serde.response_to_string r ≡ some p
              → Among p q.1.transport_tx.accepted)
          × ((p : String) → Among p c.transport_tx.accepted → Among p q.1.transport_tx.accepted)
    unfolding poll_outgoing_messages
    outgoing_turn c h =
        let d = (poll_outgoing_messages serde c).1 in
        let (fine, run, same) = outgoing_loop-Goes (suc (waiting_messages c)) c h in
        let (end, kept) = poll_transport_tx-Goes d run in
        let (ms, wrote, _) = outgoing_loop-Writes serde (suc (waiting_messages c)) c fine in
        let written : d.transport_tx.accepted
            ≡ c.transport_tx.accepted ++ texts serde c.id_generator ms =
          sym (wire-accepted d run)
          ∙ wrote.written
          ∙ ap (λ x. x ++ texts serde c.id_generator ms) (wire-accepted c h) in
        let (full, _, _, none_held, _, _) = h in
        let drained =
          (outgoing_loop-Flushed serde (suc (waiting_messages c)) c (omega arith)
            ((h.1, none_held), full) fine).0 in
        rw (>>-continues (poll_outgoing_messages serde) poll_transport_tx c fine) (
          Goes-trans c d (poll_transport_tx d) same end,
          λ r p q e. subst (Among p) (sym (kept ∙ written)) (
              Among-right p c.transport_tx.accepted (texts serde c.id_generator ms) (
                texts-Among serde c.id_generator r p ms e
                  (Serves-Among (response r) wrote.served full drained q))),
          λ p q.
              subst (Among p) (sym (kept ∙ written))
                (Among-left p c.transport_tx.accepted (texts serde c.id_generator ms) q),
        )
