-- ===== src/Core/Client/Ending.antt =====
-- How the client's future ends: what it does once it shuts down, and what it resolves to.
use jsonrpc_client_rs.Base.{
  ℕ, zero, suc, ◌+◌, num_eq, replicate, ◌≡◌, refl, ap, ◌∙◌, Option, none, some, if◌then◌else◌, true,
  false, arith,
}
use jsonrpc_client_rs.Base.Action.{Result, ok, err, Does}
use jsonrpc_client_rs.Poll.{Async, ready, not_ready}
use jsonrpc_client_rs.Core.Types.{ErrorKind, shutdown}
use jsonrpc_client_rs.Core.Serialize.{Serde, incoming_from_str, IncomingMessage, request, response}
use jsonrpc_client_rs.Core.Client.{
  Client, ServerHandler, Stop, raised, panicked, SinkAnswer, taken, busy, broken, close,
}
use jsonrpc_client_rs.Core.Client.Incoming.{
  complete_call, handle_response, process_request, on_message, handle_transport_rx_payload,
  poll_transport_rx,
}
use jsonrpc_client_rs.Core.Client.Drive.{
  should_shut_down, finish, close_transport, handle_messages, handle_shutdown, after_messages, poll,
  polls,
}
use jsonrpc_client_rs.Core.Client.Rules.{poll_transport_rx-Does}

-- What the future answers when the transport answered to `close` and an error is or is not stored.
abbrev pub verdict : SinkAnswer → Option ErrorKind → Result (Async (Unit {0})) Stop
verdict busy e = ok not_ready
verdict taken none = ok (ready tt)
verdict taken (some e) = err (raised e)
verdict broken none = ok (ready tt)
verdict broken (some e) = err (raised e)

-- What is stored behind that.
abbrev pub left_over : SinkAnswer → Option ErrorKind → Option ErrorKind
left_over busy e = e
left_over taken e = none
left_over broken e = none

-- The error that is stored when `handle_messages` returned `r` and `e` was stored before.
abbrev stored : Stop → Option ErrorKind → Option ErrorKind
stored (raised shutdown) e = e
stored (raised x) e = some x
stored panicked e = e

-- What a poll answers that had the result `r`, and what stays stored.
abbrev pub resolves :
    Result (Unit {0}) Stop → SinkAnswer → Option ErrorKind → Result (Async (Unit {0})) Stop
resolves (ok _) answer e = ok not_ready
resolves (err (raised x)) answer e = verdict answer (stored (raised x) e)
resolves (err panicked) answer e = err panicked

abbrev pub keeps : Result (Unit {0}) Stop → SinkAnswer → Option ErrorKind → Option ErrorKind
keeps (ok _) answer e = e
keeps (err (raised x)) answer e = left_over answer (stored (raised x) e)
keeps (err panicked) answer e = e

module _ {S T : Type 0} where
  -- What reading from the transport leaves alone.
  abbrev pub Outbound : Client S T → Client S T → Type 0
  Outbound c d =
      (d.transport_tx ≡ c.transport_tx)
      × (d.pending_payload ≡ c.pending_payload)
      × (d.outgoing_payload_rx ≡ c.outgoing_payload_rx)
      × (d.id_generator ≡ c.id_generator)
      × (d.fatal_error ≡ c.fatal_error)
      × (d.shutting_down ≡ c.shutting_down)

  Outbound-trans : (a b c : Client S T) → Outbound a b → Outbound b c → Outbound a c
  Outbound-trans a b c (p, q, r, s, t, u) (p', q', r', s', t', u') =
      (p' ∙ p, q' ∙ q, r' ∙ r, s' ∙ s, t' ∙ t, u' ∙ u)

  on_message-Outbound :
      (server : ServerHandler S T) (m : Result IncomingMessage ErrorKind)
      → Does Outbound (on_message server m)
  unfolding process_request handle_response complete_call
  on_message-Outbound server (ok (request req)) c = (refl, refl, refl, refl, refl, refl)
  on_message-Outbound server (ok (response o)) c = ground arith
  on_message-Outbound server (err e) c = (refl, refl, refl, refl, refl, refl)

  shuts : (c : Client S T) (e : ErrorKind) → c.fatal_error ≡ some e → should_shut_down c ≡ true
  unfolding should_shut_down
  shuts c e h = ground arith

  module _ (serde : Serde) (server : ServerHandler S T) where
    pub poll_transport_rx-Outbound : Does Outbound (poll_transport_rx serde server)
    unfolding handle_transport_rx_payload
    poll_transport_rx-Outbound =
        poll_transport_rx-Does Outbound Outbound-trans serde server
          (λ rest c. (refl, refl, refl, refl, refl, refl))
          (λ payload. on_message-Outbound server (incoming_from_str serde payload))

    -- Closing sends nothing and takes no message; it answers by the transport's answer to `close`
    -- and the stored error, which it hands out once.
    pub handle_shutdown_lem :
        (c : Client S T)
        → let (r, d) = handle_shutdown serde server c in
          let (answer, tx) = close c.transport_tx in
          (r ≡ verdict answer c.fatal_error)
          × (d.transport_tx ≡ tx)
          × (d.fatal_error ≡ left_over answer c.fatal_error)
          × (d.pending_payload ≡ c.pending_payload)
          × (d.outgoing_payload_rx ≡ c.outgoing_payload_rx)
          × (d.id_generator ≡ c.id_generator)
          × (d.shutting_down ≡ c.shutting_down)
    unfolding handle_shutdown close_transport finish
    handle_shutdown_lem c = ground (arith, poll_transport_rx-Outbound c)

    -- A poll of a client that is shutting down sends nothing, takes no message from the outgoing
    -- channels, issues no id and leaves the payload that waits; it waits while the transport is
    -- busy closing, and else resolves to the stored error if there is one, also when closing
    -- fails.
    pub poll_shutting_down :
        (c : Client S T)
        → should_shut_down c ≡ true
        → let (r, d) = poll serde server c in
          let (answer, tx) = close c.transport_tx in
          (r ≡ verdict answer c.fatal_error)
          × (d.transport_tx ≡ tx)
          × (d.fatal_error ≡ left_over answer c.fatal_error)
          × (d.pending_payload ≡ c.pending_payload)
          × (d.outgoing_payload_rx ≡ c.outgoing_payload_rx)
          × (d.id_generator ≡ c.id_generator)
          × (d.shutting_down ≡ c.shutting_down)
    unfolding poll
    poll_shutting_down c h = rw h (handle_shutdown_lem c)

    -- A poll of a client that is not shutting down answers as the result of handle_messages says:
    -- success keeps it waiting; any error but Shutdown is stored and is what the client resolves
    -- to, in this poll unless the transport is busy closing; Shutdown ends the client with the
    -- error stored before, if there is one; a panic stays one.
    pub poll_running :
        (c : Client S T)
        → should_shut_down c ≡ false
        → let (r, d) = handle_messages serde server c in
          let (answer, _) = close d.transport_tx in
          let (result, e) = poll serde server c in
          (result ≡ resolves r answer d.fatal_error)
          × (e.fatal_error ≡ keeps r answer d.fatal_error)
    unfolding poll
    poll_running c h =
        rw h (go (handle_messages serde server c).0 (handle_messages serde server c).1)
      where
        go :
            (r : Result (Unit {0}) Stop) (d : Client S T)
            → let (answer, _) = close d.transport_tx in
              let (result, e) = after_messages serde server r d in
              (result ≡ resolves r answer d.fatal_error)
              × (e.fatal_error ≡ keeps r answer d.fatal_error)
        go (ok _) d = ground arith
        go (err (raised shutdown)) d =
            ground (arith, handle_shutdown_lem (record d { shutting_down = true }))
        go (err (raised x)) d =
            ground (arith, handle_shutdown_lem (record d { fatal_error = some x }))
        go (err panicked) d = ground arith

    closing_state :
        (k n m : ℕ) (c : Client S T) (e : ErrorKind)
        → m ≡ k + n
        → c.fatal_error ≡ some e
        → c.transport_tx.closes ≡ replicate m busy
        → ((polls serde server k c).fatal_error ≡ some e)
          × ((polls serde server k c).transport_tx.closes ≡ replicate n busy)
    unfolding polls
    closing_state zero n m c e eq h b = (h, b ∙ ap (λ x. replicate x busy) (omega arith))
    closing_state (suc k) n m c e eq h b =
        let d = polls serde server k c in
        let (f, l) = closing_state k (suc n) m c e (omega arith) h b in
        ground (arith, poll_shutting_down d (shuts d e f))

    -- A client that stored an error resolves to that error: if the transport puts off closing k +
    -- n times, then after k polls the next poll waits if n is not 0, and returns the error if n
    -- is 0.
    pub fatal_error_reported :
        (k n : ℕ) (c : Client S T) (e : ErrorKind)
        → c.fatal_error ≡ some e
        → c.transport_tx.closes ≡ replicate (k + n) busy
        → (poll serde server (polls serde server k c)).0
          ≡ (if num_eq n 0 then err (raised e) else ok not_ready)
    fatal_error_reported k n c e h b =
        let (f, l) = closing_state k n (k + n) c e refl h b in go n (polls serde server k c) f l
      where
        go :
            (n : ℕ) (d : Client S T)
            → d.fatal_error ≡ some e
            → d.transport_tx.closes ≡ replicate n busy
            → (poll serde server d).0 ≡ (if num_eq n 0 then err (raised e) else ok not_ready)
        go zero d f l = ground (arith, poll_shutting_down d (shuts d e f))
        go (suc n) d f l = ground (arith, poll_shutting_down d (shuts d e f))
