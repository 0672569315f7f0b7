-- ===== src/Core/Client/Drive.antt =====
-- `should_shut_down`, `handle_messages`, `handle_shutdown` and `Future::poll` of `Client` in
-- core/src/lib.rs.
use jsonrpc_client_rs.Base.{ℕ, zero, suc, Bool, ◌||◌, none, some, is_some, if◌then◌else◌, true}
use jsonrpc_client_rs.Base.Action.{Result, ok, err, ◌>>◌}
use jsonrpc_client_rs.Poll.{Async, ready, not_ready}
use jsonrpc_client_rs.Core.Types.{shutdown}
use jsonrpc_client_rs.Core.Serialize.{Serde}
use jsonrpc_client_rs.Core.Client.{
  Client, SinkAnswer, taken, busy, broken, close, ServerHandler, Stop, raised, panicked, Method,
}
use jsonrpc_client_rs.Core.Client.Send.{send_payload, poll_transport_tx}
use jsonrpc_client_rs.Core.Client.Incoming.{poll_transport_rx, poll_server}
use jsonrpc_client_rs.Core.Client.Outgoing.{poll_outgoing_messages}

module _ {S T : Type 0} where
  unfoldable pub should_shut_down : Client S T → Bool
  should_shut_down c = is_some c.fatal_error || c.shutting_down

  -- `if let Some(payload) = self.pending_payload.take()`.
  unfoldable pub send_leftover : Method S T (Unit {0})
  send_leftover c = elim c.pending_payload [
    | some payload ↦ send_payload payload (record c { pending_payload = none })
    | none ↦ (ok tt, c)
  ]

  -- `self.fatal_error.take().map(Err).unwrap_or(Ok(Async::Ready(())))`.
  unfoldable pub finish : Method S T (Async (Unit {0}))
  finish c = elim c.fatal_error [
    | some e ↦ (err (raised e), record c { fatal_error = none })
    | none ↦ (ok (ready tt), c)
  ]

  abbrev pub closed : SinkAnswer → Method S T (Async (Unit {0}))
  closed busy c = (ok not_ready, c)
  closed taken c = finish c
  closed broken c = finish c

  unfoldable pub close_transport : Method S T (Async (Unit {0}))
  close_transport c =
      let (answer, tx) = close c.transport_tx in closed answer (record c { transport_tx = tx })

  module _ (serde : Serde) (server : ServerHandler S T) where
    unfoldable pub handle_messages : Method S T (Unit {0})
    handle_messages =
        send_leftover
        >> (poll_server server
            >> (poll_transport_rx serde server
                >> (poll_outgoing_messages serde >> poll_transport_tx)))

    -- An error of the last read from the transport is only logged.
    unfoldable pub handle_shutdown : Method S T (Async (Unit {0}))
    handle_shutdown c = close_transport (poll_transport_rx serde server c).1

    abbrev pub after_messages : Result (Unit {0}) Stop → Method S T (Async (Unit {0}))
    after_messages (ok _) c = (ok not_ready, c)
    after_messages (err (raised shutdown)) c = handle_shutdown (record c { shutting_down = true })
    after_messages (err (raised e)) c = handle_shutdown (record c { fatal_error = some e })
    after_messages (err panicked) c = (err panicked, c)

    unfoldable pub poll : Method S T (Async (Unit {0}))
    poll c =
        if should_shut_down c
        then handle_shutdown c
        else (let (r, c') = handle_messages c in after_messages r c')

    -- The state after a number of polls.
    unfoldable pub polls : ℕ → Client S T → Client S T
    polls zero c = c
    polls (suc n) c = (poll (polls n c)).1
