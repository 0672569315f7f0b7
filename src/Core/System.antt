-- ===== src/Core/System.antt =====
-- The client of core/src/lib.rs with the default server of core/src/server.rs as its handler, and
-- the channel by which the server's responses come back to the client.
pub mod Outgoing
pub mod Relay
pub mod Turn
pub mod Peer
pub mod Registered
pub mod Start
pub mod Completed
pub mod Cut
pub mod Exchanged
mod Tests
use jsonrpc_client_rs.Base.{ℕ, zero, suc, if◌then◌else◌, List, [], ◌∷◌, ◌++◌}
use jsonrpc_client_rs.Base.Action.{ok, ◌>>◌, modify}
use jsonrpc_client_rs.Poll.{Async, Answer, item}
use jsonrpc_client_rs.Core.Types.{Response}
use jsonrpc_client_rs.Core.Serialize.{Serde}
use jsonrpc_client_rs.Core.Client.{Client, OutgoingMessage, response, Method}
use jsonrpc_client_rs.Core.Client.Send.{poll_transport_tx}
use jsonrpc_client_rs.Core.Client.Incoming.{poll_transport_rx, poll_server}
use jsonrpc_client_rs.Core.Client.Outgoing.{poll_outgoing_messages}
use jsonrpc_client_rs.Core.Client.Drive.{
  send_leftover, should_shut_down, handle_shutdown, after_messages,
}
use jsonrpc_client_rs.Core.Server.Drivable.{Channel}
use jsonrpc_client_rs.Core.Server.State.{Server, server_handler}

abbrev pub ServerClient : Type 0 → Type 0
ServerClient T = Client (Server T) T

-- `sink.send(OutgoingMessage::Response(..))`: the responses that went out, newest first, as the
-- receiver of the channel will answer them, oldest first.
abbrev pub sent_messages : List Response → List (Answer OutgoingMessage)
sent_messages [] = []
sent_messages (r ∷ l) = sent_messages l ++ item (response r) ∷ []

-- What the server sent stands in the channel that the client merges as the weak one, once the
-- future of the send has resolved; a channel of the code can hold it from the start of the send on.
unfoldable pub relay : {T : Type 0} → ServerClient T → ServerClient T
relay c = record c {
  outgoing_payload_rx = record c.outgoing_payload_rx {
    weak = c.outgoing_payload_rx.weak ++ sent_messages c.server_handler.delivered;
  };
  server_handler = record c.server_handler { delivered = [] };
}

module _ {T : Type 0} (serde : Serde) (chan : Channel T) where
  -- What `handle_messages` does once the server was polled.
  abbrev pub after_server : Method (Server T) T (Unit {0})
  after_server =
      poll_transport_rx serde (server_handler chan)
      >> (modify relay >> (poll_outgoing_messages serde >> poll_transport_tx))

  -- `handle_messages`, where what the server has sent is in the channel.
  unfoldable pub turn : Method (Server T) T (Unit {0})
  turn = send_leftover >> (poll_server (server_handler chan) >> (modify relay >> after_server))

  -- `Future::poll` of the client.
  unfoldable pub poll : Method (Server T) T (Async (Unit {0}))
  poll c =
      if should_shut_down c
      then handle_shutdown serde (server_handler chan) c
      else (let (r, d) = turn c in after_messages serde (server_handler chan) r d)

  -- The state after a number of polls.
  unfoldable pub polls : ℕ → ServerClient T → ServerClient T
  polls zero c = c
  polls (suc n) c = polls n (poll c).1
