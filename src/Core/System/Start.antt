-- ===== src/Core/System/Start.antt =====
-- How a client of core/src/lib.rs is made: `Client::new`, `Transport::into_client`,
-- `Client::with_server` and `DuplexTransport::with_server`.
use jsonrpc_client_rs.Base.{String, ◌≡◌, refl, some, List, [], ◌∷◌, string_key, arith}
use jsonrpc_client_rs.Base.Action.{ok}
use jsonrpc_client_rs.Base.Assoc.{lookup}
use jsonrpc_client_rs.Poll.{Answer, item, now}
use jsonrpc_client_rs.SelectWeak.{select_with_weak}
use jsonrpc_client_rs.SelectWeak.Full.{Among, Full}
use jsonrpc_client_rs.Core.IdGenerator
use jsonrpc_client_rs.Core.Types.{
  Response, Request, MethodCall, method_call, failure, v2, method_not_found,
}
use jsonrpc_client_rs.Core.Serialize.{Serde, incoming_from_str, request}
use jsonrpc_client_rs.Core.Client.{Client, OutgoingMessage, TransportTx}
use jsonrpc_client_rs.Core.Client.Send.{new_with_server}
use jsonrpc_client_rs.Core.Server.Handlers.{handle_single_call, handle_method_call}
use jsonrpc_client_rs.Core.Server.Handlers
use jsonrpc_client_rs.Core.Server.Drivable.{Channel, poll_call, driveable_future}
use jsonrpc_client_rs.Core.Server.State.{Server, Event, closes, drain_handler_chan, drain}
use jsonrpc_client_rs.Core.Server.State
use jsonrpc_client_rs.Core.System.{ServerClient, polls}
use jsonrpc_client_rs.Core.System.Outgoing.{Prints}
use jsonrpc_client_rs.Core.System.Peer.{request_answered}

-- `trait Transport`: the pair of a sink and a stream that `io_pair` makes of it.
pub record Transport : Type 0 where
  pub sink : TransportTx
  pub stream : List (Answer String)

-- What the two channels of a client will bring, and the sending end of the second.
pub record Ends (T : Type 0) : Type 0 where
  pub client_handle_rx : List (Answer OutgoingMessage)
  pub server_response_rx : List (Answer OutgoingMessage)
  pub server_response_tx : T

-- `Client::with_server` and `DuplexTransport::with_server`.
unfoldable pub with_server : {S T : Type 0} → Transport → S → Ends T → Client S T
unfolding new_with_server
with_server transport server ends =
    new_with_server ends.client_handle_rx ends.server_response_rx transport.sink transport.stream
      server ends.server_response_tx

-- `Client::new`: the handle of the server is dropped, so its channel is closed.
unfoldable pub new : {T : Type 0} → Transport → Ends T → ServerClient T
unfolding State.new new_with_server
new transport ends =
    new_with_server ends.client_handle_rx ends.server_response_rx transport.sink transport.stream
      (State.new (closes ∷ [])) ends.server_response_tx

-- `Transport::into_client`.
unfoldable pub into_client : {T : Type 0} → Transport → Ends T → ServerClient T
unfolding new
into_client transport ends = new transport ends

module _ {T : Type 0} (serde : Serde) (chan : Channel T) (prints : Prints serde) where
  -- A client made by into_client, whose server can have no callback, answers a method call that
  -- the transport brings with Method not found: over a transport that takes what it is given and
  -- brings that one text, with channels that hold messages alone, if the channel takes the
  -- response and serde writes every response, its text is among those that the transport took
  -- after one poll.
  pub into_client_refuses :
      (transport : Transport) (ends : Ends T) (payload text : String) (call : MethodCall)
      → transport.sink.starts ≡ []
      → transport.sink.completes ≡ []
      → transport.stream ≡ item payload ∷ []
      → Full (select_with_weak ends.client_handle_rx ends.server_response_rx)
      → incoming_from_str serde payload ≡ ok (request (Request.single (method_call call)))
      → chan.send ends.server_response_tx
          (Response.single (failure (some v2) method_not_found call.id))
        ≡ now (ok tt)
      → serde.response_to_string (Response.single (failure (some v2) method_not_found call.id))
        ≡ some text
      → Among text (polls serde chan 1 (into_client transport ends)).transport_tx.accepted
  unfolding into_client new new_with_server select_with_weak State.new Handlers.new IdGenerator.new
  into_client_refuses transport ends payload text call starts completes stream full parses sends
        writes =
      request_answered serde chan prints 0 (into_client transport ends) payload
        (Request.single (method_call call))
        (Response.single (failure (some v2) method_not_found call.id)) text
        (full, starts, completes, refl, refl, refl) stream (omega arith) (omega arith) (omega arith)
        tt parses
        (unfold drain_handler_chan drain driveable_future handle_single_call handle_method_call
            lookup poll_call Handlers.failure in
          rw sends refl)
        writes
