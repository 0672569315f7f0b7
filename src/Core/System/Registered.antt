-- ===== src/Core/System/Registered.antt =====
-- A client of core/src/lib.rs that was just made with a server of core/src/server.rs.
use jsonrpc_client_rs.Base.{ℕ, suc, String, ◌≡◌, refl, some, [], ◌∷◌, string_key, arith, ==_self}
use jsonrpc_client_rs.Base.Action.{ok}
use jsonrpc_client_rs.Base.Assoc.{lookup, insert}
use jsonrpc_client_rs.Poll.{item, Fut, now, after}
use jsonrpc_client_rs.SelectWeak.{select_with_weak}
use jsonrpc_client_rs.SelectWeak.Full.{Among}
use jsonrpc_client_rs.Core.IdGenerator
use jsonrpc_client_rs.Core.Types.{Response, Request, MethodCall, method_call, Output, ErrorKind}
use jsonrpc_client_rs.Core.Serialize.{Serde, incoming_from_str, request}
use jsonrpc_client_rs.Core.Client.{TransportTx}
use jsonrpc_client_rs.Core.Client.Send.{new_with_server}
use jsonrpc_client_rs.Core.Server.Handlers.{on_method, add}
use jsonrpc_client_rs.Core.Server.Handlers
use jsonrpc_client_rs.Core.Server.Drivable.{Channel}
use jsonrpc_client_rs.Core.Server.State.{
  Server, arrives, add_handler, drain_handler_chan, drain, handle_msg,
}
use jsonrpc_client_rs.Core.Server.State
use jsonrpc_client_rs.Core.System.{ServerClient, polls}
use jsonrpc_client_rs.Core.System.Outgoing.{Prints}
use jsonrpc_client_rs.Core.System.Peer.{peer_call_answered}

module _ {T : Type 0} (serde : Serde) (chan : Channel T) (prints : Prints serde) where
  -- A new client over a transport that takes what it is given and brings one text, whose server is
  -- sent one callback.
  abbrev pub starting :
      String → (MethodCall → Fut Output ErrorKind) → ℕ → String → T → TransportTx → ServerClient T
  starting name handler reply payload sink tx =
      new_with_server [] [] tx (item payload ∷ [])
        (State.new (arrives (add_handler name (on_method handler) reply) ∷ [])) sink

  -- A client that was just made, over a transport that takes what it is given and brings one
  -- text, with a server that is sent one method callback, answers the peer: if the text is read
  -- as a call of that method, the callback answers the call at its poll n, counted from 0, the
  -- channel takes the response, and serde writes every response, then after n + 1 polls of the
  -- client the text of that response is among those that the transport took.
  pub registered_call_answered :
      (n reply : ℕ) (payload : String) (call : MethodCall) (sink : T) (tx : TransportTx)
      (handler : MethodCall → Fut Output ErrorKind) (out : Output) (text : String)
      → tx.starts ≡ []
      → tx.completes ≡ []
      → incoming_from_str serde payload ≡ ok (request (Request.single (method_call call)))
      → handler call ≡ after n (ok out)
      → chan.send sink (Response.single out) ≡ now (ok tt)
      → serde.response_to_string (Response.single out) ≡ some text
      → Among text
          (polls serde chan
            (suc n)
            (starting call.method handler reply payload sink tx)).transport_tx.accepted
  unfolding new_with_server select_with_weak State.new Handlers.new IdGenerator.new
  registered_call_answered n reply payload call sink tx handler out text starts completes parses
        answers sends writes =
      peer_call_answered serde chan prints n (starting call.method handler reply payload sink tx)
        payload call handler out text ((tt, tt, refl), starts, completes, refl, refl, refl) refl
        (omega arith) (omega arith) (omega arith) tt parses
        (unfold drain_handler_chan drain handle_msg add lookup insert in
          ground (arith, ==_self call.method))
        answers sends writes
