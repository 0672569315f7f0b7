-- ===== src/Core/Handle.antt =====
-- `ClientHandle` of core/src/lib.rs and `ServerHandle` of core/src/server.rs: the futures that their
-- methods make, over the sending of a message into the channel and the receiving end of the oneshot
-- channel that the message carries, whose number is `tx`.
pub mod Calls
pub mod Notifications
pub mod Settled
pub mod Registration
mod Tests
use jsonrpc_client_rs.Base.{ℕ, String, Option}
use jsonrpc_client_rs.Base.Action.{Result, ok, err}
use jsonrpc_client_rs.Poll.{Fut, now, then_fut, map_err_fut}
use jsonrpc_client_rs.Core.Types.{Value, Params, ErrorKind, shutdown, deserialize_error}
use jsonrpc_client_rs.Core.Serialize.{serialize_parameters, or_err}
use jsonrpc_client_rs.Core.Client.{OutgoingMessage, rpc_call, notification}
use jsonrpc_client_rs.Core.Server.Handlers.{Handler, HandlerError, HandlerSettingError}
use jsonrpc_client_rs.Core.Server.Handlers
use jsonrpc_client_rs.Core.Server.State.{HandlerMsg, add_handler, remove_handler}

-- `send_client_call`. The conversion to the type of the result is serde's.
unfoldable pub send_client_call :
    {A : Type 0}
    → (Value → Option A)
    → (OutgoingMessage → Fut (Unit {0}) (Unit {0}))
    → Result OutgoingMessage ErrorKind
    → Fut (Result Value ErrorKind) (Unit {0})
    → Fut A ErrorKind
send_client_call from_value send client_call rx =
    then_fut
      (then_fut (then_fut (now client_call) λ call. map_err_fut (λ _. shutdown) (send call))
        λ _. then_fut (map_err_fut (λ _. shutdown) rx) now)
      λ r. now (or_err deserialize_error (from_value r))

-- `call_method`, on what serde makes of the parameters.
unfoldable pub call_method :
    {A : Type 0}
    → (Value → Option A)
    → (OutgoingMessage → Fut (Unit {0}) (Unit {0}))
    → String
    → Option Value
    → ℕ
    → Fut (Result Value ErrorKind) (Unit {0})
    → Fut A ErrorKind
unfolding send_client_call
call_method from_value send method parameters tx rx =
    then_fut (now (serialize_parameters parameters))
      λ params. send_client_call from_value send (ok (rpc_call method params tx)) rx

unfoldable pub send_notification :
    (OutgoingMessage → Fut (Unit {0}) (Unit {0}))
    → String
    → Option Value
    → ℕ
    → Fut (Result (Unit {0}) ErrorKind) (Unit {0})
    → Fut (Unit {0}) ErrorKind
send_notification send method parameters tx rx =
    then_fut
      (then_fut
        (then_fut (now (serialize_parameters parameters))
          λ params. map_err_fut (λ _. shutdown) (send (notification method params tx)))
        λ _. map_err_fut (λ _. shutdown) rx)
      now

-- What `ServerHandle::add` fails with, or that it panics at `unreachable!()`.
pub data AddStop : Type 0 where
  refused : HandlerSettingError → AddStop
  panicked : AddStop

abbrev refuse : Result (Unit {0}) HandlerSettingError → Result (Unit {0}) AddStop
refuse (ok _) = ok tt
refuse (err e) = err (refused e)

unfoldable pub add :
    (HandlerMsg → Fut (Unit {0}) (Unit {0}))
    → String
    → Handler
    → ℕ
    → Fut (Result (Unit {0}) HandlerSettingError) (Unit {0})
    → Fut (Unit {0}) AddStop
add send name handler tx result_rx =
    then_fut
      (then_fut
        (map_err_fut (λ _. refused (record { handler = handler; kind = HandlerError.shutdown }))
          (send (add_handler name handler tx)))
        λ _. map_err_fut (λ _. panicked) result_rx)
      λ r. now (refuse r)

unfoldable pub remove :
    (HandlerMsg → Fut (Unit {0}) (Unit {0}))
    → String
    → ℕ
    → Fut (Result Handler HandlerError) (Unit {0})
    → Fut Handler HandlerError
remove send name tx result_rx =
    then_fut
      (then_fut (map_err_fut (λ _. HandlerError.shutdown) (send (remove_handler name tx)))
        λ _. map_err_fut (λ _. HandlerError.shutdown) result_rx)
      now
