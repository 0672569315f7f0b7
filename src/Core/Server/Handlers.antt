-- ===== src/Core/Server/Handlers.antt =====
-- `Handler`, `HandlerError`, `Handlers` and `failure` of core/src/server.rs.
use jsonrpc_client_rs.Base.{String, Option, none, some, [], if◌then◌else◌, string_key}
use jsonrpc_client_rs.Base.Action.{Result, ok, err}
use jsonrpc_client_rs.Base.Assoc.{Assoc, lookup, insert, erase, contains_key}
use jsonrpc_client_rs.Poll.{Fut, now, map_fut}
use jsonrpc_client_rs.Core.Types.{
  RequestId, v2, RpcError, invalid_request, method_not_found, MethodCall, Notification, Output,
  failure as failure_output, Call, method_call, notification, invalid, ErrorKind,
}

-- `enum Handler`: a callback, as what its future will answer to each message.
pub data Handler : Type 0 where
  on_method : (MethodCall → Fut Output ErrorKind) → Handler
  on_notification : (Notification → Fut (Unit {0}) ErrorKind) → Handler

pub data HandlerError : Type 0 where
  already_exists no_handler shutdown : HandlerError

-- `HandlerSettingError`: the handler that was not set, and why.
pub record HandlerSettingError : Type 0 where
  pub handler : Handler
  pub kind : HandlerError

pub record Handlers : Type 0 where
  pub handlers : Assoc String Handler

unfoldable pub new : Handlers
new = record { handlers = [] }

unfoldable pub add : String → Handler → Handlers → Result (Unit {0}) HandlerSettingError × Handlers
add method handler h =
    if contains_key method h.handlers
    then (err (record { handler = handler; kind = already_exists }), h)
    else (ok tt, record h { handlers = insert method handler h.handlers })

unfoldable pub remove : String → Handlers → Result Handler HandlerError × Handlers
remove method h = elim (lookup method h.handlers) [
  | some handler ↦ (ok handler, record h { handlers = erase method h.handlers })
  | none ↦ (err no_handler, h)
]

-- `shutdown`, which the drop of the server calls.
unfoldable pub shut_down : Handlers → Handlers
shut_down h = record h { handlers = [] }

unfoldable pub failure : RequestId → RpcError → Output
failure id error = failure_output (some v2) error id

-- `PendingCall`.
abbrev pub PendingCall : Type 0
PendingCall = Fut (Option Output) ErrorKind

-- The `match` of `handle_method_call` on the handler that is found.
abbrev pub answer_method : MethodCall → Option Handler → PendingCall
answer_method call (some (on_method handler)) = map_fut some (handler call)
answer_method call (some (on_notification handler)) =
    now (ok (some (failure call.id method_not_found)))
answer_method call none = now (ok (some (failure call.id method_not_found)))

unfoldable pub handle_method_call : Handlers → MethodCall → PendingCall
unfolding failure
handle_method_call h call = answer_method call (lookup call.method h.handlers)

abbrev pub answer_notification : Notification → Option Handler → PendingCall
answer_notification note (some (on_notification handler)) = map_fut (λ _. none) (handler note)
answer_notification note (some (on_method handler)) = now (ok none)
answer_notification note none = now (ok none)

unfoldable pub handle_notification_call : Handlers → Notification → PendingCall
handle_notification_call h note = answer_notification note (lookup note.method h.handlers)

unfoldable pub handle_single_call : Handlers → Call → PendingCall
unfolding handle_method_call handle_notification_call failure
handle_single_call h (method_call call) = handle_method_call h call
handle_single_call h (notification note) = handle_notification_call h note
handle_single_call h (invalid id) = now (ok (some (failure id invalid_request)))
