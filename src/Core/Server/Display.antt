-- ===== src/Core/Server/Display.antt =====
-- The texts of core/src/server.rs: `description` of a callback, and what `Display` and `Debug` write
-- for callbacks, registries and the errors of setting one.
use Prim.Native.String.{◌++◌}
use jsonrpc_client_rs.Base.{String, ◌≡◌, refl, string_key, [], ◌∷◌}
use jsonrpc_client_rs.Base.Assoc.{Assoc}
use jsonrpc_client_rs.Core.Server.Handlers.{
  Handler, on_method, on_notification, HandlerError, already_exists, no_handler, shutdown,
  HandlerSettingError, Handlers,
}

unfoldable pub description : Handler → String
description (on_method handler) = "method"
description (on_notification handler) = "notification"

unfoldable pub handler_debug : Handler → String
unfolding description
handler_debug handler = "RPC " ++ description handler ++ " handler"

unfoldable pub handler_error_display : HandlerError → String
handler_error_display already_exists =
    "HandlerError - Handler for the given method name is already set"
handler_error_display no_handler = "HandlerError - Handler for the given method name does not exist"
handler_error_display shutdown = "HandlerError - RPC client already shut down"

unfoldable pub handler_setting_error_display : HandlerSettingError → String
unfolding description handler_error_display
handler_setting_error_display e =
    "Failure to set new " ++ description e.handler ++ " - " ++ handler_error_display e.kind

-- A line for each callback.
unfoldable pub entries_debug : Assoc String Handler → String
entries_debug [] = ""
entries_debug ((method_name, callback) ∷ l) =
    "\t" ++ method_name ++ " - " ++ description callback ++ "\n" ++ entries_debug l

unfoldable pub handlers_debug : Handlers → String
unfolding entries_debug
handlers_debug h = "Handlers{\n" ++ entries_debug h.handlers ++ "}"

-- The texts of two kinds of error are different.
pub handler_error_display-injective :
    (a b : HandlerError) → handler_error_display a ≡ handler_error_display b → a ≡ b
unfolding handler_error_display
handler_error_display-injective already_exists already_exists e = refl
handler_error_display-injective no_handler no_handler e = refl
handler_error_display-injective shutdown shutdown e = refl
handler_error_display-injective a b e =
    cc ((string_key.exact (handler_error_display a) (handler_error_display b)).1 e)
