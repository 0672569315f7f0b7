-- ===== src/Core/Example.antt =====
-- core/src/example.rs: the client that `jsonrpc_client!` makes of three methods, over the values that
-- serde makes of their arguments.
use jsonrpc_client_rs.Base.{ℕ, String, Option, [], ◌∷◌}
use jsonrpc_client_rs.Base.Action.{Result}
use jsonrpc_client_rs.Poll.{Fut}
use jsonrpc_client_rs.Core.Types.{Value, ErrorKind}
use jsonrpc_client_rs.Core.Client.{OutgoingMessage}
use jsonrpc_client_rs.Core.Macros.{RawParams, method}

-- `serde_json::to_value` on the parameters, and the channel of the handle that the struct holds.
module _ (raw_to_value : RawParams Value → Option Value)
    (send : OutgoingMessage → Fut (Unit {0}) (Unit {0})) where
  -- The result of each method is read by `from_value`.
  abbrev pub Call : Type 0 → Type 0
  Call R = (Value → Option R) → ℕ → Fut (Result Value ErrorKind) (Unit {0}) → Fut R ErrorKind

  unfoldable pub nullary : Call (Unit {0})
  nullary from_value tx rx = method raw_to_value from_value send "nullary" [] tx rx

  unfoldable pub echo : Value → Call String
  echo input from_value tx rx = method raw_to_value from_value send "echo" (input ∷ []) tx rx

  unfoldable pub concat : Value → Value → Call String
  concat arg0 arg1 from_value tx rx =
      method raw_to_value from_value send "concat" (arg0 ∷ arg1 ∷ []) tx rx
