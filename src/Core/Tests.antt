-- ===== src/Core/Tests.antt =====
-- Runs of the methods that `jsonrpc_client!` generates.
use mathlib.Core.Option
use jsonrpc_client_rs.Base.{ℕ, ◌≡◌, refl, Option, none, some, [], ◌∷◌}
use jsonrpc_client_rs.Poll.{now, outcome}
use jsonrpc_client_rs.Core.Macros.{RawParams, empty_array, tuple, items, method, method-called}
use jsonrpc_client_rs.Base.Action.{ok}
use jsonrpc_client_rs.Core.Types.{Value, nil}
use jsonrpc_client_rs.Core.Serialize.{Serde, value_of_params}

-- Messages are written as the names of their methods.
abbrev json : Serde
json = record {
  params_to_value = λ p. some (value_of_params p);
  call_to_string = λ call. some call.method;
  notification_to_string = λ note. some note.method;
  response_to_string = λ r. none;
  output_from_str = λ s. none;
  request_from_str = λ s. none;
}

-- A method with two arguments, which serde writes as they are, over a channel that takes each call.
abbrev raw_to_value : RawParams ℕ → Option Value
raw_to_value empty_array = some (Value.array nil)
raw_to_value (tuple a l) = Option.map Value.array (items (λ n. some (Value.number n)) (a ∷ l))

method-called_example :
    outcome (
      method raw_to_value some
        (λ m. now (ok tt))
        "sum"
        (1 ∷ 2 ∷ [])
        7
        (now (ok (ok (Value.number 3)))))
    ≡ some (ok (Value.number 3))
unfolding outcome
method-called_example =
    method-called (λ n. some (Value.number n)) raw_to_value some (λ m. now (ok tt)) "sum"
      (1 ∷ 2 ∷ []) 7 (now (ok (ok (Value.number 3)))) (refl, λ a l. refl)
