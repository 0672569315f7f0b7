-- ===== src/Core/Serialize.antt =====
-- The functions of core/src/lib.rs between the program's data and JSON text: `serialize_parameters`,
-- `serialize_method_request`, `serialize_notification_request` and the untagged `IncomingMessage`.
use mathlib.Core.Option
use jsonrpc_client_rs.Base.{String, ◌≡◌, refl, Option, none, some}
use jsonrpc_client_rs.Base.Action.{Result, ok, err}
use jsonrpc_client_rs.Core.Types.{
  Value, nil, cons, Params, RequestId, v2, MethodCall, Notification, Output, Request, Response,
  ErrorKind, serialize_error, deserialize_error,
}

-- What the code takes from serde: the conversions that may fail.
pub record Serde : Type 0 where
  pub params_to_value : Option Params → Option Value
  pub call_to_string : MethodCall → Option String
  pub notification_to_string : Notification → Option String
  pub response_to_string : Response → Option String
  pub output_from_str : String → Option Output
  pub request_from_str : String → Option Request

-- `chain_err(|| kind)?` on the answer of serde.
abbrev pub or_err : {A : Type 0} → ErrorKind → Option A → Result A ErrorKind
or_err e none = err e
or_err e (some a) = ok a

abbrev pub and_then :
    {A B : Type 0} → Result A ErrorKind → (A → Result B ErrorKind) → Result B ErrorKind
and_then (ok a) f = f a
and_then (err e) f = err e

-- The `match` of `serialize_parameters` on the value.
unfoldable pub value_to_params : Value → Option Params
value_to_params Value.null = none
value_to_params (Value.array items) = some (Params.array items)
value_to_params (Value.object fields) = some (Params.map fields)
value_to_params value = some (Params.array (cons value nil))

-- `serialize_parameters`, on what `serde_json::to_value` answers for the parameters.
unfoldable pub serialize_parameters : Option Value → Result (Option Params) ErrorKind
unfolding value_to_params
serialize_parameters value = and_then (or_err serialize_error value) λ v. ok (value_to_params v)

module _ (serde : Serde) where
  unfoldable pub serialize_method_request :
      RequestId → String → Option Params → Result String ErrorKind
  serialize_method_request id method params =
      and_then (serialize_parameters (serde.params_to_value params)) λ serialized_params.
        or_err serialize_error (
          serde.call_to_string
            (record { version = some v2; method = method; params = serialized_params; id = id }))

  unfoldable pub serialize_notification_request : String → Option Params → Result String ErrorKind
  serialize_notification_request method params =
      and_then (serialize_parameters (serde.params_to_value params)) λ serialized_params.
        or_err serialize_error (
          serde.notification_to_string
            (record { version = some v2; method = method; params = serialized_params }))

-- `enum IncomingMessage`.
pub data IncomingMessage : Type 0 where
  response : Output → IncomingMessage
  request : Request → IncomingMessage

-- `#[serde(untagged)]`: the variants are tried in their order.
unfoldable pub incoming_from_str : Serde → String → Result IncomingMessage ErrorKind
incoming_from_str serde payload = elim (serde.output_from_str payload) [
  | some output ↦ ok (response output)
  | none ↦ or_err deserialize_error (Option.map request (serde.request_from_str payload))
]

-- How serde writes parameters: none as null, a list as an array, a map as an object.
abbrev pub value_of_params : Option Params → Value
value_of_params none = Value.null
value_of_params (some (Params.array items)) = Value.array items
value_of_params (some (Params.map fields)) = Value.object fields

abbrev pub WritesParams : Serde → Type 0
WritesParams serde = (p : Option Params) → serde.params_to_value p ≡ some (value_of_params p)

value_to_params_inverse : (p : Option Params) → value_to_params (value_of_params p) ≡ p
unfolding value_to_params
value_to_params_inverse none = refl
value_to_params_inverse (some (Params.array items)) = refl
value_to_params_inverse (some (Params.map fields)) = refl

-- If serde writes parameters as it documents, none as null, a list as an array and a map as an
-- object, both request writers put into the message exactly the parameters that they are given.
pub serialize_request_params :
    (serde : Serde)
    → WritesParams serde
    → (id : RequestId) (method : String) (p : Option Params)
    → (serialize_method_request serde id method p
        ≡ or_err serialize_error (
            serde.call_to_string
              (record { version = some v2; method = method; params = p; id = id })))
      × (serialize_notification_request serde method p
          ≡ or_err serialize_error (
              serde.notification_to_string
                (record { version = some v2; method = method; params = p })))
unfolding serialize_method_request serialize_notification_request serialize_parameters
serialize_request_params serde h id method p =
    (rw (h p, value_to_params_inverse p), rw (h p, value_to_params_inverse p))
