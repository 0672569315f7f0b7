-- ===== src/Core/Macros.antt =====
-- core/src/macros.rs: the methods that `jsonrpc_client!` generates for a client struct, and the
-- parameters that `expand_params!` makes of their arguments.
use mathlib.Core.Option
use jsonrpc_client_rs.Base.{ℕ, String, ◌≡◌, refl, Option, none, some, List, [], ◌∷◌}
use jsonrpc_client_rs.Base.Action.{Result, err}
use jsonrpc_client_rs.Poll.{Fut, map_ok, then_fut, outcome}
use jsonrpc_client_rs.Core.Types.{Value, Items, nil, cons, Params, ErrorKind, serialize_error}
use jsonrpc_client_rs.Core.Serialize.{serialize_parameters, value_to_params}
use jsonrpc_client_rs.Core.Client.{OutgoingMessage, rpc_call}
use jsonrpc_client_rs.Core.Handle.{send_client_call}
use jsonrpc_client_rs.Core.Handle.Calls.{read, sent, received, sent_lem}

-- The two expansions of `expand_params!`: the empty array for a method without arguments, and the
-- tuple of the arguments.
pub data RawParams (A : Type 0) : Type 0 where
  empty_array : RawParams A
  tuple : A → List A → RawParams A

unfoldable pub expand_params : {A : Type 0} → List A → RawParams A
expand_params [] = empty_array
expand_params (a ∷ l) = tuple a l

module _ {A R : Type 0} (raw_to_value : RawParams A → Option Value) (from_value : Value → Option R)
    (send : OutgoingMessage → Fut (Unit {0}) (Unit {0})) where
  -- The body of a generated method, on what serde makes of its parameters.
  unfoldable pub method :
      String → List A → ℕ → Fut (Result Value ErrorKind) (Unit {0}) → Fut R ErrorKind
  method name arguments tx rx =
      let params = serialize_parameters (raw_to_value (expand_params arguments)) in
      let client_call = map_ok (λ p. rpc_call name p tx) params in
      send_client_call from_value send client_call rx

-- How serde writes a tuple: as the array of what it writes for the components.
module _ {A : Type 0} (to_value : A → Option Value) where
  abbrev cons_item : Option Value → Option Items → Option Items
  cons_item (some v) (some l) = some (cons v l)
  cons_item _ _ = none

  abbrev pub items : List A → Option Items
  items [] = some nil
  items (a ∷ l) = cons_item (to_value a) (items l)

  abbrev pub WritesTuples : (RawParams A → Option Value) → Type 0
  WritesTuples raw_to_value =
      (raw_to_value empty_array ≡ some (Value.array nil))
      × ((a : A) (l : List A) → raw_to_value (tuple a l) ≡ Option.map Value.array (items (a ∷ l)))

module _ {A R : Type 0} (to_value : A → Option Value) (raw_to_value : RawParams A → Option Value)
    (from_value : Value → Option R) (send : OutgoingMessage → Fut (Unit {0}) (Unit {0})) where
  -- What a method comes to whose arguments serde writes as the items of an array, or refuses.
  abbrev pub called :
      String
      → Option Items
      → ℕ
      → Fut (Result Value ErrorKind) (Unit {0})
      → Option (Result R ErrorKind)
  called name none tx rx = some (err serialize_error)
  called name (some l) tx rx =
      sent (read from_value send) (outcome (send (rpc_call name (some (Params.array l)) tx)))
        (received (read from_value send) (outcome rx))

  expanded :
      (arguments : List A)
      → WritesTuples to_value raw_to_value
      → raw_to_value (expand_params arguments) ≡ Option.map Value.array (items to_value arguments)
  unfolding expand_params
  expanded [] (e, t) = e
  expanded (a ∷ l) (e, t) = t a l

  -- If serde writes an empty array as the empty array and a tuple as the array of what it writes
  -- for its components, a generated method ends in SerializeError when serde refuses an argument,
  -- and else comes to what sending a call with the array of its arguments as the parameters comes
  -- to, the empty array for a method without arguments.
  pub method-called :
      (name : String) (arguments : List A) (tx : ℕ) (rx : Fut (Result Value ErrorKind) (Unit {0}))
      → WritesTuples to_value raw_to_value
      → outcome (method raw_to_value from_value send name arguments tx rx)
        ≡ called name (items to_value arguments) tx rx
  unfolding method send_client_call serialize_parameters then_fut outcome value_to_params
  method-called name arguments tx rx w = rw (expanded arguments w) (go (items to_value arguments))
    where
      go :
          (l : Option Items)
          → outcome (
              send_client_call from_value send
                (map_ok (λ p. rpc_call name p tx) (serialize_parameters (Option.map Value.array l)))
                rx)
            ≡ called name l tx rx
      go none = refl
      go (some l) =
          sent_lem (read from_value send) (send (rpc_call name (some (Params.array l)) tx)) rx
