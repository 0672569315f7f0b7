-- ===== src/Core/Types.antt =====
-- The JSON values of serde_json and the messages of jsonrpc_core, with the variants that
-- core/src/lib.rs and core/src/server.rs match on or build, and the errors of core/src/lib.rs.
use jsonrpc_client_rs.Base.{
  ℕ, String, ◌≡◌, refl, ap, ◌↔◌, Bool, true, false, Option, List, Key, num_eq, num_eq_iff, ◌==◌,
  string_key,
}

-- `serde_json::Value`. A number stands for the text that serde keeps of it.
mutual
  pub data Value : Type 0 where
    null : Value
    boolean : Bool → Value
    number : ℕ → Value
    text : String → Value
    array : Items → Value
    object : Fields → Value

  pub data Items : Type 0 where
    nil : Items
    cons : Value → Items → Items

  pub data Fields : Type 0 where
    end : Fields
    field : String → Value → Fields → Fields

-- `Params`.
pub data Params : Type 0 where
  array : Items → Params
  map : Fields → Params

-- `Id` of a request: a number, a string or null.
pub data RequestId : Type 0 where
  null : RequestId
  num : ℕ → RequestId
  str : String → RequestId

abbrev pub id_eq : RequestId → RequestId → Bool
id_eq RequestId.null RequestId.null = true
id_eq (num a) (num b) = num_eq a b
id_eq (str a) (str b) = a == b
id_eq _ _ = false

pub id_eq_iff : (a b : RequestId) → (id_eq a b ≡ true) ↔ (a ≡ b)
id_eq_iff RequestId.null RequestId.null = (λ _. refl, λ _. refl)
id_eq_iff RequestId.null (num b) = (λ h. cc, λ h. cc)
id_eq_iff RequestId.null (str b) = (λ h. cc, λ h. cc)
id_eq_iff (num a) RequestId.null = (λ h. cc, λ h. cc)
id_eq_iff (num a) (num b) = (λ h. ap num ((num_eq_iff a b).0 h), λ h. (num_eq_iff a b).1 (cc))
id_eq_iff (num a) (str b) = (λ h. cc, λ h. cc)
id_eq_iff (str a) RequestId.null = (λ h. cc, λ h. cc)
id_eq_iff (str a) (num b) = (λ h. cc, λ h. cc)
id_eq_iff (str a) (str b) =
    (λ h. ap str ((string_key.exact a b).0 h), λ h. (string_key.exact a b).1 (cc))

instance abbrev pub id_key : Key RequestId
id_key = record { same = id_eq; exact = id_eq_iff }

-- `Version`, which has one variant.
pub data Version : Type 0 where
  v2 : Version

-- `jsonrpc_core::Error`: the two that the sources build, and any other.
pub data RpcError : Type 0 where
  invalid_request method_not_found : RpcError
  other : String → RpcError

-- `MethodCall` and `Notification`.
pub record MethodCall : Type 0 where
  pub version : Option Version
  pub method : String
  pub params : Option Params
  pub id : RequestId

pub record Notification : Type 0 where
  pub version : Option Version
  pub method : String
  pub params : Option Params

-- `Output`: the version, what came back, and the id.
pub data Output : Type 0 where
  success : Option Version → Value → RequestId → Output
  failure : Option Version → RpcError → RequestId → Output

pub data Call : Type 0 where
  method_call : MethodCall → Call
  notification : Notification → Call
  invalid : RequestId → Call

pub data Request : Type 0 where
  single : Call → Request
  batch : List Call → Request

pub data Response : Type 0 where
  single : Output → Response
  batch : List Output → Response

-- `ErrorKind` of core/src/lib.rs. The chain of causes that an error carries is left out: the code
-- branches on the kind alone.
pub data ErrorKind : Type 0 where
  transport_error : ErrorKind
  serialize_error : ErrorKind
  deserialize_error : ErrorKind
  response_error : String → ErrorKind
  invalid_version : ErrorKind
  shutdown : ErrorKind
  json_rpc_error : RpcError → ErrorKind
