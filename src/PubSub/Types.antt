-- ===== src/PubSub/Types.antt =====
-- `SubscriptionId`, `SubscriptionMessage` and `SubscriberMsg` of pubsub/src/lib.rs.
use jsonrpc_client_rs.Base.{
  ℕ, String, ◌≡◌, ap, ◌↔◌, Bool, false, Key, num_eq, num_eq_iff, ◌==◌, string_key,
}
use jsonrpc_client_rs.Core.Types.{Value}

pub data SubscriptionId : Type 0 where
  num : ℕ → SubscriptionId
  string : String → SubscriptionId

abbrev pub subscription_eq : SubscriptionId → SubscriptionId → Bool
subscription_eq (num a) (num b) = num_eq a b
subscription_eq (string a) (string b) = a == b
subscription_eq _ _ = false

pub subscription_eq_iff : (a b : SubscriptionId) → (subscription_eq a b ≡ Bool.true) ↔ (a ≡ b)
subscription_eq_iff (num a) (num b) =
    (λ h. ap num ((num_eq_iff a b).0 h), λ h. (num_eq_iff a b).1 (cc))
subscription_eq_iff (num a) (string b) = (λ h. cc, λ h. cc)
subscription_eq_iff (string a) (num b) = (λ h. cc, λ h. cc)
subscription_eq_iff (string a) (string b) =
    (λ h. ap string ((string_key.exact a b).0 h), λ h. (string_key.exact a b).1 (cc))

instance abbrev pub subscription_key : Key SubscriptionId
subscription_key = record { same = subscription_eq; exact = subscription_eq_iff }

-- `SubscriptionMessage`.
pub record SubscriptionMessage : Type 0 where
  pub subscription : SubscriptionId
  pub result : Value

-- `enum SubscriberMsg`. A number names the channel to a subscriber.
pub data SubscriberMsg : Type 0 where
  new_message : SubscriptionMessage → SubscriberMsg
  new_subscriber : SubscriptionId → ℕ → SubscriberMsg
  remove_subscriber : SubscriptionId → SubscriberMsg
