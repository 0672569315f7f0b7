-- ===== src/PubSub/Directory.antt =====
-- The specification of the notification handler of pubsub/src/lib.rs: what a sequence of messages
-- does to the subscriptions, and which values it sends to which channels.
use jsonrpc_client_rs.Base.{
  ℕ, ◌≡◌, refl, sym, ap, ◌∙◌, Bool, true, false, Option, none, some, List, [], ◌∷◌, ◌++◌,
  append_assoc, if◌then◌else◌, ◌==◌,
}
use jsonrpc_client_rs.Base.Action.{ok, err}
use jsonrpc_client_rs.Poll.{Fut, now, later, never}
use jsonrpc_client_rs.Core.Types.{Value}
use jsonrpc_client_rs.PubSub.Types.{
  SubscriptionId, subscription_key, SubscriberMsg, new_message, new_subscriber, remove_subscriber,
}
use jsonrpc_client_rs.PubSub.Notifier.{Peers}

-- The specification: a directory of the subscriptions, which the messages change, and the values
-- that go to the channels that stand in it.
abbrev pub Directory : Type 0
Directory = SubscriptionId → Option ℕ

abbrev pub set : SubscriptionId → Option ℕ → Directory → Directory
set id chan f other = if other == id then chan else f other

abbrev pub follow_msg : SubscriberMsg → Directory → Directory
follow_msg (new_message msg) f = f
follow_msg (new_subscriber id chan) f = set id (some chan) f
follow_msg (remove_subscriber id) f = set id none f

abbrev pub follow : List SubscriberMsg → Directory → Directory
follow [] f = f
follow (m ∷ ms) f = follow ms (follow_msg m f)

-- Whether a value that is sent will not be refused by its channel.
abbrev pub lands : Fut (Unit {0}) (Unit {0}) → Bool
lands (now (ok _)) = true
lands (now (err _)) = false
lands (later f) = lands f
lands never = true

abbrev pub if_lands : ℕ → Value → Fut (Unit {0}) (Unit {0}) → List (ℕ × Value)
if_lands chan v f = if lands f then (chan, v) ∷ [] else []

pub follow-append :
    (ms ns : List SubscriberMsg) (f : Directory) → follow (ms ++ ns) f ≡ follow ns (follow ms f)
follow-append [] ns f = refl
follow-append (m ∷ ms) ns f = follow-append ms ns (follow_msg m f)

module _ (peers : Peers) where
  -- The values that messages lead to.
  abbrev pub value_for : Value → Option ℕ → List (ℕ × Value)
  value_for v none = []
  value_for v (some chan) = if_lands chan v (peers.send chan v)

  abbrev pub values : List SubscriberMsg → Directory → List (ℕ × Value)
  values [] f = []
  values (new_message msg ∷ ms) f = value_for msg.result (f msg.subscription) ++ values ms f
  values (m ∷ ms) f = values ms (follow_msg m f)

  pub values-append :
      (ms ns : List SubscriberMsg) (f : Directory)
      → values (ms ++ ns) f ≡ values ms f ++ values ns (follow ms f)
  values-append [] ns f = refl
  values-append (new_message msg ∷ ms) ns f =
      ap (λ l. value_for msg.result (f msg.subscription) ++ l) (values-append ms ns f)
      ∙ sym (append_assoc (value_for msg.result (f msg.subscription)) (values ms f) _)
  values-append (new_subscriber id chan ∷ ms) ns f =
      values-append ms ns (follow_msg (new_subscriber id chan) f)
  values-append (remove_subscriber id ∷ ms) ns f =
      values-append ms ns (follow_msg (remove_subscriber id) f)
