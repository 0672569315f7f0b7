-- ===== src/PubSub/Early.antt =====
-- A notification of pubsub/src/lib.rs that the notification handler takes before it was told of the
-- subscription.
use jsonrpc_client_rs.Base.{ℕ, suc, String, ◌≡◌, ◌∙◌, ap, Bool, true, false, none, some, [], ◌∷◌}
use jsonrpc_client_rs.Base.Assoc.{lookup, insert, lookup-insert_self}
use jsonrpc_client_rs.SelectWeak
use jsonrpc_client_rs.SelectWeak.{select_with_weak}
use jsonrpc_client_rs.PubSub.Types.{
  subscription_key, SubscriptionMessage, new_message, new_subscriber,
}
use jsonrpc_client_rs.PubSub.Notifier.{
  Peers, new, handle_msg, handle_new_message, ready_for_next_connection, poll_messages, poll_round,
  poll,
}
use jsonrpc_client_rs.PubSub.Loop.{poll_lem}
use jsonrpc_client_rs.PubSub.Delivery.{
  polls, announce, notify, idle, idle-poll, idle-polls, announce-poll,
}

module _ (peers : Peers) where
  -- A message for an id that nobody subscribed to is taken and forgotten.
  unknown-poll :
      (name unsub : String) (msg : SubscriptionMessage) (turn : Bool)
      → (poll peers (notify (new_message msg) (idle peers name unsub [] turn))).1
        ≡ idle peers name unsub [] turn
  unfolding poll_round ready_for_next_connection poll_messages SelectWeak.poll handle_msg
      handle_new_message new select_with_weak lookup
  unknown-poll name unsub msg false =
      ap (λ q. q.1) (poll_lem peers (notify (new_message msg) (idle peers name unsub [] false)))
      ∙ idle-poll peers name unsub [] true
  unknown-poll name unsub msg true =
      ap (λ q. q.1) (poll_lem peers (notify (new_message msg) (idle peers name unsub [] true)))
      ∙ idle-poll peers name unsub [] false

  -- A new notification handler that is polled j times with nothing in its channels, k + 1 times
  -- once a message for an id has come, and n + 1 times once the message of subscribe for that id
  -- has come too, has the subscription in its map, but has forwarded nothing, forwards nothing,
  -- and the message is no longer in its channel: a notification that the handler takes before it
  -- was told of the subscription is lost.
  pub early_message_lost :
      (j k n : ℕ) (name unsub : String) (tx : ℕ) (msg : SubscriptionMessage)
      → let early = notify (new_message msg) (polls peers j (new name unsub [] [])) in
        let told = announce (new_subscriber msg.subscription tx ∷ []) (polls peers (suc k) early) in
        let h = polls peers (suc n) told in
        (lookup msg.subscription h.subscribers ≡ some tx)
        × (h.current_future ≡ none)
        × (h.messages.strong ≡ [])
        × (h.forwarded ≡ [])
  unfolding polls new select_with_weak insert
  early_message_lost j k n name unsub tx msg =
      let m = new_message msg in
      let l = new_subscriber msg.subscription tx ∷ [] in
      let (turn, waited) = idle-polls peers j name unsub [] false in
      let (turn2, waited2) = idle-polls peers k name unsub [] turn in
      let (turn3, waited3) = idle-polls peers n name unsub ((msg.subscription, tx) ∷ []) turn2 in
      let ends =
        ap (λ h. polls peers (suc n) (announce l (polls peers (suc k) (notify m h)))) waited
        ∙ ap (λ h. polls peers (suc n) (announce l (polls peers k h)))
            (unknown-poll name unsub msg turn)
        ∙ ap (λ h. polls peers (suc n) (announce l h)) waited2
        ∙ ap (λ h. polls peers n h) (announce-poll peers name unsub msg.subscription tx turn2)
        ∙ waited3 in
      (
        ap (λ h. lookup msg.subscription h.subscribers) ends
            ∙ lookup-insert_self msg.subscription tx [],
        ap (λ h. h.current_future) ends,
        ap (λ h. h.messages.strong) ends,
        ap (λ h. h.forwarded) ends,
      )
