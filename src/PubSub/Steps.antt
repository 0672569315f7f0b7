-- ===== src/PubSub/Steps.antt =====
-- What the notification handler of pubsub/src/lib.rs sends when its job is polled and when it takes a
-- message, against the specification of that message.
use std.Path.{fun_ext}
use jsonrpc_client_rs.Base.{
  ℕ, String, ◌≡◌, refl, sym, ap, ◌∙◌, Bool, true, Option, none, some, List, [], ◌∷◌, ◌++◌,
  append-nil, Option-cases, inl, inr, arith,
}
use jsonrpc_client_rs.Base.Action.{ok, err}
use jsonrpc_client_rs.Base.Assoc.{lookup, lookup-insert, lookup-erase}
use jsonrpc_client_rs.Poll.{Fut, now, later, never}
use jsonrpc_client_rs.Core.Types.{Value}
use jsonrpc_client_rs.PubSub.Types.{
  SubscriptionId, subscription_key, SubscriberMsg, new_message, new_subscriber, remove_subscriber,
}
use jsonrpc_client_rs.PubSub.Notifier.{
  NotificationHandler, Peers, Job, unsubscribing, forwarding, handle_msg, handle_new_subscription,
  handle_new_message, handle_removal, ready_for_next_connection,
}
use jsonrpc_client_rs.PubSub.Loop.{handle_msg-messages}
use jsonrpc_client_rs.PubSub.Directory.{Directory, follow_msg, if_lands, value_for, values}
use jsonrpc_client_rs.PubSub.Delivery.{handle_new_message-known}

-- What a handler has sent, oldest first, with the value that is on its way.
abbrev pub oldest_first : List (ℕ × Value) → List (ℕ × Value)
oldest_first [] = []
oldest_first (x ∷ l) = oldest_first l ++ x ∷ []

abbrev pub under_way : Option Job → List (ℕ × Value)
under_way (some (forwarding chan v f)) = if_lands chan v f
under_way (some (unsubscribing m p f)) = []
under_way none = []

abbrev pub sent : NotificationHandler → List (ℕ × Value)
sent h = oldest_first h.forwarded ++ under_way h.current_future

abbrev pub view : NotificationHandler → Directory
view h id = lookup id h.subscribers

-- What the job that is under way does when it is polled.
abbrev pub Ready : NotificationHandler → Bool × NotificationHandler → Type 0
Ready h (free, g) =
    (sent g ≡ sent h)
    × (g.subscribers ≡ h.subscribers)
    × (g.messages ≡ h.messages)
    × (free ≡ true → g.current_future ≡ none)

forwarding-Ready :
    (chan : ℕ) (v : Value) (f : Fut (Unit {0}) (Unit {0})) (h : NotificationHandler)
    → h.current_future ≡ some (forwarding chan v f)
    → Ready h (ready_for_next_connection h)
unfolding ready_for_next_connection
forwarding-Ready chan v (now (ok _)) h e =
    rw e (append-nil (oldest_first h.forwarded ++ (chan, v) ∷ []), refl, refl, λ _. refl)
forwarding-Ready chan v (now (err _)) h e = rw e (refl, refl, refl, λ _. refl)
forwarding-Ready chan v (later f) h e = rw e (refl, refl, refl, λ q. cc)
forwarding-Ready chan v never h e = rw e (refl, refl, refl, λ q. cc)

unsubscribing-Ready :
    (m : String) (p : Value) (f : Fut (Unit {0}) (Unit {0})) (h : NotificationHandler)
    → h.current_future ≡ some (unsubscribing m p f)
    → Ready h (ready_for_next_connection h)
unfolding ready_for_next_connection
unsubscribing-Ready m p (now (ok _)) h e = rw e (refl, refl, refl, λ _. refl)
unsubscribing-Ready m p (now (err _)) h e = rw e (refl, refl, refl, λ _. refl)
unsubscribing-Ready m p (later f) h e = rw e (refl, refl, refl, λ q. cc)
unsubscribing-Ready m p never h e = rw e (refl, refl, refl, λ q. cc)

idle-Ready :
    (h : NotificationHandler) → h.current_future ≡ none → Ready h (ready_for_next_connection h)
unfolding ready_for_next_connection
idle-Ready h e = rw e (refl, refl, refl, λ _. refl)

pub ready_for_next_connection-Ready :
    (h : NotificationHandler) → Ready h (ready_for_next_connection h)
ready_for_next_connection-Ready h = go h.current_future refl
  where
    go : (j : Option Job) → h.current_future ≡ j → Ready h (ready_for_next_connection h)
    go none e = idle-Ready h e
    go (some (forwarding chan v f)) e = forwarding-Ready chan v f h e
    go (some (unsubscribing m p f)) e = unsubscribing-Ready m p f h e

idle_sent : (h : NotificationHandler) → h.current_future ≡ none → sent h ≡ oldest_first h.forwarded
idle_sent h e =
    ap (λ j. oldest_first h.forwarded ++ under_way j) e ∙ append-nil (oldest_first h.forwarded)

module _ (peers : Peers) where
  handle_new_message-unknown :
      (id : SubscriptionId) (v : Value) (h : NotificationHandler)
      → lookup id h.subscribers ≡ none
      → handle_new_message peers id v h ≡ h
  unfolding handle_new_message
  handle_new_message-unknown id v h e = ground arith

  -- A handler that has nothing under way takes a message as the specification says.
  handle_new_message-values :
      (id : SubscriptionId) (v : Value) (h : NotificationHandler)
      → h.current_future ≡ none
      → (sent (handle_new_message peers id v h) ≡ sent h ++ value_for peers v (view h id))
        × (view (handle_new_message peers id v h) ≡ view h)
  handle_new_message-values id v h e = elim (Option-cases (lookup id h.subscribers)) [
    | inl unknown ↦
        rw (handle_new_message-unknown id v h unknown, unknown) (sym (append-nil (sent h)), refl)
    | inr (chan, known) ↦
        rw (handle_new_message-known peers id chan v h known, known)
          (ap (λ o. o ++ if_lands chan v (peers.send chan v)) (sym (idle_sent h e)), refl)
  ]

  pub handle_msg-values :
      (m : SubscriberMsg) (h : NotificationHandler)
      → h.current_future ≡ none
      → (sent (handle_msg peers m h) ≡ sent h ++ values peers (m ∷ []) (view h))
        × (view (handle_msg peers m h) ≡ follow_msg m (view h))
        × ((handle_msg peers m h).messages ≡ h.messages)
  handle_msg-values (new_message msg) h e =
      let (s, w) = handle_new_message-values msg.subscription msg.result h e in
      unfold handle_msg in
      (
        s ∙ ap (λ l. sent h ++ l) (sym (append-nil _)),
        w,
        handle_msg-messages peers (new_message msg) h,
      )
  handle_msg-values (new_subscriber id chan) h e =
      unfold handle_msg handle_new_subscription in
      (sym (append-nil (sent h)), fun_ext (λ i. lookup-insert i id chan h.subscribers), refl)
  handle_msg-values (remove_subscriber id) h e =
      unfold handle_msg handle_removal in
      (
        ap (λ j. oldest_first h.forwarded ++ under_way j) (sym e) ∙ sym (append-nil (sent h)),
        fun_ext (λ i. lookup-erase i id h.subscribers),
        refl,
      )
