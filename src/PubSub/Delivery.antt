-- ===== src/PubSub/Delivery.antt =====
-- A notification on its way through pubsub/src/lib.rs: from the callback that `subscribe` sets, over
-- the notification handler, to the channel of the subscriber.
use jsonrpc_client_rs.Base.{
  ℕ, zero, suc, String, ◌≡◌, refl, ◌∙◌, ap, false, none, some, Option, Bool, List, [], ◌∷◌, map,
  string_key, ==_self, arith, not, true, ◌++◌,
}
use jsonrpc_client_rs.Base.Action.{ok}
use jsonrpc_client_rs.Base.Assoc.{Assoc, lookup, insert}
use jsonrpc_client_rs.Poll.{Answer, item, Fut, after, outcome, map_fut, map_err_fut}
use jsonrpc_client_rs.SelectWeak
use jsonrpc_client_rs.SelectWeak.{select_with_weak}
use jsonrpc_client_rs.Core.Types.{Value, Params, Notification, ErrorKind, shutdown}
use jsonrpc_client_rs.Core.Server.Handlers.{on_notification, Handlers, handle_notification_call}
use jsonrpc_client_rs.PubSub.Types.{
  SubscriptionId, subscription_key, SubscriptionMessage, SubscriberMsg, new_message, new_subscriber,
}
use jsonrpc_client_rs.PubSub.Notifier.{
  NotificationHandler, Peers, forwarding, new, handle_msg, handle_new_subscription,
  handle_new_message, ready_for_next_connection, settle, poll_messages, poll_round, poll,
}
use jsonrpc_client_rs.PubSub.Subscriber.{
  Subscriber, Spawned, Opened, subscribe, forward, notification_callback,
}
use jsonrpc_client_rs.PubSub.Callback.{handle_notification_call-forward}
use jsonrpc_client_rs.PubSub.Sharing.{first_subscription}
use jsonrpc_client_rs.PubSub.Loop.{poll_lem}

-- Messages that come into the control channel of a handler, and one that comes into the channel of
-- its callback.
abbrev pub announce : List SubscriberMsg → NotificationHandler → NotificationHandler
announce l h = record h { messages = record h.messages { weak = h.messages.weak ++ map item l } }

abbrev pub notify : SubscriberMsg → NotificationHandler → NotificationHandler
notify m h = record h { messages = record h.messages { strong = h.messages.strong ++ item m ∷ [] } }

module _ (peers : Peers) where
  -- The state after a number of polls.
  unfoldable pub polls : ℕ → NotificationHandler → NotificationHandler
  polls zero h = h
  polls (suc n) h = polls n (poll peers h).1

  -- A handler that forwards a value and has nothing else to do.
  abbrev Forwarding : ℕ → ℕ → Value → NotificationHandler → Type 0
  Forwarding n tx v h =
      (h.current_future ≡ some (forwarding tx v (after n (ok tt))))
      × (h.messages.strong ≡ [])
      × (h.messages.weak ≡ [])
      × (h.forwarded ≡ [])

  poll-forwards :
      (tx : ℕ) (v : Value) (h : NotificationHandler)
      → Forwarding 0 tx v h
      → (poll peers h).1.forwarded ≡ (tx, v) ∷ []
  unfolding poll_round ready_for_next_connection poll_messages settle after SelectWeak.poll
  poll-forwards tx v h f = rw (poll_lem peers h) (ground arith)

  poll-waits :
      (n tx : ℕ) (v : Value) (h : NotificationHandler)
      → Forwarding (suc n) tx v h
      → Forwarding n tx v (poll peers h).1
  unfolding poll_round ready_for_next_connection poll_messages settle after SelectWeak.poll
  poll-waits n tx v h f = rw (poll_lem peers h) (ground arith)

  polls-forward :
      (n tx : ℕ) (v : Value) (h : NotificationHandler)
      → Forwarding n tx v h
      → (polls (suc n) h).forwarded ≡ (tx, v) ∷ []
  unfolding polls
  polls-forward zero tx v h f = poll-forwards tx v h f
  polls-forward (suc n) tx v h f = polls-forward n tx v (poll peers h).1 (poll-waits n tx v h f)

  -- A handler with nothing in its channels, by its subscribers and the receiver that is asked
  -- first.
  abbrev pub idle : String → String → Assoc SubscriptionId ℕ → Bool → NotificationHandler
  idle name unsub subscribers turn = record (new name unsub [] []) {
    subscribers = subscribers;
    messages = record (select_with_weak [] []) { use_strong = turn };
  }

  abbrev busy : String → String → SubscriptionId → ℕ → Value → Bool → NotificationHandler
  busy name unsub id tx v turn = record (idle name unsub ((id, tx) ∷ []) turn) {
    current_future = some (forwarding tx v (peers.send tx v));
  }

  pub idle-poll :
      (name unsub : String) (subscribers : Assoc SubscriptionId ℕ) (turn : Bool)
      → (poll peers (idle name unsub subscribers turn)).1 ≡ idle name unsub subscribers (not turn)
  unfolding poll_round ready_for_next_connection poll_messages settle new select_with_weak
      SelectWeak.poll
  idle-poll name unsub subscribers false =
      rw (poll_lem peers (idle name unsub subscribers false)) refl
  idle-poll name unsub subscribers true =
      rw (poll_lem peers (idle name unsub subscribers true)) refl

  pub idle-polls :
      (n : ℕ) (name unsub : String) (subscribers : Assoc SubscriptionId ℕ) (turn : Bool)
      → (after : Bool) × (polls n (idle name unsub subscribers turn)
          ≡ idle name unsub subscribers after)
  unfolding polls
  idle-polls zero name unsub subscribers turn = (turn, refl)
  idle-polls (suc n) name unsub subscribers turn =
      rw (idle-poll name unsub subscribers turn) (idle-polls n name unsub subscribers (not turn))

  -- A subscription is taken in one poll.
  pub announce-poll :
      (name unsub : String) (id : SubscriptionId) (tx : ℕ) (turn : Bool)
      → (poll peers (announce (new_subscriber id tx ∷ []) (idle name unsub [] turn))).1
        ≡ idle name unsub ((id, tx) ∷ []) turn
  unfolding poll_round ready_for_next_connection poll_messages SelectWeak.poll handle_msg
      handle_new_subscription new select_with_weak insert
  announce-poll name unsub id tx false =
      ap (λ q. q.1)
        (poll_lem peers (announce (new_subscriber id tx ∷ []) (idle name unsub [] false)))
      ∙ idle-poll name unsub ((id, tx) ∷ []) true
  announce-poll name unsub id tx true =
      ap (λ q. q.1)
        (poll_lem peers (announce (new_subscriber id tx ∷ []) (idle name unsub [] true)))
      ∙ idle-poll name unsub ((id, tx) ∷ []) false

  pub handle_new_message-known :
      (id : SubscriptionId) (tx : ℕ) (v : Value) (h : NotificationHandler)
      → lookup id h.subscribers ≡ some tx
      → handle_new_message peers id v h
        ≡ record h { current_future = some (forwarding tx v (peers.send tx v)) }
  unfolding handle_new_message
  handle_new_message-known id tx v h e = ground arith

  -- A message for it is taken, and its value sent, in one poll.
  notify-poll :
      (name unsub : String) (id : SubscriptionId) (tx : ℕ) (v : Value) (turn : Bool)
      → let m = new_message (record { subscription = id; result = v }) in
        poll peers (notify m (idle name unsub ((id, tx) ∷ []) turn))
        ≡ poll peers (busy name unsub id tx v (not turn))
  unfolding poll_round ready_for_next_connection poll_messages SelectWeak.poll handle_msg new
      select_with_weak lookup
  notify-poll name unsub id tx v false =
      let m = new_message (record { subscription = id; result = v }) in
      poll_lem peers (notify m (idle name unsub ((id, tx) ∷ []) false))
      ∙ ap (λ h. poll peers h)
          (handle_new_message-known id tx v (idle name unsub ((id, tx) ∷ []) true)
            (rw (==_self id) refl))
  notify-poll name unsub id tx v true =
      let m = new_message (record { subscription = id; result = v }) in
      poll_lem peers (notify m (idle name unsub ((id, tx) ∷ []) true))
      ∙ ap (λ h. poll peers h)
          (handle_new_message-known id tx v (idle name unsub ((id, tx) ∷ []) false)
            (rw (==_self id) refl))

  -- A new handler that is told of a subscription after j polls, and of a message for it after k + 1
  -- more, hands the value on.
  delivered :
      (j k n : ℕ) (name unsub : String) (id : SubscriptionId) (tx : ℕ) (v : Value)
      → peers.send tx v ≡ after n (ok tt)
      → let told = announce (new_subscriber id tx ∷ []) (polls j (new name unsub [] [])) in
        let m = new_message (record { subscription = id; result = v }) in
        (polls (suc n) (notify m (polls (suc k) told))).forwarded ≡ (tx, v) ∷ []
  unfolding polls new select_with_weak
  delivered j k n name unsub id tx v sends =
      let m = new_message (record { subscription = id; result = v }) in
      let l = new_subscriber id tx ∷ [] in
      let (turn, waited) = idle-polls j name unsub [] false in
      let (turn2, waited2) = idle-polls k name unsub ((id, tx) ∷ []) turn in
      let joined =
        ap (λ h. polls (suc k) (announce l h)) waited
        ∙ ap (λ h. polls k h) (announce-poll name unsub id tx turn)
        ∙ waited2 in
      ap (λ h. (polls (suc n) (notify m h)).forwarded) joined
      ∙ ap (λ q. (polls n q.1).forwarded) (notify-poll name unsub id tx v turn2)
      ∙ polls-forward n tx v (busy name unsub id tx v (not turn2))
          (ap (λ f. some (forwarding tx v f)) sends, refl, refl, refl)

  -- If no handler is set for a notification, neither in the server nor in the subscriber, and the
  -- call gives an id while the control channel is open, then the subscription is given out. A
  -- notification of that name whose parameters are read as a message for that id is at the server
  -- the send of that message, and of nothing else, into the channel of the new handler. When the
  -- handler takes the message after it was polled with the subscription in its channel, and the
  -- subscriber's channel takes the value at its poll n, counted from 0, then n + 1 polls of the
  -- handler have forwarded that value to that channel and nothing else.
  pub notification_delivered :
      (sends : ℕ → SubscriberMsg → Fut (Unit {0}) (Unit {0})) (is_closed : ℕ → Bool)
      (executes : Spawned → Bool) (shut : ℕ → Bool) (unsub : String)
      (call : Fut SubscriptionId ErrorKind) (control tx : ℕ) (rx : List (Answer Value))
      (s : Subscriber) (h : Handlers) (parse : Params → Option SubscriptionMessage)
      (note : Notification) (p : Params) (msg : SubscriptionMessage) (j k n : ℕ)
      → s.handlers ≡ some h
      → lookup note.method h.handlers ≡ none
      → lookup note.method s.notification_handlers ≡ none
      → outcome call ≡ some (ok msg.subscription)
      → shut control ≡ false
      → note.params ≡ some p
      → parse p ≡ some msg
      → peers.send tx msg.result ≡ after n (ok tt)
      → let callback = notification_callback parse sends in
        let (f, t) =
          subscribe callback is_closed executes shut call unsub note.method control tx rx s in
        let waiting_handler = polls j (new note.method unsub [] []) in
        (o : Opened) × (hs : Handlers) × (outcome f ≡ some (ok o))
        × (t.handlers ≡ some hs)
        × (handle_notification_call hs note
            ≡ map_fut (λ _. none) (map_err_fut (λ _. shutdown) (sends control (new_message msg))))
        × ((polls (suc n) (
              notify
                (new_message msg)
                (polls (suc k) (announce o.announced waiting_handler)))).forwarded
            ≡ (tx, msg.result) ∷ [])
  notification_delivered sends is_closed executes shut unsub call control tx rx s h parse note p msg
        j k n e free absent answer live has reads takes =
      let (opened, registered, _) =
        first_subscription (notification_callback parse sends) is_closed executes shut note.method
          unsub call control tx rx s h msg.subscription e free absent answer live in
      (
        record {
          subscription = record { rx = rx; id = some msg.subscription; handler_chan = control };
          announced = new_subscriber msg.subscription tx ∷ [];
        },
        record h {
          handlers =
              insert note.method (on_notification (forward parse (sends control))) h.handlers;
        },
        opened,
        registered,
        handle_notification_call-forward parse (sends control) note p msg h has reads,
        delivered j k n note.method unsub msg.subscription tx msg.result takes,
      )
