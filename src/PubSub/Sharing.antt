-- ===== src/PubSub/Sharing.antt =====
-- What `Subscriber::subscribe` makes of one and of several subscriptions to a notification.
use jsonrpc_client_rs.Base.{
  ℕ, String, ◌≡◌, refl, ◌∙◌, Bool, false, none, some, List, [], ◌∷◌, string_key, if◌then◌else◌,
  arith,
}
use jsonrpc_client_rs.Base.Action.{ok, err}
use jsonrpc_client_rs.Base.Assoc.{lookup, insert, lookup-insert_self, lookup-erase_self}
use jsonrpc_client_rs.Poll.{Answer, Fut, now, later, never, outcome, then_fut, map_err_fut}
use jsonrpc_client_rs.Core.Types.{Value, ErrorKind}
use jsonrpc_client_rs.Core.Server.Handlers.{Handler, already_exists, Handlers, add}
use jsonrpc_client_rs.PubSub.Types.{SubscriptionId, subscription_key, SubscriberMsg, new_subscriber}
use jsonrpc_client_rs.PubSub.Notifier.{
  NotificationHandler, Peers, handle_msg, handle_new_subscription, handle_removal,
}
use jsonrpc_client_rs.PubSub.Subscriber.{
  handler_error, Spawned, Subscriber, Subscription, drop, opening, spawn_notification_handler,
  register, handler_channel, subscribe,
}

opening-ok :
    (shut : ℕ → Bool) (call : Fut SubscriptionId ErrorKind) (tx chan : ℕ) (rx : List (Answer Value))
    (id : SubscriptionId)
    → outcome call ≡ some (ok id)
    → outcome (opening shut call tx rx (ok chan))
      ≡ some (
          ok (record {
            subscription = record { rx = rx; id = some id; handler_chan = chan };
            announced = if shut chan then [] else new_subscriber id tx ∷ [];
          }))
unfolding opening outcome then_fut map_err_fut
opening-ok shut (now (ok i)) tx chan rx id h = ground arith
opening-ok shut (now (err e)) tx chan rx id h = cc
opening-ok shut (later call) tx chan rx id h = opening-ok shut call tx chan rx id h
opening-ok shut never tx chan rx id h = cc

module _ (callback : ℕ → Handler) (is_closed : ℕ → Bool) (executes : Spawned → Bool)
    (shut : ℕ → Bool) (name unsub : String) where
  spawned_fresh :
      (control : ℕ) (s : Subscriber) (h : Handlers)
      → s.handlers ≡ some h
      → lookup name h.handlers ≡ none
      → let (r, t) = spawn_notification_handler callback is_closed executes name unsub control s in
        (r ≡ ok control)
        × (t.handlers ≡ some (record h { handlers = insert name (callback control) h.handlers }))
        × (t.notification_handlers ≡ insert name control s.notification_handlers)
  unfolding spawn_notification_handler register add
  spawned_fresh control s h e free = ground arith

  -- A handler that is not kept, or kept and running, is made anew.
  handler_channel_new :
      (control : ℕ) (s : Subscriber)
      → lookup name s.notification_handlers ≡ none
      → handler_channel callback is_closed executes name unsub control s
        ≡ spawn_notification_handler callback is_closed executes name unsub control s
  unfolding handler_channel
  handler_channel_new control s e = ground arith

  handler_channel_running :
      (control chan : ℕ) (s : Subscriber)
      → lookup name s.notification_handlers ≡ some chan
      → is_closed chan ≡ false
      → handler_channel callback is_closed executes name unsub control s
        ≡ spawn_notification_handler callback is_closed executes name unsub control s
  unfolding handler_channel
  handler_channel_running control chan s e live = ground arith

  spawned_taken :
      (control : ℕ) (old : Handler) (s : Subscriber) (h : Handlers)
      → s.handlers ≡ some h
      → lookup name h.handlers ≡ some old
      → spawn_notification_handler callback is_closed executes name unsub control s
        ≡ (err (handler_error (record { handler = callback control; kind = already_exists })), s)
  unfolding spawn_notification_handler register add
  spawned_taken control old s h e taken = ground arith

  -- If no handler is set for a notification, neither in the server nor in the subscriber, and the
  -- call gives an id while the control channel is open, a subscription to it has that id and the
  -- new channel, its own end was sent into that channel, the callback is set under the name of
  -- the notification, and the channel is kept.
  pub first_subscription :
      (call : Fut SubscriptionId ErrorKind) (control tx : ℕ) (rx : List (Answer Value))
      (s : Subscriber) (h : Handlers) (id : SubscriptionId)
      → s.handlers ≡ some h
      → lookup name h.handlers ≡ none
      → lookup name s.notification_handlers ≡ none
      → outcome call ≡ some (ok id)
      → shut control ≡ false
      → let (f, t) = subscribe callback is_closed executes shut call unsub name control tx rx s in
        (outcome f
          ≡ some (
              ok (record {
                subscription = record { rx = rx; id = some id; handler_chan = control };
                announced = new_subscriber id tx ∷ [];
              })))
        × (t.handlers ≡ some (record h { handlers = insert name (callback control) h.handlers }))
        × (lookup name t.notification_handlers ≡ some control)
  unfolding subscribe
  first_subscription call control tx rx s h id e free absent answer live =
      let (r, registered, kept) = spawned_fresh control s h e free in
      rw (handler_channel_new control s absent) (
        rw r (opening-ok shut call tx control rx id answer ∙ rw live refl),
        registered,
        rw kept (lookup-insert_self name control s.notification_handlers),
      )

  -- If no handler is set for a notification, neither in the server nor in the subscriber, then a
  -- second subscription to it, while the control channel of the first is open, fails with
  -- AlreadyExists and leaves the subscriber as it is.
  pub second_subscription_refused :
      (call call2 : Fut SubscriptionId ErrorKind) (control tx control2 tx2 : ℕ)
      (rx rx2 : List (Answer Value)) (s : Subscriber) (h : Handlers)
      → s.handlers ≡ some h
      → lookup name h.handlers ≡ none
      → lookup name s.notification_handlers ≡ none
      → is_closed control ≡ false
      → let (_, t) = subscribe callback is_closed executes shut call unsub name control tx rx s in
        let (f, u) =
          subscribe callback is_closed executes shut call2 unsub name control2 tx2 rx2 t in
        (f
          ≡ now
              (err (handler_error (record { handler = callback control2; kind = already_exists }))))
        × (u ≡ t)
  unfolding subscribe opening
  second_subscription_refused call call2 control tx control2 tx2 rx rx2 s h e free absent live =
      let t = (spawn_notification_handler callback is_closed executes name unsub control s).1 in
      let (_, registered, kept) = spawned_fresh control s h e free in
      let running : lookup name t.notification_handlers ≡ some control =
        rw kept (lookup-insert_self name control s.notification_handlers) in
      let taken =
        spawned_taken control2 (callback control) t _ registered
          (lookup-insert_self name (callback control) h.handlers) in
      rw (handler_channel_new control s absent)
        (rw (handler_channel_running control2 control t running live) (rw taken (refl, refl)))

-- The messages of a subscription to its handler, from its making to its drop.
abbrev pub handle_all : Peers → List SubscriberMsg → NotificationHandler → NotificationHandler
handle_all peers [] h = h
handle_all peers (m ∷ ms) h = handle_all peers ms (handle_msg peers m h)

-- A subscription with an id that a handler was told of is in the map of the handler with its own
-- channel; its drop takes it out, and a second drop sends nothing.
pub subscription_dropped :
    (peers : Peers) (h : NotificationHandler) (s : Subscription) (id : SubscriptionId) (tx : ℕ)
    → s.id ≡ some id
    → let joined = handle_all peers (new_subscriber id tx ∷ []) h in
      let (sent, gone) = drop s in
      let left = handle_all peers sent joined in
      (lookup id joined.subscribers ≡ some tx)
      × (lookup id left.subscribers ≡ none)
      × (drop gone ≡ ([], gone))
unfolding drop handle_msg handle_new_subscription handle_removal
subscription_dropped peers h s id tx e = rw e (
  lookup-insert_self id tx h.subscribers,
  lookup-erase_self id (insert id tx h.subscribers),
  refl,
)
