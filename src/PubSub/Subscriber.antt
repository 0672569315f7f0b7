-- ===== src/PubSub/Subscriber.antt =====
-- `Subscriber` and `Subscription` of pubsub/src/lib.rs.
use jsonrpc_client_rs.Base.{
  ℕ, String, Bool, Option, none, some, List, [], ◌∷◌, string_key, if◌then◌else◌,
}
use jsonrpc_client_rs.Base.Action.{Result, ok, err}
use jsonrpc_client_rs.Base.Assoc.{Assoc, lookup, insert}
use jsonrpc_client_rs.Poll.{
  Answer, item, finished, waiting, failed, pull, Fut, now, then_fut, map_err_fut, Async, ready,
  not_ready,
}
use jsonrpc_client_rs.Core.Types.{
  Value, Params, Notification, ErrorKind, shutdown, deserialize_error,
}
use jsonrpc_client_rs.Core.Server.Handlers.{
  Handler, on_notification, HandlerError, HandlerSettingError, Handlers, add,
}
use jsonrpc_client_rs.PubSub.Types.{
  SubscriptionId, SubscriptionMessage, SubscriberMsg, new_message, new_subscriber,
  remove_subscriber,
}

-- The errors of the crate that `subscribe` returns.
pub data Error : Type 0 where
  core : ErrorKind → Error
  handler_error : HandlerSettingError → Error

-- What the executor was given and took: the names of a notification and of the call that
-- unsubscribes from it, and the control channel of the handler.
pub record Spawned : Type 0 where
  pub notification_method : String
  pub unsub_method : String
  pub control : ℕ

-- `struct Subscriber`, with the callbacks of the server that its `ServerHandle` reaches, none if the
-- server is gone. A number names the sending end of a channel.
pub record Subscriber : Type 0 where
  pub handlers : Option Handlers
  pub notification_handlers : Assoc String ℕ
  pub spawned : List Spawned

-- `Subscriber::new`.
unfoldable pub new : Option Handlers → Subscriber
new handlers = record { handlers = handlers; notification_handlers = []; spawned = [] }

-- `struct Subscription`.
pub record Subscription : Type 0 where
  pub rx : List (Answer Value)
  pub id : Option SubscriptionId
  pub handler_chan : ℕ

-- `Stream::poll` of `Subscription`, whose errors are kinds of the core crate. Serde reads the value.
abbrev pub poll_result :
    {A : Type 0} → (Value → Option A) → Answer Value → Result (Async (Option A)) ErrorKind
poll_result from_value (item v) = elim (from_value v) [
  | some a ↦ ok (ready (some a))
  | none ↦ err deserialize_error
]
poll_result from_value finished = ok (ready none)
poll_result from_value waiting = ok not_ready
poll_result from_value failed = err shutdown

unfoldable pub poll :
    {A : Type 0}
    → (Value → Option A)
    → Subscription
    → Result (Async (Option A)) ErrorKind × Subscription
poll from_value s = let (a, rest) = pull s.rx in (poll_result from_value a, record s { rx = rest })

-- `Drop for Subscription`: what it sends to the handler's channel.
unfoldable pub drop : Subscription → List SubscriberMsg × Subscription
drop s = elim s.id [
  | some id ↦ (remove_subscriber id ∷ [], record s { id = none })
  | none ↦ ([], s)
]

-- `params_to_subscription_message`; serde parses the parameters.
unfoldable pub params_to_subscription_message :
    (Params → Option SubscriptionMessage) → Option Params → Option SubscriberMsg
params_to_subscription_message parse none = none
params_to_subscription_message parse (some p) = elim (parse p) [
  | some msg ↦ some (new_message msg)
  | none ↦ none
]

-- The callback that is set for a notification. `send` is the channel to the handler.
unfoldable pub forward :
    (Params → Option SubscriptionMessage)
    → (SubscriberMsg → Fut (Unit {0}) (Unit {0}))
    → Notification
    → Fut (Unit {0}) ErrorKind
forward parse send note = elim (params_to_subscription_message parse note.params) [
  | some msg ↦ map_err_fut (λ _. shutdown) (send msg)
  | none ↦ now (ok tt)
]

-- That callback as the handler that is set with a control channel. `sends` gives the channel to the
-- handler that is made with a control channel.
abbrev pub notification_callback :
    (Params → Option SubscriptionMessage)
    → (ℕ → SubscriberMsg → Fut (Unit {0}) (Unit {0}))
    → ℕ
    → Handler
notification_callback parse sends control = on_notification (forward parse (sends control))

-- `handlers.add(..).wait()`.
unfoldable pub register :
    String → Handler → Option Handlers → Result (Unit {0}) HandlerSettingError × Option Handlers
unfolding add
register method handler none =
    (err (record { handler = handler; kind = HandlerError.shutdown }), none)
register method handler (some h) = let (r, h') = add method handler h in (r, some h')

module _ (callback : ℕ → Handler) (is_closed : ℕ → Bool) (executes : Spawned → Bool) where
  -- The end of `spawn_notification_handler`, on what registering the callback answered. `control` is
  -- the new control channel.
  abbrev pub spawn_on :
      String
      → String
      → ℕ
      → Subscriber
      → Result (Unit {0}) HandlerSettingError
      → Result ℕ Error × Subscriber
  spawn_on notification_method unsub_method control s (err e) = (err (handler_error e), s)
  spawn_on notification_method unsub_method control s (ok _) =
      let handler : Spawned = record {
        notification_method = notification_method;
        unsub_method = unsub_method;
        control = control;
      } in
      (
        ok control,
        record s {
          notification_handlers = insert notification_method control s.notification_handlers;
          spawned = if executes handler then handler ∷ s.spawned else s.spawned;
        },
      )

  -- `spawn_notification_handler`. The callback of the handler sends into a channel of its own, which
  -- is made with the control channel.
  unfoldable pub spawn_notification_handler :
      String → String → ℕ → Subscriber → Result ℕ Error × Subscriber
  unfolding register
  spawn_notification_handler notification_method unsub_method control s =
      let (r, h) = register notification_method (callback control) s.handlers in
      spawn_on notification_method unsub_method control (record s { handlers = h }) r

  -- The channel that `subscribe` gets: that which is kept for the notification, if
  -- `filter(|c| c.is_closed())` leaves it, and else that of a new handler.
  unfoldable pub handler_channel : String → String → ℕ → Subscriber → Result ℕ Error × Subscriber
  handler_channel notification_method unsub_method control s =
      let spawned = spawn_notification_handler notification_method unsub_method control s in
      elim (lookup notification_method s.notification_handlers) [
        | some chan ↦ if is_closed chan then (ok chan, s) else spawned
        | none ↦ spawned
      ]

-- What a subscription that was made comes with: the message that its handler's channel took.
pub record Opened : Type 0 where
  pub subscription : Subscription
  pub announced : List SubscriberMsg

-- The two futures of `subscribe`. `call` is the call of the subscription's method, `tx` and `rx` are
-- the ends of the channel to the subscriber, and `shut` says which channels are closed by the time
-- that the call is answered.
unfoldable pub opening :
    (ℕ → Bool)
    → Fut SubscriptionId ErrorKind
    → ℕ
    → List (Answer Value)
    → Result ℕ Error
    → Fut Opened Error
opening shut call tx rx (err e) = now (err e)
opening shut call tx rx (ok chan) = then_fut (map_err_fut core call) λ id. now (
    ok (record {
      subscription = record { rx = rx; id = some id; handler_chan = chan };
      announced = if shut chan then [] else new_subscriber id tx ∷ [];
    }))

-- `subscribe`.
unfoldable pub subscribe :
    (ℕ → Handler)
    → (ℕ → Bool)
    → (Spawned → Bool)
    → (ℕ → Bool)
    → Fut SubscriptionId ErrorKind
    → String
    → String
    → ℕ
    → ℕ
    → List (Answer Value)
    → Subscriber
    → Fut Opened Error × Subscriber
unfolding handler_channel
subscribe callback is_closed executes shut call unsub_method notification_method control tx rx s =
    let (chan, s') =
      handler_channel callback is_closed executes notification_method unsub_method control s in
    (opening shut call tx rx chan, s')
