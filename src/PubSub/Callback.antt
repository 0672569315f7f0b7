-- ===== src/PubSub/Callback.antt =====
-- The callback that `subscribe` of pubsub/src/lib.rs sets in the server.
use jsonrpc_client_rs.Base.{◌≡◌, refl, none, some, Option, string_key, arith}
use jsonrpc_client_rs.Base.Assoc.{insert, lookup-insert_self}
use jsonrpc_client_rs.Poll.{Fut, map_fut, map_err_fut}
use jsonrpc_client_rs.Core.Types.{Params, Notification, shutdown}
use jsonrpc_client_rs.Core.Server.Handlers.{on_notification, Handlers, handle_notification_call}
use jsonrpc_client_rs.PubSub.Types.{SubscriptionMessage, SubscriberMsg, new_message}
use jsonrpc_client_rs.PubSub.Subscriber.{params_to_subscription_message, forward}

-- What the callback does with a notification whose parameters are read as a message.
forward-one :
    (parse : Params → Option SubscriptionMessage) (send : SubscriberMsg → Fut (Unit {0}) (Unit {0}))
    (note : Notification) (p : Params) (msg : SubscriptionMessage)
    → note.params ≡ some p
    → parse p ≡ some msg
    → forward parse send note ≡ map_err_fut (λ _. shutdown) (send (new_message msg))
unfolding forward params_to_subscription_message
forward-one parse send note p msg has reads = ground arith

-- What the server makes of a notification that such a callback is set for.
pub handle_notification_call-forward :
    (parse : Params → Option SubscriptionMessage) (send : SubscriberMsg → Fut (Unit {0}) (Unit {0}))
    (note : Notification) (p : Params) (msg : SubscriptionMessage) (h : Handlers)
    → note.params ≡ some p
    → parse p ≡ some msg
    → handle_notification_call
        (record h {
          handlers = insert note.method (on_notification (forward parse send)) h.handlers;
        })
        note
      ≡ map_fut (λ _. none) (map_err_fut (λ _. shutdown) (send (new_message msg)))
unfolding handle_notification_call
handle_notification_call-forward parse send note p msg h has reads =
    rw
      (
        lookup-insert_self note.method (on_notification (forward parse send)) h.handlers,
        forward-one parse send note p msg has reads,
      )
      refl
