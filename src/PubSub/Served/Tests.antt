-- ===== src/PubSub/Served/Tests.antt =====
-- A run of a subscription over a client.
use jsonrpc_client_rs.Base.{
  ℕ, ◌≡◌, refl, Option, none, some, true, false, [], ◌∷◌, string_key, nat_key,
}
use jsonrpc_client_rs.Base.Action.{ok}
use jsonrpc_client_rs.Base.Assoc.{lookup}
use jsonrpc_client_rs.Poll.{not_ready, Fut, now, later, after, outcome, map_fut, map_err_fut}
use jsonrpc_client_rs.Core.Types.{Value, nil, Params, Notification, num, v2, success, shutdown}
use jsonrpc_client_rs.Core.Serialize.{
  Serde, value_of_params, serialize_method_request, serialize_parameters, value_to_params,
  incoming_from_str, IncomingMessage,
}
use jsonrpc_client_rs.Core.Client.{ServerHandler}
use jsonrpc_client_rs.Core.Client.Drive.{polls as client_polls}
use jsonrpc_client_rs.Core.Handle.{call_method}
use jsonrpc_client_rs.Core.Handle.Calls.{reply_to}
use jsonrpc_client_rs.Core.System.Completed.{calling}
use jsonrpc_client_rs.Core.Server.Handlers.{Handlers, handle_notification_call}
use jsonrpc_client_rs.PubSub.Types.{SubscriptionId, SubscriptionMessage, SubscriberMsg, new_message}
use jsonrpc_client_rs.PubSub.Notifier.{Peers, new}
use jsonrpc_client_rs.PubSub.Subscriber.{Subscriber, Opened, notification_callback, subscribe}
use jsonrpc_client_rs.PubSub.Delivery.{polls, announce, notify}
use jsonrpc_client_rs.PubSub.Served.{subscription_served}

abbrev json : Serde
json = record {
  params_to_value = λ p. some (value_of_params p);
  call_to_string = λ call. some call.method;
  notification_to_string = λ note. some note.method;
  response_to_string = λ r. none;
  output_from_str = λ s. some (success (some v2) (Value.text "feed") (num 1));
  request_from_str = λ s. none;
}

abbrev quiet_server : ServerHandler (Unit {0}) (Unit {0})
quiet_server = record { poll = λ s. (ok not_ready, s); process_request = λ req tx s. (ok tt, s) }

abbrev peers : Peers
peers = record { call_method = λ m p. now (ok tt); send = λ chan v. later (now (ok tt)) }

abbrev text_id : Value → Option SubscriptionId
text_id (Value.text s) = some (SubscriptionId.string s)
text_id _ = none

sub_text : serialize_method_request json (num 1) "subscribe" none ≡ ok "subscribe"
unfolding serialize_method_request serialize_parameters value_to_params
sub_text = refl

reply_read :
    incoming_from_str json "reply"
    ≡ ok (IncomingMessage.response (success (some v2) (Value.text "feed") (num 1)))
unfolding incoming_from_str
reply_read = refl

-- The channel of a handler, which takes what it is given after a wait.
abbrev sends : ℕ → SubscriberMsg → Fut (Unit {0}) (Unit {0})
sends control m = later (now (ok tt))

abbrev no_handlers : Handlers
no_handlers = record { handlers = [] }

abbrev subscriber : Subscriber
subscriber = record { handlers = some no_handlers; notification_handlers = []; spawned = [] }

abbrev update_note : Notification
update_note = record { version = none; method = "update"; params = some (Params.array nil) }

abbrev update_message : SubscriptionMessage
update_message = record { subscription = SubscriptionId.string "feed"; result = Value.null }

abbrev parsed : Params → Option SubscriptionMessage
parsed p = some update_message

subscription_served_example :
    let c = calling json quiet_server "subscribe" none 9 [] "reply" tt tt in
    let d = client_polls json quiet_server 2 c in
    let call =
      call_method text_id
        (λ m. now (ok tt))
        "subscribe"
        (some Value.null)
        9
        (reply_to 9 d.completed) in
    let (f, u) =
      subscribe
        (notification_callback parsed sends)
        (λ c. false)
        (λ h. true)
        (λ c. false)
        call
        "unsubscribe"
        "update"
        3
        4
        []
        subscriber in
    let waiting_handler = polls peers 5 (new "update" "unsubscribe" [] []) in
    ((client_polls json quiet_server 1 c).transport_tx.accepted ≡ "subscribe" ∷ [])
    × ((o : Opened) × (hs : Handlers) × (outcome f ≡ some (ok o))
        × (u.handlers ≡ some hs)
        × (handle_notification_call hs update_note
            ≡ map_fut
                (λ _. none)
                (map_err_fut (λ _. shutdown) (sends 3 (new_message update_message))))
        × ((polls peers 2 (
              notify
                (new_message update_message)
                (polls peers 3 (announce o.announced waiting_handler)))).forwarded
            ≡ (4, Value.null) ∷ []))
unfolding serialize_parameters value_to_params outcome lookup after
subscription_served_example =
    subscription_served json quiet_server peers text_id (λ m. now (ok tt)) sends (λ c. false)
      (λ h. true) (λ c. false) "subscribe" "unsubscribe" 3 4 [] subscriber no_handlers parsed
      update_note (Params.array nil) update_message 5 2 1 (some Value.null) none 9 [] "reply"
      "subscribe" tt tt tt tt (success (some v2) (Value.text "feed") (num 1)) (Value.text "feed")
      refl refl sub_text refl refl reply_read refl refl refl refl refl refl refl refl refl refl
