-- ===== src/PubSub/Tests.antt =====
-- Runs of the notification handler of pubsub/src/lib.rs.
use jsonrpc_client_rs.Base.{
  ◌≡◌, ◌≢◌, refl, some, List, [], ◌∷◌, if◌then◌else◌, ℕ, true, none, false, string_key,
}
use jsonrpc_client_rs.Base.Action.{ok, err}
use jsonrpc_client_rs.Base.Assoc.{lookup}
use jsonrpc_client_rs.Poll.{ready, not_ready, item, waiting, now, later, Fut}
use jsonrpc_client_rs.SelectWeak.{select_with_weak}
use jsonrpc_client_rs.Core.Types.{Value, ErrorKind}
use jsonrpc_client_rs.PubSub.Types.{
  num, subscription_key, new_message, new_subscriber, SubscriptionId, SubscriberMsg,
}
use jsonrpc_client_rs.PubSub.Notifier.{
  NotificationHandler, Peers, new, handle_new_subscription, handle_removal, poll,
}
use jsonrpc_client_rs.Core.Server.Handlers.{Handler, on_notification, already_exists, Handlers}
use jsonrpc_client_rs.PubSub.Subscriber
use jsonrpc_client_rs.PubSub.Subscriber.{
  Subscriber, Spawned, Opened, Subscription, handler_error, subscribe, drop, forward,
}
use jsonrpc_client_rs.PubSub.Sharing.{second_subscription_refused, subscription_dropped, handle_all}
use jsonrpc_client_rs.PubSub.Delivery.{polls, announce, notify}
use jsonrpc_client_rs.PubSub.Early.{early_message_lost}
use jsonrpc_client_rs.PubSub.Directory.{values, follow}
use jsonrpc_client_rs.PubSub.Steps.{sent, view}
use jsonrpc_client_rs.PubSub.Following.{polls-refines}
use jsonrpc_client_rs.SelectWeak.Serves.{Gives}
use jsonrpc_client_rs.SelectWeak.Merging.{Merged}
use jsonrpc_client_rs.PubSub.Routing.{poll-flagged, late_subscription}

abbrev peers : Peers
peers = record { call_method = λ m p. now (ok tt); send = λ chan v. later (now (ok tt)) }

abbrev start : NotificationHandler
start =
    new "update" "unsubscribe"
      (item (new_message (record { subscription = num 1; result = Value.null })) ∷ waiting ∷ [])
      (item (new_subscriber (num 1) 4) ∷ waiting ∷ [])

abbrev served : NotificationHandler
served = record start { subscribers = (num 1, 4) ∷ [] }

ids_differ : num 2 ≢ num 1
ids_differ e = cc

polls-refines_example :
    let d = polls peers 2 (
      new "update" "unsubscribe"
        (item (new_message (record { subscription = num 1; result = Value.null })) ∷ [])
        (item (new_subscriber (num 1) 4) ∷ [])) in
    let channels =
      select_with_weak
        (item (new_message (record { subscription = num 1; result = Value.null })) ∷ [])
        (item (new_subscriber (num 1) 4) ∷ []) in
    (ms : List SubscriberMsg) × Gives channels ms d.messages
    × Merged channels ms d.messages
    × (sent d ≡ values peers ms (λ _. none))
    × (view d ≡ follow ms (λ _. none))
polls-refines_example =
    polls-refines peers "update" "unsubscribe"
      (item (new_message (record { subscription = num 1; result = Value.null })) ∷ [])
      (item (new_subscriber (num 1) 4) ∷ []) 2

early_message_lost_example :
    let early =
      notify
        (new_message (record { subscription = num 1; result = Value.null }))
        (polls peers 2 (new "update" "unsubscribe" [] [])) in
    let told = announce (new_subscriber (num 1) 4 ∷ []) (polls peers 1 early) in
    let h = polls peers 4 told in
    (lookup (num 1) h.subscribers ≡ some 4)
    × (h.current_future ≡ none)
    × (h.messages.strong ≡ [])
    × (h.forwarded ≡ [])
early_message_lost_example =
    early_message_lost peers 2 0 3 "update" "unsubscribe" 4
      (record { subscription = num 1; result = Value.null })

poll-flagged_example :
    (poll peers start).0 ≡ ok (if start.should_shut_down then ready tt else not_ready)
unfolding new select_with_weak
poll-flagged_example = poll-flagged peers start ((tt, (tt, tt)), (tt, (tt, tt)))

late_subscription_example :
    let g = handle_new_subscription (num 2) 9 (handle_removal peers (num 1) served) in
    (lookup (num 2) g.subscribers ≡ some 9) × ((poll peers g).0 ≡ ok (ready tt))
unfolding new select_with_weak
late_subscription_example =
    late_subscription peers (num 1) (num 2) 4 9 served refl ((tt, (tt, tt)), (tt, (tt, tt)))

-- A subscriber of a server without handlers.
abbrev callback : ℕ → Handler
callback control = on_notification (forward (λ p. none) (λ m. now (ok tt)))

abbrev no_handlers : Handlers
no_handlers = record { handlers = [] }

abbrev subscriber : Subscriber
subscriber = Subscriber.new (some no_handlers)

abbrev call : Fut SubscriptionId ErrorKind
call = later (now (ok (num 1)))

second_subscription_refused_example :
    let (_, t) =
      subscribe callback
        (λ c. false)
        (λ h. true)
        (λ c. false)
        call
        "unsubscribe"
        "update"
        3
        4
        []
        subscriber in
    let (f, u) =
      subscribe callback
        (λ c. false)
        (λ h. true)
        (λ c. false)
        call
        "unsubscribe"
        "update"
        5
        6
        []
        t in
    (f ≡ now (err (handler_error (record { handler = callback 5; kind = already_exists }))))
    × (u ≡ t)
unfolding Subscriber.new lookup
second_subscription_refused_example =
    second_subscription_refused callback (λ c. false) (λ h. true) (λ c. false) "update"
      "unsubscribe" call call 3 4 5 6 [] [] subscriber no_handlers refl refl refl refl

abbrev subscription : Subscription
subscription = record { rx = []; id = some (num 1); handler_chan = 3 }

subscription_dropped_example :
    let joined = handle_all peers (new_subscriber (num 1) 4 ∷ []) start in
    let (sent, gone) = drop subscription in
    let left = handle_all peers sent joined in
    (lookup (num 1) joined.subscribers ≡ some 4)
    × (lookup (num 1) left.subscribers ≡ none)
    × (drop gone ≡ ([], gone))
subscription_dropped_example = subscription_dropped peers start subscription (num 1) 4 refl
