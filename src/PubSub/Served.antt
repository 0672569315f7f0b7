-- ===== src/PubSub/Served.antt =====
-- A subscription of pubsub/src/lib.rs over a client of core/src/lib.rs: from the call that asks the
-- peer for it to the first value that its subscriber gets.
mod Tests
use jsonrpc_client_rs.Base.{
  ℕ, suc, String, ◌≡◌, refl, ap, ◌∙◌, Bool, true, false, Option, none, some, List, [], ◌∷◌, map,
  string_key, arith,
}
use jsonrpc_client_rs.Base.Action.{Result, ok}
use jsonrpc_client_rs.Base.Assoc.{lookup}
use jsonrpc_client_rs.Poll.{not_ready, Answer, Fut, after, outcome, map_fut, map_err_fut}
use jsonrpc_client_rs.Core.Types.{Value, Params, Notification, num, Output, shutdown}
use jsonrpc_client_rs.Core.Serialize.{
  Serde, serialize_parameters, serialize_method_request, incoming_from_str, response,
}
use jsonrpc_client_rs.Core.Client.{OutgoingMessage, rpc_call, SinkAnswer, ServerHandler}
use jsonrpc_client_rs.Core.Client.Incoming.{version, is_v2, outcome as output_outcome}
use jsonrpc_client_rs.Core.Client.Drive.{polls as client_polls}
use jsonrpc_client_rs.Core.Server.Handlers.{Handlers, handle_notification_call}
use jsonrpc_client_rs.Core.Handle.{call_method}
use jsonrpc_client_rs.Core.Handle.Calls.{reply_to, resolved_to}
use jsonrpc_client_rs.Core.System.Completed.{calling, call_completed}
use jsonrpc_client_rs.PubSub.Types.{SubscriptionId, SubscriptionMessage, SubscriberMsg, new_message}
use jsonrpc_client_rs.PubSub.Notifier.{Peers, new}
use jsonrpc_client_rs.PubSub.Subscriber.{
  Subscriber, Spawned, Opened, notification_callback, subscribe,
}
use jsonrpc_client_rs.PubSub.Delivery.{polls, announce, notify, notification_delivered}

module _ {S T : Type 0} (serde : Serde) (server : ServerHandler S T) (peers : Peers)
    (from_value : Value → Option SubscriptionId)
    (send : OutgoingMessage → Fut (Unit {0}) (Unit {0})) where
  resolved_id :
      (v : Value) (id : SubscriptionId)
      → from_value v ≡ some id
      → resolved_to from_value send (ok v) ≡ some (ok id)
  resolved_id v id e = rw e refl

  -- The client that subscribes was just made, has the call of the subscription in its channel,
  -- works over a transport that takes what it is given and brings one text after one wait, and
  -- has a handler that only waits. If no handler is set for the name of a notification, neither
  -- in the server nor in the subscriber, the parameters of the call are written, serde writes it
  -- with the id 1, the text is read as a response of version 2.0 with that id, whose result is
  -- read as the id of the subscription, and the control channel is open by then, then the text of
  -- the call, alone, is on the transport after one poll, and after the second the subscription is
  -- given out and the callback of subscribe is set: the future that the server makes of a
  -- notification of that name, if its parameters are read as a message for that id, is the send
  -- of that message, and of nothing else, into the channel of the callback. The new notification
  -- handler is polled j times with nothing in its channels, k + 1 times once the message that
  -- subscribe sends is in its control channel, and then with the callback's message in its other
  -- channel: when the channel of the subscriber takes the value at its poll n, counted from 0, n
  -- + 1 more polls have forwarded that value to that channel and nothing else. Nothing is said of
  -- a notification whose message comes before the handler was polled with that of subscribe.
  pub subscription_served :
      (sends : ℕ → SubscriberMsg → Fut (Unit {0}) (Unit {0})) (is_closed : ℕ → Bool)
      (executes : Spawned → Bool) (shut : ℕ → Bool) (sub unsub : String) (control tx : ℕ)
      (rx : List (Answer Value)) (s : Subscriber) (h : Handlers)
      (parse : Params → Option SubscriptionMessage) (note : Notification) (q : Params)
      (msg : SubscriptionMessage) (j k n : ℕ) (parameters : Option Value) (p : Option Params)
      (done : ℕ) (closes : List SinkAnswer) (payload text : String) (t t1 t2 : S) (sink : T)
      (output : Output) (v : Value)
      → serialize_parameters parameters ≡ ok p
      → outcome (send (rpc_call sub p done)) ≡ some (ok tt)
      → serialize_method_request serde (num 1) sub p ≡ ok text
      → server.poll t ≡ (ok not_ready, t1)
      → server.poll t1 ≡ (ok not_ready, t2)
      → incoming_from_str serde payload ≡ ok (response output)
      → is_v2 (version output) ≡ true
      → output_outcome output ≡ (num 1, ok v)
      → from_value v ≡ some msg.subscription
      → s.handlers ≡ some h
      → lookup note.method h.handlers ≡ none
      → lookup note.method s.notification_handlers ≡ none
      → shut control ≡ false
      → note.params ≡ some q
      → parse q ≡ some msg
      → peers.send tx msg.result ≡ after n (ok tt)
      → let c = calling serde server sub p done closes payload t sink in
        let d = client_polls serde server 2 c in
        let call = call_method from_value send sub parameters done (reply_to done d.completed) in
        let callback = notification_callback parse sends in
        let (f, u) =
          subscribe callback is_closed executes shut call unsub note.method control tx rx s in
        let waiting_handler = polls peers j (new note.method unsub [] []) in
        ((client_polls serde server 1 c).transport_tx.accepted ≡ text ∷ [])
        × ((o : Opened) × (hs : Handlers) × (outcome f ≡ some (ok o))
            × (u.handlers ≡ some hs)
            × (handle_notification_call hs note
                ≡ map_fut
                    (λ _. none)
                    (map_err_fut (λ _. shutdown) (sends control (new_message msg))))
            × ((polls peers (suc n) (
                  notify
                    (new_message msg)
                    (polls peers (suc k) (announce o.announced waiting_handler)))).forwarded
                ≡ (tx, msg.result) ∷ []))
  subscription_served sends is_closed executes shut sub unsub control tx rx s h parse note q msg j k
        n parameters p done closes payload text t t1 t2 sink output v takes sent written calm calm1
        reads two o known e free absent live has parses forwards =
      let (wrote, answered) =
        call_completed serde server from_value send sub parameters p done closes payload text t t1
          t2 sink output (ok v) takes sent written calm calm1 reads two o in
      (
        wrote,
        notification_delivered peers sends is_closed executes shut unsub _ control tx rx s h parse
            note q msg j k n e free absent (answered ∙ resolved_id v msg.subscription known) live
            has parses forwards,
      )
