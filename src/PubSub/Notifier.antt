-- ===== src/PubSub/Notifier.antt =====
-- `struct NotificationHandler` of pubsub/src/lib.rs and its `Future`.
use jsonrpc_client_rs.Base.{
  ℕ, zero, suc, String, Bool, true, false, Option, none, some, List, [], ◌∷◌, length, ltb,
  if◌then◌else◌,
}
use jsonrpc_client_rs.Base.Action.{Result, ok, err}
use jsonrpc_client_rs.Base.Assoc.{Assoc, lookup, insert, erase}
use jsonrpc_client_rs.Poll.{
  Async, ready, not_ready, Answer, item, finished, waiting, failed, Fut, Polled, resolved, pending,
  poll_fut, pull_fused,
}
use jsonrpc_client_rs.SelectWeak
use jsonrpc_client_rs.SelectWeak.{select_with_weak}
use jsonrpc_client_rs.SelectWeak.Serves.{Channels}
use jsonrpc_client_rs.SelectWeak.Script.{backlog}
use jsonrpc_client_rs.Core.Types.{Value, nil}
use jsonrpc_client_rs.PubSub.Types.{
  SubscriptionId, subscription_key, SubscriberMsg, new_message, new_subscriber, remove_subscriber,
}

-- What the handler has under way: the call that unsubscribes, with the method and the parameters
-- that it was made with, or a value on its way to a subscriber.
pub data Job : Type 0 where
  unsubscribing : String → Value → Fut (Unit {0}) (Unit {0}) → Job
  forwarding : ℕ → Value → Fut (Unit {0}) (Unit {0}) → Job

-- The state, and the values that subscribers' channels took, newest first.
pub record NotificationHandler : Type 0 where
  pub notification_method : String
  pub subscribers : Assoc SubscriptionId ℕ
  pub messages : Channels SubscriberMsg
  pub unsub_method : String
  pub current_future : Option Job
  pub should_shut_down : Bool
  pub forwarded : List (ℕ × Value)

-- What the code takes from the client handle and from the subscribers' channels: how the call of a
-- method will go, and the sending of a value. Errors of either are only logged.
pub record Peers : Type 0 where
  pub call_method : String → Value → Fut (Unit {0}) (Unit {0})
  pub send : ℕ → Value → Fut (Unit {0}) (Unit {0})

-- `NotificationHandler::new`.
unfoldable pub new :
    String
    → String
    → List (Answer SubscriberMsg)
    → List (Answer SubscriberMsg)
    → NotificationHandler
unfolding select_with_weak
new notification_method unsub_method subscription_messages control_messages = record {
  notification_method = notification_method;
  subscribers = [];
  messages = select_with_weak subscription_messages control_messages;
  unsub_method = unsub_method;
  current_future = none;
  should_shut_down = false;
  forwarded = [];
}

unfoldable pub handle_new_subscription :
    SubscriptionId → ℕ → NotificationHandler → NotificationHandler
handle_new_subscription id chan h = record h { subscribers = insert id chan h.subscribers }

-- What a future that resolved has done.
abbrev pub account : Job → NotificationHandler → NotificationHandler
account (forwarding chan v f) h = record h { forwarded = (chan, v) ∷ h.forwarded }
account (unsubscribing m p f) h = h

abbrev pub run_job : Job → Polled (Unit {0}) (Unit {0})
run_job (forwarding chan v f) = poll_fut f
run_job (unsubscribing m p f) = poll_fut f

abbrev pub with_rest : Job → Fut (Unit {0}) (Unit {0}) → Job
with_rest (forwarding chan v f) g = forwarding chan v g
with_rest (unsubscribing m p f) g = unsubscribing m p g

abbrev pub job_polled :
    Job → Polled (Unit {0}) (Unit {0}) → NotificationHandler → Bool × NotificationHandler
job_polled job (pending g) h = (false, record h { current_future = some (with_rest job g) })
job_polled job (resolved (ok _)) h = (true, account job h)
job_polled job (resolved (err _)) h = (true, h)

unfoldable pub ready_for_next_connection : NotificationHandler → Bool × NotificationHandler
ready_for_next_connection h = elim h.current_future [
  | none ↦ (true, h)
  | some job ↦ job_polled job (run_job job) (record h { current_future = none })
]

-- Where the loop of `poll` ends without a return.
unfoldable pub settle :
    NotificationHandler → Result (Async (Unit {0})) (Unit {0}) × NotificationHandler
settle h = (ok (if h.should_shut_down then ready tt else not_ready), h)

unfoldable pub poll_messages : NotificationHandler → Answer SubscriberMsg × NotificationHandler
poll_messages h =
    let (a, m) = SelectWeak.poll pull_fused pull_fused h.messages in (a, record h { messages = m })

module _ (peers : Peers) where
  -- The unsubscription is called with no parameters.
  unfoldable pub handle_removal : SubscriptionId → NotificationHandler → NotificationHandler
  handle_removal id h =
      let rest = erase id h.subscribers in
      let params = Value.array nil in
      record h {
        subscribers = rest;
        should_shut_down = ltb (length rest) 1;
        current_future =
            some (unsubscribing h.unsub_method params (peers.call_method h.unsub_method params));
      }

  unfoldable pub handle_new_message :
      SubscriptionId → Value → NotificationHandler → NotificationHandler
  handle_new_message id message h = elim (lookup id h.subscribers) [
    | some chan ↦ record h {
      current_future = some (forwarding chan message (peers.send chan message));
    }
    | none ↦ h
  ]

  unfoldable pub handle_msg : SubscriberMsg → NotificationHandler → NotificationHandler
  unfolding handle_new_subscription handle_new_message handle_removal
  handle_msg (new_message msg) h = handle_new_message msg.subscription msg.result h
  handle_msg (new_subscriber id chan) h = handle_new_subscription id chan h
  handle_msg (remove_subscriber id) h = handle_removal id h

  abbrev pub Turn : Type 0
  Turn = NotificationHandler → Result (Async (Unit {0})) (Unit {0}) × NotificationHandler

  abbrev pub on_messages : Answer SubscriberMsg → Turn → Turn
  on_messages waiting next h = settle h
  on_messages finished next h = (ok (ready tt), h)
  on_messages (item msg) next h = next (handle_msg msg h)
  on_messages failed next h = (err tt, h)

  -- One round of the loop of `poll` in front of the rounds that follow.
  unfoldable pub poll_round : Turn → Turn
  poll_round next h =
      let (free, h1) = ready_for_next_connection h in
      if free then on_messages (poll_messages h1).0 next (poll_messages h1).1 else settle h1

  unfoldable pub poll_loop : ℕ → Turn
  poll_loop zero h = settle h
  poll_loop (suc fuel) h = let next = poll_loop fuel in poll_round next h

  -- `Future::poll`, with one round more than there are answers to come.
  unfoldable pub poll : Turn
  poll h = poll_loop (suc (backlog h.messages)) h
