-- ===== src/PubSub/Loop.antt =====
-- The loop of `NotificationHandler::poll` of pubsub/src/lib.rs and its fuel.
use jsonrpc_client_rs.Base.{ℕ, zero, suc, ◌<◌, ◌≡◌, refl, ap, arith, if◌then◌else◌}
use jsonrpc_client_rs.Poll.{Answer, item, finished, waiting, failed}
use jsonrpc_client_rs.SelectWeak.Script.{backlog, poll-backlog}
use jsonrpc_client_rs.PubSub.Types.{SubscriberMsg}
use jsonrpc_client_rs.PubSub.Notifier.{
  NotificationHandler, Peers, ready_for_next_connection, settle, poll_messages, handle_msg, Turn,
  on_messages, poll_round, poll_loop, poll,
}

abbrev coming : NotificationHandler → ℕ
coming h = backlog h.messages

ready_for_next_connection-messages :
    (h : NotificationHandler) → (ready_for_next_connection h).1.messages ≡ h.messages
unfolding ready_for_next_connection
ready_for_next_connection-messages h = ground arith

poll_messages-falls :
    (h : NotificationHandler) (m : SubscriberMsg)
    → (poll_messages h).0 ≡ item m
    → coming (poll_messages h).1 < coming h
unfolding poll_messages
poll_messages-falls h m e = poll-backlog h.messages m e

module _ (peers : Peers) where
  pub handle_msg-messages :
      (m : SubscriberMsg) (h : NotificationHandler) → (handle_msg peers m h).messages ≡ h.messages
  unfolding handle_msg
  handle_msg-messages m h = ground arith

  on_messages_agree :
      (m n : Turn peers) (a : Answer SubscriberMsg) (h : NotificationHandler)
      → ((msg : SubscriberMsg)
          → a ≡ item msg
          → m (handle_msg peers msg h) ≡ n (handle_msg peers msg h))
      → on_messages peers a m h ≡ on_messages peers a n h
  on_messages_agree m n (item msg) h e = e msg refl
  on_messages_agree m n finished h e = refl
  on_messages_agree m n waiting h e = refl
  on_messages_agree m n failed h e = refl

  poll_round_agree :
      (m n : Turn peers) (h : NotificationHandler)
      → ((g : NotificationHandler) → coming g < coming h → m g ≡ n g)
      → poll_round peers m h ≡ poll_round peers n h
  unfolding poll_round
  poll_round_agree m n h e =
      let h1 = (ready_for_next_connection h).1 in
      ap (λ x. if (ready_for_next_connection h).0 then x else settle h1)
        (on_messages_agree m n (poll_messages h1).0 (poll_messages h1).1 λ msg q. e _ (
          rw (handle_msg-messages msg (poll_messages h1).1) (
            omega (
              arith,
              poll_messages-falls h1 msg q,
              ap backlog (ready_for_next_connection-messages h),
            ))))

  poll_loop_fuel :
      (f g : ℕ) (h : NotificationHandler)
      → coming h < f
      → coming h < g
      → poll_loop peers f h ≡ poll_loop peers g h
  unfolding poll_loop
  poll_loop_fuel zero g h hf hg = absurd (omega arith)
  poll_loop_fuel (suc f) zero h hf hg = absurd (omega arith)
  poll_loop_fuel (suc f) (suc g) h hf hg =
      poll_round_agree (poll_loop peers f) (poll_loop peers g) h
        λ d e. poll_loop_fuel f g d (omega arith) (omega arith)

  -- The poll of the notification handler, which runs on fuel, satisfies the equation of the loop
  -- of the source: it is one round of the loop followed by the poll itself.
  pub poll_lem : (h : NotificationHandler) → poll peers h ≡ poll_round peers (poll peers) h
  unfolding poll poll_loop
  poll_lem h =
      poll_round_agree _ _ h λ d e. poll_loop_fuel (coming h) (suc (coming d)) d e (omega arith)
