-- ===== src/PubSub/Routing.antt =====
-- The messages and the end of the notification handler of pubsub/src/lib.rs.
use jsonrpc_client_rs.Base.{
  ℕ, zero, suc, ◌≡◌, ◌≢◌, refl, sym, ap, ◌∙◌, true, some, List, [], ◌∷◌, arith, if◌then◌else◌,
  Bool-cases, subst, ==_self, inl, inr,
}
use jsonrpc_client_rs.Base.Action.{Result, ok}
use jsonrpc_client_rs.Base.Assoc.{
  lookup, insert, erase, lookup-insert_self, lookup-insert_ne, lookup-erase_self, lookup-erase_ne,
}
use jsonrpc_client_rs.Poll.{
  Async, ready, not_ready, Answer, item, finished, waiting, failed, pull_fused,
}
use jsonrpc_client_rs.SelectWeak
use jsonrpc_client_rs.SelectWeak.Serves.{Channels}
use jsonrpc_client_rs.Core.Types.{Value}
use jsonrpc_client_rs.PubSub.Types.{
  SubscriptionId, subscription_key, SubscriberMsg, new_message, new_subscriber, remove_subscriber,
}
use jsonrpc_client_rs.PubSub.Notifier.{
  NotificationHandler, Peers, forwarding, handle_new_subscription, handle_removal,
  handle_new_message, handle_msg, settle, ready_for_next_connection, poll_messages, Turn,
  on_messages, poll_round, poll_loop, poll,
}

module _ (peers : Peers) where
  -- After two subscriptions with different ids were registered, a message for the first goes to
  -- the first channel; once the first is removed its messages change nothing, and a message for
  -- the second goes to the second channel.
  pub message_routed :
      (id other : SubscriptionId) (chan second : ℕ) (v : Value) (h : NotificationHandler)
      → other ≢ id
      → let registered = handle_new_subscription other second (handle_new_subscription id chan h) in
        let removed = handle_removal peers id registered in
        ((handle_new_message peers id v registered).current_future
          ≡ some (forwarding chan v (peers.send chan v)))
        × (handle_new_message peers id v removed ≡ removed)
        × ((handle_new_message peers other v removed).current_future
            ≡ some (forwarding second v (peers.send second v)))
  unfolding handle_new_subscription handle_removal handle_new_message
  message_routed id other chan second v h ne =
      let m1 = insert id chan h.subscribers in
      let m2 = insert other second m1 in
      ground (
        arith,
        lookup-insert_self id chan h.subscribers,
        lookup-insert_self other second m1,
        lookup-insert_ne id other second m1 (λ e. ne (sym e)),
        lookup-erase_self id m2,
        lookup-erase_ne other id m2 ne,
      )

-- An answer of the channels that neither ends the handler nor removes a subscription.
abbrev pub Steady : Answer SubscriberMsg → Type 0
Steady (item (remove_subscriber id)) = ⊥
Steady (item (new_message msg)) = Unit {0}
Steady (item (new_subscriber id chan)) = Unit {0}
Steady waiting = Unit {0}
Steady finished = ⊥
Steady failed = ⊥

abbrev pub AllSteady : List (Answer SubscriberMsg) → Type 0
AllSteady [] = Unit {0}
AllSteady (a ∷ l) = Steady a × AllSteady l

pull_fused-Steady :
    (l : List (Answer SubscriberMsg))
    → AllSteady l
    → Steady (pull_fused l).0 × AllSteady (pull_fused l).1
pull_fused-Steady [] h = (tt, tt)
pull_fused-Steady (item m ∷ l) h = h
pull_fused-Steady (waiting ∷ l) h = h
pull_fused-Steady (finished ∷ l) h = absurd h.0
pull_fused-Steady (failed ∷ l) h = absurd h.0

abbrev pub IsSteady : Channels SubscriberMsg → Type 0
IsSteady m = AllSteady m.strong × AllSteady m.weak

poll-Steady :
    (m : Channels SubscriberMsg)
    → IsSteady m
    → Steady (SelectWeak.poll pull_fused pull_fused m).0
      × IsSteady (SelectWeak.poll pull_fused pull_fused m).1
unfolding SelectWeak.poll
poll-Steady m h = ground (arith, pull_fused-Steady m.strong h.0, pull_fused-Steady m.weak h.1)

abbrev pub flagged : NotificationHandler → Result (Async (Unit {0})) (Unit {0})
flagged h = ok (if h.should_shut_down then ready tt else not_ready)

-- What the job that is under way leaves alone.
ready_for_next_connection-flag :
    (h : NotificationHandler)
    → let g = (ready_for_next_connection h).1 in
      (g.should_shut_down ≡ h.should_shut_down) × (g.messages ≡ h.messages)
unfolding ready_for_next_connection
ready_for_next_connection-flag h = ground arith

module _ (peers : Peers) where
  handle_msg-flag :
      (m : SubscriberMsg) (h : NotificationHandler)
      → Steady (item m)
      → ((handle_msg peers m h).should_shut_down ≡ h.should_shut_down)
        × ((handle_msg peers m h).messages ≡ h.messages)
  unfolding handle_msg
  handle_msg-flag (new_message msg) h s = ground arith
  handle_msg-flag (new_subscriber id chan) h s = (refl, refl)
  handle_msg-flag (remove_subscriber id) h s = absurd s

  on_messages-flagged :
      (next : Turn peers)
      → ((g : NotificationHandler) → IsSteady g.messages → (next g).0 ≡ flagged g)
      → (a : Answer SubscriberMsg) (h : NotificationHandler) → Steady a
      → IsSteady h.messages
      → (on_messages peers a next h).0 ≡ flagged h
  unfolding settle
  on_messages-flagged next ih (item m) h s q =
      let (flag, same) = handle_msg-flag m h s in
      ih (handle_msg peers m h) (subst IsSteady (sym same) q)
      ∙ ap (λ b. ok (if b then ready tt else not_ready)) flag
  on_messages-flagged next ih waiting h s q = refl
  on_messages-flagged next ih finished h s q = absurd s
  on_messages-flagged next ih failed h s q = absurd s

  poll_round-flagged :
      (next : Turn peers)
      → ((g : NotificationHandler) → IsSteady g.messages → (next g).0 ≡ flagged g)
      → (h : NotificationHandler) → IsSteady h.messages
      → (poll_round peers next h).0 ≡ flagged h
  unfolding poll_round poll_messages settle
  poll_round-flagged next ih h q =
      let g = (ready_for_next_connection h).1 in
      let (flag, same) = ready_for_next_connection-flag h in
      let steady = subst IsSteady (sym same) q in
      let (s, t) = poll-Steady g.messages steady in
      let served = on_messages-flagged next ih (poll_messages g).0 (poll_messages g).1 s t in
      elim (Bool-cases (ready_for_next_connection h).0) [
        | inl e ↦ rw e (served ∙ ap (λ b. ok (if b then ready tt else not_ready)) flag)
        | inr e ↦ rw e (ap (λ b. ok (if b then ready tt else not_ready)) flag)
      ]

  poll_loop-flagged :
      (f : ℕ) (h : NotificationHandler) → IsSteady h.messages → (poll_loop peers f h).0 ≡ flagged h
  unfolding poll_loop settle
  poll_loop-flagged zero h q = refl
  poll_loop-flagged (suc f) h q = poll_round-flagged (poll_loop peers f) (poll_loop-flagged f) h q

  -- While the channels of the notification handler bring messages, new subscriptions and waits
  -- alone, a poll ends the handler exactly if it was marked for shutting down before: a new
  -- subscription does not take the mark back.
  pub poll-flagged :
      (h : NotificationHandler)
      → IsSteady h.messages
      → (poll peers h).0 ≡ ok (if h.should_shut_down then ready tt else not_ready)
  unfolding poll
  poll-flagged h q = poll_loop-flagged _ h q

  -- After the only subscription is removed, another one that is registered stands in the map, and
  -- the next poll, over channels that bring messages, new subscriptions and waits alone, ends the
  -- handler all the same.
  pub late_subscription :
      (id fresh : SubscriptionId) (old chan : ℕ) (h : NotificationHandler)
      → h.subscribers ≡ (id, old) ∷ []
      → IsSteady h.messages
      → let g = handle_new_subscription fresh chan (handle_removal peers id h) in
        (lookup fresh g.subscribers ≡ some chan) × ((poll peers g).0 ≡ ok (ready tt))
  late_subscription id fresh old chan h e q =
      let g = handle_new_subscription fresh chan (handle_removal peers id h) in
      let marked : g.should_shut_down ≡ true =
        unfold handle_new_subscription handle_removal erase in rw e (ground (arith, ==_self id)) in
      (
        unfold handle_new_subscription handle_removal in
            lookup-insert_self fresh chan (erase id h.subscribers),
        poll-flagged g (unfold handle_new_subscription handle_removal in q)
            ∙ ap (λ b. ok (if b then ready tt else not_ready)) marked,
      )
