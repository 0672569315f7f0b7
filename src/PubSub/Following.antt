-- ===== src/PubSub/Following.antt =====
-- The notification handler of pubsub/src/lib.rs against the messages that it was given: which values
-- go to which channels, in which order.
use jsonrpc_client_rs.Base.{
  ℕ, String, zero, suc, ◌≡◌, ◌≢◌, refl, sym, ap, subst, ◌∙◌, none, List, [], ◌∷◌, ◌++◌, append-nil,
  append_assoc, Bool-cases, inl, inr,
}
use jsonrpc_client_rs.Base.Assoc.{lookup}
use jsonrpc_client_rs.Poll.{Answer, item, finished, waiting, failed}
use jsonrpc_client_rs.SelectWeak.{select_with_weak}
use jsonrpc_client_rs.SelectWeak.Serves.{Gives, stays, skips, gives, Gives-trans}
use jsonrpc_client_rs.SelectWeak.Merging.{Merged, Gives-Merged}
use jsonrpc_client_rs.PubSub.Types.{subscription_key, SubscriberMsg}
use jsonrpc_client_rs.PubSub.Notifier.{
  NotificationHandler, Peers, new, handle_msg, ready_for_next_connection, settle, poll_messages,
  Turn, on_messages, poll_round, poll_loop, poll,
}
use jsonrpc_client_rs.PubSub.Directory.{follow, values, follow-append, values-append}
use jsonrpc_client_rs.PubSub.Delivery.{polls}
use jsonrpc_client_rs.PubSub.Steps.{sent, view, ready_for_next_connection-Ready, handle_msg-values}

module _ (peers : Peers) where
  -- The messages that the channels gave between two states, with what they led to.
  pub record Followed (h d : NotificationHandler) (ms : List SubscriberMsg) : Type 0 where
    pub given : Gives h.messages ms d.messages
    pub values_sent : sent d ≡ sent h ++ values peers ms (view h)
    pub directory : view d ≡ follow ms (view h)

  Followed-trans :
      (a b c : NotificationHandler) (ms ns : List SubscriberMsg)
      → Followed a b ms
      → Followed b c ns
      → Followed a c (ms ++ ns)
  Followed-trans a b c ms ns p q = record {
    given = Gives-trans p.given q.given;
    values_sent =
        q.values_sent
        ∙ ap (λ l. l ++ values peers ns (view b)) p.values_sent
        ∙ append_assoc (sent a) (values peers ms (view a)) (values peers ns (view b))
        ∙ ap (λ f. sent a ++ (values peers ms (view a) ++ values peers ns f)) p.directory
        ∙ ap (λ l. sent a ++ l) (sym (values-append peers ms ns (view a)));
    directory = q.directory ∙ ap (follow ns) p.directory ∙ sym (follow-append ms ns (view a));
  }

  abbrev Follows : NotificationHandler → NotificationHandler → Type 0
  Follows h d = (ms : List SubscriberMsg) × Followed h d ms

  Followed-still :
      (h d : NotificationHandler)
      → Gives h.messages [] d.messages
      → sent d ≡ sent h
      → view d ≡ view h
      → Followed h d []
  Followed-still h d g s w = record {
    given = g;
    values_sent = s ∙ sym (append-nil (sent h));
    directory = w;
  }

  no_item :
      (h : NotificationHandler)
      → ((m : SubscriberMsg) → (poll_messages h).0 ≢ item m)
      → Followed h (poll_messages h).1 []
  unfolding poll_messages
  no_item h n = Followed-still h (poll_messages h).1 (skips n stays) refl refl

  one_item :
      (h : NotificationHandler) (m : SubscriberMsg)
      → h.current_future ≡ none
      → (poll_messages h).0 ≡ item m
      → Followed h (handle_msg peers m (poll_messages h).1) (m ∷ [])
  unfolding poll_messages
  one_item h m e a =
      let (s, w, same) = handle_msg-values peers m (poll_messages h).1 e in
      record {
        given = gives a (subst (λ x. Gives (poll_messages h).1.messages [] x) (sym same) stays);
        values_sent = s;
        directory = w;
      }

  on_messages-Follows :
      (next : Turn peers)
      → ((g : NotificationHandler) → Follows g (next g).1)
      → (a : Answer SubscriberMsg) (h : NotificationHandler) → h.current_future ≡ none
      → (poll_messages h).0 ≡ a
      → Follows h (on_messages peers a next (poll_messages h).1).1
  unfolding settle
  on_messages-Follows next ih (item m) h e a =
      let (ms, f) = ih (handle_msg peers m (poll_messages h).1) in
      (m ∷ ms, Followed-trans _ _ _ (m ∷ []) ms (one_item h m e a) f)
  on_messages-Follows next ih waiting h e a = ([], no_item h (λ m q. cc (a, q)))
  on_messages-Follows next ih finished h e a = ([], no_item h (λ m q. cc (a, q)))
  on_messages-Follows next ih failed h e a = ([], no_item h (λ m q. cc (a, q)))

  poll_round-Follows :
      (next : Turn peers)
      → ((g : NotificationHandler) → Follows g (next g).1)
      → (h : NotificationHandler) → Follows h (poll_round peers next h).1
  unfolding poll_round settle
  poll_round-Follows next ih h =
      let g = (ready_for_next_connection h).1 in
      let (s, subs, same, idle) = ready_for_next_connection-Ready h in
      let made : Followed h g [] =
        Followed-still h g (subst (λ x. Gives h.messages [] x) (sym same) stays) s
          (ap (λ m i. lookup i m) subs) in
      elim (Bool-cases (ready_for_next_connection h).0) [
        | inl free ↦
            let (ms, f) = on_messages-Follows next ih (poll_messages g).0 g (idle free) refl in
            rw free (ms, Followed-trans h g _ [] ms made f)
        | inr still ↦ rw still ([], made)
      ]

  poll_loop-Follows : (f : ℕ) (h : NotificationHandler) → Follows h (poll_loop peers f h).1
  unfolding poll_loop settle
  poll_loop-Follows zero h = ([], Followed-still h h stays refl refl)
  poll_loop-Follows (suc f) h = poll_round-Follows (poll_loop peers f) (poll_loop-Follows f) h

  polls-Follows : (n : ℕ) (h : NotificationHandler) → Follows h (polls peers n h)
  unfolding polls poll
  polls-Follows zero h = ([], Followed-still h h stays refl refl)
  polls-Follows (suc n) h =
      let (ms, f) = poll_loop-Follows _ h in
      let (ns, g) = polls-Follows n (poll peers h).1 in
      (ms ++ ns, Followed-trans h (poll peers h).1 _ ms ns f g)

  -- A new notification handler, after any number of polls and over any two channels, has taken a
  -- run of messages from its channels, in which those of each channel stand in their order and of
  -- which nothing is lost, and agrees with the specification of that run: the map of its
  -- subscriptions is, as a function, the directory that the run leaves, and the values that it
  -- sent, with the one that is on its way if its channel does not refuse it, are, in their order,
  -- those of the messages for ids that stood in the directory when the message came, each to the
  -- channel that stood there, without those that the channels refuse.
  pub polls-refines :
      (name unsub : String) (strong weak : List (Answer SubscriberMsg)) (n : ℕ)
      → let d = polls peers n (new name unsub strong weak) in
        (ms : List SubscriberMsg) × Gives (select_with_weak strong weak) ms d.messages
        × Merged (select_with_weak strong weak) ms d.messages
        × (sent d ≡ values peers ms (λ _. none))
        × (view d ≡ follow ms (λ _. none))
  unfolding new lookup
  polls-refines name unsub strong weak n =
      let (ms, f) = polls-Follows n (new name unsub strong weak) in
      (ms, f.given, Gives-Merged f.given, f.values_sent, f.directory)
