-- ===== src/Core/Client/Written.antt =====
-- What goes to the transport over many polls of the client of core/src/lib.rs.
use jsonrpc_client_rs.Base.{
  ℕ, zero, suc, ◌≡◌, refl, sym, ap, ◌∙◌, true, false, some, List, [], ◌∷◌, ◌++◌, append-nil,
  append_assoc, Bool-cases, inl, inr, arith,
}
use jsonrpc_client_rs.Base.Action.{Result, ok, err}
use jsonrpc_client_rs.Poll.{not_ready}
use jsonrpc_client_rs.SelectWeak.Serves.{Gives, stays, Gives-trans, Serves-Gives}
use jsonrpc_client_rs.SelectWeak.Merging.{Merged, Gives-Merged}
use jsonrpc_client_rs.Core.Types.{shutdown}
use jsonrpc_client_rs.Core.IdGenerator.{IdGenerator}
use jsonrpc_client_rs.Core.Serialize.{Serde}
use jsonrpc_client_rs.Core.Client.{Client, OutgoingMessage, ServerHandler, Stop, raised, panicked}
use jsonrpc_client_rs.Core.Client.Drive.{
  should_shut_down, handle_messages, after_messages, poll, polls,
}
use jsonrpc_client_rs.Core.Client.Wire.{wire, texts, text, gen_after, gen_after_all}
use jsonrpc_client_rs.Core.Client.Order.{handle_messages_writes}
use jsonrpc_client_rs.Core.Client.Ending.{handle_shutdown_lem, poll_shutting_down}

texts-append :
    (serde : Serde) (ms ns : List OutgoingMessage) (g : IdGenerator)
    → texts serde g (ms ++ ns) ≡ texts serde g ms ++ texts serde (gen_after_all serde g ms) ns
texts-append serde [] ns g = refl
texts-append serde (m ∷ ms) ns g =
    ap (λ l. text serde g m ++ l) (texts-append serde ms ns (gen_after serde g m))
    ∙ sym (append_assoc (text serde g m) _ _)

gen_after_all-append :
    (serde : Serde) (ms ns : List OutgoingMessage) (g : IdGenerator)
    → gen_after_all serde g (ms ++ ns) ≡ gen_after_all serde (gen_after_all serde g ms) ns
gen_after_all-append serde [] ns g = refl
gen_after_all-append serde (m ∷ ms) ns g = gen_after_all-append serde ms ns (gen_after serde g m)

module _ {S T : Type 0} (serde : Serde) (server : ServerHandler S T) where
  -- The first polls of the client all answer `NotReady`.
  abbrev pub AllWait : ℕ → Client S T → Type 0
  AllWait zero c = Unit {0}
  AllWait (suc n) c = AllWait n c × ((poll serde server (polls serde server n c)).0 ≡ ok not_ready)

  after_messages-running :
      (r : Result (Unit {0}) Stop) (d : Client S T)
      → (after_messages serde server r d).0 ≡ ok not_ready
      → should_shut_down (after_messages serde server r d).1 ≡ false
      → (r ≡ ok tt) × ((after_messages serde server r d).1 ≡ d)
  unfolding should_shut_down
  after_messages-running (ok _) d w s = (refl, refl)
  after_messages-running (err (raised shutdown)) d w s =
      ground (arith, handle_shutdown_lem serde server (record d { shutting_down = true }))
  after_messages-running (err (raised x)) d w s =
      ground (arith, handle_shutdown_lem serde server (record d { fatal_error = some x }))
  after_messages-running (err panicked) d w s = cc

  pub shutting_down-stays :
      (c : Client S T)
      → should_shut_down c ≡ true
      → (poll serde server c).0 ≡ ok not_ready
      → should_shut_down (poll serde server c).1 ≡ true
  unfolding should_shut_down
  shutting_down-stays c h w = ground (arith, poll_shutting_down serde server c h)

  -- A poll that waits and leaves the client running was a turn that succeeded.
  poll-running :
      (c : Client S T)
      → (poll serde server c).0 ≡ ok not_ready
      → should_shut_down (poll serde server c).1 ≡ false
      → (should_shut_down c ≡ false)
        × ((handle_messages serde server c).0 ≡ ok tt)
        × ((poll serde server c).1 ≡ (handle_messages serde server c).1)
  unfolding poll
  poll-running c w s = elim (Bool-cases (should_shut_down c)) [
    | inl h ↦ cc (shutting_down-stays c h w, s)
    | inr h ↦
        let (good, same) =
          after_messages-running (handle_messages serde server c).0
            (handle_messages serde server c).1 (rw h at w) (rw h at s) in
        (h, good, rw h same)
  ]

  -- The client wrote the messages that the channels gave, each once and in their order.
  pub record WroteAll (c d : Client S T) (ms : List OutgoingMessage) : Type 0 where
    pub given : Gives c.outgoing_payload_rx ms d.outgoing_payload_rx
    pub written : wire d ≡ wire c ++ texts serde c.id_generator ms
    pub ids : d.id_generator ≡ gen_after_all serde c.id_generator ms

  WroteAll-trans :
      (a b c : Client S T) (ms ns : List OutgoingMessage)
      → WroteAll a b ms
      → WroteAll b c ns
      → WroteAll a c (ms ++ ns)
  WroteAll-trans a b c ms ns p q = record {
    given = Gives-trans p.given q.given;
    written =
        q.written
        ∙ ap (λ l. l ++ texts serde b.id_generator ns) p.written
        ∙ append_assoc (wire a) (texts serde a.id_generator ms) (texts serde b.id_generator ns)
        ∙ ap (λ g. wire a ++ (texts serde a.id_generator ms ++ texts serde g ns)) p.ids
        ∙ ap (λ l. wire a ++ l) (sym (texts-append serde ms ns a.id_generator));
    ids =
        q.ids
        ∙ ap (λ g. gen_after_all serde g ns) p.ids
        ∙ sym (gen_after_all-append serde ms ns a.id_generator);
  }

  -- Over any number of polls of a client that all wait and leave it running, the client takes a
  -- run of messages from the outgoing channels and appends the texts that serde makes of them, in
  -- that order, to what the transport took and what waited for it; nothing is lost or repeated,
  -- and the id generator is that which the run leaves.
  pub polls_write :
      (n : ℕ) (c : Client S T)
      → AllWait n c
      → should_shut_down (polls serde server n c) ≡ false
      → (ms : List OutgoingMessage) × WroteAll c (polls serde server n c) ms
  unfolding polls
  polls_write zero c w s =
      ([], record { given = stays; written = sym (append-nil (wire c)); ids = refl })
  polls_write (suc n) c (w, last) s =
      let d = polls serde server n c in
      let (running, good, same) = poll-running d last s in
      let (ms, before) = polls_write n c w running in
      let (ns, turn) = handle_messages_writes serde server d good in
      (
        ms ++ ns,
        WroteAll-trans c d _ ms ns before (
            rw same (record {
              given = Serves-Gives turn.served;
              written = turn.written;
              ids = turn.ids;
            })),
      )

  -- Over any number of polls of a client that all wait and leave it running, what goes to the
  -- transport or is held back for it grows by the texts that serde makes, in that order and each
  -- with the next id if it is a call, of a run of messages that takes turns between a front part
  -- of those of the handles and a front part of those of the server handler, each in its order;
  -- the rest of them is what is left in the channels, so no message is lost, repeated or
  -- overtaken by one of the same channel.
  pub polls_in_order :
      (n : ℕ) (c : Client S T)
      → AllWait n c
      → should_shut_down (polls serde server n c) ≡ false
      → let d = polls serde server n c in
        (ms : List OutgoingMessage) × Merged c.outgoing_payload_rx ms d.outgoing_payload_rx
        × (wire d ≡ wire c ++ texts serde c.id_generator ms)
        × (d.id_generator ≡ gen_after_all serde c.id_generator ms)
  polls_in_order n c w s =
      let (ms, all) = polls_write n c w s in (ms, Gives-Merged all.given, all.written, all.ids)
