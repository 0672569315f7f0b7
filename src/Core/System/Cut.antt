-- ===== src/Core/System/Cut.antt =====
-- A client of core/src/lib.rs whose transport takes a call and fails before its response comes.
use jsonrpc_client_rs.Base.{
  ℕ, zero, suc, String, ◌≡◌, refl, ap, ◌∙◌, Bool, true, false, not, Option, none, some, List, [],
  ◌∷◌, arith, nat_key, inl, inr,
}
use jsonrpc_client_rs.Base.Action.{ok, err, >>-from}
use jsonrpc_client_rs.Base.Assoc.{lookup, insert}
use jsonrpc_client_rs.Poll.{not_ready, item, Fut, outcome}
use jsonrpc_client_rs.SelectWeak
use jsonrpc_client_rs.SelectWeak.{select_with_weak}
use jsonrpc_client_rs.Core.IdGenerator
use jsonrpc_client_rs.Core.IdGenerator.{IdGenerator}
use jsonrpc_client_rs.Core.Types.{Value, Params, num, id_key, transport_error, shutdown}
use jsonrpc_client_rs.Core.Serialize.{Serde, serialize_parameters, serialize_method_request}
use jsonrpc_client_rs.Core.Client.{
  Client, OutgoingMessage, rpc_call, SinkAnswer, busy, broken, ServerHandler, raised,
}
use jsonrpc_client_rs.Core.Client.Send.{
  new_with_server, send_payload, add_new_call, poll_transport_tx, completion_result,
}
use jsonrpc_client_rs.Core.Client.Incoming.{poll_transport_rx, drain_rx}
use jsonrpc_client_rs.Core.Client.Outgoing.{
  poll_rx, handle_client_payload, outgoing_round, outgoing_loop, poll_outgoing_messages,
}
use jsonrpc_client_rs.Core.Client.Drive.{
  should_shut_down, send_leftover, finish, close_transport, handle_messages, handle_shutdown, poll,
  polls,
}
use jsonrpc_client_rs.Core.Handle.{call_method}
use jsonrpc_client_rs.Core.Handle.Settled.{settled, settled_call}
use jsonrpc_client_rs.Core.System.Completed.{
  handle-steps, poll_server-calm, handle_client_payload-call,
}

-- The answers of a sink that puts others off.
abbrev pub put_off : ℕ → List SinkAnswer → List SinkAnswer
put_off zero l = l
put_off (suc n) l = busy ∷ put_off n l

pub put_off_once_more : (n : ℕ) (l : List SinkAnswer) → put_off (suc n) l ≡ put_off n (busy ∷ l)
put_off_once_more zero l = refl
put_off_once_more (suc n) l = ap (λ x. busy ∷ x) (put_off_once_more n l)

-- The receiver that the merged channels ask first after a number of polls.
abbrev pub turn : ℕ → Bool
turn zero = false
turn (suc n) = not (turn n)

module _ {S T : Type 0} (serde : Serde) (server : ServerHandler S T) where
  -- A new client with one call, over a transport that takes what it is given and brings nothing.
  abbrev pub asking : String → Option Params → ℕ → List SinkAnswer → S → T → Client S T
  asking method p tx completes s sink =
      new_with_server (item (rpc_call method p tx) ∷ []) []
        (record { starts = []; completes = completes; closes = []; accepted = [] }) [] s sink

  -- The same while the call is on its way.
  abbrev pub asked : String → ℕ → Bool → List SinkAnswer → S → T → Client S T
  asked text tx turn completes s sink = record (asking "" none tx [] s sink) {
    outgoing_payload_rx = record (select_with_weak [] []) { use_strong = turn };
    id_generator = record { next_id = 2 };
    pending_client_requests = (num 1, tx) ∷ [];
    transport_tx = record { starts = []; completes = completes; closes = []; accepted = text ∷ [] };
  }

  module _ (calm : (s : S) → server.poll s ≡ (ok not_ready, s)) where
    asking-handled :
        (method : String) (p : Option Params) (tx : ℕ) (a : SinkAnswer) (l : List SinkAnswer)
        (text : String) (s : S) (sink : T)
        → serialize_method_request serde (num 1) method p ≡ ok text
        → handle_messages serde server (asking method p tx (a ∷ l) s sink)
          ≡ (completion_result a, asked text tx false l s sink)
    unfolding new_with_server select_with_weak IdGenerator.new send_leftover poll_transport_rx
        drain_rx poll_outgoing_messages outgoing_loop outgoing_round poll_rx SelectWeak.poll
        send_payload add_new_call insert poll_transport_tx
    asking-handled method p tx a l text s sink written =
        let c = asking method p tx (a ∷ l) s sink in
        handle-steps serde server c c c c (asked text tx false (a ∷ l) s sink) refl
          (poll_server-calm serde server c s refl (calm s)) refl
          (>>-from (handle_client_payload serde (rpc_call method p tx)) (outgoing_loop serde 1)
            (record c {
              outgoing_payload_rx = record (select_with_weak [] []) { use_strong = true };
            })
            (asked text tx true (a ∷ l) s sink)
            (handle_client_payload-call serde server _ method p tx text refl written))

    asked-handled :
        (text : String) (tx : ℕ) (u : Bool) (a : SinkAnswer) (l : List SinkAnswer) (s : S)
        (sink : T)
        → handle_messages serde server (asked text tx u (a ∷ l) s sink)
          ≡ (completion_result a, asked text tx (not u) l s sink)
    unfolding new_with_server select_with_weak IdGenerator.new send_leftover poll_transport_rx
        drain_rx poll_outgoing_messages outgoing_loop outgoing_round poll_rx SelectWeak.poll
        poll_transport_tx
    asked-handled text tx true a l s sink =
        let c = asked text tx true (a ∷ l) s sink in
        handle-steps serde server c c c c (asked text tx false (a ∷ l) s sink) refl
          (poll_server-calm serde server c s refl (calm s)) refl refl
    asked-handled text tx false a l s sink =
        let c = asked text tx false (a ∷ l) s sink in
        handle-steps serde server c c c c (asked text tx true (a ∷ l) s sink) refl
          (poll_server-calm serde server c s refl (calm s)) refl refl

    pub poll-handled :
        (c d : Client S T)
        → should_shut_down c ≡ false
        → handle_messages serde server c ≡ (ok tt, d)
        → (poll serde server c).1 ≡ d
    unfolding poll
    poll-handled c d runs h = ground (arith, runs, h)

    -- An error of the transport ends a client whose transport closes at once.
    poll-broken :
        (c : Client S T) (text : String) (tx : ℕ) (u : Bool) (s : S) (sink : T)
        → should_shut_down c ≡ false
        → handle_messages serde server c ≡ (err (raised transport_error), asked text tx u [] s sink)
        → poll serde server c ≡ (err (raised transport_error), asked text tx u [] s sink)
    unfolding poll handle_shutdown poll_transport_rx drain_rx close_transport finish new_with_server
    poll-broken c text tx u s sink runs h = rw (runs, h) refl

    asked-polls :
        (method : String) (p : Option Params) (tx k : ℕ) (l : List SinkAnswer) (text : String)
        (s : S) (sink : T)
        → serialize_method_request serde (num 1) method p ≡ ok text
        → polls serde server (suc k) (asking method p tx (put_off (suc k) l) s sink)
          ≡ asked text tx (turn k) l s sink
    unfolding polls should_shut_down new_with_server
    asked-polls method p tx zero l text s sink written =
        poll-handled (asking method p tx (busy ∷ l) s sink) _ refl
          (asking-handled method p tx busy l text s sink written)
    asked-polls method p tx (suc k) l text s sink written =
        ap (λ x. (poll serde server (polls serde server (suc k) (asking method p tx x s sink))).1)
          (put_off_once_more (suc k) l)
        ∙ ap (λ c. (poll serde server c).1)
            (asked-polls method p tx k (busy ∷ l) text s sink written)
        ∙ poll-handled (asked text tx (turn k) (busy ∷ l) s sink) _ refl
            (asked-handled text tx (turn k) busy l s sink)

    -- The poll in which the transport fails.
    broken-poll :
        (method : String) (p : Option Params) (tx n : ℕ) (text : String) (s : S) (sink : T)
        → serialize_method_request serde (num 1) method p ≡ ok text
        → (u : Bool) × (poll serde server
              (polls serde server n (asking method p tx (put_off n (broken ∷ [])) s sink))
            ≡ (err (raised transport_error), asked text tx u [] s sink))
    unfolding should_shut_down new_with_server polls
    broken-poll method p tx zero text s sink written = (
      false,
      poll-broken (asking method p tx (broken ∷ []) s sink) text tx false s sink refl
          (asking-handled method p tx broken [] text s sink written),
    )
    broken-poll method p tx (suc k) text s sink written = (
      not (turn k),
      ap (poll serde server) (asked-polls method p tx k (broken ∷ []) text s sink written)
          ∙ poll-broken (asked text tx (turn k) (broken ∷ []) s sink) text tx (not (turn k)) s sink
              refl (asked-handled text tx (turn k) broken [] s sink),
    )

    -- If the sink takes a call and then fails, after it put its answer off a number of times, the
    -- client ends in TransportError, and the future of the call fails with Shutdown once the
    -- client is dropped.
    pub call_cut :
        {A : Type 0} (from_value : Value → Option A)
        (send : OutgoingMessage → Fut (Unit {0}) (Unit {0})) (method : String)
        (parameters : Option Value) (p : Option Params) (tx n : ℕ) (text : String) (s : S)
        (sink : T)
        → serialize_parameters parameters ≡ ok p
        → outcome (send (rpc_call method p tx)) ≡ some (ok tt)
        → serialize_method_request serde (num 1) method p ≡ ok text
        → let c = asking method p tx (put_off n (broken ∷ [])) s sink in
          let (r, d) = poll serde server (polls serde server n c) in
          (r ≡ err (raised transport_error))
          × (d.transport_tx.accepted ≡ text ∷ [])
          × (outcome (call_method from_value send method parameters tx (settled tx d.completed))
              ≡ some (err shutdown))
    unfolding new_with_server lookup
    call_cut from_value send method parameters p tx n text s sink takes sends written =
        let (u, e) = broken-poll method p tx n text s sink written in
        rw e (
          refl,
          refl,
          elim (settled_call from_value send method parameters p tx [] takes sends) [
            | inl (r, h, _) ↦ cc (h)
            | inr (_, f) ↦ f
          ],
        )
