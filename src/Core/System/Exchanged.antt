-- ===== src/Core/System/Exchanged.antt =====
-- A call of a `ClientHandle` on its way through a client of core/src/lib.rs over a transport whose
-- response comes through its sink, after the sink was polled a number of times.
use jsonrpc_client_rs.Base.{
  ℕ, zero, suc, String, ◌≡◌, refl, ap, ◌∙◌, Bool, true, false, not, Option, some, List, [], ◌∷◌,
  nat_key,
}
use jsonrpc_client_rs.Base.Action.{Result, ok, >>-from}
use jsonrpc_client_rs.Base.Assoc.{insert}
use jsonrpc_client_rs.Poll.{not_ready, Answer, item, waiting, Fut, outcome}
use jsonrpc_client_rs.SelectWeak
use jsonrpc_client_rs.SelectWeak.{select_with_weak}
use jsonrpc_client_rs.Core.IdGenerator
use jsonrpc_client_rs.Core.IdGenerator.{IdGenerator}
use jsonrpc_client_rs.Core.Types.{Value, Params, num, id_key, Output, ErrorKind}
use jsonrpc_client_rs.Core.Serialize.{
  Serde, serialize_parameters, serialize_method_request, incoming_from_str, response,
}
use jsonrpc_client_rs.Core.Client.{
  Client, OutgoingMessage, rpc_call, SinkAnswer, taken, busy, ServerHandler,
}
use jsonrpc_client_rs.Core.Client.Send.{
  new_with_server, send_payload, add_new_call, poll_transport_tx, completion_result,
}
use jsonrpc_client_rs.Core.Client.Incoming.{
  version, is_v2, outcome as output_outcome, handle_transport_rx_payload, poll_transport_rx,
  drain_rx,
}
use jsonrpc_client_rs.Core.Client.Outgoing.{
  poll_rx, handle_client_payload, outgoing_round, outgoing_loop, poll_outgoing_messages,
}
use jsonrpc_client_rs.Core.Client.Drive.{
  should_shut_down, send_leftover, handle_messages, poll, polls,
}
use jsonrpc_client_rs.Core.Handle.{call_method}
use jsonrpc_client_rs.Core.Handle.Calls.{reply_to, resolved_to, call_method-replied}
use jsonrpc_client_rs.Core.System.Completed.{
  handle-steps, poll_server-calm, handle_client_payload-call, handle_response-one,
}
use jsonrpc_client_rs.Core.System.Cut.{put_off, put_off_once_more, turn, asked, poll-handled}

-- A stream that waits in front of others.
abbrev pub pause : ℕ → List (Answer String) → List (Answer String)
pause zero l = l
pause (suc n) l = waiting ∷ pause n l

pause_once_more : (n : ℕ) (l : List (Answer String)) → pause (suc n) l ≡ pause n (waiting ∷ l)
pause_once_more zero l = refl
pause_once_more (suc n) l = ap (λ x. waiting ∷ x) (pause_once_more n l)

module _ {S T : Type 0} (serde : Serde) (server : ServerHandler S T) where
  -- A new client with one call, by what its transport will answer.
  abbrev pub exchanging :
      String → Option Params → ℕ → List SinkAnswer → List (Answer String) → S → T → Client S T
  exchanging method p tx completes rx s sink =
      new_with_server (item (rpc_call method p tx) ∷ []) []
        (record { starts = []; completes = completes; closes = []; accepted = [] }) rx s sink

  -- The same while the call is on its way.
  abbrev under_way : String → ℕ → Bool → List SinkAnswer → List (Answer String) → S → T → Client S T
  under_way text tx turn completes rx s sink =
      record (asked serde server text tx turn completes s sink) { transport_rx = rx }

  module _ (calm : (s : S) → server.poll s ≡ (ok not_ready, s)) where
    exchanging-handled :
        (method : String) (p : Option Params) (tx : ℕ) (a : SinkAnswer) (l : List SinkAnswer)
        (r : List (Answer String)) (text : String) (s : S) (sink : T)
        → serialize_method_request serde (num 1) method p ≡ ok text
        → handle_messages serde server (exchanging method p tx (a ∷ l) (waiting ∷ r) s sink)
          ≡ (completion_result a, under_way text tx false l r s sink)
    unfolding new_with_server select_with_weak IdGenerator.new send_leftover poll_transport_rx
        drain_rx poll_outgoing_messages outgoing_loop outgoing_round poll_rx SelectWeak.poll
        send_payload add_new_call insert poll_transport_tx
    exchanging-handled method p tx a l r text s sink written =
        let c = exchanging method p tx (a ∷ l) (waiting ∷ r) s sink in
        let c2 = exchanging method p tx (a ∷ l) r s sink in
        handle-steps serde server c c c c2 (under_way text tx false (a ∷ l) r s sink) refl
          (poll_server-calm serde server c s refl (calm s)) refl
          (>>-from (handle_client_payload serde (rpc_call method p tx)) (outgoing_loop serde 1)
            (record c2 {
              outgoing_payload_rx = record (select_with_weak [] []) { use_strong = true };
            })
            (under_way text tx true (a ∷ l) r s sink)
            (handle_client_payload-call serde server _ method p tx text refl written))

    under_way-handled :
        (text : String) (tx : ℕ) (u : Bool) (a : SinkAnswer) (l : List SinkAnswer)
        (r : List (Answer String)) (s : S) (sink : T)
        → handle_messages serde server (under_way text tx u (a ∷ l) (waiting ∷ r) s sink)
          ≡ (completion_result a, under_way text tx (not u) l r s sink)
    unfolding new_with_server select_with_weak IdGenerator.new send_leftover poll_transport_rx
        drain_rx poll_outgoing_messages outgoing_loop outgoing_round poll_rx SelectWeak.poll
        poll_transport_tx
    under_way-handled text tx true a l r s sink =
        let c = under_way text tx true (a ∷ l) (waiting ∷ r) s sink in
        handle-steps serde server c c c (under_way text tx true (a ∷ l) r s sink)
          (under_way text tx false (a ∷ l) r s sink) refl
          (poll_server-calm serde server c s refl (calm s)) refl refl
    under_way-handled text tx false a l r s sink =
        let c = under_way text tx false (a ∷ l) (waiting ∷ r) s sink in
        handle-steps serde server c c c (under_way text tx false (a ∷ l) r s sink)
          (under_way text tx true (a ∷ l) r s sink) refl
          (poll_server-calm serde server c s refl (calm s)) refl refl

    under_way-polls :
        (method : String) (p : Option Params) (tx k : ℕ) (l : List SinkAnswer)
        (r : List (Answer String)) (text : String) (s : S) (sink : T)
        → serialize_method_request serde (num 1) method p ≡ ok text
        → polls serde server
            (suc k)
            (exchanging method p tx (put_off (suc k) l) (pause (suc k) r) s sink)
          ≡ under_way text tx (turn k) l r s sink
    unfolding polls should_shut_down new_with_server
    under_way-polls method p tx zero l r text s sink written =
        poll-handled serde server calm (exchanging method p tx (busy ∷ l) (waiting ∷ r) s sink) _
          refl (exchanging-handled method p tx busy l r text s sink written)
    under_way-polls method p tx (suc k) l r text s sink written =
        let after = λ (x : List SinkAnswer) (y : List (Answer String)).
          (poll serde server (polls serde server (suc k) (exchanging method p tx x y s sink))).1 in
        ap (λ x. after x (pause (suc (suc k)) r)) (put_off_once_more (suc k) l)
        ∙ ap (after (put_off (suc k) (busy ∷ l))) (pause_once_more (suc k) r)
        ∙ ap (λ c. (poll serde server c).1)
            (under_way-polls method p tx k (busy ∷ l) (waiting ∷ r) text s sink written)
        ∙ poll-handled serde server calm
            (under_way text tx (turn k) (busy ∷ l) (waiting ∷ r) s sink) _ refl
            (under_way-handled text tx (turn k) busy l r s sink)

    -- The sink has done its work, and the response comes.
    exchanging-polls :
        (method : String) (p : Option Params) (tx n : ℕ) (r : List (Answer String)) (text : String)
        (s : S) (sink : T)
        → serialize_method_request serde (num 1) method p ≡ ok text
        → (u : Bool) × (polls serde server
              (suc n)
              (exchanging method p tx (put_off n (taken ∷ [])) (pause (suc n) r) s sink)
            ≡ under_way text tx u [] r s sink)
    unfolding polls should_shut_down new_with_server
    exchanging-polls method p tx zero r text s sink written = (
      false,
      poll-handled serde server calm (exchanging method p tx (taken ∷ []) (waiting ∷ r) s sink) _
          refl (exchanging-handled method p tx taken [] r text s sink written),
    )
    exchanging-polls method p tx (suc k) r text s sink written = (
      not (turn k),
      ap
            (λ y.
              (poll serde server (
                polls serde server (suc k)
                  (exchanging method p tx (put_off (suc k) (taken ∷ [])) y s sink))).1)
            (pause_once_more (suc k) r)
          ∙ ap (λ c. (poll serde server c).1)
              (under_way-polls method p tx k (taken ∷ []) (waiting ∷ r) text s sink written)
          ∙ poll-handled serde server calm
              (under_way text tx (turn k) (taken ∷ []) (waiting ∷ r) s sink) _ refl
              (under_way-handled text tx (turn k) taken [] r s sink),
    )

    -- The same once the response came.
    abbrev arrived : String → ℕ → Bool → S → T → Result Value ErrorKind → Client S T
    arrived text tx u s sink result = record (under_way text tx u [] [] s sink) {
      pending_client_requests = [];
      completed = (tx, result) ∷ [];
    }

    no_messages :
        (text : String) (tx : ℕ) (u : Bool) (s : S) (sink : T) (result : Result Value ErrorKind)
        → poll_outgoing_messages serde (arrived text tx u s sink result)
          ≡ (ok tt, arrived text tx (not u) s sink result)
    unfolding new_with_server select_with_weak IdGenerator.new poll_outgoing_messages outgoing_loop
        outgoing_round poll_rx SelectWeak.poll
    no_messages text tx false s sink result = refl
    no_messages text tx true s sink result = refl

    arrived-poll :
        (text : String) (tx : ℕ) (u : Bool) (payload : String) (s : S) (sink : T) (output : Output)
        (result : Result Value ErrorKind)
        → incoming_from_str serde payload ≡ ok (response output)
        → is_v2 (version output) ≡ true
        → output_outcome output ≡ (num 1, result)
        → (poll serde server (under_way text tx u [] (item payload ∷ []) s sink)).1
          ≡ arrived text tx (not u) s sink result
    unfolding new_with_server select_with_weak IdGenerator.new should_shut_down send_leftover
        poll_transport_rx drain_rx handle_transport_rx_payload poll_outgoing_messages outgoing_loop
        outgoing_round poll_rx SelectWeak.poll poll_transport_tx
    arrived-poll text tx u payload s sink output result reads v o =
        let c = under_way text tx u [] (item payload ∷ []) s sink in
        let c2 = arrived text tx u s sink result in
        let taken_in =
          >>-from (handle_transport_rx_payload serde server payload) (drain_rx serde server [])
            (under_way text tx u [] [] s sink) c2
            (rw reads (
              handle_response-one serde server (under_way text tx u [] [] s sink) output tx result v
                o refl)) in
        poll-handled serde server calm c _ refl (
          handle-steps serde server c c c c2 (arrived text tx (not u) s sink result) refl
            (poll_server-calm serde server c s refl (calm s)) taken_in
            (no_messages text tx u s sink result))

    -- If the sink is done with a call at its poll n, counted from 0, and the response of the peer
    -- comes behind that, then after n + 1 polls the text of the call, alone, is on the transport
    -- and the call is not answered, and after one more its future resolves to what the response
    -- says.
    pub call_exchanged :
        {A : Type 0} (from_value : Value → Option A)
        (send : OutgoingMessage → Fut (Unit {0}) (Unit {0})) (method : String)
        (parameters : Option Value) (p : Option Params) (tx n : ℕ) (payload text : String) (s : S)
        (sink : T) (output : Output) (result : Result Value ErrorKind)
        → serialize_parameters parameters ≡ ok p
        → outcome (send (rpc_call method p tx)) ≡ some (ok tt)
        → serialize_method_request serde (num 1) method p ≡ ok text
        → incoming_from_str serde payload ≡ ok (response output)
        → is_v2 (version output) ≡ true
        → output_outcome output ≡ (num 1, result)
        → let c =
            exchanging method p tx
              (put_off n (taken ∷ []))
              (pause (suc n) (item payload ∷ []))
              s
              sink in
          let d = polls serde server (suc n) c in
          let e = polls serde server (suc (suc n)) c in
          (d.transport_tx.accepted ≡ text ∷ [])
          × (d.completed ≡ [])
          × (outcome (call_method from_value send method parameters tx (reply_to tx e.completed))
              ≡ resolved_to from_value send result)
    unfolding polls new_with_server
    call_exchanged from_value send method parameters p tx n payload text s sink output result takes
          sends written reads v o =
        let (u, there) = exchanging-polls method p tx n (item payload ∷ []) text s sink written in
        let back =
          ap (λ c. (poll serde server c).1) there
          ∙ arrived-poll text tx u payload s sink output result reads v o in
        (
          ap (λ c. c.transport_tx.accepted) there,
          ap (λ c. c.completed) there,
          call_method-replied from_value send method parameters p tx result _ [] takes sends
              (ap (λ c. c.completed) back),
        )
