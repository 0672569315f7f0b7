-- ===== src/Core/Client/Fresh.antt =====
-- The ids of calls: `add_new_call` of core/src/lib.rs and the id generator.
use jsonrpc_client_rs.Base.{
  ℕ, zero, suc, String, ◌+◌, ◌<◌, ◌≡◌, refl, inl, inr, none, List, [], ◌∷◌, is_some, ◌==◌, arith,
  Bool-cases, length,
}
use jsonrpc_client_rs.Base.Action.{Result, ok, err, Does, >>-holds}
use jsonrpc_client_rs.Base.Assoc.{Assoc, lookup, insert, erase}
use jsonrpc_client_rs.Poll.{Answer, item, finished, waiting, failed}
use jsonrpc_client_rs.SelectWeak.Script.{poll-backlog_le}
use jsonrpc_client_rs.Core.Types.{RequestId, num, str, id_key, ErrorKind}
use jsonrpc_client_rs.Core.IdGenerator.{next, u64_mod}
use jsonrpc_client_rs.Core.Serialize.{Serde, IncomingMessage, request, response, incoming_from_str}
use jsonrpc_client_rs.Core.Client.{
  Client, OutgoingMessage, rpc_call, ServerHandler, Method, TransportTx,
}
use jsonrpc_client_rs.Core.Client.Send.{
  send_payload, poll_transport_tx, add_new_call, new_with_server,
}
use jsonrpc_client_rs.Core.Client.Incoming.{
  complete_call, handle_response, process_request, on_message, handle_transport_rx_payload,
  poll_transport_rx, poll_server, outcome,
}
use jsonrpc_client_rs.Core.Client.Outgoing.{
  issue_call, issue_notification, issue_response, handle_client_payload, poll_rx, on_outgoing,
  outgoing_round, outgoing_loop, poll_outgoing_messages,
}
use jsonrpc_client_rs.Core.Client.Drive.{send_leftover, finish, close_transport, poll, polls}
use jsonrpc_client_rs.Core.Client.Rules.{
  poll_transport_rx-Does, handle_messages-Does, handle_shutdown-Does, poll-Does,
}
use jsonrpc_client_rs.Core.Client.Loop.{waiting_messages, poll_rx-falls}

abbrev pub IsBelow : ℕ → RequestId → Type 0
IsBelow n RequestId.null = ⊥
IsBelow n (num j) = j < n
IsBelow n (str s) = ⊥

-- Every id is a number below the bound.
abbrev pub Issued : ℕ → Assoc RequestId ℕ → Type 0
Issued n [] = Unit {0}
Issued n ((i, v) ∷ m) = IsBelow n i × Issued n m

pub lookup-Issued : (n : ℕ) (m : Assoc RequestId ℕ) → Issued n m → lookup (num n) m ≡ none
unfolding lookup
lookup-Issued n [] h = refl
lookup-Issued n ((RequestId.null, v) ∷ m) h = absurd h.0
lookup-Issued n ((num j, v) ∷ m) h = ground (arith, lookup-Issued n m h.1)
lookup-Issued n ((str s, v) ∷ m) h = absurd h.0

IsBelow-suc : (n : ℕ) (i : RequestId) → IsBelow n i → IsBelow (n + 1) i
IsBelow-suc n RequestId.null h = h
IsBelow-suc n (num j) h = omega arith
IsBelow-suc n (str s) h = h

Issued-suc : (n : ℕ) (m : Assoc RequestId ℕ) → Issued n m → Issued (n + 1) m
Issued-suc n [] h = tt
Issued-suc n ((i, v) ∷ m) h = (IsBelow-suc n i h.0, Issued-suc n m h.1)

insert-Issued :
    (n : ℕ) (i : RequestId) (v : ℕ) (m : Assoc RequestId ℕ)
    → IsBelow n i
    → Issued n m
    → Issued n (insert i v m)
unfolding insert
insert-Issued n i v [] b h = (b, tt)
insert-Issued n i v ((j, w) ∷ m) b h = elim (Bool-cases (i == j)) [
  | inl e ↦ rw e (b, h.1)
  | inr e ↦ rw e (h.0, insert-Issued n i v m b h.1)
]

erase-Issued : (n : ℕ) (i : RequestId) (m : Assoc RequestId ℕ) → Issued n m → Issued n (erase i m)
unfolding erase
erase-Issued n i [] h = tt
erase-Issued n i ((j, w) ∷ m) h = elim (Bool-cases (i == j)) [
  | inl e ↦ rw e (erase-Issued n i m h.1)
  | inr e ↦ rw e (h.0, erase-Issued n i m h.1)
]

module _ {S T : Type 0} where
  -- The waiting ids were issued, and the counter has room for the messages that are to come.
  pub record Inv (c : Client S T) : Type 0 where
    pub issued : Issued c.id_generator.next_id c.pending_client_requests
    pub room : c.id_generator.next_id + waiting_messages c < u64_mod

  abbrev pub Keeps : Client S T → Client S T → Type 0
  Keeps c d = Inv c → Inv d

  Keeps-trans : (a b c : Client S T) → Keeps a b → Keeps b c → Keeps a c
  Keeps-trans a b c f g v = g (f v)

  pub send_leftover-Keeps : Does Keeps send_leftover
  unfolding send_leftover send_payload
  send_leftover-Keeps c v = ground arith

  pub poll_transport_tx-Keeps : Does Keeps poll_transport_tx
  unfolding poll_transport_tx
  poll_transport_tx-Keeps c v = ground arith

  pub close_transport-Keeps : Does Keeps close_transport
  unfolding close_transport finish
  close_transport-Keeps c v = ground arith

  pub poll_server-Keeps : (server : ServerHandler S T) → Does Keeps (poll_server server)
  unfolding poll_server
  poll_server-Keeps server c v = ground arith

  pub on_message-Keeps :
      (server : ServerHandler S T) (m : Result IncomingMessage ErrorKind)
      → Does Keeps (on_message server m)
  unfolding process_request handle_response complete_call
  on_message-Keeps server (ok (request req)) c v = ground arith
  on_message-Keeps server (ok (response o)) c v =
      ground (
        arith,
        erase-Issued c.id_generator.next_id (outcome o).0 c.pending_client_requests v.issued,
      )
  on_message-Keeps server (err e) c v = v

  poll_transport_rx-Keeps :
      (serde : Serde) (server : ServerHandler S T) → Does Keeps (poll_transport_rx serde server)
  unfolding handle_transport_rx_payload
  poll_transport_rx-Keeps serde server =
      poll_transport_rx-Does Keeps Keeps-trans serde server
        (λ rest c v. record { issued = v.issued; room = v.room })
        (λ payload. on_message-Keeps server (incoming_from_str serde payload))

  -- A new call takes the next id, for which there is room when one message fewer is to come.
  pub handle_client_payload-Inv :
      (serde : Serde) (m : OutgoingMessage) (c : Client S T)
      → Issued c.id_generator.next_id c.pending_client_requests
      → c.id_generator.next_id + waiting_messages c + 1 < u64_mod
      → Inv (handle_client_payload serde m c).1
  unfolding handle_client_payload issue_call issue_notification issue_response send_payload
      add_new_call next
  handle_client_payload-Inv serde (rpc_call m p v) c h room = ground (
    arith,
    Issued-suc c.id_generator.next_id c.pending_client_requests h,
    insert-Issued (c.id_generator.next_id + 1) (num c.id_generator.next_id) v
        c.pending_client_requests,
  )
  handle_client_payload-Inv serde m c h room = ground arith

  pub poll_rx-ids :
      (c : Client S T)
      → ((poll_rx c).1.id_generator ≡ c.id_generator)
        × ((poll_rx c).1.pending_client_requests ≡ c.pending_client_requests)
  unfolding poll_rx
  poll_rx-ids c = (refl, refl)

  pub poll_rx-Inv : (c : Client S T) → Inv c → Inv (poll_rx c).1
  unfolding poll_rx
  poll_rx-Inv c v = record {
    issued = v.issued;
    room = omega (arith, poll-backlog_le c.outgoing_payload_rx, v.room);
  }

  pub new_with_server-Inv :
      (strong weak : List (Answer OutgoingMessage)) (tx : TransportTx) (rx : List (Answer String))
      (s : S) (t : T)
      → length strong + length weak + 1 < u64_mod
      → Inv (new_with_server strong weak tx rx s t)
  unfolding new_with_server
  new_with_server-Inv strong weak tx rx s t room = record { issued = tt; room = omega arith }

  module _ (serde : Serde) where
    on_outgoing-Inv :
        (n : Method S T (Unit {0}))
        → Does Keeps n
        → (a : Answer OutgoingMessage) (c : Client S T) → Inv c
        → ((m : OutgoingMessage)
            → a ≡ item m
            → c.id_generator.next_id + waiting_messages c + 1 < u64_mod)
        → Inv (on_outgoing serde a n c).1
    on_outgoing-Inv n k (item m) c v room =
        >>-holds Inv (handle_client_payload serde m) n c
          (handle_client_payload-Inv serde m c v.issued (room m refl)) k
    on_outgoing-Inv n k finished c v room = v
    on_outgoing-Inv n k waiting c v room = v
    on_outgoing-Inv n k failed c v room = v

    outgoing_loop-Keeps : (f : ℕ) → Does Keeps (outgoing_loop serde f)
    unfolding outgoing_loop outgoing_round
    outgoing_loop-Keeps zero c v = v
    outgoing_loop-Keeps (suc f) c v = elim (Bool-cases (is_some c.pending_payload)) [
      | inl e ↦ rw e v
      | inr e ↦ rw e (
          on_outgoing-Inv (outgoing_loop serde f) (outgoing_loop-Keeps f) (poll_rx c).0
            (poll_rx c).1 (poll_rx-Inv c v)
            (λ m h.
              let falls = poll_rx-falls c m h in
              let (same, _) = poll_rx-ids c in rw same (omega (arith, v.room, falls))))
    ]

    poll_outgoing_messages-Keeps : Does Keeps (poll_outgoing_messages serde)
    unfolding poll_outgoing_messages
    poll_outgoing_messages-Keeps c = outgoing_loop-Keeps _ c

  module _ (serde : Serde) (server : ServerHandler S T) where
    poll-Keeps : Does Keeps (poll serde server)
    poll-Keeps =
        poll-Does Keeps Keeps-trans serde server (λ c v. v)
          (λ b c v. record { issued = v.issued; room = v.room })
          (λ e c v. record { issued = v.issued; room = v.room })
          (handle_shutdown-Does Keeps Keeps-trans serde server
            (poll_transport_rx-Keeps serde server) close_transport-Keeps)
          (handle_messages-Does Keeps Keeps-trans serde server send_leftover-Keeps
            (poll_server-Keeps server) (poll_transport_rx-Keeps serde server)
            (poll_outgoing_messages-Keeps serde) poll_transport_tx-Keeps)

    pub polls-Inv : (n : ℕ) (c : Client S T) → Inv c → Inv (polls serde server n c)
    unfolding polls
    polls-Inv zero c v = v
    polls-Inv (suc n) c v = poll-Keeps (polls serde server n c) (polls-Inv n c v)

    -- However often a new client is polled, the id of the next call is not the id of a call that
    -- waits, provided its two channels hold fewer than 2 ^ 64 - 1 answers in all.
    pub next_id_unused :
        (strong weak : List (Answer OutgoingMessage)) (tx : TransportTx) (rx : List (Answer String))
        (s : S) (t : T) (n : ℕ)
        → length strong + length weak + 1 < u64_mod
        → let d = polls serde server n (new_with_server strong weak tx rx s t) in
          lookup (next d.id_generator).0 d.pending_client_requests ≡ none
    next_id_unused strong weak tx rx s t n room =
        let d = polls serde server n (new_with_server strong weak tx rx s t) in
        let v = polls-Inv n _ (new_with_server-Inv strong weak tx rx s t room) in
        unfold next in lookup-Issued d.id_generator.next_id d.pending_client_requests v.issued
