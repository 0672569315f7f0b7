-- ===== src/Core/Client/Tally.antt =====
-- Where the completion channels of calls stand: in the outgoing channels, among the calls that
-- wait for a response, and among the answers.
use jsonrpc_client_rs.Base.{ℕ, ◌+◌, ◌≤◌, ◌≡◌, some, List, [], ◌∷◌, num_eq, if◌then◌else◌, arith}
use jsonrpc_client_rs.Base.Assoc.{Assoc, lookup, insert, erase}
use jsonrpc_client_rs.Poll.{Answer, item, finished, waiting, failed, pull_fused}
use jsonrpc_client_rs.SelectWeak.{Select}
use jsonrpc_client_rs.SelectWeak
use jsonrpc_client_rs.Core.Types.{RequestId, id_key}
use jsonrpc_client_rs.Core.Client.{Client, OutgoingMessage, rpc_call}

abbrev pub one : ℕ → ℕ → ℕ
one k v = if num_eq k v then 1 else 0

-- How often a channel stands among the calls that wait for a response.
abbrev pub held : ℕ → Assoc RequestId ℕ → ℕ
held k [] = 0
held k ((i, v) ∷ m) = one k v + held k m

-- How often it was answered.
abbrev pub answered : {A : Type 0} → ℕ → List (ℕ × A) → ℕ
answered k [] = 0
answered k ((v, r) ∷ l) = one k v + answered k l

-- How often it stands among the messages that are still to come.
abbrev pub carries : ℕ → Answer OutgoingMessage → ℕ
carries k (item (rpc_call m p v)) = one k v
carries k _ = 0

abbrev pub queued : ℕ → List (Answer OutgoingMessage) → ℕ
queued k [] = 0
queued k (a ∷ l) = carries k a + queued k l

abbrev pub in_queue : ℕ → Select (List (Answer OutgoingMessage)) (List (Answer OutgoingMessage)) → ℕ
in_queue k rx = queued k rx.strong + queued k rx.weak

module _ {S T : Type 0} where
  abbrev pub tally : ℕ → Client S T → ℕ
  tally k c =
      in_queue k c.outgoing_payload_rx + held k c.pending_client_requests + answered k c.completed

  -- No channel's tally grows.
  abbrev pub Falls : Client S T → Client S T → Type 0
  Falls c d = (k : ℕ) → tally k d ≤ tally k c

pub held-insert :
    (k : ℕ) (i : RequestId) (v : ℕ) (m : Assoc RequestId ℕ)
    → held k (insert i v m) ≤ one k v + held k m
unfolding insert
held-insert k i v [] = omega arith
held-insert k i v ((j, w) ∷ m) = ground (arith, held-insert k i v m)

held-erase_le : (k : ℕ) (i : RequestId) (m : Assoc RequestId ℕ) → held k (erase i m) ≤ held k m
unfolding erase
held-erase_le k i [] = omega arith
held-erase_le k i ((j, w) ∷ m) = ground (arith, held-erase_le k i m)

pub held-erase :
    (k : ℕ) (i : RequestId) (v : ℕ) (m : Assoc RequestId ℕ)
    → lookup i m ≡ some v
    → one k v + held k (erase i m) ≤ held k m
unfolding lookup erase
held-erase k i v [] h = cc
held-erase k i v ((j, w) ∷ m) h = ground (arith, held-erase k i v m, held-erase_le k i m)

pull_fused-queued :
    (k : ℕ) (l : List (Answer OutgoingMessage))
    → carries k (pull_fused l).0 + queued k (pull_fused l).1 ≡ queued k l
pull_fused-queued k [] = omega arith
pull_fused-queued k (item a ∷ l) = omega arith
pull_fused-queued k (finished ∷ l) = omega arith
pull_fused-queued k (waiting ∷ l) = omega arith
pull_fused-queued k (failed ∷ l) = omega arith

-- What the merged channels serve is what they lose.
pub poll-in_queue :
    (k : ℕ) (rx : Select (List (Answer OutgoingMessage)) (List (Answer OutgoingMessage)))
    → let (a, rx') = SelectWeak.poll pull_fused pull_fused rx in
      carries k a + in_queue k rx' ≡ in_queue k rx
unfolding SelectWeak.poll
poll-in_queue k rx = ground (arith, pull_fused-queued k rx.strong, pull_fused-queued k rx.weak)
