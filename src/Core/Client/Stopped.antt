-- ===== src/Core/Client/Stopped.antt =====
-- A client of core/src/lib.rs that is shutting down, over many polls.
use jsonrpc_client_rs.Base.{ℕ, zero, suc, ◌≡◌, refl, ap, ◌∙◌, true}
use jsonrpc_client_rs.Core.Serialize.{Serde}
use jsonrpc_client_rs.Core.Client.{Client, ServerHandler}
use jsonrpc_client_rs.Core.Client.Drive.{should_shut_down, poll, polls}
use jsonrpc_client_rs.Core.Client.Ending.{poll_shutting_down}
use jsonrpc_client_rs.Core.Client.Written.{AllWait, shutting_down-stays}

module _ {S T : Type 0} where
  -- What a client that is shutting down leaves as it is.
  abbrev pub Silent : Client S T → Client S T → Type 0
  Silent c d =
      (d.transport_tx.accepted ≡ c.transport_tx.accepted)
      × (d.pending_payload ≡ c.pending_payload)
      × (d.outgoing_payload_rx ≡ c.outgoing_payload_rx)
      × (d.id_generator ≡ c.id_generator)

  Silent-trans : (a b c : Client S T) → Silent a b → Silent b c → Silent a c
  Silent-trans a b c (p, q, r, s) (p', q', r', s') = (p' ∙ p, q' ∙ q, r' ∙ r, s' ∙ s)

module _ {S T : Type 0} (serde : Serde) (server : ServerHandler S T) where
  poll-Silent : (c : Client S T) → should_shut_down c ≡ true → Silent c (poll serde server c).1
  poll-Silent c h =
      let (_, tx, _, payload, rx, ids, _) = poll_shutting_down serde server c h in
      (ap (λ t. t.accepted) tx, payload, rx, ids)

  waits-stopped :
      (n : ℕ) (c : Client S T)
      → should_shut_down c ≡ true
      → AllWait serde server n c
      → (should_shut_down (polls serde server n c) ≡ true) × Silent c (polls serde server n c)
  unfolding polls
  waits-stopped zero c h w = (h, (refl, refl, refl, refl))
  waits-stopped (suc n) c h (w, last) =
      let d = polls serde server n c in
      let (still, quiet) = waits-stopped n c h w in
      (
        shutting_down-stays serde server d still last,
        Silent-trans c d (poll serde server d).1 quiet (poll-Silent d still),
      )

  -- A client that is shutting down stays so while it waits: over any number of polls that all
  -- wait, and in the poll behind them, the transport takes nothing, the payload that waits stays
  -- as it is, no message leaves the outgoing channels, and no id is issued.
  pub stopped-Silent :
      (n : ℕ) (c : Client S T)
      → should_shut_down c ≡ true
      → AllWait serde server n c
      → (should_shut_down (polls serde server n c) ≡ true)
        × Silent c (polls serde server n c)
        × Silent c (poll serde server (polls serde server n c)).1
  stopped-Silent n c h w =
      let d = polls serde server n c in
      let (still, quiet) = waits-stopped n c h w in
      (still, quiet, Silent-trans c d (poll serde server d).1 quiet (poll-Silent d still))
