-- ===== src/Core/Client/Rules.antt =====
-- Rules for a transitive relation between the state before and the state after a method: the
-- methods that call others respect it if those that they call do.
use jsonrpc_client_rs.Base.{String, Option, some, List, [], ◌∷◌, Bool, true, false, if◌then◌else◌}
use jsonrpc_client_rs.Base.Action.{Result, ok, err, ◌>>◌, Does, >>-Does}
use jsonrpc_client_rs.Poll.{Answer, item, finished, waiting, failed}
use jsonrpc_client_rs.Core.Types.{ErrorKind, shutdown}
use jsonrpc_client_rs.Core.Serialize.{Serde}
use jsonrpc_client_rs.Core.Client.{Client, ServerHandler, Method, Stop, raised, panicked}
use jsonrpc_client_rs.Core.Client.Send.{poll_transport_tx}
use jsonrpc_client_rs.Core.Client.Incoming.{
  handle_transport_rx_payload, drain_rx, poll_transport_rx, poll_server, read_on,
}
use jsonrpc_client_rs.Core.Client.Outgoing.{poll_outgoing_messages}
use jsonrpc_client_rs.Core.Client.Drive.{
  should_shut_down, send_leftover, close_transport, handle_messages, handle_shutdown,
  after_messages, poll,
}

module _ {S T : Type 0} (R : Client S T → Client S T → Type 0)
    (trans : (a b c : Client S T) → R a b → R b c → R a c) (serde : Serde)
    (server : ServerHandler S T) where
  then-Does :
      {A : Type 0} (m : Method S T (Unit {0})) (n : Method S T A)
      → Does R m
      → Does R n
      → Does R (m >> n)
  then-Does m n = >>-Does R trans m n

  pub drain_rx-Does :
      ((rest : List (Answer String)) (c : Client S T) → R c (read_on rest c))
      → ((payload : String) → Does R (handle_transport_rx_payload serde server payload))
      → (l : List (Answer String)) → Does R (drain_rx serde server l)
  unfolding drain_rx
  drain_rx-Does read each [] c = read [] c
  drain_rx-Does read each (item p ∷ l) c = trans c (read_on l c) _ (read l c) (
      then-Does (handle_transport_rx_payload serde server p) (drain_rx serde server l) (each p)
        (drain_rx-Does read each l) (read_on l c))
  drain_rx-Does read each (finished ∷ l) c = read l c
  drain_rx-Does read each (waiting ∷ l) c = read l c
  drain_rx-Does read each (failed ∷ l) c = read l c

  pub poll_transport_rx-Does :
      ((rest : List (Answer String)) (c : Client S T) → R c (read_on rest c))
      → ((payload : String) → Does R (handle_transport_rx_payload serde server payload))
      → Does R (poll_transport_rx serde server)
  unfolding poll_transport_rx
  poll_transport_rx-Does read each c = drain_rx-Does read each c.transport_rx c

  pub handle_messages-Does :
      Does R send_leftover
      → Does R (poll_server server)
      → Does R (poll_transport_rx serde server)
      → Does R (poll_outgoing_messages serde)
      → Does R poll_transport_tx
      → Does R (handle_messages serde server)
  unfolding handle_messages
  handle_messages-Does h1 h2 h3 h4 h5 = then-Does send_leftover m2 h1 d2
    where
      m4 : Method S T (Unit {0})
      m4 = poll_outgoing_messages serde >> poll_transport_tx

      d4 : Does R m4
      d4 = then-Does (poll_outgoing_messages serde) poll_transport_tx h4 h5

      m3 : Method S T (Unit {0})
      m3 = poll_transport_rx serde server >> m4

      d3 : Does R m3
      d3 = then-Does (poll_transport_rx serde server) m4 h3 d4

      m2 : Method S T (Unit {0})
      m2 = poll_server server >> m3

      d2 : Does R m2
      d2 = then-Does (poll_server server) m3 h2 d3

  pub handle_shutdown-Does :
      Does R (poll_transport_rx serde server)
      → Does R close_transport
      → Does R (handle_shutdown serde server)
  unfolding handle_shutdown
  handle_shutdown-Does h k c = trans c _ _ (h c) (k (poll_transport_rx serde server c).1)

  after_messages-Does :
      ((c : Client S T) → R c c)
      → ((b : Bool) (c : Client S T) → R c (record c { shutting_down = b }))
      → ((e : Option ErrorKind) (c : Client S T) → R c (record c { fatal_error = e }))
      → Does R (handle_shutdown serde server)
      → (r : Result (Unit {0}) Stop) → Does R (after_messages serde server r)
  after_messages-Does same mark store h (ok _) c = same c
  after_messages-Does same mark store h (err (raised shutdown)) c =
      trans c _ _ (mark true c) (h (record c { shutting_down = true }))
  after_messages-Does same mark store h (err (raised e)) c =
      trans c _ _ (store (some e) c) (h (record c { fatal_error = some e }))
  after_messages-Does same mark store h (err panicked) c = same c

  pub poll-Does :
      ((c : Client S T) → R c c)
      → ((b : Bool) (c : Client S T) → R c (record c { shutting_down = b }))
      → ((e : Option ErrorKind) (c : Client S T) → R c (record c { fatal_error = e }))
      → Does R (handle_shutdown serde server)
      → Does R (handle_messages serde server)
      → Does R (poll serde server)
  unfolding poll
  poll-Does same mark store h k c = go (should_shut_down c)
    where
      messages :
          R c
            (after_messages serde server
              (handle_messages serde server c).0
              (handle_messages serde server c).1).1
      messages = trans c _ _ (k c) (
          after_messages-Does same mark store h (handle_messages serde server c).0
            (handle_messages serde server c).1)

      go :
          (b : Bool)
          → R c
              (if b
                then handle_shutdown serde server c
                else (let (r, c') = handle_messages serde server c in
                    after_messages serde server r c')).1
      go true = h c
      go false = messages
