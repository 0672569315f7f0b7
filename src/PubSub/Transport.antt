-- ===== src/PubSub/Transport.antt =====
-- `SubscriberTransport::subscriber_client` of pubsub/src/lib.rs.
use jsonrpc_client_rs.Base.{List, some}
use jsonrpc_client_rs.Core.Client.{Client}
use jsonrpc_client_rs.Core.Server.Handlers
use jsonrpc_client_rs.Core.Server.State.{Server, Event}
use jsonrpc_client_rs.Core.Server.State
use jsonrpc_client_rs.Core.System.Start.{Transport, Ends, with_server}
use jsonrpc_client_rs.PubSub.Subscriber.{Subscriber}
use jsonrpc_client_rs.PubSub.Subscriber

-- The client with its own server, whose handles will send the `events`, and a subscriber that
-- reaches the callbacks of that server.
unfoldable pub subscriber_client :
    {T : Type 0} → Transport → List Event → Ends T → Client (Server T) T × Subscriber
unfolding with_server State.new Handlers.new Subscriber.new
subscriber_client transport events ends =
    (with_server transport (State.new events) ends, Subscriber.new (some Handlers.new))
