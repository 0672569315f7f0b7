-- ===== src/Lib.antt =====
-- The crates of jsonrpc-client-rs: an asynchronous JSON-RPC 2.0 client that also serves the
-- requests and notifications that its peer sends, with subscriptions on top.
--
-- The program is built of futures that are polled. A `Client` (core/src/lib.rs) takes messages
-- from a merged stream of two channels, the strong one from its `ClientHandle`s and the weak
-- one from its own server handler, turns them into JSON text and gives them to the sink of the
-- transport; it reads the stream of the transport, answers the calls that wait with the
-- responses that come, and gives requests to the server handler. The default handler is
-- `Server` (core/src/server.rs), which looks callbacks up in `Handlers`, keeps the futures that
-- they make, and sends the responses into the weak channel. The merged stream is
-- `SelectWithWeak` (utils/src/select_weak.rs). A `NotificationHandler` (pubsub/src/lib.rs) is a
-- callback's other end: it hands the messages of a subscription to the channels of the
-- subscribers.
--
-- Which module models what:
--
-- - Base: helpers that name nothing of the program: Boolean tests, maps as association lists,
--   and methods on `&mut self` that return a `Result` as functions to a result and the new
--   state.
-- - Poll: the vocabulary of the futures crate: `Async`, the answers of a stream, and a future
--   as the polls that are still to come.
-- - SelectWeak: utils/src/select_weak.rs, over any two streams. SelectWeak/Order says what it
--   serves and when it ends; SelectWeak/Script, SelectWeak/Serves, SelectWeak/Merging and
--   SelectWeak/Full are about two channels, as a client and a notification handler have them:
--   what they hold, what is served of them, and in which order.
-- - Core/Types and Core/Serialize: the messages, the errors, and the functions to and from JSON
--   text. serde_json is the record `Serde`, of functions that may fail.
-- - Core/IdGenerator: core/src/id_generator.rs. The counter is kept modulo 2 ^ 64, as a release
--   build has it.
-- - Core/Client: `struct Client`. Send, Incoming, Outgoing and Drive hold its methods, each
--   under its own name; the other modules prove things about them.
-- - Core/Server: core/src/server.rs. Handlers has the callbacks, Drivable the futures that a
--   request becomes, State the `Server`, Display the texts, Outcomes the responses that a
--   future sends when it is driven to its end; the other modules prove things about them,
--   Refinement against the function from names to callbacks that a registry stands for.
-- - Core/System: the client with the default server as its handler, where a response that the
--   server sends is in the client's weak channel once the future of its send has resolved;
--   `poll` and `turn` are `Future::poll` and `handle_messages` of the client once more, with
--   that channel. Start has the ways to make a client; Outgoing, Relay, Turn, Peer and
--   Registered follow a call of the peer to its answer; Completed follows a call of a handle to
--   its result, Cut one whose transport fails, and Exchanged one whose response comes behind
--   the sink's work.
-- - Core/Macros and Core/Example: core/src/macros.rs, as the function that a generated method
--   is, and core/src/example.rs.
-- - Core/Handle: `ClientHandle` of core/src/lib.rs and `ServerHandle` of core/src/server.rs.
--   Calls, Notifications, Settled and Registration prove things about them.
-- - PubSub: pubsub/src/lib.rs. Notifier has the methods of the notification handler, about
--   which Loop and Routing prove things; Subscriber has `Subscriber` and `Subscription`, and
--   Sharing, Callback, Delivery and Early prove things about them and the handlers that they
--   start; Directory, Steps and Following hold the handler against the messages that it was
--   given; Served follows a subscription over a client; Transport has `subscriber_client`.
-- - Http: http/src/lib.rs and http/src/client_creator.rs. TimeLimited has the time limits,
--   Processing the event loop's future, Handle the handle and its requests, Text the sink of
--   its transport, Builder the builder, its two ends and the makers of clients; Limits,
--   Service, Exchange and Headers prove things about them; Client has a client over this
--   transport, where the answers of its sink and of its stream are what the future of the sink
--   makes of the text by way of the event loop. hyper and the timers of tokio are the records
--   `Hyper` and `Headers`.
-- - Ipc: ipc/src/lib.rs.
-- - Modules called Tests hold runs on small inputs, except Base/Tests, which holds Boolean
--   tests.
--
-- Streams, sinks and futures of other crates are the answers that they will give, in order; a
-- stream or a sink that is out of answers waits or takes what it is given. A oneshot channel is
-- a number, and what is sent into it is recorded in a list, the newest first. A statement about
-- every list of answers is therefore one about every behaviour of the other side. `HashMap` and
-- `BTreeMap` are association lists.
--
-- The loops of `poll_outgoing_messages` and of the poll of the notification handler run on
-- fuel, one round more than there are answers left in the two channels; each round that goes on
-- takes an answer, so this is enough. The other loops are recursions on the answers. `for_each`
-- of the HTTP transport is a recursion on the requests.
--
-- Two simplifications: with the code's mpsc::channel(0) a response can be in the weak channel
-- from the start of its send on, before the future of the send resolves; and a server whose
-- poll returned an error keeps the futures that had resolved in it, which would panic if it
-- were polled again, while the model lets them wait. A client does not poll its server handler
-- again after an error.
--
-- Not modelled: the texts of the errors of error_chain and of the log; the wake-up of tasks, so
-- that a poll is an event that happens; threads, so that the thread of a standalone HTTP
-- transport is what it sends back and what it runs; the inner workings of the crates that the
-- sources call, which are parameters: the codec and the connection of the IPC transport, the
-- event loop, hyper, serde_json and the sinks and streams of futures; and the tests of the HTTP
-- transport.
pub mod Base
pub mod Poll
pub mod SelectWeak
pub mod Core
pub mod PubSub
pub mod Http
pub mod Ipc
