-- ===== src/Core/Server/State.antt =====
-- `struct Server` of core/src/server.rs, its `Future` and its `ServerHandler`.
use jsonrpc_client_rs.Base.{
  ℕ, String, Bool, true, false, Option, none, some, List, [], ◌∷◌, ◌++◌, nat_key,
}
use jsonrpc_client_rs.Base.Action.{Result, ok, err}
use jsonrpc_client_rs.Base.Assoc.{Assoc, insert, erase}
use jsonrpc_client_rs.Poll.{Async, not_ready, map_ok}
use jsonrpc_client_rs.Core.Types.{Response, Request, ErrorKind}
use jsonrpc_client_rs.Core.IdGenerator.{IdGenerator, next_int}
use jsonrpc_client_rs.Core.IdGenerator
use jsonrpc_client_rs.Core.Client.{ServerHandler}
use jsonrpc_client_rs.Core.Server.Handlers.{
  Handler, HandlerError, HandlerSettingError, Handlers, add, remove, shut_down,
}
use jsonrpc_client_rs.Core.Server.Handlers
use jsonrpc_client_rs.Core.Server.Drivable.{
  DrivableCall, failing, spent, Driven, waits, finishes, fails, Channel, poll_call,
  driveable_future,
}

-- `enum HandlerMsg`. A number names the oneshot channel of the reply.
pub data HandlerMsg : Type 0 where
  add_handler : String → Handler → ℕ → HandlerMsg
  remove_handler : String → ℕ → HandlerMsg

-- What the receiver of the messages answers: `Ready(Some(msg))`, `Ready(None)` and `NotReady`. The
-- receivers of channels return no error, which the source calls unreachable.
pub data Event : Type 0 where
  arrives : HandlerMsg → Event
  closes : Event
  quiet : Event

-- What was sent into the oneshot channels.
pub data Reply : Type 0 where
  added : Result (Unit {0}) HandlerSettingError → Reply
  removed : Result Handler HandlerError → Reply

-- `struct Server`, with the replies and the responses that were sent, newest first.
pub record Server (T : Type 0) : Type 0 where
  pub handler_chan : Option (List Event)
  pub handler_map : Handlers
  pub pending_futures : Assoc ℕ (DrivableCall T)
  pub id_generator : IdGenerator
  pub replies : List (ℕ × Reply)
  pub delivered : List Response

-- The futures after they were polled in the order of their keys, up to the first error: whether
-- each is ready, what is left of them, and the responses that went out, newest first.
pub record Round (T : Type 0) : Type 0 where
  pub polled : Result (List (ℕ × Bool)) ErrorKind
  pub futures : Assoc ℕ (DrivableCall T)
  pub out : List Response

module _ {T : Type 0} where
  -- `Server::new`, with the messages that its `ServerHandle`s will send.
  unfoldable pub new : List Event → Server T
  unfolding Handlers.new IdGenerator.new
  new events = record {
    handler_chan = some events;
    handler_map = Handlers.new;
    pending_futures = [];
    id_generator = IdGenerator.new;
    replies = [];
    delivered = [];
  }

  -- `Drop for Server`.
  unfoldable pub drop : Server T → Server T
  unfolding shut_down
  drop s = record s { handler_map = shut_down s.handler_map }

  unfoldable pub push_future : DrivableCall T → Server T → Server T
  unfolding next_int
  push_future f s =
      let (key, g) = next_int s.id_generator in
      record s { pending_futures = insert key f s.pending_futures; id_generator = g }

  unfoldable pub handle_msg : HandlerMsg → Server T → Server T
  unfolding add remove
  handle_msg (add_handler name handler tx) s =
      let (r, h) = add name handler s.handler_map in
      record s { handler_map = h; replies = (tx, added r) ∷ s.replies }
  handle_msg (remove_handler name tx) s =
      let (r, h) = remove name s.handler_map in
      record s { handler_map = h; replies = (tx, removed r) ∷ s.replies }

  -- The loop of `drain_handler_chan`, on the channel that it took out of the server.
  unfoldable pub drain : List Event → Server T → Server T
  drain [] s = record s { handler_chan = some [] }
  drain (arrives msg ∷ rest) s = drain rest (handle_msg msg s)
  drain (quiet ∷ rest) s = record s { handler_chan = some rest }
  drain (closes ∷ rest) s = record s { handler_chan = none }

  unfoldable pub drain_handler_chan : Server T → Server T
  drain_handler_chan s = elim s.handler_chan [
    | some chan ↦ drain chan (record s { handler_chan = none })
    | none ↦ s
  ]

  -- The keys of the futures that are ready, which are removed.
  unfoldable pub remove_ready :
      List (ℕ × Bool) → Assoc ℕ (DrivableCall T) → Assoc ℕ (DrivableCall T)
  remove_ready [] m = m
  remove_ready ((key, true) ∷ l) m = remove_ready l (erase key m)
  remove_ready ((key, false) ∷ l) m = remove_ready l m

module _ {T : Type 0} (chan : Channel T) where
  abbrev pub poll_entry : ℕ → Driven T → Assoc ℕ (DrivableCall T) → Round T → Round T
  poll_entry key (waits f) m rest = record {
    polled = map_ok (◌∷◌ (key, false)) rest.polled;
    futures = (key, f) ∷ rest.futures;
    out = rest.out;
  }
  poll_entry key (finishes r) m rest = record {
    polled = map_ok (◌∷◌ (key, true)) rest.polled;
    futures = (key, spent) ∷ rest.futures;
    out = rest.out ++ r;
  }
  poll_entry key (fails e) m rest = record { polled = err e; futures = (key, spent) ∷ m; out = [] }

  unfoldable pub poll_futures : Assoc ℕ (DrivableCall T) → Round T
  poll_futures [] = record { polled = ok []; futures = []; out = [] }
  poll_futures ((key, f) ∷ m) =
      let rest = poll_futures m in poll_entry key (poll_call chan f) m rest

  abbrev pub settle :
      Result (List (ℕ × Bool)) ErrorKind → Server T → Result (Async (Unit {0})) ErrorKind × Server T
  settle (ok polled) s =
      (ok not_ready, record s { pending_futures = remove_ready polled s.pending_futures })
  settle (err e) s = (err e, s)

  -- `Future::poll`.
  unfoldable pub poll : Server T → Result (Async (Unit {0})) ErrorKind × Server T
  poll s =
      let d = drain_handler_chan s in
      let round = poll_futures d.pending_futures in
      settle round.polled
        (record d { pending_futures = round.futures; delivered = round.out ++ d.delivered })

  -- The first poll of a new future, in `process_request`.
  abbrev pub enqueue : Driven T → Server T → Server T
  enqueue (waits f) s = push_future f s
  enqueue (fails e) s = push_future (failing e) s
  enqueue (finishes r) s = record s { delivered = r ++ s.delivered }

  unfoldable pub process_request : Request → T → Server T → Result (Unit {0}) ErrorKind × Server T
  process_request req sink s =
      (ok tt, enqueue (poll_call chan (driveable_future chan s.handler_map req sink)) s)

  -- The default server as the handler of a client.
  abbrev pub server_handler : ServerHandler (Server T) T
  server_handler = record { poll = poll; process_request = process_request }
