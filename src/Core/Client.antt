-- ===== src/Core/Client.antt =====
-- `struct Client` of core/src/lib.rs: its state, and what it works with. The transport and the
-- channels are outside the program, and enter as the answers that they give when they are polled.
pub mod Send
pub mod Incoming
pub mod Outgoing
pub mod Drive
pub mod Loop
pub mod Rules
pub mod Tally
pub mod Answered
pub mod Calls
pub mod Fresh
pub mod Whole
pub mod Conserved
pub mod Wire
pub mod Order
pub mod Written
pub mod Stopped
pub mod Ending
pub mod Panics
pub mod Flush
mod Tests
use jsonrpc_client_rs.Base.{ℕ, String, Bool, Option, List, [], ◌∷◌, ◌++◌}
use jsonrpc_client_rs.Base.Action.{Result, Action}
use jsonrpc_client_rs.Base.Assoc.{Assoc}
use jsonrpc_client_rs.Poll.{Async, Answer}
use jsonrpc_client_rs.SelectWeak.{Select}
use jsonrpc_client_rs.Core.Types.{Value, Params, RequestId, Request, Response, ErrorKind}
use jsonrpc_client_rs.Core.IdGenerator.{IdGenerator}

-- `enum OutgoingMessage`. A number names the oneshot channel that is answered.
pub data OutgoingMessage : Type 0 where
  rpc_call : String → Option Params → ℕ → OutgoingMessage
  notification : String → Option Params → ℕ → OutgoingMessage
  response : Response → OutgoingMessage

-- What a sink answers: `Ready`, `NotReady` (with the payload handed back), or an error.
pub data SinkAnswer : Type 0 where
  taken busy broken : SinkAnswer

-- `T::Sink`: its coming answers to `start_send`, `poll_complete` and `close`, and the payloads
-- that it took, oldest first. With no answer left it takes what it is given.
pub record TransportTx : Type 0 where
  pub starts : List SinkAnswer
  pub completes : List SinkAnswer
  pub closes : List SinkAnswer
  pub accepted : List String

abbrev pub next_answer : List SinkAnswer → SinkAnswer × List SinkAnswer
next_answer [] = (taken, [])
next_answer (a ∷ rest) = (a, rest)

abbrev pub log_taken : SinkAnswer → String → List String → List String
log_taken taken payload log = log ++ payload ∷ []
log_taken _ payload log = log

abbrev pub start_send : String → TransportTx → SinkAnswer × TransportTx
start_send payload tx =
    let (a, rest) = next_answer tx.starts in
    (a, record tx { starts = rest; accepted = log_taken a payload tx.accepted })

abbrev pub poll_complete : TransportTx → SinkAnswer × TransportTx
poll_complete tx = let (a, rest) = next_answer tx.completes in (a, record tx { completes = rest })

abbrev pub close : TransportTx → SinkAnswer × TransportTx
close tx = let (a, rest) = next_answer tx.closes in (a, record tx { closes = rest })

-- `trait ServerHandler` of core/src/server.rs, for a handler in a state S and senders of type T.
pub record ServerHandler (S T : Type 0) : Type 0 where
  pub poll : S → Result (Async (Unit {0})) ErrorKind × S
  pub process_request : Request → T → S → Result (Unit {0}) ErrorKind × S

-- `struct Client`. The last two fields record what was sent into the oneshot channels of calls and
-- of notifications, newest first; whether anybody still listens there changes nothing.
pub record Client (S T : Type 0) : Type 0 where
  pub outgoing_payload_rx : Select (List (Answer OutgoingMessage)) (List (Answer OutgoingMessage))
  pub id_generator : IdGenerator
  pub shutting_down : Bool
  pub pending_client_requests : Assoc RequestId ℕ
  pub pending_payload : Option String
  pub fatal_error : Option ErrorKind
  pub server_handler : S
  pub server_response_tx : T
  pub transport_tx : TransportTx
  pub transport_rx : List (Answer String)
  pub completed : List (ℕ × Result Value ErrorKind)
  pub acknowledged : List (ℕ × Result (Unit {0}) ErrorKind)

-- Why a method stops early: an error that it returns, or a panic at `unreachable!()`.
pub data Stop : Type 0 where
  raised : ErrorKind → Stop
  panicked : Stop

-- A method on `&mut self`.
abbrev pub Method : Type 0 → Type 0 → Type 0 → Type 0
Method S T A = Action (Client S T) Stop A
