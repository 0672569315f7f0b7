-- ===== src/Http/Handle.antt =====
-- `HttpHandle` and its `Transport` of http/src/lib.rs.
use jsonrpc_client_rs.Base.{ℕ, String, Option, none, some, List, length}
use jsonrpc_client_rs.Base.Action.{Result, ok, err}
use jsonrpc_client_rs.Poll.{
  Async, ready, not_ready, Answer, item, finished, waiting, failed, Fut, now, then_fut, map_err_fut,
}
use jsonrpc_client_rs.Http.{ErrorKind, parse_body_error, tokio_core_error}

-- Bytes as numbers.
abbrev pub Bytes : Type 0
Bytes = List ℕ

-- What the code takes from hyper's `Headers`: the empty set, `set`, `extend` by the headers of
-- another set, and the value of a name; and the values of the two headers that it sets.
pub record Headers (H : Type 0) : Type 0 where
  pub empty : H
  pub set : String → String → H → H
  pub extend : H → H → H
  pub get : String → H → Option String
  pub json : String
  pub content_length : ℕ → String

-- A `Request` of hyper with the method POST.
pub record Request (H : Type 0) : Type 0 where
  pub uri : String
  pub headers : H
  pub body : Bytes

-- `struct HttpHandle`. The channel to the event loop is an argument of `send_fut`.
pub record HttpHandle (H : Type 0) : Type 0 where
  pub uri : String
  pub headers : H

module _ {H : Type 0} (hyper : Headers H) where
  -- `HttpTransport::handle` behind the parsing of the URI.
  unfoldable pub handle : Result String ErrorKind → Result (HttpHandle H) ErrorKind
  handle (ok uri) = ok (record { uri = uri; headers = hyper.empty })
  handle (err e) = err e

  unfoldable pub set_header : String → String → HttpHandle H → HttpHandle H
  set_header name value h = record h { headers = hyper.set name value h.headers }

  unfoldable pub create_request : HttpHandle H → Bytes → Request H
  create_request h body = record {
    uri = h.uri;
    headers =
        hyper.extend
          (hyper.set "Content-Length" (hyper.content_length (length body))
            (hyper.set "Content-Type" hyper.json hyper.empty))
          h.headers;
    body = body;
  }

  -- `send_fut`: `send` is `unbounded_send` on the channel to the event loop, and `response_rx` the
  -- receiving end of the oneshot channel of the request.
  unfoldable pub send_fut :
      (Request H → Result (Unit {0}) (Unit {0}))
      → HttpHandle H
      → Bytes
      → Fut (Result Bytes ErrorKind) (Unit {0})
      → Fut Bytes ErrorKind
  unfolding create_request
  send_fut send h json_data response_rx =
      then_fut
        (then_fut
          (map_err_fut (λ _. tokio_core_error "Not listening for requests")
            (now (send (create_request h json_data))))
          λ _. map_err_fut (λ _. tokio_core_error "Died without returning response") response_rx)
        now

-- The stream of `io_pair`, poll by poll.
unfoldable pub stream_answer :
    (Bytes → Option String) → Answer Bytes → Result (Async (Option String)) ErrorKind
stream_answer from_utf8 (item bytes) = elim (from_utf8 bytes) [
  | some text ↦ ok (ready (some text))
  | none ↦ err parse_body_error
]
stream_answer from_utf8 finished = ok (ready none)
stream_answer from_utf8 waiting = ok not_ready
stream_answer from_utf8 failed = err (tokio_core_error "Sender closed")
