-- ===== src/Http/Text.antt =====
-- The sink and the stream that `io_pair` of http/src/lib.rs makes of a handle.
use jsonrpc_client_rs.Base.{ℕ, String, ◌≡◌, refl, ◌∙◌, ap, Option, none, some, List, ◌∷◌}
use jsonrpc_client_rs.Base.Action.{Result, ok, err}
use jsonrpc_client_rs.Poll.{Fut, now, later, never, then_fut, map_err_fut, outcome}
use jsonrpc_client_rs.Http.{ErrorKind, tokio_core_error}
use jsonrpc_client_rs.Http.Processing.{Hyper, respond, process}
use jsonrpc_client_rs.Http.Handle.{Bytes, Headers, Request, HttpHandle, create_request, send_fut}
use jsonrpc_client_rs.Http.Exchange.{response_to, send_fut-process}

-- What becomes of a text that is given to the sink: the request that it makes, and its response on
-- its way into the channel of the stream, by `push`, whose `B` is what the push makes of that channel.
unfoldable pub sink_fut :
    {H B : Type 0}
    → Headers H
    → (Request H → Result (Unit {0}) (Unit {0}))
    → HttpHandle H
    → (String → Bytes)
    → (Bytes → Fut B (Unit {0}))
    → String
    → Fut (Result Bytes ErrorKind) (Unit {0})
    → Fut B ErrorKind
unfolding send_fut
sink_fut headers send h into_bytes push json_string response_rx =
    then_fut (send_fut headers send h (into_bytes json_string) response_rx)
      λ bytes. map_err_fut (λ _. tokio_core_error "Not listening for requests") (push bytes)

-- What a response comes to whose bytes the channel of the stream takes, or whose reader is gone.
abbrev pub delivered : {B : Type 0} → Option (Result B (Unit {0})) → Option (Result B ErrorKind)
delivered none = none
delivered (some (ok b)) = some (ok b)
delivered (some (err _)) = some (err (tokio_core_error "Not listening for requests"))

abbrev pub pushed :
    {B : Type 0}
    → (Bytes → Fut B (Unit {0}))
    → Option (Result Bytes ErrorKind)
    → Option (Result B ErrorKind)
pushed push none = none
pushed push (some (err e)) = some (err e)
pushed push (some (ok bytes)) = delivered (outcome (push bytes))

delivered_lem :
    {B : Type 0} (f : Fut B (Unit {0}))
    → outcome (map_err_fut (λ _. tokio_core_error "Not listening for requests") f)
      ≡ delivered (outcome f)
unfolding outcome map_err_fut
delivered_lem (now (ok _)) = refl
delivered_lem (now (err _)) = refl
delivered_lem (later f) = delivered_lem f
delivered_lem never = refl

pushed_lem :
    {B : Type 0} (push : Bytes → Fut B (Unit {0})) (f : Fut Bytes ErrorKind)
    → outcome (
        then_fut f
          λ bytes. map_err_fut (λ _. tokio_core_error "Not listening for requests") (push bytes))
      ≡ pushed push (outcome f)
unfolding outcome then_fut
pushed_lem push (now (ok bytes)) = delivered_lem (push bytes)
pushed_lem push (now (err e)) = refl
pushed_lem push (later f) = pushed_lem push f
pushed_lem push never = refl

module _ {H P B : Type 0} (headers : Headers H) (hyper : Hyper (Request H) P Bytes) where
  -- If the event loop takes the request that the sink makes of a text, and has no request in
  -- front of it, the text comes to what its request comes to at the event loop: the error of the
  -- request, or its bytes in the channel of the stream, or an error if the reader of that channel
  -- is gone, and never if the request is never answered.
  pub sink_fut-process :
      (h : HttpHandle H) (into_bytes : String → Bytes) (push : Bytes → Fut B (Unit {0}))
      (json_string : String) (timeout : Option ℕ) (tx : ℕ) (rest : List (Request H × ℕ))
      (send : Request H → Result (Unit {0}) (Unit {0}))
      → send (create_request headers h (into_bytes json_string)) ≡ ok tt
      → let request = create_request headers h (into_bytes json_string) in
        let answers = process hyper timeout ((request, tx) ∷ rest) in
        outcome (sink_fut headers send h into_bytes push json_string (response_to tx answers))
        ≡ pushed push (outcome (respond hyper timeout request))
  unfolding sink_fut
  sink_fut-process h into_bytes push json_string timeout tx rest send e =
      let request = create_request headers h (into_bytes json_string) in
      let answers = process hyper timeout ((request, tx) ∷ rest) in
      pushed_lem push (send_fut headers send h (into_bytes json_string) (response_to tx answers))
      ∙ ap (pushed push)
          (send_fut-process headers hyper h (into_bytes json_string) timeout tx rest send e)
