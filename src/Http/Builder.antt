-- ===== src/Http/Builder.antt =====
-- `HttpTransport` and `HttpTransportBuilder` of http/src/lib.rs, and the makers of hyper clients of
-- http/src/client_creator.rs.
use jsonrpc_client_rs.Base.{ℕ, ◌≡◌, refl, Option, none, some, List, [], ◌∷◌}
use jsonrpc_client_rs.Base.Action.{Result, ok, err}
use jsonrpc_client_rs.Http.{ErrorKind, client_creator_error, tokio_core_error}

-- `trait ClientCreator`, for makers X of clients C on handles Hd of an event loop.
pub record ClientCreator (X Hd C E : Type 0) : Type 0 where
  pub create : X → Hd → Result C E

-- `DefaultClient`, over `hyper::Client::new`.
pub data DefaultClient : Type 0 where
  default_client : DefaultClient

abbrev pub default_creator : {Hd C E : Type 0} → (Hd → C) → ClientCreator DefaultClient Hd C E
default_creator client_new = record { create = λ _ handle. ok (client_new handle) }

-- A closure is its own maker.
abbrev pub closure_creator : {Hd C E : Type 0} → ClientCreator (Hd → Result C E) Hd C E
closure_creator = record { create = λ f handle. f handle }

-- `DefaultTlsClient`, over `HttpsConnector::new` and the configuration of a client that has it.
pub data DefaultTlsClient : Type 0 where
  default_tls_client : DefaultTlsClient

abbrev pub dns_threads : ℕ
dns_threads = 2

abbrev pub tls_client : {Hd K C E : Type 0} → (K → Hd → C) → Hd → Result K E → Result C E
tls_client configured handle (ok connector) = ok (configured connector handle)
tls_client configured handle (err e) = err e

abbrev pub tls_creator :
    {Hd K C E : Type 0}
    → (ℕ → Hd → Result K E)
    → (K → Hd → C)
    → ClientCreator DefaultTlsClient Hd C E
tls_creator connector_new configured = record {
  create = λ _ handle. tls_client configured handle (connector_new dns_threads handle);
}

-- `struct HttpTransport`. A number names the channel to the event loop.
pub record HttpTransport : Type 0 where
  pub request_tx : ℕ
  pub id : ℕ

-- `struct HttpTransportBuilder`.
pub record HttpTransportBuilder (X : Type 0) : Type 0 where
  pub client_creator : X
  pub timeout : Option ℕ

-- What `create_request_processing_future` is made with: the channel that it receives from, the
-- client, and the time limit of each request.
pub record Serving (C : Type 0) : Type 0 where
  pub request_rx : ℕ
  pub client : C
  pub limit : Option ℕ

unfoldable pub with_client : {X : Type 0} → X → HttpTransportBuilder X
with_client client_creator = record { client_creator = client_creator; timeout = none }

unfoldable pub timeout : {X : Type 0} → ℕ → HttpTransportBuilder X → HttpTransportBuilder X
timeout duration b = record b { timeout = some duration }

-- `HttpTransport::new` and `HttpTransport::with_tls`.
unfoldable pub new : HttpTransportBuilder DefaultClient
unfolding with_client
new = with_client default_client

unfoldable pub with_tls : HttpTransportBuilder DefaultTlsClient
unfolding with_client
with_tls = with_client default_tls_client

abbrev pub build : ℕ → HttpTransport
build request_tx = record { request_tx = request_tx; id = 1 }

-- The end of `shared`, on what the maker of the client answered.
abbrev pub spawned :
    {C E : Type 0} → ℕ → Option ℕ → Result C E → Result HttpTransport ErrorKind × List (Serving C)
spawned channel limit (ok client) =
    (ok (build channel), record { request_rx = channel; client = client; limit = limit } ∷ [])
spawned channel limit (err e) = (err client_creator_error, [])

-- The end of `create_standalone_core`, likewise.
abbrev pub on_client :
    {L C E : Type 0} → L → ℕ → Option ℕ → Result C E → Result (L × ℕ × Serving C) ErrorKind
on_client core channel limit (ok client) =
    ok (core, channel, record { request_rx = channel; client = client; limit = limit })
on_client core channel limit (err e) = err client_creator_error

-- The two arms of `standalone`: what the new thread sends back, and what it runs then.
abbrev pub on_thread :
    {L C : Type 0}
    → Result (L × ℕ × Serving C) ErrorKind
    → Result HttpTransport ErrorKind × List (Serving C)
on_thread (ok (core, request_tx, serving)) = (ok (build request_tx), serving ∷ [])
on_thread (err e) = (err e, [])

module _ {X Hd C E : Type 0} (creator : ClientCreator X Hd C E) where
  -- `shared`: the transport, and what was spawned on the event loop. `channel` is the new channel.
  unfoldable pub shared :
      HttpTransportBuilder X → Hd → ℕ → Result HttpTransport ErrorKind × List (Serving C)
  shared b handle channel = spawned channel b.timeout (creator.create b.client_creator handle)

  module _ {L F : Type 0} (core_new : Result L F) (core_handle : L → Hd) where
    -- `create_standalone_core`: the event loop, the channel to it, and what it will run.
    abbrev pub on_core : X → Option ℕ → ℕ → Result L F → Result (L × ℕ × Serving C) ErrorKind
    on_core client_creator limit channel (err e) = err (tokio_core_error "Unable to create")
    on_core client_creator limit channel (ok core) =
        on_client core channel limit (creator.create client_creator (core_handle core))

    unfoldable pub create_standalone_core : X → Option ℕ → ℕ → Result (L × ℕ × Serving C) ErrorKind
    create_standalone_core client_creator limit channel =
        on_core client_creator limit channel core_new

    unfoldable pub standalone :
        HttpTransportBuilder X → ℕ → Result HttpTransport ErrorKind × List (Serving C)
    unfolding create_standalone_core
    standalone b channel = on_thread (create_standalone_core b.client_creator b.timeout channel)

-- The specification: what comes of a client, or of the maker's failure.
abbrev pub built :
    {C E : Type 0} → ℕ → ℕ → Result C E → Result HttpTransport ErrorKind × List (Serving C)
built channel limit (ok client) = (
  ok (record { request_tx = channel; id = 1 }),
  record { request_rx = channel; client = client; limit = some limit } ∷ [],
)
built channel limit (err e) = (err client_creator_error, [])

-- The two ends of the builder agree where the event loop can be made: the transport sends to the
-- channel that the spawned future receives from, under the last time limit that was set, and a
-- failing maker is a ClientCreatorError.
pub standalone-shared :
    {X Hd C E L F : Type 0} (creator : ClientCreator X Hd C E) (core_new : Result L F)
    (core_handle : L → Hd) (client_creator : X) (first last channel : ℕ) (core : L)
    → core_new ≡ ok core
    → let b = timeout last (timeout first (with_client client_creator)) in
      let answer = creator.create client_creator (core_handle core) in
      (standalone creator core_new core_handle b channel ≡ built channel last answer)
      × (shared creator b (core_handle core) channel ≡ built channel last answer)
unfolding standalone shared create_standalone_core timeout with_client
standalone-shared {C = C} {E = E} creator core_new core_handle client_creator first last channel
      core e =
    rw e (go (creator.create client_creator (core_handle core)))
  where
    go :
        (r : Result C E)
        → (on_thread (on_client core channel (some last) r) ≡ built channel last r)
          × (spawned channel (some last) r ≡ built channel last r)
    go (ok client) = (refl, refl)
    go (err x) = (refl, refl)
