-- ===== src/Http.antt =====
-- The crate jsonrpc-client-http: http/src/lib.rs.
pub mod TimeLimited
pub mod Processing
pub mod Limits
pub mod Service
pub mod Handle
pub mod Exchange
pub mod Builder
pub mod Headers
pub mod Text
pub mod Client
mod Tests
use jsonrpc_client_rs.Base.{ℕ, String}

-- `ErrorKind` of the crate; `hyper` is any error of hyper that is passed on.
pub data ErrorKind : Type 0 where
  client_creator_error request_timeout parse_body_error hyper : ErrorKind
  http_error : ℕ → ErrorKind
  tokio_core_error : String → ErrorKind
