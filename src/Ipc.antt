-- ===== src/Ipc.antt =====
-- The crate jsonrpc-client-ipc: ipc/src/lib.rs, over connections C of parity_tokio_ipc.
use jsonrpc_client_rs.Base.{ℕ, String}
use jsonrpc_client_rs.Base.Action.{Result, ok, err}
use jsonrpc_client_rs.Core.System.Start.{Transport}

-- `struct IpcTransport`.
pub record IpcTransport (C : Type 0) : Type 0 where
  pub connection : C

-- `codecs::Separator`: what stands between two messages, a byte or nothing.
pub data Separator : Type 0 where
  empty : Separator
  byte : ℕ → Separator

-- `codecs::StreamCodec`, by its separators of incoming and of outgoing messages.
pub record StreamCodec : Type 0 where
  pub incoming_separator : Separator
  pub outgoing_separator : Separator

abbrev connected : {C E : Type 0} → Result C E → Result (IpcTransport C) E
connected (ok connection) = ok (record { connection = connection })
connected (err e) = err e

-- `IpcTransport::new`, over `IpcConnection::connect`.
unfoldable pub new :
    {Hd C E : Type 0} → (String → Hd → Result C E) → String → Hd → Result (IpcTransport C) E
new connect path handle = connected (connect path handle)

-- `io_pair`, over `framed(codec).split()` and the default separator.
unfoldable pub io_pair :
    {C : Type 0} → (C → StreamCodec → Transport) → Separator → IpcTransport C → Transport
io_pair framed_split default transport =
    framed_split transport.connection
      (record { incoming_separator = empty; outgoing_separator = default })
