-- ===== src/Core.antt =====
-- The crate jsonrpc-client-core: core/src.
pub mod Types
pub mod IdGenerator
pub mod Serialize
pub mod Client
pub mod Server
pub mod System
pub mod Macros
pub mod Example
pub mod Handle
mod Tests
