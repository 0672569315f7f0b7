-- ===== src/PubSub.antt =====
-- The crate jsonrpc-client-pubsub: pubsub/src/lib.rs.
pub mod Types
pub mod Notifier
pub mod Routing
pub mod Loop
pub mod Subscriber
pub mod Sharing
pub mod Callback
pub mod Delivery
pub mod Early
pub mod Directory
pub mod Steps
pub mod Following
pub mod Served
pub mod Transport
mod Tests
