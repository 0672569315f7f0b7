-- ===== src/Core/Server.antt =====
-- core/src/server.rs: the callbacks of a client, `Handlers`, and the default server, `Server`.
pub mod Handlers
pub mod Drivable
pub mod State
pub mod Registry
pub mod Display
pub mod Refinement
pub mod Answers
pub mod Pending
pub mod Driving
pub mod Refusal
pub mod Silence
pub mod Runs
pub mod Bounds
pub mod Outcomes
pub mod Accounts
pub mod Batches
pub mod Serving
mod Tests
