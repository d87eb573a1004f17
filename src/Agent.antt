-- ===== src/Agent.antt =====
-- packages/agent/src: how an agent makes a request to its provider out of its session.
pub mod Budget
pub mod Messages
pub mod Context
pub mod Provider
pub mod Tails
pub mod Chosen
pub mod Keeping
pub mod Sending
mod Tests
