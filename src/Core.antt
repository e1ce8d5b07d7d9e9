-- ===== src/Core.antt =====
-- crates/pip-core: the pure domain and policy core.
pub mod Domain
pub mod StateMachine
pub mod ExactHead
pub mod Policy
pub mod Revision
mod Tests
