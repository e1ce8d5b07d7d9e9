-- ===== src/Controller.antt =====
-- crates/pip-controller/src: decisions of the core, prepared for the ledger.
pub mod Ledger
pub mod Reviews
pub mod Results
pub mod Scheduling
