-- ===== src/Control.antt =====
-- crates/pip-control: the cycles that feed the controller.
pub mod Park
