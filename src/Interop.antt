-- ===== src/Interop.antt =====
-- interop/: the control plane of the interop tests.
pub mod Control
