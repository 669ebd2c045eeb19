-- ===== src/Lsml.antt =====
-- LSML bundles: lsml/.
pub mod Capture
pub mod Hash
pub mod Validate
