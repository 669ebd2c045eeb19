-- ===== src/Conformance.antt =====
-- The conformance harness: conformance/.
pub mod Match
pub mod Harness
