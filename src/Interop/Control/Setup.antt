-- ===== src/Interop/Control/Setup.antt =====
-- What a setup leaves on the server, and what is answered after it.
pub mod Steps
pub mod Others
pub mod Answers
pub mod Duplicate
