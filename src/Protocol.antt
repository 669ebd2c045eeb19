-- ===== src/Protocol.antt =====
-- protocol/: the wire layer. Each child is one of its files.
pub mod Sequence
pub mod Frames
pub mod LeafPath
pub mod Roles
pub mod ErrorCodes
pub mod Codec
