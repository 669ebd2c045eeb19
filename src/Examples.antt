-- ===== src/Examples.antt =====
-- Concrete runs, and each property at a concrete input.
mod Data
mod Protocol
mod Replay
mod Server
mod Scene
mod Inputs
mod Hub
mod Session
mod Lsml
mod Conformance
mod HttpPoll
mod Concurrent
mod Control
mod Harness
