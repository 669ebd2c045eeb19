-- ===== src/Server.antt =====
-- server/: the server kit. Each child is one of its files; Subscription, Scene and Inputs are
-- scene.go.
pub mod Replay
pub mod Auth
pub mod Store
pub mod Subscription
pub mod Scene
pub mod Inputs
pub mod Hub
pub mod Concurrent
pub mod Session
pub mod HttpPoll
