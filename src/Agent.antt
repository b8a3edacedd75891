-- ===== src/Agent.antt =====
-- cmd/fog-agent: the loop that polls the server, and what it calls between two polls.
pub mod World
pub mod Format
pub mod Coordinate
pub mod Reconcile
pub mod Drift
pub mod Facts
pub mod Sessions
pub mod Polls
pub mod Restarted
