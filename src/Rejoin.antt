-- ===== src/Rejoin.antt =====
-- internal/provider/directoryjoin, the rejoin: the change of a machine's directory account that must
-- not run twice, its plan, its marker on disk, and cmd/fog-agent/directory_rejoin.go, which runs it.
pub mod Data
pub mod Valid
pub mod Marker
pub mod World
pub mod Dispatch
pub mod Process
