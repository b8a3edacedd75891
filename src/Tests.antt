-- ===== src/Tests.antt =====
-- Runs of the definitions on concrete inputs.
mod Trusted
mod Files
mod Updating
mod Idle
mod Booting
mod Enrolling
mod Waking
mod Scheduling
mod Worlds
mod Coordinating
mod Reconciling
mod Polling
mod Packaging
mod Rejoining
mod Joining
mod Printing
mod Settling
