-- ===== src/Update.antt =====
-- internal/provider/update: the self-update.
pub mod Files
pub mod Records
pub mod Swap
pub mod Rollback
pub mod Undo
pub mod Sequence
pub mod Run
pub mod Probation
