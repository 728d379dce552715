-- ===== src/Storage.antt =====
-- internal/storage: the stores of submissions.
pub mod Queries
pub mod Databases
pub mod Files
