-- ===== src/Updater/Examples.antt =====
-- An engine with three containers, one operation on it, and the theorems applied to them.
pub mod Sandbox
pub mod Records
pub mod Executors
pub mod Settling
