-- ===== src/Tasks.antt =====
-- The task engine: the tables, the repository, and what it guarantees.
pub mod Status
pub mod Cutover
pub mod Json
pub mod Model
pub mod Transitions
pub mod Session
pub mod Repository
pub mod Rows
pub mod Keys
pub mod Invariant
pub mod Checks
pub mod Ending
pub mod Frame
pub mod System
pub mod Life
pub mod TaskStep
pub mod Owner
pub mod Recovery
pub mod Lifecycle
pub mod History
pub mod Queue
pub mod Fencing
pub mod Tests
pub mod Examples
