-- ===== src/FileManager.antt =====
-- FileManager: src/include/speckit/log/file_manager.h and src/src/file_manager.cpp. The names of log
-- files, the manager's state with its operations, and the proofs about them.
pub mod Names
pub mod Ownership
pub mod State
pub mod Rotation
pub mod NameLaws
pub mod Matching
pub mod Sequence
pub mod Unmatched
pub mod Retention
pub mod Writing
pub mod Rotating
pub mod Opening
pub mod Restart
mod Tests
