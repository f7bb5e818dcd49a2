-- ===== src/DataContract.antt =====
-- The data contract of the control plane (control_plane/src): schemas, file sets, checkpoints.
pub mod Schema
pub mod FileSet
pub mod Types
pub mod Checkpoint
pub mod Commits
