-- ===== src/Service.antt =====
-- The metadata service, service_lib/src: the tables and the state of `EphemeralServiceImpl`, its
-- operations, and the coordination of read-only nodes on top of them.
pub mod Tables
pub mod Types
pub mod State
pub mod Cutover
pub mod Publish
pub mod Catalog
pub mod Commit
pub mod WorkItems
pub mod Runs
pub mod Snapshots
pub mod Coordination
