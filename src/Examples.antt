-- ===== src/Examples.antt =====
-- Runs of the model on small inputs: the theorems applied to them, and tests of the definitions.
mod Contract
mod Cutovers
mod Snapshots
mod Commits
mod Items
mod Redis
mod Queries
mod DynamoDb
mod MongoDb
mod Writes
mod Fetches
