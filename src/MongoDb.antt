-- ===== src/MongoDb.antt =====
-- The MongoDB front end: the message format of query_server/src/mongodb_wire_protocol.rs.
pub mod Bytes
pub mod Wire
pub mod Bounds
pub mod Connection
pub mod RoundTrip
