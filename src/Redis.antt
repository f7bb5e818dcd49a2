-- ===== src/Redis.antt =====
-- The Redis front end: the RESP wire format of query_server/src/redis_wire_protocol.rs.
pub mod Text
pub mod Wire
pub mod Decimal
pub mod Framing
pub mod RoundTrip
pub mod Lines
