-- ===== src/DynamoDb.antt =====
-- The DynamoDB front end, query_server/src/dynamodb_protocol.rs: attribute values, filter expressions,
-- key ranges, start keys, update expressions.
pub mod Error
pub mod Attributes
pub mod Filter
pub mod Tokens
pub mod Tokenizer
pub mod Parser
pub mod Expression
pub mod Evaluate
pub mod Scalars
pub mod Text
pub mod KeyRange
pub mod StartKey
pub mod Responses
pub mod Update
pub mod Items
