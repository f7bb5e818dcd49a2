-- ===== src/DynamoDb/Update/Panics.antt =====
-- Where `parse_update_expression` of query_server/src/dynamodb_protocol.rs panics: at a slice of a text
-- that ends inside a character.
use Prim.Native.Char.{Char}
use powdrr_engine.Common.{nat_eq}
use powdrr_engine.Common.Dict.{Dict}
