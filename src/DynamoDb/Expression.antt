-- ===== src/DynamoDb/Expression.antt =====
-- `parse_filter_expression` of query_server/src/dynamodb_protocol.rs, on the text that
-- `resolve_expression_names` makes: from a text to nodes and the fields that they name.
pub mod Read
use powdrr_engine.Common.{String, Option, none, some, List, []}
use powdrr_engine.Common.Dict.{Dict}
use powdrr_engine.Json.{Floats, Value}
use powdrr_engine.DynamoDb.Error.{validation, Result, ok, err, ◌>>=◌}
use powdrr_engine.DynamoDb.Filter.{FilterNode, collect_filter_fields}
use powdrr_engine.DynamoDb.Tokens.{FilterToken}
use powdrr_engine.DynamoDb.Tokenizer.{tokenize_filter_expression}
use powdrr_engine.DynamoDb.Parser.{parse_tokens}

pub record ParsedFilterExpression (P : Floats) : Type 0 where
  pub expression : Option (FilterNode P)
  pub filter_fields : List String

module _ {P : Floats} where
  abbrev pub with_fields : FilterNode P → ParsedFilterExpression P
  with_fields node = record {
    expression = some node;
    filter_fields = collect_filter_fields node [];
  }

  -- what is made of the tokens of an expression
  abbrev pub parse_read :
      Dict String (Value P)
      → Option (Result (List FilterToken))
      → Option (Result (ParsedFilterExpression P))
  parse_read values none = none
  parse_read values (some (err e)) = some (err e)
  parse_read values (some (ok tokens)) = elim (parse_tokens values tokens) [
    | none ↦ none
    | some result ↦ some (result >>= λ node. ok (with_fields node))
  ]

  -- `none` is a loop that has not ended
  unfoldable pub parse_filter_expression :
      Option String → Option (Dict String (Value P)) → Option (Result (ParsedFilterExpression P))
  parse_filter_expression none values = some (ok (record { expression = none; filter_fields = [] }))
  parse_filter_expression (some expression) none = some (err validation)
  parse_filter_expression (some expression) (some values) =
      parse_read values (tokenize_filter_expression expression)
