-- ===== src/DynamoDb/Items.antt =====
-- Writes of items, `handle_put_item`, `handle_update_item` and `handle_delete_item` of
-- query_server/src/dynamodb_protocol.rs, and the writes of `handle_batch_write_item` to one table: from
-- the rows that `load_mutable_table_rows` returns to the rows that are published. The reading of the
-- JSON request, the loading and the publication are left out.
pub mod Rows
pub mod Updated
pub mod Converted
pub mod Keys
pub mod Put
use powdrr_engine.Common.{
  String, ◌&&◌, ◌||◌, Bool, true, false, Option, none, some, List, [], ◌∷◌, ◌++◌, if◌then◌else◌,
  ◌==◌, string_eq, unwrap_or, is_some, contains, option_map,
}
use powdrr_engine.Common.Dict.{Dict}
use powdrr_engine.DataContract.Schema.{PowdrrSchema}
use powdrr_engine.DataContract.Schema.Names.{names}
use powdrr_engine.Json.{Floats, Value, object, Fields, end, field, as_object}
use powdrr_engine.DynamoDb.Error.{
  validation, internal, conditional_check_failed, Result, ok, err, ◌>>=◌ as ◌>>=ᵣ◌, ok_or,
}
use powdrr_engine.DynamoDb.Attributes.{convert_entries}
use powdrr_engine.DynamoDb.Filter.{evaluate_filter_node}
use powdrr_engine.DynamoDb.Scalars.{of_chars}
use powdrr_engine.DynamoDb.Text.{resolve_expression_names}
use powdrr_engine.DynamoDb.Expression.{ParsedFilterExpression, parse_filter_expression}
use powdrr_engine.DynamoDb.KeyRange.{
  DynamoDbKeySchemaConfig, parse_key_map, parse_item_key_map, split_rows_by_key,
}
use powdrr_engine.DynamoDb.Responses.{json_row_to_dynamodb_item, updated_attribute_projection}
use powdrr_engine.DynamoDb.Update.{apply_update_expression}
use powdrr_engine.DynamoDb.Update.Split.{Outcome, done, failed, unfinished, ◌>>=◌, of_result}
use powdrr_engine.DynamoDb.Update.Parser.{parse_update_expression}

pub data WriteReturnValues : Type 0 where
  no_values all_old updated_old all_new updated_new : WriteReturnValues

-- `parse_write_return_values`, for `UpdateItem` and for the other two
unfoldable pub parse_write_return_values : Option String → Bool → Result WriteReturnValues
parse_write_return_values value is_update =
    let text = unwrap_or "NONE" value in
    if text == "NONE"
    then ok no_values
    else if text == "ALL_OLD"
    then ok all_old
    else if text == "UPDATED_OLD" && is_update
    then ok updated_old
    else if text == "ALL_NEW" && is_update
    then ok all_new
    else if text == "UPDATED_NEW" && is_update
    then ok updated_new
    else err validation

-- the parts that the three requests share
pub record Condition (P : Floats) : Type 0 where
  pub condition_expression : Option String
  pub expression_attribute_names : Option (Dict String String)
  pub expression_attribute_values : Option (Dict String (Value P))
  pub return_values : Option String

pub record PutItemRequest (P : Floats) : Type 0 where
  pub item : Fields P
  pub condition : Condition P

pub record UpdateItemRequest (P : Floats) : Type 0 where
  pub key : Fields P
  pub update_expression : String
  pub condition : Condition P

pub record DeleteItemRequest (P : Floats) : Type 0 where
  pub key : Fields P
  pub condition : Condition P

-- what a handler publishes, if it does, and the attributes of its response, made after that
pub record Mutation (P : Floats) : Type 0 where
  pub published : Option (List (Value P))
  pub attributes : Result (Option (Fields P))

pub data BatchWriteOperation (P : Floats) : Type 0 where
  put : Value P → Dict String (Value P) → BatchWriteOperation P
  delete : Dict String (Value P) → BatchWriteOperation P

abbrev pub of_ended : {A : Type 0} → Option (Result A) → Outcome A
of_ended none = unfinished
of_ended (some r) = of_result r

module _ {P : Floats} where
  unfoldable pub dynamodb_item_to_json_row : Fields P → Result (Value P)
  dynamodb_item_to_json_row item = convert_entries end item >>=ᵣ λ converted. ok (object converted)

  abbrev pub known_fields : PowdrrSchema → Fields P → Bool
  known_fields schema end = true
  known_fields schema (field k v fs) = contains (names schema) k && known_fields schema fs

  unfoldable pub validate_put_item_fields : PowdrrSchema → Value P → Result (Unit {0})
  validate_put_item_fields schema (object fs) =
      if known_fields schema fs then ok tt else err validation
  validate_put_item_fields schema _ = err validation

  unfoldable pub parse_condition_expression : Condition P → Outcome (ParsedFilterExpression P)
  parse_condition_expression request = of_ended (
      parse_filter_expression
        (option_map
          (λ text. of_chars (resolve_expression_names text request.expression_attribute_names))
          request.condition_expression)
        (some (unwrap_or [] request.expression_attribute_values)))

  -- the object that a condition is tested on: an absent item is an empty one
  abbrev pub target_of : Option (Value P) → Result (Fields P)
  target_of none = ok end
  target_of (some item) = ok_or internal (as_object item)

  unfoldable pub condition_matches : Option (Value P) → ParsedFilterExpression P → Result Bool
  condition_matches item condition = elim condition.expression [
    | none ↦ ok true
    | some expression ↦ target_of item >>=ᵣ λ entries. evaluate_filter_node entries expression
  ]

  -- the attributes of a response to a put or a delete
  abbrev pub old_attributes : WriteReturnValues → Option (Value P) → Result (Option (Fields P))
  old_attributes all_old (some existing) =
      json_row_to_dynamodb_item existing >>=ᵣ λ item. ok (some item)
  old_attributes _ existing = ok none

  abbrev pub unless_empty : Fields P → Option (Fields P)
  unless_empty end = none
  unless_empty (field k v fs) = some (field k v fs)

  unfoldable pub update_return_attributes :
      WriteReturnValues → Option (Value P) → Value P → List String → Result (Option (Fields P))
  update_return_attributes no_values old_item new_item touched_fields = ok none
  update_return_attributes all_old old_item new_item touched_fields =
      old_attributes all_old old_item
  update_return_attributes all_new old_item new_item touched_fields =
      json_row_to_dynamodb_item new_item >>=ᵣ λ item. ok (some item)
  update_return_attributes updated_old old_item new_item touched_fields =
      updated_attribute_projection old_item touched_fields >>=ᵣ λ attributes.
      ok (unless_empty attributes)
  update_return_attributes updated_new old_item new_item touched_fields =
      updated_attribute_projection (some new_item) touched_fields >>=ᵣ λ attributes.
      ok (unless_empty attributes)

module _ {P : Floats} (key_schema : DynamoDbKeySchemaConfig) where
  -- the row of the key and the other rows, where the condition holds
  unfoldable pub checked_rows :
      ParsedFilterExpression P
      → Dict String (Value P)
      → List (Value P)
      → Outcome (Option (Value P) × List (Value P))
  checked_rows condition key rows = of_result (split_rows_by_key rows key_schema key) >>= λ parts.
      of_result (condition_matches parts.0 condition) >>= λ matches.
      if matches then done parts else failed conditional_check_failed

  unfoldable pub handle_delete_item : DeleteItemRequest P → List (Value P) → Outcome (Mutation P)
  handle_delete_item request rows = of_result (parse_key_map request.key key_schema) >>= λ key.
      of_result (parse_write_return_values request.condition.return_values false) >>= λ values.
      parse_condition_expression request.condition >>= λ condition.
      checked_rows condition key rows >>= λ parts. done (record {
        published = if is_some parts.0 then some parts.1 else none;
        attributes = old_attributes values parts.0;
      })

  -- the writes of a batch to one table, and whether they changed it
  unfoldable pub batch_write :
      List (BatchWriteOperation P) → Bool → List (Value P) → Result (List (Value P) × Bool)
  batch_write [] changed rows = ok (rows, changed)
  batch_write (put item key ∷ operations) changed rows =
      split_rows_by_key rows key_schema key >>=ᵣ λ parts.
      batch_write operations true (parts.1 ++ (item ∷ []))
  batch_write (delete key ∷ operations) changed rows =
      split_rows_by_key rows key_schema key >>=ᵣ λ parts.
      batch_write operations (changed || is_some parts.0) parts.1

module _ {P : Floats} (schema : PowdrrSchema) (key_schema : DynamoDbKeySchemaConfig) where
  unfoldable pub handle_put_item : PutItemRequest P → List (Value P) → Outcome (Mutation P)
  handle_put_item request rows = of_result (dynamodb_item_to_json_row request.item) >>= λ item.
      of_result (validate_put_item_fields schema item) >>= λ valid.
      of_result (parse_item_key_map request.item key_schema) >>= λ item_key.
      of_result (parse_write_return_values request.condition.return_values false) >>= λ values.
      parse_condition_expression request.condition >>= λ condition.
      checked_rows key_schema condition item_key rows >>= λ parts. done (record {
        published = some (parts.1 ++ (item ∷ []));
        attributes = old_attributes values parts.0;
      })

  unfoldable pub handle_update_item : UpdateItemRequest P → List (Value P) → Outcome (Mutation P)
  handle_update_item request rows = of_result (parse_key_map request.key key_schema) >>= λ key.
      of_result (parse_write_return_values request.condition.return_values true) >>= λ values.
      parse_condition_expression request.condition >>= λ condition.
      parse_update_expression request.update_expression request.condition.expression_attribute_names
        request.condition.expression_attribute_values schema key_schema
      >>= λ update. checked_rows key_schema condition key rows >>= λ parts.
          of_result (apply_update_expression parts.0 key_schema key update) >>= λ updated.
          done (record {
            published = some (parts.1 ++ (updated ∷ []));
            attributes = update_return_attributes values parts.0 updated update.touched_fields;
          })
