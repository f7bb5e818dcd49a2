-- ===== src/Examples/Writes.antt =====
-- Runs of the writes of items in query_server/src/dynamodb_protocol.rs on small inputs. The floats are
-- the integers.
use powdrr_engine.Common.{
  ℕ, ◌≡◌, ◌≢◌, ◌<◌, ◌++◌, refl, String, string_eq, option_eq, true, false, none, some, List, [],
  ◌∷◌, all, find,
}
use powdrr_engine.Common.Dict.{Dict, get}
use powdrr_engine.DataContract.Schema.{PowdrrSchema, nil}
use powdrr_engine.DataContract.Schema as Schema
use powdrr_engine.Json.{Value, string, object, Fields, end, field, get_field, insert_field}
use powdrr_engine.DynamoDb.Error.{ok}
use powdrr_engine.DynamoDb.KeyRange.{parse_key_map, parse_item_key_map}
use powdrr_engine.DynamoDb.KeyRange.Rows.{has_key}
use powdrr_engine.DynamoDb.Text.{trim_end, trim_start, resolve_expression_names}
use powdrr_engine.DynamoDb.Update.{UpdateAction, ParsedUpdateExpression, apply_update_expression}
use powdrr_engine.DynamoDb.Update.Actions.{value_before}
use powdrr_engine.DynamoDb.Update.Split.{Outcome, done, unfinished}
use powdrr_engine.DynamoDb.Update.Parser.{parse_update_expression}
use powdrr_engine.DynamoDb.Update.Ends.{parse_update_expression-ends}
use powdrr_engine.DynamoDb.Update.Allowed.{apply_update_expression-parse_update_expression}
use powdrr_engine.DynamoDb.Items.{
  Condition, Mutation, PutItemRequest, UpdateItemRequest, DeleteItemRequest, handle_put_item,
  handle_update_item, handle_delete_item, dynamodb_item_to_json_row,
}
use powdrr_engine.DynamoDb.Items.Rows.{IsWritten, Held, handle_delete_item-IsWritten}
use powdrr_engine.DynamoDb.Items.Updated.{handle_update_item-IsWritten}
use powdrr_engine.DynamoDb.Items.Put.{handle_put_item-IsWritten}
use powdrr_engine.Examples.Queries.{whole, whole_number}
use powdrr_engine.Examples.DynamoDb.{text, attribute, item, rows, key_schema, key}

abbrev schema : PowdrrSchema
schema = Schema.field "id" Schema.string (Schema.field "age" Schema.integer Schema.nil)

-- {"N": s}
abbrev numeral : String → Value whole
numeral s = object (field "N" (string s) end)

abbrev new_values : Dict String (Value whole)
new_values = (":n", numeral "31") ∷ []

parse_update_expression-ends_example :
    parse_update_expression "SET age = :n REMOVE" none (some new_values) schema key_schema
    ≢ unfinished
parse_update_expression-ends_example =
    parse_update_expression-ends new_values schema key_schema "SET age = :n REMOVE" none

-- a write, with all that the handlers call
data Write : Type 0 where
  put : PutItemRequest whole → Write
  update : UpdateItemRequest whole → Write
  delete : DeleteItemRequest whole → Write

run : Write → Outcome (Mutation whole)
unfolding powdrr_engine.DynamoDb.Filter.collect_filter_fields powdrr_engine.Redis.Text.decimal_ℤ
    powdrr_engine.DynamoDb.Attributes.dynamodb_attr_to_json powdrr_engine.Common.Dict.insert
    powdrr_engine.DynamoDb.Items.parse_write_return_values
    powdrr_engine.DynamoDb.Items.parse_condition_expression
    powdrr_engine.DynamoDb.Expression.parse_filter_expression
    powdrr_engine.DynamoDb.Tokenizer.tokenize_filter_expression
    powdrr_engine.DynamoDb.Tokenizer.tokenize powdrr_engine.DynamoDb.Text.replace_all
    powdrr_engine.DynamoDb.Text.replace_from powdrr_engine.DynamoDb.Text.strip_prefix
    powdrr_engine.DynamoDb.Tokenizer.next_token powdrr_engine.DynamoDb.Tokenizer.take_identifier
    powdrr_engine.DynamoDb.Parser.parse_tokens powdrr_engine.DynamoDb.Parser.parse_or_nodes
    powdrr_engine.DynamoDb.Attributes.lookup_expression_value
    powdrr_engine.DynamoDb.Filter.append_selected_field
    powdrr_engine.DynamoDb.Filter.compare_filter_operand
    powdrr_engine.DynamoDb.Filter.compare_scalars powdrr_engine.DynamoDb.Filter.evaluate_filter_node
    powdrr_engine.DynamoDb.Filter.evaluate_filter_predicate
    powdrr_engine.DynamoDb.Filter.evaluate_kind powdrr_engine.DynamoDb.Filter.field_name
    powdrr_engine.DynamoDb.Filter.filter_operand_scalar
    powdrr_engine.DynamoDb.Filter.filter_operand_value
    powdrr_engine.DynamoDb.Filter.filter_value_contains
    powdrr_engine.DynamoDb.Filter.filter_value_size
    powdrr_engine.DynamoDb.Filter.filter_value_type_name
    powdrr_engine.DynamoDb.Filter.visible_object_value powdrr_engine.DynamoDb.Items.checked_rows
    powdrr_engine.DynamoDb.Items.condition_matches powdrr_engine.DynamoDb.KeyRange.row_matches_key
    powdrr_engine.DynamoDb.KeyRange.split_rows powdrr_engine.DynamoDb.KeyRange.split_rows_by_key
    powdrr_engine.DynamoDb.Parser.parse_comparison
    powdrr_engine.DynamoDb.Parser.parse_field_value_function
    powdrr_engine.DynamoDb.Parser.parse_more_values powdrr_engine.DynamoDb.Parser.parse_operand_test
    powdrr_engine.DynamoDb.Parser.parse_predicate powdrr_engine.DynamoDb.Parser.parse_value_token
    powdrr_engine.DynamoDb.Responses.json_row_to_dynamodb_item
    powdrr_engine.DynamoDb.Responses.json_to_dynamodb_attr
    powdrr_engine.DynamoDb.Responses.number_set_value
    powdrr_engine.DynamoDb.Responses.string_array_value powdrr_engine.DynamoDb.Scalars.from_u32
    powdrr_engine.DynamoDb.Tokenizer.keyword_or_identifier
    powdrr_engine.DynamoDb.Tokens.eq_ignore_ascii_case
    powdrr_engine.DynamoDb.Tokens.parse_filter_operand
    powdrr_engine.DynamoDb.Tokens.parse_single_field_function powdrr_engine.Json.same
    powdrr_engine.Redis.Text.decimal powdrr_engine.Redis.Text.digits
    powdrr_engine.Redis.Text.parse_digits powdrr_engine.Redis.Text.parse_i64
    powdrr_engine.DynamoDb.Update.Parser.parse_actions
    powdrr_engine.DynamoDb.Update.Split.split_next_update_action
    powdrr_engine.DynamoDb.Update.Split.leading_action powdrr_engine.DynamoDb.Text.split_at
    powdrr_engine.DynamoDb.Update.Split.find_next_update_action_start
    powdrr_engine.DynamoDb.Attributes.convert_entries
    powdrr_engine.DynamoDb.Items.validate_put_item_fields
    powdrr_engine.DynamoDb.KeyRange.copy_key_attr
    powdrr_engine.DynamoDb.Text.resolve_expression_names powdrr_engine.Common.Dict.get
    powdrr_engine.Json.get_field powdrr_engine.Json.insert_field
    powdrr_engine.DynamoDb.Text.trim_end powdrr_engine.DynamoDb.Text.trim_start
    powdrr_engine.DynamoDb.Items.handle_put_item powdrr_engine.DynamoDb.Items.handle_update_item
    powdrr_engine.DynamoDb.Items.handle_delete_item
    powdrr_engine.DynamoDb.Items.dynamodb_item_to_json_row
    powdrr_engine.DynamoDb.KeyRange.parse_item_key_map powdrr_engine.DynamoDb.KeyRange.parse_key_map
    powdrr_engine.DynamoDb.Update.apply_update_expression
    powdrr_engine.DynamoDb.Update.apply_update_actions
    powdrr_engine.DynamoDb.Update.apply_update_action
    powdrr_engine.DynamoDb.Items.update_return_attributes
    powdrr_engine.DynamoDb.Update.Parser.parse_update_expression
    powdrr_engine.DynamoDb.Update.Parser.parse_clauses
    powdrr_engine.DynamoDb.Update.Parser.parse_update_action_clause
    powdrr_engine.DynamoDb.Update.Parser.push_action
    powdrr_engine.DynamoDb.Update.Parser.validate_update_field_name
    powdrr_engine.DynamoDb.Update.Parser.validate_update_value_type
    powdrr_engine.DynamoDb.Update.Split.split_update_action_clauses
    powdrr_engine.DynamoDb.Text.split_once powdrr_engine.DynamoDb.Text.split
    powdrr_engine.DataContract.Schema.to_map_get powdrr_engine.DynamoDb.Parser.parse_and_nodes
    powdrr_engine.DynamoDb.Parser.parse_unary_expression
run (put request) = handle_put_item schema key_schema request rows
run (update request) = handle_update_item schema key_schema request rows
run (delete request) = handle_delete_item key_schema request rows

-- `set age = :n`, in small letters
abbrev new_age : ParsedUpdateExpression whole
new_age = record {
  actions = UpdateAction.set_to "age" (whole_number 31) ∷ [];
  touched_fields = "age" ∷ [];
}

parsed_is :
    parse_update_expression "set age = :n" none (some new_values) schema key_schema ≡ done new_age
unfolding run
parsed_is = refl

abbrev older_item : Fields whole
older_item = field "id" (text "k1") (field "age" (whole_number 31) end)

applied_is :
    apply_update_expression (some (object item)) key_schema key new_age ≡ ok (object older_item)
unfolding run
applied_is = refl

apply_update_expression-parse_update_expression_example :
    get_field older_item "id" ≡ value_before (some (object item)) key_schema key "id"
apply_update_expression-parse_update_expression_example =
    apply_update_expression-parse_update_expression schema key_schema "set age = :n" none
      (some new_values) new_age (some (object item)) key older_item "id" parsed_is applied_is refl

abbrev unconditional : Condition whole
unconditional = record {
  condition_expression = none;
  expression_attribute_names = none;
  expression_attribute_values = some new_values;
  return_values = none;
}

-- with `#a` for `age`
abbrev where_aged : Condition whole
where_aged = record unconditional {
  condition_expression = some "attribute_exists(#a)";
  expression_attribute_names = some (("#a", "age") ∷ []);
}

abbrev request_key : Fields whole
request_key = field "id" (attribute "k1") end

key_is : parse_key_map request_key key_schema ≡ ok key
unfolding run
key_is = refl

abbrev other_row : Value whole
other_row = object (field "id" (text "k2") (field "age" (whole_number 20) end))

abbrev delete_request : DeleteItemRequest whole
delete_request = record { key = request_key; condition = where_aged }

abbrev deletion : Mutation whole
deletion = record { published = some (other_row ∷ []); attributes = ok none }

deleted_is : handle_delete_item key_schema delete_request rows ≡ done deletion
unfolding run
deleted_is = refl

handle_delete_item-IsWritten_example :
    IsWritten key_schema key rows [] deletion × Held key_schema key where_aged rows
handle_delete_item-IsWritten_example =
    handle_delete_item-IsWritten key_schema key delete_request rows deletion refl key_is deleted_is

abbrev update_request : UpdateItemRequest whole
update_request = record {
  key = request_key;
  update_expression = "set age = :n";
  condition = unconditional;
}

abbrev update_mutation : Mutation whole
update_mutation = record {
  published = some (other_row ∷ object older_item ∷ []);
  attributes = ok none;
}

updated_is : handle_update_item schema key_schema update_request rows ≡ done update_mutation
unfolding run
updated_is = refl

handle_update_item-IsWritten_example :
    (update : ParsedUpdateExpression whole) × (row : Value whole) × (parse_update_expression
        "set age = :n" none
        (some new_values)
        schema
        key_schema
      ≡ done update)
    × (apply_update_expression (find (has_key key_schema key) rows) key_schema key update ≡ ok row)
    × IsWritten key_schema key rows (row ∷ []) update_mutation
    × Held key_schema key unconditional rows
unfolding run
handle_update_item-IsWritten_example =
    handle_update_item-IsWritten schema key_schema key update_request rows update_mutation refl refl
      key_is updated_is

abbrev put_request : PutItemRequest whole
put_request = record {
  item = field "id" (attribute "k1") (field "age" (numeral "7") end);
  condition = where_aged;
}

abbrev put_mutation : Mutation whole
put_mutation = record {
  published =
      some (other_row ∷ object (field "id" (text "k1") (field "age" (whole_number 7) end)) ∷ []);
  attributes = ok none;
}

put_is : handle_put_item schema key_schema put_request rows ≡ done put_mutation
unfolding run
put_is = refl

item_key_is : parse_item_key_map put_request.item key_schema ≡ ok key
unfolding run
item_key_is = refl

handle_put_item-IsWritten_example :
    (row : Value whole) × (dynamodb_item_to_json_row put_request.item ≡ ok row)
    × IsWritten key_schema key rows (row ∷ []) put_mutation
    × Held key_schema key where_aged rows
unfolding run
handle_put_item-IsWritten_example =
    handle_put_item-IsWritten schema key_schema key put_request rows put_mutation refl refl refl
      item_key_is put_is
