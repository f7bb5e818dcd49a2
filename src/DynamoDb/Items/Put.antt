-- ===== src/DynamoDb/Items/Put.antt =====
-- What `handle_put_item` of query_server/src/dynamodb_protocol.rs leaves of the rows of a table.
use powdrr_engine.Common.{
  String, ◌≡◌, sym, ap, true, false, List, [], ◌∷◌, string_eq, option_eq, all, distinct, nat_eq,
}
use powdrr_engine.Common.Dict.{Dict}
use powdrr_engine.DataContract.Schema.{PowdrrSchema}
use powdrr_engine.Json.{Floats, Value}
use powdrr_engine.DynamoDb.Error.{ok}
use powdrr_engine.DynamoDb.Evaluate.{is_object}
use powdrr_engine.DynamoDb.KeyRange.{DynamoDbKeySchemaConfig, parse_item_key_map}
use powdrr_engine.DynamoDb.Update.Split.{done, of_result, bind_lem, of_result_lem, done_same}
use powdrr_engine.DynamoDb.Items.{
  Mutation, PutItemRequest, dynamodb_item_to_json_row, validate_put_item_fields, handle_put_item,
  parse_write_return_values, parse_condition_expression, checked_rows,
}
use powdrr_engine.DynamoDb.Items.Rows.{IsWritten, Held, checked_rows-IsChecked, pushed-IsWritten}
use powdrr_engine.DynamoDb.Items.Updated.{is_reflexive}
use powdrr_engine.DynamoDb.Items.Converted.{entry_names}
use powdrr_engine.DynamoDb.Items.Keys.{dynamodb_item_to_json_row-has_key}

module _ {P : Floats} where
  -- A put that succeeds leaves one row of its key, the one of the item, and the rows of other keys as they
  -- are, in their order; and its condition held of the row of the key that was there, or of an absent
  -- one. The item has no attribute twice, and each value of the key equals itself.
  pub handle_put_item-IsWritten :
      (schema : PowdrrSchema) (key_schema : DynamoDbKeySchemaConfig) (key : Dict String (Value P))
      (request : PutItemRequest P) (rows : List (Value P)) (mutation : Mutation P)
      → all is_object rows ≡ true
      → distinct (entry_names request.item) ≡ true
      → is_reflexive key ≡ true
      → parse_item_key_map request.item key_schema ≡ ok key
      → handle_put_item schema key_schema request rows ≡ done mutation
      → (row : Value P) × (dynamodb_item_to_json_row request.item ≡ ok row)
        × IsWritten key_schema key rows (row ∷ []) mutation
        × Held key_schema key request.condition rows
  unfolding handle_put_item
  handle_put_item-IsWritten schema key_schema key request rows mutation objects d r k h =
      bind_lem (of_result (dynamodb_item_to_json_row request.item)) _ _ h (λ row e1 h1.
        bind_lem (of_result (validate_put_item_fields schema row)) _ _ h1 (λ valid e2 h2.
          bind_lem (of_result (parse_write_return_values request.condition.return_values false)) _ _
            (rw k at h2)
            (λ values e3 h3.
              bind_lem (parse_condition_expression request.condition) _ _ h3 (λ condition e4 h4.
                bind_lem (checked_rows key_schema condition key rows) _ _ h4 (λ parts e5 h5.
                  let c = checked_rows-IsChecked key_schema key condition rows parts objects e5 in
                  let made = of_result_lem (dynamodb_item_to_json_row request.item) row e1 in
                  (
                    row,
                    made,
                    pushed-IsWritten key_schema key rows row mutation
                        (rw (← c.retained)
                          (ap (λ (m : Mutation P). m.published) (sym (done_same _ _ h5))))
                        (dynamodb_item_to_json_row-has_key request.item key_schema key row d r made
                          k),
                    (condition, e4, rw (← c.existing) c.holds),
                  ))))))
