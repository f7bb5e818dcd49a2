-- ===== src/DynamoDb/Update/Allowed.antt =====
-- Which fields an update expression leaves as they are, in
-- query_server/src/dynamodb_protocol.rs.
use powdrr_engine.Common.{
  String, ◌≡◌, refl, sym, ◌⊎◌, all-contains, ◌∙◌, true, false, Option, List, [], ◌∷◌, map, ◌==◌,
  string_eq, option_eq, contains, arith, Bool-cases, inl, inr,
}
use powdrr_engine.Common.Dict.{Dict}
use powdrr_engine.DataContract.Schema.{PowdrrSchema}
use powdrr_engine.Json.{Floats, Value, object, Fields, get_field}
use powdrr_engine.DynamoDb.Error.{ok, ok_same}
use powdrr_engine.DynamoDb.KeyRange.{DynamoDbKeySchemaConfig}
use powdrr_engine.DynamoDb.Update.{
  UpdateAction, ParsedUpdateExpression, touched, apply_update_expression,
}
use powdrr_engine.DynamoDb.Update.Actions.{value_after_all, value_before}
use powdrr_engine.DynamoDb.Update.Applied.{apply_update_expression_lem}
use powdrr_engine.DynamoDb.Update.Split.{done}
use powdrr_engine.DynamoDb.Update.Parser.{parse_update_expression}
use powdrr_engine.DynamoDb.Update.Accepted.{is_update_field, parse_update_expression-IsAllowed}

module _ (schema : PowdrrSchema) (key_schema : DynamoDbKeySchemaConfig) where
  module _ {P : Floats} where
    untouched :
        (name : String) (value : Option (Value P)) (actions : List (UpdateAction P))
        → contains (map touched actions) name ≡ false
        → value_after_all name value actions ≡ ok value
    untouched name value [] h = refl
    untouched name value (action ∷ actions) h = elim (Bool-cases (touched action == name)) [
      | inl e ↦ absurd (ground arith)
      | inr e ↦ rw e (untouched name value actions (ground arith))
    ]

    -- Where an update expression is accepted and applied, each field that is not in the schema, or is an
    -- attribute of the key, is as it was before the actions: an attribute of the key has the value of the
    -- key, and any other field that of the item.
    pub apply_update_expression-parse_update_expression :
        (expression : String) (aliases : Option (Dict String String))
        (values : Option (Dict String (Value P))) (parsed : ParsedUpdateExpression P)
        (existing_item : Option (Value P)) (key : Dict String (Value P)) (result : Fields P)
        (name : String)
        → parse_update_expression expression aliases values schema key_schema ≡ done parsed
        → apply_update_expression existing_item key_schema key parsed ≡ ok (object result)
        → is_update_field schema key_schema name ≡ false
        → get_field result name ≡ value_before existing_item key_schema key name
    apply_update_expression-parse_update_expression expression aliases values parsed existing_item
          key result name p h other =
        ok_same _ _ (
          sym (apply_update_expression_lem existing_item key_schema key parsed result h name)
          ∙ untouched name _ parsed.actions
              (rw of_actions (not_touched (Bool-cases (contains parsed.touched_fields name)))))
      where
        open parse_update_expression-IsAllowed schema key_schema expression aliases values parsed
            p use {of_actions, allowed}

        not_touched :
            (contains parsed.touched_fields name ≡ true)
              ⊎ (contains parsed.touched_fields name ≡ false)
            → contains parsed.touched_fields name ≡ false
        not_touched (inl e) = absurd (
            ground (
              arith,
              all-contains (is_update_field schema key_schema) parsed.touched_fields name allowed e,
            ))
        not_touched (inr e) = e
