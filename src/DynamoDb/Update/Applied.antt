-- ===== src/DynamoDb/Update/Applied.antt =====
-- What an update expression leaves in an item, `apply_update_expression` of
-- query_server/src/dynamodb_protocol.rs, field by field.
use powdrr_engine.Common.{
  String, ◌≡◌, ◌∙◌, sym, ap, subst, Option, none, some, List, [], ◌∷◌, if◌then◌else◌, ◌==◌,
  string_eq, option_eq, arith,
}
use powdrr_engine.Common.Dict.{Dict, get}
use powdrr_engine.Json.{
  Floats, Value, object, Fields, get_field, insert_field, get_field-insert_field,
}
use powdrr_engine.DynamoDb.Error.{internal, Result, ok, err, ok_or, then_lem}
use powdrr_engine.DynamoDb.KeyRange.{DynamoDbKeySchemaConfig}
use powdrr_engine.DynamoDb.Update.{
  UpdateAction, ParsedUpdateExpression, apply_update_action, apply_update_actions, insert_key,
  existing_fields, apply_update_expression,
}
use powdrr_engine.DynamoDb.Update.Actions.{
  value_after_all, value_before, ok_field, apply_update_action_lem,
}

module _ {P : Floats} where
  apply_update_actions_lem :
      (item result : Fields P) (actions : List (UpdateAction P)) (name : String)
      → apply_update_actions item actions ≡ ok result
      → value_after_all name (get_field item name) actions ≡ ok (get_field result name)
  unfolding apply_update_actions
  apply_update_actions_lem item result [] name h = ok_field item result name h
  apply_update_actions_lem item result (action ∷ actions) name h =
      then_lem (apply_update_action item action) _ result h (λ next e rest.
        rw (apply_update_action_lem item next action name e)
          (apply_update_actions_lem next result actions name rest))

  ok_or_lem :
      (o : Option (Value P)) (value : Value P) → ok_or internal o ≡ ok value → o ≡ some value
  ok_or_lem none value h = ground arith
  ok_or_lem (some v) value h = cc

  insert_key_lem :
      (key_name name : String) (key : Dict String (Value P)) (item keyed : Fields P)
      → insert_key key_name key item ≡ ok keyed
      → get_field keyed name ≡ (if key_name == name then get key name else get_field item name)
  insert_key_lem key_name name key item keyed h =
      then_lem (ok_or internal (get key key_name)) _ keyed h
        (λ value e done. inserted value keyed (ok_or_lem _ value e) done)
    where
      inserted :
          (value : Value P) (made : Fields P)
          → get key key_name ≡ some value
          → ok (insert_field key_name value item) ≡ ok made
          → get_field made name ≡ (if key_name == name then get key name else get_field item name)
      inserted value made e done =
          rw (← made_is done, get_field-insert_field key_name name value item)
            (ground (arith, e, string_eq.same_iff key_name name))
        where
          made_is :
              ok (insert_field key_name value item) ≡ ok made
              → insert_field key_name value item ≡ made
          made_is p = cc

  sort_key_lem :
      (sort_key : Option String) (name : String) (key : Dict String (Value P))
      (item keyed : Fields P)
      → elim sort_key as (λ _. Result (Fields P)) [
        | none ↦ ok item
        | some s ↦ insert_key s key item
      ]
        ≡ ok keyed
      → get_field keyed name ≡ (if sort_key == some name then get key name else get_field item name)
  sort_key_lem none name key item keyed h = ap (λ r. of_ok r) (ok_field keyed item name (sym h))
    where
      of_ok : Result (Option (Value P)) → Option (Value P)
      of_ok (ok v) = v
      of_ok (err e) = none
  sort_key_lem (some s) name key item keyed h = insert_key_lem s name key item keyed h

  -- An update expression that succeeds leaves in each field of the item what the actions that name the
  -- field, one after the other, make of its value: of the value that the key has for it, if it is an
  -- attribute of the key, and else of the value in the item before, and with no regard to the other
  -- fields.
  pub apply_update_expression_lem :
      (existing_item : Option (Value P)) (key_schema : DynamoDbKeySchemaConfig)
      (key : Dict String (Value P)) (parsed : ParsedUpdateExpression P) (result : Fields P)
      → apply_update_expression existing_item key_schema key parsed ≡ ok (object result)
      → (name : String)
      → value_after_all name (value_before existing_item key_schema key name) parsed.actions
        ≡ ok (get_field result name)
  unfolding apply_update_expression
  apply_update_expression_lem existing_item key_schema key parsed result h name =
      then_lem (insert_key key_schema.partition_key key (existing_fields existing_item)) _ _ h
        (λ item e rest. then_lem (sort_key_item item) _ _ rest (λ keyed p more.
          then_lem (apply_update_actions keyed parsed.actions) _ _ more (λ updated q done.
            subst (λ v. value_after_all name v parsed.actions ≡ ok (get_field result name))
              (before item keyed e p)
              (apply_update_actions_lem keyed updated parsed.actions name q
                ∙ updated_is updated done))))
    where
      sort_key_item : Fields P → Result (Fields P)
      sort_key_item item = elim key_schema.sort_key [
        | none ↦ ok item
        | some sort_key ↦ insert_key sort_key key item
      ]

      updated_is :
          (updated : Fields P)
          → ok (object updated) ≡ ok (object result)
          → ok (get_field updated name) ≡ ok (get_field result name)
      updated_is updated done = cc

      before :
          (item keyed : Fields P)
          → insert_key key_schema.partition_key key (existing_fields existing_item) ≡ ok item
          → sort_key_item item ≡ ok keyed
          → get_field keyed name ≡ value_before existing_item key_schema key name
      before item keyed e p =
          sort_key_lem key_schema.sort_key name key item keyed p
          ∙ rw
              (insert_key_lem key_schema.partition_key name key (existing_fields existing_item) item
                e)
              (ground (arith))
