-- ===== src/DynamoDb/Items/Updated.antt =====
-- What `handle_update_item` of query_server/src/dynamodb_protocol.rs leaves of the rows of a table.
use powdrr_engine.Common.{
  String, ◌≡◌, refl, sym, ap, ◌∙◌, subst, Bool, true, false, Option, none, some, List, [], ◌∷◌,
  ◌==◌, ==_refl, string_eq, option_eq, all, find, unwrap_or, option_map, arith, Bool-cases, inl,
  inr,
}
use powdrr_engine.Common.Dict.{Dict, get}
use powdrr_engine.DataContract.Schema.{PowdrrSchema}
use powdrr_engine.Json.{Floats, Value, object, Fields, get_field, same}
use powdrr_engine.DynamoDb.Error.{Result, ok, then_lem, ok_same}
use powdrr_engine.DynamoDb.Evaluate.{is_object}
use powdrr_engine.DynamoDb.KeyRange.{DynamoDbKeySchemaConfig, option_same, parse_key_map}
use powdrr_engine.DynamoDb.KeyRange.Rows.{has_key}
use powdrr_engine.DynamoDb.Update.{
  ParsedUpdateExpression, apply_update_expression, apply_update_actions, insert_key,
  existing_fields,
}
use powdrr_engine.DynamoDb.Update.Actions.{value_before}
use powdrr_engine.DynamoDb.Update.Split.{done, of_result, bind_lem, of_result_lem, done_same}
use powdrr_engine.DynamoDb.Update.Parser.{parse_update_expression}
use powdrr_engine.DynamoDb.Update.Accepted.{is_update_field}
use powdrr_engine.DynamoDb.Update.Allowed.{apply_update_expression-parse_update_expression}
use powdrr_engine.DynamoDb.Items.{
  Mutation, UpdateItemRequest, handle_update_item, parse_write_return_values,
  parse_condition_expression, checked_rows,
}
use powdrr_engine.DynamoDb.Items.Rows.{IsWritten, Held, checked_rows-IsChecked, pushed-IsWritten}

module _ {P : Floats} where
  -- each value of the key equals itself: it is no NaN, and holds no object with a key twice
  abbrev pub is_reflexive : Dict String (Value P) → Bool
  is_reflexive key = all (λ entry. same entry.1 entry.1) key

  get-reflexive :
      (key : Dict String (Value P)) (name : String)
      → is_reflexive key ≡ true
      → option_same (get key name) (get key name) ≡ true
  unfolding get
  get-reflexive [] name h = refl
  get-reflexive ((k, v) ∷ key) name h = elim (Bool-cases (k == name)) [
    | inl e ↦ rw e (ground arith)
    | inr e ↦ rw e (get-reflexive key name (ground arith))
  ]

  apply_update_expression-object :
      (existing_item : Option (Value P)) (key_schema : DynamoDbKeySchemaConfig)
      (key : Dict String (Value P)) (update : ParsedUpdateExpression P) (item : Value P)
      → apply_update_expression existing_item key_schema key update ≡ ok item
      → (result : Fields P) × (item ≡ object result)
  unfolding apply_update_expression
  apply_update_expression-object existing_item key_schema key update item h =
      then_lem (insert_key key_schema.partition_key key (existing_fields existing_item)) _ _ h
        (λ made e1 h1.
          then_lem
            (elim key_schema.sort_key as (λ _. Result (Fields P)) [
              | none ↦ ok made
              | some sort_key ↦ insert_key sort_key key made
            ])
            _ _ h1
            (λ keyed e2 h2.
              then_lem (apply_update_actions keyed update.actions) _ _ h2
                (λ updated e3 h3. (updated, ok_same _ _ (sym h3)))))

  -- a row that has the values of the key under its attributes has the key
  pub has_key_of :
      (key_schema : DynamoDbKeySchemaConfig) (key : Dict String (Value P)) (result : Fields P)
      → is_reflexive key ≡ true
      → get_field result key_schema.partition_key ≡ get key key_schema.partition_key
      → ((name : String) → key_schema.sort_key ≡ some name → get_field result name ≡ get key name)
      → has_key key_schema key (object result) ≡ true
  has_key_of key_schema key result r p s =
      rw (p, get-reflexive key key_schema.partition_key r) (sort_has key_schema.sort_key s)
    where
      sort_has :
          (sort_key : Option String)
          → ((name : String) → sort_key ≡ some name → get_field result name ≡ get key name)
          → unwrap_or true
              (option_map (λ name. option_same (get_field result name) (get key name)) sort_key)
            ≡ true
      sort_has none q = refl
      sort_has (some name) q = rw (q name refl) (get-reflexive key name r)

module _ {P : Floats} (schema : PowdrrSchema) (key_schema : DynamoDbKeySchemaConfig)
    (key : Dict String (Value P)) where
  partition_key-fixed : is_update_field schema key_schema key_schema.partition_key ≡ false
  partition_key-fixed = ground (arith, ==_refl key_schema.partition_key)

  sort_key-fixed :
      (name : String)
      → key_schema.sort_key ≡ some name
      → is_update_field schema key_schema name ≡ false
  sort_key-fixed name h = rw (h, ==_refl name) (ground arith)

  partition_key-before :
      (existing : Option (Value P))
      → value_before existing key_schema key key_schema.partition_key
        ≡ get key key_schema.partition_key
  partition_key-before existing = ground (arith, ==_refl key_schema.partition_key)

  sort_key-before :
      (existing : Option (Value P)) (name : String)
      → key_schema.sort_key ≡ some name
      → value_before existing key_schema key name ≡ get key name
  sort_key-before existing name h = rw (h, ==_refl name) refl

  updated-has_key :
      (expression : String) (aliases : Option (Dict String String))
      (values : Option (Dict String (Value P))) (update : ParsedUpdateExpression P)
      (existing : Option (Value P)) (item : Value P)
      → is_reflexive key ≡ true
      → parse_update_expression expression aliases values schema key_schema ≡ done update
      → apply_update_expression existing key_schema key update ≡ ok item
      → has_key key_schema key item ≡ true
  updated-has_key expression aliases values update existing item r p h =
      subst (λ v. has_key key_schema key v ≡ true) (sym made.1)
        (has_key_of key_schema key made.0 r
          (kept key_schema.partition_key partition_key-fixed ∙ partition_key-before existing)
          (λ name q. kept name (sort_key-fixed name q) ∙ sort_key-before existing name q))
    where
      made : (result : Fields P) × (item ≡ object result)
      made = apply_update_expression-object existing key_schema key update item h

      kept :
          (name : String)
          → is_update_field schema key_schema name ≡ false
          → get_field made.0 name ≡ value_before existing key_schema key name
      kept name =
          apply_update_expression-parse_update_expression schema key_schema expression aliases
            values update existing key made.0 name p (h ∙ ap (λ (v : Value P). ok v) made.1)

  -- An update that succeeds leaves one row of its key, the one that its update expression makes of the
  -- row of the key that was there, and the rows of other keys as they are, in their order; and its
  -- condition held of the row that was there. Each value of the key must equal itself.
  pub handle_update_item-IsWritten :
      (request : UpdateItemRequest P) (rows : List (Value P)) (mutation : Mutation P)
      → all is_object rows ≡ true
      → is_reflexive key ≡ true
      → parse_key_map request.key key_schema ≡ ok key
      → handle_update_item schema key_schema request rows ≡ done mutation
      → (update : ParsedUpdateExpression P) × (item : Value P) × (parse_update_expression
            request.update_expression request.condition.expression_attribute_names
            request.condition.expression_attribute_values schema key_schema
          ≡ done update)
        × (apply_update_expression (find (has_key key_schema key) rows) key_schema key update
            ≡ ok item)
        × IsWritten key_schema key rows (item ∷ []) mutation
        × Held key_schema key request.condition rows
  unfolding handle_update_item
  handle_update_item-IsWritten request rows mutation objects r k h =
      bind_lem (of_result (parse_write_return_values request.condition.return_values true)) _ _
        (rw (handle_update_item, k) at h)
        (λ values e1 h1.
          bind_lem (parse_condition_expression request.condition) _ _ h1 (λ condition e2 h2.
            bind_lem
              (parse_update_expression request.update_expression
                request.condition.expression_attribute_names
                request.condition.expression_attribute_values schema key_schema)
              _ _ h2
              (λ update e3 h3.
                bind_lem (checked_rows key_schema condition key rows) _ _ h3 (λ parts e4 h4.
                  bind_lem (of_result (apply_update_expression parts.0 key_schema key update)) _ _
                    h4
                    (λ item e5 h5.
                      let c =
                        checked_rows-IsChecked key_schema key condition rows parts objects e4 in
                      let applied =
                        of_result_lem (apply_update_expression parts.0 key_schema key update) item
                          e5 in
                      (
                        update,
                        item,
                        e3,
                        rw (← c.existing) applied,
                        pushed-IsWritten key_schema key rows item mutation
                            (rw (← c.retained)
                              (ap (λ (m : Mutation P). m.published) (sym (done_same _ _ h5))))
                            (updated-has_key request.update_expression
                              request.condition.expression_attribute_names
                              request.condition.expression_attribute_values update parts.0 item r e3
                              applied),
                        (condition, e2, rw (← c.existing) c.holds),
                      ))))))
