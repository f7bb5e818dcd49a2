-- ===== src/DynamoDb/Update/Actions.antt =====
-- One action of an update expression, `apply_update_action` of query_server/src/dynamodb_protocol.rs, on
-- the value of one field.
use powdrr_engine.Common.{
  String, ◌≡◌, refl, ◌∙◌, subst, Bool-cases, inl, inr, Option, none, some, List, [], ◌∷◌,
  if◌then◌else◌, ◌||◌, ◌==◌, string_eq, option_eq, arith, ◌>>=◌ as ◌>>=?◌,
}
use powdrr_engine.Common.Dict.{Dict, get}
use powdrr_engine.Json.{
  Floats, Value, Fields, get_field, insert_field, remove_field, is_null, get_field-insert_field,
  get_field-remove_field,
}
use powdrr_engine.DynamoDb.Error.{Result, ok, ◌>>=◌, then_lem}
use powdrr_engine.DynamoDb.Filter.{visible_object_value}
use powdrr_engine.DynamoDb.KeyRange.{DynamoDbKeySchemaConfig}
use powdrr_engine.DynamoDb.Update.{
  UpdateAction, set_to, remove, add, delete, subtract_set_values, next_value, apply_add_action,
  apply_delete_action, apply_update_action, existing_fields, touched,
}

module _ {P : Floats} where
  abbrev pub visible : Option (Value P) → Option (Value P)
  visible none = none
  visible (some value) = if is_null value then none else some value

  abbrev pub subtracted : Option (Value P) → Option (Value P) → Value P → Result (Option (Value P))
  subtracted value none operand = ok value
  subtracted value (some existing) operand = subtract_set_values existing operand

  -- what an action makes of the value of the field that it names
  abbrev pub value_after : Option (Value P) → UpdateAction P → Result (Option (Value P))
  value_after value (set_to name operand) = ok (some operand)
  value_after value (remove name) = ok none
  value_after value (add name operand) =
      next_value (visible value) operand >>= λ next. ok (some next)
  value_after value (delete name operand) = subtracted value (visible value) operand

  -- the actions that name a field, in their order, on the value of that field
  abbrev pub value_after_all :
      String → Option (Value P) → List (UpdateAction P) → Result (Option (Value P))
  value_after_all name value [] = ok value
  value_after_all name value (action ∷ actions) =
      (if touched action == name then value_after value action else ok value) >>= λ next.
      value_after_all name next actions

  -- the value of a field before the actions: an attribute of the key has that of the key
  abbrev pub value_before :
      Option (Value P) → DynamoDbKeySchemaConfig → Dict String (Value P) → String → Option (Value P)
  value_before existing_item key_schema key name =
      if key_schema.sort_key == some name || key_schema.partition_key == name
      then get key name
      else get_field (existing_fields existing_item) name

  visible_object_value_lem :
      (item : Fields P) (name : String)
      → visible_object_value item name ≡ visible (get_field item name)
  unfolding visible_object_value
  visible_object_value_lem item name = of_value (get_field item name)
    where
      of_value :
          (o : Option (Value P))
          → (o >>=? λ value. if is_null value then none else some value) ≡ visible o
      of_value none = refl
      of_value (some v) = refl

  -- the action on the value of one field
  abbrev value_at : String → Option (Value P) → UpdateAction P → Result (Option (Value P))
  value_at name value action = if touched action == name then value_after value action else ok value

  value_at_lem :
      (item made : Fields P) (action : UpdateAction P) (name : String) (next : Option (Value P))
      → get_field made name ≡ (if touched action == name then next else get_field item name)
      → value_after (get_field item (touched action)) action ≡ ok next
      → value_at name (get_field item name) action ≡ ok (get_field made name)
  value_at_lem item made action name next m h = elim (Bool-cases (touched action == name)) [
    | inl e ↦
        rw (m, e)
          (subst (λ n. value_after (get_field item n) action ≡ ok next)
            ((string_eq.same_iff (touched action) name).0 e) h)
    | inr e ↦ rw (m, e) refl
  ]

  value_at-insert_field :
      (item : Fields P) (action : UpdateAction P) (name : String) (next : Value P)
      → value_after (get_field item (touched action)) action ≡ ok (some next)
      → value_at name (get_field item name) action
        ≡ ok (get_field (insert_field (touched action) next item) name)
  value_at-insert_field item action name next h =
      value_at_lem item _ action name _ (get_field-insert_field (touched action) name next item) h

  value_at-remove_field :
      (item : Fields P) (action : UpdateAction P) (name : String)
      → value_after (get_field item (touched action)) action ≡ ok none
      → value_at name (get_field item name) action
        ≡ ok (get_field (remove_field (touched action) item) name)
  value_at-remove_field item action name h =
      value_at_lem item _ action name _ (get_field-remove_field (touched action) name item) h

  value_at-unchanged :
      (item : Fields P) (action : UpdateAction P) (name : String)
      → value_after (get_field item (touched action)) action ≡ ok (get_field item (touched action))
      → value_at name (get_field item name) action ≡ ok (get_field item name)
  value_at-unchanged item action name h =
      value_at_lem item item action name _
        (ground (arith, string_eq.same_iff (touched action) name)) h

  pub ok_field :
      (made next : Fields P) (name : String)
      → ok made ≡ ok next
      → ok (get_field made name) ≡ ok (get_field next name)
  ok_field made next name h = cc

  apply_delete_action_lem :
      (item next : Fields P) (field_name name : String) (operand : Value P)
      → apply_delete_action item field_name operand ≡ ok next
      → value_at name (get_field item name) (delete field_name operand) ≡ ok (get_field next name)
  unfolding apply_delete_action
  apply_delete_action_lem item next field_name name operand h =
      at (visible_object_value item field_name) (visible_object_value_lem item field_name) h
    where
      at :
          (o : Option (Value P))
          → o ≡ visible (get_field item field_name)
          → elim o as (λ _. Result (Fields P)) [
            | none ↦ ok item
            | some existing ↦ subtract_set_values existing operand >>= λ remaining. elim remaining [
              | none ↦ ok (remove_field field_name item)
              | some made ↦ ok (insert_field field_name made item)
            ]
          ]
            ≡ ok next
          → value_at name (get_field item name) (delete field_name operand)
            ≡ ok (get_field next name)
      at none p h =
          value_at-unchanged item (delete field_name operand) name (rw (← p) refl)
          ∙ ok_field item next name h
      at (some existing) p h =
          then_lem (subtract_set_values existing operand) _ next h
            (λ remaining e. stored p remaining e)
        where
          stored :
              some existing ≡ visible (get_field item field_name)
              → (remaining : Option (Value P)) → subtract_set_values existing operand ≡ ok remaining
              → elim remaining as (λ _. Result (Fields P)) [
                | none ↦ ok (remove_field field_name item)
                | some made ↦ ok (insert_field field_name made item)
              ]
                ≡ ok next
              → value_at name (get_field item name) (delete field_name operand)
                ≡ ok (get_field next name)
          stored p none e h =
              value_at-remove_field item (delete field_name operand) name (rw (← p) e)
              ∙ ok_field _ next name h
          stored p (some made) e h =
              value_at-insert_field item (delete field_name operand) name made (rw (← p) e)
              ∙ ok_field _ next name h

  pub apply_update_action_lem :
      (item next : Fields P) (action : UpdateAction P) (name : String)
      → apply_update_action item action ≡ ok next
      → value_at name (get_field item name) action ≡ ok (get_field next name)
  unfolding apply_update_action apply_add_action
  apply_update_action_lem item next (set_to field_name value) name h =
      value_at-insert_field item (set_to field_name value) name value refl ∙ ok_field _ next name h
  apply_update_action_lem item next (remove field_name) name h =
      value_at-remove_field item (remove field_name) name refl ∙ ok_field _ next name h
  apply_update_action_lem item next (add field_name operand) name h =
      then_lem (next_value (visible_object_value item field_name) operand) _ next h (λ made e done.
        value_at-insert_field item (add field_name operand) name made
          (rw (← visible_object_value_lem item field_name, e) refl)
        ∙ ok_field _ next name done)
  apply_update_action_lem item next (delete field_name operand) name h =
      apply_delete_action_lem item next field_name name operand h
