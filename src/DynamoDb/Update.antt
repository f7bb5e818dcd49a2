-- ===== src/DynamoDb/Update.antt =====
-- Update expressions of query_server/src/dynamodb_protocol.rs: the actions, and the item that they
-- make of the one that is there.
pub mod Actions
pub mod Applied
pub mod Split
pub mod Parser
pub mod Accepted
pub mod Allowed
pub mod Ends
pub mod Panics
use powdrr_engine.Common.{
  String, Bool, false, ◌&&◌, not, Option, none, some, List, [], ◌∷◌, ◌++◌, if◌then◌else◌, ◌==◌,
  string_eq, option_map, unwrap_or, any, retain, ◌>>=◌ as ◌>>=?◌,
}
use powdrr_engine.Common.Int.{ℤ, pos, negsuc, ◌+ℤ◌, ◌-ℤ◌, leb_ℤ}
use powdrr_engine.Common.Dict.{Dict, get}
use powdrr_engine.Json.{
  Floats, Number, int, float, Value, number, array, object, Fields, end, insert_field, remove_field,
  as_object, as_f64, of_f64, of_elements, is_number, same,
}
use powdrr_engine.DynamoDb.Error.{validation, internal, Result, ok, err, ◌>>=◌, ok_or}
use powdrr_engine.DynamoDb.Attributes.{
  string_set_marker, number_set_marker, binary_set_marker, singleton, ◌or_else◌,
}
use powdrr_engine.DynamoDb.Filter.{visible_object_value, members_under}
use powdrr_engine.DynamoDb.KeyRange.{DynamoDbKeySchemaConfig}

pub data UpdateAction (P : Floats) : Type 0 where
  set_to : String → Value P → UpdateAction P
  remove : String → UpdateAction P
  add delete : String → Value P → UpdateAction P

pub record ParsedUpdateExpression (P : Floats) : Type 0 where
  pub actions : List (UpdateAction P)
  pub touched_fields : List String

abbrev pub i64_max : ℤ
i64_max = pos 9223372036854775807

abbrev pub i64_min : ℤ
i64_min = negsuc 9223372036854775807

abbrev pub u64_count : ℤ
u64_count = pos 18446744073709551616

-- the sum of two `i64` as a release build makes it
unfoldable pub wrap_i64 : ℤ → ℤ
wrap_i64 sum =
    if leb_ℤ sum i64_max
    then (if leb_ℤ i64_min sum then sum else sum +ℤ u64_count)
    else sum -ℤ u64_count

module _ {P : Floats} where
  -- a set of a row: the first marker that it holds an array under, with the members
  unfoldable pub dynamodb_set_members : Value P → Option (String × List (Value P))
  dynamodb_set_members value = as_object value >>=? λ item.
      option_map (λ members. some (string_set_marker, members))
        (members_under item string_set_marker)
      or_else option_map (λ members. some (number_set_marker, members))
          (members_under item number_set_marker)
      or_else option_map (λ members. (binary_set_marker, members))
          (members_under item binary_set_marker)

  abbrev pub set_value : String → List (Value P) → Value P
  set_value marker values = singleton marker (array (of_elements values))

  abbrev pub is_i64 : Number P → Bool
  is_i64 (int z) = leb_ℤ z i64_max
  is_i64 (float a) = false

  abbrev pub add_numbers : Number P → Number P → Value P
  add_numbers (int a) (int b) =
      if is_i64 (int a) && is_i64 (int b)
      then number (int (wrap_i64 (a +ℤ b)))
      else of_f64 (P.add (P.of_int a) (P.of_int b))
  add_numbers left right = of_f64 (P.add (as_f64 left) (as_f64 right))

  unfoldable pub add_numeric_values : Value P → Value P → Result (Value P)
  add_numeric_values (number left) (number right) = ok (add_numbers left right)
  add_numeric_values _ _ = err validation

  abbrev pub push_new : List (Value P) → List (Value P) → List (Value P)
  push_new combined [] = combined
  push_new combined (member ∷ members) =
      push_new
        (if any (λ existing. same existing member) combined
          then combined
          else combined ++ (member ∷ []))
        members

  unfoldable pub union_set_values : Value P → Value P → Result (Value P)
  union_set_values existing operand = ok_or validation (dynamodb_set_members existing) >>= λ e.
      ok_or validation (dynamodb_set_members operand) >>= λ o.
      if not (e.0 == o.0) then err validation else ok (set_value e.0 (push_new e.1 o.1))

  abbrev pub none_left : String → List (Value P) → Option (Value P)
  none_left marker [] = none
  none_left marker (member ∷ members) = some (set_value marker (member ∷ members))

  unfoldable pub subtract_set_values : Value P → Value P → Result (Option (Value P))
  subtract_set_values existing operand = ok_or validation (dynamodb_set_members existing) >>= λ e.
      ok_or validation (dynamodb_set_members operand) >>= λ o.
      if not (e.0 == o.0)
      then err validation
      else ok (
          none_left e.0 (retain (λ member. not (any (λ candidate. same candidate member) o.1)) e.1))

  -- the value that `ADD` stores
  abbrev pub next_value : Option (Value P) → Value P → Result (Value P)
  next_value none operand = ok operand
  next_value (some existing) operand =
      if is_number existing && is_number operand
      then add_numeric_values existing operand
      else union_set_values existing operand

  unfoldable pub apply_add_action : Fields P → String → Value P → Result (Fields P)
  apply_add_action item name operand =
      next_value (visible_object_value item name) operand >>= λ next.
      ok (insert_field name next item)

  unfoldable pub apply_delete_action : Fields P → String → Value P → Result (Fields P)
  apply_delete_action item name operand = elim (visible_object_value item name) [
    | none ↦ ok item
    | some existing ↦ subtract_set_values existing operand >>= λ remaining. elim remaining [
      | none ↦ ok (remove_field name item)
      | some next ↦ ok (insert_field name next item)
    ]
  ]

  unfoldable pub apply_update_action : Fields P → UpdateAction P → Result (Fields P)
  apply_update_action item (set_to name value) = ok (insert_field name value item)
  apply_update_action item (remove name) = ok (remove_field name item)
  apply_update_action item (add name value) = apply_add_action item name value
  apply_update_action item (delete name value) = apply_delete_action item name value

  unfoldable pub apply_update_actions : Fields P → List (UpdateAction P) → Result (Fields P)
  apply_update_actions item [] = ok item
  apply_update_actions item (action ∷ actions) =
      apply_update_action item action >>= λ next. apply_update_actions next actions

  -- the value of a key attribute is put into the item
  abbrev pub insert_key : String → Dict String (Value P) → Fields P → Result (Fields P)
  insert_key name key item =
      ok_or internal (get key name) >>= λ value. ok (insert_field name value item)

  abbrev pub existing_fields : Option (Value P) → Fields P
  existing_fields existing_item = unwrap_or end (existing_item >>=? as_object)

  unfoldable pub apply_update_expression :
      Option (Value P)
      → DynamoDbKeySchemaConfig
      → Dict String (Value P)
      → ParsedUpdateExpression P
      → Result (Value P)
  apply_update_expression existing_item key_schema key parsed =
      insert_key key_schema.partition_key key (existing_fields existing_item) >>= λ item.
      elim key_schema.sort_key [ none ↦ ok item | some sort_key ↦ insert_key sort_key key item ]
      >>= λ keyed. apply_update_actions keyed parsed.actions >>= λ updated. ok (object updated)

  abbrev pub touched : UpdateAction P → String
  touched (set_to name value) = name
  touched (remove name) = name
  touched (add name value) = name
  touched (delete name value) = name
