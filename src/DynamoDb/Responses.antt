-- ===== src/DynamoDb/Responses.antt =====
-- From rows to the attribute values of responses, in query_server/src/dynamodb_protocol.rs:
-- `json_to_dynamodb_attr`, items, keys and projections.
use powdrr_engine.Common.{
  ℕ, String, true, Option, none, some, List, [], ◌∷◌, if◌then◌else◌, ◌==◌, string_eq, option_eq,
  map, unwrap_or, is_some, option_map,
}
use powdrr_engine.Redis.Text.{decimal_ℤ}
use powdrr_engine.Json.{
  Floats, Number, int, float, Value, null, boolean, number, string, array, object, Values, nil,
  cons, Fields, end, field, get_field, insert_field, as_str, as_array, as_object, of_elements,
  is_null,
}
use powdrr_engine.DynamoDb.Error.{validation, internal, Result, ok, err, ◌>>=◌, ok_or}
use powdrr_engine.DynamoDb.Attributes.{
  binary_marker, string_set_marker, number_set_marker, binary_set_marker, singleton, collect,
  ◌or_else◌, tagged,
}
use powdrr_engine.DynamoDb.Filter.{visible_object_value}
use powdrr_engine.DynamoDb.Scalars.{from_u32, of_chars}
use powdrr_engine.DynamoDb.KeyRange.{DynamoDbKeySchemaConfig}

-- a text of code points
abbrev pub of_codes : List ℕ → String
of_codes codes = of_chars (map (λ n. unwrap_or "?" (from_u32 n)) codes)

module _ {P : Floats} where
  -- `Number::to_string`
  abbrev pub print_number : Number P → String
  print_number (int n) = of_codes (decimal_ℤ n)
  print_number (float a) = P.print a

  abbrev pub string_member : Value P → Result (Value P)
  string_member value = ok_or validation (option_map string (as_str value))

  -- `string_array_value`, as an array
  unfoldable pub string_array_value : Value P → Result (Value P)
  string_array_value value = ok_or validation (as_array value) >>= λ members.
      collect string_member members >>= λ texts. ok (array (of_elements texts))

  abbrev pub number_member : Value P → Result (Value P)
  number_member (number n) = ok (string (print_number n))
  number_member _ = err validation

  unfoldable pub number_set_value : Value P → Result (Value P)
  number_set_value value = ok_or validation (as_array value) >>= λ members.
      collect number_member members >>= λ texts. ok (array (of_elements texts))

  abbrev pub under : String → Result (Value P) → Result (Value P)
  under key value = value >>= λ v. ok (singleton key v)

  abbrev pub binary_value : Value P → Result (Value P)
  binary_value value = under "B" (string_member value)

  unfoldable mutual
    pub json_to_dynamodb_attr : Value P → Result (Value P)
    json_to_dynamodb_attr null = ok (singleton "NULL" (boolean true))
    json_to_dynamodb_attr (boolean b) = ok (singleton "BOOL" (boolean b))
    json_to_dynamodb_attr (number n) = ok (singleton "N" (string (print_number n)))
    json_to_dynamodb_attr (string s) = ok (singleton "S" (string s))
    json_to_dynamodb_attr (array vs) = attrs_of vs >>= λ ws. ok (singleton "L" (array ws))
    json_to_dynamodb_attr (object fs) =
        tagged fs binary_marker binary_value
        or_else tagged fs string_set_marker (λ v. under "SS" (string_array_value v))
        or_else tagged fs number_set_marker (λ v. under "NS" (number_set_value v))
        or_else tagged fs binary_set_marker (λ v. under "BS" (string_array_value v))
        or_else (entries_of end fs >>= λ converted. ok (singleton "M" (object converted)))

    pub attrs_of : Values P → Result (Values P)
    attrs_of nil = ok nil
    attrs_of (cons v vs) = json_to_dynamodb_attr v >>= λ w. attrs_of vs >>= λ ws. ok (cons w ws)

    pub entries_of : Fields P → Fields P → Result (Fields P)
    entries_of converted end = ok converted
    entries_of converted (field k v fs) =
        json_to_dynamodb_attr v >>= λ w. entries_of (insert_field k w converted) fs

  -- the fields that are not null
  abbrev pub visible_entries : Fields P → Fields P → Result (Fields P)
  visible_entries item end = ok item
  visible_entries item (field k v fs) =
      (if is_null v then ok item else (json_to_dynamodb_attr v >>= λ w. ok (insert_field k w item)))
      >>= λ next. visible_entries next fs

  unfoldable pub json_row_to_dynamodb_item : Value P → Result (Fields P)
  json_row_to_dynamodb_item row = ok_or internal (as_object row) >>= visible_entries end

  unfoldable pub append_key_to_map : Fields P → Fields P → String → Result (Fields P)
  append_key_to_map key item name =
      if is_some (get_field key name)
      then ok key
      else (ok_or internal (get_field item name) >>= λ value.
          json_to_dynamodb_attr value >>= λ attr. ok (insert_field name attr key))

  abbrev pub append_optional : Fields P → Fields P → Option String → Result (Fields P)
  append_optional key item none = ok key
  append_optional key item (some name) = append_key_to_map key item name

  -- the last key of a page: that of the index, and that of the table
  unfoldable pub row_to_key :
      Value P → DynamoDbKeySchemaConfig → DynamoDbKeySchemaConfig → Result (Fields P)
  row_to_key row key_schema table_key_schema = ok_or internal (as_object row) >>= λ item.
      append_key_to_map end item key_schema.partition_key >>= λ partition.
      append_optional partition item key_schema.sort_key >>= λ sort.
      (if table_key_schema.partition_key == key_schema.partition_key
        then ok sort
        else append_key_to_map sort item table_key_schema.partition_key)
      >>= λ table.
          if key_schema.sort_key == table_key_schema.sort_key
          then ok table
          else append_optional table item table_key_schema.sort_key

  -- the visible fields among those that are named
  abbrev pub projected : Fields P → Fields P → List String → Fields P
  projected made item [] = made
  projected made item (name ∷ names) = elim (visible_object_value item name) [
    | none ↦ projected made item names
    | some value ↦ projected (insert_field name value made) item names
  ]

  unfoldable pub project_row : Value P → List String → Result (Value P)
  project_row row projection =
      ok_or internal (as_object row) >>= λ item. ok (object (projected end item projection))

  unfoldable pub project_rows : List (Value P) → Option (List String) → Result (List (Value P))
  project_rows rows none = ok rows
  project_rows rows (some projection) = collect (λ row. project_row row projection) rows

  abbrev pub touched_entries : Fields P → Fields P → List String → Result (Fields P)
  touched_entries attributes item [] = ok attributes
  touched_entries attributes item (name ∷ names) =
      elim (visible_object_value item name) as (λ _. Result (Fields P)) [
        | none ↦ ok attributes
        | some value ↦
            json_to_dynamodb_attr value >>= λ attr. ok (insert_field name attr attributes)
      ]
      >>= λ next. touched_entries next item names

  unfoldable pub updated_attribute_projection : Option (Value P) → List String → Result (Fields P)
  updated_attribute_projection none touched_fields = ok end
  updated_attribute_projection (some item) touched_fields =
      ok_or internal (as_object item) >>= λ entries. touched_entries end entries touched_fields
