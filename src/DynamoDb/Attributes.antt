-- ===== src/DynamoDb/Attributes.antt =====
-- Attribute values in query_server/src/dynamodb_protocol.rs: DynamoDB's tagged values and the JSON
-- values of rows, with the markers under which a row holds sets and binary values.
use powdrr_engine.Common.{
  String, true, Option, none, some, List, [], ◌∷◌, if◌then◌else◌, ◌==◌, string_eq, option_map,
}
use powdrr_engine.Common.Dict.{Dict, get}
use powdrr_engine.Redis.Text.{parse_i64}
use powdrr_engine.Json.{
  Floats, int, Value, null, boolean, number, string, array, object, Values, nil, cons, Fields, end,
  field, codes, get_field, insert_field, as_str, as_bool, as_array, of_elements, of_f64,
}
use powdrr_engine.DynamoDb.Error.{validation, Result, ok, err, ◌>>=◌, ok_or}

abbrev pub binary_marker : String
binary_marker = "$binary"

abbrev pub string_set_marker : String
string_set_marker = "$string_set"

abbrev pub number_set_marker : String
number_set_marker = "$number_set"

abbrev pub binary_set_marker : String
binary_set_marker = "$binary_set"

infixr 20 ◌or_else◌
abbrev pub ◌or_else◌ : {A : Type 0} → Option A → A → A
none or_else d = d
some a or_else d = a

module _ {P : Floats} where
  abbrev pub tagged : Fields P → String → (Value P → Result (Value P)) → Option (Result (Value P))
  tagged fs key convert = option_map convert (get_field fs key)

  abbrev pub singleton : String → Value P → Value P
  singleton key v = object (field key v end)

  -- `text.parse::<i64>()`, else `text.parse::<f64>()`
  abbrev pub parse_number : String → Result (Value P)
  parse_number text = elim (parse_i64 (codes text)) [
    | some parsed ↦ ok (number (int parsed))
    | none ↦ elim (P.parse text) [ some parsed ↦ ok (of_f64 parsed) | none ↦ err validation ]
  ]

  abbrev pub string_attr : Value P → Result (Value P)
  string_attr value = ok_or validation (option_map string (as_str value))

  abbrev pub number_attr : Value P → Result (Value P)
  number_attr value = ok_or validation (as_str value) >>= parse_number

  abbrev pub bool_attr : Value P → Result (Value P)
  bool_attr value = ok_or validation (option_map boolean (as_bool value))

  abbrev pub binary_attr : Value P → Result (Value P)
  binary_attr value =
      ok_or validation (option_map (λ text. singleton binary_marker (string text)) (as_str value))

  abbrev pub null_attr : Value P → Result (Value P)
  null_attr (boolean true) = ok null
  null_attr _ = err validation

  -- `iter().map(...).collect::<Result<Vec<_>, _>>()`
  abbrev pub collect : (Value P → Result (Value P)) → List (Value P) → Result (List (Value P))
  collect f [] = ok []
  collect f (v ∷ vs) = f v >>= λ w. collect f vs >>= λ ws. ok (w ∷ ws)

  abbrev pub set_attr : String → (Value P → Result (Value P)) → Value P → Result (Value P)
  set_attr marker convert value = ok_or validation (as_array value) >>= λ members.
      collect convert members >>= λ values. ok (singleton marker (array (of_elements values)))

  unfoldable mutual
    pub dynamodb_attr_to_json : Value P → Result (Value P)
    dynamodb_attr_to_json (object fs) =
        tagged fs "S" string_attr
        or_else tagged fs "N" number_attr
        or_else tagged fs "BOOL" bool_attr
        or_else tagged fs "B" binary_attr
        or_else tagged fs "NULL" null_attr
        or_else tagged fs "SS" (set_attr string_set_marker string_attr)
        or_else tagged fs "NS" (set_attr number_set_marker number_attr)
        or_else tagged fs "BS" (set_attr binary_set_marker string_attr)
        or_else list_attr fs
        or_else map_attr fs
        or_else err validation
    dynamodb_attr_to_json _ = err validation

    -- the value under "L", and the one under "M"
    pub list_attr : Fields P → Option (Result (Value P))
    list_attr end = none
    list_attr (field k v fs) =
        let rest = list_attr fs in
        let here = convert_array v in if k == "L" then some here else rest

    pub map_attr : Fields P → Option (Result (Value P))
    map_attr end = none
    map_attr (field k v fs) =
        let rest = map_attr fs in let here = convert_map v in if k == "M" then some here else rest

    pub convert_array : Value P → Result (Value P)
    convert_array (array vs) = convert_all vs >>= λ ws. ok (array ws)
    convert_array _ = err validation

    pub convert_all : Values P → Result (Values P)
    convert_all nil = ok nil
    convert_all (cons v vs) =
        dynamodb_attr_to_json v >>= λ w. convert_all vs >>= λ ws. ok (cons w ws)

    pub convert_map : Value P → Result (Value P)
    convert_map (object fs) = convert_entries end fs >>= λ converted. ok (object converted)
    convert_map _ = err validation

    pub convert_entries : Fields P → Fields P → Result (Fields P)
    convert_entries converted end = ok converted
    convert_entries converted (field k v fs) =
        dynamodb_attr_to_json v >>= λ w. convert_entries (insert_field k w converted) fs

  unfoldable pub lookup_expression_value : String → Dict String (Value P) → Result (Value P)
  lookup_expression_value token values =
      ok_or validation (get values token) >>= dynamodb_attr_to_json
