-- ===== src/DynamoDb/KeyRange.antt =====
-- Keys and key ranges of queries in query_server/src/dynamodb_protocol.rs: key maps, the predicates of
-- a sort key, and the rows of a key.
pub mod Prefix
pub mod Rows
use Prim.Native.Char.{Char}
use powdrr_engine.Common.{
  String, Bool, true, false, not, Option, none, some, List, [], ◌∷◌, ◌++◌, if◌then◌else◌, ◌==◌,
  nat_eq, string_eq, option_eq, option_map, length, is_some,
}
use powdrr_engine.Common.Dict
use powdrr_engine.Common.Dict.{Dict, get}
use powdrr_engine.Json.{
  Floats, Value, string, Fields, end, count, get_field, insert_field, as_str, as_object, same,
  is_eq,
}
use powdrr_engine.Query.Plan.{ServingPredicate}
use powdrr_engine.DynamoDb.Error.{validation, internal, Result, ok, err, ◌>>=◌, ok_or}
use powdrr_engine.DynamoDb.Attributes.{dynamodb_attr_to_json, lookup_expression_value}
use powdrr_engine.DynamoDb.Scalars.{next_scalar, chars, of_chars}
use mathlib.Core.List.{reverse}

pub record DynamoDbKeySchemaConfig : Type 0 where
  pub partition_key : String
  pub sort_key : Option String

-- `chars.pop()` until the last character has a next one, on the reversed characters
unfoldable pub pop_to_next : List Char → Option (List Char)
pop_to_next [] = none
pop_to_next (last ∷ rest) =
    let popped = pop_to_next rest in
    elim (next_scalar last) [ none ↦ popped | some next ↦ some (next ∷ rest) ]

unfoldable pub next_string_prefix_upper_bound : String → Option String
next_string_prefix_upper_bound prefix =
    option_map (λ cs. of_chars (reverse cs)) (pop_to_next (reverse (chars prefix)))

-- a predicate on the field that asks for nothing yet
abbrev pub no_bounds : {V : Type 0} → String → ServingPredicate V
no_bounds name = record {
  field = name;
  eq = none;
  in_values = none;
  gt = none;
  gte = none;
  lt = none;
  lte = none;
}

module _ {P : Floats} where
  unfoldable pub begins_with_range_predicate :
      String → String → Dict String (Value P) → Result (ServingPredicate (Value P))
  begins_with_range_predicate name value_token values =
      lookup_expression_value value_token values >>= λ value.
      ok_or validation (as_str value) >>= λ prefix. ok (record (no_bounds name) {
        gte = some (string prefix);
        lt = option_map string (next_string_prefix_upper_bound prefix);
      })

  unfoldable pub key_to_predicates :
      DynamoDbKeySchemaConfig → Dict String (Value P) → List (ServingPredicate (Value P))
  key_to_predicates key_schema key =
      record (no_bounds key_schema.partition_key) { eq = get key key_schema.partition_key }
      ∷ elim key_schema.sort_key [
        | none ↦ []
        | some sort_key ↦ record (no_bounds sort_key) { eq = get key sort_key } ∷ []
      ]

  -- the attribute of a key, converted
  abbrev pub key_value : Fields P → String → Result (Value P)
  key_value key name = ok_or validation (get_field key name) >>= dynamodb_attr_to_json

  abbrev pub check_count : Fields P → Dict String (Value P) → Result (Dict String (Value P))
  check_count key parsed = if count key == length parsed then ok parsed else err validation

  unfoldable pub parse_key_map : Fields P → DynamoDbKeySchemaConfig → Result (Dict String (Value P))
  parse_key_map key key_schema = key_value key key_schema.partition_key >>= λ partition.
      elim key_schema.sort_key [
        | none ↦ check_count key (Dict.insert key_schema.partition_key partition [])
        | some sort_key ↦ key_value key sort_key >>= λ sort.
            check_count key
              (Dict.insert sort_key sort (Dict.insert key_schema.partition_key partition []))
      ]

  unfoldable pub copy_key_attr : Fields P → Fields P → String → Result (Fields P)
  copy_key_attr item target name =
      ok_or validation (get_field item name) >>= λ value. ok (insert_field name value target)

  unfoldable pub parse_item_key_map :
      Fields P → DynamoDbKeySchemaConfig → Result (Dict String (Value P))
  parse_item_key_map item key_schema = copy_key_attr item end key_schema.partition_key >>= λ key.
      elim key_schema.sort_key [
        | none ↦ parse_key_map key key_schema
        | some sort_key ↦ copy_key_attr item key sort_key >>= λ both. parse_key_map both key_schema
      ]

  abbrev pub option_same : Option (Value P) → Option (Value P) → Bool
  option_same none none = true
  option_same (some a) (some b) = same a b
  option_same _ _ = false

  unfoldable pub row_matches_key :
      Value P → DynamoDbKeySchemaConfig → Dict String (Value P) → Result Bool
  row_matches_key row key_schema key = ok_or internal (as_object row) >>= λ item.
      if not
        (option_same (get_field item key_schema.partition_key) (get key key_schema.partition_key))
      then ok false
      else elim key_schema.sort_key [
        | none ↦ ok true
        | some sort_key ↦ ok (option_same (get_field item sort_key) (get key sort_key))
      ]

  -- the loop over the rows: the first row of the key, and the rows of other keys
  unfoldable pub split_rows :
      Option (Value P)
      → List (Value P)
      → List (Value P)
      → DynamoDbKeySchemaConfig
      → Dict String (Value P)
      → Result (Option (Value P) × List (Value P))
  split_rows existing retained [] key_schema key = ok (existing, retained)
  split_rows existing retained (row ∷ rows) key_schema key =
      row_matches_key row key_schema key >>= λ matches.
      split_rows (if matches then (if is_some existing then existing else some row) else existing)
        (if matches then retained else retained ++ (row ∷ [])) rows key_schema key

  unfoldable pub split_rows_by_key :
      List (Value P)
      → DynamoDbKeySchemaConfig
      → Dict String (Value P)
      → Result (Option (Value P) × List (Value P))
  split_rows_by_key rows key_schema key = split_rows none [] rows key_schema key
