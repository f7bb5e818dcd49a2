-- ===== src/DynamoDb/KeyRange/Rows.antt =====
-- The rows of a table and the row of a key, `split_rows_by_key` of
-- query_server/src/dynamodb_protocol.rs.
use powdrr_engine.Common.{
  String, ◌≡◌, sym, ap, Bool, true, false, not, ◌&&◌, Option, none, some, List, [], ◌∷◌, ◌++◌,
  arith, all, find, retain, Bool-cases, inl, inr, option_map, unwrap_or, string_eq, option_eq,
}
use mathlib.Core.List.{append-nil, append_assoc}
use powdrr_engine.Common.Dict.{Dict, get}
use powdrr_engine.Json.{Floats, Value, object, get_field}
use powdrr_engine.DynamoDb.Error.{ok}
use powdrr_engine.DynamoDb.Evaluate.{is_object}
use powdrr_engine.DynamoDb.KeyRange.{
  DynamoDbKeySchemaConfig, option_same, row_matches_key, split_rows, split_rows_by_key,
}

module _ {P : Floats} (key_schema : DynamoDbKeySchemaConfig) (key : Dict String (Value P)) where
  -- the row has the values of the key under the partition key and, where there is one, the sort key
  abbrev pub has_key : Value P → Bool
  has_key (object item) =
      option_same (get_field item key_schema.partition_key) (get key key_schema.partition_key)
      && unwrap_or true (
          option_map (λ name. option_same (get_field item name) (get key name)) key_schema.sort_key)
  has_key row = false

  row_matches_key_lem :
      (row : Value P) → is_object row ≡ true → row_matches_key row key_schema key ≡ ok (has_key row)
  unfolding row_matches_key
  row_matches_key_lem (object item) h = ground arith
  row_matches_key_lem row h = ground arith

  abbrev first_of : Option (Value P) → Option (Value P) → Option (Value P)
  first_of (some row) next = some row
  first_of none next = next

  split_rows_lem :
      (existing : Option (Value P)) (retained rows : List (Value P))
      → all is_object rows ≡ true
      → split_rows existing retained rows key_schema key
        ≡ ok (
          first_of existing (find has_key rows),
          retained ++ retain (λ row. not (has_key row)) rows,
        )
  unfolding split_rows
  split_rows_lem none retained [] h = ap (λ xs. ok (none, xs)) (sym (append-nil retained))
  split_rows_lem (some first) retained [] h =
      ap (λ xs. ok (some first, xs)) (sym (append-nil retained))
  split_rows_lem none retained (row ∷ rows) h = elim (Bool-cases (has_key row)) [
    | inl e ↦
        rw (row_matches_key_lem row (ground arith), e)
          (split_rows_lem (some row) retained rows (ground arith))
    | inr e ↦
        rw (row_matches_key_lem row (ground arith), e)
          (rw (← append_assoc retained (row ∷ []) (retain (λ r. not (has_key r)) rows))
            (split_rows_lem none (retained ++ (row ∷ [])) rows (ground arith)))
  ]
  split_rows_lem (some first) retained (row ∷ rows) h = elim (Bool-cases (has_key row)) [
    | inl e ↦
        rw (row_matches_key_lem row (ground arith), e)
          (split_rows_lem (some first) retained rows (ground arith))
    | inr e ↦
        rw (row_matches_key_lem row (ground arith), e)
          (rw (← append_assoc retained (row ∷ []) (retain (λ r. not (has_key r)) rows))
            (split_rows_lem (some first) (retained ++ (row ∷ [])) rows (ground arith)))
  ]

  -- Where every row is an object, the rows are split into the first row that has the key, if there is
  -- one, and all the rows that do not have it, in their order.
  pub split_rows_by_key_lem :
      (rows : List (Value P))
      → all is_object rows ≡ true
      → split_rows_by_key rows key_schema key
        ≡ ok (find has_key rows, retain (λ row. not (has_key row)) rows)
  unfolding split_rows_by_key
  split_rows_by_key_lem rows h = split_rows_lem none [] rows h
