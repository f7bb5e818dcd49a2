-- ===== src/DynamoDb/StartKey.antt =====
-- The exclusive start key of a page in query_server/src/dynamodb_protocol.rs: the keys that it has, and
-- the range that it leaves of the sort key.
pub mod Bounds
use Prim.Native.Nat.{Ordering}
use powdrr_engine.Common.{
  String, Bool, false, not, Option, none, some, List, [], ◌∷◌, ◌++◌, if◌then◌else◌, ◌==◌, nat_eq,
  string_eq, option_eq, find, ◌>>=◌ as ◌>>=?◌,
}
use powdrr_engine.Common.Dict
use powdrr_engine.Common.Dict.{Dict, get}
use powdrr_engine.Json.{Floats, Value, Fields, same, is_eq, is_lt, is_gt}
use powdrr_engine.Query.Plan.{ServingPredicate}
use powdrr_engine.DynamoDb.Error.{validation, Result, ok, err, ◌>>=◌, ok_or}
use powdrr_engine.DynamoDb.Filter.{compare_scalars}
use powdrr_engine.DynamoDb.KeyRange.{DynamoDbKeySchemaConfig, key_value, check_count, no_bounds}

-- the sort key of the table, where the query's is another
abbrev pub other_sort_key : DynamoDbKeySchemaConfig → DynamoDbKeySchemaConfig → List String
other_sort_key key_schema table_key_schema = elim table_key_schema.sort_key [
  | none ↦ []
  | some sort_key ↦ if key_schema.sort_key == some sort_key then [] else sort_key ∷ []
]

unfoldable pub ordered_key_fields : DynamoDbKeySchemaConfig → DynamoDbKeySchemaConfig → List String
ordered_key_fields key_schema table_key_schema =
    (key_schema.partition_key
      ∷ elim key_schema.sort_key [ none ↦ [] | some sort_key ↦ sort_key ∷ [] ])
    ++ ((if table_key_schema.partition_key == key_schema.partition_key
          then []
          else table_key_schema.partition_key ∷ [])
        ++ other_sort_key key_schema table_key_schema)

module _ {P : Floats} where
  unfoldable pub parse_key_fields :
      Fields P → Dict String (Value P) → List String → Result (Dict String (Value P))
  parse_key_fields key parsed [] = ok parsed
  parse_key_fields key parsed (name ∷ names) =
      key_value key name >>= λ value. parse_key_fields key (Dict.insert name value parsed) names

  -- its field names are those of `ordered_key_fields`
  unfoldable pub parse_exclusive_start_key_map :
      Fields P → DynamoDbKeySchemaConfig → DynamoDbKeySchemaConfig → Result (Dict String (Value P))
  parse_exclusive_start_key_map key query_key_schema table_key_schema =
      parse_key_fields key [] (ordered_key_fields query_key_schema table_key_schema)
      >>= check_count key

  -- the test of an existing bound; a bound that is not there is not tested
  abbrev pub bound_is : (Ordering → Bool) → Option (Value P) → Value P → Result Bool
  bound_is test none candidate = ok false
  bound_is test (some existing) candidate = compare_scalars existing candidate >>= λ o. ok (test o)

  unfoldable pub tighten_lower_bound :
      ServingPredicate (Value P) → Value P → Result (ServingPredicate (Value P))
  tighten_lower_bound filter candidate =
      bound_is (λ o. not (is_lt o)) filter.gt candidate >>= λ above.
      if above
      then ok filter
      else bound_is is_gt filter.gte candidate >>= λ at_least.
          if at_least
          then ok (record filter { gt = filter.gte; gte = none })
          else ok (record filter { gt = some candidate; gte = none })

  unfoldable pub tighten_upper_bound :
      ServingPredicate (Value P) → Value P → Result (ServingPredicate (Value P))
  tighten_upper_bound filter candidate =
      bound_is (λ o. not (is_gt o)) filter.lt candidate >>= λ below.
      if below
      then ok filter
      else bound_is is_lt filter.lte candidate >>= λ at_most.
          if at_most
          then ok (record filter { lt = filter.lte; lte = none })
          else ok (record filter { lt = some candidate; lte = none })

  -- the filter of the sort key is made to begin after the start value
  unfoldable pub start_after :
      Bool → Value P → ServingPredicate (Value P) → Result (ServingPredicate (Value P))
  start_after ascending start_value filter = elim filter.eq [
    | some eq ↦
        if same eq start_value
        then ok (record filter { eq = none; gt = some start_value; lt = some start_value })
        else ok filter
    | none ↦
        if ascending
        then tighten_lower_bound filter start_value
        else tighten_upper_bound filter start_value
  ]

  -- the first filter of the sort key, or a new one behind all others
  unfoldable pub update_sort_filter :
      String
      → Bool
      → Value P
      → List (ServingPredicate (Value P))
      → Result (List (ServingPredicate (Value P)))
  update_sort_filter sort_key ascending start_value [] = ok (
      (if ascending
        then record (no_bounds sort_key) { gt = some start_value }
        else record (no_bounds sort_key) { lt = some start_value })
      ∷ [])
  update_sort_filter sort_key ascending start_value (filter ∷ filters) =
      let rest = update_sort_filter sort_key ascending start_value filters in
      if filter.field == sort_key
      then (start_after ascending start_value filter >>= λ updated. ok (updated ∷ filters))
      else (rest >>= λ updated. ok (filter ∷ updated))

  unfoldable pub apply_exclusive_start_key :
      List (ServingPredicate (Value P))
      → DynamoDbKeySchemaConfig
      → DynamoDbKeySchemaConfig
      → Bool
      → Fields P
      → Result (List (ServingPredicate (Value P)))
  apply_exclusive_start_key filters key_schema table_key_schema ascending exclusive_start_key =
      elim key_schema.sort_key [
        | none ↦ ok filters
        | some sort_key ↦
            parse_exclusive_start_key_map exclusive_start_key key_schema table_key_schema
            >>= λ parsed_key.
                ok_or validation (get parsed_key key_schema.partition_key) >>= λ partition_value.
                ok_or validation (
                  find (λ (f : ServingPredicate (Value P)). f.field == key_schema.partition_key)
                    filters
                  >>=? λ filter. filter.eq)
                >>= λ partition_filter.
                    if not (same partition_filter partition_value)
                    then err validation
                    else (ok_or validation (get parsed_key sort_key) >>= λ start_value.
                        update_sort_filter sort_key ascending start_value filters)
      ]
