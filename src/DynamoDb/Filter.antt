-- ===== src/DynamoDb/Filter.antt =====
-- Filter expressions of query_server/src/dynamodb_protocol.rs, and how a row is tested by them.
use Prim.Native.Nat.{Ordering}
use Prim.Native.String.{compare}
use powdrr_engine.Common.{
  ℕ, String, Bool, true, false, not, Option, none, some, List, [], ◌∷◌, if◌then◌else◌, ◌==◌,
  string_eq, ◌++◌, option_eq, option_map, unwrap_or, any, is_some, length, ◌>>=◌ as ◌>>=?◌,
}
use powdrr_engine.Common.Int.{pos}
use powdrr_engine.Json.{
  Floats, int, Value, null, boolean, number, string, array, object, Fields, codes, starts_with,
  contains_text, len_utf8, bool_cmp, is_lt, is_gt, get_field, as_str, as_array, as_object, as_f64,
  is_null, count, same,
}
use powdrr_engine.DynamoDb.Error.{validation, internal, Result, ok, err, ◌>>=◌, ok_or, result_or}
use powdrr_engine.DynamoDb.Attributes.{
  binary_marker, string_set_marker, number_set_marker, binary_set_marker, ◌or_else◌,
}

pub data FilterOperand : Type 0 where
  field size : String → FilterOperand

pub data FilterPredicateKind (P : Floats) : Type 0 where
  eq : Value P → FilterPredicateKind P
  one_of : List (Value P) → FilterPredicateKind P
  gt gte lt lte : Value P → FilterPredicateKind P
  between : Value P → Value P → FilterPredicateKind P
  begins_with : String → FilterPredicateKind P
  contains : Value P → FilterPredicateKind P
  attribute_exists attribute_not_exists : FilterPredicateKind P
  attribute_type : String → FilterPredicateKind P

pub record FilterPredicate (P : Floats) : Type 0 where
  pub operand : FilterOperand
  pub kind : FilterPredicateKind P

mutual
  pub data FilterNode (P : Floats) : Type 0 where
    predicate : FilterPredicate P → FilterNode P
    and or : FilterNodes P → FilterNode P
    negation : FilterNode P → FilterNode P

  pub data FilterNodes (P : Floats) : Type 0 where
    nil : FilterNodes P
    cons : FilterNode P → FilterNodes P → FilterNodes P

unfoldable pub field_name : FilterOperand → String
field_name (field name) = name
field_name (size name) = name

module _ {P : Floats} where
  unfoldable pub visible_object_value : Fields P → String → Option (Value P)
  visible_object_value item name =
      get_field item name >>=? λ value. if is_null value then none else some value

  unfoldable pub compare_scalars : Value P → Value P → Result Ordering
  compare_scalars (string left) (string right) = ok (compare left right)
  compare_scalars (number left) (number right) =
      ok_or validation (P.partial_cmp (as_f64 left) (as_f64 right))
  compare_scalars (boolean left) (boolean right) = ok (bool_cmp left right)
  compare_scalars _ _ = err validation

  -- the members under a marker, where it holds an array
  abbrev pub members_under : Fields P → String → Option (List (Value P))
  members_under map marker = get_field map marker >>=? as_array

  unfoldable pub filter_value_size : Value P → Option ℕ
  filter_value_size (string text) = some (len_utf8 (codes text))
  filter_value_size (array values) = option_map length (as_array (array values))
  filter_value_size (object map) =
      option_map (λ values. some (length values)) (members_under map string_set_marker)
      or_else option_map (λ values. some (length values)) (members_under map number_set_marker)
      or_else option_map (λ values. some (length values)) (members_under map binary_set_marker)
      or_else option_map (λ text. some (len_utf8 (codes text)))
          (get_field map binary_marker >>=? as_str)
      or_else some (count map)
  filter_value_size _ = none

  unfoldable pub filter_value_type_name : Value P → Option String
  filter_value_type_name null = some "NULL"
  filter_value_type_name (boolean b) = some "BOOL"
  filter_value_type_name (number n) = some "N"
  filter_value_type_name (string s) = some "S"
  filter_value_type_name (array vs) = some "L"
  filter_value_type_name (object map) =
      if is_some (get_field map binary_marker)
      then some "B"
      else if is_some (get_field map string_set_marker)
      then some "SS"
      else if is_some (get_field map number_set_marker)
      then some "NS"
      else if is_some (get_field map binary_set_marker)
      then some "BS"
      else some "M"

  unfoldable pub filter_value_contains : Value P → Value P → Bool
  filter_value_contains (string text) expected =
      unwrap_or false
        (option_map (λ part. contains_text (codes text) (codes part)) (as_str expected))
  filter_value_contains (array values) expected =
      unwrap_or false
        (option_map (any (λ candidate. same candidate expected)) (as_array (array values)))
  filter_value_contains (object map) expected =
      option_map (any (λ candidate. same candidate expected)) (members_under map string_set_marker)
      or_else option_map (any (λ candidate. same candidate expected))
          (members_under map number_set_marker)
      or_else option_map (any (λ candidate. same candidate expected))
          (members_under map binary_set_marker)
      or_else false
  filter_value_contains _ expected = false

  unfoldable pub filter_operand_value : Fields P → FilterOperand → Option (Value P)
  filter_operand_value item (field name) = visible_object_value item name
  filter_operand_value item (size name) = none

  unfoldable pub filter_operand_scalar : Fields P → FilterOperand → Option (Value P)
  filter_operand_scalar item (field name) = visible_object_value item name
  filter_operand_scalar item (size name) =
      option_map (λ n. number (int (pos n))) (visible_object_value item name >>=? filter_value_size)

  -- `compare_filter_operand` and its two variants, by the test that they make of the ordering
  unfoldable pub compare_filter_operand :
      (Ordering → Bool) → Fields P → FilterOperand → Value P → Result Bool
  compare_filter_operand test item operand expected = elim (filter_operand_scalar item operand) [
    | none ↦ ok false
    | some value ↦ ok (result_or false test (compare_scalars value expected))
  ]

  abbrev pub compare_filter_operand_at_least : Fields P → FilterOperand → Value P → Result Bool
  compare_filter_operand_at_least = compare_filter_operand (λ o. not (is_lt o))

  abbrev pub compare_filter_operand_at_most : Fields P → FilterOperand → Value P → Result Bool
  compare_filter_operand_at_most = compare_filter_operand (λ o. not (is_gt o))

  -- `map(test).unwrap_or(false)` on the operand's value
  abbrev pub test_value : Fields P → FilterOperand → (Value P → Bool) → Result Bool
  test_value item operand test =
      ok (unwrap_or false (option_map test (filter_operand_value item operand)))

  unfoldable pub evaluate_kind : Fields P → FilterOperand → FilterPredicateKind P → Result Bool
  evaluate_kind item operand attribute_exists =
      ok (is_some (visible_object_value item (field_name operand)))
  evaluate_kind item operand attribute_not_exists =
      ok (not (is_some (visible_object_value item (field_name operand))))
  evaluate_kind item operand (attribute_type expected) =
      test_value item operand (λ value. filter_value_type_name value == some expected)
  evaluate_kind item operand (contains expected) =
      test_value item operand (λ value. filter_value_contains value expected)
  evaluate_kind item operand (begins_with prefix) = test_value item operand (λ value.
      unwrap_or false (option_map (λ text. starts_with (codes text) (codes prefix)) (as_str value)))
  evaluate_kind item operand (eq expected) = test_value item operand (λ value. same value expected)
  evaluate_kind item operand (one_of expected_values) =
      test_value item operand (λ value. any (λ expected. same expected value) expected_values)
  evaluate_kind item operand (gt expected) = compare_filter_operand is_gt item operand expected
  evaluate_kind item operand (gte expected) = compare_filter_operand_at_least item operand expected
  evaluate_kind item operand (lt expected) = compare_filter_operand is_lt item operand expected
  evaluate_kind item operand (lte expected) = compare_filter_operand_at_most item operand expected
  evaluate_kind item operand (between start end) =
      compare_filter_operand_at_least item operand start >>= λ above.
      if above then compare_filter_operand_at_most item operand end else ok false

  unfoldable pub evaluate_filter_predicate : Fields P → FilterPredicate P → Result Bool
  evaluate_filter_predicate item p = evaluate_kind item p.operand p.kind

  unfoldable mutual
    pub evaluate_filter_node : Fields P → FilterNode P → Result Bool
    evaluate_filter_node item (predicate p) = evaluate_filter_predicate item p
    evaluate_filter_node item (and nodes) = evaluate_and item nodes
    evaluate_filter_node item (or nodes) = evaluate_or item nodes
    evaluate_filter_node item (negation node) =
        evaluate_filter_node item node >>= λ holds. ok (not holds)

    -- the loops over the nodes, with their early returns
    pub evaluate_and : Fields P → FilterNodes P → Result Bool
    evaluate_and item nil = ok true
    evaluate_and item (cons node nodes) =
        let rest = evaluate_and item nodes in
        evaluate_filter_node item node >>= λ holds. if holds then rest else ok false

    pub evaluate_or : Fields P → FilterNodes P → Result Bool
    evaluate_or item nil = ok false
    evaluate_or item (cons node nodes) =
        let rest = evaluate_or item nodes in
        evaluate_filter_node item node >>= λ holds. if holds then ok true else rest

  unfoldable pub row_matches_filter_expression : Value P → FilterNode P → Result Bool
  row_matches_filter_expression row expression =
      ok_or internal (as_object row) >>= λ item. evaluate_filter_node item expression

  -- `filter_map(...).collect()`: the first error is the result
  unfoldable pub filter_rows : List (Value P) → FilterNode P → Result (List (Value P))
  filter_rows [] expression = ok []
  filter_rows (row ∷ rows) expression =
      let rest = filter_rows rows expression in
      row_matches_filter_expression row expression >>= λ matches.
      rest >>= λ kept. ok (if matches then row ∷ kept else kept)

  unfoldable pub apply_filter_expression :
      List (Value P) → Option (FilterNode P) → Result (List (Value P))
  apply_filter_expression rows none = ok rows
  apply_filter_expression rows (some expression) = filter_rows rows expression

-- `append_selected_field` and `collect_filter_fields`
unfoldable pub append_selected_field : List String → String → List String
append_selected_field fields name =
    if any (λ (f : String). f == name) fields then fields else (fields ++ (name ∷ []))

unfoldable mutual
  pub collect_filter_fields : {P : Floats} → FilterNode P → List String → List String
  collect_filter_fields (predicate p) fields = append_selected_field fields (field_name p.operand)
  collect_filter_fields (and nodes) fields = collect_all_fields nodes fields
  collect_filter_fields (or nodes) fields = collect_all_fields nodes fields
  collect_filter_fields (negation node) fields = collect_filter_fields node fields

  pub collect_all_fields : {P : Floats} → FilterNodes P → List String → List String
  collect_all_fields nil fields = fields
  collect_all_fields (cons node nodes) fields =
      collect_all_fields nodes (collect_filter_fields node fields)
