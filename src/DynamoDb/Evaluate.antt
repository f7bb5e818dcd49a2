-- ===== src/DynamoDb/Evaluate.antt =====
-- Filter expressions of query_server/src/dynamodb_protocol.rs as Boolean formulas over a row.
use Prim.Native.Nat.{Ordering}
use powdrr_engine.Common.{
  String, ◌≡◌, refl, Bool, true, false, ◌&&◌, ◌||◌, not, none, some, List, [], ◌∷◌, arith,
  if◌then◌else◌, string_eq, option_eq, option_map, unwrap_or, all, retain, ◌==◌, ◌>>=◌, any,
  is_some, Option-cases, inl, inr,
}
use powdrr_engine.Json.{
  Floats, Value, object, Fields, same, as_str, codes, starts_with, is_lt, is_gt, as_object,
}
use powdrr_engine.DynamoDb.Error.{internal, ok, err, result_or}
use powdrr_engine.DynamoDb.Filter.{
  FilterOperand, field, size, FilterPredicateKind, attribute_exists, attribute_not_exists,
  attribute_type, contains, begins_with, field_name, visible_object_value, filter_value_type_name,
  filter_value_contains, eq, one_of, gt, gte, lt, lte, between, FilterNode, predicate, and, or,
  negation, FilterNodes, nil, cons, compare_scalars, filter_operand_value, filter_operand_scalar,
  compare_filter_operand, evaluate_kind, evaluate_filter_predicate, evaluate_filter_node,
  evaluate_and, evaluate_or, row_matches_filter_expression, filter_rows, apply_filter_expression,
}

module _ {P : Floats} where
  -- the operand has a scalar that compares so with the expected value
  abbrev pub compares : (Ordering → Bool) → Fields P → FilterOperand → Value P → Bool
  compares test item operand expected = elim (filter_operand_scalar item operand) [
    | none ↦ false
    | some value ↦ result_or false test (compare_scalars value expected)
  ]

  -- the row shows an attribute of the operand's name
  abbrev pub has_attribute : Fields P → FilterOperand → Bool
  has_attribute item operand = is_some (visible_object_value item (field_name operand))

  -- the attribute is there, and is the same as one of the values
  abbrev pub is_among : Fields P → String → List (Value P) → Bool
  is_among item name [] = false
  is_among item name (expected ∷ expected_values) =
      elim (visible_object_value item name) [ none ↦ false | some value ↦ same expected value ]
      || is_among item name expected_values

  -- What a predicate says of a row. Of `size(name)` only comparisons and the two tests of an attribute's
  -- existence can hold: `filter_operand_value` gives the others no value to test.
  abbrev pub kind_holds : Fields P → FilterOperand → FilterPredicateKind P → Bool
  kind_holds item operand (gt expected) = compares is_gt item operand expected
  kind_holds item operand (gte expected) = compares (λ o. not (is_lt o)) item operand expected
  kind_holds item operand (lt expected) = compares is_lt item operand expected
  kind_holds item operand (lte expected) = compares (λ o. not (is_gt o)) item operand expected
  kind_holds item operand (between start end) =
      compares (λ o. not (is_lt o)) item operand start
      && compares (λ o. not (is_gt o)) item operand end
  kind_holds item operand attribute_exists = has_attribute item operand
  kind_holds item operand attribute_not_exists = not (has_attribute item operand)
  kind_holds item (field name) (attribute_type expected) = elim (visible_object_value item name) [
    | none ↦ false
    | some value ↦ filter_value_type_name value == some expected
  ]
  kind_holds item (field name) (contains expected) = elim (visible_object_value item name) [
    | none ↦ false
    | some value ↦ filter_value_contains value expected
  ]
  kind_holds item (field name) (begins_with prefix) =
      elim (visible_object_value item name >>= as_str) [
        | none ↦ false
        | some text ↦ starts_with (codes text) (codes prefix)
      ]
  kind_holds item (field name) (eq expected) = elim (visible_object_value item name) [
    | none ↦ false
    | some value ↦ same value expected
  ]
  kind_holds item (field name) (one_of expected_values) = is_among item name expected_values
  kind_holds item (size name) kind = false

  -- The meaning of an expression: conjunctions, disjunctions and negations of its predicates.
  unfoldable mutual
    pub node_holds : Fields P → FilterNode P → Bool
    node_holds item (predicate p) = kind_holds item p.operand p.kind
    node_holds item (and nodes) = all_hold item nodes
    node_holds item (or nodes) = any_holds item nodes
    node_holds item (negation node) = not (node_holds item node)

    pub all_hold : Fields P → FilterNodes P → Bool
    all_hold item nil = true
    all_hold item (cons node nodes) = node_holds item node && all_hold item nodes

    pub any_holds : Fields P → FilterNodes P → Bool
    any_holds item nil = false
    any_holds item (cons node nodes) = node_holds item node || any_holds item nodes

  one_of-is_among :
      (item : Fields P) (name : String) (expected_values : List (Value P))
      → unwrap_or false (
          option_map
            (λ value. any (λ expected. same expected value) expected_values)
            (visible_object_value item name))
        ≡ is_among item name expected_values
  one_of-is_among item name [] = ground arith
  one_of-is_among item name (expected ∷ expected_values) =
      ground (arith, one_of-is_among item name expected_values)

  compare-compares :
      (test : Ordering → Bool) (item : Fields P) (operand : FilterOperand) (expected : Value P)
      → compare_filter_operand test item operand expected ≡ ok (compares test item operand expected)
  unfolding compare_filter_operand
  compare-compares test item operand expected =
      elim (Option-cases (filter_operand_scalar item operand)) [
        | inl e ↦ rw (compare_filter_operand, compares, e) refl
        | inr (value, e) ↦ rw (compare_filter_operand, compares, e) refl
      ]

  evaluate_kind_lem :
      (item : Fields P) (operand : FilterOperand) (kind : FilterPredicateKind P)
      → evaluate_kind item operand kind ≡ ok (kind_holds item operand kind)
  unfolding evaluate_kind filter_operand_value
  evaluate_kind_lem item operand (gt expected) = compare-compares is_gt item operand expected
  evaluate_kind_lem item operand (gte expected) =
      compare-compares (λ o. not (is_lt o)) item operand expected
  evaluate_kind_lem item operand (lt expected) = compare-compares is_lt item operand expected
  evaluate_kind_lem item operand (lte expected) =
      compare-compares (λ o. not (is_gt o)) item operand expected
  evaluate_kind_lem item operand (between start end) =
      rw
        (
          compare-compares (λ o. not (is_lt o)) item operand start,
          compare-compares (λ o. not (is_gt o)) item operand end,
        )
        (ground arith)
  evaluate_kind_lem item operand attribute_exists = refl
  evaluate_kind_lem item operand attribute_not_exists = refl
  evaluate_kind_lem item (field name) (attribute_type expected) = ground arith
  evaluate_kind_lem item (field name) (contains expected) = ground arith
  evaluate_kind_lem item (field name) (begins_with prefix) = ground arith
  evaluate_kind_lem item (field name) (eq expected) = ground arith
  evaluate_kind_lem item (field name) (one_of expected_values) =
      rw (one_of-is_among item name expected_values) refl
  evaluate_kind_lem item (size name) (attribute_type expected) = refl
  evaluate_kind_lem item (size name) (contains expected) = refl
  evaluate_kind_lem item (size name) (begins_with prefix) = refl
  evaluate_kind_lem item (size name) (eq expected) = refl
  evaluate_kind_lem item (size name) (one_of expected_values) = refl

  mutual
    unfolding evaluate_filter_node evaluate_filter_predicate node_holds

    evaluate-holds :
        (item : Fields P) (node : FilterNode P)
        → evaluate_filter_node item node ≡ ok (node_holds item node)
    evaluate-holds item (predicate p) = evaluate_kind_lem item p.operand p.kind
    evaluate-holds item (and nodes) = evaluate_and-hold item nodes
    evaluate-holds item (or nodes) = evaluate_or-holds item nodes
    evaluate-holds item (negation node) = rw (evaluate-holds item node) refl

    evaluate_and-hold :
        (item : Fields P) (nodes : FilterNodes P)
        → evaluate_and item nodes ≡ ok (all_hold item nodes)
    evaluate_and-hold item nil = refl
    evaluate_and-hold item (cons node nodes) =
        rw (evaluate-holds item node, evaluate_and-hold item nodes) (ground arith)

    evaluate_or-holds :
        (item : Fields P) (nodes : FilterNodes P)
        → evaluate_or item nodes ≡ ok (any_holds item nodes)
    evaluate_or-holds item nil = refl
    evaluate_or-holds item (cons node nodes) =
        rw (evaluate-holds item node, evaluate_or-holds item nodes) (ground arith)

  -- the row is an object in which the expression holds
  abbrev pub row_holds : FilterNode P → Value P → Bool
  row_holds expression row =
      unwrap_or false (option_map (λ item. node_holds item expression) (as_object row))

  abbrev pub is_object : Value P → Bool
  is_object row = is_some (as_object row)

  row_matches_lem :
      (row : Value P) (expression : FilterNode P)
      → row_matches_filter_expression row expression
        ≡ (if is_object row then ok (row_holds expression row) else err internal)
  unfolding row_matches_filter_expression
  row_matches_lem (object item) expression = evaluate-holds item expression
  row_matches_lem row expression = refl

  filter_rows_lem :
      (rows : List (Value P)) (expression : FilterNode P)
      → filter_rows rows expression
        ≡ (if all is_object rows then ok (retain (row_holds expression) rows) else err internal)
  unfolding filter_rows
  filter_rows_lem [] expression = refl
  filter_rows_lem (row ∷ rows) expression =
      rw (row_matches_lem row expression, filter_rows_lem rows expression) (ground arith)

  -- A filter keeps the rows in which its expression holds, in their order, where every row is an
  -- object; with a row that is none it fails with an internal error, and there is no other failure.
  -- Without a filter all rows are kept. What holds of `size(name)` are comparisons other than `=` and IN,
  -- BETWEEN, and the tests of the attribute's existence: `=`, IN, `contains`, `begins_with` and
  -- `attribute_type` never hold of it.
  pub apply_filter_expression_lem :
      (rows : List (Value P)) (expression : FilterNode P)
      → (apply_filter_expression rows (some expression)
          ≡ (if all is_object rows then ok (retain (row_holds expression) rows) else err internal))
        × (apply_filter_expression rows none ≡ ok rows)
  unfolding apply_filter_expression
  apply_filter_expression_lem rows expression = (filter_rows_lem rows expression, refl)

  -- Where the size of an attribute compares as equal with a value, `size(name)` lies between the
  -- value and itself, but the predicates `eq` and `one_of` do not hold of it.
  pub evaluate_kind-size :
      (item : Fields P) (name : String) (expected : Value P) (n : Value P)
      → filter_operand_scalar item (size name) ≡ some n
      → compare_scalars n expected ≡ ok Ordering.eq
      → (evaluate_kind item (size name) (between expected expected) ≡ ok true)
        × (evaluate_kind item (size name) (eq expected) ≡ ok false)
        × (evaluate_kind item (size name) (one_of (expected ∷ [])) ≡ ok false)
  unfolding filter_operand_value evaluate_kind
  evaluate_kind-size item name expected n e c = (
    rw
        (
          compare-compares (λ o. not (is_lt o)) item (size name) expected,
          compare-compares (λ o. not (is_gt o)) item (size name) expected,
          compares,
          e,
          c,
        )
        refl,
    refl,
    refl,
  )
