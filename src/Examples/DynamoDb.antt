-- ===== src/Examples/DynamoDb.antt =====
-- Runs of query_server/src/dynamodb_protocol.rs on small inputs. The floats are the integers.
use powdrr_engine.Common.{
  ℕ, ◌≡◌, refl, String, string_eq, option_eq, true, false, ◌&&◌, none, some, List, [], ◌∷◌,
  if◌then◌else◌, all, retain, is_some,
}
use powdrr_engine.Common.Dict.{Dict, get}
use powdrr_engine.Common.Int.{◌+ℤ◌}
use powdrr_engine.Json.{
  Value, string, object, Fields, end, field, codes, starts_with, get_field, insert_field,
  remove_field,
}
use powdrr_engine.Query.Path.{compare_scalar_values, is_greater}
use powdrr_engine.Query.Plan.{ServingPredicate, read_predicate, query_predicate}
use powdrr_engine.Query.Statistics.{value_matches}
use powdrr_engine.DynamoDb.Error.{ok, err, internal, validation}
use powdrr_engine.DynamoDb.Attributes.{dynamodb_attr_to_json, lookup_expression_value}
use powdrr_engine.DynamoDb.Filter.{
  FilterOperand, FilterPredicateKind, FilterNode, FilterNodes, predicate, and, negation, nil, cons,
  compare_scalars, visible_object_value, apply_filter_expression,
}
use powdrr_engine.DynamoDb.Evaluate.{is_object, row_holds, apply_filter_expression_lem}
use powdrr_engine.DynamoDb.KeyRange.{DynamoDbKeySchemaConfig, begins_with_range_predicate}
use powdrr_engine.DynamoDb.KeyRange.Prefix.{begins_with_range_predicate_lem}
use powdrr_engine.DynamoDb.StartKey.{tighten_lower_bound}
use powdrr_engine.DynamoDb.StartKey.Bounds.{
  serves, tighten_lower_bound_lem, tighten_lower_bound-gte,
}
use powdrr_engine.DynamoDb.Update.{
  UpdateAction, ParsedUpdateExpression, apply_update_expression, apply_update_actions,
  apply_update_action, apply_add_action, add_numeric_values, wrap_i64,
}
use powdrr_engine.DynamoDb.Update.Actions.{value_after_all, value_before}
use powdrr_engine.DynamoDb.Update.Applied.{apply_update_expression_lem}
use powdrr_engine.DynamoDb.Tokens.{eq_ignore_ascii_case}
use powdrr_engine.DynamoDb.Parser.Grammar.{
  equal, less, compared, starts, operand_test, Disjunction, last, either, only, both, negated, test,
  disjunction_tokens, conjunction_tokens, unary_tokens, is_plain, conjunction_is_plain,
  unary_is_plain, one_of_all, disjunction_means, conjunction_means, unary_means,
}
use powdrr_engine.DynamoDb.Scalars.{of_chars}
use powdrr_engine.DynamoDb.Tokenizer.Written.{written}
use powdrr_engine.DynamoDb.Expression.{with_fields, parse_filter_expression}
use powdrr_engine.DynamoDb.Expression.Read.{
  parse_filter_expression-written, parse_filter_expression-ends,
}
use powdrr_engine.Examples.Queries.{whole, whole_number, whole-IsOrder}

abbrev pub text : String → Value whole
text s = string s

-- {"S": s}
abbrev pub attribute : String → Value whole
attribute s = object (field "S" (string s) end)

abbrev values : Dict String (Value whole)
values = (":a", attribute "ab") ∷ (":b", attribute "cd") ∷ []

-- a string in the first phrase, and NOT of a comparison in the second
abbrev phrase : Disjunction
phrase = either (only (test (starts "name" ":a"))) (
    last (
      both (negated (test (operand_test (FilterOperand.field "city") (compared equal ":b"))))
        (only (test (operand_test (FilterOperand.size "name") (compared less ":b"))))))

abbrev phrase_nodes : FilterNodes whole
phrase_nodes =
    cons
      (predicate (record {
        operand = FilterOperand.field "name";
        kind = FilterPredicateKind.begins_with "ab";
      }))
      (cons
        (and (
          cons
            (negation (
              predicate (record {
                operand = FilterOperand.field "city";
                kind = FilterPredicateKind.eq (text "cd");
              })))
            (cons
              (predicate (record {
                operand = FilterOperand.size "name";
                kind = FilterPredicateKind.lt (text "cd");
              }))
              nil)))
        nil)

parse_filter_expression-written_example :
    parse_filter_expression (some (of_chars (written (disjunction_tokens phrase [])))) (some values)
    ≡ some (ok (with_fields (one_of_all values phrase_nodes)))
unfolding is_plain conjunction_is_plain unary_is_plain disjunction_means conjunction_means
    unary_means lookup_expression_value dynamodb_attr_to_json eq_ignore_ascii_case get get_field
    disjunction_tokens conjunction_tokens unary_tokens
parse_filter_expression-written_example =
    parse_filter_expression-written values phrase phrase_nodes refl refl refl

phrase_text :
    of_chars (written (disjunction_tokens phrase []))
    ≡ "begins_with ( name , :a ) OR NOT city = :b AND size ( name ) < :b "
unfolding disjunction_tokens conjunction_tokens unary_tokens
phrase_text = refl

parse_filter_expression-ends_example :
    is_some (parse_filter_expression (some "(NOT size") (some values)) ≡ true
parse_filter_expression-ends_example = parse_filter_expression-ends (some "(NOT size") (some values)

-- without values no expression is read
no_values :
    parse_filter_expression {P = whole} (some "attribute_exists(a)") none ≡ some (err validation)
unfolding parse_filter_expression
no_values = refl

abbrev pub item : Fields whole
item = field "id" (text "k1") (field "age" (whole_number 30) end)

abbrev pub rows : List (Value whole)
rows = object item ∷ object (field "id" (text "k2") (field "age" (whole_number 20) end)) ∷ []

abbrev older : FilterNode whole
older = predicate (record {
  operand = FilterOperand.field "age";
  kind = FilterPredicateKind.gt (whole_number 25);
})

apply_filter_expression_lem_example :
    (apply_filter_expression rows (some older)
      ≡ (if all is_object rows then ok (retain (row_holds older) rows) else err internal))
    × (apply_filter_expression rows none ≡ ok rows)
apply_filter_expression_lem_example = apply_filter_expression_lem rows older

-- "k1" has two bytes
begins_with_range_predicate_lem_example :
    (p : ServingPredicate (Value whole)) × (begins_with_range_predicate "name" ":a" values ≡ ok p)
    × (value_matches (text "abc") (query_predicate (read_predicate p))
        ≡ starts_with (codes "abc") (codes "ab"))
unfolding lookup_expression_value dynamodb_attr_to_json get get_field
begins_with_range_predicate_lem_example =
    begins_with_range_predicate_lem "name" ":a" values "ab" "abc" refl

abbrev at_least : ℕ → ServingPredicate (Value whole)
at_least n = record {
  field = "age";
  eq = none;
  in_values = none;
  gt = none;
  gte = some (whole_number n);
  lt = none;
  lte = none;
}

abbrev above : ℕ → ServingPredicate (Value whole)
above n = record (at_least n) { gt = some (whole_number n); gte = none }

tighten_lower_bound_lem_example : serves (above 20) (whole_number 30) ≡ (
    serves (at_least 10) (whole_number 30)
    && is_greater (compare_scalar_values (whole_number 30) (whole_number 20)))
unfolding tighten_lower_bound compare_scalars
tighten_lower_bound_lem_example =
    tighten_lower_bound_lem whole-IsOrder (at_least 10) (above 20) (whole_number 20)
      (whole_number 30) refl refl refl refl

tighten_lower_bound-gte_example :
    (updated : ServingPredicate (Value whole)) × (tighten_lower_bound
        (at_least 40)
        (whole_number 20)
      ≡ ok updated)
    × (serves updated (whole_number 40) ≡ false)
unfolding value_matches compare_scalar_values query_predicate read_predicate
tighten_lower_bound-gte_example =
    tighten_lower_bound-gte whole-IsOrder (at_least 40) (whole_number 20) (whole_number 40) refl
      refl refl refl refl refl

abbrev pub key_schema : DynamoDbKeySchemaConfig
key_schema = record { partition_key = "id"; sort_key = none }

abbrev pub key : Dict String (Value whole)
key = ("id", text "k1") ∷ []

-- `ADD age 5 REMOVE city`
abbrev update : ParsedUpdateExpression whole
update = record {
  actions = UpdateAction.add "age" (whole_number 5) ∷ UpdateAction.remove "city" ∷ [];
  touched_fields = "age" ∷ "city" ∷ [];
}

abbrev updated_item : Fields whole
updated_item = field "id" (text "k1") (field "age" (whole_number 35) end)

apply_update_expression_lem_example :
    value_after_all "age" (value_before (some (object item)) key_schema key "age") update.actions
    ≡ ok (get_field updated_item "age")
unfolding apply_update_expression apply_update_actions apply_update_action apply_add_action
    add_numeric_values wrap_i64 visible_object_value get get_field insert_field remove_field ◌+ℤ◌
apply_update_expression_lem_example =
    apply_update_expression_lem (some (object item)) key_schema key update updated_item refl "age"
