-- ===== src/DynamoDb/Parser/PredicatesEnd.antt =====
-- The tests of `FilterParser` of query_server/src/dynamodb_protocol.rs leave fewer tokens than they are
-- given.
use powdrr_engine.Common.{
  ℕ, suc, ◌<◌, ◌≡◌, refl, String, true, Option, none, some, List, [], ◌∷◌, nat_eq, length, arith,
  Option-cases, inl, inr,
}
use powdrr_engine.Common.Dict.{Dict}
use powdrr_engine.Json.{Floats, Value, as_str}
use powdrr_engine.DynamoDb.Error.{validation}
use powdrr_engine.DynamoDb.Filter.{FilterOperand, FilterPredicateKind}
use powdrr_engine.DynamoDb.Tokens.{
  FilterToken, l_paren, r_paren, and_token, between, in_token, Parsed, parsed, failed, ◌>>=◌,
  consume_token, expect_token, parse_single_field_function, parse_filter_operand,
}
use powdrr_engine.DynamoDb.Parser.{
  parse_value_token, parse_field_value_function, parse_more_values, tests, of_text, comparison_of,
  parse_comparison, parse_between, parse_in, parse_operand_test, parse_predicate,
}
use powdrr_engine.DynamoDb.Parser.Consumed.{
  ends->>=, ends_more, leaves, consume_token-leaves, ends_cases, IsEnding, ends_then,
  expect_token-ends, parse_single_field_function-ends, parse_filter_operand-ends,
  parse_value_token-ends, parse_field_value_function-ends, parse_more_values-ends, ends,
}

module _ {P : Floats} (values : Dict String (Value P)) where
  parse_comparison-ends : (operand : FilterOperand) → IsEnding (parse_comparison values operand)
  unfolding parse_comparison
  parse_comparison-ends operand [] = refl
  parse_comparison-ends operand (token ∷ tokens) =
      ends_cases (suc (length tokens)) (token ∷ tokens) (λ _. tokens) (comparison_of values token)
        (failed validation)
        (λ kind. parse_value_token values tokens >>= λ value.
          parsed (tests values operand (kind value.0)) value.1)
        (compared (comparison_of values token)) refl
        (λ kind h.
          ends_then (suc (length tokens)) (parse_value_token values) tokens
            (λ value. parsed (tests values operand (kind value.0)) value.1)
            (parse_value_token-ends values) (omega arith) (λ value rest l. ground arith))
    where
      compared : {A : Type 0} (o : Option A) → leaves (token ∷ tokens) (λ _. tokens) o ≡ true
      compared none = refl
      compared (some a) = ground arith

  parse_between-ends : (operand : FilterOperand) → IsEnding (parse_between values operand)
  parse_between-ends operand tokens =
      ends_then (length tokens) (parse_value_token values) tokens _ (parse_value_token-ends values)
        (omega arith)
        (λ start a h.
          ends_then (length tokens) (expect_token and_token) a _ (expect_token-ends and_token)
            (omega arith)
            (λ _ b k.
              ends_then (length tokens) (parse_value_token values) b
                (λ end.
                  parsed (tests values operand (FilterPredicateKind.between start end.0)) end.1)
                (parse_value_token-ends values) (omega arith) (λ stop c l. ground arith)))

  parse_in-ends : (operand : FilterOperand) → IsEnding (parse_in values operand)
  parse_in-ends operand tokens =
      ends_then (length tokens) (expect_token l_paren) tokens _ (expect_token-ends l_paren)
        (omega arith)
        (λ _ a h.
          ends_then (length tokens) (parse_value_token values) a _ (parse_value_token-ends values)
            (omega arith)
            (λ first b k.
              ends->>= (suc (length b)) (length tokens) (parse_more_values values b) _
                (parse_more_values-ends values b)
                (λ more c l.
                  ends_then (length tokens) (expect_token r_paren) c
                    (λ closed.
                      parsed (tests values operand (FilterPredicateKind.one_of (first ∷ more)))
                        closed.1)
                    (expect_token-ends r_paren) (omega arith) (λ _ d m. ground arith))))

  parse_operand_test-ends : (operand : FilterOperand) → IsEnding (parse_operand_test values operand)
  unfolding parse_operand_test
  parse_operand_test-ends operand tokens =
      ends_cases (length tokens) tokens (λ rest. rest) (consume_token between tokens) _
        (parse_between values operand) (consume_token-leaves between tokens)
        (ends_cases (length tokens) tokens (λ rest. rest) (consume_token in_token tokens)
          (parse_comparison values operand tokens) (parse_in values operand)
          (consume_token-leaves in_token tokens) (parse_comparison-ends operand tokens)
          (λ rest h.
            ends_more (length rest) (length tokens) (parse_in values operand rest)
              (parse_in-ends operand rest) (omega arith)))
        (λ rest h.
          ends_more (length rest) (length tokens) (parse_between values operand rest)
            (parse_between-ends operand rest) (omega arith))

  of_text-ends :
      (n : ℕ) (v : Value P) (kind : String → FilterPredicateKind P) (name : String)
      (rest : List FilterToken)
      → length rest < n
      → ends n (of_text values v kind name rest) ≡ true
  of_text-ends n v kind name rest h = elim (Option-cases (as_str v)) [
    | inl e ↦ rw (of_text, e) refl
    | inr (text, e) ↦ rw (of_text, e) (ground arith)
  ]

  -- a function of a field and a value, of a field alone, and what is made of them
  call-ends :
      {A : Type 0} (name : String) (tokens : List FilterToken)
      (made : String → Value P → List FilterToken → Parsed A)
      → ((n : ℕ) (field : String) (v : Value P) (rest : List FilterToken)
          → length rest < n
          → ends n (made field v rest) ≡ true)
      → ends (length tokens) (
          parse_field_value_function values name tokens >>= λ called.
          made called.0.0 called.0.1 called.1)
        ≡ true
  call-ends name tokens made k =
      ends_then (length tokens) (parse_field_value_function values name) tokens
        (λ called. made called.0.0 called.0.1 called.1)
        (parse_field_value_function-ends values name) (omega arith)
        (λ called rest h. k (length tokens) called.0 called.1 rest h)

  field-ends :
      {A : Type 0} (name : String) (tokens : List FilterToken) (made : String → A)
      → ends
          (length tokens)
          (parse_single_field_function name tokens >>= λ field. parsed (made field.0) field.1)
        ≡ true
  field-ends name tokens made =
      ends_then (length tokens) (parse_single_field_function name) tokens
        (λ field. parsed (made field.0) field.1) (parse_single_field_function-ends name)
        (omega arith) (λ field rest h. ground arith)

  pub parse_predicate-ends : IsEnding (parse_predicate values)
  unfolding parse_predicate
  parse_predicate-ends tokens = ground (
    arith,
    call-ends "begins_with" tokens
        (λ f v rest. of_text values v FilterPredicateKind.begins_with f rest)
        (λ n f v rest h. of_text-ends n v FilterPredicateKind.begins_with f rest h),
    call-ends "contains" tokens
        (λ f v rest.
          parsed (tests values (FilterOperand.field f) (FilterPredicateKind.contains v)) rest)
        (λ n f v rest h. ground arith),
    field-ends "attribute_exists" tokens
        (λ f. tests values (FilterOperand.field f) FilterPredicateKind.attribute_exists),
    field-ends "attribute_not_exists" tokens
        (λ f. tests values (FilterOperand.field f) FilterPredicateKind.attribute_not_exists),
    call-ends "attribute_type" tokens
        (λ f v rest. of_text values v FilterPredicateKind.attribute_type f rest)
        (λ n f v rest h. of_text-ends n v FilterPredicateKind.attribute_type f rest h),
    ends_then (length tokens) parse_filter_operand tokens
        (λ operand. parse_operand_test values operand.0 operand.1) parse_filter_operand-ends
        (omega arith)
        (λ operand rest h.
          ends_more (length rest) (length tokens) (parse_operand_test values operand rest)
            (parse_operand_test-ends operand rest) (omega arith)),
  )
