-- ===== src/DynamoDb/Parser/Predicates.antt =====
-- `FilterParser` of query_server/src/dynamodb_protocol.rs reads every test of the grammar.
use powdrr_engine.Common.{
  ◌≡◌, refl, ◌∙◌, ap, String, true, Option, none, some, List, [], ◌∷◌, arith,
}
use powdrr_engine.Common.Dict.{Dict}
use powdrr_engine.Json.{Floats, Value, as_str}
use powdrr_engine.DynamoDb.Error.{DynamoDbError, validation, ok, ok_or, then_lem}
use powdrr_engine.DynamoDb.Attributes.{lookup_expression_value}
use powdrr_engine.DynamoDb.Filter.{FilterOperand, FilterPredicateKind, FilterPredicate}
use powdrr_engine.DynamoDb.Tokens.{
  FilterToken, value_token, r_paren, and_token, parsed, eq_ignore_ascii_case,
  parse_single_field_function, parse_filter_operand,
}
use powdrr_engine.DynamoDb.Parser.{
  parse_value_token, parse_field_value_function, parse_more_values, parse_comparison,
  parse_operand_test, parse_predicate, of_text,
}
use powdrr_engine.DynamoDb.Parser.Grammar.{
  Comparison, equal, less, at_most, greater, at_least, OperandTest, compared, from_to, listed, Test,
  starts, holds, typed, exists, missing, operand_test, comparison_tokens, listed_tokens,
  operand_tokens, operand_test_tokens, call_tokens, test_tokens, test_is_plain, comparison_means,
  values_mean, operand_test_means, text_means, on, test_means,
}

pub ok_inj : {A : Type 0} {a b : A} → ok a ≡ ok b → a ≡ b
ok_inj h = cc

ok_or-some : {A : Type 0} (e : DynamoDbError) (o : Option A) (a : A) → ok_or e o ≡ ok a → o ≡ some a
ok_or-some e none a h = ground arith
ok_or-some e (some b) a h = cc

module _ {P : Floats} (values : Dict String (Value P)) where
  abbrev Found : String → Value P → Type 0
  Found token v = lookup_expression_value token values ≡ ok v

  parse_value_token_lem :
      (token : String) (v : Value P) (rest : List FilterToken)
      → Found token v
      → parse_value_token values (value_token token ∷ rest) ≡ parsed v rest
  unfolding parse_value_token
  parse_value_token_lem token v rest h = rw h refl

  parse_more_values_lem :
      (tokens : List String) (vs : List (Value P)) (rest : List FilterToken)
      → values_mean values tokens ≡ ok vs
      → parse_more_values values (listed_tokens tokens (r_paren ∷ rest))
        ≡ parsed vs (r_paren ∷ rest)
  unfolding parse_more_values
  parse_more_values_lem [] vs [] h = ap (λ xs. parsed xs (r_paren ∷ [])) (ok_inj h)
  parse_more_values_lem [] vs (token ∷ rest) h =
      ap (λ xs. parsed xs (r_paren ∷ token ∷ rest)) (ok_inj h)
  parse_more_values_lem (token ∷ tokens) vs rest h =
      then_lem (lookup_expression_value token values) _ vs h (λ v e more.
        then_lem (values_mean values tokens) _ vs more (λ ws f done.
          rw
            (
              parse_value_token_lem token v (listed_tokens tokens (r_paren ∷ rest)) e,
              parse_more_values_lem tokens ws rest f,
            )
            (ap (λ xs. parsed xs (r_paren ∷ rest)) (ok_inj done))))

  parse_comparison_lem :
      (operand : FilterOperand) (c : Comparison) (value : String) (v : Value P)
      (rest : List FilterToken)
      → Found value v
      → parse_operand_test values operand (comparison_tokens c ∷ value_token value ∷ rest)
        ≡ parsed (record { operand = operand; kind = comparison_means values c v }) rest
  unfolding parse_operand_test parse_comparison
  parse_comparison_lem operand equal value v rest h = rw (parse_value_token_lem value v rest h) refl
  parse_comparison_lem operand less value v rest h = rw (parse_value_token_lem value v rest h) refl
  parse_comparison_lem operand at_most value v rest h =
      rw (parse_value_token_lem value v rest h) refl
  parse_comparison_lem operand greater value v rest h =
      rw (parse_value_token_lem value v rest h) refl
  parse_comparison_lem operand at_least value v rest h =
      rw (parse_value_token_lem value v rest h) refl

  parse_operand_test_lem :
      (operand : FilterOperand) (t : OperandTest) (kind : FilterPredicateKind P)
      (rest : List FilterToken)
      → operand_test_means values t ≡ ok kind
      → parse_operand_test values operand (operand_test_tokens t rest)
        ≡ parsed (record { operand = operand; kind = kind }) rest
  unfolding parse_operand_test
  parse_operand_test_lem operand (compared c value) kind rest h =
      then_lem (lookup_expression_value value values) _ kind h (λ v e done.
        parse_comparison_lem operand c value v rest e
        ∙ ap (λ k. parsed (record { operand = operand; kind = k }) rest) (ok_inj done))
  parse_operand_test_lem operand (from_to start stop) kind rest h =
      then_lem (lookup_expression_value start values) _ kind h (λ a e more.
        then_lem (lookup_expression_value stop values) _ kind more (λ b f done.
          rw
            (
              parse_value_token_lem start a (and_token ∷ value_token stop ∷ rest) e,
              parse_value_token_lem stop b rest f,
            )
            (ap (λ k. parsed (record { operand = operand; kind = k }) rest) (ok_inj done))))
  parse_operand_test_lem operand (listed value tokens) kind rest h =
      then_lem (lookup_expression_value value values) _ kind h (λ v e more.
        then_lem (values_mean values tokens) _ kind more (λ vs f done.
          rw
            (
              parse_value_token_lem value v (listed_tokens tokens (r_paren ∷ rest)) e,
              parse_more_values_lem tokens vs rest f,
            )
            (ap (λ k. parsed (record { operand = operand; kind = k }) rest) (ok_inj done))))

  parse_field_value_function_lem :
      (function name token : String) (v : Value P) (rest : List FilterToken)
      → eq_ignore_ascii_case function function ≡ true
      → Found token v
      → parse_field_value_function values function (call_tokens function name token rest)
        ≡ parsed (name, v) rest
  unfolding parse_field_value_function
  parse_field_value_function_lem function name token v rest same h =
      rw (same, parse_value_token_lem token v (r_paren ∷ rest) h) refl

  parse_predicate-size :
      (name : String) (rest : List FilterToken)
      → parse_predicate values (operand_tokens (FilterOperand.size name) rest)
        ≡ parse_operand_test values (FilterOperand.size name) rest
  unfolding parse_predicate parse_filter_operand parse_single_field_function eq_ignore_ascii_case
  parse_predicate-size name rest = refl

  of_text_lem :
      (v : Value P) (kind : String → FilterPredicateKind P) (name text : String)
      (rest : List FilterToken) (p : FilterPredicate P)
      → ok_or validation (as_str v) ≡ ok text
      → on values name (kind text) ≡ p
      → of_text values v kind name rest ≡ parsed p rest
  of_text_lem v kind name text rest p h e =
      rw (of_text, ok_or-some validation (as_str v) text h) (ap (λ q. parsed q rest) e)

  parse_predicate-operand :
      (operand : FilterOperand) (t : OperandTest) (rest : List FilterToken)
      → test_is_plain (operand_test operand t) ≡ true
      → parse_predicate values (operand_tokens operand rest)
        ≡ parse_operand_test values operand rest
  unfolding parse_predicate parse_filter_operand parse_single_field_function
  parse_predicate-operand (FilterOperand.field name) t rest h = ground arith
  parse_predicate-operand (FilterOperand.size name) t rest h = parse_predicate-size name rest

  pub parse_predicate_lem :
      (t : Test) (p : FilterPredicate P) (rest : List FilterToken)
      → test_is_plain t ≡ true
      → test_means values t ≡ ok p
      → parse_predicate values (test_tokens t rest) ≡ parsed p rest
  unfolding parse_predicate eq_ignore_ascii_case parse_single_field_function
  parse_predicate_lem (starts name value) p rest h m =
      then_lem (text_means values value) _ p m (λ text e done.
        then_lem (lookup_expression_value value values) _ text e (λ v f s.
          rw (parse_field_value_function_lem "begins_with" name value v rest refl f)
            (of_text_lem v FilterPredicateKind.begins_with name text rest p s (ok_inj done))))
  parse_predicate_lem (typed name value) p rest h m =
      then_lem (text_means values value) _ p m (λ text e done.
        then_lem (lookup_expression_value value values) _ text e (λ v f s.
          rw (parse_field_value_function_lem "attribute_type" name value v rest refl f)
            (of_text_lem v FilterPredicateKind.attribute_type name text rest p s (ok_inj done))))
  parse_predicate_lem (holds name value) p rest h m =
      then_lem (lookup_expression_value value values) _ p m (λ v f done.
        rw (parse_field_value_function_lem "contains" name value v rest refl f)
          (ap (λ q. parsed q rest) (ok_inj done)))
  parse_predicate_lem (exists name) p rest h m = ap (λ q. parsed q rest) (ok_inj m)
  parse_predicate_lem (missing name) p rest h m = ap (λ q. parsed q rest) (ok_inj m)
  parse_predicate_lem (operand_test operand t) p rest h m =
      then_lem (operand_test_means values t) _ p m (λ kind e done.
        parse_predicate-operand operand t (operand_test_tokens t rest) h
        ∙ parse_operand_test_lem operand t kind rest e
        ∙ ap (λ q. parsed q rest) (ok_inj done))
