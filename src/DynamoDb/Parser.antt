-- ===== src/DynamoDb/Parser.antt =====
-- The parser of filter expressions, `FilterParser` of query_server/src/dynamodb_protocol.rs, on the
-- tokens from its index on: values, tests, and the nodes that they are joined to.
pub mod Grammar
pub mod Predicates
pub mod Complete
pub mod Consumed
pub mod PredicatesEnd
pub mod Ends
use powdrr_engine.Common.{
  ℕ, zero, suc, ◌+◌, ◌*◌, String, Option, none, some, List, [], ◌∷◌, if◌then◌else◌, ◌==◌, nat_eq,
  string_eq, length,
}
use powdrr_engine.Common.Dict.{Dict}
use powdrr_engine.Json.{Floats, Value, as_str}
use powdrr_engine.DynamoDb.Error.{validation, Result, ok, err}
use powdrr_engine.DynamoDb.Attributes.{lookup_expression_value}
use powdrr_engine.DynamoDb.Filter.{
  FilterOperand, FilterPredicateKind, FilterPredicate, FilterNode, FilterNodes, predicate, and, or,
  negation, nil, cons,
}
use powdrr_engine.DynamoDb.Tokens.{
  FilterToken, Parsed, ◌>>=◌, kind_of, consume_token, expect_token, value_name_of, text_of,
  peek_function, expect_identifier_ci, parse_identifier, parse_single_field_function,
  parse_filter_operand, l_paren, r_paren, comma, eq, lt, lte, gt, gte, and_token, or_token,
  not_token, between, in_token, parsed, failed, unfinished,
}

module _ {P : Floats} (values : Dict String (Value P)) where
  abbrev pub of_result : {A : Type 0} → Result A → List FilterToken → Parsed A
  of_result (ok a) tokens = parsed a tokens
  of_result (err e) tokens = failed e

  unfoldable pub parse_value_token : List FilterToken → Parsed (Value P)
  parse_value_token tokens = elim (text_of value_name_of tokens) [
    | none ↦ failed validation
    | some (token, rest) ↦ of_result (lookup_expression_value token values) rest
  ]

  unfoldable pub parse_field_value_function : String → List FilterToken → Parsed (String × Value P)
  parse_field_value_function name tokens = expect_identifier_ci name tokens >>= λ called.
      expect_token l_paren called.1 >>= λ opened. parse_identifier opened.1 >>= λ field.
      expect_token comma field.1 >>= λ separated. parse_value_token separated.1 >>= λ value.
      expect_token r_paren value.1 >>= λ closed. parsed (field.0, value.0) closed.1

  -- the loop over the values of `IN` after the first one
  unfoldable pub parse_more_values : List FilterToken → Parsed (List (Value P))
  parse_more_values [] = parsed [] []
  parse_more_values (token ∷ []) =
      if kind_of token == kind_of comma then failed validation else parsed [] (token ∷ [])
  parse_more_values (token ∷ next ∷ tokens) =
      let more = parse_more_values tokens in
      if kind_of token == kind_of comma
      then (parse_value_token (next ∷ tokens) >>= λ value.
          more >>= λ rest. parsed (value.0 ∷ rest.0) rest.1)
      else parsed [] (token ∷ next ∷ tokens)

  abbrev pub tests : FilterOperand → FilterPredicateKind P → FilterPredicate P
  tests operand kind = record { operand = operand; kind = kind }

  abbrev pub of_text :
      Value P
      → (String → FilterPredicateKind P)
      → String
      → List FilterToken
      → Parsed (FilterPredicate P)
  of_text value kind field tokens = elim (as_str value) [
    | none ↦ failed validation
    | some text ↦ parsed (tests (FilterOperand.field field) (kind text)) tokens
  ]

  -- the comparison that follows an operand
  abbrev pub comparison_of : FilterToken → Option (Value P → FilterPredicateKind P)
  comparison_of eq = some FilterPredicateKind.eq
  comparison_of lte = some FilterPredicateKind.lte
  comparison_of gte = some FilterPredicateKind.gte
  comparison_of lt = some FilterPredicateKind.lt
  comparison_of gt = some FilterPredicateKind.gt
  comparison_of _ = none

  unfoldable pub parse_comparison : FilterOperand → List FilterToken → Parsed (FilterPredicate P)
  parse_comparison operand [] = failed validation
  parse_comparison operand (token ∷ tokens) = elim (comparison_of token) [
    | none ↦ failed validation
    | some kind ↦
        parse_value_token tokens >>= λ value. parsed (tests operand (kind value.0)) value.1
  ]

  abbrev pub parse_between : FilterOperand → List FilterToken → Parsed (FilterPredicate P)
  parse_between operand tokens = parse_value_token tokens >>= λ start.
      expect_token and_token start.1 >>= λ joined. parse_value_token joined.1 >>= λ end.
      parsed (tests operand (FilterPredicateKind.between start.0 end.0)) end.1

  abbrev pub parse_in : FilterOperand → List FilterToken → Parsed (FilterPredicate P)
  parse_in operand tokens = expect_token l_paren tokens >>= λ opened.
      parse_value_token opened.1 >>= λ first. parse_more_values first.1 >>= λ more.
      expect_token r_paren more.1 >>= λ closed.
      parsed (tests operand (FilterPredicateKind.one_of (first.0 ∷ more.0))) closed.1

  unfoldable pub parse_operand_test : FilterOperand → List FilterToken → Parsed (FilterPredicate P)
  parse_operand_test operand tokens = elim (consume_token between tokens) [
    | some rest ↦ parse_between operand rest
    | none ↦ elim (consume_token in_token tokens) [
      | some rest ↦ parse_in operand rest
      | none ↦ parse_comparison operand tokens
    ]
  ]

  unfoldable pub parse_predicate : List FilterToken → Parsed (FilterPredicate P)
  parse_predicate tokens =
      if peek_function "begins_with" tokens
      then (parse_field_value_function "begins_with" tokens >>= λ called.
          of_text called.0.1 FilterPredicateKind.begins_with called.0.0 called.1)
      else if peek_function "contains" tokens
      then (parse_field_value_function "contains" tokens >>= λ called.
          parsed (tests (FilterOperand.field called.0.0) (FilterPredicateKind.contains called.0.1))
            called.1)
      else if peek_function "attribute_exists" tokens
      then (parse_single_field_function "attribute_exists" tokens >>= λ field.
          parsed (tests (FilterOperand.field field.0) FilterPredicateKind.attribute_exists) field.1)
      else if peek_function "attribute_not_exists" tokens
      then (parse_single_field_function "attribute_not_exists" tokens >>= λ field.
          parsed (tests (FilterOperand.field field.0) FilterPredicateKind.attribute_not_exists)
            field.1)
      else if peek_function "attribute_type" tokens
      then (parse_field_value_function "attribute_type" tokens >>= λ called.
          of_text called.0.1 FilterPredicateKind.attribute_type called.0.0 called.1)
      else (parse_filter_operand tokens >>= λ operand. parse_operand_test operand.0 operand.1)

  -- a single node, or all of them under a connective
  abbrev pub joined : (FilterNodes P → FilterNode P) → FilterNodes P → FilterNode P
  joined connective (cons node nil) = node
  joined connective nodes = connective nodes

  -- a turn of a loop over nodes: the node, and the nodes that `next` reads where there are more
  abbrev pub push_node :
      FilterNode P
      → (List FilterToken → Parsed (FilterNodes P))
      → Option (List FilterToken)
      → List FilterToken
      → Parsed (FilterNodes P)
  push_node node next none tokens = parsed (cons node nil) tokens
  push_node node next (some rest) tokens = next rest >>= λ more. parsed (cons node more.0) more.1

  -- `parse_or_expression`, `parse_and_expression`, and `parse_unary_expression` with
  -- `parse_primary_expression`: the loops give the nodes
  unfoldable mutual
    pub parse_or_nodes : ℕ → List FilterToken → Parsed (FilterNodes P)
    parse_or_nodes zero tokens = unfinished
    parse_or_nodes (suc fuel) tokens = parse_and_nodes fuel tokens >>= λ nodes.
        push_node (joined and nodes.0) (parse_or_nodes fuel) (consume_token or_token nodes.1)
          nodes.1

    pub parse_and_nodes : ℕ → List FilterToken → Parsed (FilterNodes P)
    parse_and_nodes zero tokens = unfinished
    parse_and_nodes (suc fuel) tokens = parse_unary_expression fuel tokens >>= λ node.
        push_node node.0 (parse_and_nodes fuel) (consume_token and_token node.1) node.1

    pub parse_unary_expression : ℕ → List FilterToken → Parsed (FilterNode P)
    parse_unary_expression zero tokens = unfinished
    parse_unary_expression (suc fuel) tokens = elim (consume_token not_token tokens) [
      | some rest ↦ parse_unary_expression fuel rest >>= λ node. parsed (negation node.0) node.1
      | none ↦ elim (consume_token l_paren tokens) [
        | some rest ↦ parse_or_nodes fuel rest >>= λ nodes.
            expect_token r_paren nodes.1 >>= λ closed. parsed (joined or nodes.0) closed.1
        | none ↦ parse_predicate tokens >>= λ p. parsed (predicate p.0) p.1
      ]
    ]

  -- `expect_end`, on the result of `parse_expression`
  abbrev pub expect_end : Parsed (FilterNodes P) → Option (Result (FilterNode P))
  expect_end (parsed nodes []) = some (ok (joined or nodes))
  expect_end (parsed nodes (token ∷ tokens)) = some (err validation)
  expect_end (failed e) = some (err e)
  expect_end unfinished = none

  -- the parser on the tokens of an expression; `none` is a loop that has not ended
  unfoldable pub parse_tokens : List FilterToken → Option (Result (FilterNode P))
  parse_tokens tokens = expect_end (parse_or_nodes (3 * length tokens + 3) tokens)
