-- ===== src/DynamoDb/Parser/Grammar.antt =====
-- The grammar of filter expressions that query_server/src/dynamodb_protocol.rs reads: its phrases, their
-- tokens, and the nodes that they stand for.
use powdrr_engine.Common.{String, Bool, true, ◌&&◌, ◌||◌, not, List, [], ◌∷◌}
use powdrr_engine.Common.Dict.{Dict}
use powdrr_engine.Json.{Floats, Value, as_str}
use powdrr_engine.DynamoDb.Error.{validation, Result, ok, ◌>>=◌, ok_or}
use powdrr_engine.DynamoDb.Attributes.{lookup_expression_value}
use powdrr_engine.DynamoDb.Filter.{
  FilterOperand, FilterPredicateKind, FilterPredicate, FilterNode, FilterNodes, predicate, and, or,
  negation, nil, cons,
}
use powdrr_engine.DynamoDb.Tokens.{
  FilterToken, identifier, value_token, l_paren, r_paren, comma, and_token, or_token, not_token,
  between, in_token, eq_ignore_ascii_case,
}

pub data Comparison : Type 0 where
  equal less at_most greater at_least : Comparison

-- a test of an operand; values are named by their tokens
pub data OperandTest : Type 0 where
  compared : Comparison → String → OperandTest
  from_to : String → String → OperandTest
  listed : String → List String → OperandTest

pub data Test : Type 0 where
  starts holds typed : String → String → Test
  exists missing : String → Test
  operand_test : FilterOperand → OperandTest → Test

-- one or more phrases that OR and AND join, a NOT, a group in parentheses, a test
mutual
  pub data Disjunction : Type 0 where
    last : Conjunction → Disjunction
    either : Conjunction → Disjunction → Disjunction

  pub data Conjunction : Type 0 where
    only : Unary → Conjunction
    both : Unary → Conjunction → Conjunction

  pub data Unary : Type 0 where
    negated : Unary → Unary
    group : Disjunction → Unary
    test : Test → Unary

-- the tokens of a phrase, before those that follow it
abbrev pub comparison_tokens : Comparison → FilterToken
comparison_tokens equal = FilterToken.eq
comparison_tokens less = FilterToken.lt
comparison_tokens at_most = FilterToken.lte
comparison_tokens greater = FilterToken.gt
comparison_tokens at_least = FilterToken.gte

abbrev pub listed_tokens : List String → List FilterToken → List FilterToken
listed_tokens [] rest = rest
listed_tokens (value ∷ more) rest = comma ∷ value_token value ∷ listed_tokens more rest

abbrev pub operand_tokens : FilterOperand → List FilterToken → List FilterToken
operand_tokens (FilterOperand.field name) rest = identifier name ∷ rest
operand_tokens (FilterOperand.size name) rest =
    identifier "size" ∷ l_paren ∷ identifier name ∷ r_paren ∷ rest

abbrev pub operand_test_tokens : OperandTest → List FilterToken → List FilterToken
operand_test_tokens (compared c value) rest = comparison_tokens c ∷ value_token value ∷ rest
operand_test_tokens (from_to start stop) rest =
    between ∷ value_token start ∷ and_token ∷ value_token stop ∷ rest
operand_test_tokens (listed value more) rest =
    in_token ∷ l_paren ∷ value_token value ∷ listed_tokens more (r_paren ∷ rest)

abbrev pub call_tokens : String → String → String → List FilterToken → List FilterToken
call_tokens function name value rest =
    identifier function ∷ l_paren ∷ identifier name ∷ comma ∷ value_token value ∷ r_paren ∷ rest

abbrev pub test_tokens : Test → List FilterToken → List FilterToken
test_tokens (starts name value) rest = call_tokens "begins_with" name value rest
test_tokens (holds name value) rest = call_tokens "contains" name value rest
test_tokens (typed name value) rest = call_tokens "attribute_type" name value rest
test_tokens (exists name) rest =
    identifier "attribute_exists" ∷ l_paren ∷ identifier name ∷ r_paren ∷ rest
test_tokens (missing name) rest =
    identifier "attribute_not_exists" ∷ l_paren ∷ identifier name ∷ r_paren ∷ rest
test_tokens (operand_test operand t) rest = operand_tokens operand (operand_test_tokens t rest)

unfoldable mutual
  pub disjunction_tokens : Disjunction → List FilterToken → List FilterToken
  disjunction_tokens (last c) rest = conjunction_tokens c rest
  disjunction_tokens (either c d) rest = conjunction_tokens c (or_token ∷ disjunction_tokens d rest)

  pub conjunction_tokens : Conjunction → List FilterToken → List FilterToken
  conjunction_tokens (only u) rest = unary_tokens u rest
  conjunction_tokens (both u c) rest = unary_tokens u (and_token ∷ conjunction_tokens c rest)

  pub unary_tokens : Unary → List FilterToken → List FilterToken
  unary_tokens (negated u) rest = not_token ∷ unary_tokens u rest
  unary_tokens (group d) rest = l_paren ∷ disjunction_tokens d (r_paren ∷ rest)
  unary_tokens (test t) rest = test_tokens t rest

-- An attribute that has the name of a function, in any case, is not a plain operand.
abbrev pub is_function : String → Bool
is_function name =
    eq_ignore_ascii_case name "begins_with"
    || eq_ignore_ascii_case name "contains"
    || eq_ignore_ascii_case name "attribute_exists"
    || eq_ignore_ascii_case name "attribute_not_exists"
    || eq_ignore_ascii_case name "attribute_type"
    || eq_ignore_ascii_case name "size"

abbrev pub test_is_plain : Test → Bool
test_is_plain (operand_test (FilterOperand.field name) t) = not (is_function name)
test_is_plain t = true

unfoldable mutual
  pub is_plain : Disjunction → Bool
  is_plain (last c) = conjunction_is_plain c
  is_plain (either c d) = conjunction_is_plain c && is_plain d

  pub conjunction_is_plain : Conjunction → Bool
  conjunction_is_plain (only u) = unary_is_plain u
  conjunction_is_plain (both u c) = unary_is_plain u && conjunction_is_plain c

  pub unary_is_plain : Unary → Bool
  unary_is_plain (negated u) = unary_is_plain u
  unary_is_plain (group d) = is_plain d
  unary_is_plain (test t) = test_is_plain t

-- what a phrase stands for
module _ {P : Floats} (values : Dict String (Value P)) where
  abbrev pub comparison_means : Comparison → Value P → FilterPredicateKind P
  comparison_means equal v = FilterPredicateKind.eq v
  comparison_means less v = FilterPredicateKind.lt v
  comparison_means at_most v = FilterPredicateKind.lte v
  comparison_means greater v = FilterPredicateKind.gt v
  comparison_means at_least v = FilterPredicateKind.gte v

  abbrev pub values_mean : List String → Result (List (Value P))
  values_mean [] = ok []
  values_mean (value ∷ more) =
      lookup_expression_value value values >>= λ v. values_mean more >>= λ vs. ok (v ∷ vs)

  abbrev pub operand_test_means : OperandTest → Result (FilterPredicateKind P)
  operand_test_means (compared c value) =
      lookup_expression_value value values >>= λ v. ok (comparison_means c v)
  operand_test_means (from_to start stop) = lookup_expression_value start values >>= λ a.
      lookup_expression_value stop values >>= λ b. ok (FilterPredicateKind.between a b)
  operand_test_means (listed value more) = lookup_expression_value value values >>= λ v.
      values_mean more >>= λ vs. ok (FilterPredicateKind.one_of (v ∷ vs))

  -- a function whose value must be a string
  abbrev pub text_means : String → Result String
  text_means value = lookup_expression_value value values >>= λ v. ok_or validation (as_str v)

  abbrev pub on : String → FilterPredicateKind P → FilterPredicate P
  on name kind = record { operand = FilterOperand.field name; kind = kind }

  abbrev pub test_means : Test → Result (FilterPredicate P)
  test_means (starts name value) =
      text_means value >>= λ text. ok (on name (FilterPredicateKind.begins_with text))
  test_means (holds name value) =
      lookup_expression_value value values >>= λ v. ok (on name (FilterPredicateKind.contains v))
  test_means (typed name value) =
      text_means value >>= λ text. ok (on name (FilterPredicateKind.attribute_type text))
  test_means (exists name) = ok (on name FilterPredicateKind.attribute_exists)
  test_means (missing name) = ok (on name FilterPredicateKind.attribute_not_exists)
  test_means (operand_test operand t) =
      operand_test_means t >>= λ kind. ok (record { operand = operand; kind = kind })

  -- one phrase stands for itself, two or more for their connective
  abbrev pub all_of : FilterNodes P → FilterNode P
  all_of (cons node nil) = node
  all_of nodes = and nodes

  abbrev pub one_of_all : FilterNodes P → FilterNode P
  one_of_all (cons node nil) = node
  one_of_all nodes = or nodes

  unfoldable mutual
    pub disjunction_means : Disjunction → Result (FilterNodes P)
    disjunction_means (last c) = conjunction_means c >>= λ nodes. ok (cons (all_of nodes) nil)
    disjunction_means (either c d) = conjunction_means c >>= λ nodes.
        disjunction_means d >>= λ more. ok (cons (all_of nodes) more)

    pub conjunction_means : Conjunction → Result (FilterNodes P)
    conjunction_means (only u) = unary_means u >>= λ node. ok (cons node nil)
    conjunction_means (both u c) =
        unary_means u >>= λ node. conjunction_means c >>= λ more. ok (cons node more)

    pub unary_means : Unary → Result (FilterNode P)
    unary_means (negated u) = unary_means u >>= λ node. ok (negation node)
    unary_means (group d) = disjunction_means d >>= λ nodes. ok (one_of_all nodes)
    unary_means (test t) = test_means t >>= λ p. ok (predicate p)
