-- ===== src/DynamoDb/Parser/Complete.antt =====
-- `FilterParser` of query_server/src/dynamodb_protocol.rs reads every phrase of the grammar.
use powdrr_engine.Common.{
  ℕ, zero, suc, ◌+◌, ◌*◌, ◌<◌, ◌≤◌, ◌≡◌, refl, ◌∙◌, sym, ap, String, true, none, some, List, [],
  ◌∷◌, length, arith,
}
use powdrr_engine.Common.Dict.{Dict}
use powdrr_engine.Json.{Floats, Value}
use powdrr_engine.DynamoDb.Error.{ok, then_lem}
use powdrr_engine.DynamoDb.Filter.{
  FilterOperand, FilterNode, FilterNodes, predicate, and, or, nil, cons,
}
use powdrr_engine.DynamoDb.Tokens.{
  FilterToken, r_paren, and_token, or_token, parsed, ◌>>=◌ as ◌>>=!◌, consume_token,
}
use powdrr_engine.DynamoDb.Parser.{
  joined, parse_predicate, parse_or_nodes, parse_and_nodes, parse_unary_expression, parse_tokens,
}
use powdrr_engine.DynamoDb.Parser.Grammar.{
  OperandTest, compared, from_to, listed, Test, starts, holds, typed, exists, missing, operand_test,
  Disjunction, last, either, Conjunction, only, both, Unary, negated, group, test, listed_tokens,
  operand_test_tokens, test_tokens, disjunction_tokens, conjunction_tokens, unary_tokens, is_plain,
  conjunction_is_plain, unary_is_plain, test_means, all_of, one_of_all, disjunction_means,
  conjunction_means, unary_means,
}
use powdrr_engine.DynamoDb.Parser.Predicates.{ok_inj, parse_predicate_lem}

listed_length :
    (tokens : List String) (rest : List FilterToken)
    → length rest ≤ length (listed_tokens tokens rest)
listed_length [] rest = omega arith
listed_length (token ∷ tokens) rest = omega (arith, listed_length tokens rest)

operand_test_length :
    (t : OperandTest) (rest : List FilterToken) → length rest ≤ length (operand_test_tokens t rest)
operand_test_length (compared c value) rest = omega arith
operand_test_length (from_to start stop) rest = omega arith
operand_test_length (listed value tokens) rest =
    omega (arith, listed_length tokens (r_paren ∷ rest))

test_length : (t : Test) (rest : List FilterToken) → length rest < length (test_tokens t rest)
test_length (starts name value) rest = omega arith
test_length (holds name value) rest = omega arith
test_length (typed name value) rest = omega arith
test_length (exists name) rest = omega arith
test_length (missing name) rest = omega arith
test_length (operand_test (FilterOperand.field name) t) rest =
    omega (arith, operand_test_length t rest)
test_length (operand_test (FilterOperand.size name) t) rest =
    omega (arith, operand_test_length t rest)

-- the tokens that a phrase ends with are among its tokens
mutual
  unfolding disjunction_tokens conjunction_tokens unary_tokens

  disjunction_length :
      (d : Disjunction) (rest : List FilterToken) → length rest < length (disjunction_tokens d rest)
  disjunction_length (last c) rest = conjunction_length c rest
  disjunction_length (either c d) rest = omega (
    arith,
    disjunction_length d rest,
    conjunction_length c (or_token ∷ disjunction_tokens d rest),
  )

  conjunction_length :
      (c : Conjunction) (rest : List FilterToken) → length rest < length (conjunction_tokens c rest)
  conjunction_length (only u) rest = unary_length u rest
  conjunction_length (both u c) rest =
      omega
        (arith, conjunction_length c rest, unary_length u (and_token ∷ conjunction_tokens c rest))

  unary_length : (u : Unary) (rest : List FilterToken) → length rest < length (unary_tokens u rest)
  unary_length (negated u) rest = omega (arith, unary_length u rest)
  unary_length (group d) rest = omega (arith, disjunction_length d (r_paren ∷ rest))
  unary_length (test t) rest = test_length t rest

module _ {P : Floats} (values : Dict String (Value P)) where
  joined-and : (nodes : FilterNodes P) → joined values and nodes ≡ all_of values nodes
  joined-and nil = refl
  joined-and (cons node nil) = refl
  joined-and (cons node (cons next nodes)) = refl

  joined-or : (nodes : FilterNodes P) → joined values or nodes ≡ one_of_all values nodes
  joined-or nil = refl
  joined-or (cons node nil) = refl
  joined-or (cons node (cons next nodes)) = refl

  or_nodes :
      (ns ms nodes : FilterNodes P) (rest : List FilterToken)
      → ok (cons (all_of values ns) ms) ≡ ok nodes
      → parsed (cons (joined values and ns) ms) rest ≡ parsed nodes rest
  or_nodes ns ms nodes rest done =
      ap (λ n. parsed (cons n ms) rest) (joined-and ns) ∙ ap (λ xs. parsed xs rest) (ok_inj done)

  unary_node :
      (meant made node : FilterNode P) (rest : List FilterToken)
      → meant ≡ made
      → ok meant ≡ ok node
      → parsed made rest ≡ parsed node rest
  unary_node meant made node rest e h = cc

  parse_unary_expression-test :
      (fuel : ℕ) (t : Test) (rest : List FilterToken)
      → parse_unary_expression values (suc fuel) (test_tokens t rest)
        ≡ (parse_predicate values (test_tokens t rest) >>=! λ p. parsed (predicate p.0) p.1)
  unfolding parse_unary_expression
  parse_unary_expression-test fuel (starts name value) rest = refl
  parse_unary_expression-test fuel (holds name value) rest = refl
  parse_unary_expression-test fuel (typed name value) rest = refl
  parse_unary_expression-test fuel (exists name) rest = refl
  parse_unary_expression-test fuel (missing name) rest = refl
  parse_unary_expression-test fuel (operand_test (FilterOperand.field name) t) rest = refl
  parse_unary_expression-test fuel (operand_test (FilterOperand.size name) t) rest = refl

  mutual
    unfolding disjunction_tokens conjunction_tokens unary_tokens is_plain conjunction_is_plain
        unary_is_plain disjunction_means conjunction_means unary_means parse_or_nodes
        parse_and_nodes parse_unary_expression

    parse_or_nodes_lem :
        (fuel : ℕ) (d : Disjunction) (nodes : FilterNodes P) (rest : List FilterToken)
        → 3 * length (disjunction_tokens d rest) + 2 < fuel
        → is_plain d ≡ true
        → disjunction_means values d ≡ ok nodes
        → consume_token and_token rest ≡ none
        → consume_token or_token rest ≡ none
        → parse_or_nodes values fuel (disjunction_tokens d rest) ≡ parsed nodes rest
    parse_or_nodes_lem zero d nodes rest w h m a o = absurd (omega arith)
    parse_or_nodes_lem (suc fuel) (last c) nodes rest w h m a o =
        then_lem (conjunction_means values c) _ nodes m (λ ns e done.
          rw (parse_and_nodes_lem fuel c ns rest (omega arith) h e a, o)
            (or_nodes ns nil nodes rest done))
    parse_or_nodes_lem (suc fuel) (either c d) nodes rest w h m a o =
        then_lem (conjunction_means values c) _ nodes m (λ ns e more.
          then_lem (disjunction_means values d) _ nodes more (λ ms f done.
            rw
              (
                parse_and_nodes_lem fuel c ns (or_token ∷ disjunction_tokens d rest) (omega arith)
                    (ground arith) e refl,
                parse_or_nodes_lem fuel d ms rest
                    (omega (arith, conjunction_length c (or_token ∷ disjunction_tokens d rest)))
                    (ground arith) f a o,
              )
              (or_nodes ns ms nodes rest done)))

    parse_and_nodes_lem :
        (fuel : ℕ) (c : Conjunction) (nodes : FilterNodes P) (rest : List FilterToken)
        → 3 * length (conjunction_tokens c rest) + 1 < fuel
        → conjunction_is_plain c ≡ true
        → conjunction_means values c ≡ ok nodes
        → consume_token and_token rest ≡ none
        → parse_and_nodes values fuel (conjunction_tokens c rest) ≡ parsed nodes rest
    parse_and_nodes_lem zero c nodes rest w h m a = absurd (omega arith)
    parse_and_nodes_lem (suc fuel) (only u) nodes rest w h m a =
        then_lem (unary_means values u) _ nodes m (λ node e done.
          rw (parse_unary_expression_lem fuel u node rest (omega arith) h e, a)
            (ap (λ ns. parsed ns rest) (ok_inj done)))
    parse_and_nodes_lem (suc fuel) (both u c) nodes rest w h m a =
        then_lem (unary_means values u) _ nodes m (λ node e more.
          then_lem (conjunction_means values c) _ nodes more (λ ns f done.
            rw
              (
                parse_unary_expression_lem fuel u node (and_token ∷ conjunction_tokens c rest)
                    (omega arith) (ground arith) e,
                parse_and_nodes_lem fuel c ns rest
                    (omega (arith, unary_length u (and_token ∷ conjunction_tokens c rest)))
                    (ground arith) f a,
              )
              (ap (λ ms. parsed ms rest) (ok_inj done))))

    parse_unary_expression_lem :
        (fuel : ℕ) (u : Unary) (node : FilterNode P) (rest : List FilterToken)
        → 3 * length (unary_tokens u rest) < fuel
        → unary_is_plain u ≡ true
        → unary_means values u ≡ ok node
        → parse_unary_expression values fuel (unary_tokens u rest) ≡ parsed node rest
    parse_unary_expression_lem zero u node rest w h m = absurd (omega arith)
    parse_unary_expression_lem (suc fuel) (negated u) node rest w h m =
        then_lem (unary_means values u) _ node m (λ inner e done.
          rw (parse_unary_expression_lem fuel u inner rest (omega arith) h e)
            (ap (λ n. parsed n rest) (ok_inj done)))
    parse_unary_expression_lem (suc fuel) (group d) node rest w h m =
        then_lem (disjunction_means values d) _ node m (λ nodes e done.
          rw (parse_or_nodes_lem fuel d nodes (r_paren ∷ rest) (omega arith) h e refl refl) (
            unary_node (one_of_all values nodes) (joined values or nodes) node rest
              (sym (joined-or nodes)) done))
    parse_unary_expression_lem (suc fuel) (test t) node rest w h m =
        then_lem (test_means values t) _ node m (λ p e done.
          parse_unary_expression-test fuel t rest
          ∙ rw (parse_predicate_lem values t p rest h e) (ap (λ n. parsed n rest) (ok_inj done)))

  -- The tokens of each phrase of the grammar, with OR looser than AND and AND looser than NOT, are read
  -- as the node that the phrase stands for, where its value tokens have values and no attribute that it
  -- compares has the name of a function.
  pub parse_tokens-disjunction_tokens :
      (d : Disjunction) (nodes : FilterNodes P)
      → is_plain d ≡ true
      → disjunction_means values d ≡ ok nodes
      → parse_tokens values (disjunction_tokens d []) ≡ some (ok (one_of_all values nodes))
  unfolding parse_tokens
  parse_tokens-disjunction_tokens d nodes h m =
      rw
        (parse_or_nodes_lem (3 * length (disjunction_tokens d []) + 3) d nodes [] (omega arith) h m
          refl refl)
        (ap (λ n. some (ok n)) (joined-or nodes))
