-- ===== src/DynamoDb/Parser/Ends.antt =====
-- `FilterParser` of query_server/src/dynamodb_protocol.rs ends on all tokens.
use powdrr_engine.Common.{
  ℕ, zero, suc, ◌+◌, ◌*◌, ◌<◌, ◌≡◌, refl, String, true, Option, none, some, List, [], ◌∷◌, nat_eq,
  length, is_some, arith,
}
use powdrr_engine.Common.Dict.{Dict}
use powdrr_engine.Json.{Floats, Value}
use powdrr_engine.DynamoDb.Filter.{FilterNode, FilterNodes, and, or}
use powdrr_engine.DynamoDb.Tokens.{
  FilterToken, l_paren, r_paren, and_token, or_token, not_token, Parsed, parsed, failed, unfinished,
  ◌>>=◌, consume_token, expect_token,
}
use powdrr_engine.DynamoDb.Parser.{
  parse_predicate, joined, push_node, parse_or_nodes, parse_and_nodes, parse_unary_expression,
  expect_end, parse_tokens,
}
use powdrr_engine.DynamoDb.Parser.Consumed.{
  ends->>=, ends_more, leaves, consume_token-leaves, ends_cases, ends_then, expect_token-ends, ends,
}
use powdrr_engine.DynamoDb.Parser.PredicatesEnd.{parse_predicate-ends}

module _ {P : Floats} (values : Dict String (Value P)) where
  push_node-ends :
      (n : ℕ) (node : FilterNode P) (next : List FilterToken → Parsed (FilterNodes P))
      (expected : FilterToken) (tokens : List FilterToken)
      → length tokens < n
      → ((rest : List FilterToken) → length rest < length tokens → ends n (next rest) ≡ true)
      → ends n (push_node values node next (consume_token expected tokens) tokens) ≡ true
  push_node-ends n node next expected tokens h k =
      pushed (consume_token expected tokens) (consume_token-leaves expected tokens)
    where
      pushed :
          (o : Option (List FilterToken))
          → leaves tokens (λ rest. rest) o ≡ true
          → ends n (push_node values node next o tokens) ≡ true
      pushed none l = ground arith
      pushed (some rest) l =
          ends->>= n n (next rest) (λ more. parsed (FilterNodes.cons node more.0) more.1)
            (k rest (ground arith)) (λ more after m. ground arith)

  mutual
    unfolding parse_or_nodes parse_and_nodes parse_unary_expression

    parse_or_nodes-ends :
        (fuel : ℕ) (tokens : List FilterToken)
        → 3 * length tokens + 2 < fuel
        → ends (length tokens) (parse_or_nodes values fuel tokens) ≡ true
    parse_or_nodes-ends zero tokens h = absurd (omega arith)
    parse_or_nodes-ends (suc fuel) tokens h =
        ends->>= (length tokens) (length tokens) (parse_and_nodes values fuel tokens) _
          (parse_and_nodes-ends fuel tokens (omega arith))
          (λ nodes rest k.
            push_node-ends (length tokens) (joined values and nodes) (parse_or_nodes values fuel)
              or_token rest k
              (λ after l.
                ends_more (length after) (length tokens) (parse_or_nodes values fuel after)
                  (parse_or_nodes-ends fuel after (omega arith)) (omega arith)))

    parse_and_nodes-ends :
        (fuel : ℕ) (tokens : List FilterToken)
        → 3 * length tokens + 1 < fuel
        → ends (length tokens) (parse_and_nodes values fuel tokens) ≡ true
    parse_and_nodes-ends zero tokens h = absurd (omega arith)
    parse_and_nodes-ends (suc fuel) tokens h =
        ends->>= (length tokens) (length tokens) (parse_unary_expression values fuel tokens) _
          (parse_unary_expression-ends fuel tokens (omega arith))
          (λ node rest k.
            push_node-ends (length tokens) node (parse_and_nodes values fuel) and_token rest k
              (λ after l.
                ends_more (length after) (length tokens) (parse_and_nodes values fuel after)
                  (parse_and_nodes-ends fuel after (omega arith)) (omega arith)))

    parse_unary_expression-ends :
        (fuel : ℕ) (tokens : List FilterToken)
        → 3 * length tokens < fuel
        → ends (length tokens) (parse_unary_expression values fuel tokens) ≡ true
    parse_unary_expression-ends zero tokens h = absurd (omega arith)
    parse_unary_expression-ends (suc fuel) tokens h =
        ends_cases (length tokens) tokens (λ rest. rest) (consume_token not_token tokens) _
          (λ rest. parse_unary_expression values fuel rest >>= λ node.
            parsed (FilterNode.negation node.0) node.1)
          (consume_token-leaves not_token tokens)
          (ends_cases (length tokens) tokens (λ rest. rest) (consume_token l_paren tokens)
            (parse_predicate values tokens >>= λ p. parsed (FilterNode.predicate p.0) p.1)
            (λ rest. parse_or_nodes values fuel rest >>= λ nodes.
              expect_token r_paren nodes.1 >>= λ closed. parsed (joined values or nodes.0) closed.1)
            (consume_token-leaves l_paren tokens)
            (ends->>= (length tokens) (length tokens) (parse_predicate values tokens)
              (λ p. parsed (FilterNode.predicate p.0) p.1) (parse_predicate-ends values tokens)
              (λ p rest k. ground arith))
            (λ rest k.
              ends->>= (length rest) (length tokens) (parse_or_nodes values fuel rest) _
                (parse_or_nodes-ends fuel rest (omega arith))
                (λ nodes after l.
                  ends_then (length tokens) (expect_token r_paren) after
                    (λ closed. parsed (joined values or nodes) closed.1) (expect_token-ends r_paren)
                    (omega arith) (λ _ closed m. ground arith))))
          (λ rest k.
            ends->>= (length rest) (length tokens) (parse_unary_expression values fuel rest)
              (λ node. parsed (FilterNode.negation node.0) node.1)
              (parse_unary_expression-ends fuel rest (omega arith)) (λ node after l. ground arith))

  -- The parser gives a node or an error for every list of tokens: its loops and its recursion end.
  pub parse_tokens-ends : (tokens : List FilterToken) → is_some (parse_tokens values tokens) ≡ true
  unfolding parse_tokens
  parse_tokens-ends tokens =
      ended (parse_or_nodes values (3 * length tokens + 3) tokens)
        (parse_or_nodes-ends (3 * length tokens + 3) tokens (omega arith))
    where
      ended :
          (m : Parsed (FilterNodes P))
          → ends (length tokens) m ≡ true
          → is_some (expect_end values m) ≡ true
      ended (parsed nodes []) h = refl
      ended (parsed nodes (token ∷ rest)) h = refl
      ended (failed e) h = refl
      ended unfinished h = ground arith
