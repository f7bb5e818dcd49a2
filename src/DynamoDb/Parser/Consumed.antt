-- ===== src/DynamoDb/Parser/Consumed.antt =====
-- The parts of `FilterParser` of query_server/src/dynamodb_protocol.rs that do not loop on nodes leave
-- fewer tokens than they are given.
use powdrr_engine.Common.{
  ℕ, suc, ◌<◌, ◌≤◌, ◌≡◌, refl, String, Bool, true, false, Option, none, some, List, [], ◌∷◌,
  if◌then◌else◌, nat_eq, ltb, length, arith, Option-cases, inl, inr,
}
use powdrr_engine.Common.Dict.{Dict}
use powdrr_engine.Json.{Floats, Value}
use powdrr_engine.DynamoDb.Error.{validation, Result, ok, err}
use powdrr_engine.DynamoDb.Attributes.{lookup_expression_value}
use powdrr_engine.DynamoDb.Filter.{FilterOperand}
use powdrr_engine.DynamoDb.Tokens.{
  FilterToken, l_paren, r_paren, comma, Parsed, parsed, failed, unfinished, ◌>>=◌, consume_token,
  expect_token, name_of, value_name_of, text_of, eq_ignore_ascii_case, expect_identifier_ci,
  parse_identifier, parse_single_field_function, parse_filter_operand,
}
use powdrr_engine.DynamoDb.Parser.{
  of_result, parse_value_token, parse_field_value_function, parse_more_values,
}

-- the parser did not loop, and fewer tokens than these are left
abbrev pub ends : {A : Type 0} → ℕ → Parsed A → Bool
ends n (parsed a tokens) = ltb (length tokens) n
ends n (failed e) = true
ends n unfinished = false

pub ends->>= :
    {A B : Type 0} (k n : ℕ) (m : Parsed A) (f : A × List FilterToken → Parsed B)
    → ends k m ≡ true
    → ((a : A) (rest : List FilterToken) → length rest < k → ends n (f (a, rest)) ≡ true)
    → ends n (m >>= f) ≡ true
ends->>= k n (parsed a tokens) f h r = r a tokens (ground arith)
ends->>= k n (failed e) f h r = refl
ends->>= k n unfinished f h r = ground arith

pub ends_more : {A : Type 0} (k n : ℕ) (m : Parsed A) → ends k m ≡ true → k ≤ n → ends n m ≡ true
ends_more k n (parsed a tokens) h le = ground arith
ends_more k n (failed e) h le = refl
ends_more k n unfinished h le = ground arith

-- what a token that is consumed leaves
abbrev pub leaves : List FilterToken → {A : Type 0} → (A → List FilterToken) → Option A → Bool
leaves tokens rest none = true
leaves tokens rest (some a) = ltb (length (rest a)) (length tokens)

pub consume_token-leaves :
    (expected : FilterToken) (tokens : List FilterToken)
    → leaves tokens (λ rest. rest) (consume_token expected tokens) ≡ true
consume_token-leaves expected [] = refl
consume_token-leaves expected (token ∷ tokens) = ground arith

text_of-leaves :
    (kind : FilterToken → Option String) (tokens : List FilterToken)
    → leaves tokens (λ r. r.1) (text_of kind tokens) ≡ true
text_of-leaves kind [] = refl
text_of-leaves kind (token ∷ tokens) = elim (Option-cases (kind token)) [
  | inl e ↦ rw (leaves, e) refl
  | inr (text, e) ↦ rw (leaves, e) (ground arith)
]

pub ends_cases :
    {A B : Type 0} (n : ℕ) (tokens : List FilterToken) (rest : A → List FilterToken) (o : Option A)
    (missing : Parsed B) (found : A → Parsed B)
    → leaves tokens rest o ≡ true
    → ends n missing ≡ true
    → ((a : A) → length (rest a) < length tokens → ends n (found a) ≡ true)
    → ends n (elim o [ none ↦ missing | some a ↦ found a ]) ≡ true
ends_cases n tokens rest none missing found l m f = m
ends_cases n tokens rest (some a) missing found l m f = f a (ground arith)

pub ends_if :
    {A : Type 0} (n : ℕ) (test : Bool) (m k : Parsed A)
    → ends n m ≡ true
    → ends n k ≡ true
    → ends n (if test then m else k) ≡ true
ends_if n true m k h l = h
ends_if n false m k h l = l

-- a parser leaves fewer tokens than it is given
abbrev pub IsEnding : {A : Type 0} → (List FilterToken → Parsed A) → Type 0
IsEnding p = (tokens : List FilterToken) → ends (length tokens) (p tokens) ≡ true

pub ends_then :
    {A B : Type 0} (n : ℕ) (p : List FilterToken → Parsed A) (tokens : List FilterToken)
    (f : A × List FilterToken → Parsed B)
    → IsEnding p
    → length tokens ≤ n
    → ((a : A) (rest : List FilterToken) → length rest < n → ends n (f (a, rest)) ≡ true)
    → ends n (p tokens >>= f) ≡ true
ends_then n p tokens f e h r =
    ends->>= n n (p tokens) f (ends_more (length tokens) n (p tokens) (e tokens) h) r

pub expect_token-ends : (expected : FilterToken) → IsEnding (expect_token expected)
expect_token-ends expected tokens =
    ends_cases (length tokens) tokens (λ rest. rest) (consume_token expected tokens)
      (failed validation) (λ rest. parsed tt rest) (consume_token-leaves expected tokens) refl
      (λ rest h. ground arith)

expect_identifier_ci-ends : (name : String) → IsEnding (expect_identifier_ci name)
expect_identifier_ci-ends name tokens =
    ends_cases (length tokens) tokens (λ r. r.1) (text_of name_of tokens) (failed validation)
      (λ r. if eq_ignore_ascii_case r.0 name then parsed tt r.1 else failed validation)
      (text_of-leaves name_of tokens) refl (λ r h. ground arith)

parse_identifier-ends : IsEnding parse_identifier
parse_identifier-ends tokens =
    ends_cases (length tokens) tokens (λ r. r.1) (text_of name_of tokens) (failed validation)
      (λ r. parsed r.0 r.1) (text_of-leaves name_of tokens) refl (λ r h. ground arith)

pub parse_single_field_function-ends : (name : String) → IsEnding (parse_single_field_function name)
unfolding parse_single_field_function
parse_single_field_function-ends name tokens =
    ends_then (length tokens) (expect_identifier_ci name) tokens _ (expect_identifier_ci-ends name)
      (omega arith)
      (λ _ called a.
        ends_then (length tokens) (expect_token l_paren) called _ (expect_token-ends l_paren)
          (omega arith)
          (λ _ opened b.
            ends_then (length tokens) parse_identifier opened _ parse_identifier-ends (omega arith)
              (λ field after c.
                ends_then (length tokens) (expect_token r_paren) after
                  (λ closed. parsed field closed.1) (expect_token-ends r_paren) (omega arith)
                  (λ _ closed d. ground arith))))

pub parse_filter_operand-ends : IsEnding parse_filter_operand
unfolding parse_filter_operand
parse_filter_operand-ends tokens =
    ends_if (length tokens) _ _ _
      (ends_then (length tokens) (parse_single_field_function "size") tokens
        (λ field. parsed (FilterOperand.size field.0) field.1)
        (parse_single_field_function-ends "size") (omega arith) (λ field rest h. ground arith))
      (ends_then (length tokens) parse_identifier tokens
        (λ field. parsed (FilterOperand.field field.0) field.1) parse_identifier-ends (omega arith)
        (λ field rest h. ground arith))

module _ {P : Floats} (values : Dict String (Value P)) where
  of_result-ends :
      {A : Type 0} (n : ℕ) (r : Result A) (tokens : List FilterToken)
      → length tokens < n
      → ends n (of_result values r tokens) ≡ true
  of_result-ends n (ok a) tokens h = ground arith
  of_result-ends n (err e) tokens h = refl

  pub parse_value_token-ends : IsEnding (parse_value_token values)
  unfolding parse_value_token
  parse_value_token-ends tokens =
      ends_cases (length tokens) tokens (λ r. r.1) (text_of value_name_of tokens)
        (failed validation) (λ r. of_result values (lookup_expression_value r.0 values) r.1)
        (text_of-leaves value_name_of tokens) refl
        (λ r h. of_result-ends (length tokens) (lookup_expression_value r.0 values) r.1 h)

  pub parse_field_value_function-ends :
      (name : String) → IsEnding (parse_field_value_function values name)
  unfolding parse_field_value_function
  parse_field_value_function-ends name tokens =
      ends_then (length tokens) (expect_identifier_ci name) tokens _
        (expect_identifier_ci-ends name) (omega arith)
        (λ _ called a.
          ends_then (length tokens) (expect_token l_paren) called _ (expect_token-ends l_paren)
            (omega arith)
            (λ _ opened b.
              ends_then (length tokens) parse_identifier opened _ parse_identifier-ends
                (omega arith)
                (λ field after c.
                  ends_then (length tokens) (expect_token comma) after _ (expect_token-ends comma)
                    (omega arith)
                    (λ _ separated d.
                      ends_then (length tokens) (parse_value_token values) separated _
                        parse_value_token-ends (omega arith)
                        (λ value left e.
                          ends_then (length tokens) (expect_token r_paren) left
                            (λ closed. parsed (field, value) closed.1) (expect_token-ends r_paren)
                            (omega arith) (λ _ closed f. ground arith))))))

  pub parse_more_values-ends :
      (tokens : List FilterToken)
      → ends (suc (length tokens)) (parse_more_values values tokens) ≡ true
  unfolding parse_more_values
  parse_more_values-ends [] = refl
  parse_more_values-ends (token ∷ []) =
      ends_if 2 _ (failed validation) (parsed [] (token ∷ [])) refl refl
  parse_more_values-ends (token ∷ next ∷ tokens) =
      ends_if (suc (length (token ∷ next ∷ tokens))) _ _ (parsed [] (token ∷ next ∷ tokens))
        (ends_then (suc (length (token ∷ next ∷ tokens))) (parse_value_token values) (next ∷ tokens)
          _ parse_value_token-ends (omega arith)
          (λ value left e.
            ends->>= (suc (length tokens)) (suc (length (token ∷ next ∷ tokens)))
              (parse_more_values values tokens) (λ rest. parsed (value ∷ rest.0) rest.1)
              (parse_more_values-ends tokens) (λ rest after h. ground arith)))
        (ground arith)
