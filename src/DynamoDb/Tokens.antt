-- ===== src/DynamoDb/Tokens.antt =====
-- The tokens of filter expressions in query_server/src/dynamodb_protocol.rs, and the parts of its
-- `FilterParser` that read names and punctuation, on the tokens from its index on.
use powdrr_engine.Common.{
  ℕ, ◌+◌, String, Bool, true, false, ◌&&◌, Option, none, some, List, [], ◌∷◌, if◌then◌else◌, ◌==◌,
  nat_eq, string_eq, leb, option_map,
}
use powdrr_engine.Json.{codes}
use powdrr_engine.DynamoDb.Error.{DynamoDbError, validation}
use powdrr_engine.DynamoDb.Filter.{FilterOperand}

pub data FilterToken : Type 0 where
  identifier value_token : String → FilterToken
  l_paren r_paren comma eq lt lte gt gte and_token or_token not_token between in_token : FilterToken

-- what the parser gives: a result and the tokens after it, an error, or a loop that has not ended
pub data Parsed (A : Type 0) : Type 0 where
  parsed : A → List FilterToken → Parsed A
  failed : DynamoDbError → Parsed A
  unfinished : Parsed A

infixl 5 ◌>>=◌
abbrev pub ◌>>=◌ : {A B : Type 0} → Parsed A → (A × List FilterToken → Parsed B) → Parsed B
parsed a tokens >>= f = f (a, tokens)
failed e >>= f = failed e
unfinished >>= f = unfinished

-- the code of a token without a text
abbrev pub kind_of : FilterToken → ℕ
kind_of (identifier name) = 0
kind_of (value_token name) = 1
kind_of l_paren = 2
kind_of r_paren = 3
kind_of comma = 4
kind_of eq = 5
kind_of lt = 6
kind_of lte = 7
kind_of gt = 8
kind_of gte = 9
kind_of and_token = 10
kind_of or_token = 11
kind_of not_token = 12
kind_of between = 13
kind_of in_token = 14

-- `consume_token` of a token without a text: the tokens after it, where it is the next one
abbrev pub consume_token : FilterToken → List FilterToken → Option (List FilterToken)
consume_token expected [] = none
consume_token expected (token ∷ tokens) =
    if kind_of token == kind_of expected then some tokens else none

abbrev pub expect_token : FilterToken → List FilterToken → Parsed (Unit {0})
expect_token expected tokens = elim (consume_token expected tokens) [
  | none ↦ failed validation
  | some rest ↦ parsed tt rest
]

abbrev lower : ℕ → ℕ
lower c = if leb 65 c && leb c 90 then c + 32 else c

abbrev same_codes : List ℕ → List ℕ → Bool
same_codes [] [] = true
same_codes (a ∷ as_codes) (b ∷ bs) = lower a == lower b && same_codes as_codes bs
same_codes _ _ = false

unfoldable pub eq_ignore_ascii_case : String → String → Bool
eq_ignore_ascii_case a b = same_codes (codes a) (codes b)

-- `next_token`, where it has a text of the one or the other kind
abbrev pub name_of : FilterToken → Option String
name_of (identifier value) = some value
name_of _ = none

abbrev pub value_name_of : FilterToken → Option String
value_name_of (value_token token) = some token
value_name_of _ = none

abbrev pub text_of :
    (FilterToken → Option String) → List FilterToken → Option (String × List FilterToken)
text_of kind [] = none
text_of kind (token ∷ tokens) = option_map (λ text. (text, tokens)) (kind token)

abbrev pub peek_function : String → List FilterToken → Bool
peek_function name tokens = elim (text_of name_of tokens) [
  | none ↦ false
  | some (value, rest) ↦ eq_ignore_ascii_case value name
]

abbrev pub expect_identifier_ci : String → List FilterToken → Parsed (Unit {0})
expect_identifier_ci expected tokens = elim (text_of name_of tokens) [
  | none ↦ failed validation
  | some (value, rest) ↦
      if eq_ignore_ascii_case value expected then parsed tt rest else failed validation
]

abbrev pub parse_identifier : List FilterToken → Parsed String
parse_identifier tokens = elim (text_of name_of tokens) [
  | none ↦ failed validation
  | some (value, rest) ↦ parsed value rest
]

unfoldable pub parse_single_field_function : String → List FilterToken → Parsed String
parse_single_field_function name tokens = expect_identifier_ci name tokens >>= λ called.
    expect_token l_paren called.1 >>= λ opened. parse_identifier opened.1 >>= λ field.
    expect_token r_paren field.1 >>= λ closed. parsed field.0 closed.1

unfoldable pub parse_filter_operand : List FilterToken → Parsed FilterOperand
parse_filter_operand tokens =
    if peek_function "size" tokens
    then (parse_single_field_function "size" tokens >>= λ field.
        parsed (FilterOperand.size field.0) field.1)
    else (parse_identifier tokens >>= λ field. parsed (FilterOperand.field field.0) field.1)
