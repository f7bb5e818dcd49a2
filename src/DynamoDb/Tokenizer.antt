-- ===== src/DynamoDb/Tokenizer.antt =====
-- The tokenizer of filter expressions, `tokenize_filter_expression` of
-- query_server/src/dynamodb_protocol.rs, on the characters from its index on.
pub mod Written
use Prim.Native.Char.{Char, code}
use powdrr_engine.Common.{
  ℕ, zero, suc, String, Bool, ◌&&◌, ◌||◌, Option, none, some, List, [], ◌∷◌, if◌then◌else◌, ◌==◌,
  nat_eq, leb, length, option_map,
}
use powdrr_engine.DynamoDb.Error.{validation, Result, ok, err, ◌>>=◌}
use powdrr_engine.DynamoDb.Scalars.{chars, of_chars}
use powdrr_engine.DynamoDb.Tokens.{
  FilterToken, identifier, value_token, l_paren, r_paren, comma, eq, lt, lte, gt, gte, and_token,
  or_token, not_token, between, in_token, eq_ignore_ascii_case,
}

abbrev pub in_range : ℕ → ℕ → ℕ → Bool
in_range low high c = leb low c && leb c high

-- `is_whitespace`, the property White_Space of Unicode
abbrev pub is_whitespace : ℕ → Bool
is_whitespace c =
    in_range 9 13 c
    || c == 32
    || c == 133
    || c == 160
    || c == 5760
    || in_range 8192 8202 c
    || in_range 8232 8233 c
    || c == 8239
    || c == 8287
    || c == 12288

abbrev pub is_ascii_alphabetic : ℕ → Bool
is_ascii_alphabetic c = in_range 65 90 c || in_range 97 122 c

abbrev pub is_filter_identifier_start : ℕ → Bool
is_filter_identifier_start c = is_ascii_alphabetic c || c == 95

abbrev pub is_filter_identifier_character : ℕ → Bool
is_filter_identifier_character c =
    is_ascii_alphabetic c || in_range 48 57 c || c == 95 || c == 45 || c == 46

-- the inner loops: the characters of an identifier, and those after it
unfoldable pub take_identifier : List Char → List Char × List Char
take_identifier [] = ([], [])
take_identifier (c ∷ cs) =
    let rest = take_identifier cs in
    if is_filter_identifier_character (code c) then (c ∷ rest.0, rest.1) else ([], c ∷ cs)

-- the keywords, in any case
unfoldable pub keyword_or_identifier : String → FilterToken
keyword_or_identifier token =
    if eq_ignore_ascii_case token "AND"
    then and_token
    else if eq_ignore_ascii_case token "OR"
    then or_token
    else if eq_ignore_ascii_case token "NOT"
    then not_token
    else if eq_ignore_ascii_case token "BETWEEN"
    then between
    else if eq_ignore_ascii_case token "IN"
    then in_token
    else identifier token

-- a token that an equals sign may lengthen
abbrev pub with_equals : FilterToken → FilterToken → List Char → FilterToken × List Char
with_equals short long [] = (short, [])
with_equals short long (c ∷ cs) = if code c == 61 then (long, cs) else (short, c ∷ cs)

abbrev pub one_token : FilterToken × List Char → Result (Option FilterToken × List Char)
one_token read = ok (some read.0, read.1)

-- one turn of the loop: a token or white space, and the characters after it
unfoldable pub next_token : Char → List Char → Result (Option FilterToken × List Char)
next_token c cs =
    if is_whitespace (code c)
    then ok (none, cs)
    else if code c == 40
    then one_token (l_paren, cs)
    else if code c == 41
    then one_token (r_paren, cs)
    else if code c == 44
    then one_token (comma, cs)
    else if code c == 61
    then one_token (eq, cs)
    else if code c == 60
    then one_token (with_equals lt lte cs)
    else if code c == 62
    then one_token (with_equals gt gte cs)
    else if code c == 58
    then (let name = take_identifier cs in one_token (value_token (of_chars (c ∷ name.0)), name.1))
    else if is_filter_identifier_start (code c)
    then (let name = take_identifier cs in
        one_token (keyword_or_identifier (of_chars (c ∷ name.0)), name.1))
    else err validation

abbrev pub push_token : Option FilterToken → List FilterToken → List FilterToken
push_token none tokens = tokens
push_token (some token) tokens = token ∷ tokens

-- what is read of the characters after a turn, by `more`
abbrev pub read_rest :
    (List Char → Option (Result (List FilterToken)))
    → Result (Option FilterToken × List Char)
    → Option (Result (List FilterToken))
read_rest more (err e) = some (err e)
read_rest more (ok (token, cs)) =
    option_map (λ read. read >>= λ tokens. ok (push_token token tokens)) (more cs)

-- `none` is a loop that has not ended
unfoldable pub tokenize : ℕ → List Char → Option (Result (List FilterToken))
tokenize zero cs = none
tokenize (suc fuel) [] = some (ok [])
tokenize (suc fuel) (c ∷ cs) = read_rest (tokenize fuel) (next_token c cs)

unfoldable pub tokenize_filter_expression : String → Option (Result (List FilterToken))
tokenize_filter_expression expression =
    tokenize (suc (length (chars expression))) (chars expression)
