-- ===== src/DynamoDb/Tokenizer/Written.antt =====
-- Tokens that are written with a space after each are read again by `tokenize_filter_expression` of
-- query_server/src/dynamodb_protocol.rs.
use Prim.Native.Char.{Char, code}
use powdrr_engine.Common.{
  ℕ, zero, suc, ◌+◌, ◌<◌, ◌≤◌, ◌≡◌, refl, ◌∙◌, ap, subst, String, Bool, true, false, ◌&&◌, ◌||◌,
  not, some, List, [], ◌∷◌, ◌++◌, ◌==◌, nat_eq, length, all, arith, length-append, Bool-cases, inl,
  inr,
}
use powdrr_engine.DynamoDb.Error.{ok}
use powdrr_engine.DynamoDb.Scalars.{chars, of_chars, of_chars-chars}
use powdrr_engine.DynamoDb.Tokens.{
  FilterToken, identifier, value_token, l_paren, r_paren, comma, eq, lt, lte, gt, gte, and_token,
  or_token, not_token, between, in_token, eq_ignore_ascii_case,
}
use powdrr_engine.DynamoDb.Tokenizer.{
  is_whitespace, is_filter_identifier_start, is_filter_identifier_character, take_identifier,
  keyword_or_identifier, next_token, tokenize, tokenize_filter_expression,
}

abbrev pub token_text : FilterToken → String
token_text (identifier name) = name
token_text (value_token name) = name
token_text l_paren = "("
token_text r_paren = ")"
token_text comma = ","
token_text eq = "="
token_text lt = "<"
token_text lte = "<="
token_text gt = ">"
token_text gte = ">="
token_text and_token = "AND"
token_text or_token = "OR"
token_text not_token = "NOT"
token_text between = "BETWEEN"
token_text in_token = "IN"

abbrev pub is_name_character : Char → Bool
is_name_character c = is_filter_identifier_character (code c)

abbrev pub starts_name : (ℕ → Bool) → List Char → Bool
starts_name start [] = false
starts_name start (c ∷ cs) = start (code c) && all is_name_character cs

abbrev pub is_keyword : String → Bool
is_keyword name =
    eq_ignore_ascii_case name "AND"
    || eq_ignore_ascii_case name "OR"
    || eq_ignore_ascii_case name "NOT"
    || eq_ignore_ascii_case name "BETWEEN"
    || eq_ignore_ascii_case name "IN"

-- the tokens that a text can have: names and value tokens of the right characters, no name a keyword
abbrev pub can_be_written : FilterToken → Bool
can_be_written (identifier name) =
    starts_name is_filter_identifier_start (chars name) && not (is_keyword name)
can_be_written (value_token name) = starts_name (λ c. c == 58) (chars name)
can_be_written token = true

-- the texts of the tokens, with a space after each
abbrev pub written : List FilterToken → List Char
written [] = []
written (token ∷ tokens) = chars (token_text token) ++ (chars " " ++ written tokens)

take_identifier-append :
    (cs rest : List Char)
    → all is_name_character cs ≡ true
    → take_identifier (cs ++ (chars " " ++ rest)) ≡ (cs, chars " " ++ rest)
unfolding take_identifier
take_identifier-append [] rest h = refl
take_identifier-append (c ∷ cs) rest h =
    rw (take_identifier-append cs rest (ground arith)) (ground arith)

name_is_not_space : (c : ℕ) → is_filter_identifier_start c ≡ true → is_whitespace c ≡ false
name_is_not_space c h = ground arith

name_is_not :
    (c k : ℕ)
    → is_filter_identifier_start c ≡ true
    → is_filter_identifier_start k ≡ false
    → (c == k) ≡ false
name_is_not c k h e = elim (Bool-cases (c == k)) [
  | inl same ↦ cc (ap is_filter_identifier_start ((nat_eq.same_iff c k).0 same))
  | inr other ↦ other
]

abbrev Reads : FilterToken → List Char → Type 0
Reads token [] = ⊥
Reads token (c ∷ cs) =
    (rest : List Char)
    → next_token c (cs ++ (chars " " ++ rest)) ≡ ok (some token, chars " " ++ rest)

Reads-name :
    (cs : List Char)
    → starts_name is_filter_identifier_start cs ≡ true
    → Reads (keyword_or_identifier (of_chars cs)) cs
unfolding next_token
Reads-name [] h = ground arith
Reads-name (c ∷ cs) h = λ rest.
    rw
      (
        name_is_not_space (code c) (start c cs h),
        name_is_not (code c) 40 (start c cs h) refl,
        name_is_not (code c) 41 (start c cs h) refl,
        name_is_not (code c) 44 (start c cs h) refl,
        name_is_not (code c) 61 (start c cs h) refl,
        name_is_not (code c) 60 (start c cs h) refl,
        name_is_not (code c) 62 (start c cs h) refl,
        name_is_not (code c) 58 (start c cs h) refl,
        start c cs h,
        take_identifier-append cs rest (ground arith),
      )
      refl
  where
    start :
        (c : Char) (cs : List Char)
        → starts_name is_filter_identifier_start (c ∷ cs) ≡ true
        → is_filter_identifier_start (code c) ≡ true
    start c cs h = ground arith

Reads-value :
    (cs : List Char) → starts_name (λ c. c == 58) cs ≡ true → Reads (value_token (of_chars cs)) cs
unfolding next_token
Reads-value [] h = ground arith
Reads-value (c ∷ cs) h = λ rest.
    rw
      (
        (nat_eq.same_iff (code c) 58).0 (ground arith),
        take_identifier-append cs rest (ground arith),
      )
      refl

keyword_or_identifier_lem :
    (name : String) → is_keyword name ≡ false → keyword_or_identifier name ≡ identifier name
unfolding keyword_or_identifier
keyword_or_identifier_lem name h = ground arith

next_token_lem :
    (token : FilterToken) → can_be_written token ≡ true → Reads token (chars (token_text token))
unfolding next_token take_identifier keyword_or_identifier eq_ignore_ascii_case
next_token_lem (identifier name) h =
    subst (λ t. Reads t (chars name))
      (ap keyword_or_identifier (of_chars-chars name)
        ∙ keyword_or_identifier_lem name (ground arith))
      (Reads-name (chars name) (ground arith))
next_token_lem (value_token name) h =
    subst (λ t. Reads (value_token t) (chars name)) (of_chars-chars name)
      (Reads-value (chars name) h)
next_token_lem l_paren h = λ rest. refl
next_token_lem r_paren h = λ rest. refl
next_token_lem comma h = λ rest. refl
next_token_lem eq h = λ rest. refl
next_token_lem lt h = λ rest. refl
next_token_lem lte h = λ rest. refl
next_token_lem gt h = λ rest. refl
next_token_lem gte h = λ rest. refl
next_token_lem and_token h = λ rest. refl
next_token_lem or_token h = λ rest. refl
next_token_lem not_token h = λ rest. refl
next_token_lem between h = λ rest. refl
next_token_lem in_token h = λ rest. refl

tokenize-space :
    (fuel : ℕ) (rest : List Char) (tokens : List FilterToken)
    → tokenize fuel rest ≡ some (ok tokens)
    → tokenize (suc fuel) (chars " " ++ rest) ≡ some (ok tokens)
unfolding tokenize next_token
tokenize-space fuel rest tokens h = rw h refl

-- the loop takes the token and the space after it
tokenize-step :
    (fuel : ℕ) (token : FilterToken) (cs rest : List Char) (tokens : List FilterToken)
    → Reads token cs
    → tokenize fuel rest ≡ some (ok tokens)
    → tokenize (suc (suc fuel)) (cs ++ (chars " " ++ rest)) ≡ some (ok (token ∷ tokens))
unfolding tokenize
tokenize-step fuel token [] rest tokens r h = absurd r
tokenize-step fuel token (c ∷ cs) rest tokens r h =
    rw (r rest, tokenize-space fuel rest tokens h) refl

length-Reads : (token : FilterToken) (cs : List Char) → Reads token cs → 1 ≤ length cs
length-Reads token [] r = absurd r
length-Reads token (c ∷ cs) r = omega arith

-- a token's text and the space after it
length-written :
    (token : FilterToken) (tokens : List FilterToken)
    → can_be_written token ≡ true
    → length (written tokens) + 2 ≤ length (written (token ∷ tokens))
length-written token tokens h = omega (
  arith,
  length-append (chars (token_text token)) (chars " " ++ written tokens),
  length-Reads token (chars (token_text token)) (next_token_lem token h),
)

pub tokenize-written :
    (fuel : ℕ) (tokens : List FilterToken)
    → all can_be_written tokens ≡ true
    → length (written tokens) < fuel
    → tokenize fuel (written tokens) ≡ some (ok tokens)
unfolding tokenize
tokenize-written zero tokens h l = absurd (omega arith)
tokenize-written (suc fuel) [] h l = refl
tokenize-written (suc zero) (token ∷ tokens) h l =
    absurd (omega (arith, length-written token tokens (ground arith)))
tokenize-written (suc (suc fuel)) (token ∷ tokens) h l =
    tokenize-step fuel token (chars (token_text token)) (written tokens) tokens
      (next_token_lem token (ground arith))
      (tokenize-written fuel tokens (ground arith)
        (omega (arith, length-written token tokens (ground arith))))

chars-of_chars : (cs : List Char) → chars (of_chars cs) ≡ cs
chars-of_chars [] = refl
chars-of_chars (c ∷ cs) = ap (λ xs. c ∷ xs) (chars-of_chars cs)

pub tokenize_filter_expression-written :
    (tokens : List FilterToken)
    → all can_be_written tokens ≡ true
    → tokenize_filter_expression (of_chars (written tokens)) ≡ some (ok tokens)
unfolding tokenize_filter_expression
tokenize_filter_expression-written tokens h =
    rw (chars-of_chars (written tokens))
      (tokenize-written (suc (length (written tokens))) tokens h (omega arith))
