-- ===== src/DynamoDb/Text.antt =====
-- The methods of `str` that query_server/src/dynamodb_protocol.rs calls on expressions, on lists of
-- characters, and its `resolve_expression_names` and `resolve_attribute_name`.
use Prim.Native.Char.{Char, code}
use powdrr_engine.Common.{
  ℕ, zero, suc, ◌+◌, ◌-◌, String, Bool, true, false, ◌&&◌, Option, none, some, List, [], ◌∷◌, ◌++◌,
  if◌then◌else◌, ◌==◌, nat_eq, string_eq, ltb, length, option_map, ◌>>=◌ as ◌>>=?◌,
}
use powdrr_engine.Common.Dict.{Dict, get}
use powdrr_engine.Json.{width}
use powdrr_engine.DynamoDb.Error.{validation, Result, ok, ok_or}
use powdrr_engine.DynamoDb.Scalars.{chars, of_chars}
use powdrr_engine.DynamoDb.Tokenizer.{is_whitespace}

abbrev pub is_empty : List Char → Bool
is_empty [] = true
is_empty _ = false

unfoldable pub trim_start : List Char → List Char
trim_start [] = []
trim_start (c ∷ cs) = let rest = trim_start cs in if is_whitespace (code c) then rest else c ∷ cs

unfoldable pub trim_end : List Char → List Char
trim_end [] = []
trim_end (c ∷ cs) =
    let rest = trim_end cs in if is_whitespace (code c) && is_empty rest then [] else c ∷ rest

abbrev pub trim : List Char → List Char
trim text = trim_end (trim_start text)

-- `str::len`, in bytes
abbrev pub byte_len : List Char → ℕ
byte_len [] = 0
byte_len (c ∷ cs) = width (code c) + byte_len cs

-- `split_at`: `none` where the byte index is not at the start of a character
unfoldable pub split_at : List Char → ℕ → Option (List Char × List Char)
split_at [] n = if n == 0 then some ([], []) else none
split_at (c ∷ cs) n =
    let rest = split_at cs (n - width (code c)) in
    if n == 0
    then some ([], c ∷ cs)
    else if ltb n (width (code c))
    then none
    else option_map (λ parts. (c ∷ parts.0, parts.1)) rest

-- `strip_prefix`
unfoldable pub strip_prefix : List Char → List Char → Option (List Char)
strip_prefix text [] = some text
strip_prefix [] (p ∷ prefix) = none
strip_prefix (c ∷ text) (p ∷ prefix) =
    let rest = strip_prefix text prefix in if code c == code p then rest else none

-- `strip_suffix` of one character
unfoldable pub strip_last : List Char → Char → Option (List Char)
strip_last [] p = none
strip_last (c ∷ []) p = if code c == code p then some [] else none
strip_last (c ∷ d ∷ cs) p = option_map (λ rest. c ∷ rest) (strip_last (d ∷ cs) p)

-- `split_once`: the text before the first place of the separator, and the text after it
unfoldable pub split_once : List Char → List Char → Option (List Char × List Char)
split_once separator [] = option_map (λ rest. ([], rest)) (strip_prefix [] separator)
split_once separator (c ∷ cs) =
    let later = split_once separator cs in
    elim (strip_prefix (c ∷ cs) separator) [
      | some rest ↦ some ([], rest)
      | none ↦ option_map (λ parts. (c ∷ parts.0, parts.1)) later
    ]

abbrev pub cons_first : Char → List (List Char) → List (List Char)
cons_first c [] = (c ∷ []) ∷ []
cons_first c (part ∷ parts) = (c ∷ part) ∷ parts

-- `split` at a character
unfoldable pub split : ℕ → List Char → List (List Char)
split separator [] = [] ∷ []
split separator (c ∷ cs) =
    let rest = split separator cs in if code c == separator then [] ∷ rest else cons_first c rest

abbrev pub push_word : List Char → List (List Char) → List (List Char)
push_word [] words = words
push_word (c ∷ cs) words = (c ∷ cs) ∷ words

-- the word that the text begins with, and the words after it
unfoldable pub words_from : List Char → List Char × List (List Char)
words_from [] = ([], [])
words_from (c ∷ cs) =
    let rest = words_from cs in
    if is_whitespace (code c) then ([], push_word rest.0 rest.1) else (c ∷ rest.0, rest.1)

unfoldable pub split_whitespace : List Char → List (List Char)
split_whitespace text = push_word (words_from text).0 (words_from text).1

-- `str::replace`: the places of the pattern that do not overlap, from the left. The number counts the
-- characters of a place that are still to be passed.
unfoldable pub replace_from : List Char → List Char → ℕ → List Char → List Char
replace_from from to skip [] = if is_empty from then to else []
replace_from from to (suc skip) (c ∷ cs) = replace_from from to skip cs
replace_from from to zero (c ∷ cs) =
    let found = replace_from from to (length from - 1) cs in
    let other = replace_from from to zero cs in
    if is_empty from
    then to ++ (c ∷ other)
    else elim (strip_prefix (c ∷ cs) from) [ some rest ↦ to ++ found | none ↦ c ∷ other ]

-- the loop over the aliases, in the order of the map
unfoldable pub replace_all : List Char → Dict String String → List Char
replace_all resolved [] = resolved
replace_all resolved ((alias, field_name) ∷ names) =
    replace_all (replace_from (chars alias) (chars field_name) 0 resolved) names

unfoldable pub resolve_expression_names : String → Option (Dict String String) → List Char
resolve_expression_names expression none = chars expression
resolve_expression_names expression (some names) = replace_all (chars expression) names

unfoldable pub resolve_attribute_name : List Char → Option (Dict String String) → Result (List Char)
resolve_attribute_name token names = elim (strip_prefix token (chars "#")) [
  | none ↦ ok token
  | some rest ↦ ok_or validation (option_map chars (names >>=? λ known. get known (of_chars token)))
]
