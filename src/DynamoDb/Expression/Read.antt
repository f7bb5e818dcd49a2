-- ===== src/DynamoDb/Expression/Read.antt =====
-- `parse_filter_expression` of query_server/src/dynamodb_protocol.rs ends, and reads the texts of the
-- grammar's phrases.
use Prim.Native.Char.{Char}
use powdrr_engine.Common.{
  ℕ, zero, suc, ◌<◌, ◌≤◌, ◌≡◌, refl, String, Bool, true, Option, none, some, List, [], ◌∷◌, nat_eq,
  leb, length, all, is_some, option_map, arith, Option-cases, inl, inr,
}
use powdrr_engine.Common.Dict.{Dict}
use powdrr_engine.Json.{Floats, Value}
use powdrr_engine.DynamoDb.Error.{Result, ok, err, ◌>>=◌}
use powdrr_engine.DynamoDb.Filter.{FilterNodes}
use powdrr_engine.DynamoDb.Scalars.{chars, of_chars}
use powdrr_engine.DynamoDb.Tokens.{FilterToken, lt, lte, gt, gte}
use powdrr_engine.DynamoDb.Tokenizer.{
  take_identifier, with_equals, one_token, next_token, read_rest, push_token, tokenize,
  tokenize_filter_expression,
}
use powdrr_engine.DynamoDb.Tokenizer.Written.{
  can_be_written, written, tokenize_filter_expression-written,
}
use powdrr_engine.DynamoDb.Parser.{parse_tokens}
use powdrr_engine.DynamoDb.Parser.Grammar.{
  Disjunction, disjunction_tokens, is_plain, disjunction_means, one_of_all,
}
use powdrr_engine.DynamoDb.Parser.Complete.{parse_tokens-disjunction_tokens}
use powdrr_engine.DynamoDb.Parser.Ends.{parse_tokens-ends}
use powdrr_engine.DynamoDb.Expression.{with_fields, parse_read, parse_filter_expression}

length-take_identifier : (cs : List Char) → length (take_identifier cs).1 ≤ length cs
unfolding take_identifier
length-take_identifier [] = omega arith
length-take_identifier (c ∷ cs) = ground (arith, length-take_identifier cs)

-- a turn of the tokenizer leaves no more characters than come after the one that it reads
abbrev leaves : List Char → Result (Option FilterToken × List Char) → Bool
leaves cs (ok (token, rest)) = leb (length rest) (length cs)
leaves cs (err e) = true

with_equals-leaves :
    (short long : FilterToken) (cs : List Char)
    → leaves cs (one_token (with_equals short long cs)) ≡ true
with_equals-leaves short long [] = refl
with_equals-leaves short long (c ∷ cs) = ground arith

same_length : (cs : List Char) → leb (length cs) (length cs) ≡ true
same_length cs = ground arith

next_token-leaves : (c : Char) (cs : List Char) → leaves cs (next_token c cs) ≡ true
unfolding next_token
next_token-leaves c cs = ground (
  arith,
  same_length cs,
  with_equals-leaves lt lte cs,
  with_equals-leaves gt gte cs,
  length-take_identifier cs,
)

tokenize-ends : (fuel : ℕ) (cs : List Char) → length cs < fuel → is_some (tokenize fuel cs) ≡ true
unfolding tokenize
tokenize-ends zero cs h = absurd (omega arith)
tokenize-ends (suc fuel) [] h = refl
tokenize-ends (suc fuel) (c ∷ cs) h =
    rest_ends (tokenize fuel) cs (next_token c cs) (next_token-leaves c cs)
      (λ rest l. tokenize-ends fuel rest (omega arith))
  where
    rest_ends :
        (more : List Char → Option (Result (List FilterToken))) (cs : List Char)
        (read : Result (Option FilterToken × List Char))
        → leaves cs read ≡ true
        → ((rest : List Char) → length rest ≤ length cs → is_some (more rest) ≡ true)
        → is_some (read_rest more read) ≡ true
    rest_ends more cs (err e) l k = refl
    rest_ends more cs (ok (token, rest)) l k = mapped (more rest) (k rest (ground arith))
      where
        mapped :
            (o : Option (Result (List FilterToken)))
            → is_some o ≡ true
            → is_some (option_map (λ r. r >>= λ tokens. ok (push_token token tokens)) o) ≡ true
        mapped none m = ground arith
        mapped (some r) m = refl

module _ {P : Floats} where
  read_ends :
      (values : Dict String (Value P)) (read : Option (Result (List FilterToken)))
      → is_some read ≡ true
      → is_some (parse_read values read) ≡ true
  read_ends values none h = ground arith
  read_ends values (some (err e)) h = refl
  read_ends values (some (ok tokens)) h = elim (Option-cases (parse_tokens values tokens)) [
    | inl e ↦ absurd (cc (e, parse_tokens-ends values tokens))
    | inr (result, e) ↦ rw (parse_read, e) refl
  ]

  -- Every text is read as an expression, or refused: the loop over its characters and the parser of its
  -- tokens end, whatever the values are.
  pub parse_filter_expression-ends :
      (expression : Option String) (values : Option (Dict String (Value P)))
      → is_some (parse_filter_expression expression values) ≡ true
  unfolding parse_filter_expression tokenize_filter_expression
  parse_filter_expression-ends none values = refl
  parse_filter_expression-ends (some expression) none = refl
  parse_filter_expression-ends (some expression) (some values) =
      read_ends values (tokenize_filter_expression expression)
        (tokenize-ends (suc (length (chars expression))) (chars expression) (omega arith))

  -- The text of a phrase of the grammar, its tokens with a space after each, is read as the node that the
  -- phrase stands for, with OR looser than AND and AND looser than NOT, and with the fields of that node.
  -- This is so where the phrase stands for a node, which asks for a value of each value token, and for a
  -- text where the test is of a prefix or of a type; where each name starts with an ASCII letter or an
  -- underscore, goes on with the characters of names, and is none of the words AND, OR, NOT, BETWEEN and
  -- IN in any case; where each value token is a colon with characters of names; and where no attribute
  -- that is compared has the name of a function.
  pub parse_filter_expression-written :
      (values : Dict String (Value P)) (d : Disjunction) (nodes : FilterNodes P)
      → is_plain d ≡ true
      → disjunction_means values d ≡ ok nodes
      → all can_be_written (disjunction_tokens d []) ≡ true
      → parse_filter_expression (some (of_chars (written (disjunction_tokens d [])))) (some values)
        ≡ some (ok (with_fields (one_of_all values nodes)))
  unfolding parse_filter_expression
  parse_filter_expression-written values d nodes h m w =
      rw (tokenize_filter_expression-written (disjunction_tokens d []) w)
        (rw (parse_read, parse_tokens-disjunction_tokens values d nodes h m) refl)
