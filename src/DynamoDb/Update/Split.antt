-- ===== src/DynamoDb/Update/Split.antt =====
-- How an update expression is split into actions and clauses, `split_next_update_action` and
-- `split_update_action_clauses` of query_server/src/dynamodb_protocol.rs. A slice of a text at a byte
-- that no character starts at is a panic.
use Prim.Native.Char.{Char, code}
use powdrr_engine.Common.{
  ◌≡◌, refl, arith, String, Bool, true, ◌&&◌, Option, none, some, List, [], ◌∷◌, if◌then◌else◌,
  nat_eq, string_eq, option_eq, ltb, map,
}
use powdrr_engine.DynamoDb.Error.{DynamoDbError, validation, Result, ok, err}
use powdrr_engine.DynamoDb.Scalars.{chars, of_chars}
use powdrr_engine.DynamoDb.Tokens.{eq_ignore_ascii_case}
use powdrr_engine.DynamoDb.Tokenizer.{is_whitespace}
use powdrr_engine.DynamoDb.Text.{is_empty, trim, trim_start, byte_len, split_at, split}

-- a value, an error, a panic, or a loop that has not ended
pub data Outcome (A : Type 0) : Type 0 where
  done : A → Outcome A
  failed : DynamoDbError → Outcome A
  panicked unfinished : Outcome A

infixl 5 ◌>>=◌
abbrev pub ◌>>=◌ : {A B : Type 0} → Outcome A → (A → Outcome B) → Outcome B
done a >>= f = f a
failed e >>= f = failed e
panicked >>= f = panicked
unfinished >>= f = unfinished

abbrev pub of_result : {A : Type 0} → Result A → Outcome A
of_result (ok a) = done a
of_result (err e) = failed e

-- A chain that succeeds succeeds in both of its parts.
pub bind_lem :
    {A B : Type 0} (m : Outcome A) (f : A → Outcome B) (b : B)
    → m >>= f ≡ done b
    → {C : Type 0} → ((a : A) → m ≡ done a → f a ≡ done b → C)
    → C
bind_lem (done a) f b h k = k a refl h
bind_lem (failed e) f b h k = ground arith
bind_lem panicked f b h k = ground arith
bind_lem unfinished f b h k = ground arith

pub of_result_lem : {A : Type 0} (r : Result A) (a : A) → of_result r ≡ done a → r ≡ ok a
of_result_lem (ok b) a h = cc
of_result_lem (err e) a h = absurd (ground arith)

pub done_same : {A : Type 0} (a b : A) → done a ≡ done b → a ≡ b
done_same a b h = cc

-- the keywords; the parser has no others
pub data ActionName : Type 0 where
  set_action remove_action add_action delete_action : ActionName

abbrev pub keyword : ActionName → String
keyword set_action = "SET"
keyword remove_action = "REMOVE"
keyword add_action = "ADD"
keyword delete_action = "DELETE"

abbrev pub action_names : List ActionName
action_names = set_action ∷ remove_action ∷ add_action ∷ delete_action ∷ []

-- `tail.chars().next().map(char::is_whitespace).unwrap_or(true)`
abbrev pub ends_word : List Char → Bool
ends_word [] = true
ends_word (c ∷ cs) = is_whitespace (code c)

-- the keyword that the text begins with, and the text after it
unfoldable pub leading_action :
    List ActionName → List Char → Outcome (Option (ActionName × List Char))
leading_action [] input = done none
leading_action (name ∷ later) input =
    let others = leading_action later input in
    if ltb (byte_len input) (byte_len (chars (keyword name)))
    then others
    else elim (split_at input (byte_len (chars (keyword name)))) [
      | none ↦ panicked
      | some (head, tail) ↦
          if eq_ignore_ascii_case (of_chars head) (keyword name) && ends_word tail
          then done (some (name, trim_start tail))
          else others
    ]

abbrev pub leading_update_action : List Char → Outcome (Option (ActionName × List Char))
leading_update_action input = leading_action action_names input

-- the text before the next keyword, and the text from it on
unfoldable pub find_next_update_action_start : Bool → List Char → Outcome (List Char × List Char)
find_next_update_action_start previous_was_whitespace [] = done ([], [])
find_next_update_action_start previous_was_whitespace (c ∷ cs) =
    let later = find_next_update_action_start (is_whitespace (code c)) cs >>= λ parts.
    done (c ∷ parts.0, parts.1) in
    if previous_was_whitespace
    then (leading_update_action (c ∷ cs) >>= λ found. elim found [
      | none ↦ later
      | some action ↦ done ([], c ∷ cs)
    ])
    else later

unfoldable pub split_next_update_action : List Char → Outcome (ActionName × List Char × List Char)
split_next_update_action expression = leading_update_action (trim_start expression) >>= λ found.
    elim found [
      | none ↦ failed validation
      | some (name, remainder) ↦ find_next_update_action_start true remainder >>= λ parts.
          if is_empty (trim parts.0)
          then failed validation
          else done (name, trim parts.0, trim_start parts.1)
    ]

abbrev pub non_empty : List (List Char) → List (List Char)
non_empty [] = []
non_empty (part ∷ parts) = if is_empty part then non_empty parts else part ∷ non_empty parts

abbrev pub some_clause : List (List Char) → Result (List (List Char))
some_clause [] = err validation
some_clause (clause ∷ clauses) = ok (clause ∷ clauses)

-- the parts between commas
unfoldable pub split_update_action_clauses : List Char → Result (List (List Char))
split_update_action_clauses action_body = some_clause (non_empty (map trim (split 44 action_body)))
