-- ===== src/DynamoDb/Update/Ends.antt =====
-- The loops of `parse_update_expression` in query_server/src/dynamodb_protocol.rs end: each action takes
-- characters of the text.
use Prim.Native.Char.{Char, code}
use powdrr_engine.Common.{
  ℕ, zero, suc, ◌+◌, ◌-◌, ◌≤◌, ◌<◌, String, ◌≡◌, ◌≢◌, subst, Bool, true, false, ◌&&◌, Option, none,
  some, List, [], ◌∷◌, if◌then◌else◌, ◌==◌, nat_eq, length, arith, Bool-cases, inl, inr,
  Option-cases, ltb,
}
use powdrr_engine.Common.Dict.{Dict}
use powdrr_engine.DataContract.Schema.{PowdrrSchema}
use powdrr_engine.Json.{Floats, Value, width}
use powdrr_engine.DynamoDb.Error.{validation, Result, ok, err, ◌>>=◌ as ◌>>=ᵣ◌}
use powdrr_engine.DynamoDb.Scalars.{chars, of_chars}
use powdrr_engine.DynamoDb.Tokens.{eq_ignore_ascii_case}
use powdrr_engine.DynamoDb.Tokenizer.{is_whitespace}
use powdrr_engine.DynamoDb.Text.{
  is_empty, trim, trim_start, split_at, byte_len, resolve_expression_names,
}
use powdrr_engine.DynamoDb.KeyRange.{DynamoDbKeySchemaConfig}
use powdrr_engine.DynamoDb.Update.{ParsedUpdateExpression}
use powdrr_engine.DynamoDb.Update.Split.{
  Outcome, done, failed, panicked, unfinished, ◌>>=◌, of_result, ActionName, action_names, keyword,
  set_action, remove_action, add_action, delete_action, ends_word, leading_action,
  leading_update_action, find_next_update_action_start, split_next_update_action,
  split_update_action_clauses,
}
use powdrr_engine.DynamoDb.Update.Parser.{
  parse_clauses, parse_actions, no_actions, parse_update_expression,
}

-- the outcome is not that of a loop that has not ended, and a value meets `Q`
abbrev pub Ends : {A : Type 0} → (A → Type 0) → Outcome A → Type 0
Ends Q (done a) = Q a
Ends Q (failed e) = Unit
Ends Q panicked = Unit
Ends Q unfinished = ⊥

bind-Ends :
    {A B : Type 0} (Q : A → Type 0) (R : B → Type 0) (m : Outcome A) (f : A → Outcome B)
    → Ends Q m
    → ((a : A) → Q a → Ends R (f a))
    → Ends R (m >>= f)
bind-Ends Q R (done a) f h k = k a h
bind-Ends Q R (failed e) f h k = tt
bind-Ends Q R panicked f h k = tt
bind-Ends Q R unfinished f h k = h

of_result-Ends :
    {A : Type 0} (Q : A → Type 0) (r : Result A) → ((a : A) → Q a) → Ends Q (of_result r)
of_result-Ends Q (ok a) h = h a
of_result-Ends Q (err e) h = tt

length-trim_start : (text : List Char) → length (trim_start text) ≤ length text
unfolding trim_start
length-trim_start [] = omega arith
length-trim_start (c ∷ cs) = ground (arith, length-trim_start cs)

width_pos : (c : ℕ) → 0 < width c
width_pos c = ground arith

split_at-shorter :
    (text : List Char) (n : ℕ) (head tail : List Char)
    → split_at text n ≡ some (head, tail)
    → length tail + (if n == 0 then 0 else 1) ≤ length text
unfolding split_at
split_at-shorter [] n head tail h = ground arith
split_at-shorter (c ∷ cs) n head tail h = elim (Option-cases (split_at cs (n - width (code c)))) [
  | inl e ↦ ground (arith, width_pos (code c))
  | inr ((before, after), e) ↦
      ground (arith, width_pos (code c), split_at-shorter cs (n - width (code c)) before after e)
]

keyword_pos : (name : ActionName) → 0 < byte_len (chars (keyword name))
keyword_pos set_action = omega arith
keyword_pos remove_action = omega arith
keyword_pos add_action = omega arith
keyword_pos delete_action = omega arith

-- the text after the keyword is shorter
abbrev IsShorter : List Char → Option (ActionName × List Char) → Type 0
IsShorter input none = Unit
IsShorter input (some (name, rest)) = length rest < length input

leading_action-Ends :
    (names : List ActionName) (input : List Char)
    → Ends (IsShorter input) (leading_action names input)
unfolding leading_action
leading_action-Ends [] input = tt
leading_action-Ends (name ∷ later) input =
    elim (Bool-cases (ltb (byte_len input) (byte_len (chars (keyword name))))) [
      | inl e ↦ rw e (leading_action-Ends later input)
      | inr e ↦ elim (Option-cases (split_at input (byte_len (chars (keyword name))))) [
        | inl n ↦ rw (e, n) tt
        | inr ((head, tail), s) ↦
            rw (e, s)
              (elim (Bool-cases
                (eq_ignore_ascii_case (of_chars head) (keyword name) && ends_word tail)) [
                  | inl t ↦ rw t (
                      ground (
                        arith,
                        keyword_pos name,
                        length-trim_start tail,
                        split_at-shorter input (byte_len (chars (keyword name))) head tail s,
                      ))
                  | inr t ↦ rw t (leading_action-Ends later input)
                ])
      ]
    ]

later_Ends :
    (c : Char) (cs : List Char) (m : Outcome (List Char × List Char))
    → Ends (λ (parts : List Char × List Char). length parts.1 ≤ length cs) m
    → Ends
        (λ (parts : List Char × List Char). length parts.1 ≤ suc (length cs))
        (m >>= λ parts. done (c ∷ parts.0, parts.1))
later_Ends c cs m h =
    bind-Ends (λ (parts : List Char × List Char). length parts.1 ≤ length cs)
      (λ (parts : List Char × List Char). length parts.1 ≤ suc (length cs)) m _ h
      (λ parts p. omega arith)

find_next-Ends :
    (previous : Bool) (input : List Char)
    → Ends
        (λ (parts : List Char × List Char). length parts.1 ≤ length input)
        (find_next_update_action_start previous input)
unfolding find_next_update_action_start
find_next-Ends previous [] = omega arith
find_next-Ends false (c ∷ cs) = later_Ends c cs _ (find_next-Ends (is_whitespace (code c)) cs)
find_next-Ends true (c ∷ cs) =
    bind-Ends (IsShorter (c ∷ cs)) _ (leading_update_action (c ∷ cs)) _
      (leading_action-Ends action_names (c ∷ cs))
      (λ found shorter. from_here (find_next-Ends (is_whitespace (code c)) cs) found)
  where
    from_here :
        Ends
          (λ (parts : List Char × List Char). length parts.1 ≤ length cs)
          (find_next_update_action_start (is_whitespace (code c)) cs)
        → (found : Option (ActionName × List Char))
        → Ends
            (λ (parts : List Char × List Char). length parts.1 ≤ suc (length cs))
            (elim found as (λ _. Outcome (List Char × List Char)) [
              | none ↦
                  (find_next_update_action_start (is_whitespace (code c)) cs >>= λ parts.
                  done (c ∷ parts.0, parts.1))
              | some action ↦ done ([], c ∷ cs)
            ])
    from_here later none = later_Ends c cs _ later
    from_here later (some action) = omega arith

split_next-Ends :
    (expression : List Char)
    → Ends (λ parts. length parts.2 < length expression) (split_next_update_action expression)
unfolding split_next_update_action
split_next-Ends expression =
    bind-Ends (IsShorter (trim_start expression)) _ (leading_update_action (trim_start expression))
      _ (leading_action-Ends action_names (trim_start expression)) after
  where
    after :
        (found : Option (ActionName × List Char))
        → IsShorter (trim_start expression) found
        → Ends
            (λ parts. length parts.2 < length expression)
            (elim found as (λ _. Outcome (ActionName × List Char × List Char)) [
              | none ↦ failed validation
              | some (name, remainder) ↦ find_next_update_action_start true remainder >>= λ parts.
                  if is_empty (trim parts.0)
                  then failed validation
                  else done (name, trim parts.0, trim_start parts.1)
            ])
    after none h = tt
    after (some (name, remainder)) h =
        bind-Ends (λ (parts : List Char × List Char). length parts.1 ≤ length remainder) _
          (find_next_update_action_start true remainder) _ (find_next-Ends true remainder)
          (λ parts p. elim (Bool-cases (is_empty (trim parts.0))) [
            | inl e ↦ rw e tt
            | inr e ↦ rw e (omega (arith, length-trim_start parts.1, length-trim_start expression))
          ])

module _ {P : Floats} (values : Dict String (Value P)) (schema : PowdrrSchema)
    (key_schema : DynamoDbKeySchemaConfig) where
  parse_actions-Ends :
      (fuel : ℕ) (parsed : ParsedUpdateExpression P) (remaining : List Char)
      → length remaining < fuel
      → Ends (λ _. Unit) (parse_actions values schema key_schema fuel parsed remaining)
  unfolding parse_actions
  parse_actions-Ends zero parsed remaining h = absurd (omega arith)
  parse_actions-Ends (suc fuel) parsed [] h = tt
  parse_actions-Ends (suc fuel) parsed (c ∷ cs) h =
      bind-Ends (λ (parts : ActionName × List Char × List Char). length parts.2 < length (c ∷ cs)) _
        (split_next_update_action (c ∷ cs)) _ (split_next-Ends (c ∷ cs))
        (λ parts p.
          bind-Ends (λ _. Unit) _ (of_result (clauses_of parts)) _
            (of_result-Ends _ (clauses_of parts) (λ _. tt))
            (λ next u. parse_actions-Ends fuel next parts.2 (omega arith)))
    where
      clauses_of : ActionName × List Char × List Char → Result (ParsedUpdateExpression P)
      clauses_of parts = split_update_action_clauses parts.1 >>=ᵣ λ clauses.
          parse_clauses values schema key_schema parts.0 parsed clauses

  ended : (m : Outcome (ParsedUpdateExpression P)) → Ends (λ _. Unit) m → m ≢ unfinished
  ended m h e = subst (Ends (λ _. Unit)) e h

  -- Every text is read as an update expression or refused, or the handler panics: the loop over its
  -- actions ends, whatever the aliases and the values are.
  pub parse_update_expression-ends :
      (expression : String) (aliases : Option (Dict String String))
      → parse_update_expression expression aliases (some values) schema key_schema ≢ unfinished
  unfolding parse_update_expression
  parse_update_expression-ends expression aliases = elim (Bool-cases (is_empty text)) [
    | inl e ↦ rw e (λ h. cc)
    | inr e ↦ rw e (ended _ (parse_actions-Ends (suc (length text)) no_actions text (omega arith)))
  ]
    where
      text : List Char
      text = trim (resolve_expression_names expression aliases)
