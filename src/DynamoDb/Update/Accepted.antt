-- ===== src/DynamoDb/Update/Accepted.antt =====
-- What `parse_update_expression` of query_server/src/dynamodb_protocol.rs accepts: the fields that an
-- update may name.
use powdrr_engine.Common.{
  ℕ, zero, suc, String, ◌≡◌, refl, length, unwrap_or, subst, Bool, true, ◌&&◌, not, Option, some,
  List, [], ◌∷◌, ◌++◌, map, ◌==◌, string_eq, option_eq, all, contains, distinct, all-append,
  contains-append, arith, Bool-cases, inl, inr,
}
use Prim.Native.Char.{Char}
use mathlib.Core.List.{map-append}
use powdrr_engine.Common.Dict.{Dict}
use powdrr_engine.DataContract.Schema.{PowdrrSchema}
use powdrr_engine.DataContract.Schema.Names.{names}
use powdrr_engine.Json.{Floats, Value}
use powdrr_engine.DynamoDb.Error.{◌>>=◌ as ◌>>=ᵣ◌}
use powdrr_engine.DynamoDb.Error.{Result, ok, ok_or, validation, then_lem, ok_same}
use powdrr_engine.DynamoDb.Scalars.{chars}
use powdrr_engine.DynamoDb.Text.{
  is_empty, resolve_expression_names, trim, split_once, split_whitespace,
}
use powdrr_engine.DynamoDb.KeyRange.{DynamoDbKeySchemaConfig}
use powdrr_engine.DynamoDb.Update.{UpdateAction, ParsedUpdateExpression, touched}
use powdrr_engine.DynamoDb.Update.Split.{
  done, ActionName, set_action, remove_action, add_action, delete_action, of_result, bind_lem,
  of_result_lem, done_same, split_next_update_action, split_update_action_clauses,
}
use powdrr_engine.DynamoDb.Update.Parser.{
  validate_update_field_name, parse_operand_clause, parse_update_action_clause, push_action,
  parse_clauses, parse_actions, no_actions, two_words, value_of_token, validate_update_value_type,
  validate_add_value, validate_delete_value, parse_update_expression,
}

distinct-snoc :
    (xs : List String) (x : String) → distinct (xs ++ x ∷ []) ≡ (distinct xs && not (contains xs x))
distinct-snoc [] x = refl
distinct-snoc (y ∷ xs) x = ground (
  arith,
  distinct-snoc xs x,
  contains-append xs (x ∷ []) y,
  string_eq.same_iff x y,
  string_eq.same_iff y x,
)

module _ (schema : PowdrrSchema) (key_schema : DynamoDbKeySchemaConfig) where
  -- a field of the schema that is no attribute of the key
  abbrev pub is_update_field : String → Bool
  is_update_field name =
      contains (names schema) name
      && not (name == key_schema.partition_key)
      && not (key_schema.sort_key == some name)

  validate_update_field_name_lem :
      (field_name : List Char) (name : String)
      → validate_update_field_name field_name schema key_schema ≡ ok name
      → is_update_field name ≡ true
  unfolding validate_update_field_name
  validate_update_field_name_lem field_name name h = ground arith

  module _ {P : Floats} where
    parse_operand_clause_lem :
        (validate : Value P → Result (Unit {0})) (clause : List Char)
        (values : Dict String (Value P)) (operand : String × Value P)
        → parse_operand_clause validate clause values schema key_schema ≡ ok operand
        → is_update_field operand.0 ≡ true
    unfolding parse_operand_clause
    parse_operand_clause_lem validate clause values operand h =
        then_lem (two_words (split_whitespace clause)) _ _ h (λ words e1 h1.
          then_lem (validate_update_field_name words.0 schema key_schema) _ _ h1 (λ field e2 h2.
            then_lem (value_of_token words.1 values) _ _ h2 (λ value e3 h3.
              then_lem (validate value) _ _ h3 (λ u e4 h4.
                then_lem (validate_update_value_type schema field value) _ _ h4
                  (λ t e5 h5. ground (arith, validate_update_field_name_lem words.0 field e2))))))

    parse_update_action_clause_lem :
        (name : ActionName) (clause : List Char) (values : Dict String (Value P))
        (action : UpdateAction P)
        → parse_update_action_clause name clause values schema key_schema ≡ ok action
        → is_update_field (touched action) ≡ true
    unfolding parse_update_action_clause
    parse_update_action_clause_lem set_action clause values action h =
        then_lem (ok_or validation (split_once (chars "=") clause)) _ _ h (λ parts e1 h1.
          then_lem (validate_update_field_name (trim parts.0) schema key_schema) _ _ h1
            (λ field e2 h2. then_lem (value_of_token (trim parts.1) values) _ _ h2 (λ value e3 h3.
              then_lem (validate_update_value_type schema field value) _ _ h3 (λ t e4 h4.
                ground (arith, validate_update_field_name_lem (trim parts.0) field e2)))))
    parse_update_action_clause_lem remove_action clause values action h =
        then_lem (validate_update_field_name (trim clause) schema key_schema) _ _ h
          (λ name e made. ground (arith, validate_update_field_name_lem (trim clause) name))
    parse_update_action_clause_lem add_action clause values action h =
        then_lem (parse_operand_clause validate_add_value clause values schema key_schema) _ _ h
          (λ operand e made.
            ground (arith, parse_operand_clause_lem validate_add_value clause values operand e))
    parse_update_action_clause_lem delete_action clause values action h =
        then_lem (parse_operand_clause validate_delete_value clause values schema key_schema) _ _ h
          (λ operand e made.
            ground (arith, parse_operand_clause_lem validate_delete_value clause values operand e))

    -- the touched fields are those of the actions, each once, and all of them may be updated
    pub record IsAllowed (parsed : ParsedUpdateExpression P) : Type 0 where
      pub of_actions : map touched parsed.actions ≡ parsed.touched_fields
      pub once : distinct parsed.touched_fields ≡ true
      pub allowed : all is_update_field parsed.touched_fields ≡ true

    push_action-IsAllowed :
        (parsed next : ParsedUpdateExpression P) (action : UpdateAction P)
        → IsAllowed parsed
        → is_update_field (touched action) ≡ true
        → push_action parsed action ≡ ok next
        → IsAllowed next
    unfolding push_action
    push_action-IsAllowed parsed next action v e h =
        elim (Bool-cases (contains parsed.touched_fields (touched action))) [
          | inl old ↦ absurd (ground arith)
          | inr new ↦ record {
            of_actions = ground (arith, map-append touched parsed.actions (action ∷ []));
            once = ground (arith, distinct-snoc parsed.touched_fields (touched action));
            allowed =
                ground
                  (arith, all-append is_update_field parsed.touched_fields (touched action ∷ []));
          }
        ]

    parse_clauses-IsAllowed :
        (values : Dict String (Value P)) (name : ActionName)
        (parsed result : ParsedUpdateExpression P) (clauses : List (List Char))
        → IsAllowed parsed
        → parse_clauses values schema key_schema name parsed clauses ≡ ok result
        → IsAllowed result
    unfolding parse_clauses
    parse_clauses-IsAllowed values name parsed result [] v h =
        subst IsAllowed (ok_same parsed result h) v
    parse_clauses-IsAllowed values name parsed result (clause ∷ clauses) v h =
        then_lem (parse_update_action_clause name clause values schema key_schema) _ _ h
          (λ action e1 h1. then_lem (push_action parsed action) _ _ h1 (λ next e2 h2.
            parse_clauses-IsAllowed values name next result clauses
              (push_action-IsAllowed parsed next action v
                (parse_update_action_clause_lem name clause values action e1) e2)
              h2))

    parse_actions-IsAllowed :
        (values : Dict String (Value P)) (fuel : ℕ) (parsed result : ParsedUpdateExpression P)
        (remaining : List Char)
        → IsAllowed parsed
        → parse_actions values schema key_schema fuel parsed remaining ≡ done result
        → IsAllowed result
    unfolding parse_actions
    parse_actions-IsAllowed values zero parsed result remaining v h = absurd (ground arith)
    parse_actions-IsAllowed values (suc fuel) parsed result [] v h =
        subst IsAllowed (done_same parsed result h) v
    parse_actions-IsAllowed values (suc fuel) parsed result (c ∷ cs) v h =
        bind_lem (split_next_update_action (c ∷ cs)) _ _ h (λ parts e1 h1.
          bind_lem (of_result (clauses_of parts)) _ _ h1 (λ next e2 h2.
            then_lem (split_update_action_clauses parts.1) _ _
              (of_result_lem (clauses_of parts) next e2)
              (λ clauses e3 h3.
                parse_actions-IsAllowed values fuel next result parts.2
                  (parse_clauses-IsAllowed values parts.0 parsed next clauses v h3) h2)))
      where
        clauses_of : ActionName × List Char × List Char → Result (ParsedUpdateExpression P)
        clauses_of parts = split_update_action_clauses parts.1 >>=ᵣ λ clauses.
            parse_clauses values schema key_schema parts.0 parsed clauses

    no_actions-IsAllowed : IsAllowed no_actions
    no_actions-IsAllowed = record { of_actions = refl; once = refl; allowed = refl }

    -- An update expression that is accepted touches fields of the schema that are no attributes of the
    -- key, each of them by one action.
    pub parse_update_expression-IsAllowed :
        (expression : String) (aliases : Option (Dict String String))
        (values : Option (Dict String (Value P))) (parsed : ParsedUpdateExpression P)
        → parse_update_expression expression aliases values schema key_schema ≡ done parsed
        → IsAllowed parsed
    unfolding parse_update_expression
    parse_update_expression-IsAllowed expression aliases values parsed h =
        elim (Bool-cases (is_empty (trim (resolve_expression_names expression aliases)))) [
          | inl empty ↦ absurd (ground arith)
          | inr text ↦
              parse_actions-IsAllowed (unwrap_or [] values)
                (suc (length (trim (resolve_expression_names expression aliases)))) no_actions
                parsed (trim (resolve_expression_names expression aliases)) no_actions-IsAllowed
                (ground arith)
        ]
