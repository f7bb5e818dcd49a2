-- ===== src/DynamoDb/Update/Parser.antt =====
-- The clauses of update expressions, and `parse_update_expression` of
-- query_server/src/dynamodb_protocol.rs.
use Prim.Native.Char.{Char, code}
use powdrr_engine.Common.{
  ℕ, zero, suc, String, Bool, true, false, ◌||◌, not, Option, none, some, List, [], ◌∷◌, ◌++◌,
  if◌then◌else◌, ◌==◌, nat_eq, string_eq, option_eq, length, any, contains, unwrap_or,
}
use powdrr_engine.Common.Dict.{Dict}
use powdrr_engine.DataContract.Schema.{
  PowdrrDataType, PowdrrSchema, array, boolean, float, integer, string, object, to_map_get,
}
use powdrr_engine.DataContract.Schema.Names.{names}
use powdrr_engine.Json.{Floats, Number, Value, is_null, is_number}
use powdrr_engine.DynamoDb.Error.{validation, Result, ok, err, ok_or}
use powdrr_engine.DynamoDb.Error.{◌>>=◌ as ◌>>=ᵣ◌}
use powdrr_engine.DynamoDb.Attributes.{lookup_expression_value}
use powdrr_engine.DynamoDb.Scalars.{chars, of_chars}
use powdrr_engine.DynamoDb.Text.{
  is_empty, trim, split_once, split_whitespace, strip_prefix, resolve_expression_names,
}
use powdrr_engine.DynamoDb.KeyRange.{DynamoDbKeySchemaConfig}
use powdrr_engine.DynamoDb.Update.{
  UpdateAction, ParsedUpdateExpression, dynamodb_set_members, touched,
}
use powdrr_engine.DynamoDb.Update.Split.{
  Outcome, done, failed, unfinished, ◌>>=◌, of_result, ActionName, set_action, remove_action,
  add_action, delete_action, split_next_update_action, split_update_action_clauses,
}

-- `contains('.')`, `contains('[')`, `contains(']')`
abbrev pub is_path : List Char → Bool
is_path field_name = any (λ c. code c == 46 || code c == 91 || code c == 93) field_name

unfoldable pub validate_update_field_name :
    List Char → PowdrrSchema → DynamoDbKeySchemaConfig → Result String
validate_update_field_name field_name schema key_schema =
    if is_empty field_name
    then err validation
    else if is_path field_name
    then err validation
    else if of_chars field_name == key_schema.partition_key
        || key_schema.sort_key == some (of_chars field_name)
    then err validation
    else if not (contains (names schema) (of_chars field_name))
    then err validation
    else ok (of_chars field_name)

-- an attribute name and a token of a value, and nothing after them
abbrev pub two_words : List (List Char) → Result (List Char × List Char)
two_words (field_token ∷ value_token ∷ []) = ok (field_token, value_token)
two_words _ = err validation

module _ {P : Floats} where
  abbrev pub is_integer : Value P → Bool
  is_integer (Value.number (Number.int n)) = true
  is_integer _ = false

  abbrev pub is_kind : PowdrrDataType → Value P → Bool
  is_kind string (Value.string s) = true
  is_kind boolean (Value.boolean b) = true
  is_kind integer value = is_integer value || is_null value
  is_kind float value = is_number value || is_null value
  is_kind (object fields) (Value.object fs) = true
  is_kind (array of) (Value.array vs) = true
  is_kind kind value = is_null value

  unfoldable pub validate_update_value_type : PowdrrSchema → String → Value P → Result (Unit {0})
  validate_update_value_type schema field_name value =
      ok_or validation (to_map_get schema field_name) >>=ᵣ λ kind.
      if is_kind kind value then ok tt else err validation

  -- the value is a set, and has a member
  abbrev pub nonempty_set : Value P → Result (Unit {0})
  nonempty_set value = elim (dynamodb_set_members value) [
    | none ↦ err validation
    | some (marker, members) ↦ elim members [ [] ↦ err validation | member ∷ more ↦ ok tt ]
  ]

  unfoldable pub validate_add_value : Value P → Result (Unit {0})
  validate_add_value value = if is_number value then ok tt else nonempty_set value

  unfoldable pub validate_delete_value : Value P → Result (Unit {0})
  validate_delete_value value = nonempty_set value

  -- the token begins with a colon
  abbrev pub value_of_token : List Char → Dict String (Value P) → Result (Value P)
  value_of_token token values = elim (strip_prefix token (chars ":")) [
    | none ↦ err validation
    | some rest ↦ lookup_expression_value (of_chars token) values
  ]

  -- a clause of `ADD` or `DELETE`
  unfoldable pub parse_operand_clause :
      (Value P → Result (Unit {0}))
      → List Char
      → Dict String (Value P)
      → PowdrrSchema
      → DynamoDbKeySchemaConfig
      → Result (String × Value P)
  parse_operand_clause validate clause values schema key_schema =
      two_words (split_whitespace clause) >>=ᵣ λ words.
      validate_update_field_name words.0 schema key_schema >>=ᵣ λ field.
      value_of_token words.1 values >>=ᵣ λ value. validate value >>=ᵣ λ valid.
      validate_update_value_type schema field value >>=ᵣ λ typed. ok (field, value)

  unfoldable pub parse_update_action_clause :
      ActionName
      → List Char
      → Dict String (Value P)
      → PowdrrSchema
      → DynamoDbKeySchemaConfig
      → Result (UpdateAction P)
  parse_update_action_clause set_action clause values schema key_schema =
      ok_or validation (split_once (chars "=") clause) >>=ᵣ λ parts.
      validate_update_field_name (trim parts.0) schema key_schema >>=ᵣ λ field.
      value_of_token (trim parts.1) values >>=ᵣ λ value.
      validate_update_value_type schema field value >>=ᵣ λ typed.
      ok (UpdateAction.set_to field value)
  parse_update_action_clause remove_action clause values schema key_schema =
      validate_update_field_name (trim clause) schema key_schema >>=ᵣ λ field.
      ok (UpdateAction.remove field)
  parse_update_action_clause add_action clause values schema key_schema =
      parse_operand_clause validate_add_value clause values schema key_schema >>=ᵣ λ operand.
      ok (UpdateAction.add operand.0 operand.1)
  parse_update_action_clause delete_action clause values schema key_schema =
      parse_operand_clause validate_delete_value clause values schema key_schema >>=ᵣ λ operand.
      ok (UpdateAction.delete operand.0 operand.1)

  abbrev pub no_actions : ParsedUpdateExpression P
  no_actions = record { actions = []; touched_fields = [] }

  -- `seen_fields` holds the touched fields
  unfoldable pub push_action :
      ParsedUpdateExpression P → UpdateAction P → Result (ParsedUpdateExpression P)
  push_action parsed action =
      if contains parsed.touched_fields (touched action)
      then err validation
      else ok (record {
        actions = parsed.actions ++ (action ∷ []);
        touched_fields = parsed.touched_fields ++ (touched action ∷ []);
      })

module _ {P : Floats} (values : Dict String (Value P)) (schema : PowdrrSchema)
    (key_schema : DynamoDbKeySchemaConfig) where
  -- the loop over the clauses of one action
  unfoldable pub parse_clauses :
      ActionName → ParsedUpdateExpression P → List (List Char) → Result (ParsedUpdateExpression P)
  parse_clauses name parsed [] = ok parsed
  parse_clauses name parsed (clause ∷ clauses) =
      parse_update_action_clause name clause values schema key_schema >>=ᵣ λ action.
      push_action parsed action >>=ᵣ λ next. parse_clauses name next clauses

  -- the loop over the actions
  unfoldable pub parse_actions :
      ℕ → ParsedUpdateExpression P → List Char → Outcome (ParsedUpdateExpression P)
  parse_actions zero parsed remaining = unfinished
  parse_actions (suc fuel) parsed [] = done parsed
  parse_actions (suc fuel) parsed (c ∷ cs) = split_next_update_action (c ∷ cs) >>= λ parts.
      of_result
        (split_update_action_clauses parts.1 >>=ᵣ λ clauses. parse_clauses parts.0 parsed clauses)
      >>= λ next. parse_actions fuel next parts.2

  -- the text must not be empty
  abbrev pub parse_trimmed : List Char → Outcome (ParsedUpdateExpression P)
  parse_trimmed text =
      if is_empty text then failed validation else parse_actions (suc (length text)) no_actions text

module _ {P : Floats} where
  unfoldable pub parse_update_expression :
      String
      → Option (Dict String String)
      → Option (Dict String (Value P))
      → PowdrrSchema
      → DynamoDbKeySchemaConfig
      → Outcome (ParsedUpdateExpression P)
  parse_update_expression expression aliases values schema key_schema =
      parse_trimmed (unwrap_or [] values) schema key_schema
        (trim (resolve_expression_names expression aliases))
