-- ===== src/DynamoDb/Items/Rows.antt =====
-- What the writes of items in query_server/src/dynamodb_protocol.rs leave of the rows of a table.
use powdrr_engine.Common.{
  String, ◌≡◌, refl, sym, ap, ◌∙◌, subst, Bool, true, false, not, Option, none, some, List, [], ◌∷◌,
  ◌++◌, if◌then◌else◌, string_eq, option_eq, all, find, retain, unwrap_or, is_some, arith,
}
use mathlib.Core.List.{append-nil}
use powdrr_engine.Common.Dict.{Dict}
use powdrr_engine.Json.{Floats, Value}
use powdrr_engine.DynamoDb.Error.{ok, ok_same, conditional_check_failed}
use powdrr_engine.DynamoDb.Evaluate.{is_object}
use powdrr_engine.DynamoDb.Expression.{ParsedFilterExpression}
use powdrr_engine.DynamoDb.KeyRange.{DynamoDbKeySchemaConfig, parse_key_map, split_rows_by_key}
use powdrr_engine.DynamoDb.KeyRange.Rows.{has_key, split_rows_by_key_lem}
use powdrr_engine.DynamoDb.Update.Split.{
  done, failed, of_result, bind_lem, of_result_lem, done_same,
}
use powdrr_engine.DynamoDb.Items.{
  Mutation, Condition, checked_rows, condition_matches, DeleteItemRequest, handle_delete_item,
  parse_write_return_values, parse_condition_expression,
}

module _ {A : Type 0} (p : A → Bool) where
  retain-append : (xs ys : List A) → retain p (xs ++ ys) ≡ retain p xs ++ retain p ys
  retain-append [] ys = refl
  retain-append (x ∷ xs) ys = ground (arith, retain-append xs ys)

  retain_of_others : (xs : List A) → retain p (retain (λ x. not (p x)) xs) ≡ []
  retain_of_others [] = refl
  retain_of_others (x ∷ xs) = ground (arith, retain_of_others xs)

  others_idem :
      (xs : List A)
      → retain (λ x. not (p x)) (retain (λ x. not (p x)) xs) ≡ retain (λ x. not (p x)) xs
  others_idem [] = refl
  others_idem (x ∷ xs) = ground (arith, others_idem xs)

  find-none : (xs : List A) → find p xs ≡ none → retain p xs ≡ []
  find-none [] h = refl
  find-none (x ∷ xs) h = ground (arith, find-none xs)

module _ {P : Floats} (key_schema : DynamoDbKeySchemaConfig) (key : Dict String (Value P)) where
  -- the rows of the key, and the rows of other keys
  abbrev pub of_key : List (Value P) → List (Value P)
  of_key rows = retain (has_key key_schema key) rows

  abbrev pub of_others : List (Value P) → List (Value P)
  of_others rows = retain (λ row. not (has_key key_schema key row)) rows

  -- the row of the key and the rows of other keys, where the condition holds of that row, or of no row
  pub record IsChecked (condition : ParsedFilterExpression P) (rows : List (Value P))
      (parts : Option (Value P) × List (Value P)) : Type 0 where
    pub existing : parts.0 ≡ find (has_key key_schema key) rows
    pub retained : parts.1 ≡ of_others rows
    pub holds : condition_matches parts.0 condition ≡ ok true

  pub checked_rows-IsChecked :
      (condition : ParsedFilterExpression P) (rows : List (Value P))
      (parts : Option (Value P) × List (Value P))
      → all is_object rows ≡ true
      → checked_rows key_schema condition key rows ≡ done parts
      → IsChecked condition rows parts
  unfolding checked_rows
  checked_rows-IsChecked condition rows parts objects h =
      bind_lem (of_result (split_rows_by_key rows key_schema key)) _ _ h (λ split e1 h1.
        bind_lem (of_result (condition_matches split.0 condition)) _ _ h1 (λ matches e2 h2.
          chosen matches split h2 (of_result_lem (condition_matches split.0 condition) matches e2) (
            ok_same _ _ (
              sym (of_result_lem (split_rows_by_key rows key_schema key) split e1)
              ∙ split_rows_by_key_lem key_schema key rows objects))))
    where
      chosen :
          (matches : Bool) (split : Option (Value P) × List (Value P))
          → (if matches then done split else failed conditional_check_failed) ≡ done parts
          → condition_matches split.0 condition ≡ ok matches
          → split ≡ (find (has_key key_schema key) rows, of_others rows)
          → IsChecked condition rows parts
      chosen true split e m q = subst (IsChecked condition rows) (done_same split parts e) (record {
        existing = ap (λ (p : Option (Value P) × List (Value P)). p.0) q;
        retained = ap (λ (p : Option (Value P) × List (Value P)). p.1) q;
        holds = m;
      })
      chosen false split e m q = absurd (ground arith)

  -- the rows of the table after a write
  abbrev pub rows_after : Mutation P → List (Value P) → List (Value P)
  rows_after mutation rows = unwrap_or rows mutation.published

  -- what a write leaves: the rows of other keys as they are, in their order, and one row of the key, or
  -- none
  pub record IsWritten (rows left : List (Value P)) (mutation : Mutation P) : Type 0 where
    pub others : of_others (rows_after mutation rows) ≡ of_others rows
    pub own : of_key (rows_after mutation rows) ≡ left

  -- The condition of a write that succeeds held of the row of the key that was there.
  abbrev pub Held : Condition P → List (Value P) → Type 0
  Held request rows =
      (condition : ParsedFilterExpression P) × (parse_condition_expression request ≡ done condition)
      × (condition_matches (find (has_key key_schema key) rows) condition ≡ ok true)

  pub pushed-IsWritten :
      (rows : List (Value P)) (row : Value P) (mutation : Mutation P)
      → mutation.published ≡ some (of_others rows ++ (row ∷ []))
      → has_key key_schema key row ≡ true
      → IsWritten rows (row ∷ []) mutation
  pushed-IsWritten rows row mutation p h = record {
    others =
        rw
          (
            p,
            retain-append (λ r. not (has_key key_schema key r)) (of_others rows) (row ∷ []),
            others_idem (has_key key_schema key) rows,
            h,
          )
          (append-nil (of_others rows));
    own =
        rw
          (
            p,
            retain-append (has_key key_schema key) (of_others rows) (row ∷ []),
            retain_of_others (has_key key_schema key) rows,
            h,
          )
          refl;
  }

  removed-IsWritten :
      (rows : List (Value P)) (parts : Option (Value P) × List (Value P)) (mutation : Mutation P)
      → parts.0 ≡ find (has_key key_schema key) rows
      → parts.1 ≡ of_others rows
      → mutation.published ≡ (if is_some parts.0 then some parts.1 else none)
      → IsWritten rows [] mutation
  removed-IsWritten rows (none, others) mutation e r p = record {
    others = rw p refl;
    own = rw p (find-none (has_key key_schema key) rows (sym e));
  }
  removed-IsWritten rows (some row, others) mutation e r p = record {
    others = rw (p, r) (others_idem (has_key key_schema key) rows);
    own = rw (p, r) (retain_of_others (has_key key_schema key) rows);
  }

  -- A delete that succeeds leaves no row of its key, and the rows of other keys as they are, in their
  -- order; and its condition held of the row of the key that was there.
  pub handle_delete_item-IsWritten :
      (request : DeleteItemRequest P) (rows : List (Value P)) (mutation : Mutation P)
      → all is_object rows ≡ true
      → parse_key_map request.key key_schema ≡ ok key
      → handle_delete_item key_schema request rows ≡ done mutation
      → IsWritten rows [] mutation × Held request.condition rows
  unfolding handle_delete_item
  handle_delete_item-IsWritten request rows mutation objects k h =
      bind_lem (of_result (parse_write_return_values request.condition.return_values false)) _ _
        (rw (handle_delete_item, k) at h)
        (λ values e1 h1.
          bind_lem (parse_condition_expression request.condition) _ _ h1 (λ condition e2 h2.
            bind_lem (checked_rows key_schema condition key rows) _ _ h2 (λ parts e3 h3.
              let c = checked_rows-IsChecked condition rows parts objects e3 in
              (
                removed-IsWritten rows parts mutation c.existing c.retained
                    (ap (λ (m : Mutation P). m.published) (sym (done_same _ _ h3))),
                (condition, e2, rw (← c.existing) c.holds),
              ))))
