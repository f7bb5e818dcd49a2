-- ===== src/DynamoDb/Items/Keys.antt =====
-- The key that is read from an item, `parse_item_key_map` of query_server/src/dynamodb_protocol.rs, and
-- the row that is made of the item.
use powdrr_engine.Common.{
  String, ◌≡◌, ◌⊎◌, refl, sym, ap, ◌∙◌, subst, true, Option, none, some, [], if◌then◌else◌, ◌==◌,
  ==_refl, ==_iff, string_eq, option_eq, distinct, arith, Bool-cases, inl, inr, length, nat_eq,
}
use powdrr_engine.Common.Dict
use powdrr_engine.Common.Dict.{Dict, get, get-insert}
use powdrr_engine.Json.{Floats, Value, Fields, end, count, get_field, get_field-insert_field}
use powdrr_engine.DynamoDb.Error.{ok, validation, ok_or, then_lem, ok_same, ◌>>=◌ as ◌>>=ᵣ◌}
use powdrr_engine.DynamoDb.Attributes.{dynamodb_attr_to_json, convert_entries}
use powdrr_engine.DynamoDb.KeyRange.{
  DynamoDbKeySchemaConfig, key_value, check_count, parse_key_map, copy_key_attr, parse_item_key_map,
}
use powdrr_engine.DynamoDb.KeyRange.Rows.{has_key}
use powdrr_engine.DynamoDb.Items.{dynamodb_item_to_json_row}
use powdrr_engine.DynamoDb.Items.Updated.{is_reflexive, has_key_of}
use powdrr_engine.DynamoDb.Items.Converted.{
  some_same, ok_or-eq_some, if_same, entry_names, Converts, convert_entries-Converts,
}

module _ {P : Floats} where
  -- `key_value` of an attribute of the key, and its value in the key
  abbrev HasValue : Fields P → Dict String (Value P) → String → Type 0
  HasValue m key name = (w : Value P) × (key_value m name ≡ ok w) × (get key name ≡ some w)

  check_count_lem :
      (m : Fields P) (parsed key : Dict String (Value P))
      → check_count m parsed ≡ ok key
      → parsed ≡ key
  check_count_lem m parsed key h = elim (Bool-cases (count m == length parsed)) [
    | inl e ↦ ok_same parsed key (rw e at h)
    | inr e ↦ absurd (ground arith)
  ]

  HasValue-sort :
      (m : Fields P) (partition : String) (sort : Option String) (key : Dict String (Value P))
      (name : String)
      → parse_key_map m (record { partition_key = partition; sort_key = sort }) ≡ ok key
      → (partition ≡ name) ⊎ (sort ≡ some name)
      → HasValue m key name
  unfolding parse_key_map
  HasValue-sort m partition none key name h (inl q) =
      then_lem (key_value m partition) _ _ h (λ p e1 h1. (
        p,
        rw (← q) e1,
        rw (← check_count_lem m _ key h1, get-insert partition name p [], q, ==_refl name) refl,
      ))
  HasValue-sort m partition none key name h (inr q) = absurd (ground arith)
  HasValue-sort m partition (some sort) key name h (inl q) =
      then_lem (key_value m partition) _ _ h (λ p e1 h1.
        then_lem (key_value m sort) _ _ h1 (λ w e2 h2. elim (Bool-cases (sort == name)) [
          | inl e ↦ (
            w,
            rw (← (==_iff sort name).0 e) e2,
            rw
                (
                  ← check_count_lem m _ key h2,
                  get-insert sort name w (Dict.insert partition p []),
                  e,
                )
                refl,
          )
          | inr e ↦ (
            p,
            rw (← q) e1,
            rw
                (
                  ← check_count_lem m _ key h2,
                  get-insert sort name w (Dict.insert partition p []),
                  e,
                  get-insert partition name p [],
                  q,
                  ==_refl name,
                )
                refl,
          )
        ]))
  HasValue-sort m partition (some sort) key name h (inr q) =
      then_lem (key_value m partition) _ _ h (λ p e1 h1.
        then_lem (key_value m sort) _ _ h1 (λ w e2 h2. (
          w,
          rw (← some_same sort name q) e2,
          rw
              (
                ← check_count_lem m _ key h2,
                get-insert sort name w (Dict.insert partition p []),
                some_same sort name q,
                ==_refl name,
              )
              refl,
        )))

  parse_key_map-HasValue :
      (m : Fields P) (key_schema : DynamoDbKeySchemaConfig) (key : Dict String (Value P))
      (name : String)
      → parse_key_map m key_schema ≡ ok key
      → (key_schema.partition_key ≡ name) ⊎ (key_schema.sort_key ≡ some name)
      → HasValue m key name
  parse_key_map-HasValue m key_schema key name h which =
      HasValue-sort m key_schema.partition_key key_schema.sort_key key name h which

  copy_key_attr_lem :
      (item target made : Fields P) (k name : String)
      → copy_key_attr item target k ≡ ok made
      → get_field made name ≡ (if k == name then get_field item name else get_field target name)
  unfolding copy_key_attr
  copy_key_attr_lem item target made k name h =
      then_lem (ok_or validation (get_field item k)) _ _ h (λ v e1 h1.
        ap (λ fs. get_field fs name) (sym (ok_same _ _ h1))
        ∙ rw (get_field-insert_field k name v target)
            (found v (ok_or-eq_some (get_field item k) v e1)))
    where
      found :
          (v : Value P)
          → get_field item k ≡ some v
          → (if k == name then some v else get_field target name)
            ≡ (if k == name then get_field item name else get_field target name)
      found v e = elim (Bool-cases (k == name)) [
        | inl q ↦ rw q (sym e ∙ ap (λ n. get_field item n) ((==_iff k name).0 q))
        | inr q ↦ rw q refl
      ]

  -- the values of an item under the attributes of its key
  abbrev IsCopied : Fields P → Fields P → String → Option String → Type 0
  IsCopied item m partition sort =
      (name : String)
      → (partition ≡ name) ⊎ (sort ≡ some name)
      → get_field m name ≡ get_field item name

  copied :
      (item : Fields P) (partition : String) (sort : Option String) (key : Dict String (Value P))
      → parse_item_key_map item (record { partition_key = partition; sort_key = sort }) ≡ ok key
      → (m : Fields P) × (parse_key_map m (record { partition_key = partition; sort_key = sort })
          ≡ ok key)
        × IsCopied item m partition sort
  unfolding parse_item_key_map
  copied item partition none key h =
      then_lem (copy_key_attr item end partition) _ _ h (λ m e1 h1. (m, h1, at_partition m e1))
    where
      at_partition :
          (m : Fields P) → copy_key_attr item end partition ≡ ok m → IsCopied item m partition none
      at_partition m e name (inl q) =
          rw (copy_key_attr_lem item end m partition name e, q, ==_refl name) refl
      at_partition m e name (inr q) = absurd (ground arith)
  copied item partition (some sort) key h =
      then_lem (copy_key_attr item end partition) _ _ h (λ m e1 h1.
        then_lem (copy_key_attr item m sort) _ _ h1
          (λ both e2 h2. (both, h2, at_both m both e1 e2)))
    where
      at_both :
          (m both : Fields P)
          → copy_key_attr item end partition ≡ ok m
          → copy_key_attr item m sort ≡ ok both
          → IsCopied item both partition (some sort)
      at_both m both e1 e2 name (inl q) =
          rw
            (
              copy_key_attr_lem item m both sort name e2,
              copy_key_attr_lem item end m partition name e1,
              q,
              ==_refl name,
            )
            (if_same (sort == name) (get_field item name))
      at_both m both e1 e2 name (inr q) =
          rw (copy_key_attr_lem item m both sort name e2, some_same sort name q, ==_refl name) refl

  -- a value under which `key` has the attribute `o`, converted
  abbrev HasConverted : Option (Value P) → Option (Value P) → Type 0
  HasConverted o kept =
      (w : Value P) × (ok_or validation o >>=ᵣ dynamodb_attr_to_json ≡ ok w) × (kept ≡ some w)

  HasValue-item :
      (m : Fields P) (key : Dict String (Value P)) (name : String) {o : Option (Value P)}
      → get_field m name ≡ o
      → HasValue m key name
      → HasConverted o (get key name)
  HasValue-item m key name {o} e h = subst (λ p. HasConverted p (get key name)) e h

  same_value :
      (o made kept : Option (Value P)) → Converts o made → HasConverted o kept → made ≡ kept
  same_value none made kept c (w, e, q) = absurd (ground arith)
  same_value (some v) made kept (w, e, q) (w', e', q') =
      q ∙ ap (λ (x : Value P). some x) (ok_same w w' (sym e ∙ e')) ∙ sym q'

  -- The row that is made of an item has the key that is read from it.
  pub dynamodb_item_to_json_row-has_key :
      (item : Fields P) (key_schema : DynamoDbKeySchemaConfig) (key : Dict String (Value P))
      (row : Value P)
      → distinct (entry_names item) ≡ true
      → is_reflexive key ≡ true
      → dynamodb_item_to_json_row item ≡ ok row
      → parse_item_key_map item key_schema ≡ ok key
      → has_key key_schema key row ≡ true
  unfolding dynamodb_item_to_json_row
  dynamodb_item_to_json_row-has_key item key_schema key row d r h k =
      then_lem (convert_entries end item) _ _ h (λ made e1 h1.
        subst (λ v. has_key key_schema key v ≡ true) (ok_same _ _ h1)
          (has_key_of key_schema key made r (value made e1 key_schema.partition_key (inl refl))
            (λ name q. value made e1 name (inr q))))
    where
      attrs :
          (m : Fields P) × (parse_key_map m key_schema ≡ ok key)
          × IsCopied item m key_schema.partition_key key_schema.sort_key
      attrs = copied item key_schema.partition_key key_schema.sort_key key k

      value :
          (made : Fields P)
          → convert_entries end item ≡ ok made
          → (name : String) → (key_schema.partition_key ≡ name) ⊎ (key_schema.sort_key ≡ some name)
          → get_field made name ≡ get key name
      value made e name which =
          same_value (get_field item name) (get_field made name) (get key name)
            (convert_entries-Converts end item made name d e)
            (HasValue-item attrs.0 key name (attrs.2 name which)
              (parse_key_map-HasValue attrs.0 key_schema key name attrs.1 which))
