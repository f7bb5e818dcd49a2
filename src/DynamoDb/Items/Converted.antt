-- ===== src/DynamoDb/Items/Converted.antt =====
-- The entries of an item, converted by `dynamodb_attr_to_json` of
-- query_server/src/dynamodb_protocol.rs.
use powdrr_engine.Common.{
  String, ◌≡◌, refl, sym, ap, ◌∙◌, Bool, true, false, not, Option, none, some, List, [], ◌∷◌,
  if◌then◌else◌, ◌==◌, ==_iff, &&_iff, string_eq, option_eq, distinct, contains, arith, Bool-cases,
  inl, inr, nat_eq,
}
use powdrr_engine.Json.{
  Floats, Value, Fields, end, field, get_field, insert_field, get_field-insert_field,
}
use powdrr_engine.DynamoDb.Error.{ok, validation, ok_or, then_lem, ok_same}
use powdrr_engine.DynamoDb.Attributes.{dynamodb_attr_to_json, convert_entries}

pub some_same : (a b : String) → some a ≡ some b → a ≡ b
some_same a b h = cc

pub ok_or-eq_some : {A : Type 0} (o : Option A) (a : A) → ok_or validation o ≡ ok a → o ≡ some a
ok_or-eq_some none a h = absurd (ground arith)
ok_or-eq_some (some b) a h = cc

pub if_same : {A : Type 0} (b : Bool) (a : A) → (if b then a else a) ≡ a
if_same true a = refl
if_same false a = refl

module _ {P : Floats} where
  -- the names of the entries of an object
  abbrev pub entry_names : Fields P → List String
  entry_names end = []
  entry_names (field k v fs) = k ∷ entry_names fs

  get_field-absent :
      (fs : Fields P) (name : String)
      → contains (entry_names fs) name ≡ false
      → get_field fs name ≡ none
  unfolding get_field
  get_field-absent end name h = refl
  get_field-absent (field k v fs) name h = ground (arith, get_field-absent fs name)

  convert_entries-absent :
      (converted fs result : Fields P) (name : String)
      → convert_entries converted fs ≡ ok result
      → get_field fs name ≡ none
      → get_field result name ≡ get_field converted name
  unfolding convert_entries get_field
  convert_entries-absent converted end result name h absent =
      ap (λ fs. get_field fs name) (sym (ok_same _ _ h))
  convert_entries-absent converted (field k v fs) result name h absent =
      elim (Bool-cases (k == name)) [
        | inl e ↦ absurd (ground arith)
        | inr e ↦ then_lem (dynamodb_attr_to_json v) _ _ h (λ w e1 h1.
            convert_entries-absent (insert_field k w converted) fs result name h1 (rw e at absent)
            ∙ rw (get_field-insert_field k name w converted, e) refl)
      ]

  -- the value of an attribute, converted
  abbrev pub Converts : Option (Value P) → Option (Value P) → Type 0
  Converts none result = Unit
  Converts (some v) result = (w : Value P) × (dynamodb_attr_to_json v ≡ ok w) × (result ≡ some w)

  pub convert_entries-Converts :
      (converted fs result : Fields P) (name : String)
      → distinct (entry_names fs) ≡ true
      → convert_entries converted fs ≡ ok result
      → Converts (get_field fs name) (get_field result name)
  unfolding convert_entries get_field
  convert_entries-Converts converted end result name d h = tt
  convert_entries-Converts converted (field k v fs) result name d h =
      then_lem (dynamodb_attr_to_json v) _ _ h (λ w e1 h1. elim (Bool-cases (k == name)) [
        | inl e ↦ rw e (
          w,
          e1,
          convert_entries-absent (insert_field k w converted) fs result name h1
                (get_field-absent fs name (fresh e))
              ∙ rw (get_field-insert_field k name w converted, e) refl,
        )
        | inr e ↦ rw e (
            convert_entries-Converts (insert_field k w converted) fs result name
              ((&&_iff _ _).0 d).1 h1)
      ])
    where
      not_true : (b : Bool) → not b ≡ true → b ≡ false
      not_true b n = ground arith

      fresh : k == name ≡ true → contains (entry_names fs) name ≡ false
      fresh e = rw (← (==_iff k name).0 e) (not_true _ ((&&_iff _ _).0 d).0)
