-- ===== src/DataContract/Schema/Merge.antt =====
-- Merging a schema into itself.
use powdrr_engine.Common.{
  String, ◌≡◌, refl, Bool, true, false, not, Option, none, some, arith, ◌⊎◌, if◌then◌else◌, ==_iff,
  ==_refl, contains, string_eq, Option-cases, inl, inr, ◌&&◌,
}
use powdrr_engine.DataContract.Schema.{
  PowdrrDataType, PowdrrSchema, array, boolean, float, integer, null, string, object, nil, field,
  to_map_get, set_field, store_merged, type_beq, type-beq_lem, type_eq, merge_field, merge_fields,
  merge_from,
}
use powdrr_engine.DataContract.Schema.Names.{names, to_map_get-names}

-- No name twice among the fields of a schema, at every depth.
unfoldable mutual
  pub is_well_named_type : PowdrrDataType → Bool
  is_well_named_type (array t) = is_well_named_type t
  is_well_named_type (object s) = is_well_named s
  is_well_named_type _ = true

  pub is_well_named : PowdrrSchema → Bool
  is_well_named nil = true
  is_well_named (field n t r) =
      not (contains (names r) n) && is_well_named_type t && is_well_named r

-- `self` has each field of `r`, and to assign it its own type changes nothing
abbrev Has : PowdrrSchema → PowdrrSchema → Type 0
Has self nil = Unit
Has self (field n t r) =
    (to_map_get self n ≡ some t) × (set_field n t self ≡ some self) × Has self r

Has-field :
    (m : String) (u : PowdrrDataType) (self r : PowdrrSchema)
    → contains (names r) m ≡ false
    → Has self r
    → Has (field m u self) r
unfolding to_map_get set_field
Has-field m u self nil c h = tt
Has-field m u self (field n t r) c (g, s, h) =
    (rw g refl, ground (arith, ==_iff n m, ==_iff m n), Has-field m u self r (ground arith) h)

absent : (s : PowdrrSchema) (n : String) → contains (names s) n ≡ false → to_map_get s n ≡ none
absent s n h = elim (Option-cases (to_map_get s n)) [
  | inl e ↦ e
  | inr (t, e) ↦ ground (arith, to_map_get-names s n)
]

three : (a b c : Bool) → (not a && b && c) ≡ true → (a ≡ false) × (b ≡ true) × (c ≡ true)
three a b c h = ground arith

-- what the test says of the first field, of its type, and of the other fields
is_well_named-field :
    (n : String) (t : PowdrrDataType) (r : PowdrrSchema)
    → is_well_named (field n t r) ≡ true
    → (contains (names r) n ≡ false) × (is_well_named_type t ≡ true) × (is_well_named r ≡ true)
unfolding is_well_named
is_well_named-field n t r = three (contains (names r) n) (is_well_named_type t) (is_well_named r)

Has-self : (s : PowdrrSchema) → is_well_named s ≡ true → Has s s
unfolding to_map_get set_field
Has-self nil w = tt
Has-self (field n t r) w =
    let (fresh, _, rest) = is_well_named-field n t r w in
    (
      rw (absent r n fresh, ==_refl n) refl,
      rw (==_refl n) refl,
      Has-field n t r r fresh (Has-self r rest),
    )

same_type :
    (t : PowdrrDataType)
    → Path (Option (Option PowdrrDataType)) (if type_beq t t then some none else none) (some none)
same_type t = rw ((type-beq_lem t t).1 refl) refl

mutual
  unfolding merge_field is_well_named store_merged

  merge_field-same :
      (t : PowdrrDataType)
      → is_well_named_type t ≡ true
      → (merge_field t t ≡ some none) ⊎ (merge_field t t ≡ some (some t))
  merge_field-same (array (array t)) w = inl (same_type (array t))
  merge_field-same (array null) w = inl refl
  merge_field-same (array (object s)) w = inr (rw (merge_fields-same s s (Has-self s w) w) refl)
  merge_field-same (array boolean) w = inl (same_type boolean)
  merge_field-same (array float) w = inl (same_type float)
  merge_field-same (array integer) w = inl (same_type integer)
  merge_field-same (array string) w = inl (same_type string)
  merge_field-same (object s) w = inr (rw (merge_fields-same s s (Has-self s w) w) refl)
  merge_field-same null w = inl refl
  merge_field-same boolean w = inl (same_type boolean)
  merge_field-same float w = inl (same_type float)
  merge_field-same integer w = inl (same_type integer)
  merge_field-same string w = inl (same_type string)

  merge_fields-same :
      (self r : PowdrrSchema)
      → Has self r
      → is_well_named r ≡ true
      → merge_fields self self r ≡ some self
  merge_fields-same self nil h w = refl
  merge_fields-same self (field n t r) (g, s, h) w =
      let (_, typed, rest) = is_well_named-field n t r w in
      elim (merge_field-same t typed) [
        | inl e ↦ rw (g, merge_field) (rw (e, store_merged) (merge_fields-same self r h rest))
        | inr e ↦
            rw (g, merge_field)
              (rw (e, store_merged) (rw (s, store_merged) (merge_fields-same self r h rest)))
      ]

-- Merging a schema with no name twice at any depth into itself does not panic and changes nothing.
pub merge_from_idem : (s : PowdrrSchema) → is_well_named s ≡ true → merge_from s s ≡ some s
unfolding merge_from
merge_from_idem s w = merge_fields-same s s (Has-self s w) w
