-- ===== src/DataContract/Schema.antt =====
-- control_plane/src/schema_massager.rs: table schemas, and the merge of one schema into another.
-- A panic of the code is `none`.
pub mod Names
pub mod Merge
use powdrr_engine.Common.{
  String, ◌≡◌, ◌↔◌, Bool, true, false, ◌&&◌, Option, none, some, arith, if◌then◌else◌, Eq, ◌==◌,
  ==_iff, string_eq, ◌>>=◌,
}

-- A field is its name and its type; `PowdrrSchema` is the vector of the fields.
mutual
  pub data PowdrrDataType : Type 0 where
    array : PowdrrDataType → PowdrrDataType
    boolean float integer null string : PowdrrDataType
    object : PowdrrSchema → PowdrrDataType

  pub data PowdrrSchema : Type 0 where
    nil : PowdrrSchema
    field : String → PowdrrDataType → PowdrrSchema → PowdrrSchema

-- the derived `PartialEq`
unfoldable mutual
  pub type_beq : PowdrrDataType → PowdrrDataType → Bool
  type_beq (array s) (array t) = type_beq s t
  type_beq boolean boolean = true
  type_beq float float = true
  type_beq integer integer = true
  type_beq null null = true
  type_beq string string = true
  type_beq (object s) (object t) = schema_beq s t
  type_beq _ _ = false

  pub schema_beq : PowdrrSchema → PowdrrSchema → Bool
  schema_beq nil nil = true
  schema_beq (field n s r) (field m t q) = n == m && type_beq s t && schema_beq r q
  schema_beq _ _ = false

mutual
  unfolding type_beq

  type_beq_iff : (s t : PowdrrDataType) → (type_beq s t ≡ true) ↔ (s ≡ t)
  type_beq_iff (array s) (array t) = ground (arith, type_beq_iff s t)
  type_beq_iff (object s) (object t) = ground (arith, schema_beq_iff s t)
  type_beq_iff _ _ = ground arith

  schema_beq_iff : (s t : PowdrrSchema) → (schema_beq s t ≡ true) ↔ (s ≡ t)
  schema_beq_iff (field n s r) (field m t q) =
      ground (arith, ==_iff n m, type_beq_iff s t, schema_beq_iff r q)
  schema_beq_iff _ _ = ground arith

pub type-beq_lem : (s t : PowdrrDataType) → (type_beq s t ≡ true) ↔ (s ≡ t)
type-beq_lem s t = type_beq_iff s t

pub schema-beq_lem : (s t : PowdrrSchema) → (schema_beq s t ≡ true) ↔ (s ≡ t)
schema-beq_lem s t = schema_beq_iff s t

instance abbrev pub type_eq : Eq PowdrrDataType
type_eq = record { same = type_beq; same_iff = type-beq_lem }

instance abbrev pub schema_eq : Eq PowdrrSchema
schema_eq = record { same = schema_beq; same_iff = schema-beq_lem }

abbrev pub minimal : PowdrrSchema
minimal = nil

abbrev pub deletes : PowdrrSchema
deletes = field "_id_seq_no" string nil

-- `self.to_map().get(name)`: collecting into a map keeps the last field of a name
unfoldable pub to_map_get : PowdrrSchema → String → Option PowdrrDataType
to_map_get nil name = none
to_map_get (field n t r) name = elim (to_map_get r name) [
  | some u ↦ some u
  | none ↦ if n == name then some t else none
]

-- the assignment to `fields[position]`, at the first field of the name; it panics where there is none
unfoldable pub set_field : String → PowdrrDataType → PowdrrSchema → Option PowdrrSchema
set_field name u nil = none
set_field name u (field n t r) =
    let rest = set_field name u r in
    if n == name then some (field n u r) else (do r' ← rest; some (field n t r'))

unfoldable pub push_field : String → PowdrrDataType → PowdrrSchema → PowdrrSchema
push_field name u nil = field name u nil
push_field name u (field n t r) = field n t (push_field name u r)

-- what one field of `other` does to the fields: nothing, an assignment, or a push
unfoldable pub store_merged : String → Option PowdrrDataType → PowdrrSchema → Option PowdrrSchema
store_merged name none fields = some fields
store_merged name (some merged) fields = set_field name merged fields

unfoldable mutual
  -- `none` is a panic; `some none` leaves the field of `self` as it is
  pub merge_field : PowdrrDataType → PowdrrDataType → Option (Option PowdrrDataType)
  merge_field self null = some none
  merge_field null (array u) = some (some (array u))
  merge_field null boolean = some (some boolean)
  merge_field null float = some (some float)
  merge_field null integer = some (some integer)
  merge_field null string = some (some string)
  merge_field null (object o) = some (some (object o))
  merge_field (object s) (object o) = do m ← merge_fields s s o; some (some (object m))
  merge_field (array t) (array null) = some none
  merge_field (array null) (array u) = some (some (array u))
  merge_field (array (object s)) (array (object o)) = do
    m ← merge_fields s s o
    some (some (array (object m)))
  merge_field (array t) (array u) = if type_beq t u then some none else none
  merge_field t u = if type_beq t u then some none else none

  -- the loop over `other.fields`: `self` is the schema as it was when `self_map` was built
  pub merge_fields : PowdrrSchema → PowdrrSchema → PowdrrSchema → Option PowdrrSchema
  merge_fields self fields nil = some fields
  merge_fields self fields (field n u r) = do
    fields' ← elim (to_map_get self n) [
      | some t ↦ do merged ← merge_field t u; store_merged n merged fields
      | none ↦ some (push_field n u fields)
    ]
    merge_fields self fields' r

unfoldable pub merge_from : PowdrrSchema → PowdrrSchema → Option PowdrrSchema
merge_from self other = merge_fields self self other
