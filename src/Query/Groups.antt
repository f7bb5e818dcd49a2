-- ===== src/Query/Groups.antt =====
-- query_core/src/query_path.rs: the groups of `group_files_by_schema`.
use powdrr_engine.Common.{
  ◌≡◌, refl, ◌∙◌, Bool, true, ◌||◌, List, [], ◌∷◌, ◌++◌, if◌then◌else◌, ◌==◌, ==_iff, arith, retain,
  contains, distinct, Bool-cases, inl, inr, sym,
}
use mathlib.Core.List.{append-nil, append_assoc}
use powdrr_engine.DataContract.Schema.{PowdrrSchema, schema_eq}
use powdrr_engine.DataContract.FileSet.{FileDescriptor}
use powdrr_engine.Query.Path.{push_to_group, group_files, group_files_by_schema}

-- the group whose first file has the schema; no files where there is none
abbrev pub group_of : PowdrrSchema → List (List FileDescriptor) → List FileDescriptor
group_of schema [] = []
group_of schema ([] ∷ groups) = group_of schema groups
group_of schema ((file ∷ group) ∷ groups) =
    if file.schema == schema then file ∷ group else group_of schema groups

-- the schemas of the groups, by their first files
abbrev pub group_schemas : List (List FileDescriptor) → List PowdrrSchema
group_schemas [] = []
group_schemas ([] ∷ groups) = group_schemas groups
group_schemas ((file ∷ group) ∷ groups) = file.schema ∷ group_schemas groups

abbrev pub has_schema : PowdrrSchema → FileDescriptor → Bool
has_schema schema file = file.schema == schema

group_of-push :
    (schema : PowdrrSchema) (file : FileDescriptor) (groups : List (List FileDescriptor))
    → group_of schema (push_to_group file groups) ≡ (
        if file.schema == schema
        then group_of schema groups ++ (file ∷ [])
        else group_of schema groups)
unfolding push_to_group
group_of-push schema file [] = refl
group_of-push schema file ([] ∷ groups) = group_of-push schema file groups
group_of-push schema file ((existing ∷ group) ∷ groups) = ground (
  arith,
  group_of-push schema file groups,
  ==_iff existing.schema file.schema,
  ==_iff existing.schema schema,
  ==_iff file.schema schema,
)

group_of-group_files :
    (schema : PowdrrSchema) (groups : List (List FileDescriptor)) (files : List FileDescriptor)
    → group_of schema (group_files groups files)
      ≡ group_of schema groups ++ retain (has_schema schema) files
unfolding group_files
group_of-group_files schema groups [] = sym (append-nil (group_of schema groups))
group_of-group_files schema groups (file ∷ files) =
    group_of-group_files schema (push_to_group file groups) files
    ∙ rw (group_of-push schema file groups) (elim (Bool-cases (file.schema == schema)) [
      | inl e ↦
          rw e
            (append_assoc (group_of schema groups) (file ∷ []) (retain (has_schema schema) files))
      | inr e ↦ rw e refl
    ])

contains-push :
    (schema : PowdrrSchema) (file : FileDescriptor) (groups : List (List FileDescriptor))
    → contains (group_schemas (push_to_group file groups)) schema
      ≡ (contains (group_schemas groups) schema || file.schema == schema)
unfolding push_to_group
contains-push schema file [] = ground arith
contains-push schema file ([] ∷ groups) = contains-push schema file groups
contains-push schema file ((existing ∷ group) ∷ groups) = ground (
  arith,
  contains-push schema file groups,
  ==_iff existing.schema file.schema,
  ==_iff existing.schema schema,
  ==_iff file.schema schema,
)

distinct-push :
    (file : FileDescriptor) (groups : List (List FileDescriptor))
    → distinct (group_schemas groups) ≡ true
    → distinct (group_schemas (push_to_group file groups)) ≡ true
unfolding push_to_group
distinct-push file [] h = refl
distinct-push file ([] ∷ groups) h = distinct-push file groups h
distinct-push file ((existing ∷ group) ∷ groups) h = ground (
  arith,
  distinct-push file groups,
  contains-push existing.schema file groups,
  ==_iff existing.schema file.schema,
  ==_iff file.schema existing.schema,
)

distinct-group_files :
    (groups : List (List FileDescriptor)) (files : List FileDescriptor)
    → distinct (group_schemas groups) ≡ true
    → distinct (group_schemas (group_files groups files)) ≡ true
unfolding group_files
distinct-group_files groups [] h = h
distinct-group_files groups (file ∷ files) h =
    distinct-group_files (push_to_group file groups) files (distinct-push file groups h)

-- The group of a schema holds just the files of that schema, in their order, and no schema has two
-- groups.
pub group_files_by_schema_lem :
    (schema : PowdrrSchema) (files : List FileDescriptor)
    → (group_of schema (group_files_by_schema files) ≡ retain (has_schema schema) files)
      × (distinct (group_schemas (group_files_by_schema files)) ≡ true)
unfolding group_files_by_schema
group_files_by_schema_lem schema files =
    (group_of-group_files schema [] files, distinct-group_files [] files refl)
