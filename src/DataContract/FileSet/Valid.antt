-- ===== src/DataContract/FileSet/Valid.antt =====
-- The invariant of `FileSetPayload`: the vectors stay parallel and the indexes in range, whatever the
-- operation, so `as_file_tuples` and `validate` do not panic.
use powdrr_engine.Common.{
  ℕ, ◌<◌, ◌≤◌, String, ◌≡◌, refl, ap, true, some, List, [], ◌∷◌, ◌++◌, arith, ltb, ◌==◌, ==_iff,
  all, all-append, contains, length, length-append, inl, inr, Bool-cases, Option-cases, get_elem?,
  get_elem?-some, string_eq, nat_eq,
}
use powdrr_engine.DataContract.Schema.{PowdrrSchema, schema_eq}
use powdrr_engine.DataContract.FileSet.{
  FileSetPayload, FileDescriptor, new, file_tuples, as_file_tuples, add, add_all, merge,
  merge_inplace, position, push_file, len,
}

-- The three vectors are parallel, and each index names a schema.
pub record IsValid (fs : FileSetPayload) : Type 0 where
  pub sizes_parallel : length fs.sizes ≡ length fs.file_paths
  pub schemas_parallel : length fs.file_schemas ≡ length fs.file_paths
  pub indexes_in_range : all (λ index. ltb index (length fs.schemas)) fs.file_schemas ≡ true

abbrev pub paths_of : List FileDescriptor → List String
paths_of [] = []
paths_of (d ∷ ds) = d.file_path ∷ paths_of ds

file_tuples_total :
    (schemas : List PowdrrSchema) (paths : List String) (sizes indexes : List ℕ)
    → length sizes ≡ length paths
    → length indexes ≡ length paths
    → all (λ index. ltb index (length schemas)) indexes ≡ true
    → (ds : List FileDescriptor) × (file_tuples schemas paths sizes indexes ≡ some ds)
      × (paths_of ds ≡ paths)
unfolding file_tuples
file_tuples_total schemas [] sizes indexes s i r = ([], refl, refl)
file_tuples_total schemas (p ∷ ps) [] indexes s i r = absurd (omega arith)
file_tuples_total schemas (p ∷ ps) (z ∷ zs) [] s i r = absurd (omega arith)
file_tuples_total schemas (p ∷ ps) (z ∷ zs) (x ∷ xs) s i r =
    let (schema, found) = get_elem?-some schemas x (ground arith) in
    let (ds, e, q) =
      file_tuples_total schemas ps zs xs (omega arith) (omega arith) (ground arith) in
    (record { file_path = p; schema = schema; size = z } ∷ ds, rw (found, e), ap (λ l. p ∷ l) q)

-- A valid set lists one descriptor for each path, in order, and does not panic.
pub as_file_tuples_total :
    (fs : FileSetPayload)
    → IsValid fs
    → (ds : List FileDescriptor) × (as_file_tuples fs ≡ some ds) × (paths_of ds ≡ fs.file_paths)
unfolding as_file_tuples
as_file_tuples_total fs v =
    file_tuples_total fs.schemas fs.file_paths fs.sizes fs.file_schemas v.sizes_parallel
      v.schemas_parallel v.indexes_in_range

pub new-IsValid : IsValid new
new-IsValid = record { sizes_parallel = refl; schemas_parallel = refl; indexes_in_range = refl }

position_range :
    (schema : PowdrrSchema) (schemas : List PowdrrSchema) (i : ℕ)
    → position schema schemas ≡ some i
    → (i < length schemas) × (get_elem? schemas i ≡ some schema)
unfolding position
position_range schema [] i h = cc
position_range schema (s ∷ ss) i h = elim (Bool-cases (s == schema)) [
  | inl e ↦ ground (arith, ==_iff s schema)
  | inr e ↦ elim (Option-cases (position schema ss)) [
    | inl n ↦ ground arith
    | inr (j, n) ↦ ground (arith, position_range schema ss j n)
  ]
]

in_range_more :
    (n m : ℕ) (xs : List ℕ)
    → n ≤ m
    → all (λ index. ltb index n) xs ≡ true
    → all (λ index. ltb index m) xs ≡ true
in_range_more n m [] l h = refl
in_range_more n m (x ∷ xs) l h = ground (arith, in_range_more n m xs l)

push_file-IsValid :
    (fs : FileSetPayload) (d : FileDescriptor) (index : ℕ) (schemas : List PowdrrSchema)
    → IsValid fs
    → length fs.schemas ≤ length schemas
    → index < length schemas
    → IsValid (push_file fs d index schemas)
unfolding push_file
push_file-IsValid fs d index schemas v grown fits = record {
  sizes_parallel = omega (
    arith,
    v.sizes_parallel,
    length-append fs.sizes (d.size ∷ []),
    length-append fs.file_paths (d.file_path ∷ []),
  );
  schemas_parallel = omega (
    arith,
    v.schemas_parallel,
    length-append fs.file_schemas (index ∷ []),
    length-append fs.file_paths (d.file_path ∷ []),
  );
  indexes_in_range = ground (
    arith,
    all-append (λ i. ltb i (length schemas)) fs.file_schemas (index ∷ []),
    in_range_more (length fs.schemas) (length schemas) fs.file_schemas grown v.indexes_in_range,
  );
}

pub add-IsValid : (fs : FileSetPayload) (d : FileDescriptor) → IsValid fs → IsValid (add fs d)
unfolding add
add-IsValid fs d v = elim (Bool-cases (contains fs.file_paths d.file_path)) [
  | inl known ↦ rw known v
  | inr fresh ↦ elim (Option-cases (position d.schema fs.schemas)) [
    | inl n ↦
        rw (fresh, n)
          (push_file-IsValid fs d (length fs.schemas) (fs.schemas ++ d.schema ∷ []) v
            (omega (arith, length-append fs.schemas (d.schema ∷ [])))
            (omega (arith, length-append fs.schemas (d.schema ∷ []))))
    | inr (i, e) ↦
        rw (fresh, e)
          (push_file-IsValid fs d i fs.schemas v (omega arith)
            (position_range d.schema fs.schemas i e).0)
  ]
]

pub add_all-IsValid :
    (fs : FileSetPayload) (ds : List FileDescriptor) → IsValid fs → IsValid (add_all fs ds)
unfolding add_all
add_all-IsValid fs [] v = v
add_all-IsValid fs (d ∷ ds) v = add_all-IsValid (add fs d) ds (add-IsValid fs d v)

merge_inplace-IsValid :
    (fs other : FileSetPayload)
    → IsValid fs
    → IsValid other
    → (r : FileSetPayload) × (merge_inplace fs other ≡ some r) × IsValid r
unfolding merge_inplace
merge_inplace-IsValid fs other v w =
    let (ds, e, _) = as_file_tuples_total other w in (add_all fs ds, rw e, add_all-IsValid fs ds v)

-- The merge of two valid sets does not panic and is valid, whichever of them is the larger.
pub merge-IsValid :
    (fs other : FileSetPayload)
    → IsValid fs
    → IsValid other
    → (r : FileSetPayload) × (merge fs other ≡ some r) × IsValid r
unfolding merge
merge-IsValid fs other v w = elim (Bool-cases (ltb (len other) (len fs))) [
  | inl larger ↦ rw larger (merge_inplace-IsValid fs other v w)
  | inr smaller ↦ rw smaller (merge_inplace-IsValid other fs w v)
]
