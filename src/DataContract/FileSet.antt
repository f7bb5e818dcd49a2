-- ===== src/DataContract/FileSet.antt =====
-- `FileSetPayload` of control_plane/src/data_contract.rs: parallel vectors of paths, sizes and schema
-- indexes, and the schemas that the indexes name. A panic of the code is `none`.
pub mod Tuples
pub mod Valid
pub mod Remove
pub mod Merge
use text.Mathlib.Text.{find?}
use powdrr_engine.Common.{
  ℕ, zero, suc, ◌%◌, String, Bool, true, false, Option, none, some, List, [], ◌∷◌, ◌++◌, ltb,
  if◌then◌else◌, ◌==◌, ◌>>=◌, ◌>>◌, assert, all, contains, length, get_elem?, is_some, string_eq,
  nat_eq,
}
use powdrr_engine.DataContract.Schema.{PowdrrSchema, schema_eq}

pub record FileSetPayload : Type 0 where
  pub file_paths : List String
  pub schemas : List PowdrrSchema
  pub file_schemas : List ℕ
  pub sizes : List ℕ

pub record FileDescriptor : Type 0 where
  pub file_path : String
  pub schema : PowdrrSchema
  pub size : ℕ

abbrev pub new : FileSetPayload
new = record { file_paths = []; schemas = []; file_schemas = []; sizes = [] }

unfoldable pub validate : FileSetPayload → Option (Unit {0})
validate fs = assert (all (λ index. ltb index (length fs.schemas)) fs.file_schemas)

unfoldable pub single : String → ℕ → PowdrrSchema → FileSetPayload
single file_path size schema = record {
  file_paths = file_path ∷ [];
  sizes = size ∷ [];
  file_schemas = 0 ∷ [];
  schemas = schema ∷ [];
}

abbrev pub len : FileSetPayload → ℕ
len fs = length fs.file_paths

unfoldable pub clear : FileSetPayload → FileSetPayload
clear fs = record { file_paths = []; schemas = []; file_schemas = []; sizes = [] }

-- `Vec::remove`, which panics where the position is past the end
unfoldable pub remove_at {ℓ} : {A : Type ℓ} → List A → ℕ → Option (List A)
remove_at [] i = none
remove_at (x ∷ xs) zero = some xs
remove_at (x ∷ xs) (suc i) = do rest ← remove_at xs i; some (x ∷ rest)

-- The `while` loop of `remove`: a round removes the file at `i` or moves on, so the files that are
-- left from `i` on fall by one, and their number is the fuel.
unfoldable pub remove_from : ℕ → ℕ → List String → FileSetPayload → Option FileSetPayload
remove_from zero i to_remove fs = some fs
remove_from (suc rounds) i to_remove fs = elim (get_elem? fs.file_paths i) [
  | none ↦ some fs
  | some file_name ↦ elim (contains to_remove file_name) [
    | true ↦ do
      file_paths ← remove_at fs.file_paths i
      sizes ← remove_at fs.sizes i
      file_schemas ← remove_at fs.file_schemas i
      remove_from rounds i to_remove (record {
        file_paths = file_paths;
        schemas = fs.schemas;
        file_schemas = file_schemas;
        sizes = sizes;
      })
    | false ↦ remove_from rounds (suc i) to_remove fs
  ]
]

unfoldable pub remove : FileSetPayload → List String → Option FileSetPayload
unfolding remove_from remove_at
remove fs file_paths_to_remove = remove_from (len fs) 0 file_paths_to_remove fs

-- the zipped vectors, each index looked up in `schemas`, which panics out of range
unfoldable pub file_tuples :
    List PowdrrSchema → List String → List ℕ → List ℕ → Option (List FileDescriptor)
file_tuples schemas (path ∷ paths) (size ∷ sizes) (index ∷ file_schemas) = do
  schema ← get_elem? schemas index
  rest ← file_tuples schemas paths sizes file_schemas
  some (record { file_path = path; schema = schema; size = size } ∷ rest)
file_tuples schemas _ _ _ = some []

unfoldable pub as_file_tuples : FileSetPayload → Option (List FileDescriptor)
unfolding file_tuples
as_file_tuples fs = file_tuples fs.schemas fs.file_paths fs.sizes fs.file_schemas

-- `hash` stands for the standard library's `DefaultHasher`; the remainder by 0 panics.
unfoldable pub selected_file : (String → ℕ) → String → ℕ → ℕ → Option Bool
selected_file hash file_path index num =
    if num == 0 then none else some (hash file_path % num == index)

unfoldable pub select_tuples :
    (String → ℕ) → ℕ → ℕ → List FileDescriptor → Option (List FileDescriptor)
unfolding selected_file
select_tuples hash index num [] = some []
select_tuples hash index num (descriptor ∷ descriptors) = do
  selected ← selected_file hash descriptor.file_path index num
  rest ← select_tuples hash index num descriptors
  some (if selected then descriptor ∷ rest else rest)

unfoldable pub as_selected_tuples :
    (String → ℕ) → FileSetPayload → ℕ → ℕ → Option (List FileDescriptor)
unfolding select_tuples
as_selected_tuples hash fs index num = do
  descriptors ← as_file_tuples fs
  select_tuples hash index num descriptors

-- `iter().position(|item| item == schema)`
unfoldable pub position : PowdrrSchema → List PowdrrSchema → Option ℕ
position schema [] = none
position schema (item ∷ items) =
    let rest = position schema items in
    if item == schema then some 0 else (do index ← rest; some (suc index))

-- the pushes of `add`: the file, with its index, beside the schemas as they are then
unfoldable pub push_file : FileSetPayload → FileDescriptor → ℕ → List PowdrrSchema → FileSetPayload
push_file fs descriptor index schemas = record {
  file_paths = fs.file_paths ++ descriptor.file_path ∷ [];
  schemas = schemas;
  file_schemas = fs.file_schemas ++ index ∷ [];
  sizes = fs.sizes ++ descriptor.size ∷ [];
}

unfoldable pub add : FileSetPayload → FileDescriptor → FileSetPayload
add fs descriptor =
    if contains fs.file_paths descriptor.file_path
    then fs
    else elim (position descriptor.schema fs.schemas) [
      | some index ↦ push_file fs descriptor index fs.schemas
      | none ↦ push_file fs descriptor (length fs.schemas) (fs.schemas ++ descriptor.schema ∷ [])
    ]

unfoldable pub add_all : FileSetPayload → List FileDescriptor → FileSetPayload
add_all fs [] = fs
add_all fs (descriptor ∷ descriptors) = add_all (add fs descriptor) descriptors

unfoldable pub merge_inplace : FileSetPayload → FileSetPayload → Option FileSetPayload
unfolding add_all
merge_inplace fs other = do descriptors ← as_file_tuples other; some (add_all fs descriptors)

-- the larger one is cloned, and the smaller one merged in
unfoldable pub merge : FileSetPayload → FileSetPayload → Option FileSetPayload
unfolding merge_inplace
merge fs other = if ltb (len other) (len fs) then merge_inplace fs other else merge_inplace other fs

-- `str::contains`
abbrev pub is_within : String → String → Bool
is_within file_name file_path = is_some (find? file_path file_name)

-- the first file whose path contains the name; `none` where no path does
unfoldable pub select_from :
    List PowdrrSchema → String → List String → List ℕ → List ℕ → Option FileSetPayload
select_from schemas file_name (path ∷ paths) (size ∷ sizes) (index ∷ file_schemas) =
    let rest = select_from schemas file_name paths sizes file_schemas in
    if is_within file_name path
    then (do schema ← get_elem? schemas index; some (single path size schema))
    else rest
select_from schemas file_name (path ∷ paths) _ _ = none
select_from schemas file_name [] _ _ = none

unfoldable pub select : FileSetPayload → String → Option FileSetPayload
unfolding select_from single
select fs file_name = select_from fs.schemas file_name fs.file_paths fs.sizes fs.file_schemas
