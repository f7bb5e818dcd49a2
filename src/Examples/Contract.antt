-- ===== src/Examples/Contract.antt =====
-- Runs of the data contract, control_plane/src/data_contract.rs and control_plane/src/schema_massager.rs.
use powdrr_engine.Common.{
  String, ◌≡◌, refl, ap, true, Option, none, some, List, [], ◌∷◌, ◌++◌, if◌then◌else◌, ◌==◌,
  distinct, retain, string_eq, nat_eq,
}
use powdrr_engine.Common.Dict.{get, keys}
use powdrr_engine.DataContract.Schema.{
  PowdrrSchema, nil, field, string, integer, float, merge_from, merge_fields, to_map_get, type_beq,
  store_merged, push_field,
}
use powdrr_engine.DataContract.Schema.Names.{names, fresh_in, names-merge_from}
use powdrr_engine.DataContract.Schema.Merge.{is_well_named}
use powdrr_engine.DataContract.FileSet.{
  FileSetPayload, FileDescriptor, as_file_tuples, merge, remove,
}
use powdrr_engine.DataContract.FileSet.Valid.{IsValid}
use powdrr_engine.DataContract.FileSet.Remove.{stays, retain_tuples, as_file_tuples-remove}
use powdrr_engine.DataContract.FileSet.Merge.{IsUnion, merge-IsUnion}
use powdrr_engine.DataContract.Types.{
  SpeedboatMetadata, ExtensionFile, ExtensionCommit, CompactionCommit, TableMetadataCheckpoint,
}
use powdrr_engine.DataContract.Checkpoint.{
  extension_map, fully_covered_for_extension, validate_fully_covered_for_extension, add_coverage,
}
use powdrr_engine.DataContract.Checkpoint.Coverage.{
  fully_covered_for_extension_lem, add_coverage_lem, covered_keys, after_cover,
}
use powdrr_engine.DataContract.Commits.{get_removed_files, apply_compactions}
use powdrr_engine.DataContract.Commits.Compacted.{IsCompacted, apply_compactions-IsCompacted}

abbrev people : PowdrrSchema
people = field "id" string (field "age" integer nil)

abbrev people_with_height : PowdrrSchema
people_with_height = field "height" float (field "id" string nil)

abbrev merged_people : PowdrrSchema
merged_people = field "id" string (field "age" integer (field "height" float nil))

merged : merge_from people people_with_height ≡ some merged_people
unfolding merge_from merge_fields to_map_get type_beq store_merged push_field
merged = refl

names-merge_from_example :
    names merged_people ≡ names people ++ retain (fresh_in people) (names people_with_height)
names-merge_from_example = names-merge_from people people_with_height merged

people_named : is_well_named people ≡ true
unfolding is_well_named
people_named = refl

abbrev two_files : FileSetPayload
two_files = record {
  file_paths = "a.parquet" ∷ "b.parquet" ∷ [];
  schemas = people ∷ [];
  file_schemas = 0 ∷ 0 ∷ [];
  sizes = 10 ∷ 20 ∷ [];
}

abbrev other_files : FileSetPayload
other_files = record {
  file_paths = "b.parquet" ∷ "c.parquet" ∷ [];
  schemas = people_with_height ∷ people ∷ [];
  file_schemas = 1 ∷ 0 ∷ [];
  sizes = 20 ∷ 30 ∷ [];
}

two_files-IsValid : IsValid two_files
two_files-IsValid = record {
  sizes_parallel = refl;
  schemas_parallel = refl;
  indexes_in_range = refl;
}

other_files-IsValid : IsValid other_files
other_files-IsValid = record {
  sizes_parallel = refl;
  schemas_parallel = refl;
  indexes_in_range = refl;
}

merge-IsUnion_example :
    (r : FileSetPayload) × (merge two_files other_files ≡ some r) × IsUnion two_files other_files r
merge-IsUnion_example =
    merge-IsUnion two_files other_files two_files-IsValid other_files-IsValid refl refl

as_file_tuples-remove_example :
    (r : FileSetPayload) × (ds : List FileDescriptor) × (remove two_files ("a.parquet" ∷ [])
      ≡ some r)
    × IsValid r
    × (as_file_tuples two_files ≡ some ds)
    × (as_file_tuples r ≡ some (retain_tuples (stays ("a.parquet" ∷ [])) ds))
as_file_tuples-remove_example = as_file_tuples-remove two_files ("a.parquet" ∷ []) two_files-IsValid

-- JSON values do not matter here
abbrev Checkpoint : Type 0
Checkpoint = TableMetadataCheckpoint String

abbrev es_file : ExtensionFile
es_file = record { suffix = ".es"; location = "s3://a" }

-- a checkpoint of two speedboat files, of which one is covered
abbrev half_covered : Checkpoint
half_covered = record {
  table_name = "people";
  original_checkpoint_id = none;
  checkpoint_id = "7";
  iceberg_metadata = none;
  speedboat_metadata = some (record { files = two_files });
  deletes_metadata = some (record { files = "d.json" ∷ "e.json" ∷ [] });
  extension_metadata =
      ("es", ("a.parquet", es_file ∷ []) ∷ ("gone.parquet", es_file ∷ []) ∷ []) ∷ [];
  schema = people;
}

abbrev covering : ExtensionCommit
covering = record {
  id = "9";
  extension = "es";
  files = ("a.parquet", []) ∷ ("b.parquet", es_file ∷ []) ∷ ("x.parquet", []) ∷ [];
}

one_each : distinct (keys (extension_map half_covered "es")) ≡ true
unfolding keys get
one_each = refl

fully_covered_for_extension_lem_example :
    fully_covered_for_extension half_covered "es"
    ≡ some (validate_fully_covered_for_extension half_covered "es")
fully_covered_for_extension_lem_example = fully_covered_for_extension_lem half_covered "es" one_each

add_coverage_lem_example :
    get (extension_map (add_coverage half_covered covering).0 "es") "b.parquet" ≡ (
      if covering.extension == "es"
      then after_cover
          (extension_map half_covered "es")
          covering.files
          (covered_keys half_covered "b.parquet")
          "b.parquet"
      else get (extension_map half_covered "es") "b.parquet")
add_coverage_lem_example = add_coverage_lem half_covered covering "es" "b.parquet"

abbrev compaction : CompactionCommit
compaction = record {
  removed_speedboat_files = "a.parquet" ∷ [];
  removed_delete_files = "d.json" ∷ [];
  parquet_file_name = "c.parquet";
  compaction_id = "5";
  checkpoint_id_to_replace = "7";
  checkpoints_to_delete = [];
}

known_compaction :
    get_removed_files ("5" ∷ []) (("5", compaction) ∷ []) ≡ some ("a.parquet" ∷ [], "d.json" ∷ [])
unfolding get_removed_files get
known_compaction = refl

speedboat-IsValid :
    (m : SpeedboatMetadata) → half_covered.speedboat_metadata ≡ some m → IsValid m.files
speedboat-IsValid m e =
    let same : two_files ≡ m.files =
      ap (λ (o : Option SpeedboatMetadata). elim o [ none ↦ two_files | some k ↦ k.files ]) e in
    rw (← same) two_files-IsValid

apply_compactions-IsCompacted_example :
    (c' : Checkpoint) × (apply_compactions ("5" ∷ []) (("5", compaction) ∷ []) half_covered
      ≡ some c')
    × IsCompacted ("a.parquet" ∷ []) ("d.json" ∷ []) half_covered c'
apply_compactions-IsCompacted_example =
    apply_compactions-IsCompacted ("5" ∷ []) (("5", compaction) ∷ []) half_covered
      ("a.parquet" ∷ [], "d.json" ∷ []) known_compaction speedboat-IsValid
