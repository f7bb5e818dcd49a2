-- ===== src/DataContract/Commits/Compacted.antt =====
-- What is left of a checkpoint once compactions are applied: `apply_compactions` of
-- control_plane/src/data_contract.rs.
use powdrr_engine.Common.{
  String, ◌≡◌, refl, ◌&&◌, not, Option, none, some, List, [], inl, inr, Option-cases, contains,
  contains-retain, unwrap_or, option_map, string_eq,
}
use powdrr_engine.Common.Dict.{Dict, get, keep, get-retain, get-map_values}
use powdrr_engine.DataContract.FileSet.Valid.{IsValid}
use powdrr_engine.DataContract.FileSet.Remove.{removed, remove_lem}
use powdrr_engine.DataContract.Types.{
  CompactionCommit, SpeedboatMetadata, DeletesMetadata, ExtensionFileMetadata,
  TableMetadataCheckpoint,
}
use powdrr_engine.DataContract.Checkpoint.{speedboat_paths, extension_map}
use powdrr_engine.DataContract.Commits.{
  remove_compacted, retain_deletes, remove_extensions, get_removed_files, apply_compactions,
}

abbrev pub delete_paths : {V : Type 0} → TableMetadataCheckpoint V → List String
delete_paths c = unwrap_or [] (option_map (λ (m : DeletesMetadata). m.files) c.deletes_metadata)

-- c' is c without the removed speedboat files and the removed delete files; the extensions lose their
-- entries of removed speedboat files.
pub record IsCompacted {V : Type 0} (removed_speedboat removed_deletes : List String)
    (c c' : TableMetadataCheckpoint V) : Type 0 where
  pub speedboat :
      (file : String)
      → contains (speedboat_paths c') file
        ≡ (contains (speedboat_paths c) file && not (contains removed_speedboat file))
  pub deletes :
      (file : String)
      → contains (delete_paths c') file
        ≡ (contains (delete_paths c) file && not (contains removed_deletes file))
  pub extensions :
      (extension file : String)
      → get (extension_map c' extension) file
        ≡ keep (λ _. not (contains removed_speedboat file)) (get (extension_map c extension) file)
  pub iceberg : c'.iceberg_metadata ≡ c.iceberg_metadata
  pub schema : c'.schema ≡ c.schema

retain_deletes_lem :
    (removed : List String) (d : Option DeletesMetadata) (file : String)
    → contains
        (unwrap_or [] (option_map (λ (m : DeletesMetadata). m.files) (retain_deletes removed d)))
        file
      ≡ (contains (unwrap_or [] (option_map (λ (m : DeletesMetadata). m.files) d)) file
          && not (contains removed file))
retain_deletes_lem removed none file = refl
retain_deletes_lem removed (some d) file =
    contains-retain (λ x. not (contains removed x)) d.files file

extensions_lem :
    (removed : List String) (m : Dict String ExtensionFileMetadata) (extension file : String)
    → get (unwrap_or [] (get (remove_extensions removed m) extension)) file
      ≡ keep (λ _. not (contains removed file)) (get (unwrap_or [] (get m extension)) file)
unfolding get
extensions_lem removed m extension file =
    rw (get-map_values) (elim (Option-cases (get m extension)) [
      | inl n ↦ rw (n) refl
      | inr (metadata, e) ↦ rw (e) (get-retain (λ key _. not (contains removed key)) file metadata)
    ])

module _ {V : Type 0} where
  -- On a checkpoint whose speedboat files are well formed, removing compacted files does not panic.
  pub remove_compacted_lem :
      (removed_speedboat removed_deletes : List String) (c : TableMetadataCheckpoint V)
      → ((m : SpeedboatMetadata) → c.speedboat_metadata ≡ some m → IsValid m.files)
      → (c' : TableMetadataCheckpoint V) × (remove_compacted removed_speedboat removed_deletes c
          ≡ some c')
        × IsCompacted removed_speedboat removed_deletes c c'
  unfolding remove_compacted removed
  remove_compacted_lem removed_speedboat removed_deletes c valid =
      elim (Option-cases c.speedboat_metadata) [
        | inl n ↦ (
          record c {
            speedboat_metadata = none;
            deletes_metadata = retain_deletes removed_deletes c.deletes_metadata;
            extension_metadata = remove_extensions removed_speedboat c.extension_metadata;
          },
          rw (n, remove_compacted) refl,
          record {
            speedboat = λ file. rw (n) refl;
            deletes = retain_deletes_lem removed_deletes c.deletes_metadata;
            extensions = extensions_lem removed_speedboat c.extension_metadata;
            iceberg = refl;
            schema = refl;
          },
        )
        | inr (m, e) ↦ (
          record c {
            speedboat_metadata = some (record { files = removed m.files removed_speedboat });
            deletes_metadata = retain_deletes removed_deletes c.deletes_metadata;
            extension_metadata = remove_extensions removed_speedboat c.extension_metadata;
          },
          rw (e, remove_lem m.files removed_speedboat (valid m e), remove_compacted) refl,
          record {
            speedboat = λ file.
                rw (e) (
                  contains-retain (λ x. not (contains removed_speedboat x)) m.files.file_paths
                    file);
            deletes = retain_deletes_lem removed_deletes c.deletes_metadata;
            extensions = extensions_lem removed_speedboat c.extension_metadata;
            iceberg = refl;
            schema = refl;
          },
        )
      ]

  -- Where every named compaction is known and the speedboat files are well formed, `apply_compactions`
  -- does not panic: the files that the compactions removed leave the speedboat files, the deletes and the
  -- extensions, and nothing else does.
  pub apply_compactions-IsCompacted :
      (compactions : List String) (lookup : Dict String CompactionCommit)
      (c : TableMetadataCheckpoint V) (files : List String × List String)
      → get_removed_files compactions lookup ≡ some files
      → ((m : SpeedboatMetadata) → c.speedboat_metadata ≡ some m → IsValid m.files)
      → (c' : TableMetadataCheckpoint V) × (apply_compactions compactions lookup c ≡ some c')
        × IsCompacted files.0 files.1 c c'
  unfolding apply_compactions
  apply_compactions-IsCompacted compactions lookup c files known valid =
      let (c', e, k) = remove_compacted_lem files.0 files.1 c valid in
      (c', rw (known, apply_compactions) e, k)
