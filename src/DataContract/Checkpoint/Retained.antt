-- ===== src/DataContract/Checkpoint/Retained.antt =====
-- What the clean-up of the extension metadata keeps: `retain_current_extension_metadata` of
-- control_plane/src/data_contract.rs.
use powdrr_engine.Common.{
  String, ◌≡◌, refl, Bool, true, ◌||◌, List, [], ◌∷◌, arith, inl, inr, Option-cases, ◌==◌, all,
  all_of_contains, contains, string_eq, nat_eq, bool_eq,
}
use powdrr_engine.Common.Dict.{keep, get, contains_key, get-retain, get-map_values}
use powdrr_engine.DataContract.Types.{TableMetadataCheckpoint}
use powdrr_engine.DataContract.Checkpoint.{
  iceberg_paths, speedboat_paths, current_file_paths, extension_map,
  validate_fully_covered_for_extension, retain_current_extension_metadata,
  checkpoint_extension_metadata_key,
}
use powdrr_engine.DataContract.Checkpoint.Coverage.{contains-current_file_paths}

module _ {V : Type 0} where
  -- the entries that a clean-up keeps
  abbrev pub is_current : TableMetadataCheckpoint V → String → Bool
  is_current c path =
      contains (current_file_paths c) path
      || path == checkpoint_extension_metadata_key c.checkpoint_id

  pub retain_current_lem :
      (c : TableMetadataCheckpoint V) (extension path : String)
      → get (extension_map (retain_current_extension_metadata c) extension) path
        ≡ keep (λ _. is_current c path) (get (extension_map c extension) path)
  unfolding retain_current_extension_metadata get
  retain_current_lem c extension path = elim (Option-cases (get c.extension_metadata extension)) [
    | inl n ↦ rw (get-map_values _ c.extension_metadata extension, n) refl
    | inr (m, e) ↦ rw (get-map_values _ c.extension_metadata extension, e) (get-retain _ path m)
  ]

  retained-contains :
      (c : TableMetadataCheckpoint V) (extension path : String)
      → contains (current_file_paths c) path ≡ true
      → contains_key (extension_map (retain_current_extension_metadata c) extension) path
        ≡ contains_key (extension_map c extension) path
  unfolding contains_key
  retained-contains c extension path h = rw (retain_current_lem c extension path) (ground arith)

  all-retained :
      (c : TableMetadataCheckpoint V) (extension : String) (paths : List String)
      → all (contains (current_file_paths c)) paths ≡ true
      → all (contains_key (extension_map (retain_current_extension_metadata c) extension)) paths
        ≡ all (contains_key (extension_map c extension)) paths
  all-retained c extension [] h = refl
  all-retained c extension (path ∷ paths) h =
      ground (arith, all-retained c extension paths, retained-contains c extension path)

  paths-retain_current :
      (c : TableMetadataCheckpoint V)
      → (iceberg_paths (retain_current_extension_metadata c) ≡ iceberg_paths c)
        × (speedboat_paths (retain_current_extension_metadata c) ≡ speedboat_paths c)
  unfolding retain_current_extension_metadata
  paths-retain_current c = (refl, refl)

  -- Dropping the entries of files that are gone does not change which files of the checkpoint are
  -- covered, for any extension.
  pub validate_fully_covered-retain_current :
      (c : TableMetadataCheckpoint V) (extension : String)
      → validate_fully_covered_for_extension (retain_current_extension_metadata c) extension
        ≡ validate_fully_covered_for_extension c extension
  unfolding validate_fully_covered_for_extension
  validate_fully_covered-retain_current c extension =
      rw
        (
          (paths-retain_current c).0,
          (paths-retain_current c).1,
          all-retained c extension (iceberg_paths c) (
              all_of_contains (contains (current_file_paths c)) (iceberg_paths c)
                (λ a e. ground (arith, contains-current_file_paths c a))),
          all-retained c extension (speedboat_paths c) (
              all_of_contains (contains (current_file_paths c)) (speedboat_paths c)
                (λ a e. ground (arith, contains-current_file_paths c a))),
        )
        refl
