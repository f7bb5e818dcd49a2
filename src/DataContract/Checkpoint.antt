-- ===== src/DataContract/Checkpoint.antt =====
-- `TableMetadataCheckpoint` of control_plane/src/data_contract.rs: which files a checkpoint names, which of
-- them an extension covers, and what commits do to it. A panic of the code is `none`.
pub mod Coverage
pub mod Retained
use Prim.Native.String.{◌++◌ as append}
use powdrr_engine.Common.{
  ℕ, zero, suc, String, Bool, true, false, ◌&&◌, ◌||◌, not, Option, none, some, List, [], ◌∷◌, ◌++◌,
  if◌then◌else◌, ◌==◌, ◌>>=◌, ◌>>◌, assert, all, any, contains, retain, length, is_some, unwrap_or,
  option_map, string_eq, nat_eq, bool_eq,
}
use powdrr_engine.Common.Dict
use powdrr_engine.Common.Dict.{Dict, get, insert, keys, contains_key, map_values}
use powdrr_engine.DataContract.Schema.{PowdrrSchema, merge_from}
use powdrr_engine.DataContract.FileSet
use powdrr_engine.DataContract.FileSet.{FileSetPayload, merge_inplace, remove, select}
use powdrr_engine.DataContract.Types.{
  SpeedboatSegmentFile, SpeedboatCommitTableInfo, SpeedboatCommit, SpeedboatMetadata,
  DeletesMetadata, IcebergMetadata, IcebergFileStats, IcebergCommit, ExtensionFile,
  ExtensionFileMetadata, ExtensionCommit, CompactionCommit, CheckpointDescriptor,
  TableMetadataCheckpoint,
}

-- `synthetic_legacy_segment_id`: `format_hash` stands for the formatted `DefaultHasher` of the path
unfoldable pub legacy_segments :
    (String → String) → List String → List ℕ → List SpeedboatSegmentFile
legacy_segments format_hash (path ∷ files) (size ∷ sizes) =
    record { segment_id = append "legacy-" (format_hash path); file_path = path; size = size }
    ∷ legacy_segments format_hash files sizes
legacy_segments format_hash _ _ = []

unfoldable pub segment_files :
    (String → String) → SpeedboatCommitTableInfo → List SpeedboatSegmentFile
unfolding legacy_segments
segment_files format_hash info = elim info.segments [
  | [] ↦ legacy_segments format_hash info.files info.sizes
  | s ∷ ss ↦ s ∷ ss
]

unfoldable pub paths_of_segments : List SpeedboatSegmentFile → List String
paths_of_segments [] = []
paths_of_segments (s ∷ ss) = s.file_path ∷ paths_of_segments ss

unfoldable pub sizes_of_segments : List SpeedboatSegmentFile → List ℕ
sizes_of_segments [] = []
sizes_of_segments (s ∷ ss) = s.size ∷ sizes_of_segments ss

unfoldable pub zeros_of_segments : List SpeedboatSegmentFile → List ℕ
zeros_of_segments [] = []
zeros_of_segments (s ∷ ss) = 0 ∷ zeros_of_segments ss

-- `schema.unwrap()` panics where the commit has no schema
unfoldable pub as_file_set_payload :
    (String → String) → SpeedboatCommitTableInfo → Option FileSetPayload
unfolding segment_files paths_of_segments sizes_of_segments zeros_of_segments
as_file_set_payload format_hash info = do
  schema ← info.schema
  some (record {
    file_paths = paths_of_segments (segment_files format_hash info);
    schemas = schema ∷ [];
    file_schemas = zeros_of_segments (segment_files format_hash info);
    sizes = sizes_of_segments (segment_files format_hash info);
  })

-- `HashSet::extend`
unfoldable pub extend : List String → List String → List String
extend set [] = set
extend set (x ∷ xs) = extend (if contains set x then set else set ++ x ∷ []) xs

unfoldable pub checkpoint_extension_metadata_key : String → String
checkpoint_extension_metadata_key checkpoint_id = append "__checkpoint__:" checkpoint_id

module _ {V : Type 0} where
  abbrev pub iceberg_paths : TableMetadataCheckpoint V → List String
  iceberg_paths c = elim c.iceberg_metadata [ none ↦ [] | some im ↦ im.files.file_paths ]

  abbrev pub speedboat_paths : TableMetadataCheckpoint V → List String
  speedboat_paths c = elim c.speedboat_metadata [ none ↦ [] | some sm ↦ sm.files.file_paths ]

  unfoldable pub get_descriptor : TableMetadataCheckpoint V → CheckpointDescriptor
  get_descriptor c = record {
    table_name = c.table_name;
    checkpoint_id = c.checkpoint_id;
    original_checkpoint_id = c.original_checkpoint_id;
  }

  unfoldable pub current_file_paths : TableMetadataCheckpoint V → List String
  unfolding extend
  current_file_paths c = extend (extend [] (iceberg_paths c)) (speedboat_paths c)

  -- the files of the extension's map, or of an empty one
  abbrev pub extension_map : TableMetadataCheckpoint V → String → ExtensionFileMetadata
  extension_map c extension_name = unwrap_or [] (get c.extension_metadata extension_name)

  unfoldable pub validate_fully_covered_for_extension : TableMetadataCheckpoint V → String → Bool
  validate_fully_covered_for_extension c extension_name =
      all (contains_key (extension_map c extension_name)) (iceberg_paths c)
      && all (contains_key (extension_map c extension_name)) (speedboat_paths c)

  unfoldable pub size_check_method : TableMetadataCheckpoint V → String → Bool
  unfolding current_file_paths
  size_check_method c extension_name =
      length (current_file_paths c)
      == length (retain (contains (current_file_paths c)) (keys (extension_map c extension_name)))

  -- the two ways to check are asserted to agree
  unfoldable pub fully_covered_for_extension : TableMetadataCheckpoint V → String → Option Bool
  fully_covered_for_extension c extension_name = do
    assert (
        size_check_method c extension_name == validate_fully_covered_for_extension c extension_name)
    some (size_check_method c extension_name)

  -- An entry stays if its file is a current one, or if its key is the checkpoint's own.
  unfoldable pub retain_current_extension_metadata :
      TableMetadataCheckpoint V → TableMetadataCheckpoint V
  unfolding checkpoint_extension_metadata_key
  retain_current_extension_metadata c = record c {
    extension_metadata =
        map_values
          (λ (metadata : ExtensionFileMetadata).
            Dict.retain
              (λ file_path _.
                contains (current_file_paths c) file_path
                || file_path == checkpoint_extension_metadata_key c.checkpoint_id)
              metadata)
          c.extension_metadata;
  }

-- One key of `add_coverage`: the commit's entry is taken where the map had none before the commit.
-- `existing` is the map before the commit, and the flag says whether anything was added.
unfoldable pub cover_one :
    ExtensionFileMetadata
    → ExtensionFileMetadata
    → String
    → ExtensionFileMetadata × Bool
    → ExtensionFileMetadata × Bool
cover_one existing files key (metadata, changed) = elim (get files key) [
  | none ↦ (metadata, changed)
  | some extension_files ↦
      if contains_key existing key
      then (metadata, changed)
      else (insert key extension_files metadata, true)
]

unfoldable pub cover_all :
    ExtensionFileMetadata
    → ExtensionFileMetadata
    → List String
    → ExtensionFileMetadata × Bool
    → ExtensionFileMetadata × Bool
cover_all existing files [] state = state
cover_all existing files (key ∷ rest) state =
    cover_all existing files rest (cover_one existing files key state)

module _ {V : Type 0} where
  -- the iceberg files, the speedboat files, and the key of the checkpoint itself, in turn
  unfoldable pub add_coverage :
      TableMetadataCheckpoint V → ExtensionCommit → TableMetadataCheckpoint V × Bool
  unfolding cover_one cover_all
  add_coverage c commit =
      let existing = extension_map c commit.extension in
      let (metadata, changed) =
        cover_one existing commit.files (checkpoint_extension_metadata_key c.checkpoint_id) (
          cover_all existing commit.files (speedboat_paths c)
            (cover_all existing commit.files (iceberg_paths c) (existing, false))) in
      (
        record c { extension_metadata = insert commit.extension metadata c.extension_metadata },
        changed,
      )
