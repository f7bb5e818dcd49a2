-- ===== src/DataContract/Commits.antt =====
-- What commits do to a checkpoint: the `apply_` methods of `TableMetadataCheckpoint`, in
-- control_plane/src/data_contract.rs. A panic of the code is `none`.
pub mod Compacted
use powdrr_engine.Common.{
  ℕ, zero, suc, String, Bool, true, false, ◌&&◌, ◌||◌, not, Option, none, some, List, [], ◌∷◌, ◌++◌,
  if◌then◌else◌, ◌==◌, ◌>>=◌, ◌>>◌, assert, all, any, contains, retain, length, is_some, unwrap_or,
  option_map, string_eq, nat_eq,
}
use powdrr_engine.Common.Dict
use powdrr_engine.Common.Dict.{Dict, get, map_values}
use powdrr_engine.DataContract.Schema.{PowdrrSchema, merge_from}
use powdrr_engine.DataContract.FileSet
use powdrr_engine.DataContract.FileSet.{FileSetPayload, merge_inplace, remove, select, is_within}
use powdrr_engine.DataContract.Types.{
  SpeedboatCommitTableInfo, SpeedboatCommit, SpeedboatMetadata, DeletesMetadata, IcebergMetadata,
  IcebergFileStats, IcebergCommit, ExtensionFileMetadata, ExtensionCommit, CompactionCommit,
  TableMetadataCheckpoint,
}
use powdrr_engine.DataContract.Checkpoint.{
  as_file_set_payload, retain_current_extension_metadata, add_coverage,
}

-- the commits of the named compactions; `unwrap` panics at an unknown name
unfoldable pub find_compactions :
    Dict String CompactionCommit → List String → Option (List CompactionCommit)
find_compactions lookup [] = some []
find_compactions lookup (name ∷ names) = do
  commit ← get lookup name
  rest ← find_compactions lookup names
  some (commit ∷ rest)

unfoldable pub all_removed_speedboat_files : List CompactionCommit → List String
all_removed_speedboat_files [] = []
all_removed_speedboat_files (c ∷ cs) = c.removed_speedboat_files ++ all_removed_speedboat_files cs

unfoldable pub all_removed_delete_files : List CompactionCommit → List String
all_removed_delete_files [] = []
all_removed_delete_files (c ∷ cs) = c.removed_delete_files ++ all_removed_delete_files cs

unfoldable pub get_removed_files :
    List String → Dict String CompactionCommit → Option (List String × List String)
unfolding find_compactions all_removed_speedboat_files all_removed_delete_files
get_removed_files compactions lookup = do
  commits ← find_compactions lookup compactions
  some (all_removed_speedboat_files commits, all_removed_delete_files commits)

abbrev pub retain_deletes : List String → Option DeletesMetadata → Option DeletesMetadata
retain_deletes removed =
    option_map (λ deletes. record { files = retain (λ x. not (contains removed x)) deletes.files })

abbrev pub remove_speedboat :
    List String → Option SpeedboatMetadata → Option (Option SpeedboatMetadata)
remove_speedboat removed none = some none
remove_speedboat removed (some speedboat) = do
  files ← remove speedboat.files removed
  some (some (record { files = files }))

abbrev pub remove_extensions :
    List String → Dict String ExtensionFileMetadata → Dict String ExtensionFileMetadata
remove_extensions removed = map_values (λ (metadata : ExtensionFileMetadata).
    Dict.retain (λ key _. not (contains removed key)) metadata)

abbrev no_deletes : DeletesMetadata
no_deletes = record { files = [] }

abbrev no_speedboat : SpeedboatMetadata
no_speedboat = record { files = FileSet.new }

abbrev or_if_empty {ℓ} : {A : Type ℓ} → List A → List A → List A
or_if_empty [] other = other
or_if_empty (x ∷ xs) other = x ∷ xs

module _ {V : Type 0} where
  -- the files of compactions leave the speedboat set, the deletes and every extension's map
  unfoldable pub remove_compacted :
      List String → List String → TableMetadataCheckpoint V → Option (TableMetadataCheckpoint V)
  remove_compacted removed_speedboat removed_deletes c = do
    speedboat ← remove_speedboat removed_speedboat c.speedboat_metadata
    some (record c {
      speedboat_metadata = speedboat;
      deletes_metadata = retain_deletes removed_deletes c.deletes_metadata;
      extension_metadata = remove_extensions removed_speedboat c.extension_metadata;
    })

  unfoldable pub apply_compactions :
      List String
      → Dict String CompactionCommit
      → TableMetadataCheckpoint V
      → Option (TableMetadataCheckpoint V)
  unfolding get_removed_files remove_compacted
  apply_compactions compactions lookup c = do
    removed ← get_removed_files compactions lookup
    remove_compacted removed.0 removed.1 c

  -- the branches on the commit type, and the panic at another type
  unfoldable pub apply_table_info :
      (String → String)
      → SpeedboatCommitTableInfo
      → TableMetadataCheckpoint V
      → Option (TableMetadataCheckpoint V)
  apply_table_info format_hash info c =
      if info.commit_type == "delete"
      then some (record c {
        deletes_metadata =
            some (record { files = (unwrap_or no_deletes c.deletes_metadata).files ++ info.files });
      })
      else if info.commit_type == "commit" || info.commit_type == "compaction"
      then (do
        payload ← as_file_set_payload format_hash info
        files ← merge_inplace (unwrap_or no_speedboat c.speedboat_metadata).files payload
        schema ← elim info.schema [ none ↦ some c.schema | some s ↦ merge_from c.schema s ]
        some (record c { speedboat_metadata = some (record { files = files }); schema = schema }))
      else none

  unfoldable pub apply_table_infos :
      (String → String)
      → List SpeedboatCommitTableInfo
      → TableMetadataCheckpoint V
      → Option (TableMetadataCheckpoint V)
  unfolding apply_table_info
  apply_table_infos format_hash [] c = some c
  apply_table_infos format_hash (info ∷ infos) c = do
    c' ← apply_table_info format_hash info c
    apply_table_infos format_hash infos c'

  -- the new checkpoint, and the flag, which is always true
  unfoldable pub apply_speedboat :
      (String → String)
      → SpeedboatCommit
      → Dict String CompactionCommit
      → TableMetadataCheckpoint V
      → Option (TableMetadataCheckpoint V × Bool)
  unfolding apply_table_infos apply_compactions
  apply_speedboat format_hash commit lookup c = do
    let start = record c {
      speedboat_metadata = some (unwrap_or no_speedboat c.speedboat_metadata);
      deletes_metadata = some (unwrap_or no_deletes c.deletes_metadata);
    }
    applied ← apply_table_infos format_hash commit.type_files start
    compacted ← elim commit.compaction [
      | none ↦ some applied
      | some compaction ↦ apply_compactions (compaction ∷ []) lookup applied
    ]
    some (compacted, true)

  unfoldable pub apply_iceberg :
      IcebergCommit V
      → Dict String CompactionCommit
      → TableMetadataCheckpoint V
      → Option (TableMetadataCheckpoint V × Bool)
  unfolding apply_compactions retain_current_extension_metadata
  apply_iceberg commit lookup c = do
    let deletes : Option DeletesMetadata = elim commit.deletes_table_info [
      | none ↦ c.deletes_metadata
      | some info ↦
          some (record { files = (unwrap_or no_deletes c.deletes_metadata).files ++ info.files })
    ]
    schema ← merge_from c.schema commit.metadata.table_schema
    compacted ← apply_compactions commit.compactions lookup (record c {
      iceberg_metadata = some commit.metadata;
      deletes_metadata = deletes;
      schema = schema;
    })
    some (retain_current_extension_metadata compacted, true)

  unfoldable pub apply_all_speedboat :
      (String → String)
      → Dict String CompactionCommit
      → List SpeedboatCommit
      → TableMetadataCheckpoint V × Bool
      → Option (TableMetadataCheckpoint V × Bool)
  apply_all_speedboat format_hash lookup [] state = some state
  apply_all_speedboat format_hash lookup (commit ∷ commits) (c, changed) = do
    applied ← apply_speedboat format_hash commit lookup c
    apply_all_speedboat format_hash lookup commits (applied.0, changed || applied.1)

  unfoldable pub apply_all_iceberg :
      Dict String CompactionCommit
      → List (IcebergCommit V)
      → TableMetadataCheckpoint V × Bool
      → Option (TableMetadataCheckpoint V × Bool)
  apply_all_iceberg lookup [] state = some state
  apply_all_iceberg lookup (commit ∷ commits) (c, changed) = do
    applied ← apply_iceberg commit lookup c
    apply_all_iceberg lookup commits (applied.0, changed || applied.1)

  unfoldable pub add_all_coverage :
      List ExtensionCommit → TableMetadataCheckpoint V × Bool → TableMetadataCheckpoint V × Bool
  add_all_coverage [] state = state
  add_all_coverage (commit ∷ commits) (c, changed) =
      let covered = add_coverage c commit in
      add_all_coverage commits (covered.0, changed || covered.1)

  -- `id` is the fresh id that `IdInstance::next_id` returns
  unfoldable pub clone_and_apply :
      (String → String)
      → String
      → List SpeedboatCommit
      → List (IcebergCommit V)
      → List ExtensionCommit
      → Dict String CompactionCommit
      → TableMetadataCheckpoint V
      → Option (TableMetadataCheckpoint V × Bool)
  unfolding apply_all_speedboat apply_all_iceberg add_all_coverage retain_current_extension_metadata
  clone_and_apply format_hash id speedboat_commits iceberg_commits extension_commits lookup c = do
    speedboat ←
        apply_all_speedboat format_hash lookup speedboat_commits
          (retain_current_extension_metadata (record c { checkpoint_id = id }), false)
    iceberg ← apply_all_iceberg lookup iceberg_commits speedboat
    some (add_all_coverage extension_commits iceberg)

  unfoldable pub select_file_stats : IcebergMetadata V → String → List (IcebergFileStats V)
  select_file_stats metadata file_name =
      retain (λ stats. is_within file_name stats.file_path) metadata.file_stats

  -- a statistic is pushed where none is there for its file
  unfoldable pub push_file_stats :
      List (IcebergFileStats V) → List (IcebergFileStats V) → List (IcebergFileStats V)
  push_file_stats known [] = known
  push_file_stats known (stat ∷ stats) =
      push_file_stats
        (if any (λ existing. existing.file_path == stat.file_path) known
          then known
          else known ++ stat ∷ [])
        stats

  -- the iceberg metadata after a compaction: that of the one file, or the known one with it merged in
  unfoldable pub merge_compacted_file :
      IcebergMetadata V
      → FileSetPayload
      → List (IcebergFileStats V)
      → Option (IcebergMetadata V)
      → Option (IcebergMetadata V)
  unfolding push_file_stats
  merge_compacted_file from payload stats none = some (record {
    table_schema = from.table_schema;
    snapshot_id = none;
    files = payload;
    partition_spec = from.partition_spec;
    sort_order = from.sort_order;
    column_names = [];
    column_stats = [];
    access_artifacts = from.access_artifacts;
    file_stats = stats;
  })
  merge_compacted_file from payload stats (some metadata) = do
    files ← merge_inplace metadata.files payload
    some (record metadata {
      files = files;
      partition_spec = or_if_empty metadata.partition_spec from.partition_spec;
      sort_order = or_if_empty metadata.sort_order from.sort_order;
      access_artifacts = or_if_empty metadata.access_artifacts from.access_artifacts;
      file_stats = push_file_stats metadata.file_stats stats;
    })

  unfoldable pub apply_compaction_for_replacement :
      CompactionCommit
      → IcebergMetadata V
      → TableMetadataCheckpoint V
      → Option (TableMetadataCheckpoint V)
  unfolding merge_compacted_file select_file_stats retain_current_extension_metadata
  apply_compaction_for_replacement compaction metadata c = do
    speedboat ← c.speedboat_metadata
    speedboat_files ← remove speedboat.files compaction.removed_speedboat_files
    payload ← select metadata.files compaction.parquet_file_name
    merged ←
        merge_compacted_file metadata payload
          (select_file_stats metadata compaction.parquet_file_name) c.iceberg_metadata
    some (
        retain_current_extension_metadata (record c {
          speedboat_metadata = some (record { files = speedboat_files });
          deletes_metadata = retain_deletes compaction.removed_delete_files c.deletes_metadata;
          iceberg_metadata = some merged;
        }))
