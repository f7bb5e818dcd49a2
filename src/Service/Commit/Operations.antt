-- ===== src/Service/Commit/Operations.antt =====
-- The commits as the API calls them, in service_lib/src/ephemeral_service_impl.rs. A panic of the code is
-- `none`; the `Ok(true)` that each returns otherwise is left out.
use powdrr_engine.Common.{
  ℕ, String, ◌||◌, not, Option, none, some, List, [], ◌∷◌, ◌++◌, if◌then◌else◌, ◌==◌, ltb, ◌>>=◌,
  ◌>>◌, assert, contains, retain, length, is_some, unwrap_or, string_eq, nat_eq, option_eq,
}
use powdrr_engine.Common.Dict
use powdrr_engine.Common.Dict.{Dict, get, insert, keys, contains_key}
use powdrr_engine.DataContract.Schema.{PowdrrSchema, merge_from}
use powdrr_engine.DataContract.FileSet
use powdrr_engine.DataContract.FileSet.{FileSetPayload, FileDescriptor, as_file_tuples}
use powdrr_engine.DataContract.Types.{
  SpeedboatCommitTableInfo, SpeedboatCommit, IcebergMetadata, IcebergCommit, CompactionCommit,
  CleanupCommit, CheckpointDescriptor, TableMetadataCheckpoint,
}
use powdrr_engine.Service.Tables.{TableDescription}
use powdrr_engine.Service.Types.{CleanupWorkItem}
use powdrr_engine.Service.State.{
  Payloads, EphemeralServiceImpl, checkpoint_key, default_metadata_namespace,
}
use powdrr_engine.Service.Publish.{queue_publication_request}
use powdrr_engine.Service.Commit.{
  iceberg_files_of, speedboat_files_of, next_id, try_fill_checkpoint_extension_metadata,
  set_latest_committed_checkpoint_id, set_latest_committed_checkpoint, fill_extension_work_item,
}
use powdrr_engine.Service.Commit.Handlers.{
  get_checkpoint_sync, latest_checkpoint_or_empty, handle_compactions, store_checkpoint,
  speedboat_commit_type_commit, speedboat_commit_type_delete,
}

abbrev pub no_files : Option FileSetPayload → FileSetPayload
no_files files = unwrap_or FileSet.new files

-- the empty description that `add_checkpoint` makes of a table that it does not know
abbrev pub bare_description : String → TableDescription
bare_description name = record {
  name = name;
  tags = [];
  serving = none;
  support = none;
  dynamodb = none;
  mongodb = none;
  redis = none;
}

-- the checkpoint that an iceberg commit begins with
abbrev pub iceberg_checkpoint :
    {V : Type 0}
    → String
    → String
    → IcebergMetadata V
    → TableMetadataCheckpoint V
    → PowdrrSchema
    → TableMetadataCheckpoint V
iceberg_checkpoint new_checkpoint_id table_name metadata latest merged_schema = record {
  table_name = table_name;
  original_checkpoint_id = none;
  checkpoint_id = new_checkpoint_id;
  iceberg_metadata = some metadata;
  speedboat_metadata = latest.speedboat_metadata;
  deletes_metadata = latest.deletes_metadata;
  extension_metadata = latest.extension_metadata;
  schema = merged_schema;
}

-- the tables in the order of their first commit
abbrev pub touched_tables : List SpeedboatCommitTableInfo → List String → List String
touched_tables [] touched = touched
touched_tables (table_info ∷ table_infos) touched = touched_tables table_infos (
    if contains touched table_info.table_name
    then touched
    else touched ++ table_info.table_name ∷ [])

module _ {P : Payloads} where
  abbrev pub set_latest_for_extensions :
      List String → String → String → EphemeralServiceImpl P → EphemeralServiceImpl P
  set_latest_for_extensions [] table_name checkpoint_id s = s
  set_latest_for_extensions (extension ∷ extensions) table_name checkpoint_id s =
      set_latest_for_extensions extensions table_name checkpoint_id
        (set_latest_committed_checkpoint_id (some extension) table_name checkpoint_id s)

  -- the checkpoint and its table, each if it is not known
  abbrev pub with_checkpoint :
      TableMetadataCheckpoint P.Json → EphemeralServiceImpl P → EphemeralServiceImpl P
  with_checkpoint metadata s =
      let key = checkpoint_key metadata.table_name metadata.checkpoint_id in
      record s {
        tables =
            (if contains_key s.tables metadata.table_name
              then s.tables
              else insert metadata.table_name (bare_description metadata.table_name) s.tables);
        checkpoints =
            (if contains_key s.checkpoints key
              then s.checkpoints
              else insert key metadata s.checkpoints);
      }

  unfoldable pub add_checkpoint :
      (ℕ → String)
      → TableMetadataCheckpoint P.Json
      → EphemeralServiceImpl P
      → Option (EphemeralServiceImpl P)
  add_checkpoint ids metadata s = do
    let latest =
        set_latest_committed_checkpoint_id none metadata.table_name metadata.checkpoint_id
          (with_checkpoint metadata s)
    filled ←
        (if ltb 0 (length metadata.extension_metadata)
          then some (
              set_latest_for_extensions (keys metadata.extension_metadata) metadata.table_name
                metadata.checkpoint_id latest)
          else fill_extension_work_item ids metadata.table_name "es" metadata.checkpoint_id
              metadata.schema (no_files (speedboat_files_of metadata))
              (no_files (iceberg_files_of metadata)) latest)
    some (queue_publication_request default_metadata_namespace metadata.table_name filled)

  -- the branches on the commit type, and the panic at another type
  unfoldable pub commit_table_info :
      (String → String)
      → (ℕ → String)
      → Option String
      → SpeedboatCommitTableInfo
      → EphemeralServiceImpl P
      → Option (EphemeralServiceImpl P)
  commit_table_info format_hash ids compaction table_info s =
      if table_info.commit_type == "commit" || table_info.commit_type == "compact"
      then speedboat_commit_type_commit format_hash ids table_info compaction s
      else if table_info.commit_type == "delete"
      then speedboat_commit_type_delete ids table_info compaction s
      else none

  unfoldable pub commit_table_infos :
      (String → String)
      → (ℕ → String)
      → Option String
      → List SpeedboatCommitTableInfo
      → EphemeralServiceImpl P
      → Option (EphemeralServiceImpl P)
  unfolding commit_table_info
  commit_table_infos format_hash ids compaction [] s = some s
  commit_table_infos format_hash ids compaction (table_info ∷ table_infos) s = do
    s' ← commit_table_info format_hash ids compaction table_info s
    commit_table_infos format_hash ids compaction table_infos s'

  abbrev pub queue_all : List String → EphemeralServiceImpl P → EphemeralServiceImpl P
  queue_all [] s = s
  queue_all (table_name ∷ table_names) s =
      queue_all table_names (queue_publication_request default_metadata_namespace table_name s)

  unfoldable pub speedboat_commit :
      (String → String)
      → (ℕ → String)
      → SpeedboatCommit
      → EphemeralServiceImpl P
      → Option (EphemeralServiceImpl P)
  unfolding commit_table_infos
  speedboat_commit format_hash ids commit s = do
    assert (not (is_some commit.compaction))
    s' ← commit_table_infos format_hash ids commit.compaction commit.type_files s
    some (queue_all (touched_tables commit.type_files []) s')

  unfoldable pub replace_and_delete_checkpoints :
      (ℕ → String)
      → String
      → EphemeralServiceImpl P
      → Option (CleanupWorkItem × EphemeralServiceImpl P)
  unfolding next_id
  replace_and_delete_checkpoints ids compaction s = do
    found ← get s.compactions compaction
    tracker ← get s.compaction_work_items found.0
    assert (tracker.work_item.checkpoint_id_to_replace == found.1.checkpoint_id_to_replace)
    assert (tracker.work_item.id == compaction)
    let (id, s1) =
        next_id ids
          (record s { compaction_work_items = Dict.remove found.0 s.compaction_work_items })
    some (
      record {
        id = id;
        table_name = found.0;
        files_to_delete = found.1.removed_speedboat_files ++ found.1.removed_delete_files;
      },
      s1,
    )

  unfoldable pub clean_compactions :
      (ℕ → String) → List String → EphemeralServiceImpl P → Option (EphemeralServiceImpl P)
  unfolding replace_and_delete_checkpoints
  clean_compactions ids [] s = some s
  clean_compactions ids (compaction ∷ compactions) s = do
    replaced ← replace_and_delete_checkpoints ids compaction s
    clean_compactions ids compactions (record replaced.1 {
      cleanup_work_items =
          replaced.1.cleanup_work_items
          ++ record { work_item = replaced.0; lease_expires_at_ms = none } ∷ [];
    })

  unfoldable pub finish_iceberg_commit :
      (ℕ → String)
      → List String
      → TableMetadataCheckpoint P.Json
      → EphemeralServiceImpl P
      → Option (EphemeralServiceImpl P)
  unfolding clean_compactions
  finish_iceberg_commit ids compactions new_checkpoint s = do
    handled ← handle_compactions s compactions new_checkpoint
    filled ← try_fill_checkpoint_extension_metadata s "es" handled
    s1 ←
        fill_extension_work_item ids new_checkpoint.table_name "es" new_checkpoint.checkpoint_id
          new_checkpoint.schema filled.1.0 filled.1.1
          (set_latest_committed_checkpoint new_checkpoint.table_name none
            new_checkpoint.checkpoint_id (store_checkpoint new_checkpoint.table_name filled.0 s))
    s2 ← clean_compactions ids compactions s1
    some (queue_publication_request default_metadata_namespace new_checkpoint.table_name s2)

  unfoldable pub iceberg_commit :
      (ℕ → String)
      → String
      → IcebergCommit P.Json
      → EphemeralServiceImpl P
      → Option (EphemeralServiceImpl P)
  unfolding finish_iceberg_commit
  iceberg_commit ids table_name commit s = do
    latest ← latest_checkpoint_or_empty s table_name (some commit.metadata.table_schema)
    let (new_checkpoint_id, s1) = next_id ids s
    merged_schema ← merge_from latest.schema commit.metadata.table_schema
    finish_iceberg_commit ids commit.compactions
        (iceberg_checkpoint new_checkpoint_id table_name commit.metadata latest merged_schema) s1

  unfoldable pub get_checkpoint :
      EphemeralServiceImpl P → CheckpointDescriptor → Option (TableMetadataCheckpoint P.Json)
  get_checkpoint s snapshot = get_checkpoint_sync s snapshot.table_name snapshot.checkpoint_id

  unfoldable pub compaction_commit :
      String → CompactionCommit → EphemeralServiceImpl P → EphemeralServiceImpl P
  compaction_commit table_name commit s = record s {
    compactions = insert commit.compaction_id (table_name, commit) s.compactions;
  }

  unfoldable pub cleanup_commit : CleanupCommit → EphemeralServiceImpl P → EphemeralServiceImpl P
  cleanup_commit commit s = record s {
    cleanup_work_items =
        retain (λ tracker. not (tracker.work_item.id == commit.id)) s.cleanup_work_items;
  }
