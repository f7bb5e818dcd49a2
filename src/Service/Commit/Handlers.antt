-- ===== src/Service/Commit/Handlers.antt =====
-- The commit handlers of `EphemeralServiceImpl`, in service_lib/src/ephemeral_service_impl.rs: speedboat,
-- iceberg, extension, compaction and cleanup commits. A panic of the code is `none`.
use powdrr_engine.Common.{
  ℕ, ◌*◌, ◌%◌, String, Bool, ◌||◌, Option, none, some, List, [], ◌∷◌, ◌++◌, if◌then◌else◌, ltb, leb,
  ◌>>=◌, length, unwrap_or, string_eq, nat_eq, option_eq,
}
use powdrr_engine.Common.Dict.{get, insert, contains_key}
use powdrr_engine.DataContract.Schema.{PowdrrSchema, minimal, merge_from}
use powdrr_engine.DataContract.FileSet
use powdrr_engine.DataContract.FileSet.{FileSetPayload, FileDescriptor, as_file_tuples}
use powdrr_engine.DataContract.Types.{
  SpeedboatCommitTableInfo, SpeedboatMetadata, DeletesMetadata, TableMetadataCheckpoint,
}
use powdrr_engine.DataContract.Checkpoint.{as_file_set_payload}
use powdrr_engine.DataContract.Commits.{remove_compacted}
use powdrr_engine.Service.Tables.{threshold}
use powdrr_engine.Service.Types.{CompactionWorkItem}
use powdrr_engine.Service.State.{Payloads, EphemeralServiceImpl, checkpoint_key}
use powdrr_engine.Service.Cutover.{get_latest_materialized_checkpoint_sync, u64_mod}
use powdrr_engine.Service.Commit.{
  zeros_of, sum, next_id, try_fill_checkpoint_extension_metadata, set_latest_committed_checkpoint,
  fill_extension_work_item,
}

-- `30 * 1024 * 1024`
abbrev pub compaction_bytes : ℕ
compaction_bytes = 30 * 1024 * 1024

abbrev no_deletes : DeletesMetadata
no_deletes = record { files = [] }

unfoldable pub from_checkpoint :
    {V : Type 0}
    → String
    → TableMetadataCheckpoint V
    → List String
    → SpeedboatMetadata
    → CompactionWorkItem
from_checkpoint id checkpoint checkpoints_to_delete speedboat = record {
  id = id;
  table_schema = checkpoint.schema;
  speedboat_files = speedboat.files;
  delete_files = (unwrap_or no_deletes checkpoint.deletes_metadata).files;
  checkpoint_id_to_replace = checkpoint.checkpoint_id;
  checkpoints_to_delete = checkpoints_to_delete;
}

-- the speedboat files after a commit: its own, or those of the latest checkpoint with them
unfoldable pub committed_speedboat_files :
    (String → String) → SpeedboatCommitTableInfo → Option SpeedboatMetadata → Option FileSetPayload
committed_speedboat_files format_hash table_info none = do
  schema ← table_info.schema
  some (record {
    file_paths = table_info.files;
    sizes = table_info.sizes;
    schemas = schema ∷ [];
    file_schemas = zeros_of table_info.files;
  })
committed_speedboat_files format_hash table_info (some existing) = do
  payload ← as_file_set_payload format_hash table_info
  FileSet.merge existing.files payload

unfoldable pub merged_schema_of :
    {V : Type 0} → SpeedboatCommitTableInfo → TableMetadataCheckpoint V → Option PowdrrSchema
merged_schema_of table_info latest = elim table_info.schema [
  | none ↦ some latest.schema
  | some schema ↦ merge_from latest.schema schema
]

-- the checkpoints that the two kinds of speedboat commits begin with
abbrev pub speedboat_checkpoint :
    {V : Type 0}
    → String
    → SpeedboatCommitTableInfo
    → TableMetadataCheckpoint V
    → FileSetPayload
    → PowdrrSchema
    → TableMetadataCheckpoint V
speedboat_checkpoint new_checkpoint_id table_info latest speedboat_files merged_schema = record {
  table_name = table_info.table_name;
  original_checkpoint_id = none;
  checkpoint_id = new_checkpoint_id;
  iceberg_metadata = latest.iceberg_metadata;
  speedboat_metadata = some (record { files = speedboat_files });
  deletes_metadata = latest.deletes_metadata;
  extension_metadata = latest.extension_metadata;
  schema = merged_schema;
}

abbrev pub delete_checkpoint :
    {V : Type 0}
    → String
    → SpeedboatCommitTableInfo
    → TableMetadataCheckpoint V
    → TableMetadataCheckpoint V
delete_checkpoint new_checkpoint_id table_info latest = record {
  table_name = table_info.table_name;
  original_checkpoint_id = none;
  checkpoint_id = new_checkpoint_id;
  iceberg_metadata = latest.iceberg_metadata;
  speedboat_metadata = latest.speedboat_metadata;
  deletes_metadata =
      some (record {
        files = (unwrap_or no_deletes latest.deletes_metadata).files ++ table_info.files;
      });
  extension_metadata = latest.extension_metadata;
  schema = latest.schema;
}

module _ {P : Payloads} where
  unfoldable pub get_checkpoint_sync :
      EphemeralServiceImpl P → String → String → Option (TableMetadataCheckpoint P.Json)
  get_checkpoint_sync s table_name checkpoint_id =
      get s.checkpoints (checkpoint_key table_name checkpoint_id)

  -- the latest checkpoint, whose absence from the map panics, or an empty one with the schema
  unfoldable pub latest_checkpoint_or_empty :
      EphemeralServiceImpl P
      → String
      → Option PowdrrSchema
      → Option (TableMetadataCheckpoint P.Json)
  unfolding get_checkpoint_sync
  latest_checkpoint_or_empty s table_name schema =
      elim (get_latest_materialized_checkpoint_sync s table_name none) [
        | some checkpoint_id ↦ get_checkpoint_sync s table_name checkpoint_id
        | none ↦ do
          first_schema ← schema
          some (record {
            table_name = table_name;
            original_checkpoint_id = none;
            checkpoint_id = "";
            iceberg_metadata = none;
            speedboat_metadata = none;
            deletes_metadata = none;
            extension_metadata = [];
            schema = first_schema;
          })
      ]

  unfoldable pub handle_compaction :
      EphemeralServiceImpl P
      → Option String
      → TableMetadataCheckpoint P.Json
      → Option (TableMetadataCheckpoint P.Json)
  unfolding remove_compacted
  handle_compaction s none checkpoint = some checkpoint
  handle_compaction s (some compaction) checkpoint = do
    found ← get s.compactions compaction
    remove_compacted found.1.removed_speedboat_files found.1.removed_delete_files checkpoint

  unfoldable pub handle_compactions :
      EphemeralServiceImpl P
      → List String
      → TableMetadataCheckpoint P.Json
      → Option (TableMetadataCheckpoint P.Json)
  unfolding handle_compaction
  handle_compactions s [] checkpoint = some checkpoint
  handle_compactions s (compaction ∷ compactions) checkpoint = do
    handled ← handle_compaction s (some compaction) checkpoint
    handle_compactions s compactions handled

  -- `self.checkpoints.insert`
  unfoldable pub store_checkpoint :
      String → TableMetadataCheckpoint P.Json → EphemeralServiceImpl P → EphemeralServiceImpl P
  store_checkpoint table_name checkpoint s = record s {
    checkpoints =
        insert (checkpoint_key table_name checkpoint.checkpoint_id) checkpoint s.checkpoints;
  }

  abbrev pub not_compacted : EphemeralServiceImpl P → String → List String
  not_compacted s table_name = unwrap_or [] (get s.not_compacted_checkpoint_ids table_name)

  -- the sum of sizes is a `u64`
  unfoldable pub needs_compaction : EphemeralServiceImpl P → FileSetPayload → Bool
  needs_compaction s speedboat_files =
      leb (threshold s.mode.compaction_mode) (length speedboat_files.file_paths)
      || ltb compaction_bytes (sum speedboat_files.sizes % u64_mod)

  abbrev pub set_not_compacted :
      String → List String → EphemeralServiceImpl P → EphemeralServiceImpl P
  set_not_compacted table_name checkpoint_ids s = record s {
    not_compacted_checkpoint_ids = insert table_name checkpoint_ids s.not_compacted_checkpoint_ids;
  }

  unfoldable pub maybe_create_compaction_work_item :
      (ℕ → String)
      → TableMetadataCheckpoint P.Json
      → EphemeralServiceImpl P
      → EphemeralServiceImpl P
  unfolding from_checkpoint needs_compaction next_id
  maybe_create_compaction_work_item ids checkpoint s =
      let waiting = not_compacted s checkpoint.table_name in
      if contains_key s.compaction_work_items checkpoint.table_name
      then set_not_compacted checkpoint.table_name (waiting ++ checkpoint.checkpoint_id ∷ []) s
      else elim checkpoint.speedboat_metadata [
        | none ↦ set_not_compacted checkpoint.table_name waiting s
        | some speedboat ↦
            if needs_compaction s speedboat.files
            then (let (id, s1) = next_id ids s in
                set_not_compacted checkpoint.table_name [] (record s1 {
                  compaction_work_items =
                      insert checkpoint.table_name
                        (record {
                          work_item = from_checkpoint id checkpoint waiting speedboat;
                          lease_expires_at_ms = none;
                        })
                        s1.compaction_work_items;
                }))
            else set_not_compacted checkpoint.table_name waiting s
      ]

  -- the second half of a commit, from the new checkpoint on
  unfoldable pub finish_speedboat_commit :
      (ℕ → String)
      → Option String
      → TableMetadataCheckpoint P.Json
      → EphemeralServiceImpl P
      → Option (EphemeralServiceImpl P)
  finish_speedboat_commit ids compaction new_checkpoint s = do
    handled ← handle_compaction s compaction new_checkpoint
    filled ← try_fill_checkpoint_extension_metadata s "es" handled
    s' ←
        fill_extension_work_item ids new_checkpoint.table_name "es" new_checkpoint.checkpoint_id
          new_checkpoint.schema filled.1.0 filled.1.1
          (store_checkpoint new_checkpoint.table_name filled.0 s)
    some (
        maybe_create_compaction_work_item ids filled.0 (
          set_latest_committed_checkpoint new_checkpoint.table_name none
            new_checkpoint.checkpoint_id s'))

  unfoldable pub speedboat_commit_type_commit :
      (String → String)
      → (ℕ → String)
      → SpeedboatCommitTableInfo
      → Option String
      → EphemeralServiceImpl P
      → Option (EphemeralServiceImpl P)
  unfolding committed_speedboat_files merged_schema_of
  speedboat_commit_type_commit format_hash ids table_info compaction s = do
    latest ← latest_checkpoint_or_empty s table_info.table_name table_info.schema
    let (new_checkpoint_id, s1) = next_id ids s
    speedboat_files ← committed_speedboat_files format_hash table_info latest.speedboat_metadata
    merged_schema ← merged_schema_of table_info latest
    finish_speedboat_commit ids compaction
        (speedboat_checkpoint new_checkpoint_id table_info latest speedboat_files merged_schema) s1

  unfoldable pub finish_delete_commit :
      Option String
      → TableMetadataCheckpoint P.Json
      → EphemeralServiceImpl P
      → Option (EphemeralServiceImpl P)
  finish_delete_commit compaction new_checkpoint s = do
    handled ← handle_compaction s compaction new_checkpoint
    filled ← try_fill_checkpoint_extension_metadata s "es" handled
    some (
        set_latest_committed_checkpoint new_checkpoint.table_name none new_checkpoint.checkpoint_id
          (store_checkpoint new_checkpoint.table_name filled.0 s))

  unfoldable pub speedboat_commit_type_delete :
      (ℕ → String)
      → SpeedboatCommitTableInfo
      → Option String
      → EphemeralServiceImpl P
      → Option (EphemeralServiceImpl P)
  speedboat_commit_type_delete ids table_info compaction s = do
    latest ← latest_checkpoint_or_empty s table_info.table_name (some minimal)
    let (new_checkpoint_id, s1) = next_id ids s
    finish_delete_commit compaction (delete_checkpoint new_checkpoint_id table_info latest) s1
