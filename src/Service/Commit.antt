-- ===== src/Service/Commit.antt =====
-- The commits of `EphemeralServiceImpl` (service_lib/src/ephemeral_service_impl.rs): how each makes a
-- checkpoint, and the work items that follow from it. A panic of the code is `none`, and the state that it
-- leaves is not kept. `ids` is the sequence of the ids that `IdInstance::next_id` returns.
pub mod Handlers
pub mod Operations
pub mod Extension
pub mod Frames
pub mod Latest
pub mod Committed
pub mod Next
pub mod Raise
pub mod Kept
pub mod Pending
pub mod Queued
pub mod Added
use powdrr_engine.Common.{
  ℕ, zero, suc, ◌+◌, ◌*◌, ◌%◌, String, Bool, true, false, ◌&&◌, ◌||◌, not, Option, none, some, List,
  [], ◌∷◌, ◌++◌, if◌then◌else◌, ◌==◌, ltb, leb, ◌>>=◌, ◌>>◌, assert, contains, retain, length,
  is_some, unwrap_or, option_map, string_eq, nat_eq, option_eq,
}
use powdrr_engine.Common.Dict
use powdrr_engine.Common.Dict.{Dict, get, insert, keys, contains_key}
use powdrr_engine.Common.Order.{str_ltb, max?}
use powdrr_engine.DataContract.Schema.{PowdrrSchema, minimal, merge_from}
use powdrr_engine.DataContract.FileSet
use powdrr_engine.DataContract.FileSet.{FileSetPayload, FileDescriptor, as_file_tuples}
use powdrr_engine.DataContract.Types.{
  SpeedboatCommitTableInfo, SpeedboatCommit, SpeedboatMetadata, DeletesMetadata, IcebergMetadata,
  IcebergCommit, ExtensionFile, ExtensionFileMetadata, ExtensionCommit, CompactionCommit,
  CleanupCommit, CheckpointDescriptor, TableMetadataCheckpoint,
}
use powdrr_engine.DataContract.Checkpoint.{
  as_file_set_payload, extension_map, retain_current_extension_metadata, add_coverage,
  fully_covered_for_extension,
}
use powdrr_engine.DataContract.Commits.{remove_compacted}
use powdrr_engine.Service.Tables.{TableDescription, threshold}
use powdrr_engine.Service.Types.{ExtensionWorkItem, CompactionWorkItem, CleanupWorkItem, Tracker}
use powdrr_engine.Service.State.{
  Payloads, EphemeralServiceImpl, checkpoint_key, default_metadata_namespace, es, ◌+++◌,
}
use powdrr_engine.Service.Cutover.{
  real_table_name, get_latest_materialized_checkpoint_sync, u64_mod,
}
use powdrr_engine.Service.Publish.{queue_publication_request}

abbrev pub zeros_of : List String → List ℕ
zeros_of [] = []
zeros_of (file ∷ files) = 0 ∷ zeros_of files

abbrev pub sum : List ℕ → ℕ
sum [] = 0
sum (n ∷ ns) = n + sum ns

-- `format!("{}_{}_{}", a, b, c)`
abbrev pub recent_file_key : String → String → String → String
recent_file_key table_name extension_name file_name =
    checkpoint_key (checkpoint_key table_name extension_name) file_name

-- the files of one metadata: those with a recent entry go to the map, the others to the file set
unfoldable pub fill_files :
    (String → Option (List ExtensionFile))
    → List FileDescriptor
    → ExtensionFileMetadata × FileSetPayload
    → ExtensionFileMetadata × FileSetPayload
fill_files recent [] state = state
fill_files recent (file_desc ∷ rest) (extension_metadata, file_set) =
    elim (recent file_desc.file_path) [
      | some metadata ↦
          fill_files recent rest (insert file_desc.file_path metadata extension_metadata, file_set)
      | none ↦ fill_files recent rest (extension_metadata, FileSet.add file_set file_desc)
    ]

abbrev pub tuples_of : Option FileSetPayload → Option (List FileDescriptor)
tuples_of none = some []
tuples_of (some files) = as_file_tuples files

abbrev pub iceberg_files_of : {V : Type 0} → TableMetadataCheckpoint V → Option FileSetPayload
iceberg_files_of {V} c = option_map (λ (m : IcebergMetadata V). m.files) c.iceberg_metadata

abbrev pub speedboat_files_of : {V : Type 0} → TableMetadataCheckpoint V → Option FileSetPayload
speedboat_files_of c = option_map (λ (m : SpeedboatMetadata). m.files) c.speedboat_metadata

module _ {P : Payloads} where
  unfoldable pub next_id : (ℕ → String) → EphemeralServiceImpl P → String × EphemeralServiceImpl P
  next_id ids s = (ids s.ids_issued, record s { ids_issued = suc s.ids_issued })

  abbrev pub recent_file_extension_metadata :
      EphemeralServiceImpl P → String → String → String → Option (List ExtensionFile)
  recent_file_extension_metadata s table_name extension_name file_name =
      get s.recent_file_extension_metadata (recent_file_key table_name extension_name file_name)

  unfoldable pub add_recent_extension_files :
      String → String → ExtensionFileMetadata → EphemeralServiceImpl P → EphemeralServiceImpl P
  add_recent_extension_files table_name extension [] s = s
  add_recent_extension_files table_name extension ((file_name, extension_files) ∷ files) s =
      add_recent_extension_files table_name extension files (record s {
        recent_file_extension_metadata =
            insert (recent_file_key table_name extension file_name) extension_files
              s.recent_file_extension_metadata;
      })

  -- the checkpoint, and the speedboat and iceberg files that still need the extension's work
  unfoldable pub try_fill_checkpoint_extension_metadata :
      EphemeralServiceImpl P
      → String
      → TableMetadataCheckpoint P.Json
      → Option (TableMetadataCheckpoint P.Json × (FileSetPayload × FileSetPayload))
  unfolding retain_current_extension_metadata fill_files
  try_fill_checkpoint_extension_metadata s extension_name c = do
    let kept = retain_current_extension_metadata c
    let recent = recent_file_extension_metadata s kept.table_name extension_name
    iceberg_tuples ← tuples_of (iceberg_files_of kept)
    let iceberg = fill_files recent iceberg_tuples (extension_map kept extension_name, FileSet.new)
    speedboat_tuples ← tuples_of (speedboat_files_of kept)
    let speedboat = fill_files recent speedboat_tuples (iceberg.0, FileSet.new)
    some (
      record kept {
        extension_metadata = insert extension_name speedboat.0 kept.extension_metadata;
      },
      (speedboat.1, iceberg.1),
    )

  unfoldable pub set_latest_committed_checkpoint_id :
      Option String → String → String → EphemeralServiceImpl P → EphemeralServiceImpl P
  set_latest_committed_checkpoint_id extension table_name checkpoint_id s = record s {
    latest_committed_checkpoint_id =
        insert extension
          (insert table_name checkpoint_id
            (unwrap_or [] (get s.latest_committed_checkpoint_id extension)))
          s.latest_committed_checkpoint_id;
  }

  -- as above, at the table that the name is an alias of
  unfoldable pub set_latest_committed_checkpoint :
      String → Option String → String → EphemeralServiceImpl P → EphemeralServiceImpl P
  unfolding set_latest_committed_checkpoint_id
  set_latest_committed_checkpoint table_name extensions checkpoint_id s =
      set_latest_committed_checkpoint_id extensions (real_table_name s table_name) checkpoint_id s

  abbrev pub note_extension_work : String → String → EphemeralServiceImpl P → EphemeralServiceImpl P
  note_extension_work key checkpoint_id s = record s {
    checkpoints_needing_extension_work =
        insert key
          (unwrap_or [] (get s.checkpoints_needing_extension_work key) ++ checkpoint_id ∷ [])
          s.checkpoints_needing_extension_work;
  }

  -- the work item of the table, new or with the files merged in
  unfoldable pub updated_work_item :
      (ℕ → String)
      → String
      → String
      → String
      → PowdrrSchema
      → FileSetPayload
      → FileSetPayload
      → Option (Tracker ExtensionWorkItem)
      → EphemeralServiceImpl P
      → Option (Tracker ExtensionWorkItem × EphemeralServiceImpl P)
  unfolding next_id
  updated_work_item ids table_name extension checkpoint_id schema speedboat_files iceberg_files none
        s =
      let (id, s1) = next_id ids s in
      some (
        record {
          work_item = record {
            id = id;
            extension_type = extension;
            table_name = table_name;
            checkpoint_id = some checkpoint_id;
            table_schema = schema;
            speedboat_files = speedboat_files;
            iceberg_files = iceberg_files;
          };
          lease_expires_at_ms = none;
        },
        s1,
      )
  updated_work_item ids table_name extension checkpoint_id schema speedboat_files iceberg_files
        (some tracker) s =
      do
        speedboat ← FileSet.merge tracker.work_item.speedboat_files speedboat_files
        iceberg ← FileSet.merge tracker.work_item.iceberg_files iceberg_files
        some (
          record tracker {
            work_item = record tracker.work_item {
              checkpoint_id = some checkpoint_id;
              table_schema = schema;
              speedboat_files = speedboat;
              iceberg_files = iceberg;
            };
          },
          s,
        )

  unfoldable pub fill_extension_work_item :
      (ℕ → String)
      → String
      → String
      → String
      → PowdrrSchema
      → FileSetPayload
      → FileSetPayload
      → EphemeralServiceImpl P
      → Option (EphemeralServiceImpl P)
  unfolding updated_work_item
  fill_extension_work_item ids table_name extension checkpoint_id schema speedboat_files
        iceberg_files s =
      if FileSet.len speedboat_files == 0 && FileSet.len iceberg_files == 0 then some s else (do
        es_work_items ← get s.extension_work_items "es"
        updated ←
            updated_work_item ids table_name extension checkpoint_id schema speedboat_files
              iceberg_files (get es_work_items table_name) s
        some (
            note_extension_work (checkpoint_key table_name extension) checkpoint_id
              (record updated.1 {
                extension_work_items =
                    insert "es" (insert table_name updated.0 es_work_items)
                      updated.1.extension_work_items;
              })))
