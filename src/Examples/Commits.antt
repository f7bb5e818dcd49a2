-- ===== src/Examples/Commits.antt =====
-- Runs of commits, work items and the catalog, service_lib/src/ephemeral_service_impl.rs: one table with
-- two speedboat files.
mod Aliases
mod Deletes
mod Extension
use powdrr_engine.Common.{
  ℕ, zero, suc, String, ◌≡◌, refl, true, Option, none, some, [], ◌∷◌, arith, is_some, unwrap_or,
  string_eq, option_eq,
}
use powdrr_engine.Common.Dict.{Dict, get, insert, keys, contains_key}
use powdrr_engine.DataContract.Schema.{PowdrrSchema, field, string, nil}
use powdrr_engine.DataContract.FileSet.{FileSetPayload}
use powdrr_engine.DataContract.Types.{
  SpeedboatCommitTableInfo, IcebergCommit, ExtensionCommit, TableMetadataCheckpoint,
}
use powdrr_engine.Service.State.{EphemeralServiceImpl, es}
use powdrr_engine.Service.Cutover.{get_latest_materialized_checkpoint_sync, real_table_name}
use powdrr_engine.Service.Commit.Handlers.{
  get_checkpoint_sync, latest_checkpoint_or_empty, speedboat_commit_type_commit,
  speedboat_commit_type_delete,
}
use powdrr_engine.Service.Commit.Operations.{iceberg_commit}
use powdrr_engine.Service.Commit.Extension.{extension_commit}
use powdrr_engine.Service.Commit.Latest.{IsCommitted}
use powdrr_engine.Service.Commit.Committed.{commit-IsCommitted}
use powdrr_engine.Service.Commit.Next.{of_files, IsStored, Commits-IsStored}
use powdrr_engine.Examples.Cutovers.{plain, empty_service}

-- what a computation that does not panic returns
pub returned : {A : Type 0} (d : A) (m : Option A) → is_some m ≡ true → m ≡ some (unwrap_or d m)
returned d (some a) h = refl
returned d none h = absurd (ground arith)

abbrev pub ids : ℕ → String
ids zero = "1"
ids (suc zero) = "2"
ids (suc (suc n)) = "3"

abbrev pub hash_of : String → String
hash_of text = text

abbrev pub people : PowdrrSchema
people = field "id" string nil

abbrev pub two_files : SpeedboatCommitTableInfo
two_files = record {
  commit_type = "commit";
  table_name = "people";
  segments = [];
  files = "a.json" ∷ "b.json" ∷ [];
  sizes = 10 ∷ 20 ∷ [];
  schema = some people;
}

-- a run of commits, with all that the handlers call
pub data Request : Type 0 where
  commit delete : SpeedboatCommitTableInfo → Request
  iceberg : IcebergCommit String → Request
  extend : ExtensionCommit → Request

pub run : String → Request → EphemeralServiceImpl plain → Option (EphemeralServiceImpl plain)
unfolding powdrr_engine.DataContract.Schema.merge_from
    powdrr_engine.DataContract.Schema.merge_fields powdrr_engine.DataContract.Schema.to_map_get
    powdrr_engine.DataContract.Schema.type_beq powdrr_engine.DataContract.Schema.store_merged
    powdrr_engine.Service.Commit.Handlers.finish_speedboat_commit
    powdrr_engine.Service.Commit.Handlers.handle_compaction
    powdrr_engine.Service.Commit.try_fill_checkpoint_extension_metadata
    powdrr_engine.DataContract.FileSet.as_file_tuples
    powdrr_engine.Service.Commit.fill_extension_work_item powdrr_engine.DataContract.FileSet.add
    powdrr_engine.DataContract.FileSet.position powdrr_engine.DataContract.FileSet.push_file
    powdrr_engine.Common.Dict.get powdrr_engine.Common.Dict.keys
    powdrr_engine.Common.Dict.contains_key powdrr_engine.Common.Dict.insert
    powdrr_engine.Common.Dict.map_values powdrr_engine.Common.Dict.remove
    powdrr_engine.Common.Dict.retain powdrr_engine.DataContract.Checkpoint.as_file_set_payload
    powdrr_engine.DataContract.Checkpoint.checkpoint_extension_metadata_key
    powdrr_engine.DataContract.Checkpoint.current_file_paths
    powdrr_engine.DataContract.Checkpoint.extend
    powdrr_engine.DataContract.Checkpoint.retain_current_extension_metadata
    powdrr_engine.DataContract.Checkpoint.segment_files powdrr_engine.DataContract.FileSet.add_all
    powdrr_engine.DataContract.FileSet.file_tuples powdrr_engine.DataContract.FileSet.merge
    powdrr_engine.DataContract.FileSet.merge_inplace powdrr_engine.DataContract.Schema.push_field
    powdrr_engine.DataContract.Schema.schema_beq
    powdrr_engine.Service.Commit.Handlers.committed_speedboat_files
    powdrr_engine.Service.Commit.Handlers.from_checkpoint
    powdrr_engine.Service.Commit.Handlers.get_checkpoint_sync
    powdrr_engine.Service.Commit.Handlers.maybe_create_compaction_work_item
    powdrr_engine.Service.Commit.Handlers.merged_schema_of
    powdrr_engine.Service.Commit.Handlers.needs_compaction
    powdrr_engine.Service.Commit.Handlers.store_checkpoint powdrr_engine.Service.Commit.fill_files
    powdrr_engine.Service.Commit.next_id
    powdrr_engine.Service.Commit.set_latest_committed_checkpoint
    powdrr_engine.Service.Commit.set_latest_committed_checkpoint_id
    powdrr_engine.Service.Commit.updated_work_item powdrr_engine.Service.State.checkpoint_key
    powdrr_engine.Service.Tables.threshold
    powdrr_engine.Service.Commit.Handlers.speedboat_commit_type_commit
    powdrr_engine.Service.Commit.Handlers.speedboat_commit_type_delete
    powdrr_engine.Service.Commit.Handlers.finish_delete_commit
    powdrr_engine.Service.Commit.Handlers.latest_checkpoint_or_empty
    powdrr_engine.Service.Cutover.get_latest_materialized_checkpoint_sync
    powdrr_engine.Service.Commit.Operations.iceberg_commit
    powdrr_engine.Service.Commit.Operations.finish_iceberg_commit
    powdrr_engine.Service.Commit.Handlers.handle_compactions
    powdrr_engine.Service.Commit.Operations.clean_compactions
    powdrr_engine.Service.Commit.Extension.extension_commit
    powdrr_engine.Service.Commit.Extension.cover_waiting
    powdrr_engine.Service.Commit.Extension.add_coverage_for
    powdrr_engine.Service.Commit.Extension.apply_extension_commit_to_work_item
    powdrr_engine.Service.Commit.Extension.raise_latest
    powdrr_engine.Service.Commit.add_recent_extension_files
    powdrr_engine.DataContract.Checkpoint.add_coverage
    powdrr_engine.DataContract.Checkpoint.cover_one powdrr_engine.DataContract.Checkpoint.cover_all
    powdrr_engine.DataContract.Checkpoint.fully_covered_for_extension
    powdrr_engine.DataContract.Checkpoint.size_check_method
    powdrr_engine.DataContract.Checkpoint.validate_fully_covered_for_extension
    powdrr_engine.DataContract.FileSet.remove powdrr_engine.DataContract.FileSet.remove_at
    powdrr_engine.DataContract.FileSet.remove_from powdrr_engine.Common.Order.max?
    powdrr_engine.Common.Order.max_from powdrr_engine.Service.Publish.queue_publication_request
run table_name (commit files) s = speedboat_commit_type_commit hash_of ids files none s
run table_name (delete files) s = speedboat_commit_type_delete ids files none s
run table_name (iceberg snapshot) s = iceberg_commit ids table_name snapshot s
run table_name (extend files) s = extension_commit table_name files s

-- the state after the first commit
pub first : EphemeralServiceImpl plain
first =
    unwrap_or empty_service (speedboat_commit_type_commit hash_of ids two_files none empty_service)

first_is_some :
    is_some (speedboat_commit_type_commit hash_of ids two_files none empty_service) ≡ true
unfolding run
first_is_some = refl

pub first_returns :
    speedboat_commit_type_commit hash_of ids two_files none empty_service ≡ some first
unfolding first
first_returns = returned empty_service _ first_is_some

commit-IsCommitted_example :
    (c : TableMetadataCheckpoint String) × IsCommitted c "1" "people" empty_service first
commit-IsCommitted_example =
    commit-IsCommitted hash_of ids two_files none empty_service first first_returns

abbrev pub two_payload : FileSetPayload
two_payload = record {
  file_paths = "a.json" ∷ "b.json" ∷ [];
  schemas = people ∷ [];
  file_schemas = 0 ∷ 0 ∷ [];
  sizes = 10 ∷ 20 ∷ [];
}

abbrev pub first_checkpoint : TableMetadataCheckpoint String
first_checkpoint = record {
  table_name = "people";
  original_checkpoint_id = none;
  checkpoint_id = "1";
  iceberg_metadata = none;
  speedboat_metadata = some (record { files = two_payload });
  deletes_metadata = none;
  extension_metadata = ("es", []) ∷ [];
  schema = people;
}

not_an_alias : real_table_name empty_service "people" ≡ "people"
unfolding get
not_an_alias = refl

empty-IsStored : IsStored empty_service
unfolding IsStored get_latest_materialized_checkpoint_sync get
empty-IsStored table_name id none real h = absurd (ground arith)
empty-IsStored table_name id (some name) real h = absurd (ground arith)

Commits-IsStored_example : IsStored first
Commits-IsStored_example =
    Commits-IsStored hash_of ids (of_files two_files none empty_service first first_returns)
      not_an_alias empty-IsStored
