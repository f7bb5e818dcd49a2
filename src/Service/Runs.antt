-- ===== src/Service/Runs.antt =====
-- Runs of the metadata service: its operations in any order, from the state that it starts in, of
-- service_lib/src/ephemeral_service_impl.rs. The state of each step is the one that the operation returns.
pub mod Coherent
use powdrr_engine.Common.{
  ℕ, String, ◌≡◌, Bool, false, Option, none, some, List, [], ◌∷◌, arith, inl, inr, Bool-cases, ◌==◌,
  string_eq, option_eq, contains,
}
use powdrr_engine.Common.Int.{ℤ}
use powdrr_engine.Common.Dict.{get, values, keys}
use powdrr_engine.DataContract.Types.{
  TableMetadataCheckpoint, SpeedboatCommitTableInfo, IcebergCommit, ExtensionCommit,
  CompactionCommit, CleanupCommit,
}
use powdrr_engine.Service.Tables.{TestProcessingMode, CreateTable}
use powdrr_engine.Service.Types.{
  target, CheckpointUpdateRequest, CheckpointCutoverRequest, ServingNodeLease,
  ServingNodeActivationAck, ArtifactReadinessAck,
}
use powdrr_engine.Service.State.{Payloads, EphemeralServiceImpl, es}
use powdrr_engine.Service.Cutover.{
  get_published_checkpoint_sync, set_published_checkpoint, get_latest_materialized_checkpoint_sync,
  prune_expired_serving_node_leases, checkpoint_publication_still_pending,
}
use powdrr_engine.Service.Publish.{
  advance_target_checkpoint, promote_active_checkpoint_if_ready, update_one_checkpoint,
  update_checkpoints, update_all_checkpoints, plan_checkpoint_cutover, get_checkpoint_cutover_state,
  refresh_cutover_membership, heartbeat_serving_node, record_serving_node_activation,
  record_artifact_readiness, queue_checkpoint_publication, queue_publication_request,
}
use powdrr_engine.Service.Publish.Epochs.{
  AreCoherent, IsCoherent, capture-IsCoherent, backfill-IsCoherent, advance-IsCoherent,
  promote-IsCoherent,
}
use powdrr_engine.Service.Commit.Handlers.{
  speedboat_commit_type_commit, speedboat_commit_type_delete,
}
use powdrr_engine.Service.Commit.Operations.{
  add_checkpoint, iceberg_commit, compaction_commit, cleanup_commit,
}
use powdrr_engine.Service.Commit.Extension.{extension_commit}
use powdrr_engine.Service.Commit.Committed.{
  commit-IsCommitted, delete-IsCommitted, iceberg-IsCommitted,
}
use powdrr_engine.Service.Commit.Raise.{extension_commit-IsRaised}
use powdrr_engine.Service.Commit.Added.{add_checkpoint-IsAdded}
use powdrr_engine.Service.WorkItems.{
  get_extension_work_items, get_compaction_work_items, get_cleanup_work_items,
}
use powdrr_engine.Service.Snapshots.{new}
use powdrr_engine.Service.Catalog.{
  add_alias, remove_alias, create_table, create_table_template, create_pipeline,
  create_lifetime_policy,
}

module _ {P : Payloads} (format_hash : String → String) (ids : ℕ → String) where
  -- One operation that does not panic. The checkpoint that `add_checkpoint` is given has no extension with
  -- an empty name, and a request of several speedboat commits is one step for each of them.
  pub data Step : EphemeralServiceImpl P → EphemeralServiceImpl P → Type 0 where
    create : (t : CreateTable) (s : EphemeralServiceImpl P) → Step s (create_table t s)
    alias :
        (table_name name : String) (s : EphemeralServiceImpl P)
        → Step s (add_alias table_name name s)
    unalias :
        (table_name name : String) (s : EphemeralServiceImpl P)
        → Step s (remove_alias table_name name s)
    commit_files :
        (table_info : SpeedboatCommitTableInfo) (compaction : Option String)
        (s s' : EphemeralServiceImpl P)
        → speedboat_commit_type_commit format_hash ids table_info compaction s ≡ some s'
        → Step s s'
    commit_deletes :
        (table_info : SpeedboatCommitTableInfo) (compaction : Option String)
        (s s' : EphemeralServiceImpl P)
        → speedboat_commit_type_delete ids table_info compaction s ≡ some s'
        → Step s s'
    commit_iceberg :
        (table_name : String) (commit : IcebergCommit P.Json) (s s' : EphemeralServiceImpl P)
        → iceberg_commit ids table_name commit s ≡ some s'
        → Step s s'
    commit_extension :
        (table_name : String) (commit : ExtensionCommit) (s s' : EphemeralServiceImpl P)
        → extension_commit table_name commit s ≡ some s'
        → Step s s'
    commit_compaction :
        (table_name : String) (commit : CompactionCommit) (s : EphemeralServiceImpl P)
        → Step s (compaction_commit table_name commit s)
    commit_cleanup :
        (commit : CleanupCommit) (s : EphemeralServiceImpl P) → Step s (cleanup_commit commit s)
    add :
        (metadata : TableMetadataCheckpoint P.Json) (s s' : EphemeralServiceImpl P)
        → contains (keys metadata.extension_metadata) "" ≡ false
        → add_checkpoint ids metadata s ≡ some s'
        → Step s s'
    new_template :
        (name : String) (template : P.Template) (s : EphemeralServiceImpl P)
        → Step s (create_table_template name template s)
    new_pipeline :
        (name : String) (pipeline : P.Pipeline) (s s' : EphemeralServiceImpl P)
        → create_pipeline name pipeline s ≡ some s'
        → Step s s'
    new_policy :
        (name : String) (policy : P.Policy) (s s' : EphemeralServiceImpl P)
        → create_lifetime_policy name policy s ≡ some s'
        → Step s s'
    extension_work :
        (now : ℤ) (extension_type : String) (s : EphemeralServiceImpl P)
        → Step s (get_extension_work_items now extension_type s).1
    compaction_work :
        (now : ℤ) (s : EphemeralServiceImpl P) → Step s (get_compaction_work_items now s).1
    cleanup_work : (now : ℤ) (s : EphemeralServiceImpl P) → Step s (get_cleanup_work_items now s).1
    heartbeat :
        (now : ℤ) (lease : ServingNodeLease) (s : EphemeralServiceImpl P)
        → Step s (heartbeat_serving_node now lease s)
    acknowledge :
        (ack : ServingNodeActivationAck) (s : EphemeralServiceImpl P)
        → Step s (record_serving_node_activation ack s)
    report_ready :
        (ack : ArtifactReadinessAck) (s : EphemeralServiceImpl P)
        → Step s (record_artifact_readiness ack s)
    queue :
        (request : CheckpointUpdateRequest) (s : EphemeralServiceImpl P)
        → Step s (queue_checkpoint_publication request s)
    plan :
        (now : ℤ) (request : CheckpointCutoverRequest) (s : EphemeralServiceImpl P)
        → Step s (plan_checkpoint_cutover now request s)
    cutover_state :
        (now : ℤ) (table_name : String) (extension : Option String) (s : EphemeralServiceImpl P)
        → Step s (get_checkpoint_cutover_state now table_name extension s).0
    update_all : (now : ℤ) (s : EphemeralServiceImpl P) → Step s (update_all_checkpoints now s).0

  -- The states that operations reach, one after another, from the start.
  pub data Reachable (mode : TestProcessingMode) : EphemeralServiceImpl P → Type 0 where
    start : Reachable mode (new P mode)
    after : {s s' : EphemeralServiceImpl P} → Reachable mode s → Step s s' → Reachable mode s'
