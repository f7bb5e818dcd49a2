-- ===== src/Service/Runs/Coherent.antt =====
-- Every operation keeps the membership views at the last epochs of their selectors, in
-- service_lib/src/ephemeral_service_impl.rs.
use powdrr_engine.Common.{
  ℕ, String, ◌≡◌, Bool, false, Option, none, some, List, [], ◌∷◌, arith, inl, inr, Bool-cases, ◌==◌,
  string_eq, option_eq,
}
use powdrr_engine.Common.Int.{ℤ}
use powdrr_engine.Common.Dict.{get, values}
use powdrr_engine.Service.Tables.{TestProcessingMode}
use powdrr_engine.Service.Types.{target, CheckpointUpdateRequest, CheckpointCutoverRequest}
use powdrr_engine.Service.State.{Payloads, EphemeralServiceImpl, es}
use powdrr_engine.Service.Cutover.{
  get_published_checkpoint_sync, set_published_checkpoint, get_latest_materialized_checkpoint_sync,
  prune_expired_serving_node_leases, checkpoint_publication_still_pending,
}
use powdrr_engine.Service.Publish.{
  advance_target_checkpoint, promote_active_checkpoint_if_ready, update_one_checkpoint,
  update_checkpoints, update_all_checkpoints, plan_checkpoint_cutover, get_checkpoint_cutover_state,
  refresh_cutover_membership, heartbeat_serving_node, record_serving_node_activation,
  record_artifact_readiness, queue_checkpoint_publication, queue_publication_request,
}
use powdrr_engine.Service.Publish.Epochs.{
  AreCoherent, IsCoherent, capture-IsCoherent, backfill-IsCoherent, advance-IsCoherent,
  promote-IsCoherent,
}
use powdrr_engine.Service.Commit.Operations.{compaction_commit, cleanup_commit}
use powdrr_engine.Service.Commit.Committed.{
  commit-IsCommitted, delete-IsCommitted, iceberg-IsCommitted,
}
use powdrr_engine.Service.Commit.Raise.{extension_commit-IsRaised}
use powdrr_engine.Service.Commit.Added.{add_checkpoint-IsAdded}
use powdrr_engine.Service.WorkItems.{
  get_extension_work_items, get_compaction_work_items, get_cleanup_work_items,
}
use powdrr_engine.Service.Snapshots.{new}
use powdrr_engine.Service.Catalog.{
  add_alias, remove_alias, create_table, create_table_template, create_pipeline,
  create_lifetime_policy,
}
use powdrr_engine.Service.Runs.{
  Step, Reachable, create, alias, unalias, commit_files, commit_deletes, commit_iceberg,
  commit_extension, commit_compaction, commit_cleanup, add, new_template, new_pipeline, new_policy,
  extension_work, compaction_work, cleanup_work, heartbeat, acknowledge, report_ready, queue, plan,
  cutover_state, update_all, start, after,
}

module _ {P : Payloads} where
  plan-IsCoherent :
      (now : ℤ) (request : CheckpointCutoverRequest) (s : EphemeralServiceImpl P)
      → IsCoherent s
      → IsCoherent (plan_checkpoint_cutover now request s)
  unfolding plan_checkpoint_cutover set_published_checkpoint IsCoherent
  plan-IsCoherent now request s c =
      elim (Bool-cases (
        get_published_checkpoint_sync s target request.selector.table_name
          request.selector.extension
        == some request.target_checkpoint_id)) [
          | inl same ↦ rw (same, plan_checkpoint_cutover) c
          | inr other ↦
              rw (other, plan_checkpoint_cutover)
                (capture-IsCoherent now request.selector.table_name request.selector.extension
                  request.target_checkpoint_id
                  (set_published_checkpoint target request.selector.table_name
                    request.selector.extension request.target_checkpoint_id s)
                  c)
        ]

  refresh-IsCoherent :
      (now : ℤ) (table_name : String) (extension id : Option String) (s : EphemeralServiceImpl P)
      → IsCoherent s
      → IsCoherent (refresh_cutover_membership now table_name extension id s)
  unfolding refresh_cutover_membership
  refresh-IsCoherent now table_name extension none s c = c
  refresh-IsCoherent now table_name extension (some id) s c =
      backfill-IsCoherent now table_name extension id _
        (capture-IsCoherent now table_name extension id s c)

  update_one-IsCoherent :
      (now : ℤ) (table_name : String) (s : EphemeralServiceImpl P) (done : Bool)
      → IsCoherent s
      → IsCoherent (update_one_checkpoint now table_name (s, done)).0
  unfolding update_one_checkpoint IsCoherent
  update_one-IsCoherent now table_name s done c =
      let s1 = (advance_target_checkpoint now table_name none s).0 in
      let s2 = (promote_active_checkpoint_if_ready now table_name none s1).0 in
      let s3 = (advance_target_checkpoint now table_name es s2).0 in
      let s4 = (promote_active_checkpoint_if_ready now table_name es s3).0 in
      let coherent : IsCoherent s4 = promote-IsCoherent now table_name es s3 (
        advance-IsCoherent now table_name es s2 (
          promote-IsCoherent now table_name none s1
            (advance-IsCoherent now table_name none s c))) in
      elim (Bool-cases (checkpoint_publication_still_pending s4 table_name)) [
        | inl pending ↦ rw (pending, update_one_checkpoint) coherent
        | inr settled ↦ rw (settled, update_one_checkpoint) coherent
      ]

  update-IsCoherent :
      (now : ℤ) (requests : List CheckpointUpdateRequest) (s : EphemeralServiceImpl P) (done : Bool)
      → IsCoherent s
      → IsCoherent (update_checkpoints now requests (s, done)).0
  unfolding update_checkpoints
  update-IsCoherent now [] s done c = c
  update-IsCoherent now (request ∷ requests) s done c =
      update-IsCoherent now requests (update_one_checkpoint now request.table_name (s, done)).0
        (update_one_checkpoint now request.table_name (s, done)).1
        (update_one-IsCoherent now request.table_name s done c)

  same-IsCoherent :
      (s s' : EphemeralServiceImpl P)
      → s'.cutover_membership_views ≡ s.cutover_membership_views
      → s'.checkpoint_cutover_epochs ≡ s.checkpoint_cutover_epochs
      → IsCoherent s
      → IsCoherent s'
  unfolding IsCoherent
  same-IsCoherent s s' v e c = rw (v, e) c

module _ {P : Payloads} (format_hash : String → String) (ids : ℕ → String) where
  Step-IsCoherent :
      {s s' : EphemeralServiceImpl P} → Step format_hash ids s s' → IsCoherent s → IsCoherent s'
  unfolding IsCoherent heartbeat_serving_node prune_expired_serving_node_leases
      record_serving_node_activation record_artifact_readiness queue_checkpoint_publication
      queue_publication_request get_checkpoint_cutover_state update_all_checkpoints
      compaction_commit cleanup_commit add_alias remove_alias create_table create_table_template
      create_pipeline create_lifetime_policy get_extension_work_items get_compaction_work_items
      get_cleanup_work_items
  Step-IsCoherent (create t s) c =
      same-IsCoherent s (create_table t s) (ground arith) (ground arith) c
  Step-IsCoherent (alias table_name name s) c = c
  Step-IsCoherent (unalias table_name name s) c = c
  Step-IsCoherent (commit_files table_info compaction s s' h) c =
      let (checkpoint, k) = commit-IsCommitted format_hash ids table_info compaction s s' h in
      same-IsCoherent s s' k.views k.epochs c
  Step-IsCoherent (commit_deletes table_info compaction s s' h) c =
      let (checkpoint, k) = delete-IsCommitted ids table_info compaction s s' h in
      same-IsCoherent s s' k.views k.epochs c
  Step-IsCoherent (commit_iceberg table_name commit s s' h) c =
      let (checkpoint, k, m) = iceberg-IsCommitted ids table_name commit s s' h in
      same-IsCoherent s s' k.views k.epochs c
  Step-IsCoherent (commit_extension table_name commit s s' h) c =
      let r = extension_commit-IsRaised table_name commit s s' h in
      same-IsCoherent s s' r.same_views r.same_epochs c
  Step-IsCoherent (commit_compaction table_name commit s) c = c
  Step-IsCoherent (commit_cleanup commit s) c = c
  Step-IsCoherent (add metadata s s' named h) c =
      let k = add_checkpoint-IsAdded ids metadata s s' h in same-IsCoherent s s' k.views k.epochs c
  Step-IsCoherent (new_template name template s) c =
      same-IsCoherent s (create_table_template name template s) (ground arith) (ground arith) c
  Step-IsCoherent (new_pipeline name pipeline s s' h) c =
      same-IsCoherent s s' (ground arith) (ground arith) c
  Step-IsCoherent (new_policy name policy s s' h) c =
      same-IsCoherent s s' (ground arith) (ground arith) c
  Step-IsCoherent (extension_work now extension_type s) c =
      same-IsCoherent s (get_extension_work_items now extension_type s).1 (ground arith)
        (ground arith) c
  Step-IsCoherent (compaction_work now s) c = c
  Step-IsCoherent (cleanup_work now s) c = c
  Step-IsCoherent (heartbeat now lease s) c = c
  Step-IsCoherent (acknowledge ack s) c = c
  Step-IsCoherent (report_ready ack s) c = c
  Step-IsCoherent (queue request s) c = c
  Step-IsCoherent (plan now request s) c = plan-IsCoherent now request s c
  Step-IsCoherent (cutover_state now table_name extension s) c =
      refresh-IsCoherent now table_name extension
        (get_latest_materialized_checkpoint_sync s table_name extension) s c
  Step-IsCoherent (update_all now s) c =
      update-IsCoherent now (values s.checkpoint_publication_requests) s false c

  -- In every state that the service reaches from its start, each membership view has the last epoch that
  -- its selector was given: no view of an earlier epoch is left behind.
  pub Reachable-IsCoherent :
      {mode : TestProcessingMode} {s : EphemeralServiceImpl P}
      → Reachable format_hash ids mode s
      → IsCoherent s
  unfolding new powdrr_engine.Service.Snapshots.from_snapshot AreCoherent get IsCoherent
  Reachable-IsCoherent start = λ key view h. absurd cc
  Reachable-IsCoherent (after r step) = Step-IsCoherent step (Reachable-IsCoherent r)
