-- ===== src/Service/Snapshots/Reached.antt =====
-- The states that the metadata service reaches are restored from their snapshots,
-- service_lib/src/ephemeral_service_impl.rs.
use powdrr_engine.Common.{
  ◌≡◌, refl, ap, arith, inl, inr, ℕ, String, true, false, Option, none, some, List, [], ◌∷◌, ◌==◌,
  is_some, contains, distinct, string_eq, nat_eq, option_eq,
}
use powdrr_engine.Common.Dict.{
  Dict, get, insert, keys, values, get-insert, contains-insert, distinct-insert,
}
use powdrr_engine.DataContract.Types.{TableMetadataCheckpoint}
use powdrr_engine.Service.Tables.{TestProcessingMode}
use powdrr_engine.Service.State.{Payloads, EphemeralServiceImpl, es}
use powdrr_engine.Service.Cutover.{
  prune_expired_serving_node_leases, get_latest_materialized_checkpoint_sync,
}
use powdrr_engine.Service.Publish.{
  update_all_checkpoints, get_checkpoint_cutover_state, heartbeat_serving_node,
  record_serving_node_activation, record_artifact_readiness, queue_checkpoint_publication,
  queue_publication_request,
}
use powdrr_engine.Service.Publish.Frames.{
  IsCutover, update-IsUpdated, plan-IsCutover, refresh-IsCutover,
}
use powdrr_engine.Service.Commit.{
  set_latest_committed_checkpoint_id, set_latest_committed_checkpoint,
}
use powdrr_engine.Service.Commit.Operations.{
  set_latest_for_extensions, compaction_commit, cleanup_commit,
}
use powdrr_engine.Service.Commit.Frames.{KeepsWork}
use powdrr_engine.Service.Commit.Latest.{IsCommitted}
use powdrr_engine.Service.Commit.Committed.{
  commit-IsCommitted, delete-IsCommitted, iceberg-IsCommitted,
}
use powdrr_engine.Service.Commit.Raise.{IsRaised, extension_commit-IsRaised}
use powdrr_engine.Service.Commit.Added.{IsAdded, add_checkpoint-IsAdded}
use powdrr_engine.Service.WorkItems.{
  get_extension_work_items, get_compaction_work_items, get_cleanup_work_items,
}
use powdrr_engine.Service.Catalog.{
  add_alias, remove_alias, create_table, create_table_template, create_pipeline,
  create_lifetime_policy,
}
use powdrr_engine.Service.Snapshots.{
  new, from_snapshot, snapshot_state, deserialize_latest_committed_checkpoint_id, collect_onto,
}
use powdrr_engine.Service.Snapshots.RoundTrip.{from_snapshot-snapshot_state}
use powdrr_engine.Service.Runs.{
  Step, Reachable, start, after, create, alias, unalias, commit_files, commit_deletes,
  commit_iceberg, commit_extension, commit_compaction, commit_cleanup, add, new_template,
  new_pipeline, new_policy, extension_work, compaction_work, cleanup_work, heartbeat, acknowledge,
  report_ready, queue, plan, cutover_state, update_all,
}

-- The keys are distinct, and none of them is the empty name.
unfoldable IsNamed : {V : Type 0} → Dict (Option String) V → Type 0
IsNamed m = (distinct (keys m) ≡ true) × (contains (keys m) (some "") ≡ false)

insert-IsNamed :
    {V : Type 0} (k : Option String) (v : V) (m : Dict (Option String) V)
    → (k == some "") ≡ false
    → IsNamed m
    → IsNamed (insert k v m)
unfolding IsNamed
insert-IsNamed k v m n (d, c) = (distinct-insert k v m d, rw (contains-insert k (some "") v m, c) n)

module _ {P : Payloads} where
  -- What a snapshot keeps: the latest checkpoints have names, and "es" has its map of work items.
  record IsSaved (s : EphemeralServiceImpl P) : Type 0 where
    named : IsNamed s.latest_committed_checkpoint_id
    working : is_some (get s.extension_work_items "es") ≡ true

  kept-IsSaved :
      (s s' : EphemeralServiceImpl P)
      → s'.latest_committed_checkpoint_id ≡ s.latest_committed_checkpoint_id
      → KeepsWork s.extension_work_items s'.extension_work_items
      → IsSaved s
      → IsSaved s'
  kept-IsSaved s s' l k saved = record {
    named = rw (l) saved.named;
    working = k "es" saved.working;
  }

  cutover-IsSaved : (s s' : EphemeralServiceImpl P) → IsCutover s s' → IsSaved s → IsSaved s'
  cutover-IsSaved s s' f = kept-IsSaved s s' f.same_latest (λ name w. rw (f.same_items) w)

  set_latest-IsNamed :
      (extension : Option String) (table_name id : String) (s : EphemeralServiceImpl P)
      → (extension == some "") ≡ false
      → IsNamed s.latest_committed_checkpoint_id
      → IsNamed
          (set_latest_committed_checkpoint_id extension table_name id
            s).latest_committed_checkpoint_id
  unfolding set_latest_committed_checkpoint_id
  set_latest-IsNamed extension table_name id s =
      insert-IsNamed extension _ s.latest_committed_checkpoint_id

  set_latest_for_extensions-IsNamed :
      (extensions : List String) (table_name id : String) (s : EphemeralServiceImpl P)
      → contains extensions "" ≡ false
      → IsNamed s.latest_committed_checkpoint_id
      → IsNamed
          (set_latest_for_extensions extensions table_name id s).latest_committed_checkpoint_id
  set_latest_for_extensions-IsNamed [] table_name id s c n = n
  set_latest_for_extensions-IsNamed (extension ∷ extensions) table_name id s c n =
      set_latest_for_extensions-IsNamed extensions table_name id
        (set_latest_committed_checkpoint_id (some extension) table_name id s) (ground (arith, c))
        (set_latest-IsNamed (some extension) table_name id s (ground (arith, c)) n)

  committed-IsSaved :
      (c : TableMetadataCheckpoint P.Json) (id table_name : String) (s s' : EphemeralServiceImpl P)
      → IsCommitted c id table_name s s'
      → IsSaved s
      → IsSaved s'
  unfolding set_latest_committed_checkpoint
  committed-IsSaved c id table_name s s' k saved = record {
    named = rw (k.latest) (set_latest-IsNamed none _ id s refl saved.named);
    working = k.work "es" saved.working;
  }

  raised-IsSaved :
      (table_name : String) (s s' : EphemeralServiceImpl P)
      → IsRaised table_name s s'
      → IsSaved s
      → IsSaved s'
  unfolding set_latest_committed_checkpoint
  raised-IsSaved table_name s s' r saved = elim r.moved [
    | inl same ↦ kept-IsSaved s s' same r.keeps_work saved
    | inr set ↦ record {
      named = rw (set) (set_latest-IsNamed es _ r.id s refl saved.named);
      working = r.keeps_work "es" saved.working;
    }
  ]

  added-IsSaved :
      (metadata : TableMetadataCheckpoint P.Json) (s s' : EphemeralServiceImpl P)
      → contains (keys metadata.extension_metadata) "" ≡ false
      → IsAdded metadata s s'
      → IsSaved s
      → IsSaved s'
  added-IsSaved metadata s s' c k saved = record {
    named = rw (k.latest) (
        set_latest_for_extensions-IsNamed (keys metadata.extension_metadata) metadata.table_name
          metadata.checkpoint_id _ c
          (set_latest-IsNamed none metadata.table_name metadata.checkpoint_id s refl saved.named));
    working = k.work "es" saved.working;
  }

module _ {P : Payloads} (format_hash : String → String) (ids : ℕ → String) where
  Step-IsSaved :
      {s s' : EphemeralServiceImpl P} → Step format_hash ids s s' → IsSaved s → IsSaved s'
  unfolding heartbeat_serving_node prune_expired_serving_node_leases record_serving_node_activation
      record_artifact_readiness queue_checkpoint_publication queue_publication_request
      get_checkpoint_cutover_state update_all_checkpoints compaction_commit cleanup_commit add_alias
      remove_alias create_table create_table_template create_pipeline create_lifetime_policy
      get_extension_work_items get_compaction_work_items get_cleanup_work_items
  Step-IsSaved (create t s) saved =
      kept-IsSaved s (create_table t s) (ground arith) (λ name w. ground arith) saved
  Step-IsSaved (alias table_name name s) saved = kept-IsSaved s _ refl (λ name w. w) saved
  Step-IsSaved (unalias table_name name s) saved = kept-IsSaved s _ refl (λ name w. w) saved
  Step-IsSaved (commit_files table_info compaction s s' h) saved =
      let (c, k) = commit-IsCommitted format_hash ids table_info compaction s s' h in
      committed-IsSaved c _ table_info.table_name s s' k saved
  Step-IsSaved (commit_deletes table_info compaction s s' h) saved =
      let (c, k) = delete-IsCommitted ids table_info compaction s s' h in
      committed-IsSaved c _ table_info.table_name s s' k saved
  Step-IsSaved (commit_iceberg table_name commit s s' h) saved =
      let (c, k, m) = iceberg-IsCommitted ids table_name commit s s' h in
      committed-IsSaved c _ table_name s s' k saved
  Step-IsSaved (commit_extension table_name commit s s' h) saved =
      raised-IsSaved table_name s s' (extension_commit-IsRaised table_name commit s s' h) saved
  Step-IsSaved (commit_compaction table_name commit s) saved =
      kept-IsSaved s _ refl (λ name w. w) saved
  Step-IsSaved (commit_cleanup commit s) saved = kept-IsSaved s _ refl (λ name w. w) saved
  Step-IsSaved (add metadata s s' named h) saved =
      added-IsSaved metadata s s' named (add_checkpoint-IsAdded ids metadata s s' h) saved
  Step-IsSaved (new_template name template s) saved =
      kept-IsSaved s (create_table_template name template s) (ground arith) (λ name w. ground arith)
        saved
  Step-IsSaved (new_pipeline name pipeline s s' h) saved =
      kept-IsSaved s s' (ground arith) (λ name w. ground arith) saved
  Step-IsSaved (new_policy name policy s s' h) saved =
      kept-IsSaved s s' (ground arith) (λ name w. ground arith) saved
  Step-IsSaved (extension_work now extension_type s) saved =
      kept-IsSaved s (get_extension_work_items now extension_type s).1 (ground arith)
        (λ name w. grind (arith, get-insert)) saved
  Step-IsSaved (compaction_work now s) saved = kept-IsSaved s _ refl (λ name w. w) saved
  Step-IsSaved (cleanup_work now s) saved = kept-IsSaved s _ refl (λ name w. w) saved
  Step-IsSaved (heartbeat now lease s) saved = kept-IsSaved s _ refl (λ name w. w) saved
  Step-IsSaved (acknowledge ack s) saved = kept-IsSaved s _ refl (λ name w. w) saved
  Step-IsSaved (report_ready ack s) saved = kept-IsSaved s _ refl (λ name w. w) saved
  Step-IsSaved (queue request s) saved = kept-IsSaved s _ refl (λ name w. w) saved
  Step-IsSaved (plan now request s) saved = cutover-IsSaved s _ (plan-IsCutover now request s) saved
  Step-IsSaved (cutover_state now table_name extension s) saved =
      cutover-IsSaved s _
        (refresh-IsCutover now table_name extension
          (get_latest_materialized_checkpoint_sync s table_name extension) s)
        saved
  Step-IsSaved (update_all now s) saved =
      let f = update-IsUpdated now (values s.checkpoint_publication_requests) s false in
      kept-IsSaved s _ f.same_latest (λ name w. rw (f.same_items) w) saved

  Reachable-IsSaved :
      {mode : TestProcessingMode} {s : EphemeralServiceImpl P}
      → Reachable format_hash ids mode s
      → IsSaved s
  unfolding new from_snapshot deserialize_latest_committed_checkpoint_id collect_onto IsNamed keys
      get
  Reachable-IsSaved start = record { named = (refl, refl); working = refl }
  Reachable-IsSaved (after r step) = Step-IsSaved step (Reachable-IsSaved r)

  -- Every state that the service reaches from its start, without a panic and without a checkpoint that
  -- `add_checkpoint` is given with an extension whose name is the empty text, is the state that it has
  -- again when it is started from its snapshot, with its mode and its count of ids.
  pub from_snapshot-Reachable :
      {mode : TestProcessingMode} {s : EphemeralServiceImpl P}
      → Reachable format_hash ids mode s
      → from_snapshot s.ids_issued s.mode (snapshot_state s) ≡ s
  unfolding IsNamed get
  from_snapshot-Reachable {s} r =
      let saved = Reachable-IsSaved r in
      from_snapshot-snapshot_state s saved.named.0 saved.named.1
        (λ e. absurd (ground (arith, saved.working, ap (λ m. is_some (get m "es")) e)))
