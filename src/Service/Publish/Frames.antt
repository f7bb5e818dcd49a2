-- ===== src/Service/Publish/Frames.antt =====
-- What the operations on cutovers leave as it is, in service_lib/src/ephemeral_service_impl.rs.
use powdrr_engine.Common.{
  Bool, ◌≡◌, refl, ◌∙◌, arith, inl, inr, Option-cases, String, Option, none, some, List, [], ◌∷◌,
  ◌==◌, string_eq, nat_eq, option_eq, Bool-cases,
}
use powdrr_engine.Common.Int.{ℤ}
use powdrr_engine.Service.Types.{target, CheckpointUpdateRequest, CheckpointCutoverRequest}
use powdrr_engine.Service.State.{es, Payloads, EphemeralServiceImpl}
use powdrr_engine.Service.Cutover.{
  get_latest_materialized_checkpoint_sync, capture_cutover_membership_for_target, start_epoch,
  bump_cutover_epoch, store_cutover_membership_view, clear_serving_node_activations,
  prune_expired_serving_node_leases, backfill_cutover_membership_for_target,
  maybe_reconfigure_cutover_membership_for_target, clear_artifact_readiness,
  set_published_checkpoint,
}
use powdrr_engine.Service.Publish.{
  view_target, update_one_checkpoint, update_checkpoints, plan_checkpoint_cutover,
  refresh_cutover_membership, advance_target_checkpoint, promote_active_checkpoint_if_ready,
  promote_to, activation_matches_target,
}

module _ {P : Payloads} where
  -- The latest checkpoints, the extension work, and the requests of publications are as they were.
  pub record IsCutover (s s' : EphemeralServiceImpl P) : Type 0 where
    pub same_latest : s'.latest_committed_checkpoint_id ≡ s.latest_committed_checkpoint_id
    pub same_items : s'.extension_work_items ≡ s.extension_work_items
    pub same_waiting : s'.checkpoints_needing_extension_work ≡ s.checkpoints_needing_extension_work
    pub same_requests : s'.checkpoint_publication_requests ≡ s.checkpoint_publication_requests

  -- the same, but for the requests
  pub record IsUpdated (s s' : EphemeralServiceImpl P) : Type 0 where
    pub same_latest : s'.latest_committed_checkpoint_id ≡ s.latest_committed_checkpoint_id
    pub same_items : s'.extension_work_items ≡ s.extension_work_items
    pub same_waiting : s'.checkpoints_needing_extension_work ≡ s.checkpoints_needing_extension_work

  refl_IsCutover : (s : EphemeralServiceImpl P) → IsCutover s s
  refl_IsCutover s = record {
    same_latest = refl;
    same_items = refl;
    same_waiting = refl;
    same_requests = refl;
  }

  trans_IsCutover : (s t u : EphemeralServiceImpl P) → IsCutover s t → IsCutover t u → IsCutover s u
  trans_IsCutover s t u f g = record {
    same_latest = g.same_latest ∙ f.same_latest;
    same_items = g.same_items ∙ f.same_items;
    same_waiting = g.same_waiting ∙ f.same_waiting;
    same_requests = g.same_requests ∙ f.same_requests;
  }

  capture-IsCutover :
      (now : ℤ) (table_name : String) (extension : Option String) (id : String)
      (s : EphemeralServiceImpl P)
      → IsCutover s (capture_cutover_membership_for_target now table_name extension id s)
  unfolding capture_cutover_membership_for_target start_epoch bump_cutover_epoch
      prune_expired_serving_node_leases clear_serving_node_activations store_cutover_membership_view
  capture-IsCutover now table_name extension id s = record {
    same_latest = ground arith;
    same_items = ground arith;
    same_waiting = ground arith;
    same_requests = ground arith;
  }

  backfill-IsCutover :
      (now : ℤ) (table_name : String) (extension : Option String) (id : String)
      (s : EphemeralServiceImpl P)
      → IsCutover s (backfill_cutover_membership_for_target now table_name extension id s)
  unfolding backfill_cutover_membership_for_target prune_expired_serving_node_leases
      store_cutover_membership_view
  backfill-IsCutover now table_name extension id s = record {
    same_latest = ground arith;
    same_items = ground arith;
    same_waiting = ground arith;
    same_requests = ground arith;
  }

  reconfigure-IsCutover :
      (now : ℤ) (table_name : String) (extension : Option String) (id : String)
      (s : EphemeralServiceImpl P)
      → IsCutover s (maybe_reconfigure_cutover_membership_for_target now table_name extension id s)
  unfolding maybe_reconfigure_cutover_membership_for_target prune_expired_serving_node_leases
      start_epoch bump_cutover_epoch clear_serving_node_activations store_cutover_membership_view
  reconfigure-IsCutover now table_name extension id s = record {
    same_latest = ground arith;
    same_items = ground arith;
    same_waiting = ground arith;
    same_requests = ground arith;
  }

  advance-IsCutover :
      (now : ℤ) (table_name : String) (extension : Option String) (s : EphemeralServiceImpl P)
      → IsCutover s (advance_target_checkpoint now table_name extension s).0
  unfolding advance_target_checkpoint clear_artifact_readiness
  advance-IsCutover now table_name extension s =
      elim (Option-cases (get_latest_materialized_checkpoint_sync s table_name extension)) [
        | inl n ↦ rw (n, advance_target_checkpoint) (refl_IsCutover s)
        | inr (id, l) ↦ elim (Bool-cases (view_target s table_name extension == some id)) [
          | inl unchanged ↦
              rw (l, unchanged, advance_target_checkpoint)
                (capture-IsCutover now table_name extension id s)
          | inr changed ↦
              let f =
                capture-IsCutover now table_name extension id
                  (clear_artifact_readiness table_name extension s) in
              rw (l, changed, advance_target_checkpoint)
                (record {
                  same_latest = f.same_latest;
                  same_items = f.same_items;
                  same_waiting = f.same_waiting;
                  same_requests = f.same_requests;
                })
        ]
      ]

  promote-IsCutover :
      (now : ℤ) (table_name : String) (extension : Option String) (s : EphemeralServiceImpl P)
      → IsCutover s (promote_active_checkpoint_if_ready now table_name extension s).0
  unfolding promote_active_checkpoint_if_ready promote_to activation_matches_target
      set_published_checkpoint
  promote-IsCutover now table_name extension s =
      elim (Option-cases (get_latest_materialized_checkpoint_sync s table_name extension)) [
        | inl n ↦ rw (n, promote_active_checkpoint_if_ready) (refl_IsCutover s)
        | inr (id, l) ↦
            let f = backfill-IsCutover now table_name extension id s in
            let g =
              reconfigure-IsCutover now table_name extension id
                (backfill_cutover_membership_for_target now table_name extension id s) in
            record {
              same_latest = ground (arith, l, f.same_latest, g.same_latest);
              same_items = ground (arith, l, f.same_items, g.same_items);
              same_waiting = ground (arith, l, f.same_waiting, g.same_waiting);
              same_requests = ground (arith, l, f.same_requests, g.same_requests);
            }
      ]

  pub advance_promote-IsCutover :
      (now : ℤ) (table_name : String) (extension : Option String) (s : EphemeralServiceImpl P)
      → IsCutover s
          (promote_active_checkpoint_if_ready now table_name extension
            (advance_target_checkpoint now table_name extension s).0).0
  advance_promote-IsCutover now table_name extension s =
      trans_IsCutover s (advance_target_checkpoint now table_name extension s).0 _
        (advance-IsCutover now table_name extension s)
        (promote-IsCutover now table_name extension
          (advance_target_checkpoint now table_name extension s).0)

  -- the state in which `update_one_checkpoint` looks whether the publication is still pending
  abbrev pub updated_once : ℤ → String → EphemeralServiceImpl P → EphemeralServiceImpl P
  updated_once now table_name s =
      let s2 =
        (promote_active_checkpoint_if_ready now table_name none
          (advance_target_checkpoint now table_name none s).0).0 in
      (promote_active_checkpoint_if_ready now table_name es
        (advance_target_checkpoint now table_name es s2).0).0

  pub updated_once-IsCutover :
      (now : ℤ) (table_name : String) (s : EphemeralServiceImpl P)
      → IsCutover s (updated_once now table_name s)
  updated_once-IsCutover now table_name s =
      trans_IsCutover s _ (updated_once now table_name s)
        (advance_promote-IsCutover now table_name none s)
        (advance_promote-IsCutover now table_name es _)

  pub update_one-IsUpdated :
      (now : ℤ) (table_name : String) (s : EphemeralServiceImpl P) (done : Bool)
      → IsUpdated s (update_one_checkpoint now table_name (s, done)).0
  unfolding update_one_checkpoint
  update_one-IsUpdated now table_name s done =
      let f = updated_once-IsCutover now table_name s in
      record {
        same_latest = ground (arith, f.same_latest);
        same_items = ground (arith, f.same_items);
        same_waiting = ground (arith, f.same_waiting);
      }

  pub update-IsUpdated :
      (now : ℤ) (requests : List CheckpointUpdateRequest) (s : EphemeralServiceImpl P) (done : Bool)
      → IsUpdated s (update_checkpoints now requests (s, done)).0
  unfolding update_checkpoints
  update-IsUpdated now [] s done = record {
    same_latest = refl;
    same_items = refl;
    same_waiting = refl;
  }
  update-IsUpdated now (request ∷ requests) s done =
      let one = update_one_checkpoint now request.table_name (s, done) in
      let f = update_one-IsUpdated now request.table_name s done in
      let g = update-IsUpdated now requests one.0 one.1 in
      record {
        same_latest = g.same_latest ∙ f.same_latest;
        same_items = g.same_items ∙ f.same_items;
        same_waiting = g.same_waiting ∙ f.same_waiting;
      }

  pub plan-IsCutover :
      (now : ℤ) (request : CheckpointCutoverRequest) (s : EphemeralServiceImpl P)
      → IsCutover s (plan_checkpoint_cutover now request s)
  unfolding plan_checkpoint_cutover set_published_checkpoint
  plan-IsCutover now request s =
      let f =
        capture-IsCutover now request.selector.table_name request.selector.extension
          request.target_checkpoint_id
          (set_published_checkpoint target request.selector.table_name request.selector.extension
            request.target_checkpoint_id s) in
      record {
        same_latest = ground (arith, f.same_latest);
        same_items = ground (arith, f.same_items);
        same_waiting = ground (arith, f.same_waiting);
        same_requests = ground (arith, f.same_requests);
      }

  pub refresh-IsCutover :
      (now : ℤ) (table_name : String) (extension id : Option String) (s : EphemeralServiceImpl P)
      → IsCutover s (refresh_cutover_membership now table_name extension id s)
  unfolding refresh_cutover_membership
  refresh-IsCutover now table_name extension none s = record {
    same_latest = refl;
    same_items = refl;
    same_waiting = refl;
    same_requests = refl;
  }
  refresh-IsCutover now table_name extension (some id) s =
      let f = capture-IsCutover now table_name extension id s in
      let g =
        backfill-IsCutover now table_name extension id
          (capture_cutover_membership_for_target now table_name extension id s) in
      record {
        same_latest = g.same_latest ∙ f.same_latest;
        same_items = g.same_items ∙ f.same_items;
        same_waiting = g.same_waiting ∙ f.same_waiting;
        same_requests = g.same_requests ∙ f.same_requests;
      }
