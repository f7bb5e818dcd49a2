-- ===== src/Service/Publish.antt =====
-- Targets and promotion: how the published active checkpoint of a table follows its latest one, and the
-- `MetadataStore` operations on it, in service_lib/src/ephemeral_service_impl.rs.
pub mod Promotion
pub mod Epochs
pub mod Targets
pub mod Advance
pub mod Frames
use powdrr_engine.Common.{
  ℕ, zero, suc, String, Bool, true, false, ◌&&◌, ◌||◌, not, Option, none, some, List, [], ◌∷◌, ◌++◌,
  if◌then◌else◌, ◌==◌, all, length, is_some, unwrap_or, option_map, string_eq, nat_eq, option_eq,
}
use powdrr_engine.Common.Int.{ℤ}
use powdrr_engine.Common.Dict
use powdrr_engine.Common.Dict.{Dict, get, insert, keys, values, contains_key}
use powdrr_engine.Service.Types.{
  PublishedCheckpointRole, active, target, PublishedCheckpointSelector, PublishedCheckpointRecord,
  CutoverEpoch, CutoverMembershipView, CheckpointUpdateRequest, CheckpointCutoverState,
  CheckpointCutoverRequest, ServingNodeLease, ServingNodeActivationAck, ArtifactClass, class_eq,
  ArtifactReadinessAck,
}
use powdrr_engine.Service.State.{
  Payloads, EphemeralServiceImpl, selector_group_key, checkpoint_publication_request_key,
  default_metadata_namespace, es,
}
use powdrr_engine.Service.Cutover.{
  required_artifact_classes, clear_artifact_readiness, get_cutover_membership_view,
  capture_cutover_membership_for_target, backfill_cutover_membership_for_target,
  maybe_reconfigure_cutover_membership_for_target, prune_expired_serving_node_leases,
  get_published_checkpoint_sync, set_published_checkpoint, get_latest_materialized_checkpoint_sync,
  checkpoint_publication_still_pending,
}

-- the node has acknowledged the target, in the epoch of the view
abbrev pub node_activated :
    Dict String ServingNodeActivationAck → String → CutoverEpoch → String → Bool
node_activated acks target_checkpoint_id epoch node_id = elim (get acks node_id) [
  | none ↦ false
  | some ack ↦ ack.checkpoint_id == target_checkpoint_id && ack.epoch == epoch
]

abbrev pub class_ready : Dict ArtifactClass ArtifactReadinessAck → String → ArtifactClass → Bool
class_ready acks target_checkpoint_id artifact_class = elim (get acks artifact_class) [
  | none ↦ false
  | some ack ↦ ack.checkpoint_id == target_checkpoint_id
]

module _ {P : Payloads} where
  unfoldable pub queue_publication_request :
      String → String → EphemeralServiceImpl P → EphemeralServiceImpl P
  queue_publication_request org_id table_name s = record s {
    checkpoint_publication_requests =
        insert (checkpoint_publication_request_key org_id table_name)
          (record { table_name = table_name }) s.checkpoint_publication_requests;
  }

  abbrev pub view_target : EphemeralServiceImpl P → String → Option String → Option String
  view_target s table_name extension =
      option_map (λ (view : CutoverMembershipView). view.target_checkpoint_id)
        (get_cutover_membership_view s table_name extension)

  unfoldable pub advance_target_checkpoint :
      ℤ → String → Option String → EphemeralServiceImpl P → EphemeralServiceImpl P × Bool
  advance_target_checkpoint now table_name extension s =
      elim (get_latest_materialized_checkpoint_sync s table_name extension) [
        | none ↦ (s, false)
        | some checkpoint_id ↦
            let unchanged = view_target s table_name extension == some checkpoint_id in
            (
              capture_cutover_membership_for_target now table_name extension checkpoint_id
                  (if unchanged then s else clear_artifact_readiness table_name extension s),
              not unchanged,
            )
      ]

  -- the test of `activation_matches_target`, after its two updates of the view
  unfoldable pub activation_matches :
      EphemeralServiceImpl P → String → Option String → String → Bool
  activation_matches s table_name extension target_checkpoint_id =
      elim (get_cutover_membership_view s table_name extension) [
        | none ↦ false
        | some view ↦
            if not (view.target_checkpoint_id == target_checkpoint_id)
              || length view.required_node_ids == 0
            then false
            else elim (get s.serving_node_activations (selector_group_key table_name extension)) [
              | none ↦ false
              | some acks ↦
                  all (node_activated acks target_checkpoint_id view.epoch) view.required_node_ids
            ]
      ]

  unfoldable pub activation_matches_target :
      ℤ → String → Option String → String → EphemeralServiceImpl P → EphemeralServiceImpl P × Bool
  unfolding activation_matches
  activation_matches_target now table_name extension target_checkpoint_id s =
      let updated =
        maybe_reconfigure_cutover_membership_for_target now table_name extension
          target_checkpoint_id
          (backfill_cutover_membership_for_target now table_name extension target_checkpoint_id
            s) in
      (updated, activation_matches updated table_name extension target_checkpoint_id)

  unfoldable pub readiness_matches_target :
      EphemeralServiceImpl P → String → Option String → String → Bool
  readiness_matches_target s table_name extension target_checkpoint_id =
      elim (get s.artifact_readiness_acks (selector_group_key table_name extension)) [
        | none ↦ false
        | some acks ↦
            all (class_ready acks target_checkpoint_id) (required_artifact_classes extension)
      ]

  -- the rest of `promote_active_checkpoint_if_ready`, at the latest checkpoint
  unfoldable pub promote_to :
      ℤ → String → Option String → String → EphemeralServiceImpl P → EphemeralServiceImpl P × Bool
  promote_to now table_name extension target_checkpoint_id s =
      let activation = activation_matches_target now table_name extension target_checkpoint_id s in
      if get_published_checkpoint_sync s active table_name extension == some target_checkpoint_id
      then (s, false)
      else if not (readiness_matches_target s table_name extension target_checkpoint_id)
      then (s, false)
      else if not activation.1
      then (activation.0, false)
      else (
        set_published_checkpoint active table_name extension target_checkpoint_id activation.0,
        true,
      )

  unfoldable pub promote_active_checkpoint_if_ready :
      ℤ → String → Option String → EphemeralServiceImpl P → EphemeralServiceImpl P × Bool
  unfolding promote_to
  promote_active_checkpoint_if_ready now table_name extension s =
      elim (get_latest_materialized_checkpoint_sync s table_name extension) [
        | none ↦ (s, false)
        | some target_checkpoint_id ↦ promote_to now table_name extension target_checkpoint_id s
      ]

  -- one request of `update_all_checkpoints`
  unfoldable pub update_one_checkpoint :
      ℤ → String → EphemeralServiceImpl P × Bool → EphemeralServiceImpl P × Bool
  update_one_checkpoint now table_name (s, work_done) =
      let (s1, d1) = advance_target_checkpoint now table_name none s in
      let (s2, d2) = promote_active_checkpoint_if_ready now table_name none s1 in
      let (s3, d3) = advance_target_checkpoint now table_name es s2 in
      let (s4, d4) = promote_active_checkpoint_if_ready now table_name es s3 in
      let done = (((work_done || d1) || d2) || d3) || d4 in
      if not (checkpoint_publication_still_pending s4 table_name)
      then (
        record s4 {
          checkpoint_publication_requests =
              Dict.remove (checkpoint_publication_request_key default_metadata_namespace table_name)
                s4.checkpoint_publication_requests;
        },
        done,
      )
      else (s4, done)

  unfoldable pub update_checkpoints :
      ℤ
      → List CheckpointUpdateRequest
      → EphemeralServiceImpl P × Bool
      → EphemeralServiceImpl P × Bool
  unfolding update_one_checkpoint
  update_checkpoints now [] state = state
  update_checkpoints now (request ∷ requests) state =
      update_checkpoints now requests (update_one_checkpoint now request.table_name state)

  unfoldable pub update_all_checkpoints : ℤ → EphemeralServiceImpl P → EphemeralServiceImpl P × Bool
  unfolding update_checkpoints
  update_all_checkpoints now s =
      update_checkpoints now (values s.checkpoint_publication_requests) (s, false)

  unfoldable pub queue_checkpoint_publication :
      CheckpointUpdateRequest → EphemeralServiceImpl P → EphemeralServiceImpl P
  queue_checkpoint_publication request =
      queue_publication_request default_metadata_namespace request.table_name

  unfoldable pub get_published_checkpoint_record :
      EphemeralServiceImpl P → PublishedCheckpointSelector → Option PublishedCheckpointRecord
  get_published_checkpoint_record s selector =
      option_map
        (λ (checkpoint_id : String).
          let r : PublishedCheckpointRecord = record {
            selector = selector;
            checkpoint_id = checkpoint_id;
          } in
          r)
        (get_published_checkpoint_sync s selector.role selector.table_name selector.extension)

  unfoldable pub plan_checkpoint_cutover :
      ℤ → CheckpointCutoverRequest → EphemeralServiceImpl P → EphemeralServiceImpl P
  plan_checkpoint_cutover now request s =
      if get_published_checkpoint_sync s target request.selector.table_name
          request.selector.extension
        == some request.target_checkpoint_id
      then s
      else capture_cutover_membership_for_target now request.selector.table_name
          request.selector.extension request.target_checkpoint_id
          (set_published_checkpoint target request.selector.table_name request.selector.extension
            request.target_checkpoint_id s)

  -- the epoch of the view, if the view is of the target, and else the last epoch of the selector
  unfoldable pub cutover_epoch :
      EphemeralServiceImpl P → String → Option String → Option String → CutoverEpoch
  cutover_epoch s table_name extension target_checkpoint_id =
      let last_epoch =
        unwrap_or 0 (get s.checkpoint_cutover_epochs (selector_group_key table_name extension)) in
      elim (get_cutover_membership_view s table_name extension) [
        | none ↦ last_epoch
        | some view ↦
            if some view.target_checkpoint_id == target_checkpoint_id
            then view.epoch
            else last_epoch
      ]

  unfoldable pub refresh_cutover_membership :
      ℤ → String → Option String → Option String → EphemeralServiceImpl P → EphemeralServiceImpl P
  refresh_cutover_membership now table_name extension none s = s
  refresh_cutover_membership now table_name extension (some target_checkpoint_id) s =
      backfill_cutover_membership_for_target now table_name extension target_checkpoint_id
        (capture_cutover_membership_for_target now table_name extension target_checkpoint_id s)

  unfoldable pub get_checkpoint_cutover_state :
      ℤ
      → String
      → Option String
      → EphemeralServiceImpl P
      → EphemeralServiceImpl P × CheckpointCutoverState
  unfolding cutover_epoch refresh_cutover_membership
  get_checkpoint_cutover_state now table_name extension s =
      let target_checkpoint_id = get_latest_materialized_checkpoint_sync s table_name extension in
      let refreshed = refresh_cutover_membership now table_name extension target_checkpoint_id s in
      (
        refreshed,
        record {
          selector = record { table_name = table_name; extension = extension; role = target };
          epoch = cutover_epoch refreshed table_name extension target_checkpoint_id;
          active_checkpoint_id =
              get_published_checkpoint_sync refreshed active table_name extension;
          target_checkpoint_id = target_checkpoint_id;
        },
      )

  unfoldable pub heartbeat_serving_node :
      ℤ → ServingNodeLease → EphemeralServiceImpl P → EphemeralServiceImpl P
  unfolding prune_expired_serving_node_leases
  heartbeat_serving_node now lease s =
      let pruned = prune_expired_serving_node_leases now s in
      record pruned { serving_node_leases = insert lease.node_id lease pruned.serving_node_leases }

  unfoldable pub record_serving_node_activation :
      ServingNodeActivationAck → EphemeralServiceImpl P → EphemeralServiceImpl P
  record_serving_node_activation ack s =
      let key = selector_group_key ack.selector.table_name ack.selector.extension in
      record s {
        serving_node_activations =
            insert key (insert ack.node_id ack (unwrap_or [] (get s.serving_node_activations key)))
              s.serving_node_activations;
      }

  unfoldable pub list_serving_node_activations :
      EphemeralServiceImpl P → String → Option String → List ServingNodeActivationAck
  list_serving_node_activations s table_name extension =
      values
        (unwrap_or [] (get s.serving_node_activations (selector_group_key table_name extension)))

  unfoldable pub record_artifact_readiness :
      ArtifactReadinessAck → EphemeralServiceImpl P → EphemeralServiceImpl P
  record_artifact_readiness ack s =
      let key = selector_group_key ack.selector.table_name ack.selector.extension in
      record s {
        artifact_readiness_acks =
            insert key
              (insert ack.artifact_class ack (unwrap_or [] (get s.artifact_readiness_acks key)))
              s.artifact_readiness_acks;
      }

  unfoldable pub list_artifact_readiness :
      EphemeralServiceImpl P → String → Option String → List ArtifactReadinessAck
  list_artifact_readiness s table_name extension =
      values
        (unwrap_or [] (get s.artifact_readiness_acks (selector_group_key table_name extension)))
