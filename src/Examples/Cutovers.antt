-- ===== src/Examples/Cutovers.antt =====
-- Runs of cutovers, service_lib/src/ephemeral_service_impl.rs: one table, with one serving node.
use powdrr_engine.Common.{
  ℕ, zero, suc, ◌+◌, ◌<◌, String, ◌≡◌, ◌≢◌, refl, Bool, true, false, Option, none, some, List, [],
  ◌∷◌, arith, inl, inr, if◌then◌else◌, ◌==◌, ==_iff, option_eq, contains, distinct, unwrap_or,
  string_eq, nat_eq,
}
use powdrr_engine.Common.Int.{ℤ, pos, leb_ℤ}
use powdrr_engine.Common.Dict.{Dict, get, insert, keys, contains_key}
use powdrr_engine.Service.Tables.{ephemeral_default}
use powdrr_engine.Service.Types.{
  active, target, CutoverMembershipView, ServingNodeLease, ServingNodeActivationAck, ArtifactClass,
  snapshot_lookup_mmap, snapshot_exact_lookup_mmap, search_projection, stats_manifest, custom,
  class_beq, class_eq, ArtifactReadinessAck, CompactionWorkItem, CleanupWorkItem, Tracker,
}
use powdrr_engine.Service.State.{Payloads, EphemeralServiceImpl, selector_group_key}
use powdrr_engine.Service.Cutover.{
  get_latest_materialized_checkpoint_sync, get_cutover_membership_view,
  capture_cutover_membership_for_target, u64_mod, real_table_name, claim_lease_expires_at_ms,
  get_published_checkpoint_sync,
}
use powdrr_engine.Service.Publish.{
  promote_active_checkpoint_if_ready, advance_target_checkpoint, activation_matches,
  readiness_matches_target, list_artifact_readiness, record_serving_node_activation, view_target,
  update_all_checkpoints, heartbeat_serving_node,
}
use powdrr_engine.Service.Publish.Promotion.{IsPromoted, promote-IsPromoted}
use powdrr_engine.Service.Publish.Epochs.{IsCoherent}
use powdrr_engine.Service.Publish.Targets.{
  IsNewEpoch, capture-IsNewEpoch, activation_matches-late_ack,
}
use powdrr_engine.Service.Coordination.{readiness_satisfies_target}
use powdrr_engine.Service.Coordination.Readiness.{HasOwnClass, readiness_satisfies_target_lem}
use powdrr_engine.Service.Snapshots.{new}
use powdrr_engine.Service.Runs.Coherent.{Reachable-IsCoherent}
use powdrr_engine.Service.Runs.{Reachable, start, after, heartbeat, update_all}

abbrev pub plain : Payloads
plain = record { Json = String; Template = String; Pipeline = String; Policy = String }

abbrev pub empty_service : EphemeralServiceImpl plain
empty_service = record {
  ids_issued = 0;
  mode = ephemeral_default;
  tables = [];
  table_aliases = [];
  table_templates = [];
  pipelines = [];
  lifetime_policies = [];
  latest_committed_checkpoint_id = [];
  published_checkpoint_id = [];
  checkpoint_publication_requests = [];
  checkpoint_cutover_epochs = [];
  cutover_membership_views = [];
  serving_node_leases = [];
  serving_node_activations = [];
  artifact_readiness_acks = [];
  compaction_work_items = [];
  not_compacted_checkpoint_ids = [];
  extension_work_items = ("es", []) ∷ [];
  cleanup_work_items = [];
  compactions = [];
  checkpoints = [];
  checkpoints_needing_extension_work = [];
  recent_file_extension_metadata = [];
}

abbrev lease : ServingNodeLease
lease = record { node_id = "n1"; membership_epoch = 0; observed_at_ms = pos 1000 }

abbrev view : CutoverMembershipView
view = record {
  selector = record { table_name = "people"; extension = none; role = target };
  epoch = 1;
  target_checkpoint_id = "2";
  required_node_ids = "n1" ∷ [];
}

abbrev activation : ℕ → ServingNodeActivationAck
activation epoch = record {
  selector = record { table_name = "people"; extension = none; role = target };
  node_id = "n1";
  epoch = epoch;
  checkpoint_id = "2";
  activated_at_ms = pos 1500;
}

abbrev readiness : ArtifactClass → ArtifactReadinessAck
readiness artifact_class = record {
  selector = record { table_name = "people"; extension = none; role = target };
  checkpoint_id = "2";
  epoch = 1;
  artifact_class = artifact_class;
  producer_id = "n1";
  ready_at_ms = pos 1400;
}

-- checkpoint 2 is the latest one of the table, its artifacts are ready, and the node is at it
abbrev pub ready_service : EphemeralServiceImpl plain
ready_service = record empty_service {
  latest_committed_checkpoint_id = (none, ("people", "2") ∷ []) ∷ [];
  checkpoint_cutover_epochs = ("|people", 1) ∷ [];
  cutover_membership_views = ("|people", view) ∷ [];
  serving_node_leases = ("n1", lease) ∷ [];
  serving_node_activations = ("|people", ("n1", activation 1) ∷ []) ∷ [];
  artifact_readiness_acks =
      (
        "|people",
        (snapshot_lookup_mmap, readiness snapshot_lookup_mmap)
            ∷ (snapshot_exact_lookup_mmap, readiness snapshot_exact_lookup_mmap)
            ∷ [],
      )
      ∷ [];
}

ready_is_promoted :
    (promote_active_checkpoint_if_ready (pos 2000) "people" none ready_service).1 ≡ true
unfolding promote_active_checkpoint_if_ready get_latest_materialized_checkpoint_sync get
    readiness_matches_target selector_group_key
    powdrr_engine.Service.Cutover.required_artifact_classes powdrr_engine.Service.Types.class_beq
    powdrr_engine.Service.Publish.activation_matches_target
    powdrr_engine.Service.Cutover.maybe_reconfigure_cutover_membership_for_target
    powdrr_engine.Service.Cutover.backfill_cutover_membership_for_target
    powdrr_engine.Common.Order.sort keys powdrr_engine.Common.Dict.retain
    powdrr_engine.Common.Int.◌-ℤ◌
ready_is_promoted = refl

promote-IsPromoted_example :
    IsPromoted "people" none ready_service
      (promote_active_checkpoint_if_ready (pos 2000) "people" none ready_service).0
promote-IsPromoted_example =
    promote-IsPromoted "people" none (pos 2000) ready_service ready_is_promoted

-- without the acknowledgements of the artifacts
abbrev waiting_service : EphemeralServiceImpl plain
waiting_service = record ready_service { artifact_readiness_acks = [] }

waiting_is_not_promoted :
    (promote_active_checkpoint_if_ready (pos 2000) "people" none waiting_service).1 ≡ false
unfolding promote_active_checkpoint_if_ready get_latest_materialized_checkpoint_sync get
    readiness_matches_target
waiting_is_not_promoted = refl

-- a new checkpoint 3 over the view of checkpoint 2
abbrev newer_service : EphemeralServiceImpl plain
newer_service = record ready_service {
  latest_committed_checkpoint_id = (none, ("people", "3") ∷ []) ∷ [];
}

view_is_older : view_target newer_service "people" none ≢ some "3"
unfolding get selector_group_key
view_is_older =
    λ e. absurd (ground (arith, (==_iff (view_target newer_service "people" none) (some "3")).1 e))

epochs_are_small :
    unwrap_or 0 (get newer_service.checkpoint_cutover_epochs (selector_group_key "people" none)) + 1
    < u64_mod
unfolding get selector_group_key
epochs_are_small = omega arith

capture-IsNewEpoch_example :
    IsNewEpoch "people" none
      (pos 2000)
      "3"
      newer_service
      (capture_cutover_membership_for_target (pos 2000) "people" none "3" newer_service)
capture-IsNewEpoch_example =
    capture-IsNewEpoch "people" none (pos 2000) "3" newer_service view_is_older epochs_are_small

has_view : get_cutover_membership_view ready_service "people" none ≡ some view
unfolding get selector_group_key
has_view = refl

other_epoch : (activation 0).epoch ≢ view.epoch
other_epoch = λ e. absurd (omega arith)

activation_matches-late_ack_example :
    activation_matches
      (record_serving_node_activation (activation 0) ready_service)
      "people"
      none
      "2"
    ≡ false
activation_matches-late_ack_example =
    activation_matches-late_ack "people" none "2" ready_service view (activation 0) has_view refl
      refl refl other_epoch

abbrev ready_acks : Dict ArtifactClass ArtifactReadinessAck
ready_acks =
    (snapshot_lookup_mmap, readiness snapshot_lookup_mmap)
    ∷ (snapshot_exact_lookup_mmap, readiness snapshot_exact_lookup_mmap)
    ∷ []

acks_found :
    unwrap_or [] (get ready_service.artifact_readiness_acks (selector_group_key "people" none))
    ≡ ready_acks
unfolding get selector_group_key
acks_found = refl

acks_once :
    distinct (
      keys (
        unwrap_or []
          (get ready_service.artifact_readiness_acks (selector_group_key "people" none))))
    ≡ true
unfolding keys get selector_group_key powdrr_engine.Service.Types.class_beq
acks_once = refl

own_class :
    (artifact_class : ArtifactClass) (ack : ArtifactReadinessAck)
    → get ready_acks artifact_class ≡ some ack
    → ack.artifact_class ≡ artifact_class
unfolding get class_beq
own_class snapshot_lookup_mmap ack h = ground arith
own_class snapshot_exact_lookup_mmap ack h = ground arith
own_class search_projection ack h = ground arith
own_class stats_manifest ack h = ground arith
own_class (custom name) ack h = ground arith

acks-HasOwnClass :
    HasOwnClass
      (unwrap_or [] (get ready_service.artifact_readiness_acks (selector_group_key "people" none)))
unfolding HasOwnClass
acks-HasOwnClass = rw (acks_found) own_class

readiness_satisfies_target_lem_example :
    readiness_satisfies_target (list_artifact_readiness ready_service "people" none) (some "2") none
    ≡ readiness_matches_target ready_service "people" none "2"
readiness_satisfies_target_lem_example =
    readiness_satisfies_target_lem ready_service "people" "2" none acks_once acks-HasOwnClass

-- the service starts, a node is there, and the checkpoints are brought up to date
abbrev no_hash : String → String
no_hash text = text

abbrev same_id : ℕ → String
same_id n = "id"

running : EphemeralServiceImpl plain
running =
    (update_all_checkpoints (pos 1200)
      (heartbeat_serving_node (pos 1000) lease (new plain ephemeral_default))).0

running-Reachable : Reachable no_hash same_id ephemeral_default running
unfolding running
running-Reachable = after (after start (heartbeat (pos 1000) lease _)) (update_all (pos 1200) _)

Reachable-IsCoherent_example : IsCoherent running
Reachable-IsCoherent_example = Reachable-IsCoherent no_hash same_id running-Reachable
