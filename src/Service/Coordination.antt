-- ===== src/Service/Coordination.antt =====
-- What read-only nodes are told of a table's cutover: service_lib/src/read_only_coordination.rs, over the
-- operations of `EphemeralServiceImpl`.
pub mod Readiness
use powdrr_engine.Common.{
  ◌&&◌, String, Bool, true, false, Option, none, some, List, [], ◌∷◌, if◌then◌else◌, ◌==◌, all,
  contains, length, is_some, string_eq, nat_eq, option_eq,
}
use powdrr_engine.Common.Int.{ℤ}
use powdrr_engine.Service.Types.{
  PublishedCheckpointSelector, CutoverEpoch, CheckpointCutoverState, ArtifactClass, class_eq,
  ArtifactReadinessAck,
}
use powdrr_engine.Service.State.{Payloads, EphemeralServiceImpl}
use powdrr_engine.Service.Cutover.{
  required_artifact_classes, get_latest_materialized_checkpoint_sync,
}
use powdrr_engine.Service.Publish
use powdrr_engine.Service.Publish.{list_artifact_readiness}

pub data ReadOnlyTargetPhase : Type 0 where
  awaiting_readiness awaiting_activation active : ReadOnlyTargetPhase

pub record ReadOnlyCheckpointCoordinationState : Type 0 where
  pub selector : PublishedCheckpointSelector
  pub epoch : CutoverEpoch
  pub active_checkpoint_id : Option String
  pub target_checkpoint_id : Option String
  pub phase : ReadOnlyTargetPhase
  pub readiness_acks : List ArtifactReadinessAck

-- the classes of the acknowledgements of the target
unfoldable pub ready_classes : List ArtifactReadinessAck → String → List ArtifactClass
ready_classes [] target_checkpoint_id = []
ready_classes (ack ∷ acks) target_checkpoint_id =
    let rest = ready_classes acks target_checkpoint_id in
    if ack.checkpoint_id == target_checkpoint_id then ack.artifact_class ∷ rest else rest

unfoldable pub readiness_satisfies_target :
    List ArtifactReadinessAck → Option String → Option String → Bool
unfolding ready_classes
readiness_satisfies_target readiness_acks none extension = false
readiness_satisfies_target readiness_acks (some target_checkpoint_id) extension =
    let required_classes = required_artifact_classes extension in
    if length required_classes == 0
    then true
    else all (contains (ready_classes readiness_acks target_checkpoint_id)) required_classes

unfoldable pub target_phase :
    CheckpointCutoverState → List ArtifactReadinessAck → ReadOnlyTargetPhase
unfolding readiness_satisfies_target
target_phase state readiness_acks =
    if is_some state.active_checkpoint_id
      && state.active_checkpoint_id == state.target_checkpoint_id
    then active
    else if readiness_satisfies_target readiness_acks state.target_checkpoint_id
        state.selector.extension
    then awaiting_activation
    else awaiting_readiness

module _ {P : Payloads} where
  -- the target that the store reports is replaced by the latest committed checkpoint
  unfoldable pub get_checkpoint_cutover_state :
      ℤ
      → String
      → Option String
      → EphemeralServiceImpl P
      → EphemeralServiceImpl P × CheckpointCutoverState
  get_checkpoint_cutover_state now table_name extension s =
      let (s', state) = Publish.get_checkpoint_cutover_state now table_name extension s in
      (
        s',
        record state {
          target_checkpoint_id =
              get_latest_materialized_checkpoint_sync s' table_name state.selector.extension;
        },
      )

  unfoldable pub get_read_only_coordination_state :
      ℤ
      → String
      → Option String
      → EphemeralServiceImpl P
      → EphemeralServiceImpl P × ReadOnlyCheckpointCoordinationState
  unfolding get_checkpoint_cutover_state target_phase
  get_read_only_coordination_state now table_name extension s =
      let (s', state) = get_checkpoint_cutover_state now table_name extension s in
      let readiness_acks = list_artifact_readiness s' table_name extension in
      (
        s',
        record {
          selector = state.selector;
          epoch = state.epoch;
          active_checkpoint_id = state.active_checkpoint_id;
          target_checkpoint_id = state.target_checkpoint_id;
          phase = target_phase state readiness_acks;
          readiness_acks = readiness_acks;
        },
      )
