-- ===== src/Service/Types.antt =====
-- The selectors, epochs, leases and acknowledgements of service_lib/src/metadata_store.rs and
-- service_lib/src/read_only_coordination.rs, and the work items of control_plane/src/data_contract.rs.
use powdrr_engine.Common.{
  ℕ, String, ◌≡◌, ◌↔◌, Bool, true, false, Option, List, arith, Eq, ◌==◌, ==_iff, string_eq, ltb,
  ◌||◌,
}
use powdrr_engine.Common.Int.{ℤ}
use powdrr_engine.DataContract.Schema.{PowdrrSchema}
use powdrr_engine.DataContract.FileSet
use powdrr_engine.DataContract.FileSet.{FileSetPayload}

pub data PublishedCheckpointRole : Type 0 where
  active target : PublishedCheckpointRole

pub record PublishedCheckpointSelector : Type 0 where
  pub table_name : String
  pub extension : Option String
  pub role : PublishedCheckpointRole

pub record PublishedCheckpointRecord : Type 0 where
  pub selector : PublishedCheckpointSelector
  pub checkpoint_id : String

-- `CutoverEpoch`, a `u64`
abbrev pub CutoverEpoch : Type 0
CutoverEpoch = ℕ

pub record CheckpointCutoverState : Type 0 where
  pub selector : PublishedCheckpointSelector
  pub epoch : CutoverEpoch
  pub active_checkpoint_id : Option String
  pub target_checkpoint_id : Option String

pub record ServingNodeLease : Type 0 where
  pub node_id : String
  pub membership_epoch : CutoverEpoch
  pub observed_at_ms : ℤ

pub record ServingNodeActivationAck : Type 0 where
  pub selector : PublishedCheckpointSelector
  pub node_id : String
  pub epoch : CutoverEpoch
  pub checkpoint_id : String
  pub activated_at_ms : ℤ

pub record CutoverMembershipView : Type 0 where
  pub selector : PublishedCheckpointSelector
  pub epoch : CutoverEpoch
  pub target_checkpoint_id : String
  pub required_node_ids : List String

pub record CheckpointCutoverRequest : Type 0 where
  pub selector : PublishedCheckpointSelector
  pub target_checkpoint_id : String

pub record CheckpointUpdateRequest : Type 0 where
  pub table_name : String

pub data ArtifactClass : Type 0 where
  snapshot_lookup_mmap snapshot_exact_lookup_mmap search_projection stats_manifest : ArtifactClass
  custom : String → ArtifactClass

unfoldable pub class_beq : ArtifactClass → ArtifactClass → Bool
class_beq snapshot_lookup_mmap snapshot_lookup_mmap = true
class_beq snapshot_exact_lookup_mmap snapshot_exact_lookup_mmap = true
class_beq search_projection search_projection = true
class_beq stats_manifest stats_manifest = true
class_beq (custom a) (custom b) = a == b
class_beq _ _ = false

pub class-beq_lem : (a b : ArtifactClass) → (class_beq a b ≡ true) ↔ (a ≡ b)
unfolding class_beq
class-beq_lem (custom a) (custom b) = ground (arith, ==_iff a b)
class-beq_lem _ _ = ground arith

instance abbrev pub class_eq : Eq ArtifactClass
class_eq = record { same = class_beq; same_iff = class-beq_lem }

pub record ArtifactReadinessAck : Type 0 where
  pub selector : PublishedCheckpointSelector
  pub checkpoint_id : String
  pub epoch : CutoverEpoch
  pub artifact_class : ArtifactClass
  pub producer_id : String
  pub ready_at_ms : ℤ

pub record ExtensionWorkItem : Type 0 where
  pub id : String
  pub extension_type : String
  pub table_name : String
  pub checkpoint_id : Option String
  pub table_schema : PowdrrSchema
  pub speedboat_files : FileSetPayload
  pub iceberg_files : FileSetPayload

unfoldable pub has_work : ExtensionWorkItem → Bool
has_work item = ltb 0 (FileSet.len item.speedboat_files) || ltb 0 (FileSet.len item.iceberg_files)

pub record CompactionWorkItem : Type 0 where
  pub id : String
  pub table_schema : PowdrrSchema
  pub speedboat_files : FileSetPayload
  pub delete_files : List String
  pub checkpoint_id_to_replace : String
  pub checkpoints_to_delete : List String

pub record CleanupWorkItem : Type 0 where
  pub id : String
  pub table_name : String
  pub files_to_delete : List String

-- A work item and the time until which it is leased: the three `WorkItemTracker` structs.
pub record Tracker (Item : Type 0) : Type 0 where
  pub work_item : Item
  pub lease_expires_at_ms : Option ℤ
