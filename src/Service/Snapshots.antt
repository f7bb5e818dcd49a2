-- ===== src/Service/Snapshots.antt =====
-- Snapshots of the state of `EphemeralServiceImpl`, service_lib/src/ephemeral_service_impl.rs. The map of
-- latest checkpoints is written under texts in place of optional texts.
pub mod RoundTrip
pub mod Reached
use powdrr_engine.Common.{
  ℕ, String, ◌≡◌, ◌≢◌, refl, sym, ap, ◌∙◌, true, false, Option, none, some, List, [], ◌∷◌, ◌++◌,
  map, ◌==◌, string_eq, option_eq, contains, distinct, contains-append, Eq, arith,
}
use mathlib.Core.List.{append-nil, append_assoc}
use powdrr_engine.Common.Dict.{Dict, insert, keys}
use powdrr_engine.DataContract.Types.{CompactionCommit, ExtensionFile, TableMetadataCheckpoint}
use powdrr_engine.Service.Tables.{TableDescription, TestProcessingMode}
use powdrr_engine.Service.Types.{
  CheckpointUpdateRequest, CutoverEpoch, CutoverMembershipView, ServingNodeLease,
  ServingNodeActivationAck, ArtifactClass, ArtifactReadinessAck, ExtensionWorkItem,
  CompactionWorkItem, CleanupWorkItem, Tracker,
}
use powdrr_engine.Service.State.{
  Payloads, EphemeralServiceImpl, extension_storage_key, extension_from_storage_key,
}

pub record EphemeralServiceSnapshot (P : Payloads) : Type 0 where
  pub tables : Dict String TableDescription
  pub table_aliases : Dict String String
  pub table_templates : Dict String P.Template
  pub pipelines : Dict String P.Pipeline
  pub lifetime_policies : Dict String P.Policy
  pub latest_committed_checkpoint_id : Dict String (Dict String String)
  pub published_checkpoint_id : Dict String String
  pub checkpoint_publication_requests : Dict String CheckpointUpdateRequest
  pub checkpoint_cutover_epochs : Dict String CutoverEpoch
  pub cutover_membership_views : Dict String CutoverMembershipView
  pub serving_node_leases : Dict String ServingNodeLease
  pub serving_node_activations : Dict String (Dict String ServingNodeActivationAck)
  pub artifact_readiness_acks : Dict String (Dict ArtifactClass ArtifactReadinessAck)
  pub compaction_work_items : Dict String (Tracker CompactionWorkItem)
  pub not_compacted_checkpoint_ids : Dict String (List String)
  pub extension_work_items : Dict String (Dict String (Tracker ExtensionWorkItem))
  pub cleanup_work_items : List (Tracker CleanupWorkItem)
  pub compactions : Dict String (String × CompactionCommit)
  pub checkpoints : Dict String (TableMetadataCheckpoint P.Json)
  pub checkpoints_needing_extension_work : Dict String (List String)
  pub recent_file_extension_metadata : Dict String (List ExtensionFile)

-- `collect` into a map: the entries are inserted one after the other
unfoldable pub collect_onto {ℓ κ} :
    {K : Type ℓ} {V : Type κ} ⦃e : Eq K⦄ → Dict K V → List (K × V) → Dict K V
collect_onto made [] = made
collect_onto made ((k, v) ∷ entries) = collect_onto (insert k v made) entries

abbrev pub map_keys {ℓ κ ι} :
    {K : Type ℓ} {L : Type κ} {V : Type ι} → (K → L) → List (K × V) → List (L × V)
map_keys f [] = []
map_keys f ((k, v) ∷ entries) = (f k, v) ∷ map_keys f entries

unfoldable pub serialize_latest_committed_checkpoint_id :
    Dict (Option String) (Dict String String) → Dict String (Dict String String)
serialize_latest_committed_checkpoint_id latest =
    collect_onto [] (map_keys extension_storage_key latest)

unfoldable pub deserialize_latest_committed_checkpoint_id :
    Dict String (Dict String String) → Dict (Option String) (Dict String String)
deserialize_latest_committed_checkpoint_id serialized =
    collect_onto [] (map_keys extension_from_storage_key serialized)

-- a service without extension work items starts with those of "es"
abbrev pub or_es : {V : Type 0} → Dict String (Dict String V) → Dict String (Dict String V)
or_es [] = ("es", []) ∷ []
or_es (entry ∷ entries) = entry ∷ entries

module _ {P : Payloads} where
  unfoldable pub snapshot_state : EphemeralServiceImpl P → EphemeralServiceSnapshot P
  snapshot_state s = record {
    tables = s.tables;
    table_aliases = s.table_aliases;
    table_templates = s.table_templates;
    pipelines = s.pipelines;
    lifetime_policies = s.lifetime_policies;
    latest_committed_checkpoint_id =
        serialize_latest_committed_checkpoint_id s.latest_committed_checkpoint_id;
    published_checkpoint_id = s.published_checkpoint_id;
    checkpoint_publication_requests = s.checkpoint_publication_requests;
    checkpoint_cutover_epochs = s.checkpoint_cutover_epochs;
    cutover_membership_views = s.cutover_membership_views;
    serving_node_leases = s.serving_node_leases;
    serving_node_activations = s.serving_node_activations;
    artifact_readiness_acks = s.artifact_readiness_acks;
    compaction_work_items = s.compaction_work_items;
    not_compacted_checkpoint_ids = s.not_compacted_checkpoint_ids;
    extension_work_items = s.extension_work_items;
    cleanup_work_items = s.cleanup_work_items;
    compactions = s.compactions;
    checkpoints = s.checkpoints;
    checkpoints_needing_extension_work = s.checkpoints_needing_extension_work;
    recent_file_extension_metadata = s.recent_file_extension_metadata;
  }

  -- the count of the ids that were issued is no part of a snapshot
  unfoldable pub from_snapshot :
      ℕ → TestProcessingMode → EphemeralServiceSnapshot P → EphemeralServiceImpl P
  from_snapshot ids_issued mode snapshot = record {
    ids_issued = ids_issued;
    mode = mode;
    tables = snapshot.tables;
    table_aliases = snapshot.table_aliases;
    table_templates = snapshot.table_templates;
    pipelines = snapshot.pipelines;
    lifetime_policies = snapshot.lifetime_policies;
    latest_committed_checkpoint_id =
        deserialize_latest_committed_checkpoint_id snapshot.latest_committed_checkpoint_id;
    published_checkpoint_id = snapshot.published_checkpoint_id;
    checkpoint_publication_requests = snapshot.checkpoint_publication_requests;
    checkpoint_cutover_epochs = snapshot.checkpoint_cutover_epochs;
    cutover_membership_views = snapshot.cutover_membership_views;
    serving_node_leases = snapshot.serving_node_leases;
    serving_node_activations = snapshot.serving_node_activations;
    artifact_readiness_acks = snapshot.artifact_readiness_acks;
    compaction_work_items = snapshot.compaction_work_items;
    not_compacted_checkpoint_ids = snapshot.not_compacted_checkpoint_ids;
    extension_work_items = or_es snapshot.extension_work_items;
    cleanup_work_items = snapshot.cleanup_work_items;
    compactions = snapshot.compactions;
    checkpoints = snapshot.checkpoints;
    checkpoints_needing_extension_work = snapshot.checkpoints_needing_extension_work;
    recent_file_extension_metadata = snapshot.recent_file_extension_metadata;
  }

  abbrev pub empty_snapshot : EphemeralServiceSnapshot P
  empty_snapshot = record {
    tables = [];
    table_aliases = [];
    table_templates = [];
    pipelines = [];
    lifetime_policies = [];
    latest_committed_checkpoint_id = [];
    published_checkpoint_id = [];
    checkpoint_publication_requests = [];
    checkpoint_cutover_epochs = [];
    cutover_membership_views = [];
    serving_node_leases = [];
    serving_node_activations = [];
    artifact_readiness_acks = [];
    compaction_work_items = [];
    not_compacted_checkpoint_ids = [];
    extension_work_items = [];
    cleanup_work_items = [];
    compactions = [];
    checkpoints = [];
    checkpoints_needing_extension_work = [];
    recent_file_extension_metadata = [];
  }

unfoldable pub new : (P : Payloads) → TestProcessingMode → EphemeralServiceImpl P
new P mode = from_snapshot 0 mode empty_snapshot
