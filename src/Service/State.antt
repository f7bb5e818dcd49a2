-- ===== src/Service/State.antt =====
-- The state of `EphemeralServiceImpl` (service_lib/src/ephemeral_service_impl.rs) and the keys of its maps.
use Prim.Native.String.{◌++◌ as append}
use powdrr_engine.Common.{
  ℕ, String, Option, none, some, List, if◌then◌else◌, ◌==◌, unwrap_or, string_eq,
}
use powdrr_engine.Common.Dict.{Dict}
use powdrr_engine.DataContract.Types.{CompactionCommit, ExtensionFile, TableMetadataCheckpoint}
use powdrr_engine.Service.Tables.{TableDescription, TestProcessingMode}
use powdrr_engine.Service.Types.{
  PublishedCheckpointRole, active, target, CheckpointUpdateRequest, CutoverEpoch,
  CutoverMembershipView, ServingNodeLease, ServingNodeActivationAck, ArtifactClass,
  ArtifactReadinessAck, ExtensionWorkItem, CompactionWorkItem, CleanupWorkItem, Tracker,
}

-- The types of what the service stores and returns as it is: JSON values (serde_json), index templates,
-- ingest pipelines and lifetime policies.
pub record Payloads : Type 1 where
  pub Json : Type 0
  pub Template : Type 0
  pub Pipeline : Type 0
  pub Policy : Type 0

-- `ids_issued` is not a field of the struct: it counts the calls of `IdInstance::next_id`, whose ids
-- are those of a sequence that the operations take as a parameter.
pub record EphemeralServiceImpl (P : Payloads) : Type 0 where
  pub ids_issued : ℕ
  pub mode : TestProcessingMode
  pub tables : Dict String TableDescription
  pub table_aliases : Dict String String
  pub table_templates : Dict String P.Template
  pub pipelines : Dict String P.Pipeline
  pub lifetime_policies : Dict String P.Policy
  pub latest_committed_checkpoint_id : Dict (Option String) (Dict String String)
  pub published_checkpoint_id : Dict String String
  pub checkpoint_publication_requests : Dict String CheckpointUpdateRequest
  pub checkpoint_cutover_epochs : Dict String CutoverEpoch
  pub cutover_membership_views : Dict String CutoverMembershipView
  pub serving_node_leases : Dict String ServingNodeLease
  pub serving_node_activations : Dict String (Dict String ServingNodeActivationAck)
  pub artifact_readiness_acks : Dict String (Dict ArtifactClass ArtifactReadinessAck)
  pub compaction_work_items : Dict String (Tracker CompactionWorkItem)
  pub not_compacted_checkpoint_ids : Dict String (List String)
  pub extension_work_items : Dict String (Dict String (Tracker ExtensionWorkItem))
  pub cleanup_work_items : List (Tracker CleanupWorkItem)
  pub compactions : Dict String (String × CompactionCommit)
  pub checkpoints : Dict String (TableMetadataCheckpoint P.Json)
  pub checkpoints_needing_extension_work : Dict String (List String)
  pub recent_file_extension_metadata : Dict String (List ExtensionFile)

infixr 65 ◌+++◌
abbrev pub ◌+++◌ : String → String → String
s +++ t = append s t

unfoldable pub role_key : PublishedCheckpointRole → String
role_key active = "active"
role_key target = "target"

abbrev pub extension_storage_key : Option String → String
extension_storage_key extension = unwrap_or "" extension

unfoldable pub extension_from_storage_key : String → Option String
extension_from_storage_key key = if key == "" then none else some key

unfoldable pub selector_storage_key : PublishedCheckpointRole → String → Option String → String
unfolding role_key
selector_storage_key role table_name extension =
    role_key role +++ "|" +++ extension_storage_key extension +++ "|" +++ table_name

unfoldable pub selector_group_key : String → Option String → String
selector_group_key table_name extension = extension_storage_key extension +++ "|" +++ table_name

unfoldable pub checkpoint_publication_request_key : String → String → String
checkpoint_publication_request_key org_id table_name = org_id +++ "|" +++ table_name

-- the keys `format!("{}_{}", a, b)`
unfoldable pub checkpoint_key : String → String → String
checkpoint_key table_name checkpoint_id = table_name +++ "_" +++ checkpoint_id

abbrev pub default_metadata_namespace : String
default_metadata_namespace = "__powdrr__"

abbrev pub es : Option String
es = some "es"
