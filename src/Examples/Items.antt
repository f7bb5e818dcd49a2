-- ===== src/Examples/Items.antt =====
-- Runs of work items and of the catalog, service_lib/src/ephemeral_service_impl.rs.
use powdrr_engine.Common.{
  ℕ, zero, String, ◌≡◌, ◌≢◌, ◌⊎◌, refl, Bool, true, false, Option, none, some, List, [], ◌∷◌, arith,
  inl, inr, if◌then◌else◌, ◌==◌, ==_iff, contains, distinct, get_elem?, string_eq,
}
use powdrr_engine.Common.Int.{pos, leb_ℤ}
use powdrr_engine.Common.Dict.{Dict, get, keys, contains_key}
use powdrr_engine.DataContract.Schema.{nil}
use powdrr_engine.Service.Types.{active, CompactionWorkItem, CleanupWorkItem}
use powdrr_engine.Service.State.{EphemeralServiceImpl}
use powdrr_engine.Service.Cutover.{
  real_table_name, claim_lease_expires_at_ms, get_published_checkpoint_sync,
}
use powdrr_engine.Service.Catalog.{create_pipeline}
use powdrr_engine.Service.Commit.Handlers.{get_checkpoint_sync}
use powdrr_engine.Service.WorkItems.{get_compaction_work_items, get_cleanup_work_items}
use powdrr_engine.Service.WorkItems.Leases.{get_compaction-get_compaction}
use powdrr_engine.Service.WorkItems.Cleanup.{uses_file, get_cleanup_work_items_lem}
use powdrr_engine.Examples.Cutovers.{plain, empty_service}
use powdrr_engine.Examples.Commits.{first_checkpoint, two_payload}

abbrev compaction_item : CompactionWorkItem
compaction_item = record {
  id = "5";
  table_schema = nil;
  speedboat_files = two_payload;
  delete_files = [];
  checkpoint_id_to_replace = "1";
  checkpoints_to_delete = [];
}

abbrev compacting : EphemeralServiceImpl plain
compacting = record empty_service {
  compaction_work_items =
      ("people", record { work_item = compaction_item; lease_expires_at_ms = none }) ∷ [];
}

one_item : distinct (keys compacting.compaction_work_items) ≡ true
unfolding keys
one_item = refl

is_handed_out : contains_key (get_compaction_work_items (pos 1000) compacting).0 "people" ≡ true
unfolding get_compaction_work_items contains_key get
    powdrr_engine.Service.Cutover.lease_is_available
is_handed_out = refl

get_compaction-get_compaction_example :
    contains_key
      (get_compaction_work_items (pos 2000) (get_compaction_work_items (pos 1000) compacting).1).0
      "people"
    ≡ leb_ℤ (claim_lease_expires_at_ms (pos 1000)) (pos 2000)
get_compaction-get_compaction_example =
    get_compaction-get_compaction (pos 1000) (pos 2000) compacting "people" one_item is_handed_out

abbrev cleanup_item : CleanupWorkItem
cleanup_item = record { id = "8"; table_name = "people"; files_to_delete = "old.json" ∷ [] }

abbrev cleaning : EphemeralServiceImpl plain
cleaning = record empty_service {
  published_checkpoint_id = ("active||people", "1") ∷ [];
  checkpoints = ("people_1", first_checkpoint) ∷ [];
  cleanup_work_items = record { work_item = cleanup_item; lease_expires_at_ms = none } ∷ [];
}

cleanup_is_handed_out :
    get_elem? (get_cleanup_work_items (pos 1000) cleaning).0 0 ≡ some cleanup_item
unfolding get_cleanup_work_items powdrr_engine.Service.WorkItems.cleanup_work_item_is_ready
    powdrr_engine.Service.WorkItems.active_checkpoint_allows get
    powdrr_engine.Service.State.selector_storage_key get_checkpoint_sync
    powdrr_engine.Service.State.checkpoint_key
    powdrr_engine.Service.WorkItems.checkpoint_references_any_cleanup_file
    powdrr_engine.Service.Cutover.lease_is_available
cleanup_is_handed_out = refl

is_active : get_published_checkpoint_sync cleaning active "people" none ≡ some "1"
unfolding get powdrr_engine.Service.State.selector_storage_key
is_active = refl

is_stored : get_checkpoint_sync cleaning "people" "1" ≡ some first_checkpoint
unfolding get get_checkpoint_sync powdrr_engine.Service.State.checkpoint_key
is_stored = refl

get_cleanup_work_items_lem_example : uses_file first_checkpoint "old.json" ≡ false
get_cleanup_work_items_lem_example =
    get_cleanup_work_items_lem (pos 1000) cleaning 0 cleanup_item "old.json" none "1"
      first_checkpoint cleanup_is_handed_out refl (inl refl) is_active is_stored

abbrev upper : String
upper = "upper"

other_name : upper ≢ "lower"
other_name = λ e. absurd (ground (arith, (==_iff upper "lower").1 e))

abbrev with_pipeline : EphemeralServiceImpl plain
with_pipeline = record empty_service { pipelines = ("lower", "lowercase") ∷ [] }

is_created : create_pipeline "lower" "lowercase" empty_service ≡ some with_pipeline
unfolding create_pipeline get powdrr_engine.Common.Dict.insert
is_created = refl
