-- ===== src/Service/WorkItems.antt =====
-- The work items that `EphemeralServiceImpl` (service_lib/src/ephemeral_service_impl.rs) hands out, each
-- under a lease. `now` is the clock of the operation, in milliseconds.
pub mod Leases
pub mod Cleanup
use powdrr_engine.Common.{
  String, Bool, true, false, ◌&&◌, ◌||◌, not, Option, none, some, List, [], ◌∷◌, if◌then◌else◌,
  ◌==◌, any, contains, option_map, unwrap_or, string_eq,
}
use powdrr_engine.Common.Int.{ℤ}
use powdrr_engine.Common.Dict.{Dict, get, insert, values}
use powdrr_engine.DataContract.Types.{SpeedboatMetadata, DeletesMetadata, TableMetadataCheckpoint}
use powdrr_engine.Service.Types.{
  PublishedCheckpointRole, active, ExtensionWorkItem, has_work, CompactionWorkItem, CleanupWorkItem,
  Tracker,
}
use powdrr_engine.Service.State.{Payloads, EphemeralServiceImpl, es}
use powdrr_engine.Service.Cutover.{
  lease_is_available, claim_lease_expires_at_ms, get_published_checkpoint_sync,
}
use powdrr_engine.Service.Commit.Handlers.{get_checkpoint_sync}

module _ {Item : Type 0} where
  abbrev pub claim : ℤ → Tracker Item → Tracker Item
  claim now tracker = record tracker { lease_expires_at_ms = some (claim_lease_expires_at_ms now) }

  -- the loop over the trackers: those that are ready and not under a lease are handed out and leased
  unfoldable pub claim_available :
      {K : Type 0} → (Item → Bool) → ℤ → Dict K (Tracker Item) → Dict K Item × Dict K (Tracker Item)
  unfolding claim_lease_expires_at_ms
  claim_available ready now [] = ([], [])
  claim_available ready now ((k, tracker) ∷ trackers) =
      let rest = claim_available ready now trackers in
      if ready tracker.work_item && lease_is_available now tracker.lease_expires_at_ms
      then ((k, tracker.work_item) ∷ rest.0, (k, claim now tracker) ∷ rest.1)
      else (rest.0, (k, tracker) ∷ rest.1)

  -- the same over a list
  unfoldable pub claim_listed :
      (Item → Bool) → ℤ → List (Tracker Item) → List Item × List (Tracker Item)
  unfolding claim_lease_expires_at_ms
  claim_listed ready now [] = ([], [])
  claim_listed ready now (tracker ∷ trackers) =
      let rest = claim_listed ready now trackers in
      if ready tracker.work_item && lease_is_available now tracker.lease_expires_at_ms
      then (tracker.work_item ∷ rest.0, claim now tracker ∷ rest.1)
      else (rest.0, tracker ∷ rest.1)

abbrev pub always_ready : CompactionWorkItem → Bool
always_ready item = true

unfoldable pub checkpoint_references_any_cleanup_file :
    {V : Type 0} → TableMetadataCheckpoint V → List String → Bool
checkpoint_references_any_cleanup_file checkpoint files_to_delete =
    unwrap_or false (
      option_map
        (λ (metadata : SpeedboatMetadata). any (contains files_to_delete) metadata.files.file_paths)
        checkpoint.speedboat_metadata)
    || unwrap_or false (
        option_map (λ (metadata : DeletesMetadata). any (contains files_to_delete) metadata.files)
          checkpoint.deletes_metadata)

module _ {P : Payloads} where
  unfoldable pub get_extension_work_items :
      ℤ → String → EphemeralServiceImpl P → List ExtensionWorkItem × EphemeralServiceImpl P
  unfolding claim_available
  get_extension_work_items now extension_type s =
      if extension_type == "es"
      then (elim (get s.extension_work_items extension_type) [
        | none ↦ ([], s)
        | some items ↦
            let (collected, leased) = claim_available has_work now items in
            (
              values collected,
              record s {
                extension_work_items = insert extension_type leased s.extension_work_items;
              },
            )
      ])
      else ([], s)

  unfoldable pub get_compaction_work_items :
      ℤ → EphemeralServiceImpl P → Dict String CompactionWorkItem × EphemeralServiceImpl P
  unfolding claim_available
  get_compaction_work_items now s =
      let (work_items, leased) = claim_available always_ready now s.compaction_work_items in
      (work_items, record s { compaction_work_items = leased })

  -- the test of one extension, in the loop of `cleanup_work_item_is_ready`
  unfoldable pub active_checkpoint_allows :
      EphemeralServiceImpl P → CleanupWorkItem → Option String → Bool
  active_checkpoint_allows s work_item extension =
      elim (get_published_checkpoint_sync s active work_item.table_name extension) [
        | none ↦ true
        | some checkpoint_id ↦ elim (get_checkpoint_sync s work_item.table_name checkpoint_id) [
          | none ↦ true
          | some checkpoint ↦
              not (checkpoint_references_any_cleanup_file checkpoint work_item.files_to_delete)
        ]
      ]

  unfoldable pub cleanup_work_item_is_ready : EphemeralServiceImpl P → CleanupWorkItem → Bool
  cleanup_work_item_is_ready s work_item =
      active_checkpoint_allows s work_item none && active_checkpoint_allows s work_item es

  unfoldable pub get_cleanup_work_items :
      ℤ → EphemeralServiceImpl P → List CleanupWorkItem × EphemeralServiceImpl P
  unfolding claim_listed
  get_cleanup_work_items now s =
      let (work_items, leased) =
        claim_listed (cleanup_work_item_is_ready s) now s.cleanup_work_items in
      (work_items, record s { cleanup_work_items = leased })
