-- ===== src/Service/WorkItems/Cleanup.antt =====
-- Cleanup: speedboat and delete files of an active checkpoint are not handed out for deletion, in
-- service_lib/src/ephemeral_service_impl.rs.
use powdrr_engine.Common.{
  ℕ, String, ◌≡◌, ◌⊎◌, refl, Bool, true, false, ◌||◌, Option, none, some, List, [], ◌∷◌, arith, inl,
  inr, Option-cases, any, all, get_elem?, get_elem?-all, contains, option_map, unwrap_or, string_eq,
  ==_iff,
}
use powdrr_engine.Common.Int.{ℤ}
use powdrr_engine.DataContract.Types.{SpeedboatMetadata, DeletesMetadata, TableMetadataCheckpoint}
use powdrr_engine.Service.Types.{active, CleanupWorkItem, Tracker}
use powdrr_engine.Service.State.{Payloads, EphemeralServiceImpl, es}
use powdrr_engine.Service.Cutover.{get_published_checkpoint_sync}
use powdrr_engine.Service.Commit.Handlers.{get_checkpoint_sync}
use powdrr_engine.Service.WorkItems.{
  claim_listed, checkpoint_references_any_cleanup_file, active_checkpoint_allows,
  cleanup_work_item_is_ready, get_cleanup_work_items,
}

-- the speedboat files and the delete files of a checkpoint
abbrev pub uses_file : {V : Type 0} → TableMetadataCheckpoint V → String → Bool
uses_file checkpoint file =
    contains
      (unwrap_or []
        (option_map (λ (m : SpeedboatMetadata). m.files.file_paths) checkpoint.speedboat_metadata))
      file
    || contains
        (unwrap_or [] (option_map (λ (m : DeletesMetadata). m.files) checkpoint.deletes_metadata))
        file

any_common :
    (xs ys : List String) (file : String)
    → any (contains ys) xs ≡ false
    → contains ys file ≡ true
    → contains xs file ≡ false
any_common [] ys file h c = refl
any_common (x ∷ xs) ys file h c = ground (arith, any_common xs ys file, ==_iff x file)

no_reference :
    {V : Type 0} (checkpoint : TableMetadataCheckpoint V) (files : List String) (file : String)
    → checkpoint_references_any_cleanup_file checkpoint files ≡ false
    → contains files file ≡ true
    → uses_file checkpoint file ≡ false
unfolding checkpoint_references_any_cleanup_file
no_reference checkpoint files file h c = elim (Option-cases checkpoint.speedboat_metadata) [
  | inl s ↦ elim (Option-cases checkpoint.deletes_metadata) [
    | inl d ↦ ground arith
    | inr (deletes, d) ↦ ground (arith, any_common deletes.files files file)
  ]
  | inr (speedboat, s) ↦ elim (Option-cases checkpoint.deletes_metadata) [
    | inl d ↦ ground (arith, any_common speedboat.files.file_paths files file)
    | inr (deletes, d) ↦ ground (
      arith,
      any_common speedboat.files.file_paths files file,
      any_common deletes.files files file,
    )
  ]
]

claimed_ready :
    {Item : Type 0} (ready : Item → Bool) (now : ℤ) (trackers : List (Tracker Item))
    → all ready (claim_listed ready now trackers).0 ≡ true
unfolding claim_listed
claimed_ready ready now [] = refl
claimed_ready ready now (tracker ∷ trackers) = ground (arith, claimed_ready ready now trackers)

module _ {P : Payloads} where
  -- No cleanup item is handed out that would delete a speedboat file or a delete file of an active
  -- checkpoint of its table, of the table itself or of its "es" extension. The iceberg files and the
  -- extension files of those checkpoints are not looked at.
  pub get_cleanup_work_items_lem :
      (now : ℤ) (s : EphemeralServiceImpl P) (i : ℕ) (item : CleanupWorkItem) (file : String)
      (extension : Option String) (id : String) (checkpoint : TableMetadataCheckpoint P.Json)
      → get_elem? (get_cleanup_work_items now s).0 i ≡ some item
      → contains item.files_to_delete file ≡ true
      → (extension ≡ none) ⊎ (extension ≡ es)
      → get_published_checkpoint_sync s active item.table_name extension ≡ some id
      → get_checkpoint_sync s item.table_name id ≡ some checkpoint
      → uses_file checkpoint file ≡ false
  unfolding get_cleanup_work_items cleanup_work_item_is_ready active_checkpoint_allows
  get_cleanup_work_items_lem now s i item file extension id checkpoint h c x p k =
      let ready : cleanup_work_item_is_ready s item ≡ true =
        get_elem?-all (cleanup_work_item_is_ready s)
          (claim_listed (cleanup_work_item_is_ready s) now s.cleanup_work_items).0 i
          (claimed_ready (cleanup_work_item_is_ready s) now s.cleanup_work_items) h in
      let allowed : active_checkpoint_allows s item extension ≡ true = elim x [
        | inl e ↦ rw (e) (ground arith)
        | inr e ↦ rw (e) (ground arith)
      ] in
      no_reference checkpoint item.files_to_delete file
        (ground (arith, rw (p, k, active_checkpoint_allows) at allowed)) c
