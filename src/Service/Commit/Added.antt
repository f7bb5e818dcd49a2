-- ===== src/Service/Commit/Added.antt =====
-- What `add_checkpoint` of service_lib/src/ephemeral_service_impl.rs changes and leaves as it is.
use powdrr_engine.Common.{
  ◌≡◌, refl, arith, inl, inr, Bool-cases, Option-cases, ℕ, String, none, some, List, [], ◌∷◌, ltb,
  length, string_eq, nat_eq, false, option_eq,
}
use powdrr_engine.Common.Dict.{Dict, keys}
use powdrr_engine.DataContract.Types.{TableMetadataCheckpoint}
use powdrr_engine.Service.State.{Payloads, EphemeralServiceImpl}
use powdrr_engine.Service.Publish.{queue_publication_request}
use powdrr_engine.Service.Commit.{
  iceberg_files_of, speedboat_files_of, set_latest_committed_checkpoint_id,
  fill_extension_work_item,
}
use powdrr_engine.Service.Commit.Operations.{
  no_files, with_checkpoint, set_latest_for_extensions, add_checkpoint,
}
use powdrr_engine.Service.Commit.Frames.{KeepsWork, fill-IsFrame}

keys-no_entries : {V : Type 0} (m : Dict String V) → ltb 0 (length m) ≡ false → keys m ≡ []
unfolding keys
keys-no_entries [] h = refl
keys-no_entries (entry ∷ m) h = absurd (ground arith)

module _ {P : Payloads} where
  -- The latest checkpoints are those that `add_checkpoint` sets, and the cutovers are as they were.
  pub record IsAdded (metadata : TableMetadataCheckpoint P.Json) (s s' : EphemeralServiceImpl P)
      : Type 0 where
    pub latest :
        s'.latest_committed_checkpoint_id
        ≡ (set_latest_for_extensions
            (keys metadata.extension_metadata)
            metadata.table_name
            metadata.checkpoint_id
            (set_latest_committed_checkpoint_id none metadata.table_name metadata.checkpoint_id
              s)).latest_committed_checkpoint_id
    pub views : s'.cutover_membership_views ≡ s.cutover_membership_views
    pub epochs : s'.checkpoint_cutover_epochs ≡ s.checkpoint_cutover_epochs
    pub work : KeepsWork s.extension_work_items s'.extension_work_items

  -- s' is s but for the latest checkpoints of `latest`
  record HasLatest (latest s s' : EphemeralServiceImpl P) : Type 0 where
    same_latest : s'.latest_committed_checkpoint_id ≡ latest.latest_committed_checkpoint_id
    same_views : s'.cutover_membership_views ≡ s.cutover_membership_views
    same_epochs : s'.checkpoint_cutover_epochs ≡ s.checkpoint_cutover_epochs
    same_items : s'.extension_work_items ≡ s.extension_work_items

  set_latest_for_extensions-HasLatest :
      (extensions : List String) (table_name id : String) (s t : EphemeralServiceImpl P)
      → t.latest_committed_checkpoint_id ≡ s.latest_committed_checkpoint_id
      → HasLatest
          (set_latest_for_extensions extensions table_name id s)
          t
          (set_latest_for_extensions extensions table_name id t)
  unfolding set_latest_committed_checkpoint_id
  set_latest_for_extensions-HasLatest [] table_name id s t same = record {
    same_latest = same;
    same_views = refl;
    same_epochs = refl;
    same_items = refl;
  }
  set_latest_for_extensions-HasLatest (extension ∷ extensions) table_name id s t same =
      let h =
        set_latest_for_extensions-HasLatest extensions table_name id
          (set_latest_committed_checkpoint_id (some extension) table_name id s)
          (set_latest_committed_checkpoint_id (some extension) table_name id t) (rw (same) refl) in
      record {
        same_latest = h.same_latest;
        same_views = h.same_views;
        same_epochs = h.same_epochs;
        same_items = h.same_items;
      }

  pub add_checkpoint-IsAdded :
      (ids : ℕ → String) (metadata : TableMetadataCheckpoint P.Json) (s s' : EphemeralServiceImpl P)
      → add_checkpoint ids metadata s ≡ some s'
      → IsAdded metadata s s'
  unfolding add_checkpoint queue_publication_request set_latest_committed_checkpoint_id
  add_checkpoint-IsAdded ids metadata s s' h =
      let t =
        set_latest_committed_checkpoint_id none metadata.table_name metadata.checkpoint_id
          (with_checkpoint metadata s) in
      elim (Bool-cases (ltb 0 (length metadata.extension_metadata))) [
        | inl extended ↦
            let k =
              set_latest_for_extensions-HasLatest (keys metadata.extension_metadata)
                metadata.table_name metadata.checkpoint_id
                (set_latest_committed_checkpoint_id none metadata.table_name metadata.checkpoint_id
                  s)
                t refl in
            record {
              latest = ground (arith, k.same_latest);
              views = ground (arith, k.same_views);
              epochs = ground (arith, k.same_epochs);
              work = λ name w. ground (arith, k.same_items);
            }
        | inr bare ↦
            elim (Option-cases (
              fill_extension_work_item ids metadata.table_name "es" metadata.checkpoint_id
                metadata.schema (no_files (speedboat_files_of metadata))
                (no_files (iceberg_files_of metadata)) t)) [
                  | inl n ↦ absurd (ground arith)
                  | inr (filled, e) ↦
                      let f = fill-IsFrame _ _ _ _ _ _ _ t filled e in
                      record {
                        latest =
                            rw (keys-no_entries metadata.extension_metadata bare)
                              (ground (arith, f.same_latest));
                        views = ground (arith, f.same_views);
                        epochs = ground (arith, f.same_epochs);
                        work = λ name w. ground (arith, f.keeps_work name w);
                      }
                ]
      ]
