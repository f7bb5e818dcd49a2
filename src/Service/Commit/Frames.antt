-- ===== src/Service/Commit/Frames.antt =====
-- What the steps of a commit leave as it is, in service_lib/src/ephemeral_service_impl.rs.
use powdrr_engine.Common.{
  is_some, true, ◌≡◌, refl, ◌∙◌, arith, inl, inr, Bool-cases, Option-cases, ℕ, String, ◌&&◌, Option,
  none, some, List, [], ◌∷◌, ◌==◌, string_eq, nat_eq, option_eq,
}
use powdrr_engine.Common.Dict.{Dict, get, insert, get-insert}
use powdrr_engine.DataContract.Schema.{PowdrrSchema}
use powdrr_engine.DataContract.FileSet
use powdrr_engine.DataContract.FileSet.{FileSetPayload, FileDescriptor, as_file_tuples}
use powdrr_engine.DataContract.Types.{TableMetadataCheckpoint}
use powdrr_engine.DataContract.Checkpoint.{retain_current_extension_metadata}
use powdrr_engine.Service.Types.{ExtensionWorkItem, CleanupWorkItem, Tracker}
use powdrr_engine.Service.State.{Payloads, EphemeralServiceImpl}
use powdrr_engine.Service.Publish.{queue_publication_request}
use powdrr_engine.Service.Commit.{
  next_id, try_fill_checkpoint_extension_metadata, updated_work_item, fill_extension_work_item,
}
use powdrr_engine.Service.Commit.Handlers.{maybe_create_compaction_work_item}
use powdrr_engine.Service.Commit.Operations.{clean_compactions, replace_and_delete_checkpoints}

-- Only the extension metadata may differ.
pub record IsFilled {V : Type 0} (c c' : TableMetadataCheckpoint V) : Type 0 where
  pub same_id : c'.checkpoint_id ≡ c.checkpoint_id
  pub same_table : c'.table_name ≡ c.table_name
  pub same_iceberg : c'.iceberg_metadata ≡ c.iceberg_metadata
  pub same_speedboat : c'.speedboat_metadata ≡ c.speedboat_metadata
  pub same_deletes : c'.deletes_metadata ≡ c.deletes_metadata
  pub same_schema : c'.schema ≡ c.schema

-- Each extension that has a map of work items keeps one.
abbrev pub KeepsWork : {V : Type 0} → Dict String V → Dict String V → Type 0
KeepsWork m m' = (name : String) → is_some (get m name) ≡ true → is_some (get m' name) ≡ true

module _ {P : Payloads} where
  -- The checkpoints, the latest ones, the aliases and the cutovers are as they were.
  pub record IsFrame (s s' : EphemeralServiceImpl P) : Type 0 where
    pub same_checkpoints : s'.checkpoints ≡ s.checkpoints
    pub same_latest : s'.latest_committed_checkpoint_id ≡ s.latest_committed_checkpoint_id
    pub same_aliases : s'.table_aliases ≡ s.table_aliases
    pub same_published : s'.published_checkpoint_id ≡ s.published_checkpoint_id
    pub same_views : s'.cutover_membership_views ≡ s.cutover_membership_views
    pub same_epochs : s'.checkpoint_cutover_epochs ≡ s.checkpoint_cutover_epochs
    pub keeps_work : KeepsWork s.extension_work_items s'.extension_work_items

  abbrev pub refl_frame : (s : EphemeralServiceImpl P) → IsFrame s s
  refl_frame s = record {
    same_checkpoints = refl;
    same_latest = refl;
    same_aliases = refl;
    same_published = refl;
    same_views = refl;
    same_epochs = refl;
    keeps_work = λ name w. w;
  }

  pub trans_frame : (s t u : EphemeralServiceImpl P) → IsFrame s t → IsFrame t u → IsFrame s u
  trans_frame s t u f g = record {
    same_checkpoints = g.same_checkpoints ∙ f.same_checkpoints;
    same_latest = g.same_latest ∙ f.same_latest;
    same_aliases = g.same_aliases ∙ f.same_aliases;
    same_published = g.same_published ∙ f.same_published;
    same_views = g.same_views ∙ f.same_views;
    same_epochs = g.same_epochs ∙ f.same_epochs;
    keeps_work = λ name w. g.keeps_work name (f.keeps_work name w);
  }

  pub try_fill-IsFilled :
      (s : EphemeralServiceImpl P) (extension_name : String) (c : TableMetadataCheckpoint P.Json)
      (r : TableMetadataCheckpoint P.Json × (FileSetPayload × FileSetPayload))
      → try_fill_checkpoint_extension_metadata s extension_name c ≡ some r
      → IsFilled c r.0
  unfolding try_fill_checkpoint_extension_metadata retain_current_extension_metadata
  try_fill-IsFilled s extension_name c r h = record {
    same_id = ground arith;
    same_table = ground arith;
    same_iceberg = ground arith;
    same_speedboat = ground arith;
    same_deletes = ground arith;
    same_schema = ground arith;
  }

  updated-IsFrame :
      (ids : ℕ → String) (table_name extension id : String) (schema : PowdrrSchema)
      (speedboat_files iceberg_files : FileSetPayload)
      (tracker : Option (Tracker ExtensionWorkItem)) (s : EphemeralServiceImpl P)
      (r : Tracker ExtensionWorkItem × EphemeralServiceImpl P)
      → updated_work_item ids table_name extension id schema speedboat_files iceberg_files tracker s
        ≡ some r
      → IsFrame s r.1
  unfolding updated_work_item next_id
  updated-IsFrame ids table_name extension id schema speedboat_files iceberg_files none s r h =
      record {
        same_checkpoints = ground arith;
        same_latest = ground arith;
        same_aliases = ground arith;
        same_published = ground arith;
        same_views = ground arith;
        same_epochs = ground arith;
        keeps_work = λ name w. ground arith;
      }
  updated-IsFrame ids table_name extension id schema speedboat_files iceberg_files (some tracker) s
        r h =
      record {
        same_checkpoints = ground arith;
        same_latest = ground arith;
        same_aliases = ground arith;
        same_published = ground arith;
        same_views = ground arith;
        same_epochs = ground arith;
        keeps_work = λ name w. ground arith;
      }

  pub fill-IsFrame :
      (ids : ℕ → String) (table_name extension id : String) (schema : PowdrrSchema)
      (speedboat_files iceberg_files : FileSetPayload) (s s' : EphemeralServiceImpl P)
      → fill_extension_work_item ids table_name extension id schema speedboat_files iceberg_files s
        ≡ some s'
      → IsFrame s s'
  unfolding fill_extension_work_item
  fill-IsFrame ids table_name extension id schema speedboat_files iceberg_files s s' h =
      elim (Bool-cases (FileSet.len speedboat_files == 0 && FileSet.len iceberg_files == 0)) [
        | inl empty ↦ record {
          same_checkpoints = ground arith;
          same_latest = ground arith;
          same_aliases = ground arith;
          same_published = ground arith;
          same_views = ground arith;
          same_epochs = ground arith;
          keeps_work = λ name w. ground arith;
        }
        | inr work ↦ elim (Option-cases (get s.extension_work_items "es")) [
          | inl n ↦ absurd (ground arith)
          | inr (items, e1) ↦
              elim (Option-cases (
                updated_work_item ids table_name extension id schema speedboat_files iceberg_files
                  (get items table_name) s)) [
                    | inl n ↦ absurd (ground arith)
                    | inr (updated, e2) ↦
                        let f = updated-IsFrame _ _ _ _ _ _ _ _ _ _ e2 in
                        record {
                          same_checkpoints = ground (arith, f.same_checkpoints);
                          same_latest = ground (arith, f.same_latest);
                          same_aliases = ground (arith, f.same_aliases);
                          same_published = ground (arith, f.same_published);
                          same_views = ground (arith, f.same_views);
                          same_epochs = ground (arith, f.same_epochs);
                          keeps_work = λ name w. ground (
                            arith,
                            f.keeps_work name w,
                            get-insert "es" name (insert table_name updated.0 items)
                                updated.1.extension_work_items,
                          );
                        }
                  ]
        ]
      ]

  pub queue-IsFrame :
      (org_id table_name : String) (s : EphemeralServiceImpl P)
      → IsFrame s (queue_publication_request org_id table_name s)
  unfolding queue_publication_request
  queue-IsFrame org_id table_name s = record {
    same_checkpoints = refl;
    same_latest = refl;
    same_aliases = refl;
    same_published = refl;
    same_views = refl;
    same_epochs = refl;
    keeps_work = λ name w. w;
  }

  pub maybe_create-IsFrame :
      (ids : ℕ → String) (c : TableMetadataCheckpoint P.Json) (s : EphemeralServiceImpl P)
      → IsFrame s (maybe_create_compaction_work_item ids c s)
  unfolding maybe_create_compaction_work_item next_id
  maybe_create-IsFrame ids c s = record {
    same_checkpoints = ground arith;
    same_latest = ground arith;
    same_aliases = ground arith;
    same_published = ground arith;
    same_views = ground arith;
    same_epochs = ground arith;
    keeps_work = λ name w. ground arith;
  }

  replace-IsFrame :
      (ids : ℕ → String) (compaction : String) (s : EphemeralServiceImpl P)
      (r : CleanupWorkItem × EphemeralServiceImpl P)
      → replace_and_delete_checkpoints ids compaction s ≡ some r
      → IsFrame s r.1
  unfolding replace_and_delete_checkpoints next_id
  replace-IsFrame ids compaction s r h = record {
    same_checkpoints = ground arith;
    same_latest = ground arith;
    same_aliases = ground arith;
    same_published = ground arith;
    same_views = ground arith;
    same_epochs = ground arith;
    keeps_work = λ name w. ground arith;
  }

  pub clean-IsFrame :
      (ids : ℕ → String) (compactions : List String) (s s' : EphemeralServiceImpl P)
      → clean_compactions ids compactions s ≡ some s'
      → IsFrame s s'
  unfolding clean_compactions
  clean-IsFrame ids [] s s' h = record {
    same_checkpoints = ground arith;
    same_latest = ground arith;
    same_aliases = ground arith;
    same_published = ground arith;
    same_views = ground arith;
    same_epochs = ground arith;
    keeps_work = λ name w. ground arith;
  }
  clean-IsFrame ids (compaction ∷ compactions) s s' h =
      elim (Option-cases (replace_and_delete_checkpoints ids compaction s)) [
        | inl n ↦ absurd (ground arith)
        | inr (replaced, e) ↦
            let f = replace-IsFrame ids compaction s replaced e in
            let g = clean-IsFrame ids compactions _ s' (rw (e, clean_compactions) at h) in
            record {
              same_checkpoints = g.same_checkpoints ∙ f.same_checkpoints;
              same_latest = g.same_latest ∙ f.same_latest;
              same_aliases = g.same_aliases ∙ f.same_aliases;
              same_published = g.same_published ∙ f.same_published;
              same_views = g.same_views ∙ f.same_views;
              same_epochs = g.same_epochs ∙ f.same_epochs;
              keeps_work = λ name w. g.keeps_work name (f.keeps_work name w);
            }
      ]
