-- ===== src/Service/Commit/Kept.antt =====
-- The steps of an extension commit before the last one leave the latest checkpoints, in
-- service_lib/src/ephemeral_service_impl.rs.
use powdrr_engine.Common.{
  ◌≡◌, refl, arith, inl, inr, Option-cases, String, Option, some, List, [], ◌∷◌, string_eq, nat_eq,
  option_eq,
}
use powdrr_engine.Common.Dict.{get-insert}
use powdrr_engine.DataContract.Types.{ExtensionFileMetadata, ExtensionCommit}
use powdrr_engine.Service.State.{Payloads, EphemeralServiceImpl}
use powdrr_engine.Service.Commit.{add_recent_extension_files}
use powdrr_engine.Service.Commit.Frames.{KeepsWork}
use powdrr_engine.Service.Commit.Extension.{
  add_coverage_for, cover_waiting, apply_extension_commit_to_work_item,
}

module _ {P : Payloads} where
  -- the latest checkpoints and the aliases are as they were
  pub record KeepsLatest (s s' : EphemeralServiceImpl P) : Type 0 where
    pub same_latest : s'.latest_committed_checkpoint_id ≡ s.latest_committed_checkpoint_id
    pub same_aliases : s'.table_aliases ≡ s.table_aliases
    pub same_views : s'.cutover_membership_views ≡ s.cutover_membership_views
    pub same_epochs : s'.checkpoint_cutover_epochs ≡ s.checkpoint_cutover_epochs
    pub keeps_work : KeepsWork s.extension_work_items s'.extension_work_items

  add_coverage_for-KeepsLatest :
      (table_name id : String) (commit : ExtensionCommit) (s : EphemeralServiceImpl P)
      (r : Option String × EphemeralServiceImpl P)
      → add_coverage_for table_name id commit s ≡ some r
      → KeepsLatest s r.1
  unfolding add_coverage_for
  add_coverage_for-KeepsLatest table_name id commit s r h = record {
    same_latest = ground arith;
    same_aliases = ground arith;
    same_views = ground arith;
    same_epochs = ground arith;
    keeps_work = λ name w. ground arith;
  }

  pub cover_waiting-KeepsLatest :
      (table_name : String) (commit : ExtensionCommit) (ids : List String)
      (s : EphemeralServiceImpl P) (r : List String × EphemeralServiceImpl P)
      → cover_waiting table_name commit ids s ≡ some r
      → KeepsLatest s r.1
  unfolding cover_waiting
  cover_waiting-KeepsLatest table_name commit [] s r h = record {
    same_latest = ground arith;
    same_aliases = ground arith;
    same_views = ground arith;
    same_epochs = ground arith;
    keeps_work = λ name w. ground arith;
  }
  cover_waiting-KeepsLatest table_name commit (id ∷ ids) s r h =
      elim (Option-cases (add_coverage_for table_name id commit s)) [
        | inl n ↦ absurd (ground arith)
        | inr (covered, e) ↦ elim (Option-cases (cover_waiting table_name commit ids covered.1)) [
          | inl n ↦ absurd (ground arith)
          | inr (rest, e') ↦
              let f = add_coverage_for-KeepsLatest table_name id commit s covered e in
              let g = cover_waiting-KeepsLatest table_name commit ids covered.1 rest e' in
              record {
                same_latest = ground (arith, f.same_latest, g.same_latest);
                same_aliases = ground (arith, f.same_aliases, g.same_aliases);
                same_views = ground (arith, f.same_views, g.same_views);
                same_epochs = ground (arith, f.same_epochs, g.same_epochs);
                keeps_work = λ name w. ground (arith, g.keeps_work name (f.keeps_work name w));
              }
        ]
      ]

  pub add_recent-KeepsLatest :
      (table_name extension : String) (files : ExtensionFileMetadata) (s : EphemeralServiceImpl P)
      → KeepsLatest s (add_recent_extension_files table_name extension files s)
  unfolding add_recent_extension_files
  add_recent-KeepsLatest table_name extension [] s = record {
    same_latest = refl;
    same_aliases = refl;
    same_views = refl;
    same_epochs = refl;
    keeps_work = λ name w. w;
  }
  add_recent-KeepsLatest table_name extension ((name, file) ∷ files) s =
      let f = add_recent-KeepsLatest table_name extension files _ in
      record {
        same_latest = f.same_latest;
        same_aliases = f.same_aliases;
        same_views = f.same_views;
        same_epochs = f.same_epochs;
        keeps_work = λ name w. f.keeps_work name w;
      }

  pub apply-KeepsLatest :
      (table_name : String) (commit : ExtensionCommit) (s s' : EphemeralServiceImpl P)
      → apply_extension_commit_to_work_item table_name commit s ≡ some s'
      → KeepsLatest s s'
  unfolding apply_extension_commit_to_work_item
  apply-KeepsLatest table_name commit s s' h = record {
    same_latest = ground arith;
    same_aliases = ground arith;
    same_views = ground arith;
    same_epochs = ground arith;
    keeps_work = λ name w. grind (arith, get-insert);
  }
