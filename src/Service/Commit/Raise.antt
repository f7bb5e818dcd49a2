-- ===== src/Service/Commit/Raise.antt =====
-- The extension's latest checkpoint only moves up, in service_lib/src/ephemeral_service_impl.rs.
use powdrr_engine.Common.{
  ◌≡◌, ◌⊎◌, refl, ◌∙◌, arith, inl, inr, Bool-cases, Option-cases, ==_refl, String, true, some, [],
  ltb, length, unwrap_or, string_eq, nat_eq, option_eq,
}
use powdrr_engine.Common.Dict.{get}
use powdrr_engine.Common.Order.{str_ltb, max?}
use powdrr_engine.DataContract.Types.{ExtensionCommit}
use powdrr_engine.Service.State.{
  Payloads, EphemeralServiceImpl, checkpoint_key, default_metadata_namespace, es,
}
use powdrr_engine.Service.Cutover.{real_table_name, get_latest_materialized_checkpoint_sync}
use powdrr_engine.Service.Publish.{queue_publication_request}
use powdrr_engine.Service.Commit.{
  add_recent_extension_files, set_latest_committed_checkpoint_id, set_latest_committed_checkpoint,
}
use powdrr_engine.Service.Commit.Frames.{KeepsWork}
use powdrr_engine.Service.Commit.Latest.{set_latest-get}
use powdrr_engine.Service.Commit.Extension.{
  cover_waiting, apply_extension_commit_to_work_item, raise_latest, extension_commit,
}
use powdrr_engine.Service.Commit.Kept.{
  cover_waiting-KeepsLatest, add_recent-KeepsLatest, apply-KeepsLatest,
}

module _ {P : Payloads} where
  -- the latest checkpoint of the extension is now `id`, and it was none, or this one, or one below it
  pub record IsRaised (table_name : String) (s s' : EphemeralServiceImpl P) : Type 0 where
    pub id : String
    pub latest : get_latest_materialized_checkpoint_sync s' table_name es ≡ some id
    pub same_views : s'.cutover_membership_views ≡ s.cutover_membership_views
    pub same_epochs : s'.checkpoint_cutover_epochs ≡ s.checkpoint_cutover_epochs
    pub keeps_work : KeepsWork s.extension_work_items s'.extension_work_items
    pub moved :
        (s'.latest_committed_checkpoint_id ≡ s.latest_committed_checkpoint_id)
        ⊎ (s'.latest_committed_checkpoint_id
            ≡ (set_latest_committed_checkpoint table_name es id s).latest_committed_checkpoint_id)
    pub not_lowered :
        (before : String)
        → get_latest_materialized_checkpoint_sync s table_name es ≡ some before
        → (before ≡ id) ⊎ (str_ltb before id ≡ true)

  raise-IsRaised :
      (table_name max_id : String) (s : EphemeralServiceImpl P)
      → IsRaised table_name s (raise_latest table_name max_id s)
  unfolding raise_latest set_latest_committed_checkpoint set_latest_committed_checkpoint_id
  raise-IsRaised table_name max_id s =
      let set : get_latest_materialized_checkpoint_sync
            (set_latest_committed_checkpoint table_name es max_id s) table_name es
          ≡ some max_id =
        rw
          (set_latest-get table_name table_name es max_id s, ==_refl (real_table_name s table_name))
          refl in
      elim (Option-cases (get_latest_materialized_checkpoint_sync s table_name es)) [
        | inl n ↦ record {
          id = max_id;
          latest = rw (n, raise_latest) set;
          same_views = rw (n, raise_latest) refl;
          same_epochs = rw (n, raise_latest) refl;
          keeps_work = rw (n, raise_latest) (λ name w. w);
          moved = inr (rw (n, raise_latest) refl);
          not_lowered = λ before b. absurd (ground (arith, n, b));
        }
        | inr (latest, l) ↦ elim (Bool-cases (str_ltb latest max_id)) [
          | inl above ↦ record {
            id = max_id;
            latest = rw (l, above, raise_latest) set;
            same_views = rw (l, above, raise_latest) refl;
            same_epochs = rw (l, above, raise_latest) refl;
            keeps_work = rw (l, above, raise_latest) (λ name w. w);
            moved = inr (rw (l, above, raise_latest) refl);
            not_lowered = λ before b. inr (ground (arith, l, b, above));
          }
          | inr below ↦ record {
            id = latest;
            latest = rw (l, below, raise_latest) l;
            same_views = rw (l, below, raise_latest) refl;
            same_epochs = rw (l, below, raise_latest) refl;
            keeps_work = rw (l, below, raise_latest) (λ name w. w);
            moved = inl (rw (l, below, raise_latest) refl);
            not_lowered = λ before b. inl (ground (arith, l, b));
          }
        ]
      ]

  carried :
      (table_name id : String) (s t u : EphemeralServiceImpl P)
      → t.latest_committed_checkpoint_id ≡ s.latest_committed_checkpoint_id
      → t.table_aliases ≡ s.table_aliases
      → (u.latest_committed_checkpoint_id ≡ t.latest_committed_checkpoint_id)
        ⊎ (u.latest_committed_checkpoint_id
            ≡ (set_latest_committed_checkpoint table_name es id t).latest_committed_checkpoint_id)
      → (u.latest_committed_checkpoint_id ≡ s.latest_committed_checkpoint_id)
        ⊎ (u.latest_committed_checkpoint_id
            ≡ (set_latest_committed_checkpoint table_name es id s).latest_committed_checkpoint_id)
  unfolding set_latest_committed_checkpoint set_latest_committed_checkpoint_id
  carried table_name id s t u l a (inl same) = inl (same ∙ l)
  carried table_name id s t u l a (inr set) = inr (rw (set, l, a) refl)

  -- An extension commit that does not panic leaves the "es" extension of the table with a latest
  -- checkpoint, which is the one before or one with a greater id: a late commit does not take it back. No
  -- other latest checkpoint changes, no view or epoch does, and each extension that has a map of work
  -- items keeps one.
  pub extension_commit-IsRaised :
      (table_name : String) (commit : ExtensionCommit) (s s' : EphemeralServiceImpl P)
      → extension_commit table_name commit s ≡ some s'
      → IsRaised table_name s s'
  unfolding extension_commit get_latest_materialized_checkpoint_sync queue_publication_request
  extension_commit-IsRaised table_name commit s s' h =
      let waiting =
        unwrap_or []
          (get s.checkpoints_needing_extension_work (checkpoint_key table_name commit.extension)) in
      elim (Bool-cases (ltb 0 (length waiting))) [
        | inr n ↦ absurd (ground arith)
        | inl some_waiting ↦ elim (Option-cases (cover_waiting table_name commit waiting s)) [
          | inl n ↦ absurd (ground arith)
          | inr (covered, e1) ↦ elim (Option-cases (max? covered.0)) [
            | inl n ↦ absurd (ground arith)
            | inr (max_id, e2) ↦
                elim (Option-cases (
                  apply_extension_commit_to_work_item table_name commit (
                    add_recent_extension_files table_name commit.extension commit.files
                      covered.1))) [
                        | inl n ↦ absurd (ground arith)
                        | inr (applied, e3) ↦
                            let f =
                              cover_waiting-KeepsLatest table_name commit waiting s covered e1 in
                            let g =
                              add_recent-KeepsLatest table_name commit.extension commit.files
                                covered.1 in
                            let k = apply-KeepsLatest table_name commit _ applied e3 in
                            let r = raise-IsRaised table_name max_id applied in
                            let final : queue_publication_request default_metadata_namespace
                                  table_name (raise_latest table_name max_id applied)
                                ≡ s' =
                              ground arith in
                            let before : get_latest_materialized_checkpoint_sync applied table_name
                                  es
                                ≡ get_latest_materialized_checkpoint_sync s table_name es =
                              rw
                                (
                                  k.same_latest, g.same_latest, f.same_latest, k.same_aliases,
                                  g.same_aliases, f.same_aliases,
                                )
                                refl in
                            record {
                              id = r.id;
                              latest = rw (← final) r.latest;
                              same_views =
                                  rw (← final)
                                    (r.same_views ∙ k.same_views ∙ g.same_views ∙ f.same_views);
                              same_epochs =
                                  rw (← final)
                                    (r.same_epochs ∙ k.same_epochs ∙ g.same_epochs ∙ f.same_epochs);
                              keeps_work = rw (← final) (λ name w.
                                  r.keeps_work name
                                    (k.keeps_work name (g.keeps_work name (f.keeps_work name w))));
                              moved = rw (← final) (
                                  carried table_name r.id s applied
                                    (raise_latest table_name max_id applied)
                                    (k.same_latest ∙ g.same_latest ∙ f.same_latest)
                                    (k.same_aliases ∙ g.same_aliases ∙ f.same_aliases) r.moved);
                              not_lowered = λ b e. r.not_lowered b (before ∙ e);
                            }
                      ]
          ]
        ]
      ]
