-- ===== src/Service/Commit/Latest.antt =====
-- The checkpoint that a commit makes and the latest one of its table, in
-- service_lib/src/ephemeral_service_impl.rs.
use powdrr_engine.Common.{
  ◌≡◌, refl, ap, ◌∙◌, arith, inl, inr, Option-cases, ==_refl, ℕ, String, Option, none, some, List,
  [], ◌∷◌, if◌then◌else◌, ◌==◌, unwrap_or, string_eq, nat_eq, option_eq,
}
use powdrr_engine.Common.Dict.{Dict, get, insert, get-insert}
use powdrr_engine.DataContract.Types.{TableMetadataCheckpoint}
use powdrr_engine.DataContract.Commits.{remove_compacted}
use powdrr_engine.Service.State.{
  Payloads, EphemeralServiceImpl, checkpoint_key, default_metadata_namespace,
}
use powdrr_engine.Service.Cutover.{real_table_name, get_latest_materialized_checkpoint_sync}
use powdrr_engine.Service.Publish.{queue_publication_request}
use powdrr_engine.Service.Commit.{
  try_fill_checkpoint_extension_metadata, set_latest_committed_checkpoint_id,
  set_latest_committed_checkpoint, fill_extension_work_item,
}
use powdrr_engine.Service.Commit.Handlers.{
  handle_compaction, handle_compactions, store_checkpoint, finish_speedboat_commit,
  finish_delete_commit, maybe_create_compaction_work_item,
}
use powdrr_engine.Service.Commit.Operations.{clean_compactions, finish_iceberg_commit}
use powdrr_engine.Service.Commit.Frames.{
  KeepsWork, IsFrame, trans_frame, refl_frame, queue-IsFrame, try_fill-IsFilled, fill-IsFrame,
  maybe_create-IsFrame, clean-IsFrame,
}

get-known :
    (o : Option (Dict String String)) (k : String)
    → get (unwrap_or [] o) k ≡ elim o [ none ↦ none | some m ↦ get m k ]
unfolding get
get-known none k = refl
get-known (some m) k = refl

module _ {P : Payloads} where
  -- s' is s with one more checkpoint: stored under the name that the commit gave, and the latest one of the
  -- table that the name stands for.
  pub record IsCommitted (checkpoint : TableMetadataCheckpoint P.Json) (id table_name : String)
      (s s' : EphemeralServiceImpl P) : Type 0 where
    pub new_id : checkpoint.checkpoint_id ≡ id
    pub of_table : checkpoint.table_name ≡ table_name
    pub stored : s'.checkpoints ≡ insert (checkpoint_key table_name id) checkpoint s.checkpoints
    pub latest :
        s'.latest_committed_checkpoint_id
        ≡ (set_latest_committed_checkpoint table_name none id s).latest_committed_checkpoint_id
    pub aliases : s'.table_aliases ≡ s.table_aliases
    pub published : s'.published_checkpoint_id ≡ s.published_checkpoint_id
    pub views : s'.cutover_membership_views ≡ s.cutover_membership_views
    pub epochs : s'.checkpoint_cutover_epochs ≡ s.checkpoint_cutover_epochs
    pub work : KeepsWork s.extension_work_items s'.extension_work_items

  handle_compaction-id :
      (s : EphemeralServiceImpl P) (compaction : Option String)
      (c c' : TableMetadataCheckpoint P.Json)
      → handle_compaction s compaction c ≡ some c'
      → (c'.checkpoint_id ≡ c.checkpoint_id)
        × (c'.table_name ≡ c.table_name)
        × (c'.iceberg_metadata ≡ c.iceberg_metadata)
  unfolding handle_compaction remove_compacted
  handle_compaction-id s none c c' h = (ground arith, ground arith, ground arith)
  handle_compaction-id s (some compaction) c c' h = (ground arith, ground arith, ground arith)

  handle_compactions-id :
      (s : EphemeralServiceImpl P) (compactions : List String)
      (c c' : TableMetadataCheckpoint P.Json)
      → handle_compactions s compactions c ≡ some c'
      → (c'.checkpoint_id ≡ c.checkpoint_id)
        × (c'.table_name ≡ c.table_name)
        × (c'.iceberg_metadata ≡ c.iceberg_metadata)
  unfolding handle_compactions
  handle_compactions-id s [] c c' h = (ground arith, ground arith, ground arith)
  handle_compactions-id s (compaction ∷ compactions) c c' h =
      elim (Option-cases (handle_compaction s (some compaction) c)) [
        | inl n ↦ absurd (ground arith)
        | inr (d, e) ↦
            let (i, t, m) = handle_compaction-id s (some compaction) c d e in
            let (i', t', m') =
              handle_compactions-id s compactions d c' (rw (e, handle_compactions) at h) in
            (i' ∙ i, t' ∙ t, m' ∙ m)
      ]

  committed :
      (c : TableMetadataCheckpoint P.Json) (id table_name : String)
      (s s1 s2 s' : EphemeralServiceImpl P)
      → c.checkpoint_id ≡ id
      → c.table_name ≡ table_name
      → IsFrame s s1
      → IsFrame (store_checkpoint table_name c s1) s2
      → IsFrame (set_latest_committed_checkpoint table_name none id s2) s'
      → IsCommitted c id table_name s s'
  unfolding store_checkpoint set_latest_committed_checkpoint set_latest_committed_checkpoint_id
  committed c id table_name s s1 s2 s' i t f g h = record {
    new_id = i;
    of_table = t;
    stored = rw (h.same_checkpoints, g.same_checkpoints, f.same_checkpoints, i) refl;
    latest = rw (h.same_latest, g.same_latest, f.same_latest, g.same_aliases, f.same_aliases) refl;
    aliases = rw (h.same_aliases, g.same_aliases) f.same_aliases;
    published = rw (h.same_published, g.same_published) f.same_published;
    views = rw (h.same_views, g.same_views) f.same_views;
    epochs = rw (h.same_epochs, g.same_epochs) f.same_epochs;
    work = λ name w. h.keeps_work name (g.keeps_work name (f.keeps_work name w));
  }

  pub finish_speedboat-IsCommitted :
      (ids : ℕ → String) (compaction : Option String) (c : TableMetadataCheckpoint P.Json)
      (s s' : EphemeralServiceImpl P)
      → finish_speedboat_commit ids compaction c s ≡ some s'
      → (c' : TableMetadataCheckpoint P.Json) × IsCommitted c' c.checkpoint_id c.table_name s s'
  unfolding finish_speedboat_commit
  finish_speedboat-IsCommitted ids compaction c s s' h =
      elim (Option-cases (handle_compaction s compaction c)) [
        | inl n ↦ absurd (ground arith)
        | inr (handled, e1) ↦
            elim (Option-cases (try_fill_checkpoint_extension_metadata s "es" handled)) [
              | inl n ↦ absurd (ground arith)
              | inr (filled, e2) ↦
                  elim (Option-cases (
                    fill_extension_work_item ids c.table_name "es" c.checkpoint_id c.schema
                      filled.1.0 filled.1.1 (store_checkpoint c.table_name filled.0 s))) [
                        | inl n ↦ absurd (ground arith)
                        | inr (s2, e3) ↦
                            let (i, t, m) = handle_compaction-id s compaction c handled e1 in
                            let f = try_fill-IsFilled s "es" handled filled e2 in
                            let final : maybe_create_compaction_work_item ids filled.0 (
                                  set_latest_committed_checkpoint c.table_name none c.checkpoint_id
                                    s2)
                                ≡ s' =
                              ground arith in
                            (
                              filled.0,
                              committed filled.0 c.checkpoint_id c.table_name s s s2 s'
                                  (f.same_id ∙ i) (f.same_table ∙ t) (refl_frame s)
                                  (fill-IsFrame _ _ _ _ _ _ _ _ _ e3)
                                  (rw (← final) (maybe_create-IsFrame ids filled.0 _)),
                            )
                      ]
            ]
      ]

  pub finish_delete-IsCommitted :
      (compaction : Option String) (c : TableMetadataCheckpoint P.Json)
      (s s' : EphemeralServiceImpl P)
      → finish_delete_commit compaction c s ≡ some s'
      → (c' : TableMetadataCheckpoint P.Json) × IsCommitted c' c.checkpoint_id c.table_name s s'
  unfolding finish_delete_commit
  finish_delete-IsCommitted compaction c s s' h =
      elim (Option-cases (handle_compaction s compaction c)) [
        | inl n ↦ absurd (ground arith)
        | inr (handled, e1) ↦
            elim (Option-cases (try_fill_checkpoint_extension_metadata s "es" handled)) [
              | inl n ↦ absurd (ground arith)
              | inr (filled, e2) ↦
                  let (i, t, m) = handle_compaction-id s compaction c handled e1 in
                  let f = try_fill-IsFilled s "es" handled filled e2 in
                  let final : set_latest_committed_checkpoint c.table_name none c.checkpoint_id
                        (store_checkpoint c.table_name filled.0 s)
                      ≡ s' =
                    ground arith in
                  (
                    filled.0,
                    committed filled.0 c.checkpoint_id c.table_name s s _ s' (f.same_id ∙ i)
                        (f.same_table ∙ t) (refl_frame s)
                        (refl_frame (store_checkpoint c.table_name filled.0 s))
                        (rw (final) (refl_frame s')),
                  )
            ]
      ]

  pub finish_iceberg-IsCommitted :
      (ids : ℕ → String) (compactions : List String) (c : TableMetadataCheckpoint P.Json)
      (s s' : EphemeralServiceImpl P)
      → finish_iceberg_commit ids compactions c s ≡ some s'
      → (c' : TableMetadataCheckpoint P.Json) × IsCommitted c' c.checkpoint_id c.table_name s s'
        × (c'.iceberg_metadata ≡ c.iceberg_metadata)
  unfolding finish_iceberg_commit
  finish_iceberg-IsCommitted ids compactions c s s' h =
      elim (Option-cases (handle_compactions s compactions c)) [
        | inl n ↦ absurd (ground arith)
        | inr (handled, e1) ↦
            elim (Option-cases (try_fill_checkpoint_extension_metadata s "es" handled)) [
              | inl n ↦ absurd (ground arith)
              | inr (filled, e2) ↦
                  elim (Option-cases (
                    fill_extension_work_item ids c.table_name "es" c.checkpoint_id c.schema
                      filled.1.0 filled.1.1
                      (set_latest_committed_checkpoint c.table_name none c.checkpoint_id
                        (store_checkpoint c.table_name filled.0 s)))) [
                          | inl n ↦ absurd (ground arith)
                          | inr (s1, e3) ↦
                              elim (Option-cases (clean_compactions ids compactions s1)) [
                                | inl n ↦ absurd (ground arith)
                                | inr (s2, e4) ↦
                                    let (i, t, m) =
                                      handle_compactions-id s compactions c handled e1 in
                                    let f = try_fill-IsFilled s "es" handled filled e2 in
                                    let final : queue_publication_request default_metadata_namespace
                                          c.table_name s2
                                        ≡ s' =
                                      ground arith in
                                    (
                                      filled.0,
                                      committed filled.0 c.checkpoint_id c.table_name s s _ s'
                                          (f.same_id ∙ i) (f.same_table ∙ t) (refl_frame s)
                                          (refl_frame (store_checkpoint c.table_name filled.0 s))
                                          (trans_frame _ s1 s' (fill-IsFrame _ _ _ _ _ _ _ _ _ e3) (
                                            trans_frame s1 s2 s'
                                              (clean-IsFrame ids compactions s1 s2 e4)
                                              (rw (← final) (
                                                queue-IsFrame default_metadata_namespace
                                                  c.table_name s2)))),
                                      f.same_iceberg ∙ m,
                                    )
                              ]
                        ]
            ]
      ]

  pub set_latest-get :
      (table_name other : String) (extension : Option String) (id : String)
      (s : EphemeralServiceImpl P)
      → get_latest_materialized_checkpoint_sync
          (set_latest_committed_checkpoint table_name extension id s)
          other
          extension
        ≡ (if real_table_name s table_name == real_table_name s other
            then some id
            else get_latest_materialized_checkpoint_sync s other extension)
  unfolding get_latest_materialized_checkpoint_sync set_latest_committed_checkpoint
      set_latest_committed_checkpoint_id
  set_latest-get table_name other extension id s =
      let known = unwrap_or [] (get s.latest_committed_checkpoint_id extension) in
      rw
        (
          get-insert extension extension (insert (real_table_name s table_name) id known)
              s.latest_committed_checkpoint_id,
          ==_refl extension,
          get_latest_materialized_checkpoint_sync,
        )
        (get-insert (real_table_name s table_name) (real_table_name s other) id known
          ∙ ap (λ o. if real_table_name s table_name == real_table_name s other then some id else o)
              (get-known (get s.latest_committed_checkpoint_id extension)
                (real_table_name s other)))
