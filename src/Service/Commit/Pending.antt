-- ===== src/Service/Commit/Pending.antt =====
-- Publication requests of tables that have had extension work, in
-- service_lib/src/ephemeral_service_impl.rs: the list of waiting checkpoints is emptied, and never removed.
use powdrr_engine.Common.{
  ==_refl, ◌≡◌, refl, ◌∙◌, arith, inl, inr, Bool-cases, Option-cases, String, true, not, Option,
  some, List, [], ◌∷◌, ◌==◌, ltb, retain, length, unwrap_or, string_eq, nat_eq, option_eq,
}
use powdrr_engine.Common.Dict.{get, contains_key, get-insert}
use powdrr_engine.Common.Order.{max?}
use powdrr_engine.DataContract.Types.{ExtensionFileMetadata, ExtensionCommit}
use powdrr_engine.Service.State.{
  Payloads, EphemeralServiceImpl, checkpoint_key, checkpoint_publication_request_key,
  default_metadata_namespace,
}
use powdrr_engine.Service.Publish.{queue_publication_request}
use powdrr_engine.Service.Cutover.{checkpoint_publication_still_pending}
use powdrr_engine.Service.Commit.{
  add_recent_extension_files, set_latest_committed_checkpoint_id, set_latest_committed_checkpoint,
}
use powdrr_engine.Service.Commit.Extension.{
  add_coverage_for, cover_waiting, apply_extension_commit_to_work_item, raise_latest,
  extension_commit,
}

module _ {P : Payloads} where
  -- a key of the waiting lists that s has, s' has too
  abbrev KeepsWaiting : String → EphemeralServiceImpl P → EphemeralServiceImpl P → Type 0
  KeepsWaiting key s s' =
      contains_key s.checkpoints_needing_extension_work key ≡ true
      → contains_key s'.checkpoints_needing_extension_work key ≡ true

  add_coverage_for-KeepsWaiting :
      (key table_name id : String) (commit : ExtensionCommit) (s : EphemeralServiceImpl P)
      (r : Option String × EphemeralServiceImpl P)
      → add_coverage_for table_name id commit s ≡ some r
      → KeepsWaiting key s r.1
  unfolding add_coverage_for contains_key
  add_coverage_for-KeepsWaiting key table_name id commit s r h w =
      let waiting_key = checkpoint_key table_name commit.extension in
      elim (Option-cases (get s.checkpoints_needing_extension_work waiting_key)) [
        | inl n ↦ ground arith
        | inr (waiting, e) ↦ ground (
          arith,
          get-insert waiting_key key (retain (λ x. not (x == id)) waiting)
              s.checkpoints_needing_extension_work,
        )
      ]

  cover_waiting-KeepsWaiting :
      (key table_name : String) (commit : ExtensionCommit) (ids : List String)
      (s : EphemeralServiceImpl P) (r : List String × EphemeralServiceImpl P)
      → cover_waiting table_name commit ids s ≡ some r
      → KeepsWaiting key s r.1
  unfolding cover_waiting
  cover_waiting-KeepsWaiting key table_name commit [] s r h w = ground arith
  cover_waiting-KeepsWaiting key table_name commit (id ∷ ids) s r h w =
      elim (Option-cases (add_coverage_for table_name id commit s)) [
        | inl n ↦ absurd (ground arith)
        | inr (covered, e) ↦ elim (Option-cases (cover_waiting table_name commit ids covered.1)) [
          | inl n ↦ absurd (ground arith)
          | inr (rest, e') ↦
              let first = add_coverage_for-KeepsWaiting key table_name id commit s covered e w in
              let last =
                cover_waiting-KeepsWaiting key table_name commit ids covered.1 rest e' first in
              ground (arith, last)
        ]
      ]

  add_recent-waiting :
      (table_name extension : String) (files : ExtensionFileMetadata) (s : EphemeralServiceImpl P)
      → (add_recent_extension_files table_name extension files s).checkpoints_needing_extension_work
        ≡ s.checkpoints_needing_extension_work
  unfolding add_recent_extension_files
  add_recent-waiting table_name extension [] s = refl
  add_recent-waiting table_name extension ((name, file) ∷ files) s =
      add_recent-waiting table_name extension files _

  apply-waiting :
      (table_name : String) (commit : ExtensionCommit) (s s' : EphemeralServiceImpl P)
      → apply_extension_commit_to_work_item table_name commit s ≡ some s'
      → s'.checkpoints_needing_extension_work ≡ s.checkpoints_needing_extension_work
  unfolding apply_extension_commit_to_work_item
  apply-waiting table_name commit s s' h = ground arith

  raise-waiting :
      (table_name max_id : String) (s : EphemeralServiceImpl P)
      → (raise_latest table_name max_id s).checkpoints_needing_extension_work
        ≡ s.checkpoints_needing_extension_work
  unfolding raise_latest set_latest_committed_checkpoint set_latest_committed_checkpoint_id
  raise-waiting table_name max_id s = ground arith

  has_waiting :
      (s : EphemeralServiceImpl P) (key : String)
      → ltb 0 (length (unwrap_or [] (get s.checkpoints_needing_extension_work key))) ≡ true
      → contains_key s.checkpoints_needing_extension_work key ≡ true
  unfolding contains_key
  has_waiting s key h = ground arith

  -- A checkpoint of the table is listed as waiting for "es" work, or once was, and its publication is
  -- requested.
  pub record IsQueued (table_name : String) (s : EphemeralServiceImpl P) : Type 0 where
    pub waiting :
        contains_key s.checkpoints_needing_extension_work (checkpoint_key table_name "es") ≡ true
    pub requested :
        contains_key s.checkpoint_publication_requests
          (checkpoint_publication_request_key default_metadata_namespace table_name)
        ≡ true

  pub IsQueued-still_pending :
      (table_name : String) (s : EphemeralServiceImpl P)
      → IsQueued table_name s
      → checkpoint_publication_still_pending s table_name ≡ true
  unfolding checkpoint_publication_still_pending
  IsQueued-still_pending table_name s q = ground (arith, q.waiting)

  pub extension_commit-IsQueued :
      (table_name : String) (commit : ExtensionCommit) (s s' : EphemeralServiceImpl P)
      → commit.extension ≡ "es"
      → extension_commit table_name commit s ≡ some s'
      → IsQueued table_name s'
  unfolding extension_commit queue_publication_request checkpoint_publication_still_pending
      contains_key
  extension_commit-IsQueued table_name commit s s' is_es h =
      let key = checkpoint_key table_name commit.extension in
      let request_key = checkpoint_publication_request_key default_metadata_namespace table_name in
      let waiting = unwrap_or [] (get s.checkpoints_needing_extension_work key) in
      elim (Bool-cases (ltb 0 (length waiting))) [
        | inr n ↦ absurd (ground arith)
        | inl some_waiting ↦ elim (Option-cases (cover_waiting table_name commit waiting s)) [
          | inl n ↦ absurd (ground arith)
          | inr (covered, e1) ↦ elim (Option-cases (max? covered.0)) [
            | inl n ↦ absurd (ground arith)
            | inr (max_id, e2) ↦
                elim (Option-cases (
                  apply_extension_commit_to_work_item table_name commit (
                    add_recent_extension_files table_name commit.extension commit.files
                      covered.1))) [
                        | inl n ↦ absurd (ground arith)
                        | inr (applied, e3) ↦
                            let kept =
                              cover_waiting-KeepsWaiting key table_name commit waiting s covered e1
                                (has_waiting s key some_waiting) in
                            let same : applied.checkpoints_needing_extension_work
                                ≡ covered.1.checkpoints_needing_extension_work =
                              apply-waiting table_name commit _ applied e3
                              ∙ add_recent-waiting table_name commit.extension commit.files
                                  covered.1 in
                            let final : queue_publication_request default_metadata_namespace
                                  table_name (raise_latest table_name max_id applied)
                                ≡ s' =
                              ground arith in
                            let found : contains_key s'.checkpoints_needing_extension_work
                                  (checkpoint_key table_name "es")
                                ≡ true =
                              rw (← final, raise-waiting table_name max_id applied, same, ← is_es)
                                kept in
                            record {
                              waiting = found;
                              requested = rw (← final) (
                                  ground (
                                    arith,
                                    ==_refl request_key,
                                    get-insert request_key request_key
                                        (record { table_name = table_name })
                                        (raise_latest table_name max_id
                                          applied).checkpoint_publication_requests,
                                  ));
                            }
                      ]
          ]
        ]
      ]
