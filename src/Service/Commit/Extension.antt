-- ===== src/Service/Commit/Extension.antt =====
-- Extension commits of `EphemeralServiceImpl`, in service_lib/src/ephemeral_service_impl.rs: the coverage
-- of the waiting checkpoints, and which of them becomes the extension's latest one.
use powdrr_engine.Common.{
  String, not, Option, none, some, List, [], ◌∷◌, if◌then◌else◌, ◌==◌, ltb, ◌>>=◌, ◌>>◌, assert,
  retain, length, unwrap_or, string_eq, nat_eq, option_eq,
}
use powdrr_engine.Common.Dict.{get, insert, keys}
use powdrr_engine.Common.Order.{str_ltb, max?}
use powdrr_engine.DataContract.FileSet
use powdrr_engine.DataContract.FileSet.{FileSetPayload, FileDescriptor, as_file_tuples}
use powdrr_engine.DataContract.Types.{ExtensionCommit}
use powdrr_engine.DataContract.Checkpoint.{add_coverage, fully_covered_for_extension}
use powdrr_engine.Service.State.{
  Payloads, EphemeralServiceImpl, checkpoint_key, default_metadata_namespace, es,
}
use powdrr_engine.Service.Cutover.{get_latest_materialized_checkpoint_sync}
use powdrr_engine.Service.Publish.{queue_publication_request}
use powdrr_engine.Service.Commit.{add_recent_extension_files, set_latest_committed_checkpoint}

module _ {P : Payloads} where
  -- the id is returned where the checkpoint is now fully covered; it then no longer waits
  unfoldable pub add_coverage_for :
      String
      → String
      → ExtensionCommit
      → EphemeralServiceImpl P
      → Option (Option String × EphemeralServiceImpl P)
  unfolding add_coverage
  add_coverage_for table_name checkpoint_id commit s = do
    let key = checkpoint_key table_name checkpoint_id
    checkpoint ← get s.checkpoints key
    let covered = (add_coverage checkpoint commit).0
    let s1 = record s { checkpoints = insert key covered s.checkpoints }
    fully ← fully_covered_for_extension covered commit.extension
    let waiting_key = checkpoint_key table_name commit.extension
    some (
        if fully
        then (
          some checkpoint_id,
          elim (get s1.checkpoints_needing_extension_work waiting_key) [
            | none ↦ s1
            | some waiting ↦ record s1 {
              checkpoints_needing_extension_work =
                  insert waiting_key (retain (λ x. not (x == checkpoint_id)) waiting)
                    s1.checkpoints_needing_extension_work;
            }
          ],
        )
        else (none, s1))

  -- the ids of the waiting checkpoints that the commit completes
  unfoldable pub cover_waiting :
      String
      → ExtensionCommit
      → List String
      → EphemeralServiceImpl P
      → Option (List String × EphemeralServiceImpl P)
  unfolding add_coverage_for
  cover_waiting table_name commit [] s = some ([], s)
  cover_waiting table_name commit (checkpoint_id ∷ checkpoint_ids) s = do
    covered ← add_coverage_for table_name checkpoint_id commit s
    rest ← cover_waiting table_name commit checkpoint_ids covered.1
    some (elim covered.0 [ none ↦ rest.0 | some id ↦ id ∷ rest.0 ], rest.1)

  unfoldable pub apply_extension_commit_to_work_item :
      String → ExtensionCommit → EphemeralServiceImpl P → Option (EphemeralServiceImpl P)
  apply_extension_commit_to_work_item table_name commit s =
      elim (get s.extension_work_items commit.extension) [
        | none ↦ some s
        | some items ↦ elim (get items table_name) [
          | none ↦ some s
          | some tracker ↦ do
            let committed_files = keys commit.files
            speedboat ← FileSet.remove tracker.work_item.speedboat_files committed_files
            iceberg ← FileSet.remove tracker.work_item.iceberg_files committed_files
            some (record s {
              extension_work_items =
                  insert commit.extension
                    (insert table_name
                      (record {
                        work_item = record tracker.work_item {
                          speedboat_files = speedboat;
                          iceberg_files = iceberg;
                        };
                        lease_expires_at_ms = none;
                      })
                      items)
                    s.extension_work_items;
            })
        ]
      ]

  -- the last step of `extension_commit`: the "es" checkpoint only moves to a larger id
  unfoldable pub raise_latest : String → String → EphemeralServiceImpl P → EphemeralServiceImpl P
  raise_latest table_name max_id s =
      elim (get_latest_materialized_checkpoint_sync s table_name es) [
        | some latest ↦
            if str_ltb latest max_id
            then set_latest_committed_checkpoint table_name es max_id s
            else s
        | none ↦ set_latest_committed_checkpoint table_name es max_id s
      ]

  unfoldable pub extension_commit :
      String → ExtensionCommit → EphemeralServiceImpl P → Option (EphemeralServiceImpl P)
  unfolding cover_waiting raise_latest apply_extension_commit_to_work_item
  extension_commit table_name commit s = do
    let waiting =
        unwrap_or []
          (get s.checkpoints_needing_extension_work (checkpoint_key table_name commit.extension))
    assert (ltb 0 (length waiting))
    covered ← cover_waiting table_name commit waiting s
    max_id ← max? covered.0
    applied ←
        apply_extension_commit_to_work_item table_name commit
          (add_recent_extension_files table_name commit.extension commit.files covered.1)
    some (
        queue_publication_request default_metadata_namespace table_name
          (raise_latest table_name max_id applied))
