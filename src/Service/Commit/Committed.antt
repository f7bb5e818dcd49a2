-- ===== src/Service/Commit/Committed.antt =====
-- The three commits that make a checkpoint, in service_lib/src/ephemeral_service_impl.rs: speedboat commits
-- of files and of deletes, and iceberg commits.
use powdrr_engine.Common.{
  ◌≡◌, arith, inl, inr, Option-cases, ℕ, String, Option, some, string_eq, nat_eq, option_eq,
}
use powdrr_engine.DataContract.Schema.{minimal, merge_from}
use powdrr_engine.DataContract.Types.{
  SpeedboatCommitTableInfo, IcebergCommit, TableMetadataCheckpoint,
}
use powdrr_engine.Service.State.{Payloads, EphemeralServiceImpl}
use powdrr_engine.Service.Commit.{
  next_id, set_latest_committed_checkpoint_id, set_latest_committed_checkpoint,
}
use powdrr_engine.Service.Commit.Handlers.{
  latest_checkpoint_or_empty, speedboat_commit_type_commit, speedboat_commit_type_delete,
  speedboat_checkpoint, delete_checkpoint, committed_speedboat_files, merged_schema_of,
}
use powdrr_engine.Service.Commit.Operations.{iceberg_commit, iceberg_checkpoint}
use powdrr_engine.Service.Commit.Latest.{
  IsCommitted, finish_speedboat-IsCommitted, finish_delete-IsCommitted, finish_iceberg-IsCommitted,
}

module _ {P : Payloads} where
  -- s' but for the count of the ids that were issued
  shift_ids :
      (ids : ℕ → String) (c : TableMetadataCheckpoint P.Json) (id table_name : String)
      (s s' : EphemeralServiceImpl P)
      → IsCommitted c id table_name (next_id ids s).1 s'
      → IsCommitted c id table_name s s'
  unfolding next_id set_latest_committed_checkpoint set_latest_committed_checkpoint_id
  shift_ids ids c id table_name s s' k = record {
    new_id = k.new_id;
    of_table = k.of_table;
    stored = k.stored;
    latest = k.latest;
    aliases = k.aliases;
    published = k.published;
    views = k.views;
    epochs = k.epochs;
    work = k.work;
  }

  -- A speedboat commit of files that does not panic makes one checkpoint, with the next id: it is stored
  -- under the name of the commit, and it is the latest one of the table that the name stands for. No
  -- other checkpoint, and no alias, published checkpoint, view or epoch is lost or changed, and each
  -- extension that has a map of work items keeps one.
  pub commit-IsCommitted :
      (format_hash : String → String) (ids : ℕ → String) (table_info : SpeedboatCommitTableInfo)
      (compaction : Option String) (s s' : EphemeralServiceImpl P)
      → speedboat_commit_type_commit format_hash ids table_info compaction s ≡ some s'
      → (c : TableMetadataCheckpoint P.Json) × IsCommitted c
          (ids s.ids_issued)
          table_info.table_name
          s
          s'
  unfolding speedboat_commit_type_commit next_id
  commit-IsCommitted format_hash ids table_info compaction s s' h =
      elim (Option-cases (latest_checkpoint_or_empty s table_info.table_name table_info.schema)) [
        | inl n ↦ absurd (ground arith)
        | inr (latest, e1) ↦
            elim (Option-cases
              (committed_speedboat_files format_hash table_info latest.speedboat_metadata)) [
                | inl n ↦ absurd (ground arith)
                | inr (files, e2) ↦ elim (Option-cases (merged_schema_of table_info latest)) [
                  | inl n ↦ absurd (ground arith)
                  | inr (schema, e3) ↦
                      let (c, k) =
                        finish_speedboat-IsCommitted ids compaction
                          (speedboat_checkpoint (ids s.ids_issued) table_info latest files schema)
                          (next_id ids s).1 s'
                          (rw (e1, e2, e3, speedboat_commit_type_commit) at h) in
                      (c, shift_ids ids c (ids s.ids_issued) table_info.table_name s s' k)
                ]
              ]
      ]

  -- The same of a speedboat commit of deletes.
  pub delete-IsCommitted :
      (ids : ℕ → String) (table_info : SpeedboatCommitTableInfo) (compaction : Option String)
      (s s' : EphemeralServiceImpl P)
      → speedboat_commit_type_delete ids table_info compaction s ≡ some s'
      → (c : TableMetadataCheckpoint P.Json) × IsCommitted c
          (ids s.ids_issued)
          table_info.table_name
          s
          s'
  unfolding speedboat_commit_type_delete next_id
  delete-IsCommitted ids table_info compaction s s' h =
      elim (Option-cases (latest_checkpoint_or_empty s table_info.table_name (some minimal))) [
        | inl n ↦ absurd (ground arith)
        | inr (latest, e1) ↦
            let (c, k) =
              finish_delete-IsCommitted compaction
                (delete_checkpoint (ids s.ids_issued) table_info latest) (next_id ids s).1 s'
                (rw (e1, speedboat_commit_type_delete) at h) in
            (c, shift_ids ids c (ids s.ids_issued) table_info.table_name s s' k)
      ]

  -- An iceberg commit that does not panic makes one checkpoint, with the next id, whose metadata are those
  -- of the commit: it is stored under the name of the commit, and it is the latest one of the table that
  -- the name stands for. No checkpoint, alias or published checkpoint is lost or changed.
  pub iceberg-IsCommitted :
      (ids : ℕ → String) (table_name : String) (commit : IcebergCommit P.Json)
      (s s' : EphemeralServiceImpl P)
      → iceberg_commit ids table_name commit s ≡ some s'
      → (c : TableMetadataCheckpoint P.Json) × IsCommitted c (ids s.ids_issued) table_name s s'
        × (c.iceberg_metadata ≡ some commit.metadata)
  unfolding iceberg_commit next_id
  iceberg-IsCommitted ids table_name commit s s' h =
      elim (Option-cases
        (latest_checkpoint_or_empty s table_name (some commit.metadata.table_schema))) [
          | inl n ↦ absurd (ground arith)
          | inr (latest, e1) ↦
              elim (Option-cases (merge_from latest.schema commit.metadata.table_schema)) [
                | inl n ↦ absurd (ground arith)
                | inr (schema, e2) ↦
                    let (c, k, m) =
                      finish_iceberg-IsCommitted ids commit.compactions
                        (iceberg_checkpoint (ids s.ids_issued) table_name commit.metadata latest
                          schema)
                        (next_id ids s).1 s' (rw (e1, e2, iceberg_commit) at h) in
                    (c, shift_ids ids c (ids s.ids_issued) table_name s s' k, m)
              ]
        ]
