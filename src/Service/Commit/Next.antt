-- ===== src/Service/Commit/Next.antt =====
-- What the next commit finds, and where it panics, in service_lib/src/ephemeral_service_impl.rs.
use powdrr_engine.Common.{
  ℕ, ◌≡◌, ◌≢◌, refl, sym, ◌∙◌, arith, inl, inr, Bool-cases, Option-cases, ==_refl, ==_iff,
  ==_eq_false, String, true, Option, none, some, if◌then◌else◌, ◌==◌, unwrap_or, [], is_some,
  string_eq, nat_eq, option_eq,
}
use text.Mathlib.TextLemmas.{append_cancel_right}
use powdrr_engine.Common.Dict.{get, insert, get-insert}
use powdrr_engine.DataContract.Schema.{PowdrrSchema, minimal}
use powdrr_engine.DataContract.Types.{
  TableMetadataCheckpoint, SpeedboatCommitTableInfo, IcebergCommit,
}
use powdrr_engine.Service.State.{Payloads, EphemeralServiceImpl, checkpoint_key}
use powdrr_engine.Service.Cutover.{real_table_name, get_latest_materialized_checkpoint_sync}
use powdrr_engine.Service.Commit.{
  set_latest_committed_checkpoint, set_latest_committed_checkpoint_id,
}
use powdrr_engine.Service.Commit.Handlers.{
  speedboat_commit_type_commit, speedboat_commit_type_delete, get_checkpoint_sync,
  latest_checkpoint_or_empty,
}
use powdrr_engine.Service.Commit.Operations.{iceberg_commit}
use powdrr_engine.Service.Commit.Committed.{
  commit-IsCommitted, delete-IsCommitted, iceberg-IsCommitted,
}
use powdrr_engine.Service.Commit.Latest.{IsCommitted, set_latest-get}

module _ {P : Payloads} where
  -- After a commit, each name of its table has the new checkpoint as its latest one, and each other name
  -- has the one that it had.
  pub committed-latest :
      (c : TableMetadataCheckpoint P.Json) (id table_name other : String)
      (s s' : EphemeralServiceImpl P)
      → IsCommitted c id table_name s s'
      → get_latest_materialized_checkpoint_sync s' other none ≡ (
          if real_table_name s table_name == real_table_name s other
          then some id
          else get_latest_materialized_checkpoint_sync s other none)
  unfolding get_latest_materialized_checkpoint_sync set_latest_committed_checkpoint
  committed-latest c id table_name other s s' k =
      rw (k.latest, k.aliases) (set_latest-get table_name other none id s)

  -- After a commit, the next commit under the same name starts from the new checkpoint, also where the name
  -- is an alias.
  pub committed-next :
      (c : TableMetadataCheckpoint P.Json) (id table_name : String) (s s' : EphemeralServiceImpl P)
      (schema : Option PowdrrSchema)
      → IsCommitted c id table_name s s'
      → latest_checkpoint_or_empty s' table_name schema ≡ some c
  unfolding latest_checkpoint_or_empty get_checkpoint_sync
  committed-next c id table_name s s' schema k =
      let latest : get_latest_materialized_checkpoint_sync s' table_name none ≡ some id =
        rw
          (
            committed-latest c id table_name table_name s s' k,
            ==_refl (real_table_name s table_name),
          )
          refl in
      rw
        (
          latest,
          k.stored,
          get-insert,
          ==_refl (checkpoint_key table_name id),
          latest_checkpoint_or_empty,
        )
        refl

  set_latest-latest_of_extension :
      (id table_name other name : String) (s : EphemeralServiceImpl P)
      → get_latest_materialized_checkpoint_sync
          (set_latest_committed_checkpoint table_name none id s)
          other
          (some name)
        ≡ get_latest_materialized_checkpoint_sync s other (some name)
  unfolding get_latest_materialized_checkpoint_sync set_latest_committed_checkpoint
      set_latest_committed_checkpoint_id
  set_latest-latest_of_extension id table_name other name s =
      rw
        (
          get-insert none (some name)
              (insert (real_table_name s table_name) id
                (unwrap_or [] (get s.latest_committed_checkpoint_id none)))
              s.latest_committed_checkpoint_id,
          get_latest_materialized_checkpoint_sync,
        )
        refl

  committed-latest_of_extension :
      (c : TableMetadataCheckpoint P.Json) (id table_name other name : String)
      (s s' : EphemeralServiceImpl P)
      → IsCommitted c id table_name s s'
      → get_latest_materialized_checkpoint_sync s' other (some name)
        ≡ get_latest_materialized_checkpoint_sync s other (some name)
  unfolding get_latest_materialized_checkpoint_sync set_latest_committed_checkpoint
  committed-latest_of_extension c id table_name other name s s' k =
      rw (k.latest, k.aliases) (set_latest-latest_of_extension id table_name other name s)

  latest_of_alias-none :
      (c : TableMetadataCheckpoint P.Json) (id alias table_name : String)
      (s s' : EphemeralServiceImpl P) (schema : Option PowdrrSchema)
      → IsCommitted c id alias s s'
      → alias ≢ table_name
      → real_table_name s alias ≡ real_table_name s table_name
      → get_checkpoint_sync s table_name id ≡ none
      → latest_checkpoint_or_empty s' table_name schema ≡ none
  unfolding latest_checkpoint_or_empty get_checkpoint_sync checkpoint_key
  latest_of_alias-none c id alias table_name s s' schema k other same missing =
      let latest : get_latest_materialized_checkpoint_sync s' table_name none ≡ some id =
        rw
          (
            committed-latest c id alias table_name s s' k,
            same,
            ==_refl (real_table_name s table_name),
          )
          refl in
      let keys_differ : checkpoint_key alias id ≢ checkpoint_key table_name id =
        λ e. other (append_cancel_right _ _ _ e) in
      rw
        (
          latest,
          k.stored,
          get-insert,
          ==_eq_false (checkpoint_key alias id) (checkpoint_key table_name id) keys_differ,
          latest_checkpoint_or_empty,
        )
        missing

  -- Of each name that is not an alias, the latest checkpoint is stored, and so are those of its extensions.
  unfoldable pub IsStored : EphemeralServiceImpl P → Type 0
  IsStored s =
      (table_name id : String) (extension : Option String)
      → real_table_name s table_name ≡ table_name
      → get_latest_materialized_checkpoint_sync s table_name extension ≡ some id
      → is_some (get_checkpoint_sync s table_name id) ≡ true

  committed-stored :
      (c : TableMetadataCheckpoint P.Json) (id table_name other id' : String)
      (s s' : EphemeralServiceImpl P)
      → IsCommitted c id table_name s s'
      → is_some (get_checkpoint_sync s other id') ≡ true
      → is_some (get_checkpoint_sync s' other id') ≡ true
  unfolding get_checkpoint_sync
  committed-stored c id table_name other id' s s' k h = ground (
    arith,
    k.stored,
    get-insert (checkpoint_key table_name id) (checkpoint_key other id') c s.checkpoints,
  )

  committed-IsStored :
      (c : TableMetadataCheckpoint P.Json) (id table_name : String) (s s' : EphemeralServiceImpl P)
      → IsCommitted c id table_name s s'
      → real_table_name s table_name ≡ table_name
      → IsStored s
      → IsStored s'
  unfolding IsStored get_checkpoint_sync
  committed-IsStored c id table_name s s' k real stored other id' (some name) real' latest' =
      let real_other : real_table_name s other ≡ other = ground (arith, k.aliases, real') in
      committed-stored c id table_name other id' s s' k (
        stored other id' (some name) real_other
          (sym (committed-latest_of_extension c id table_name other name s s' k) ∙ latest'))
  committed-IsStored c id table_name s s' k real stored other id' none real' latest' =
      let e = committed-latest c id table_name other s s' k in
      let real_other : real_table_name s other ≡ other = ground (arith, k.aliases, real') in
      let stored_then =
        get-insert (checkpoint_key table_name id) (checkpoint_key other id') c s.checkpoints in
      elim (Bool-cases (real_table_name s table_name == real_table_name s other)) [
        | inl same ↦
            let same_table : table_name ≡ other =
              ground
                (arith, same, ==_iff (real_table_name s table_name) (real_table_name s other)) in
            let same_id : id ≡ id' = ground (arith, e, same, latest') in
            let same_key : checkpoint_key table_name id ≡ checkpoint_key other id' =
              rw (same_table, same_id) refl in
            ground (arith, k.stored, stored_then, same_key, ==_refl (checkpoint_key other id'))
        | inr different ↦
            let before : get_latest_materialized_checkpoint_sync s other none ≡ some id' =
              ground (arith, e, latest') in
            committed-stored c id table_name other id' s s' k
              (stored other id' none real_other before)
      ]

  -- Where every latest checkpoint is stored, looking up the latest one does not panic.
  pub stored-latest :
      (s : EphemeralServiceImpl P) (table_name : String) (schema : PowdrrSchema)
      → IsStored s
      → real_table_name s table_name ≡ table_name
      → is_some (latest_checkpoint_or_empty s table_name (some schema)) ≡ true
  unfolding IsStored latest_checkpoint_or_empty
  stored-latest s table_name schema stored real =
      elim (Option-cases (get_latest_materialized_checkpoint_sync s table_name none)) [
        | inl n ↦ ground arith
        | inr (id, l) ↦ ground (arith, stored table_name id none real l)
      ]

module _ {P : Payloads} (format_hash : String → String) (ids : ℕ → String) where
  -- A commit under a name that makes a checkpoint: one of speedboat files, of deletes or of iceberg files,
  -- which does not panic.
  pub data Commits : String → EphemeralServiceImpl P → EphemeralServiceImpl P → Type 0 where
    of_files :
        (table_info : SpeedboatCommitTableInfo) (compaction : Option String)
        (s s' : EphemeralServiceImpl P)
        → speedboat_commit_type_commit format_hash ids table_info compaction s ≡ some s'
        → Commits table_info.table_name s s'
    of_deletes :
        (table_info : SpeedboatCommitTableInfo) (compaction : Option String)
        (s s' : EphemeralServiceImpl P)
        → speedboat_commit_type_delete ids table_info compaction s ≡ some s'
        → Commits table_info.table_name s s'
    of_iceberg :
        (table_name : String) (commit : IcebergCommit P.Json) (s s' : EphemeralServiceImpl P)
        → iceberg_commit ids table_name commit s ≡ some s'
        → Commits table_name s s'

  Commits-IsCommitted :
      {table_name : String} {s s' : EphemeralServiceImpl P}
      → Commits table_name s s'
      → (c : TableMetadataCheckpoint P.Json) × IsCommitted c (ids s.ids_issued) table_name s s'
  Commits-IsCommitted (of_files table_info compaction s s' h) =
      commit-IsCommitted format_hash ids table_info compaction s s' h
  Commits-IsCommitted (of_deletes table_info compaction s s' h) =
      delete-IsCommitted ids table_info compaction s s' h
  Commits-IsCommitted (of_iceberg table_name commit s s' h) =
      let (c, k, m) = iceberg-IsCommitted ids table_name commit s s' h in (c, k)

  -- Commits of speedboat files, of deletes and of iceberg files under a name that is not an alias keep
  -- this: of each name that is not an alias, the latest checkpoint is stored, and so are the latest
  -- checkpoints of its extensions.
  pub Commits-IsStored :
      {table_name : String} {s s' : EphemeralServiceImpl P}
      → Commits table_name s s'
      → real_table_name s table_name ≡ table_name
      → IsStored s
      → IsStored s'
  Commits-IsStored {table_name} {s} {s'} k real stored =
      let (c, committed) = Commits-IsCommitted k in
      committed-IsStored c (ids s.ids_issued) table_name s s' committed real stored

  -- After a commit of speedboat files, of deletes or of iceberg files under an alias, each such commit under
  -- another name of the same table panics, the table's own name included, unless a checkpoint with the id
  -- of the first commit was stored under that name before: the new one is stored under the alias, and
  -- looked up under that name.
  pub Commits-none :
      {alias : String} {s s' : EphemeralServiceImpl P} (table_name : String)
      (files deletes : SpeedboatCommitTableInfo) (iceberg : IcebergCommit P.Json)
      (compaction : Option String)
      → Commits alias s s'
      → alias ≢ table_name
      → real_table_name s alias ≡ real_table_name s table_name
      → get_checkpoint_sync s table_name (ids s.ids_issued) ≡ none
      → files.table_name ≡ table_name
      → deletes.table_name ≡ table_name
      → (speedboat_commit_type_commit format_hash ids files compaction s' ≡ none)
        × (speedboat_commit_type_delete ids deletes compaction s' ≡ none)
        × (iceberg_commit ids table_name iceberg s' ≡ none)
  unfolding speedboat_commit_type_commit speedboat_commit_type_delete iceberg_commit
  Commits-none {alias} {s} {s'} table_name files deletes iceberg compaction k other same missing f
        d =
      let (c, committed) = Commits-IsCommitted k in
      let lost = λ (schema : Option PowdrrSchema).
        latest_of_alias-none c (ids s.ids_issued) alias table_name s s' schema committed other same
          missing in
      (
        rw (f, lost files.schema, speedboat_commit_type_commit) refl,
        rw (d, lost (some minimal), speedboat_commit_type_delete) refl,
        rw (lost (some iceberg.metadata.table_schema), iceberg_commit) refl,
      )
