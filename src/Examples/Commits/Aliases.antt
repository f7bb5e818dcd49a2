-- ===== src/Examples/Commits/Aliases.antt =====
-- A commit under an alias, in service_lib/src/ephemeral_service_impl.rs, and what
-- it leaves behind under the table's name.
use powdrr_engine.Common.{
  String, is_some, true, ◌≡◌, ◌≢◌, refl, none, some, [], ◌∷◌, arith, ==_iff, unwrap_or, string_eq,
  option_eq,
}
use powdrr_engine.Common.Dict.{get}
use powdrr_engine.DataContract.Types.{IcebergCommit, SpeedboatCommitTableInfo}
use powdrr_engine.Service.State.{EphemeralServiceImpl}
use powdrr_engine.Service.Cutover.{real_table_name}
use powdrr_engine.Service.Commit.Handlers.{
  get_checkpoint_sync, speedboat_commit_type_commit, speedboat_commit_type_delete,
}
use powdrr_engine.Service.Commit.Next.{of_files, Commits-none}
use powdrr_engine.Service.Commit.Operations.{iceberg_commit}
use powdrr_engine.Examples.Cutovers.{plain, empty_service}
use powdrr_engine.Examples.Commits.{ids, hash_of, people, two_files, run, returned}

-- the same table under an alias
abbrev aliased : EphemeralServiceImpl plain
aliased = record empty_service { table_aliases = ("persons", "people") ∷ [] }

abbrev alias_files : SpeedboatCommitTableInfo
alias_files = record two_files { table_name = "persons" }

aliased_first : EphemeralServiceImpl plain
aliased_first =
    unwrap_or aliased (speedboat_commit_type_commit hash_of ids alias_files none aliased)

no_panic : is_some (speedboat_commit_type_commit hash_of ids alias_files none aliased) ≡ true
unfolding run
no_panic = refl

returns : speedboat_commit_type_commit hash_of ids alias_files none aliased ≡ some aliased_first
unfolding aliased_first
returns = returned aliased _ no_panic

other_name : alias_files.table_name ≢ two_files.table_name
other_name = λ e. absurd (ground (arith, (==_iff alias_files.table_name two_files.table_name).1 e))

one_table : real_table_name aliased "persons" ≡ real_table_name aliased "people"
unfolding get
one_table = refl

not_stored : get_checkpoint_sync aliased "people" "1" ≡ none
unfolding get get_checkpoint_sync
not_stored = refl

abbrev snapshot : IcebergCommit String
snapshot = record {
  metadata = record {
    table_schema = people;
    snapshot_id = some "7";
    files = record { file_paths = []; schemas = []; file_schemas = []; sizes = [] };
    partition_spec = [];
    sort_order = [];
    column_names = [];
    column_stats = [];
    access_artifacts = [];
    file_stats = [];
  };
  deletes_table_info = none;
  compactions = [];
}

Commits-none_example :
    (speedboat_commit_type_commit hash_of ids two_files none aliased_first ≡ none)
    × (speedboat_commit_type_delete ids two_files none aliased_first ≡ none)
    × (iceberg_commit ids "people" snapshot aliased_first ≡ none)
Commits-none_example =
    Commits-none hash_of ids "people" two_files two_files snapshot none
      (of_files alias_files none aliased aliased_first returns) other_name one_table not_stored refl
      refl
