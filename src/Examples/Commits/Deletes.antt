-- ===== src/Examples/Commits/Deletes.antt =====
-- A commit of delete files after one of speedboat files, in
-- service_lib/src/ephemeral_service_impl.rs.
use powdrr_engine.Common.{◌≡◌, refl, true, none, some, is_some, unwrap_or, string_eq, option_eq}
use powdrr_engine.DataContract.Types.{SpeedboatCommitTableInfo}
use powdrr_engine.Service.State.{EphemeralServiceImpl}
use powdrr_engine.Service.Commit.Handlers.{speedboat_commit_type_delete}
use powdrr_engine.Examples.Cutovers.{plain}
use powdrr_engine.Examples.Commits.{returned, ids, two_files, first, run}

abbrev two_deletes : SpeedboatCommitTableInfo
two_deletes = record two_files { commit_type = "delete" }

deleted : EphemeralServiceImpl plain
deleted = unwrap_or first (speedboat_commit_type_delete ids two_deletes none first)

deleted_is_some : is_some (speedboat_commit_type_delete ids two_deletes none first) ≡ true
unfolding first run
deleted_is_some = refl

deleted_returns : speedboat_commit_type_delete ids two_deletes none first ≡ some deleted
unfolding deleted
deleted_returns = returned first _ deleted_is_some
