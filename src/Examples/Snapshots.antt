-- ===== src/Examples/Snapshots.antt =====
-- A service that stops and starts again, service_lib/src/ephemeral_service_impl.rs: after a commit.
use powdrr_engine.Common.{◌≡◌, none}
use powdrr_engine.Common.Int.{pos}
use powdrr_engine.Service.Tables.{ephemeral_default}
use powdrr_engine.Service.State.{EphemeralServiceImpl}
use powdrr_engine.Service.Publish.{update_all_checkpoints}
use powdrr_engine.Service.Runs.{Reachable, start, after, commit_files, update_all}
use powdrr_engine.Service.Snapshots.{
  snapshot_state, from_snapshot, new, deserialize_latest_committed_checkpoint_id, collect_onto,
}
use powdrr_engine.Service.Snapshots.Reached.{from_snapshot-Reachable}
use powdrr_engine.Examples.Cutovers.{plain}
use powdrr_engine.Examples.Commits.{first, first_returns, two_files, hash_of, ids}

first-Reachable : Reachable hash_of ids ephemeral_default first
unfolding new from_snapshot deserialize_latest_committed_checkpoint_id collect_onto
first-Reachable = after start (commit_files two_files none _ first first_returns)

stopped : EphemeralServiceImpl plain
stopped = (update_all_checkpoints (pos 1200) first).0

stopped-Reachable : Reachable hash_of ids ephemeral_default stopped
unfolding stopped
stopped-Reachable = after first-Reachable (update_all (pos 1200) first)

from_snapshot-Reachable_example :
    from_snapshot stopped.ids_issued stopped.mode (snapshot_state stopped) ≡ stopped
from_snapshot-Reachable_example = from_snapshot-Reachable hash_of ids stopped-Reachable
