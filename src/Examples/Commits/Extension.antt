-- ===== src/Examples/Commits/Extension.antt =====
-- An extension commit after one of speedboat files, in
-- service_lib/src/ephemeral_service_impl.rs.
use powdrr_engine.Common.{
  List, ◌≡◌, refl, true, some, [], ◌∷◌, is_some, unwrap_or, string_eq, option_eq,
}
use powdrr_engine.DataContract.Types.{ExtensionCommit}
use powdrr_engine.Service.State.{
  EphemeralServiceImpl, checkpoint_publication_request_key, default_metadata_namespace,
}
use powdrr_engine.Service.Commit.Extension.{extension_commit}
use powdrr_engine.Service.Cutover.{checkpoint_publication_still_pending}
use powdrr_engine.Service.Commit.Queued.{update_at, extension_commit-update_all_checkpoints}
use powdrr_engine.Common.Int.{ℤ, pos}
use powdrr_engine.Common.Dict.{contains_key}
use powdrr_engine.Service.Commit.Raise.{IsRaised, extension_commit-IsRaised}
use powdrr_engine.Examples.Cutovers.{plain}
use powdrr_engine.Examples.Commits.{returned, first, run}

abbrev projections : ExtensionCommit
projections = record {
  id = "9";
  extension = "es";
  files = ("a.json", record { suffix = ".es"; location = "s3://a" } ∷ []) ∷ ("b.json", []) ∷ [];
}

extended : EphemeralServiceImpl plain
extended = unwrap_or first (extension_commit "people" projections first)

extended_is_some : is_some (extension_commit "people" projections first) ≡ true
unfolding first run
extended_is_some = refl

extended_returns : extension_commit "people" projections first ≡ some extended
unfolding extended
extended_returns = returned first _ extended_is_some

extension_commit-IsRaised_example : IsRaised "people" first extended
extension_commit-IsRaised_example =
    extension_commit-IsRaised "people" projections first extended extended_returns

abbrev two_times : List ℤ
two_times = pos 1200 ∷ pos 61200 ∷ []

extension_commit-update_all_checkpoints_example :
    (checkpoint_publication_still_pending (update_at two_times extended) "people" ≡ true)
    × (contains_key
          (update_at two_times extended).checkpoint_publication_requests
          (checkpoint_publication_request_key default_metadata_namespace "people")
        ≡ true)
extension_commit-update_all_checkpoints_example =
    extension_commit-update_all_checkpoints "people" projections first extended two_times refl
      extended_returns
