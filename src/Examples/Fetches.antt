-- ===== src/Examples/Fetches.antt =====
-- Runs of query_runtime/src/ephemeral_fetch_tracker.rs on small inputs.
use powdrr_engine.Common.{◌≡◌, refl, none, some, [], ◌∷◌, string_eq, option_eq}
use powdrr_engine.Common.Dict.{get, insert}
use powdrr_engine.FetchTracker.{
  EphemeralFetchTracker, new, descriptor, get_latest_target_checkpoint, set_target_checkpoints,
  get_next_prefetch_checkpoints, set_next_prefetch_checkpoints, raise_targets, due_checkpoints,
}
use powdrr_engine.FetchTracker.Targets.{raised_all, set_target_checkpoints_lem}
use powdrr_engine.FetchTracker.Due.{get_next_prefetch_checkpoints-set_target_checkpoints}

abbrev tracker : EphemeralFetchTracker
tracker = record {
  next_target = (none, ("people", "b") ∷ []) ∷ [];
  current_target = (none, ("people", "a") ∷ []) ∷ [];
}

set_target_checkpoints_lem_example :
    get_latest_target_checkpoint
      (set_target_checkpoints (descriptor "people" "b" ∷ []) none tracker)
      "people"
      none
    ≡ raised_all "people"
        (get_latest_target_checkpoint tracker "people" none)
        (descriptor "people" "b" ∷ [])
set_target_checkpoints_lem_example =
    set_target_checkpoints_lem tracker (descriptor "people" "b" ∷ []) none none "people"

people_due : get_next_prefetch_checkpoints tracker none ≡ descriptor "people" "b" ∷ []
unfolding get_next_prefetch_checkpoints due_checkpoints get_latest_target_checkpoint get
people_due = refl

get_next_prefetch_checkpoints-set_target_checkpoints_example :
    get_next_prefetch_checkpoints
      (set_target_checkpoints (get_next_prefetch_checkpoints tracker none) none tracker)
      none
    ≡ []
get_next_prefetch_checkpoints-set_target_checkpoints_example =
    get_next_prefetch_checkpoints-set_target_checkpoints tracker none

-- a lower checkpoint does not take a target back
target_kept :
    get_latest_target_checkpoint
      (set_target_checkpoints (descriptor "people" "b" ∷ descriptor "people" "a" ∷ []) none tracker)
      "people"
      none
    ≡ some "b"
unfolding get_latest_target_checkpoint set_target_checkpoints raise_targets get insert
target_kept = refl

next_target_set :
    get_next_prefetch_checkpoints (set_next_prefetch_checkpoints "people" none "c" new) none
    ≡ descriptor "people" "c" ∷ []
unfolding get_next_prefetch_checkpoints set_next_prefetch_checkpoints due_checkpoints
    get_latest_target_checkpoint get insert
next_target_set = refl
