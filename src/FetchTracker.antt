-- ===== src/FetchTracker.antt =====
-- query_runtime/src/ephemeral_fetch_tracker.rs: for each extension, the checkpoint that a node's tables
-- are at, and the one that is to be fetched next.
pub mod Targets
pub mod Due
use powdrr_engine.Common.{
  String, Bool, true, Option, none, some, List, [], ◌∷◌, if◌then◌else◌, string_eq, option_eq,
  unwrap_or, ◌>>=◌,
}
use powdrr_engine.Common.Dict.{Dict, get, insert}
use powdrr_engine.Common.Order.{str_ltb}
use powdrr_engine.DataContract.Types.{CheckpointDescriptor}

pub record EphemeralFetchTracker : Type 0 where
  pub next_target : Dict (Option String) (Dict String String)
  pub current_target : Dict (Option String) (Dict String String)

abbrev pub new : EphemeralFetchTracker
new = record { next_target = []; current_target = [] }

abbrev pub descriptor : String → String → CheckpointDescriptor
descriptor table_name checkpoint_id = record {
  table_name = table_name;
  checkpoint_id = checkpoint_id;
  original_checkpoint_id = none;
}

unfoldable pub get_latest_target_checkpoint :
    EphemeralFetchTracker → String → Option String → Option String
get_latest_target_checkpoint s table_name extension =
    get s.current_target extension >>= λ target. get target table_name

-- one turn of the loop over the descriptors
abbrev pub raise_target : Dict String String → CheckpointDescriptor → Dict String String
raise_target target_map d = elim (get target_map d.table_name) [
  | some value ↦
      if str_ltb value d.checkpoint_id
      then insert d.table_name d.checkpoint_id target_map
      else target_map
  | none ↦ insert d.table_name d.checkpoint_id target_map
]

unfoldable pub raise_targets : Dict String String → List CheckpointDescriptor → Dict String String
raise_targets target_map [] = target_map
raise_targets target_map (d ∷ descriptors) = raise_targets (raise_target target_map d) descriptors

-- the map of an extension, made where there is none
abbrev pub map_of : Dict (Option String) (Dict String String) → Option String → Dict String String
map_of targets extension = unwrap_or [] (get targets extension)

unfoldable pub set_target_checkpoints :
    List CheckpointDescriptor → Option String → EphemeralFetchTracker → EphemeralFetchTracker
set_target_checkpoints descriptors extension s = record s {
  current_target =
      insert extension (raise_targets (map_of s.current_target extension) descriptors)
        s.current_target;
}

-- the next target of a table is above its target, or the table has none
abbrev pub is_due : EphemeralFetchTracker → Option String → String → String → Bool
is_due s extension table_name checkpoint_id =
    elim (get_latest_target_checkpoint s table_name extension) [
      | some latest ↦ str_ltb latest checkpoint_id
      | none ↦ true
    ]

unfoldable pub due_checkpoints :
    EphemeralFetchTracker → Option String → Dict String String → List CheckpointDescriptor
due_checkpoints s extension [] = []
due_checkpoints s extension ((table_name, checkpoint_id) ∷ targets) =
    let rest = due_checkpoints s extension targets in
    if is_due s extension table_name checkpoint_id
    then descriptor table_name checkpoint_id ∷ rest
    else rest

unfoldable pub get_next_prefetch_checkpoints :
    EphemeralFetchTracker → Option String → List CheckpointDescriptor
get_next_prefetch_checkpoints s extension = elim (get s.next_target extension) [
  | none ↦ []
  | some target_map ↦ due_checkpoints s extension target_map
]

unfoldable pub set_next_prefetch_checkpoints :
    String → Option String → String → EphemeralFetchTracker → EphemeralFetchTracker
set_next_prefetch_checkpoints table_name extension checkpoint_id s = record s {
  next_target =
      insert extension (insert table_name checkpoint_id (map_of s.next_target extension))
        s.next_target;
}
