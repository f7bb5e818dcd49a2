-- ===== src/FetchTracker/Targets.antt =====
-- The targets of query_runtime/src/ephemeral_fetch_tracker.rs only move up.
use powdrr_engine.Common.{
  String, ◌≡◌, refl, ◌∙◌, ap, Bool, true, false, not, Option, none, some, List, [], ◌∷◌,
  if◌then◌else◌, ◌==◌, string_eq, option_eq, ◌>>=◌, arith, Bool-cases, Option-cases, inl, inr,
}
use powdrr_engine.Common.Dict.{Dict, get, get-insert}
use powdrr_engine.Common.Order.{str_ltb}
use powdrr_engine.Query.Order.{str_lt_trans, str_flip}
use powdrr_engine.DataContract.Types.{CheckpointDescriptor}
use powdrr_engine.FetchTracker.{
  EphemeralFetchTracker, get_latest_target_checkpoint, raise_target, raise_targets, map_of,
  set_target_checkpoints,
}

-- a target that has reached a checkpoint
abbrev pub reaches : Option String → String → Bool
reaches none checkpoint_id = false
reaches (some latest) checkpoint_id = not (str_ltb latest checkpoint_id)

-- the target of a table after a descriptor, and after all of them
abbrev pub raised : String → Option String → CheckpointDescriptor → Option String
raised table_name target d =
    if d.table_name == table_name
    then (if reaches target d.checkpoint_id then target else some d.checkpoint_id)
    else target

unfoldable pub raised_all : String → Option String → List CheckpointDescriptor → Option String
raised_all table_name target [] = target
raised_all table_name target (d ∷ descriptors) =
    raised_all table_name (raised table_name target d) descriptors

pub ltb_irrefl : (a : String) → str_ltb a a ≡ false
ltb_irrefl a = ground (arith, str_flip a a)

ltb_trans : (a b c : String) → str_ltb a b ≡ true → str_ltb b c ≡ true → str_ltb a c ≡ true
ltb_trans a b c h k = ground (arith, str_lt_trans a b c)

get-raise_target :
    (target_map : Dict String String) (d : CheckpointDescriptor) (table_name : String)
    → get (raise_target target_map d) table_name ≡ raised table_name (get target_map table_name) d
get-raise_target target_map d table_name = elim (Option-cases (get target_map d.table_name)) [
  | inl e ↦
      rw (raise_target, e)
        (rw (get-insert d.table_name table_name d.checkpoint_id target_map)
          (ground (arith, e, string_eq.same_iff d.table_name table_name)))
  | inr (value, e) ↦ elim (Bool-cases (str_ltb value d.checkpoint_id)) [
    | inl above ↦
        rw (raise_target, e, above)
          (rw (get-insert d.table_name table_name d.checkpoint_id target_map)
            (ground (arith, e, above, string_eq.same_iff d.table_name table_name)))
    | inr below ↦
        rw (raise_target, e, below)
          (ground (arith, e, below, string_eq.same_iff d.table_name table_name))
  ]
]

get-raise_targets :
    (target_map : Dict String String) (descriptors : List CheckpointDescriptor)
    (table_name : String)
    → get (raise_targets target_map descriptors) table_name
      ≡ raised_all table_name (get target_map table_name) descriptors
unfolding raise_targets raised_all
get-raise_targets target_map [] table_name = refl
get-raise_targets target_map (d ∷ descriptors) table_name =
    get-raise_targets (raise_target target_map d) descriptors table_name
    ∙ ap (λ t. raised_all table_name t descriptors) (get-raise_target target_map d table_name)

-- a target that has reached a checkpoint keeps it, and reaches that of a descriptor of its table
pub raised-reaches :
    (table_name : String) (target : Option String) (d : CheckpointDescriptor)
    (checkpoint_id : String)
    → reaches target checkpoint_id ≡ true
    → reaches (raised table_name target d) checkpoint_id ≡ true
raised-reaches table_name none d checkpoint_id h = ground arith
raised-reaches table_name (some latest) d checkpoint_id h =
    ground (arith, ltb_trans latest d.checkpoint_id checkpoint_id)

raised_all-reaches :
    (table_name : String) (target : Option String) (descriptors : List CheckpointDescriptor)
    (checkpoint_id : String)
    → reaches target checkpoint_id ≡ true
    → reaches (raised_all table_name target descriptors) checkpoint_id ≡ true
unfolding raised_all
raised_all-reaches table_name target [] checkpoint_id h = h
raised_all-reaches table_name target (d ∷ descriptors) checkpoint_id h =
    raised_all-reaches table_name (raised table_name target d) descriptors checkpoint_id
      (raised-reaches table_name target d checkpoint_id h)

get-map_of :
    (targets : Dict (Option String) (Dict String String)) (extension : Option String)
    (table_name : String)
    → get (map_of targets extension) table_name
      ≡ (get targets extension >>= λ target. get target table_name)
unfolding get
get-map_of targets extension table_name = elim (Option-cases (get targets extension)) [
  | inl e ↦ rw (map_of, e) refl
  | inr (target, e) ↦ rw (map_of, e) refl
]

-- Setting targets for an extension raises the target of each table to the greatest checkpoint of its
-- descriptors, where that is above it, and changes no target of another extension.
pub set_target_checkpoints_lem :
    (s : EphemeralFetchTracker) (descriptors : List CheckpointDescriptor)
    (extension e : Option String) (table_name : String)
    → get_latest_target_checkpoint (set_target_checkpoints descriptors extension s) table_name e ≡ (
        if extension == e
        then raised_all table_name (get_latest_target_checkpoint s table_name e) descriptors
        else get_latest_target_checkpoint s table_name e)
unfolding set_target_checkpoints get_latest_target_checkpoint
set_target_checkpoints_lem s descriptors extension e table_name =
    rw
      (get-insert extension e (raise_targets (map_of s.current_target extension) descriptors)
        s.current_target)
      (elim (Bool-cases (extension == e)) [
        | inl same ↦ rw same (
            get-raise_targets (map_of s.current_target extension) descriptors table_name
            ∙ ap (λ t. raised_all table_name t descriptors)
                (get-map_of s.current_target extension table_name
                  ∙ ap (λ x. get s.current_target x >>= λ target. get target table_name)
                      ((option_eq.same_iff extension e).0 same)))
        | inr other ↦ rw other refl
      ])
