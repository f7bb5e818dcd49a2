-- ===== src/FetchTracker/Due.antt =====
-- What query_runtime/src/ephemeral_fetch_tracker.rs has due is fetched once the targets are set to it.
use powdrr_engine.Common.{
  String, ◌≡◌, refl, ◌∙◌, ap, Bool, true, false, not, ◌&&◌, Option, none, some, List, [], ◌∷◌,
  if◌then◌else◌, ◌==◌, string_eq, option_eq, ◌||◌, all, arith, Option-cases, inl, inr,
}
use powdrr_engine.Common.Dict.{Dict, get}
use powdrr_engine.DataContract.Types.{CheckpointDescriptor}
use powdrr_engine.FetchTracker.{
  EphemeralFetchTracker, descriptor, get_latest_target_checkpoint, set_target_checkpoints, is_due,
  due_checkpoints, get_next_prefetch_checkpoints,
}
use powdrr_engine.FetchTracker.Targets.{
  reaches, raised, raised_all, ltb_irrefl, raised-reaches, set_target_checkpoints_lem,
}

is_due_lem :
    (s : EphemeralFetchTracker) (extension : Option String) (table_name checkpoint_id : String)
    → is_due s extension table_name checkpoint_id
      ≡ not (reaches (get_latest_target_checkpoint s table_name extension) checkpoint_id)
is_due_lem s extension table_name checkpoint_id =
    elim (Option-cases (get_latest_target_checkpoint s table_name extension)) [
      | inl e ↦ rw (is_due, e) refl
      | inr (latest, e) ↦ rw (is_due, e) (ground arith)
    ]

abbrev listed : String → String → List CheckpointDescriptor → Bool
listed table_name checkpoint_id [] = false
listed table_name checkpoint_id (d ∷ descriptors) =
    (d.table_name == table_name && d.checkpoint_id == checkpoint_id)
    || listed table_name checkpoint_id descriptors

raised-reached :
    (target : Option String) (d : CheckpointDescriptor) (table_name checkpoint_id : String)
    → (d.table_name == table_name && d.checkpoint_id == checkpoint_id) ≡ true
    → reaches (raised table_name target d) checkpoint_id ≡ true
raised-reached none d table_name checkpoint_id h = ground (
  arith,
  ltb_irrefl checkpoint_id,
  string_eq.same_iff d.table_name table_name,
  string_eq.same_iff d.checkpoint_id checkpoint_id,
)
raised-reached (some latest) d table_name checkpoint_id h = ground (
  arith,
  ltb_irrefl checkpoint_id,
  string_eq.same_iff d.table_name table_name,
  string_eq.same_iff d.checkpoint_id checkpoint_id,
)

-- the target reaches a checkpoint that it has reached before, or that one of the descriptors is of
settled :
    (table_name : String) (target : Option String) (descriptors : List CheckpointDescriptor)
    (checkpoint_id : String)
    → (reaches target checkpoint_id || listed table_name checkpoint_id descriptors) ≡ true
    → reaches (raised_all table_name target descriptors) checkpoint_id ≡ true
unfolding raised_all
settled table_name target [] checkpoint_id h = ground arith
settled table_name target (d ∷ descriptors) checkpoint_id h =
    settled table_name (raised table_name target d) descriptors checkpoint_id (
      ground (
        arith,
        raised-reached target d table_name checkpoint_id,
        raised-reaches table_name target d checkpoint_id,
      ))

-- each next target is reached, or among the descriptors
abbrev covers :
    EphemeralFetchTracker → Option String → List CheckpointDescriptor → String × String → Bool
covers s extension descriptors entry =
    reaches (get_latest_target_checkpoint s entry.0 extension) entry.1
    || listed entry.0 entry.1 descriptors

covers_more :
    (s : EphemeralFetchTracker) (extension : Option String) (d : CheckpointDescriptor)
    (descriptors : List CheckpointDescriptor) (targets : Dict String String)
    → all (covers s extension descriptors) targets ≡ true
    → all (covers s extension (d ∷ descriptors)) targets ≡ true
covers_more s extension d descriptors [] h = refl
covers_more s extension d descriptors (entry ∷ targets) h =
    ground (arith, covers_more s extension d descriptors targets)

covers_next :
    (s : EphemeralFetchTracker) (extension : Option String) (table_name checkpoint_id : String)
    (rest : List CheckpointDescriptor) (targets : Dict String String) (due : Bool)
    → is_due s extension table_name checkpoint_id ≡ due
    → all (covers s extension rest) targets ≡ true
    → all
        (covers s extension (if due then descriptor table_name checkpoint_id ∷ rest else rest))
        ((table_name, checkpoint_id) ∷ targets)
      ≡ true
covers_next s extension table_name checkpoint_id rest targets true e h = ground (
  arith,
  string_eq.same_iff table_name table_name,
  string_eq.same_iff checkpoint_id checkpoint_id,
  covers_more s extension (descriptor table_name checkpoint_id) rest targets,
)
covers_next s extension table_name checkpoint_id rest targets false e h =
    ground (arith, is_due_lem s extension table_name checkpoint_id)

all-due_checkpoints :
    (s : EphemeralFetchTracker) (extension : Option String) (targets : Dict String String)
    → all (covers s extension (due_checkpoints s extension targets)) targets ≡ true
unfolding due_checkpoints
all-due_checkpoints s extension [] = refl
all-due_checkpoints s extension ((table_name, checkpoint_id) ∷ targets) =
    covers_next s extension table_name checkpoint_id (due_checkpoints s extension targets) targets
      (is_due s extension table_name checkpoint_id) refl (all-due_checkpoints s extension targets)

next_target-kept :
    (descriptors : List CheckpointDescriptor) (extension : Option String)
    (s : EphemeralFetchTracker)
    → (set_target_checkpoints descriptors extension s).next_target ≡ s.next_target
unfolding set_target_checkpoints
next_target-kept descriptors extension s = refl

due_checkpoints-none :
    (s : EphemeralFetchTracker) (extension : Option String)
    (descriptors : List CheckpointDescriptor) (targets : Dict String String)
    → all (covers s extension descriptors) targets ≡ true
    → due_checkpoints (set_target_checkpoints descriptors extension s) extension targets ≡ []
unfolding due_checkpoints
due_checkpoints-none s extension descriptors [] h = refl
due_checkpoints-none s extension descriptors ((table_name, checkpoint_id) ∷ targets) h =
    rw (reached, due_checkpoints-none s extension descriptors targets (ground arith)) refl
  where
    same : (extension == extension) ≡ true
    same = (option_eq.same_iff extension extension).1 refl

    reached :
        is_due (set_target_checkpoints descriptors extension s) extension table_name checkpoint_id
        ≡ false
    reached =
        is_due_lem (set_target_checkpoints descriptors extension s) extension table_name
          checkpoint_id
        ∙ rw (set_target_checkpoints_lem s descriptors extension extension table_name, same)
            (ap not (
              settled table_name (get_latest_target_checkpoint s table_name extension) descriptors
                checkpoint_id (ground arith)))

abbrev due_of :
    EphemeralFetchTracker → Option String → Option (Dict String String) → List CheckpointDescriptor
due_of s extension none = []
due_of s extension (some targets) = due_checkpoints s extension targets

get_next_prefetch_checkpoints_lem :
    (s : EphemeralFetchTracker) (extension : Option String) (o : Option (Dict String String))
    → get s.next_target extension ≡ o
    → get_next_prefetch_checkpoints s extension ≡ due_of s extension o
unfolding get_next_prefetch_checkpoints
get_next_prefetch_checkpoints_lem s extension none e = rw (get_next_prefetch_checkpoints, e) refl
get_next_prefetch_checkpoints_lem s extension (some targets) e =
    rw (get_next_prefetch_checkpoints, e) refl

due_of-none :
    (s : EphemeralFetchTracker) (extension : Option String) (o : Option (Dict String String))
    → due_of (set_target_checkpoints (due_of s extension o) extension s) extension o ≡ []
due_of-none s extension none = refl
due_of-none s extension (some targets) =
    due_checkpoints-none s extension (due_checkpoints s extension targets) targets
      (all-due_checkpoints s extension targets)

-- Once the targets of an extension are set to the checkpoints that are to be fetched next, none is left
-- to be fetched.
pub get_next_prefetch_checkpoints-set_target_checkpoints :
    (s : EphemeralFetchTracker) (extension : Option String)
    → get_next_prefetch_checkpoints
        (set_target_checkpoints (get_next_prefetch_checkpoints s extension) extension s)
        extension
      ≡ []
get_next_prefetch_checkpoints-set_target_checkpoints s extension =
    get_next_prefetch_checkpoints_lem
      (set_target_checkpoints (get_next_prefetch_checkpoints s extension) extension s) extension
      (get s.next_target extension)
      (ap (λ m. get m extension)
        (next_target-kept (get_next_prefetch_checkpoints s extension) extension s))
    ∙ ap
        (λ ds.
          due_of (set_target_checkpoints ds extension s) extension (get s.next_target extension))
        (get_next_prefetch_checkpoints_lem s extension (get s.next_target extension) refl)
    ∙ due_of-none s extension (get s.next_target extension)
