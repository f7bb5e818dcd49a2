-- ===== src/Service/Snapshots/RoundTrip.antt =====
-- The snapshot of a state is read back as that state, service_lib/src/ephemeral_service_impl.rs: what
-- `from_snapshot` makes of the result of `snapshot_state`.
use powdrr_engine.Common.{
  String, ◌≡◌, ◌≢◌, refl, sym, ap, ◌∙◌, true, false, Option, none, some, List, [], ◌∷◌, ◌++◌, map,
  ◌==◌, string_eq, option_eq, contains, distinct, contains-append, Eq, arith,
}
use mathlib.Core.List.{append-nil, append_assoc}
use powdrr_engine.Common.Dict.{Dict, insert, keys}
use powdrr_engine.Service.State.{
  Payloads, EphemeralServiceImpl, extension_storage_key, extension_from_storage_key,
}
use powdrr_engine.Service.Snapshots.{
  collect_onto, map_keys, serialize_latest_committed_checkpoint_id,
  deserialize_latest_committed_checkpoint_id, or_es, snapshot_state, from_snapshot,
}

module _ {ℓ} {K : Type ℓ} ⦃e : Eq K⦄ where
  fresh_of_distinct :
      (xs : List K) (k : K) (ys : List K) → distinct (xs ++ (k ∷ ys)) ≡ true → contains xs k ≡ false
  fresh_of_distinct [] k ys h = refl
  fresh_of_distinct (x ∷ xs) k ys h = ground (
    arith,
    fresh_of_distinct xs k ys,
    contains-append xs (k ∷ ys) x,
    e.same_iff x k,
    e.same_iff k x,
  )

module _ {ℓ κ} {K : Type ℓ} {V : Type κ} ⦃e : Eq K⦄ where
  insert-fresh :
      (k : K) (v : V) (made : Dict K V)
      → contains (keys made) k ≡ false
      → insert k v made ≡ made ++ ((k, v) ∷ [])
  unfolding insert keys
  insert-fresh k v [] h = refl
  insert-fresh k v ((j, w) ∷ made) h = ground (arith, insert-fresh k v made)

  keys-append : (m n : Dict K V) → keys (m ++ n) ≡ keys m ++ keys n
  unfolding keys
  keys-append [] n = refl
  keys-append ((k, v) ∷ m) n = ap (λ ks. k ∷ ks) (keys-append m n)

  collect_onto_lem :
      (made entries : List (K × V))
      → distinct (keys (made ++ entries)) ≡ true
      → collect_onto made entries ≡ made ++ entries
  unfolding collect_onto keys
  collect_onto_lem made [] h = sym (append-nil made)
  collect_onto_lem made ((k, v) ∷ entries) h =
      let split : distinct (keys made ++ (k ∷ keys entries)) ≡ true =
        sym (ap distinct (keys-append made ((k, v) ∷ entries))) ∙ h in
      rw (insert-fresh k v made (fresh_of_distinct (keys made) k (keys entries) split)) (
        collect_onto_lem (made ++ ((k, v) ∷ [])) entries
          (rw (append_assoc made ((k, v) ∷ []) entries) h)
        ∙ append_assoc made ((k, v) ∷ []) entries)

keys-map_keys {ℓ κ ι} :
    {K : Type ℓ} {L : Type κ} {V : Type ι} ⦃e : Eq K⦄ ⦃d : Eq L⦄ (f : K → L) (m : List (K × V))
    → keys (map_keys f m) ≡ map f (keys m)
unfolding keys
keys-map_keys f [] = refl
keys-map_keys f ((k, v) ∷ m) = ap (λ ks. f k ∷ ks) (keys-map_keys f m)

extension_from_storage_key-extension_storage_key :
    (extension : Option String)
    → (extension == some "") ≡ false
    → extension_from_storage_key (extension_storage_key extension) ≡ extension
unfolding extension_from_storage_key
extension_from_storage_key-extension_storage_key none h = refl
extension_from_storage_key-extension_storage_key (some name) h = rw h refl

-- no key is the empty name, and so the keys are read again
restored :
    {V : Type 0} (m : Dict (Option String) V)
    → contains (keys m) (some "") ≡ false
    → map_keys extension_from_storage_key (map_keys extension_storage_key m) ≡ m
unfolding keys
restored [] h = refl
restored ((k, v) ∷ m) h =
    let parts : ((k == some "") ≡ false) × (contains (keys m) (some "") ≡ false) =
      ground (arith, h) in
    rw (extension_from_storage_key-extension_storage_key k parts.0, restored m parts.1) refl

contains-storage :
    (ks : List (Option String)) (k : Option String)
    → contains ks (some "") ≡ false
    → (k == some "") ≡ false
    → contains (map extension_storage_key ks) (extension_storage_key k) ≡ contains ks k
contains-storage [] k h g = refl
contains-storage (none ∷ ks) none h g = ground (arith, contains-storage ks none)
contains-storage (none ∷ ks) (some name) h g =
    ground (
      arith,
      contains-storage ks (some name),
      string_eq.same_iff "" name,
      string_eq.same_iff name "",
    )
contains-storage (some x ∷ ks) none h g =
    ground (arith, contains-storage ks none, string_eq.same_iff "" x, string_eq.same_iff x "")
contains-storage (some x ∷ ks) (some name) h g = ground (arith, contains-storage ks (some name))

distinct-storage :
    (ks : List (Option String))
    → contains ks (some "") ≡ false
    → distinct ks ≡ true
    → distinct (map extension_storage_key ks) ≡ true
distinct-storage [] h d = refl
distinct-storage (k ∷ ks) h d = ground (arith, contains-storage ks k, distinct-storage ks)

deserialize-serialize :
    (latest : Dict (Option String) (Dict String String))
    → distinct (keys latest) ≡ true
    → contains (keys latest) (some "") ≡ false
    → deserialize_latest_committed_checkpoint_id (serialize_latest_committed_checkpoint_id latest)
      ≡ latest
unfolding deserialize_latest_committed_checkpoint_id serialize_latest_committed_checkpoint_id
deserialize-serialize latest d h =
    rw (written, ap (collect_onto []) (restored latest h)) (collect_onto_lem [] latest d)
  where
    written :
        collect_onto [] (map_keys extension_storage_key latest)
        ≡ map_keys extension_storage_key latest
    written =
        collect_onto_lem [] (map_keys extension_storage_key latest)
          (rw (keys-map_keys extension_storage_key latest) (distinct-storage (keys latest) h d))

or_es-written :
    {V : Type 0} (items : Dict String (Dict String V)) → items ≢ [] → or_es items ≡ items
or_es-written [] h = absurd (h refl)
or_es-written (entry ∷ items) h = refl

-- A service that is started from the snapshot of a state has that state again, if the keys of the state's
-- map of latest checkpoints are distinct, none of them is the empty extension name, and the map of
-- extension work items has an entry.
pub from_snapshot-snapshot_state :
    {P : Payloads} (s : EphemeralServiceImpl P)
    → distinct (keys s.latest_committed_checkpoint_id) ≡ true
    → contains (keys s.latest_committed_checkpoint_id) (some "") ≡ false
    → s.extension_work_items ≢ []
    → from_snapshot s.ids_issued s.mode (snapshot_state s) ≡ s
unfolding from_snapshot snapshot_state
from_snapshot-snapshot_state s d h w =
    rw
      (
        deserialize-serialize s.latest_committed_checkpoint_id d h,
        or_es-written s.extension_work_items w,
      )
      refl
