-- ===== src/Service/WorkItems/Leases.antt =====
-- Leases: an item that was handed out is not handed out again before its lease ends, in
-- service_lib/src/ephemeral_service_impl.rs.
use powdrr_engine.Common.{
  String, ◌≡◌, refl, ap, Bool, true, false, ◌&&◌, Option, [], ◌∷◌, Eq, arith, inl, inr,
  Option-cases, if◌then◌else◌, distinct, option_map, unwrap_or, string_eq,
}
use powdrr_engine.Common.Int.{ℤ, leb_ℤ}
use powdrr_engine.Common.Dict.{
  Dict, get, keys, map_values, contains_key, contains-keys, get-map_values,
}
use powdrr_engine.Service.Types.{Tracker}
use powdrr_engine.Service.State.{Payloads, EphemeralServiceImpl}
use powdrr_engine.Service.Cutover.{lease_is_available, claim_lease_expires_at_ms}
use powdrr_engine.Service.WorkItems.{
  claim, claim_available, always_ready, get_compaction_work_items,
}

module _ {Item : Type 0} (ready : Item → Bool) where
  -- what the loop does to a tracker, and whether it hands its item out
  abbrev available : ℤ → Tracker Item → Bool
  available now tracker =
      ready tracker.work_item && lease_is_available now tracker.lease_expires_at_ms

  abbrev stamp : ℤ → Tracker Item → Tracker Item
  stamp now tracker = if available now tracker then claim now tracker else tracker

  claimed-trackers :
      {K : Type 0} (now : ℤ) (trackers : Dict K (Tracker Item))
      → (claim_available ready now trackers).1 ≡ map_values (stamp now) trackers
  unfolding claim_available map_values
  claimed-trackers now [] = refl
  claimed-trackers now ((k, tracker) ∷ trackers) = ground (arith, claimed-trackers now trackers)

  abbrev handed_out : ℤ → Option (Tracker Item) → Bool
  handed_out now tracker = unwrap_or false (option_map (available now) tracker)

  module _ {K : Type 0} ⦃e : Eq K⦄ where
    keys-map_values : {V W : Type 0} (f : V → W) (m : Dict K V) → keys (map_values f m) ≡ keys m
    unfolding keys map_values
    keys-map_values f [] = refl
    keys-map_values f ((k, v) ∷ m) = ap (λ ks. k ∷ ks) (keys-map_values f m)

    claimed-keys :
        (now : ℤ) (trackers : Dict K (Tracker Item)) (k : K)
        → contains_key (claim_available ready now trackers).0 k ≡ true
        → contains_key trackers k ≡ true
    unfolding claim_available contains_key get
    claimed-keys now [] k h = h
    claimed-keys now ((j, tracker) ∷ trackers) k h = ground (arith, claimed-keys now trackers k)

    claimed_lem :
        (now : ℤ) (trackers : Dict K (Tracker Item)) (k : K)
        → distinct (keys trackers) ≡ true
        → contains_key (claim_available ready now trackers).0 k ≡ handed_out now (get trackers k)
    unfolding claim_available contains_key get keys
    claimed_lem now [] k d = refl
    claimed_lem now ((j, tracker) ∷ trackers) k d = ground (
      arith,
      claimed_lem now trackers k,
      claimed-keys now trackers k,
      contains-keys trackers j,
      e.same_iff j k,
    )

    -- With one tracker for each key: an item that was handed out is handed out again exactly where its
    -- lease has ended, one minute after `now`.
    pub claim_available-claim_available :
        (now later : ℤ) (trackers : Dict K (Tracker Item)) (k : K)
        → distinct (keys trackers) ≡ true
        → contains_key (claim_available ready now trackers).0 k ≡ true
        → contains_key (claim_available ready later (claim_available ready now trackers).1).0 k
          ≡ leb_ℤ (claim_lease_expires_at_ms now) later
    unfolding lease_is_available
    claim_available-claim_available now later trackers k d h =
        let after = map_values (stamp now) trackers in
        let one_each : distinct (keys after) ≡ true = rw (keys-map_values (stamp now) trackers) d in
        rw
          (
            claimed-trackers now trackers,
            claimed_lem later after k one_each,
            get-map_values (stamp now) trackers k,
          )
          (elim (Option-cases (get trackers k)) [
            | inl n ↦ absurd (ground (arith, claimed_lem now trackers k d))
            | inr (tracker, g) ↦ ground (arith, claimed_lem now trackers k d)
          ])

-- The compaction items that one call hands out are handed out by a second call exactly where their
-- leases have ended, one minute after the first.
pub get_compaction-get_compaction :
    {P : Payloads} (now later : ℤ) (s : EphemeralServiceImpl P) (table_name : String)
    → distinct (keys s.compaction_work_items) ≡ true
    → contains_key (get_compaction_work_items now s).0 table_name ≡ true
    → contains_key
        (get_compaction_work_items later (get_compaction_work_items now s).1).0
        table_name
      ≡ leb_ℤ (claim_lease_expires_at_ms now) later
unfolding get_compaction_work_items
get_compaction-get_compaction now later s table_name d h =
    claim_available-claim_available always_ready now later s.compaction_work_items table_name d h
