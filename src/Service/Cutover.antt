-- ===== src/Service/Cutover.antt =====
-- The cutover of a table from its active checkpoint to the latest one: epochs, membership views,
-- acknowledgements and promotion, in service_lib/src/ephemeral_service_impl.rs.
-- `now` is the clock of the operation, in milliseconds: each operation reads it once.
use powdrr_engine.Common.{
  ℕ, ◌+◌, ◌%◌, String, Bool, true, false, ◌||◌, not, Option, none, some, List, [], ◌∷◌,
  if◌then◌else◌, ◌==◌, all, contains, length, unwrap_or, option_map, string_eq, nat_eq, option_eq,
}
use powdrr_engine.Common.Int.{ℤ, pos, ◌+ℤ◌, ◌-ℤ◌, leb_ℤ}
use powdrr_engine.Common.Order.{sort}
use powdrr_engine.Common.Dict
use powdrr_engine.Common.Dict.{Dict, get, insert, keys, contains_key}
use powdrr_engine.Service.Types.{
  PublishedCheckpointRole, active, target, CutoverEpoch, CutoverMembershipView, ArtifactClass,
  snapshot_lookup_mmap, snapshot_exact_lookup_mmap, search_projection, custom, class_eq, has_work,
}
use powdrr_engine.Service.State.{
  Payloads, EphemeralServiceImpl, selector_storage_key, selector_group_key, checkpoint_key, es,
}

abbrev pub lease_length_ms : ℤ
lease_length_ms = pos 60000

abbrev pub work_claim_lease_length_ms : ℤ
work_claim_lease_length_ms = pos 60000

abbrev pub u64_mod : ℕ
u64_mod = 18446744073709551616

unfoldable pub required_artifact_classes : Option String → List ArtifactClass
required_artifact_classes none = snapshot_lookup_mmap ∷ snapshot_exact_lookup_mmap ∷ []
required_artifact_classes (some extension) =
    if extension == "es" then search_projection ∷ [] else custom extension ∷ []

unfoldable pub lease_is_available : ℤ → Option ℤ → Bool
lease_is_available now lease_expires_at_ms =
    unwrap_or true (option_map (λ expires_at_ms. leb_ℤ expires_at_ms now) lease_expires_at_ms)

unfoldable pub claim_lease_expires_at_ms : ℤ → ℤ
claim_lease_expires_at_ms now = now +ℤ work_claim_lease_length_ms

module _ {P : Payloads} where
  unfoldable pub bump_cutover_epoch :
      String → Option String → EphemeralServiceImpl P → CutoverEpoch × EphemeralServiceImpl P
  bump_cutover_epoch table_name extension s =
      let key = selector_group_key table_name extension in
      let epoch = (unwrap_or 0 (get s.checkpoint_cutover_epochs key) + 1) % u64_mod in
      (epoch, record s { checkpoint_cutover_epochs = insert key epoch s.checkpoint_cutover_epochs })

  unfoldable pub clear_serving_node_activations :
      String → Option String → EphemeralServiceImpl P → EphemeralServiceImpl P
  clear_serving_node_activations table_name extension s = record s {
    serving_node_activations =
        Dict.remove (selector_group_key table_name extension) s.serving_node_activations;
  }

  unfoldable pub clear_artifact_readiness :
      String → Option String → EphemeralServiceImpl P → EphemeralServiceImpl P
  clear_artifact_readiness table_name extension s = record s {
    artifact_readiness_acks =
        Dict.remove (selector_group_key table_name extension) s.artifact_readiness_acks;
  }

  abbrev pub get_cutover_membership_view :
      EphemeralServiceImpl P → String → Option String → Option CutoverMembershipView
  get_cutover_membership_view s table_name extension =
      get s.cutover_membership_views (selector_group_key table_name extension)

  unfoldable pub store_cutover_membership_view :
      String
      → Option String
      → CutoverEpoch
      → String
      → List String
      → EphemeralServiceImpl P
      → EphemeralServiceImpl P
  store_cutover_membership_view table_name extension epoch target_checkpoint_id required_node_ids
        s =
      record s {
        cutover_membership_views =
            insert (selector_group_key table_name extension)
              (record {
                selector = record { table_name = table_name; extension = extension; role = target };
                epoch = epoch;
                target_checkpoint_id = target_checkpoint_id;
                required_node_ids = required_node_ids;
              })
              s.cutover_membership_views;
      }

  unfoldable pub prune_expired_serving_node_leases :
      ℤ → EphemeralServiceImpl P → EphemeralServiceImpl P
  prune_expired_serving_node_leases now s = record s {
    serving_node_leases =
        Dict.retain (λ _ lease. leb_ℤ (now -ℤ lease_length_ms) lease.observed_at_ms)
          s.serving_node_leases;
  }

  -- the live ids, sorted: each caller sorts them, and tests whether there are any before or after
  unfoldable pub live_serving_node_ids : ℤ → EphemeralServiceImpl P → List String
  unfolding prune_expired_serving_node_leases
  live_serving_node_ids now s =
      sort (keys (prune_expired_serving_node_leases now s).serving_node_leases)

  -- a new epoch for the target, with its members; what was acknowledged for the old one is dropped
  unfoldable pub start_epoch :
      String
      → Option String
      → String
      → List String
      → EphemeralServiceImpl P
      → EphemeralServiceImpl P
  unfolding bump_cutover_epoch store_cutover_membership_view clear_serving_node_activations
  start_epoch table_name extension target_checkpoint_id required_node_ids s =
      let (epoch, bumped) = bump_cutover_epoch table_name extension s in
      clear_serving_node_activations table_name extension (
        store_cutover_membership_view table_name extension epoch target_checkpoint_id
          required_node_ids bumped)

  unfoldable pub maybe_reconfigure_cutover_membership_for_target :
      ℤ → String → Option String → String → EphemeralServiceImpl P → EphemeralServiceImpl P
  unfolding start_epoch live_serving_node_ids prune_expired_serving_node_leases
  maybe_reconfigure_cutover_membership_for_target now table_name extension target_checkpoint_id s =
      elim (get_cutover_membership_view s table_name extension) [
        | none ↦ s
        | some existing_view ↦
            if not (existing_view.target_checkpoint_id == target_checkpoint_id)
            then s
            else let pruned = prune_expired_serving_node_leases now s in
              let live_node_ids = live_serving_node_ids now s in
              if length live_node_ids == 0
              then pruned
              else if all (contains live_node_ids) existing_view.required_node_ids
              then pruned
              else start_epoch table_name extension target_checkpoint_id live_node_ids pruned
      ]

  unfoldable pub capture_cutover_membership_for_target :
      ℤ → String → Option String → String → EphemeralServiceImpl P → EphemeralServiceImpl P
  unfolding start_epoch live_serving_node_ids prune_expired_serving_node_leases
  capture_cutover_membership_for_target now table_name extension target_checkpoint_id s =
      if unwrap_or false (
        option_map
          (λ (view : CutoverMembershipView). view.target_checkpoint_id == target_checkpoint_id)
          (get_cutover_membership_view s table_name extension))
      then s
      else start_epoch table_name extension target_checkpoint_id (live_serving_node_ids now s)
          (prune_expired_serving_node_leases now s)

  unfoldable pub backfill_cutover_membership_for_target :
      ℤ → String → Option String → String → EphemeralServiceImpl P → EphemeralServiceImpl P
  unfolding store_cutover_membership_view live_serving_node_ids prune_expired_serving_node_leases
  backfill_cutover_membership_for_target now table_name extension target_checkpoint_id s =
      elim (get_cutover_membership_view s table_name extension) [
        | none ↦ s
        | some existing_view ↦
            if not (existing_view.target_checkpoint_id == target_checkpoint_id)
              || not (length existing_view.required_node_ids == 0)
            then s
            else let pruned = prune_expired_serving_node_leases now s in
              let required_node_ids = live_serving_node_ids now s in
              if length required_node_ids == 0
              then pruned
              else store_cutover_membership_view table_name extension existing_view.epoch
                  target_checkpoint_id required_node_ids pruned
      ]

  abbrev pub get_published_checkpoint_sync :
      EphemeralServiceImpl P → PublishedCheckpointRole → String → Option String → Option String
  get_published_checkpoint_sync s role table_name extension =
      get s.published_checkpoint_id (selector_storage_key role table_name extension)

  unfoldable pub set_published_checkpoint :
      PublishedCheckpointRole
      → String
      → Option String
      → String
      → EphemeralServiceImpl P
      → EphemeralServiceImpl P
  set_published_checkpoint role table_name extension checkpoint_id s = record s {
    published_checkpoint_id =
        insert (selector_storage_key role table_name extension) checkpoint_id
          s.published_checkpoint_id;
  }

  abbrev pub real_table_name : EphemeralServiceImpl P → String → String
  real_table_name s table_name = unwrap_or table_name (get s.table_aliases table_name)

  unfoldable pub get_latest_materialized_checkpoint_sync :
      EphemeralServiceImpl P → String → Option String → Option String
  get_latest_materialized_checkpoint_sync s table_name extensions =
      elim (get s.latest_committed_checkpoint_id extensions) [
        | none ↦ none
        | some committed ↦ get committed (real_table_name s table_name)
      ]

  unfoldable pub published_checkpoint_needs_activation :
      EphemeralServiceImpl P → String → Option String → Bool
  published_checkpoint_needs_activation s table_name extension =
      elim (get_latest_materialized_checkpoint_sync s table_name extension) [
        | some target_checkpoint_id ↦ not (
            get_published_checkpoint_sync s active table_name extension
            == some target_checkpoint_id)
        | none ↦ false
      ]

  unfoldable pub extension_work_pending : EphemeralServiceImpl P → String → Bool
  extension_work_pending s table_name = elim (get s.extension_work_items "es") [
    | none ↦ false
    | some items ↦ elim (get items table_name) [
      | none ↦ false
      | some tracker ↦ has_work tracker.work_item
    ]
  ]

  unfoldable pub checkpoint_publication_still_pending : EphemeralServiceImpl P → String → Bool
  unfolding extension_work_pending published_checkpoint_needs_activation
  checkpoint_publication_still_pending s table_name =
      extension_work_pending s table_name
      || contains_key s.checkpoints_needing_extension_work (checkpoint_key table_name "es")
      || published_checkpoint_needs_activation s table_name none
      || published_checkpoint_needs_activation s table_name es
