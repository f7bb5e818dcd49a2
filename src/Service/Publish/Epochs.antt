-- ===== src/Service/Publish/Epochs.antt =====
-- The epochs of cutovers: the bookkeeping of membership views and of the last epoch of each selector, in
-- service_lib/src/ephemeral_service_impl.rs.
use powdrr_engine.Common.{
  String, ◌≡◌, false, ◌||◌, not, Option, some, List, arith, inl, inr, Bool-cases, Option-cases,
  ◌==◌, ==_iff, all, contains, length, unwrap_or, option_map, string_eq, nat_eq, option_eq,
}
use powdrr_engine.Common.Int.{ℤ}
use powdrr_engine.Common.Dict.{Dict, get, insert, get-insert}
use powdrr_engine.Service.Types.{active, CutoverEpoch, CutoverMembershipView, class_eq}
use powdrr_engine.Service.State.{Payloads, EphemeralServiceImpl, selector_group_key}
use powdrr_engine.Service.Cutover.{
  clear_artifact_readiness, get_cutover_membership_view, capture_cutover_membership_for_target,
  backfill_cutover_membership_for_target, maybe_reconfigure_cutover_membership_for_target,
  prune_expired_serving_node_leases, live_serving_node_ids, start_epoch,
  store_cutover_membership_view, bump_cutover_epoch, clear_serving_node_activations,
  get_published_checkpoint_sync, set_published_checkpoint, get_latest_materialized_checkpoint_sync,
}
use powdrr_engine.Service.Publish.{
  view_target, advance_target_checkpoint, activation_matches_target, readiness_matches_target,
  promote_to, promote_active_checkpoint_if_ready,
}

-- The epoch of each membership view is the last epoch of its selector.
unfoldable pub AreCoherent : Dict String CutoverMembershipView → Dict String CutoverEpoch → Type 0
AreCoherent views epochs =
    (key : String) (view : CutoverMembershipView)
    → get views key ≡ some view
    → get epochs key ≡ some view.epoch

insert-AreCoherent :
    (views : Dict String CutoverMembershipView) (epochs : Dict String CutoverEpoch) (k : String)
    (v : CutoverMembershipView)
    → AreCoherent views epochs
    → AreCoherent (insert k v views) (insert k v.epoch epochs)
unfolding AreCoherent
insert-AreCoherent views epochs k v c key view h =
    ground (arith, get-insert k key v views, get-insert k key v.epoch epochs, c key view)

insert_view-AreCoherent :
    (views : Dict String CutoverMembershipView) (epochs : Dict String CutoverEpoch) (k : String)
    (v : CutoverMembershipView)
    → AreCoherent views epochs
    → get epochs k ≡ some v.epoch
    → AreCoherent (insert k v views) epochs
unfolding AreCoherent
insert_view-AreCoherent views epochs k v c e key view h =
    ground (arith, ==_iff k key, get-insert k key v views, c key view)

module _ {P : Payloads} where
  unfoldable pub IsCoherent : EphemeralServiceImpl P → Type 0
  IsCoherent s = AreCoherent s.cutover_membership_views s.checkpoint_cutover_epochs

  start_epoch-IsCoherent :
      (table_name : String) (extension : Option String) (id : String) (nodes : List String)
      (s : EphemeralServiceImpl P)
      → IsCoherent s
      → IsCoherent (start_epoch table_name extension id nodes s)
  unfolding IsCoherent start_epoch bump_cutover_epoch store_cutover_membership_view
      clear_serving_node_activations
  start_epoch-IsCoherent table_name extension id nodes s c =
      insert-AreCoherent s.cutover_membership_views s.checkpoint_cutover_epochs
        (selector_group_key table_name extension) _ c

  pub capture-IsCoherent :
      (now : ℤ) (table_name : String) (extension : Option String) (id : String)
      (s : EphemeralServiceImpl P)
      → IsCoherent s
      → IsCoherent (capture_cutover_membership_for_target now table_name extension id s)
  unfolding capture_cutover_membership_for_target IsCoherent prune_expired_serving_node_leases
  capture-IsCoherent now table_name extension id s c =
      elim (Bool-cases (
        unwrap_or false (
          option_map (λ (view : CutoverMembershipView). view.target_checkpoint_id == id)
            (get_cutover_membership_view s table_name extension)))) [
              | inl same ↦ rw (same) c
              | inr other ↦ rw (other) (
                  start_epoch-IsCoherent table_name extension id (live_serving_node_ids now s)
                    (prune_expired_serving_node_leases now s) c)
            ]

  pub backfill-IsCoherent :
      (now : ℤ) (table_name : String) (extension : Option String) (id : String)
      (s : EphemeralServiceImpl P)
      → IsCoherent s
      → IsCoherent (backfill_cutover_membership_for_target now table_name extension id s)
  unfolding backfill_cutover_membership_for_target IsCoherent prune_expired_serving_node_leases
      store_cutover_membership_view AreCoherent
  backfill-IsCoherent now table_name extension id s c =
      elim (Option-cases (get_cutover_membership_view s table_name extension)) [
        | inl n ↦ rw (n, backfill_cutover_membership_for_target) c
        | inr (view, v) ↦
            elim (Bool-cases
              (not (view.target_checkpoint_id == id) || not (length view.required_node_ids == 0))) [
                | inl kept ↦ rw (v, kept, backfill_cutover_membership_for_target) c
                | inr ours ↦ elim (Bool-cases (length (live_serving_node_ids now s) == 0)) [
                  | inl alone ↦ rw (v, ours, alone, backfill_cutover_membership_for_target) c
                  | inr live ↦
                      rw (v, ours, live, backfill_cutover_membership_for_target)
                        (insert_view-AreCoherent s.cutover_membership_views
                          s.checkpoint_cutover_epochs (selector_group_key table_name extension) _ c
                          (c (selector_group_key table_name extension) view v))
                ]
              ]
      ]

  reconfigure-IsCoherent :
      (now : ℤ) (table_name : String) (extension : Option String) (id : String)
      (s : EphemeralServiceImpl P)
      → IsCoherent s
      → IsCoherent (maybe_reconfigure_cutover_membership_for_target now table_name extension id s)
  unfolding maybe_reconfigure_cutover_membership_for_target IsCoherent
      prune_expired_serving_node_leases
  reconfigure-IsCoherent now table_name extension id s c =
      elim (Option-cases (get_cutover_membership_view s table_name extension)) [
        | inl n ↦ rw (n, maybe_reconfigure_cutover_membership_for_target) c
        | inr (view, v) ↦ elim (Bool-cases (not (view.target_checkpoint_id == id))) [
          | inl kept ↦ rw (v, kept, maybe_reconfigure_cutover_membership_for_target) c
          | inr ours ↦ elim (Bool-cases (length (live_serving_node_ids now s) == 0)) [
            | inl alone ↦ rw (v, ours, alone, maybe_reconfigure_cutover_membership_for_target) c
            | inr live ↦
                elim (Bool-cases
                  (all (contains (live_serving_node_ids now s)) view.required_node_ids)) [
                    | inl alive ↦
                        rw (v, ours, live, alive, maybe_reconfigure_cutover_membership_for_target) c
                    | inr gone ↦
                        rw (v, ours, live, gone, maybe_reconfigure_cutover_membership_for_target)
                          (start_epoch-IsCoherent table_name extension id
                            (live_serving_node_ids now s) (prune_expired_serving_node_leases now s)
                            c)
                  ]
          ]
        ]
      ]

  pub advance-IsCoherent :
      (now : ℤ) (table_name : String) (extension : Option String) (s : EphemeralServiceImpl P)
      → IsCoherent s
      → IsCoherent (advance_target_checkpoint now table_name extension s).0
  unfolding advance_target_checkpoint clear_artifact_readiness IsCoherent
  advance-IsCoherent now table_name extension s c =
      elim (Option-cases (get_latest_materialized_checkpoint_sync s table_name extension)) [
        | inl n ↦ rw (n, advance_target_checkpoint) c
        | inr (id, l) ↦ elim (Bool-cases (view_target s table_name extension == some id)) [
          | inl same ↦
              rw (l, same, advance_target_checkpoint)
                (capture-IsCoherent now table_name extension id s c)
          | inr other ↦
              rw (l, other, advance_target_checkpoint)
                (capture-IsCoherent now table_name extension id
                  (clear_artifact_readiness table_name extension s) c)
        ]
      ]

  promote_to-IsCoherent :
      (now : ℤ) (table_name : String) (extension : Option String) (id : String)
      (s : EphemeralServiceImpl P)
      → IsCoherent s
      → IsCoherent (promote_to now table_name extension id s).0
  unfolding promote_to activation_matches_target set_published_checkpoint IsCoherent
  promote_to-IsCoherent now table_name extension id s c =
      let updated =
        reconfigure-IsCoherent now table_name extension id
          (backfill_cutover_membership_for_target now table_name extension id s)
          (backfill-IsCoherent now table_name extension id s c) in
      elim (Bool-cases (get_published_checkpoint_sync s active table_name extension == some id)) [
        | inl same ↦ rw (same, promote_to) c
        | inr other ↦ elim (Bool-cases (readiness_matches_target s table_name extension id)) [
          | inr missing ↦ rw (other, missing, promote_to) c
          | inl ready ↦
              elim (Bool-cases (activation_matches_target now table_name extension id s).1) [
                | inr waiting ↦ rw (other, ready, waiting, promote_to) updated
                | inl activated ↦ rw (other, ready, activated, promote_to) updated
              ]
        ]
      ]

  pub promote-IsCoherent :
      (now : ℤ) (table_name : String) (extension : Option String) (s : EphemeralServiceImpl P)
      → IsCoherent s
      → IsCoherent (promote_active_checkpoint_if_ready now table_name extension s).0
  unfolding promote_active_checkpoint_if_ready
  promote-IsCoherent now table_name extension s c =
      elim (Option-cases (get_latest_materialized_checkpoint_sync s table_name extension)) [
        | inl n ↦ rw (n, promote_active_checkpoint_if_ready) c
        | inr (id, l) ↦
            rw (l, promote_active_checkpoint_if_ready)
              (promote_to-IsCoherent now table_name extension id s c)
      ]
