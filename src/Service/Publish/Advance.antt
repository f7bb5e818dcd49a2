-- ===== src/Service/Publish/Advance.antt =====
-- `advance_target_checkpoint` of service_lib/src/ephemeral_service_impl.rs, called twice.
use powdrr_engine.Common.{
  String, ◌≡◌, refl, sym, ap, ◌∙◌, false, Option, none, some, arith, inl, inr, Bool-cases,
  Option-cases, if◌then◌else◌, ◌==◌, ==_iff, ==_refl, option_map, string_eq, nat_eq, option_eq,
}
use powdrr_engine.Common.Int.{ℤ}
use powdrr_engine.Service.Types.{CutoverMembershipView, class_eq}
use powdrr_engine.Service.State.{Payloads, EphemeralServiceImpl}
use powdrr_engine.Service.Cutover.{
  clear_artifact_readiness, capture_cutover_membership_for_target,
  prune_expired_serving_node_leases, live_serving_node_ids, start_epoch,
  store_cutover_membership_view, bump_cutover_epoch, clear_serving_node_activations,
  get_latest_materialized_checkpoint_sync,
}
use powdrr_engine.Service.Publish.{view_target, advance_target_checkpoint}
use powdrr_engine.Service.Publish.Targets.{captured, captured_iff, start_epoch-view}

module _ {P : Payloads} (table_name : String) (extension : Option String) where
  capture_same :
      (now : ℤ) (id : String) (s : EphemeralServiceImpl P)
      → view_target s table_name extension ≡ some id
      → capture_cutover_membership_for_target now table_name extension id s ≡ s
  unfolding capture_cutover_membership_for_target captured
  capture_same now id s same =
      rw
        (
          captured_iff table_name extension s id,
          same,
          ==_refl (some id),
          capture_cutover_membership_for_target,
        )
        refl

  capture-target :
      (now : ℤ) (id : String) (s : EphemeralServiceImpl P)
      → view_target
          (capture_cutover_membership_for_target now table_name extension id s)
          table_name
          extension
        ≡ some id
  unfolding capture_cutover_membership_for_target captured
  capture-target now id s = elim (Bool-cases (captured table_name extension s id)) [
    | inl same ↦
        rw (same, capture_cutover_membership_for_target)
          ((==_iff (view_target s table_name extension) (some id)).0
            (sym (captured_iff table_name extension s id) ∙ same))
    | inr other ↦
        rw (other, capture_cutover_membership_for_target)
          (ap (option_map (λ (view : CutoverMembershipView). view.target_checkpoint_id)) (
            start_epoch-view table_name extension id (live_serving_node_ids now s)
              (prune_expired_serving_node_leases now s)))
  ]

  capture-latest :
      (now : ℤ) (id : String) (s : EphemeralServiceImpl P)
      → get_latest_materialized_checkpoint_sync
          (capture_cutover_membership_for_target now table_name extension id s)
          table_name
          extension
        ≡ get_latest_materialized_checkpoint_sync s table_name extension
  unfolding capture_cutover_membership_for_target captured get_latest_materialized_checkpoint_sync
      start_epoch clear_serving_node_activations store_cutover_membership_view bump_cutover_epoch
      prune_expired_serving_node_leases
  capture-latest now id s = elim (Bool-cases (captured table_name extension s id)) [
    | inl same ↦ rw (same, capture_cutover_membership_for_target) refl
    | inr other ↦ rw (other, capture_cutover_membership_for_target) refl
  ]

  clear_readiness-latest :
      (s : EphemeralServiceImpl P)
      → get_latest_materialized_checkpoint_sync
          (clear_artifact_readiness table_name extension s)
          table_name
          extension
        ≡ get_latest_materialized_checkpoint_sync s table_name extension
  unfolding get_latest_materialized_checkpoint_sync clear_artifact_readiness
  clear_readiness-latest s = refl

  advance_at :
      (now : ℤ) (s : EphemeralServiceImpl P) (id : String)
      → get_latest_materialized_checkpoint_sync s table_name extension ≡ some id
      → view_target s table_name extension ≡ some id
      → advance_target_checkpoint now table_name extension s ≡ (s, false)
  unfolding advance_target_checkpoint
  advance_at now s id l v =
      rw (l, v, ==_refl (some id), capture_same now id s v, advance_target_checkpoint) refl

  advance_none :
      (now : ℤ) (s : EphemeralServiceImpl P)
      → get_latest_materialized_checkpoint_sync s table_name extension ≡ none
      → advance_target_checkpoint now table_name extension s ≡ (s, false)
  unfolding advance_target_checkpoint
  advance_none now s n = rw (n, advance_target_checkpoint) refl

  advance_some :
      (now : ℤ) (s : EphemeralServiceImpl P) (id : String)
      → get_latest_materialized_checkpoint_sync s table_name extension ≡ some id
      → get_latest_materialized_checkpoint_sync
            (advance_target_checkpoint now table_name extension s).0
            table_name
            extension
          ≡ some id
        × view_target (advance_target_checkpoint now table_name extension s).0 table_name extension
          ≡ some id
  unfolding advance_target_checkpoint
  advance_some now s id l =
      let t : EphemeralServiceImpl P =
        if view_target s table_name extension == some id
        then s
        else clear_artifact_readiness table_name extension s in
      let latest : get_latest_materialized_checkpoint_sync t table_name extension ≡ some id =
        ground (arith, clear_readiness-latest s) in
      (
        rw (l, advance_target_checkpoint) (capture-latest now id t ∙ latest),
        rw (l, advance_target_checkpoint) (capture-target now id t),
      )

  -- A second call of `advance_target_checkpoint` changes nothing and reports no work, whatever the clock says.
  pub advance-advance :
      (now later : ℤ) (s : EphemeralServiceImpl P)
      → advance_target_checkpoint later table_name extension
          (advance_target_checkpoint now table_name extension s).0
        ≡ ((advance_target_checkpoint now table_name extension s).0, false)
  advance-advance now later s =
      elim (Option-cases (get_latest_materialized_checkpoint_sync s table_name extension)) [
        | inl n ↦ rw (advance_none now s n) (advance_none later s n)
        | inr (id, l) ↦
            let (latest, settled) = advance_some now s id l in
            advance_at later (advance_target_checkpoint now table_name extension s).0 id latest
              settled
      ]
