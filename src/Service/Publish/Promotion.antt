-- ===== src/Service/Publish/Promotion.antt =====
-- When a checkpoint becomes the active one: only with every required artifact ready, and every required
-- node at the target, in the epoch of the membership view.
use powdrr_engine.Common.{
  ◌<◌, String, ◌≡◌, ◌≢◌, refl, sym, ap, ◌∙◌, true, false, Option, some, arith, inl, inr, Bool-cases,
  Option-cases, ◌==◌, ==_iff, ==_refl, ==_eq_false, all, all-contains, contains, length, string_eq,
  nat_eq, option_eq,
}
use powdrr_engine.Common.Int.{ℤ}
use powdrr_engine.Common.Dict.{Dict, get, get-insert}
use powdrr_engine.Service.Types.{active, CutoverMembershipView, ServingNodeActivationAck, class_eq}
use powdrr_engine.Service.State.{
  Payloads, EphemeralServiceImpl, selector_group_key, selector_storage_key,
}
use powdrr_engine.Service.Cutover.{
  get_cutover_membership_view, capture_cutover_membership_for_target,
  backfill_cutover_membership_for_target, maybe_reconfigure_cutover_membership_for_target,
  get_published_checkpoint_sync, set_published_checkpoint, get_latest_materialized_checkpoint_sync,
}
use powdrr_engine.Service.Publish.{
  node_activated, activation_matches, activation_matches_target, readiness_matches_target,
  promote_to, promote_active_checkpoint_if_ready,
}

-- The view is of the target, requires some node, and each node that it requires has acknowledged the
-- target in the view's epoch.
pub record IsActivated {P : Payloads} (s : EphemeralServiceImpl P) (table_name : String)
    (extension : Option String) (checkpoint_id : String) : Type 0 where
  pub view : CutoverMembershipView
  pub acks : Dict String ServingNodeActivationAck
  pub has_view : get_cutover_membership_view s table_name extension ≡ some view
  pub has_acks :
      get s.serving_node_activations (selector_group_key table_name extension) ≡ some acks
  pub of_target : view.target_checkpoint_id ≡ checkpoint_id
  pub some_required : 0 < length view.required_node_ids
  pub acknowledged :
      (node_id : String)
      → contains view.required_node_ids node_id ≡ true
      → node_activated acks checkpoint_id view.epoch node_id ≡ true

module _ {P : Payloads} (table_name : String) (extension : Option String) where
  pub activation_matches-IsActivated :
      (s : EphemeralServiceImpl P) (checkpoint_id : String)
      → activation_matches s table_name extension checkpoint_id ≡ true
      → IsActivated s table_name extension checkpoint_id
  unfolding activation_matches
  activation_matches-IsActivated s checkpoint_id h =
      elim (Option-cases (get_cutover_membership_view s table_name extension)) [
        | inl n ↦ ground arith
        | inr (view, v) ↦
            elim (Option-cases
              (get s.serving_node_activations (selector_group_key table_name extension))) [
                | inl n ↦ ground arith
                | inr (acks, a) ↦
                    let of_target : view.target_checkpoint_id ≡ checkpoint_id =
                      ground (arith, ==_iff view.target_checkpoint_id checkpoint_id) in
                    let all_nodes : all (node_activated acks checkpoint_id view.epoch)
                          view.required_node_ids
                        ≡ true =
                      ground arith in
                    record {
                      view = view;
                      acks = acks;
                      has_view = v;
                      has_acks = a;
                      of_target = of_target;
                      some_required = ground arith;
                      acknowledged = λ node_id m.
                          all-contains (node_activated acks checkpoint_id view.epoch)
                            view.required_node_ids node_id all_nodes m;
                    }
              ]
      ]

  published-backfill :
      (now : ℤ) (s : EphemeralServiceImpl P) (checkpoint_id : String)
      → (backfill_cutover_membership_for_target now table_name extension checkpoint_id
          s).published_checkpoint_id
        ≡ s.published_checkpoint_id
  unfolding backfill_cutover_membership_for_target
  published-backfill now s checkpoint_id = ground arith

  published-reconfigure :
      (now : ℤ) (s : EphemeralServiceImpl P) (checkpoint_id : String)
      → (maybe_reconfigure_cutover_membership_for_target now table_name extension checkpoint_id
          s).published_checkpoint_id
        ≡ s.published_checkpoint_id
  unfolding maybe_reconfigure_cutover_membership_for_target
  published-reconfigure now s checkpoint_id = ground arith

  published-capture :
      (now : ℤ) (s : EphemeralServiceImpl P) (checkpoint_id : String)
      → (capture_cutover_membership_for_target now table_name extension checkpoint_id
          s).published_checkpoint_id
        ≡ s.published_checkpoint_id
  unfolding capture_cutover_membership_for_target
  published-capture now s checkpoint_id = ground arith

  published-activation :
      (now : ℤ) (s : EphemeralServiceImpl P) (checkpoint_id : String)
      → (activation_matches_target now table_name extension checkpoint_id
          s).0.published_checkpoint_id
        ≡ s.published_checkpoint_id
  unfolding activation_matches_target
  published-activation now s checkpoint_id =
      published-reconfigure now
        (backfill_cutover_membership_for_target now table_name extension checkpoint_id s)
        checkpoint_id
      ∙ published-backfill now s checkpoint_id

  -- what holds where the checkpoint has been promoted
  pub record IsPromoted (s s' : EphemeralServiceImpl P) : Type 0 where
    pub checkpoint_id : String
    pub latest : get_latest_materialized_checkpoint_sync s table_name extension ≡ some checkpoint_id
    pub ready : readiness_matches_target s table_name extension checkpoint_id ≡ true
    pub activated : IsActivated s' table_name extension checkpoint_id
    pub published :
        get_published_checkpoint_sync s' active table_name extension ≡ some checkpoint_id
    pub others :
        (key : String)
        → key ≢ selector_storage_key active table_name extension
        → get s'.published_checkpoint_id key ≡ get s.published_checkpoint_id key

  set_published-IsActivated :
      (s : EphemeralServiceImpl P) (checkpoint_id : String)
      → activation_matches s table_name extension checkpoint_id ≡ true
      → IsActivated
          (set_published_checkpoint active table_name extension checkpoint_id s)
          table_name
          extension
          checkpoint_id
  unfolding set_published_checkpoint activation_matches
  set_published-IsActivated s checkpoint_id h =
      activation_matches-IsActivated
        (set_published_checkpoint active table_name extension checkpoint_id s) checkpoint_id h

  promote_at :
      (now : ℤ) (s : EphemeralServiceImpl P) (id : String)
      → get_latest_materialized_checkpoint_sync s table_name extension ≡ some id
      → readiness_matches_target s table_name extension id ≡ true
      → (activation_matches_target now table_name extension id s).1 ≡ true
      → IsPromoted s (
          set_published_checkpoint active table_name extension id
            (activation_matches_target now table_name extension id s).0)
  unfolding set_published_checkpoint
  promote_at now s id l r a = record {
    checkpoint_id = id;
    latest = l;
    ready = r;
    activated =
        set_published-IsActivated (activation_matches_target now table_name extension id s).0 id
          (unfold activation_matches_target in a);
    published = rw (get-insert, ==_refl (selector_storage_key active table_name extension)) refl;
    others = λ key h.
        rw
          (
            get-insert,
            ==_eq_false (selector_storage_key active table_name extension) key (λ e. h (sym e)),
          )
          (ap (λ (m : Dict String String). get m key) (published-activation now s id));
  }

  promote_to-IsPromoted :
      (now : ℤ) (s : EphemeralServiceImpl P) (id : String)
      → get_latest_materialized_checkpoint_sync s table_name extension ≡ some id
      → (promote_to now table_name extension id s).1 ≡ true
      → IsPromoted s (promote_to now table_name extension id s).0
  unfolding promote_to
  promote_to-IsPromoted now s id l h =
      elim (Bool-cases (get_published_checkpoint_sync s active table_name extension == some id)) [
        | inl same ↦ absurd (ground arith)
        | inr other ↦ elim (Bool-cases (readiness_matches_target s table_name extension id)) [
          | inr missing ↦ absurd (ground arith)
          | inl ready ↦
              elim (Bool-cases (activation_matches_target now table_name extension id s).1) [
                | inr waiting ↦ absurd (ground arith)
                | inl activated ↦
                    rw (other, ready, activated) (promote_at now s id l ready activated)
              ]
        ]
      ]

  -- Where promotion reports work done, the checkpoint that is now active is the latest committed one, its
  -- artifacts are ready, and all nodes of a non-empty view have acknowledged it in the view's epoch;
  -- no other selector's published checkpoint changes.
  pub promote-IsPromoted :
      (now : ℤ) (s : EphemeralServiceImpl P)
      → (promote_active_checkpoint_if_ready now table_name extension s).1 ≡ true
      → IsPromoted s (promote_active_checkpoint_if_ready now table_name extension s).0
  unfolding promote_active_checkpoint_if_ready
  promote-IsPromoted now s h =
      elim (Option-cases (get_latest_materialized_checkpoint_sync s table_name extension)) [
        | inl n ↦ absurd (ground arith)
        | inr (id, l) ↦
            rw (l, promote_active_checkpoint_if_ready)
              (promote_to-IsPromoted now s id l (rw (l, promote_active_checkpoint_if_ready) at h))
      ]

  -- Where it reports none, nothing is published: every published checkpoint is as it was.
  pub promote_false :
      (now : ℤ) (s : EphemeralServiceImpl P)
      → (promote_active_checkpoint_if_ready now table_name extension s).1 ≡ false
      → (promote_active_checkpoint_if_ready now table_name extension s).0.published_checkpoint_id
        ≡ s.published_checkpoint_id
  unfolding promote_active_checkpoint_if_ready
  promote_false now s h =
      elim (Option-cases (get_latest_materialized_checkpoint_sync s table_name extension)) [
        | inl n ↦ ground arith
        | inr (id, l) ↦ ground (arith, published-activation now s id)
      ]
