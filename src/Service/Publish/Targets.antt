-- ===== src/Service/Publish/Targets.antt =====
-- What capturing a target does: a new epoch without acknowledgements for a new target, and nothing for the
-- target that is captured already, in service_lib/src/ephemeral_service_impl.rs.
use powdrr_engine.Common.{
  if◌then◌else◌, sym, ◌+◌, ◌<◌, ◌%◌, String, ◌≡◌, ◌≢◌, refl, Bool, true, false, Option, none, some,
  List, [], arith, inl, inr, Bool-cases, ◌==◌, ==_refl, ==_eq_false, contains, unwrap_or,
  option_map, string_eq, nat_eq, option_eq,
}
use powdrr_engine.Common.Int.{ℤ}
use powdrr_engine.Common.Dict.{get, insert, get-insert, get-remove}
use powdrr_engine.Service.Types.{target, CutoverMembershipView, ServingNodeActivationAck, class_eq}
use powdrr_engine.Service.State.{Payloads, EphemeralServiceImpl, selector_group_key}
use powdrr_engine.Service.Cutover.{
  get_cutover_membership_view, capture_cutover_membership_for_target,
  prune_expired_serving_node_leases, live_serving_node_ids, start_epoch,
  store_cutover_membership_view, bump_cutover_epoch, clear_serving_node_activations, u64_mod,
}
use powdrr_engine.Service.Publish.Promotion.{activation_matches-IsActivated}
use powdrr_engine.Service.Publish.{view_target, activation_matches, record_serving_node_activation}

module _ {P : Payloads} (table_name : String) (extension : Option String) where
  -- s' is s with a new epoch for the target: its number is the next one, its nodes are those that are
  -- live, it is the last epoch that the selector was given, and no acknowledgement of an earlier epoch is
  -- kept. The epochs of the other selectors are as they were.
  pub record IsNewEpoch (now : ℤ) (id : String) (s s' : EphemeralServiceImpl P) : Type 0 where
    pub view : CutoverMembershipView
    pub has_view : get_cutover_membership_view s' table_name extension ≡ some view
    pub of_target : view.target_checkpoint_id ≡ id
    pub next_epoch :
        view.epoch
        ≡ unwrap_or 0 (get s.checkpoint_cutover_epochs (selector_group_key table_name extension))
          + 1
    pub last_epoch :
        get s'.checkpoint_cutover_epochs (selector_group_key table_name extension) ≡ some view.epoch
    pub other_epochs :
        (key : String)
        → key ≢ selector_group_key table_name extension
        → get s'.checkpoint_cutover_epochs key ≡ get s.checkpoint_cutover_epochs key
    pub live : view.required_node_ids ≡ live_serving_node_ids now s
    pub no_acks : get s'.serving_node_activations (selector_group_key table_name extension) ≡ none
    pub not_activated : activation_matches s' table_name extension id ≡ false

  no_acks-not_activated :
      (id : String) (s : EphemeralServiceImpl P)
      → get s.serving_node_activations (selector_group_key table_name extension) ≡ none
      → activation_matches s table_name extension id ≡ false
  unfolding activation_matches
  no_acks-not_activated id s h = ground arith

  start_epoch-no_acks :
      (id : String) (nodes : List String) (s : EphemeralServiceImpl P)
      → get
          (start_epoch table_name extension id nodes s).serving_node_activations
          (selector_group_key table_name extension)
        ≡ none
  unfolding start_epoch clear_serving_node_activations
  start_epoch-no_acks id nodes s =
      rw (get-remove, ==_refl (selector_group_key table_name extension)) refl

  pub start_epoch-view :
      (id : String) (nodes : List String) (s : EphemeralServiceImpl P)
      → get_cutover_membership_view
          (start_epoch table_name extension id nodes s)
          table_name
          extension
        ≡ some (record {
          selector = record { table_name = table_name; extension = extension; role = target };
          epoch =
              (unwrap_or 0
                  (get s.checkpoint_cutover_epochs (selector_group_key table_name extension))
                + 1)
              % u64_mod;
          target_checkpoint_id = id;
          required_node_ids = nodes;
        })
  unfolding start_epoch bump_cutover_epoch store_cutover_membership_view
      clear_serving_node_activations
  start_epoch-view id nodes s =
      rw (get-insert, ==_refl (selector_group_key table_name extension)) refl

  start_epoch-epochs :
      (id : String) (nodes : List String) (s : EphemeralServiceImpl P) (key : String)
      → get (start_epoch table_name extension id nodes s).checkpoint_cutover_epochs key ≡ (
          if selector_group_key table_name extension == key
          then some (
              (unwrap_or 0
                  (get s.checkpoint_cutover_epochs (selector_group_key table_name extension))
                + 1)
              % u64_mod)
          else get s.checkpoint_cutover_epochs key)
  unfolding start_epoch bump_cutover_epoch store_cutover_membership_view
      clear_serving_node_activations
  start_epoch-epochs id nodes s key =
      get-insert (selector_group_key table_name extension) key _ s.checkpoint_cutover_epochs

  start_epoch-IsNewEpoch :
      (now : ℤ) (id : String) (s : EphemeralServiceImpl P)
      → unwrap_or 0 (get s.checkpoint_cutover_epochs (selector_group_key table_name extension)) + 1
        < u64_mod
      → IsNewEpoch now id s (
          start_epoch table_name extension id
            (live_serving_node_ids now s)
            (prune_expired_serving_node_leases now s))
  unfolding prune_expired_serving_node_leases
  start_epoch-IsNewEpoch now id s h =
      let none_left =
        start_epoch-no_acks id (live_serving_node_ids now s)
          (prune_expired_serving_node_leases now s) in
      record {
        view = _;
        has_view =
            start_epoch-view id (live_serving_node_ids now s)
              (prune_expired_serving_node_leases now s);
        of_target = refl;
        next_epoch = omega arith;
        last_epoch =
            rw
              (
                start_epoch-epochs id (live_serving_node_ids now s)
                    (prune_expired_serving_node_leases now s)
                    (selector_group_key table_name extension),
                ==_refl (selector_group_key table_name extension),
              )
              refl;
        other_epochs = λ key h.
            rw
              (
                start_epoch-epochs id (live_serving_node_ids now s)
                    (prune_expired_serving_node_leases now s) key,
                ==_eq_false (selector_group_key table_name extension) key (λ e. h (sym e)),
              )
              refl;
        live = refl;
        no_acks = none_left;
        not_activated = no_acks-not_activated id _ none_left;
      }

  unfoldable pub captured : EphemeralServiceImpl P → String → Bool
  captured s id = unwrap_or false (
      option_map (λ (view : CutoverMembershipView). view.target_checkpoint_id == id)
        (get_cutover_membership_view s table_name extension))

  pub captured_iff :
      (s : EphemeralServiceImpl P) (id : String)
      → captured s id ≡ (view_target s table_name extension == some id)
  unfolding captured
  captured_iff s id = ground arith

  -- Capturing a target that is not the view's starts a new epoch, unless the 64-bit
  -- counter overflows: its number is one above the last of the selector, and is stored as the last one,
  -- above which the next epoch is counted. The live nodes are its members, and none of them counts as
  -- activated. The epochs of other selectors do not change.
  pub capture-IsNewEpoch :
      (now : ℤ) (id : String) (s : EphemeralServiceImpl P)
      → view_target s table_name extension ≢ some id
      → unwrap_or 0 (get s.checkpoint_cutover_epochs (selector_group_key table_name extension)) + 1
        < u64_mod
      → IsNewEpoch now id s (capture_cutover_membership_for_target now table_name extension id s)
  unfolding capture_cutover_membership_for_target captured
  capture-IsNewEpoch now id s other h =
      rw
        (
          captured_iff s id,
          ==_eq_false (view_target s table_name extension) (some id) other,
          capture_cutover_membership_for_target,
        )
        (start_epoch-IsNewEpoch now id s h)

  -- An acknowledgement with another epoch than the view's, of a node that the view requires, leaves the
  -- target not activated, even where that node had acknowledged the view's epoch before.
  pub activation_matches-late_ack :
      (id : String) (s : EphemeralServiceImpl P) (view : CutoverMembershipView)
      (ack : ServingNodeActivationAck)
      → get_cutover_membership_view s table_name extension ≡ some view
      → ack.selector.table_name ≡ table_name
      → ack.selector.extension ≡ extension
      → contains view.required_node_ids ack.node_id ≡ true
      → ack.epoch ≢ view.epoch
      → activation_matches (record_serving_node_activation ack s) table_name extension id ≡ false
  unfolding activation_matches record_serving_node_activation
  activation_matches-late_ack id s view ack v t x m e =
      elim (Bool-cases
        (activation_matches (record_serving_node_activation ack s) table_name extension id)) [
          | inr h ↦ h
          | inl h ↦
              let a =
                activation_matches-IsActivated table_name extension
                  (record_serving_node_activation ack s) id h in
              let same : view ≡ a.view = ground (arith, v, a.has_view) in
              let key = selector_group_key ack.selector.table_name ack.selector.extension in
              let acks = unwrap_or [] (get s.serving_node_activations key) in
              let same_key : key ≡ selector_group_key table_name extension = rw (t, x) refl in
              let stored : get a.acks ack.node_id ≡ some ack = ground (
                arith,
                same_key,
                a.has_acks,
                ==_refl key,
                ==_refl ack.node_id,
                get-insert key (selector_group_key table_name extension)
                    (insert ack.node_id ack acks) s.serving_node_activations,
                get-insert ack.node_id ack.node_id ack acks,
              ) in
              absurd (ground (arith, a.acknowledged ack.node_id))
        ]
