-- ===== src/Service/Coordination/Readiness.antt =====
-- The readiness that read-only nodes see and the one that promotion tests are the same:
-- service_lib/src/read_only_coordination.rs and service_lib/src/ephemeral_service_impl.rs.
use powdrr_engine.Common.{
  String, ◌≡◌, refl, ◌∙◌, true, false, ◌&&◌, not, Option, none, some, List, [], ◌∷◌, arith, inl,
  inr, Option-cases, ◌==◌, ==_iff, all, contains, distinct, length, unwrap_or, string_eq, nat_eq,
  option_eq,
}
use powdrr_engine.Common.Dict.{Dict, get, keys, values, contains_key, contains-keys}
use powdrr_engine.Service.Types.{ArtifactClass, class_eq, ArtifactReadinessAck}
use powdrr_engine.Service.State.{Payloads, EphemeralServiceImpl, selector_group_key}
use powdrr_engine.Service.Cutover.{required_artifact_classes}
use powdrr_engine.Service.Publish.{class_ready, readiness_matches_target, list_artifact_readiness}
use powdrr_engine.Service.Coordination.{ready_classes, readiness_satisfies_target}

-- each acknowledgement stands under its own class, as `record_artifact_readiness` puts it
unfoldable pub HasOwnClass : Dict ArtifactClass ArtifactReadinessAck → Type 0
HasOwnClass acks =
    (artifact_class : ArtifactClass) (ack : ArtifactReadinessAck)
    → get acks artifact_class ≡ some ack
    → ack.artifact_class ≡ artifact_class

ready_classes_lem :
    (acks : Dict ArtifactClass ArtifactReadinessAck) (id : String) (c : ArtifactClass)
    → distinct (keys acks) ≡ true
    → HasOwnClass acks
    → contains (ready_classes (values acks) id) c ≡ class_ready acks id c
unfolding HasOwnClass ready_classes values get keys contains_key
ready_classes_lem [] id c d o = refl
ready_classes_lem ((k, ack) ∷ acks) id c d o =
    let once : (not (contains (keys acks) k) && distinct (keys acks)) ≡ true = d in
    let own : ack.artifact_class ≡ k = o k ack (ground (arith, ==_iff k k)) in
    let unknown : get acks k ≡ none = ground (arith, contains-keys acks k, once) in
    let rest_own : HasOwnClass acks = λ a x h. o a x (ground (arith, ==_iff k a)) in
    let rest = ready_classes_lem acks id c (ground (arith, once)) rest_own in
    ground (arith, own, unknown, rest, ==_iff k c)

all_ready :
    (acks : Dict ArtifactClass ArtifactReadinessAck) (id : String) (classes : List ArtifactClass)
    → distinct (keys acks) ≡ true
    → HasOwnClass acks
    → all (contains (ready_classes (values acks) id)) classes ≡ all (class_ready acks id) classes
all_ready acks id [] d o = refl
all_ready acks id (c ∷ classes) d o =
    rw (ready_classes_lem acks id c d o, all_ready acks id classes d o) refl

some_required :
    (extension : Option String) → (length (required_artifact_classes extension) == 0) ≡ false
unfolding required_artifact_classes
some_required none = refl
some_required (some extension) = ground arith

none_ready :
    (extension : Option String) (id : String)
    → all (contains (ready_classes [] id)) (required_artifact_classes extension) ≡ false
unfolding required_artifact_classes values ready_classes
none_ready none id = refl
none_ready (some extension) id = ground arith

module _ {P : Payloads} where
  abbrev acks_of :
      EphemeralServiceImpl P → String → Option String → Dict ArtifactClass ArtifactReadinessAck
  acks_of s table_name extension =
      unwrap_or [] (get s.artifact_readiness_acks (selector_group_key table_name extension))

  -- Where each acknowledgement of the selector stands once, under its own class, the target is ready for
  -- read-only nodes exactly where promotion finds its artifacts ready.
  pub readiness_satisfies_target_lem :
      (s : EphemeralServiceImpl P) (table_name id : String) (extension : Option String)
      → distinct (keys (acks_of s table_name extension)) ≡ true
      → HasOwnClass (acks_of s table_name extension)
      → readiness_satisfies_target
          (list_artifact_readiness s table_name extension)
          (some id)
          extension
        ≡ readiness_matches_target s table_name extension id
  unfolding readiness_satisfies_target readiness_matches_target list_artifact_readiness values
  readiness_satisfies_target_lem s table_name id extension d o =
      let required = required_artifact_classes extension in
      let seen : readiness_satisfies_target (list_artifact_readiness s table_name extension)
            (some id) extension
          ≡ all (contains (ready_classes (values (acks_of s table_name extension)) id)) required =
        rw (some_required extension, readiness_satisfies_target) refl in
      elim (Option-cases
        (get s.artifact_readiness_acks (selector_group_key table_name extension))) [
          | inl n ↦ seen ∙ rw (n, readiness_matches_target) (none_ready extension id)
          | inr (acks, a) ↦
              seen
              ∙ all_ready (acks_of s table_name extension) id required d o
              ∙ rw (a, readiness_matches_target) refl
        ]
