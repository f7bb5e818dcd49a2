-- ===== src/DynamoDb/StartKey/Bounds.antt =====
-- The bounds of a page's sort key, `tighten_lower_bound` of query_server/src/dynamodb_protocol.rs.
use Prim.Native.Nat.{Ordering}
use powdrr_engine.Common.{
  ◌≡◌, refl, sym, ◌∙◌, Bool, true, false, ◌&&◌, ◌||◌, not, Option, none, some, arith, inl, inr, ◌⊎◌,
}
use powdrr_engine.Json.{Floats, Value, boolean, number, string, is_lt, is_gt}
use powdrr_engine.Query.Path.{is_greater, is_equal, is_less, compare_scalar_values}
use powdrr_engine.Query.Plan.{ServingPredicate, read_predicate, query_predicate}
use powdrr_engine.Query.Order.{IsOrder, scalar-IsOrder}
use powdrr_engine.Query.Statistics.{meets, value_matches}
use powdrr_engine.DynamoDb.Error.{DynamoDbError, validation, Result, ok, err, ok_or}
use powdrr_engine.DynamoDb.Filter.{compare_scalars}
use powdrr_engine.DynamoDb.StartKey.{bound_is, tighten_lower_bound}

abbrev at_least : Option Ordering → Bool
at_least o = is_greater o || is_equal o

abbrev at_most : Option Ordering → Bool
at_most o = is_less o || is_equal o

ok_inj : {A : Type 0} {a b : A} → ok a ≡ ok b → a ≡ b
ok_inj h = cc

err-ne-ok : {A : Type 0} {e : DynamoDbError} {a : A} → err e ≡ ok a → ⊥
err-ne-ok h = cc

module _ {P : Floats} where
  compare_scalars_lem :
      (a b : Value P) → compare_scalars a b ≡ ok_or validation (compare_scalar_values a b)
  unfolding compare_scalars compare_scalar_values
  compare_scalars_lem (number a) (number b) = refl
  compare_scalars_lem (string a) (string b) = refl
  compare_scalars_lem (boolean a) (boolean b) = refl
  compare_scalars_lem a b = ground arith

  -- what a predicate of a request asks of a value
  abbrev pub serves : ServingPredicate (Value P) → Value P → Bool
  serves filter v = value_matches v (query_predicate (read_predicate filter))

  module _ (floats : IsOrder P.partial_cmp) where
    -- a value above the candidate is above, or at least, what is not above the candidate
    above_gt :
        (v candidate : Value P) (bound : Option (Value P))
        → bound_is (λ o. not (is_lt o)) bound candidate ≡ ok false
        → is_greater (compare_scalar_values v candidate) ≡ true
        → meets is_greater v bound ≡ true
    above_gt v candidate none b h = refl
    above_gt v candidate (some bound) b h = ground (
      arith,
      compare_scalars_lem bound candidate,
      (scalar-IsOrder floats).flip v candidate,
      (scalar-IsOrder floats).flip bound v,
      (scalar-IsOrder floats).lt_trans bound candidate v,
    )

    above_gte :
        (v candidate : Value P) (bound : Option (Value P))
        → bound_is is_gt bound candidate ≡ ok false
        → is_greater (compare_scalar_values v candidate) ≡ true
        → meets at_least v bound ≡ true
    above_gte v candidate none b h = refl
    above_gte v candidate (some bound) b h = ground (
      arith,
      compare_scalars_lem bound candidate,
      (scalar-IsOrder floats).flip v candidate,
      (scalar-IsOrder floats).flip bound v,
      (scalar-IsOrder floats).eq_left bound candidate v Ordering.lt,
      (scalar-IsOrder floats).lt_trans bound candidate v,
    )

    -- a value above a bound that is not below the candidate is above the candidate
    above_candidate :
        (v candidate bound : Value P)
        → bound_is (λ o. not (is_lt o)) (some bound) candidate ≡ ok true
        → is_greater (compare_scalar_values v bound) ≡ true
        → is_greater (compare_scalar_values v candidate) ≡ true
    above_candidate v candidate bound b h = ground (
      arith,
      compare_scalars_lem bound candidate,
      (scalar-IsOrder floats).flip v bound,
      (scalar-IsOrder floats).flip bound candidate,
      (scalar-IsOrder floats).flip candidate v,
      (scalar-IsOrder floats).eq_left candidate bound v Ordering.lt,
      (scalar-IsOrder floats).lt_trans candidate bound v,
    )

    serves_lem :
        (filter : ServingPredicate (Value P)) (v : Value P)
        → filter.eq ≡ none
        → filter.in_values ≡ none
        → serves filter v ≡ (
            meets is_greater v filter.gt
            && meets at_least v filter.gte
            && meets is_less v filter.lt
            && meets at_most v filter.lte)
    unfolding value_matches read_predicate query_predicate
    serves_lem filter v e i = ground arith

    -- the tightened filter, by the outcome of the test of `gt`
    tightened :
        (filter updated : ServingPredicate (Value P)) (candidate : Value P) (r : Result Bool)
        → bound_is (λ o. not (is_lt o)) filter.gt candidate ≡ r
        → bound_is is_gt filter.gte candidate ≡ ok false
        → tighten_lower_bound filter candidate ≡ ok updated
        → ((r ≡ ok true) × (updated ≡ filter))
          ⊎ ((r ≡ ok false) × (updated ≡ record filter { gt = some candidate; gte = none }))
    unfolding tighten_lower_bound
    tightened filter updated candidate (ok true) b g t =
        inl (refl, sym (ok_inj (sym (rw (tighten_lower_bound, b) refl) ∙ t)))
    tightened filter updated candidate (ok false) b g t =
        inr (refl, sym (ok_inj (sym (rw (tighten_lower_bound, b, g) refl) ∙ t)))
    tightened filter updated candidate (err x) b g t =
        absurd (err-ne-ok {e = x} (sym (rw (tighten_lower_bound, b) refl) ∙ t))

    kept :
        (filter : ServingPredicate (Value P)) (candidate v : Value P) (bound : Option (Value P))
        → bound ≡ filter.gt
        → filter.eq ≡ none
        → filter.in_values ≡ none
        → bound_is (λ o. not (is_lt o)) bound candidate ≡ ok true
        → serves filter v ≡ (serves filter v && is_greater (compare_scalar_values v candidate))
    kept filter candidate v none q e i b = cc
    kept filter candidate v (some bound) q e i b =
        ground (arith, serves_lem filter v e i, above_candidate v candidate bound b)

    replaced :
        (filter : ServingPredicate (Value P)) (candidate v : Value P)
        → filter.eq ≡ none
        → filter.in_values ≡ none
        → bound_is (λ o. not (is_lt o)) filter.gt candidate ≡ ok false
        → bound_is is_gt filter.gte candidate ≡ ok false
        → serves (record filter { gt = some candidate; gte = none }) v
          ≡ (serves filter v && is_greater (compare_scalar_values v candidate))
    replaced filter candidate v e i b g = ground (
      arith,
      serves_lem filter v e i,
      serves_lem (record filter { gt = some candidate; gte = none }) v e i,
      above_gt v candidate filter.gt b,
      above_gte v candidate filter.gte g,
    )

    -- Where the filter of a sort key has no `eq` and no `in` values, and its `gte` bound is not above
    -- the candidate, the tightened filter asks for just the values that the filter asks for and that
    -- are above the candidate.
    pub tighten_lower_bound_lem :
        (filter updated : ServingPredicate (Value P)) (candidate v : Value P)
        → filter.eq ≡ none
        → filter.in_values ≡ none
        → bound_is is_gt filter.gte candidate ≡ ok false
        → tighten_lower_bound filter candidate ≡ ok updated
        → serves updated v ≡ (serves filter v && is_greater (compare_scalar_values v candidate))
    tighten_lower_bound_lem filter updated candidate v e i g t =
        elim (tightened filter updated candidate (bound_is (λ o. not (is_lt o)) filter.gt candidate)
          refl g t) [
            | inl (b, u) ↦ rw u (kept filter candidate v filter.gt refl e i b)
            | inr (b, u) ↦ rw u (replaced filter candidate v e i b g)
          ]

    -- Where a filter has no `eq`, no `in` values and no `gt` bound, asks for the value of its `gte` bound,
    -- and that bound is above the candidate, the tightened filter leaves that value out, though it is
    -- above the candidate.
    pub tighten_lower_bound-gte :
        (filter : ServingPredicate (Value P)) (candidate bound : Value P)
        → filter.eq ≡ none
        → filter.in_values ≡ none
        → filter.gt ≡ none
        → filter.gte ≡ some bound
        → compare_scalar_values bound candidate ≡ some Ordering.gt
        → serves filter bound ≡ true
        → (updated : ServingPredicate (Value P)) × (tighten_lower_bound filter candidate
            ≡ ok updated)
          × (serves updated bound ≡ false)
    unfolding tighten_lower_bound
    tighten_lower_bound-gte filter candidate bound e i gt gte c s = (
      record filter { gt = filter.gte; gte = none },
      rw (tighten_lower_bound, gt, gte, compare_scalars_lem bound candidate, c) refl,
      ground (
        arith,
        serves_lem (record filter { gt = filter.gte; gte = none }) bound e i,
        (scalar-IsOrder floats).flip bound bound,
      ),
    )
