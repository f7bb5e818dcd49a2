-- ===== src/Query/Statistics.antt =====
-- query_core/src/query_path.rs: the statistics of a column that holds a value do not exclude a predicate
-- that the value meets.
use Prim.Native.Nat.{Ordering}
use powdrr_engine.Common.{
  ℕ, ◌≡◌, refl, Bool, true, false, ◌&&◌, ◌||◌, not, Option, none, some, List, [], ◌∷◌, string_eq,
  any, option_map, unwrap_or, arith,
}
use powdrr_engine.DataContract.Types.{IcebergColumnStats}
use powdrr_engine.Json.{Floats, Value}
use powdrr_engine.Query.Order.{IsOrder, scalar-IsOrder}
use powdrr_engine.Query.Path.{
  QueryPredicate, is_less, is_greater, is_equal, compare_scalar_values, column_is_all_null,
  excluded, equality_may_match, range_may_match, predicate_may_match_stats,
}

module _ {P : Floats} where
  -- a comparison that a bound of the predicate asks for
  abbrev pub meets : (Option Ordering → Bool) → Value P → Option (Value P) → Bool
  meets test v none = true
  meets test v (some bound) = test (compare_scalar_values v bound)

  -- what a predicate asks of a value: its `eq`, else one of its `in` values, else its four bounds
  unfoldable pub value_matches : Value P → QueryPredicate (Value P) → Bool
  value_matches v predicate = elim predicate.eq [
    | some eq ↦ is_equal (compare_scalar_values v eq)
    | none ↦ elim predicate.in_values [
      | some values ↦ any (λ value. is_equal (compare_scalar_values v value)) values
      | none ↦
          meets is_greater v predicate.gt
          && meets (λ o. is_greater o || is_equal o) v predicate.gte
          && meets is_less v predicate.lt
          && meets (λ o. is_less o || is_equal o) v predicate.lte
    ]
  ]

  -- the statistics of a column that holds the value in one of its rows
  abbrev pub within : IcebergColumnStats (Value P) → Option ℕ → Value P → Bool
  within column_stats record_count v =
      not (column_is_all_null column_stats record_count)
      && not (excluded is_less (some v) column_stats.lower_bound)
      && not (excluded is_greater (some v) column_stats.upper_bound)

  module _ (floats : IsOrder P.partial_cmp) where
    eq_lower :
        (v value : Value P) (bound : Option (Value P))
        → is_equal (compare_scalar_values v value) ≡ true
        → excluded is_less (some v) bound ≡ false
        → excluded is_less (some value) bound ≡ false
    eq_lower v value none e h = refl
    eq_lower v value (some b) e h =
        ground (arith, (scalar-IsOrder floats).eq_left v value b Ordering.lt)

    eq_upper :
        (v value : Value P) (bound : Option (Value P))
        → is_equal (compare_scalar_values v value) ≡ true
        → excluded is_greater (some v) bound ≡ false
        → excluded is_greater (some value) bound ≡ false
    eq_upper v value none e h = refl
    eq_upper v value (some b) e h =
        ground (arith, (scalar-IsOrder floats).eq_left v value b Ordering.gt)

    gt_upper :
        (v : Value P) (upper bound : Option (Value P))
        → meets is_greater v bound ≡ true
        → excluded is_greater (some v) upper ≡ false
        → excluded (λ o. is_less o || is_equal o) upper bound ≡ false
    gt_upper v none bound m h = refl
    gt_upper v (some u) none m h = refl
    gt_upper v (some u) (some g) m h = ground (
      arith,
      (scalar-IsOrder floats).flip v g,
      (scalar-IsOrder floats).flip u v,
      (scalar-IsOrder floats).eq_left u g v Ordering.lt,
      (scalar-IsOrder floats).lt_trans u g v,
    )

    gte_upper :
        (v : Value P) (upper bound : Option (Value P))
        → meets (λ o. is_greater o || is_equal o) v bound ≡ true
        → excluded is_greater (some v) upper ≡ false
        → excluded is_less upper bound ≡ false
    gte_upper v none bound m h = refl
    gte_upper v (some u) none m h = refl
    gte_upper v (some u) (some g) m h = ground (
      arith,
      (scalar-IsOrder floats).flip v g,
      (scalar-IsOrder floats).flip u v,
      (scalar-IsOrder floats).flip u g,
      (scalar-IsOrder floats).eq_left v g u Ordering.gt,
      (scalar-IsOrder floats).lt_trans u g v,
    )

    lt_lower :
        (v : Value P) (lower bound : Option (Value P))
        → meets is_less v bound ≡ true
        → excluded is_less (some v) lower ≡ false
        → excluded (λ o. is_greater o || is_equal o) lower bound ≡ false
    lt_lower v none bound m h = refl
    lt_lower v (some l) none m h = refl
    lt_lower v (some l) (some b) m h = ground (
      arith,
      (scalar-IsOrder floats).flip v b,
      (scalar-IsOrder floats).flip l v,
      (scalar-IsOrder floats).flip l b,
      (scalar-IsOrder floats).eq_left l b v Ordering.gt,
      (scalar-IsOrder floats).lt_trans v b l,
    )

    lte_lower :
        (v : Value P) (lower bound : Option (Value P))
        → meets (λ o. is_less o || is_equal o) v bound ≡ true
        → excluded is_less (some v) lower ≡ false
        → excluded is_greater lower bound ≡ false
    lte_lower v none bound m h = refl
    lte_lower v (some l) none m h = refl
    lte_lower v (some l) (some b) m h = ground (
      arith,
      (scalar-IsOrder floats).flip v b,
      (scalar-IsOrder floats).flip l b,
      (scalar-IsOrder floats).eq_left v b l Ordering.lt,
      (scalar-IsOrder floats).lt_trans v b l,
    )

    equality_lem :
        (column_stats : IcebergColumnStats (Value P)) (record_count : Option ℕ) (v value : Value P)
        → within column_stats record_count v ≡ true
        → is_equal (compare_scalar_values v value) ≡ true
        → equality_may_match column_stats record_count value ≡ true
    unfolding equality_may_match
    equality_lem column_stats record_count v value h e = ground (
      arith,
      eq_lower v value column_stats.lower_bound e,
      eq_upper v value column_stats.upper_bound e,
    )

    any_equality :
        (column_stats : IcebergColumnStats (Value P)) (record_count : Option ℕ) (v : Value P)
        (values : List (Value P))
        → within column_stats record_count v ≡ true
        → any (λ value. is_equal (compare_scalar_values v value)) values ≡ true
        → any (equality_may_match column_stats record_count) values ≡ true
    any_equality column_stats record_count v [] h e = e
    any_equality column_stats record_count v (value ∷ values) h e = ground (
      arith,
      equality_lem column_stats record_count v value h,
      any_equality column_stats record_count v values h,
    )

    range_lem :
        (column_stats : IcebergColumnStats (Value P)) (record_count : Option ℕ) (v : Value P)
        (predicate : QueryPredicate (Value P))
        → within column_stats record_count v ≡ true
        → meets is_greater v predicate.gt ≡ true
        → meets (λ o. is_greater o || is_equal o) v predicate.gte ≡ true
        → meets is_less v predicate.lt ≡ true
        → meets (λ o. is_less o || is_equal o) v predicate.lte ≡ true
        → range_may_match column_stats record_count predicate ≡ true
    unfolding range_may_match
    range_lem column_stats record_count v predicate h gt gte lt lte =
        rw
          (
            present,
            gt_upper v column_stats.upper_bound predicate.gt gt above,
            gte_upper v column_stats.upper_bound predicate.gte gte above,
            lt_lower v column_stats.lower_bound predicate.lt lt below,
            lte_lower v column_stats.lower_bound predicate.lte lte below,
          )
          refl
      where
        present : column_is_all_null column_stats record_count ≡ false
        present = ground arith

        above : excluded is_greater (some v) column_stats.upper_bound ≡ false
        above = ground arith

        below : excluded is_less (some v) column_stats.lower_bound ≡ false
        below = ground arith

    pub stats_lem :
        (column_stats : IcebergColumnStats (Value P)) (record_count : Option ℕ) (v : Value P)
        (predicate : QueryPredicate (Value P))
        → within column_stats record_count v ≡ true
        → value_matches v predicate ≡ true
        → predicate_may_match_stats column_stats record_count predicate ≡ true
    unfolding predicate_may_match_stats value_matches
    stats_lem column_stats record_count v predicate h m = ground (
      arith,
      range_lem column_stats record_count v predicate h,
      eq_case predicate.eq,
      in_case predicate.in_values,
    )
      where
        eq_case :
            (eq : Option (Value P))
            → is_equal (unwrap_or none (option_map (compare_scalar_values v) eq)) ≡ true
            → unwrap_or true (option_map (equality_may_match column_stats record_count) eq) ≡ true
        eq_case none e = refl
        eq_case (some eq) e = equality_lem column_stats record_count v eq h e

        in_case :
            (in_values : Option (List (Value P)))
            → unwrap_or true
                (option_map (any (λ value. is_equal (compare_scalar_values v value))) in_values)
              ≡ true
            → unwrap_or true
                (option_map (any (equality_may_match column_stats record_count)) in_values)
              ≡ true
        in_case none e = refl
        in_case (some values) e = any_equality column_stats record_count v values h e
