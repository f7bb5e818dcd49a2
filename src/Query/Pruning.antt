-- ===== src/Query/Pruning.antt =====
-- query_core/src/query_path.rs: pruning by statistics never drops a file or a row group that holds a
-- row which the predicates ask for.
use powdrr_engine.Common.{
  ℕ, ◌≡◌, refl, Bool, true, false, ◌&&◌, ◌||◌, not, Option, none, some, List, [], ◌∷◌, ◌==◌,
  string_eq, ==_iff, all, find, find-some, arith, Option-cases, inl, inr,
}
use powdrr_engine.DataContract.Types.{IcebergColumnStats, IcebergRowGroupStats, IcebergFileStats}
use powdrr_engine.Json.{Floats, Value, Fields, get_field, is_null}
use powdrr_engine.Query.Order.{IsOrder}
use powdrr_engine.Query.Path.{
  QueryPredicate, predicate_may_match_stats, predicate_may_match_columns, predicate_may_match_file,
  predicate_may_match_row_group, file_may_match_predicates, row_group_may_match_predicates,
}
use powdrr_engine.Query.Statistics.{value_matches, within, stats_lem}

module _ {P : Floats} where
  abbrev pub asks : QueryPredicate (Value P) → Option (Value P) → Bool
  asks predicate none = false
  asks predicate (some v) = not (is_null v) && value_matches v predicate

  abbrev pub tells : Option ℕ → IcebergColumnStats (Value P) → Option (Value P) → Bool
  tells record_count column_stats none = true
  tells record_count column_stats (some v) = is_null v || within column_stats record_count v

  -- the row has such a value, not null, in the column of the predicate
  abbrev pub row_matches : Fields P → QueryPredicate (Value P) → Bool
  row_matches row predicate = asks predicate (get_field row predicate.field)

  abbrev pub names_field : QueryPredicate (Value P) → IcebergColumnStats (Value P) → Bool
  names_field predicate stats = stats.field_name == predicate.field

  -- the statistics of a column take the row into account: null, or within the bounds
  abbrev pub describes : Fields P → Option ℕ → IcebergColumnStats (Value P) → Bool
  describes row record_count column_stats =
      tells record_count column_stats (get_field row column_stats.field_name)

  module _ (floats : IsOrder P.partial_cmp) where
    told_lem :
        (column_stats : IcebergColumnStats (Value P)) (record_count : Option ℕ)
        (predicate : QueryPredicate (Value P)) (v : Option (Value P))
        → tells record_count column_stats v ≡ true
        → asks predicate v ≡ true
        → predicate_may_match_stats column_stats record_count predicate ≡ true
    told_lem column_stats record_count predicate none t a = cc
    told_lem column_stats record_count predicate (some v) t a =
        stats_lem floats column_stats record_count v predicate (ground arith) (ground arith)

    columns_lem :
        (columns : List (IcebergColumnStats (Value P))) (record_count : Option ℕ) (row : Fields P)
        (predicate : QueryPredicate (Value P))
        → all (describes row record_count) columns ≡ true
        → row_matches row predicate ≡ true
        → predicate_may_match_columns columns record_count predicate ≡ true
    unfolding predicate_may_match_columns
    columns_lem columns record_count row predicate d m =
        elim (Option-cases (find (names_field predicate) columns)) [
          | inl e ↦ rw (predicate_may_match_columns, e) refl
          | inr (stats, e) ↦
              rw (predicate_may_match_columns, e)
                (found stats
                  (find-some (names_field predicate) (describes row record_count) columns e d))
        ]
      where
        found :
            (stats : IcebergColumnStats (Value P))
            → (names_field predicate stats ≡ true) × (describes row record_count stats ≡ true)
            → predicate_may_match_stats stats record_count predicate ≡ true
        found stats h =
            told_lem stats record_count predicate (get_field row predicate.field)
              (rw (← (==_iff stats.field_name predicate.field).0 h.0) h.1) m

    all_columns_lem :
        (columns : List (IcebergColumnStats (Value P))) (record_count : Option ℕ) (row : Fields P)
        (predicates : List (QueryPredicate (Value P)))
        → all (describes row record_count) columns ≡ true
        → all (row_matches row) predicates ≡ true
        → all (predicate_may_match_columns columns record_count) predicates ≡ true
    all_columns_lem columns record_count row [] d m = refl
    all_columns_lem columns record_count row (predicate ∷ predicates) d m = ground (
      arith,
      columns_lem columns record_count row predicate d,
      all_columns_lem columns record_count row predicates d,
    )

    -- A file and a row group whose statistics take a row into account are not pruned by predicates
    -- that the row meets. Statistics take a row into account where each column that they tell of is
    -- null in the row, or is not all null and has its value within the bounds that can be compared
    -- with it. The comparison of floats is assumed to be an order on those that it compares.
    pub may_match_predicates_lem :
        (file_stats : IcebergFileStats (Value P)) (row_group_stats : IcebergRowGroupStats (Value P))
        (row : Fields P) (predicates : List (QueryPredicate (Value P)))
        → all (row_matches row) predicates ≡ true
        → all (describes row file_stats.record_count) file_stats.columns ≡ true
        → all (describes row row_group_stats.record_count) row_group_stats.columns ≡ true
        → (file_may_match_predicates file_stats predicates ≡ true)
          × (row_group_may_match_predicates row_group_stats predicates ≡ true)
    unfolding file_may_match_predicates row_group_may_match_predicates predicate_may_match_file
        predicate_may_match_row_group
    may_match_predicates_lem file_stats row_group_stats row predicates m d e = (
      all_columns_lem file_stats.columns file_stats.record_count row predicates d m,
      all_columns_lem row_group_stats.columns row_group_stats.record_count row predicates e m,
    )
