-- ===== src/Query/Path.antt =====
-- query_core/src/query_path.rs: which files and row groups may hold a row that matches predicates.
use Prim.Native.Nat.{Ordering}
use Prim.Native.String.{String, compare}
use powdrr_engine.Common.{
  ℕ, Bool, true, false, ◌||◌, Option, none, some, List, [], ◌∷◌, ◌++◌, if◌then◌else◌, ◌==◌,
  string_eq, leb, all, any, find, option_map, unwrap_or,
}
use powdrr_engine.DataContract.Schema.{schema_eq}
use powdrr_engine.DataContract.FileSet.{FileDescriptor}
use powdrr_engine.DataContract.Types.{IcebergColumnStats, IcebergRowGroupStats, IcebergFileStats}
use powdrr_engine.Json.{Floats, Value, number, string, boolean, as_f64, bool_cmp}

pub record QueryPredicate (V : Type 0) : Type 0 where
  pub field : String
  pub eq : Option V
  pub in_values : Option (List V)
  pub gt : Option V
  pub gte : Option V
  pub lt : Option V
  pub lte : Option V

-- the first group whose files have the schema takes the file
unfoldable pub push_to_group :
    FileDescriptor → List (List FileDescriptor) → List (List FileDescriptor)
push_to_group file [] = (file ∷ []) ∷ []
push_to_group file ([] ∷ groups) = [] ∷ push_to_group file groups
push_to_group file ((existing ∷ group) ∷ groups) =
    if existing.schema == file.schema
    then (existing ∷ (group ++ (file ∷ []))) ∷ groups
    else (existing ∷ group) ∷ push_to_group file groups

unfoldable pub group_files :
    List (List FileDescriptor) → List FileDescriptor → List (List FileDescriptor)
group_files groups [] = groups
group_files groups (file ∷ files) = group_files (push_to_group file groups) files

unfoldable pub group_files_by_schema : List FileDescriptor → List (List FileDescriptor)
group_files_by_schema files = group_files [] files

-- `matches!` on the result of a comparison
abbrev pub is_less : Option Ordering → Bool
is_less (some Ordering.lt) = true
is_less _ = false

abbrev pub is_greater : Option Ordering → Bool
is_greater (some Ordering.gt) = true
is_greater _ = false

abbrev pub is_equal : Option Ordering → Bool
is_equal (some Ordering.eq) = true
is_equal _ = false

module _ {P : Floats} where
  unfoldable pub compare_scalar_values : Value P → Value P → Option Ordering
  compare_scalar_values (number a) (number b) = P.partial_cmp (as_f64 a) (as_f64 b)
  compare_scalar_values (string a) (string b) = some (compare a b)
  compare_scalar_values (boolean a) (boolean b) = some (bool_cmp a b)
  compare_scalar_values _ _ = none

  unfoldable pub column_is_all_null : IcebergColumnStats (Value P) → Option ℕ → Bool
  column_is_all_null column_stats none = false
  column_is_all_null column_stats (some record_count) =
      unwrap_or false (option_map (leb record_count) column_stats.null_count)

  -- a bound that is not given excludes nothing
  abbrev pub excluded : (Option Ordering → Bool) → Option (Value P) → Option (Value P) → Bool
  excluded test none right = false
  excluded test (some left) none = false
  excluded test (some left) (some right) = test (compare_scalar_values left right)

  unfoldable pub equality_may_match : IcebergColumnStats (Value P) → Option ℕ → Value P → Bool
  equality_may_match column_stats record_count value =
      if column_is_all_null column_stats record_count
      then false
      else if excluded is_less (some value) column_stats.lower_bound
      then false
      else if excluded is_greater (some value) column_stats.upper_bound
      then false
      else true

  unfoldable pub range_may_match :
      IcebergColumnStats (Value P) → Option ℕ → QueryPredicate (Value P) → Bool
  range_may_match column_stats record_count predicate =
      if column_is_all_null column_stats record_count
      then false
      else if excluded (λ o. is_less o || is_equal o) column_stats.upper_bound predicate.gt
      then false
      else if excluded is_less column_stats.upper_bound predicate.gte
      then false
      else if excluded (λ o. is_greater o || is_equal o) column_stats.lower_bound predicate.lt
      then false
      else if excluded is_greater column_stats.lower_bound predicate.lte
      then false
      else true

  unfoldable pub predicate_may_match_stats :
      IcebergColumnStats (Value P) → Option ℕ → QueryPredicate (Value P) → Bool
  predicate_may_match_stats column_stats record_count predicate = elim predicate.eq [
    | some eq ↦ equality_may_match column_stats record_count eq
    | none ↦ elim predicate.in_values [
      | some values ↦ any (equality_may_match column_stats record_count) values
      | none ↦ range_may_match column_stats record_count predicate
    ]
  ]

  -- the statistics of the predicate's column, among those of a file or of a row group
  unfoldable pub predicate_may_match_columns :
      List (IcebergColumnStats (Value P)) → Option ℕ → QueryPredicate (Value P) → Bool
  predicate_may_match_columns columns record_count predicate =
      elim (find (λ (stats : IcebergColumnStats (Value P)). stats.field_name == predicate.field)
        columns) [
          | none ↦ true
          | some column_stats ↦ predicate_may_match_stats column_stats record_count predicate
        ]

  unfoldable pub predicate_may_match_file :
      IcebergFileStats (Value P) → QueryPredicate (Value P) → Bool
  predicate_may_match_file file_stats predicate =
      predicate_may_match_columns file_stats.columns file_stats.record_count predicate

  unfoldable pub predicate_may_match_row_group :
      IcebergRowGroupStats (Value P) → QueryPredicate (Value P) → Bool
  predicate_may_match_row_group row_group_stats predicate =
      predicate_may_match_columns row_group_stats.columns row_group_stats.record_count predicate

  unfoldable pub file_may_match_predicates :
      IcebergFileStats (Value P) → List (QueryPredicate (Value P)) → Bool
  file_may_match_predicates file_stats predicates =
      all (predicate_may_match_file file_stats) predicates

  unfoldable pub row_group_may_match_predicates :
      IcebergRowGroupStats (Value P) → List (QueryPredicate (Value P)) → Bool
  row_group_may_match_predicates row_group_stats predicates =
      all (predicate_may_match_row_group row_group_stats) predicates
