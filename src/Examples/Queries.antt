-- ===== src/Examples/Queries.antt =====
-- Runs of query_core/src/query_path.rs on small inputs. The floats are the integers.
use Prim.Native.Nat.{Ordering}
use powdrr_engine.Common.{
  ℕ, ◌≡◌, refl, ap, String, string_eq, true, false, Option, none, some, List, [], ◌∷◌, arith,
}
use powdrr_engine.Common.Int.{ℤ, pos, ◌+ℤ◌}
use powdrr_engine.DataContract.Schema.{
  PowdrrSchema, field as schema_field, string as schema_string, nil, schema_beq, type_beq,
  schema_eq,
}
use powdrr_engine.DataContract.FileSet.{FileDescriptor}
use powdrr_engine.DataContract.Types.{IcebergColumnStats, IcebergRowGroupStats, IcebergFileStats}
use powdrr_engine.Json.{Floats, int, Value, number, Fields, end, field, compare_ℤ, is_eq, get_field}
use powdrr_engine.Query.Path.{
  QueryPredicate, push_to_group, group_files, group_files_by_schema, file_may_match_predicates,
  row_group_may_match_predicates, predicate_may_match_file, predicate_may_match_columns,
  predicate_may_match_stats, compare_scalar_values, column_is_all_null, range_may_match,
}
use powdrr_engine.Query.Order.{IsOrder, reverse}
use powdrr_engine.Query.Statistics.{value_matches}
use powdrr_engine.Query.Pruning.{may_match_predicates_lem}

abbrev pub whole_cmp : ℤ → ℤ → Option Ordering
whole_cmp a b = some (compare_ℤ a b)

abbrev pub whole : Floats
whole = record {
  F = ℤ;
  of_int = λ z. z;
  partial_cmp = whole_cmp;
  same = λ a b. is_eq (compare_ℤ a b);
  add = λ a b. a +ℤ b;
  is_finite = λ a. true;
  parse = λ s. none;
  print = λ a. "";
}

pub whole-IsOrder : IsOrder whole_cmp
whole-IsOrder = record {
  flip = λ a b. ap some (flipped a b);
  eq_left = λ a b c o h k. eq_then a b c o h k;
  lt_trans = λ a b c h k. lt_then a b c h k;
}
  where
    flipped : (a b : ℤ) → compare_ℤ b a ≡ reverse (compare_ℤ a b)
    flipped a b = ground arith

    eq_then :
        (a b c : ℤ) (o : Ordering)
        → whole_cmp a b ≡ some Ordering.eq
        → whole_cmp b c ≡ some o
        → whole_cmp a c ≡ some o
    eq_then a b c o h k = ground arith

    lt_then :
        (a b c : ℤ)
        → whole_cmp a b ≡ some Ordering.lt
        → whole_cmp b c ≡ some Ordering.lt
        → whole_cmp a c ≡ some Ordering.lt
    lt_then a b c h k = ground arith

abbrev pub whole_number : ℕ → Value whole
whole_number n = number (int (pos n))

abbrev age_stats : IcebergColumnStats (Value whole)
age_stats = record {
  field_id = pos 1;
  field_name = "age";
  null_count = some 0;
  lower_bound = some (whole_number 10);
  upper_bound = some (whole_number 40);
}

abbrev file_stats : IcebergFileStats (Value whole)
file_stats = record {
  file_path = "a.parquet";
  record_count = some 3;
  columns = age_stats ∷ [];
  partition_values = [];
  row_groups = [];
}

abbrev row_group_stats : IcebergRowGroupStats (Value whole)
row_group_stats = record {
  row_group_index = 0;
  record_count = some 3;
  compressed_bytes = 100;
  page_index_present = false;
  bloom_filter_present = false;
  columns = age_stats ∷ [];
}

abbrev above : ℕ → QueryPredicate (Value whole)
above n = record {
  field = "age";
  eq = none;
  in_values = none;
  gt = some (whole_number n);
  gte = none;
  lt = none;
  lte = none;
}

abbrev row : Fields whole
row = field "age" (whole_number 30) end

may_match_predicates_lem_example :
    (file_may_match_predicates file_stats (above 25 ∷ []) ≡ true)
    × (row_group_may_match_predicates row_group_stats (above 25 ∷ []) ≡ true)
unfolding get_field value_matches compare_scalar_values column_is_all_null
may_match_predicates_lem_example =
    may_match_predicates_lem whole-IsOrder file_stats row_group_stats row (above 25 ∷ []) refl refl
      refl

-- the file has no value above its upper bound
file_pruned : file_may_match_predicates file_stats (above 50 ∷ []) ≡ false
unfolding file_may_match_predicates predicate_may_match_file predicate_may_match_columns
    predicate_may_match_stats range_may_match compare_scalar_values column_is_all_null
file_pruned = refl

abbrev people : PowdrrSchema
people = schema_field "name" schema_string nil

abbrev other : PowdrrSchema
other = nil

abbrev file : String → PowdrrSchema → FileDescriptor
file path schema = record { file_path = path; schema = schema; size = 10 }

abbrev files : List FileDescriptor
files = file "a" people ∷ file "b" other ∷ file "c" people ∷ []

files_grouped :
    group_files_by_schema files
    ≡ (file "a" people ∷ file "c" people ∷ []) ∷ (file "b" other ∷ []) ∷ []
unfolding group_files_by_schema group_files push_to_group schema_beq type_beq
files_grouped = refl
