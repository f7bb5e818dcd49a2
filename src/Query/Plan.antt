-- ===== src/Query/Plan.antt =====
-- query_core/src/serving_plan.rs and read_plan.rs: requests, read plans and their conversion.
use powdrr_engine.Common.{
  ℕ, String, Bool, ◌||◌, Option, none, List, [], ◌∷◌, map, if◌then◌else◌, leb, any, is_some,
  unwrap_or,
}
use powdrr_engine.Query.Path.{QueryPredicate}

pub record ServingPredicate (V : Type 0) : Type 0 where
  pub field : String
  pub eq : Option V
  pub in_values : Option (List V)
  pub gt : Option V
  pub gte : Option V
  pub lt : Option V
  pub lte : Option V

pub record ServingSort : Type 0 where
  pub field : String
  pub descending : Bool

-- `A` is `ServingAggregateSpec`, which the plans hand on
pub record ServingRequestPlan (V A : Type 0) : Type 0 where
  pub select : Option (List String)
  pub filters : List (ServingPredicate V)
  pub aggregate : Option A
  pub order_by : List ServingSort
  pub limit : Option ℕ
  pub allow_slow_path : Bool
  pub explain : Bool

pub record ReadPredicate (V : Type 0) : Type 0 where
  pub field : String
  pub eq : Option V
  pub in_values : Option (List V)
  pub gt : Option V
  pub gte : Option V
  pub lt : Option V
  pub lte : Option V

pub record ReadSort : Type 0 where
  pub field : String
  pub descending : Bool

pub record ReadPlan (V A : Type 0) : Type 0 where
  pub select : Option (List String)
  pub filters : List (ReadPredicate V)
  pub aggregate : Option A
  pub order_by : List ReadSort
  pub limit : Option ℕ
  pub offset : ℕ
  pub search_after : Option (List V)
  pub allow_slow_path : Bool
  pub explain : Bool

-- the conversions, `From`
unfoldable pub read_predicate : {V : Type 0} → ServingPredicate V → ReadPredicate V
read_predicate p = record {
  field = p.field;
  eq = p.eq;
  in_values = p.in_values;
  gt = p.gt;
  gte = p.gte;
  lt = p.lt;
  lte = p.lte;
}

unfoldable pub query_predicate : {V : Type 0} → ReadPredicate V → QueryPredicate V
query_predicate p = record {
  field = p.field;
  eq = p.eq;
  in_values = p.in_values;
  gt = p.gt;
  gte = p.gte;
  lt = p.lt;
  lte = p.lte;
}

unfoldable pub read_sort : ServingSort → ReadSort
read_sort sort = record { field = sort.field; descending = sort.descending }

module _ {V A : Type 0} where
  unfoldable pub read_plan : ServingRequestPlan V A → ReadPlan V A
  read_plan plan = record {
    select = plan.select;
    filters = map read_predicate plan.filters;
    aggregate = plan.aggregate;
    order_by = map read_sort plan.order_by;
    limit = plan.limit;
    offset = 0;
    search_after = none;
    allow_slow_path = plan.allow_slow_path;
    explain = plan.explain;
  }

  unfoldable pub normalized_limit : ReadPlan V A → ℕ → ℕ → ℕ
  normalized_limit plan default_limit max_limit =
      let limit = unwrap_or default_limit plan.limit in
      if leb limit max_limit then limit else max_limit

  unfoldable pub uses_exact_filters : ReadPlan V A → Bool
  uses_exact_filters plan =
      any (λ (p : ReadPredicate V). is_some p.eq || is_some p.in_values) plan.filters

  unfoldable pub uses_range_filters : ReadPlan V A → Bool
  uses_range_filters plan =
      any (λ (p : ReadPredicate V). is_some p.gt || is_some p.gte || is_some p.lt || is_some p.lte)
        plan.filters

  unfoldable pub base_extension_suffixes : ReadPlan V A → Bool → List String
  base_extension_suffixes plan calculate_score = if calculate_score then "search_index" ∷ [] else []

  unfoldable pub exact_extension_suffixes : ReadPlan V A → List String
  exact_extension_suffixes plan = if uses_exact_filters plan then "exact_index" ∷ [] else []
