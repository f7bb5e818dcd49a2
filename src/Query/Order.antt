-- ===== src/Query/Order.antt =====
-- The comparison of JSON scalars, `compare_scalar_values`, as an order.
use Prim.Native.Nat.{Ordering, compare as compare_ℕ}
use Prim.Native.String.compare
use text.Mathlib.TextEquality.{path_by_compare}
use Prim.Native.String.{String, compare}
use powdrr_engine.Common.{ℕ, ◌≡◌, refl, ap, Option, some, option_map, arith}
use powdrr_engine.Json.{Floats, Value, number, string, as_f64}
use powdrr_engine.Query.Path.{compare_scalar_values}

abbrev pub reverse : Ordering → Ordering
reverse Ordering.lt = Ordering.gt
reverse Ordering.eq = Ordering.eq
reverse Ordering.gt = Ordering.lt

-- what the pruning relies on: a comparison reads the same from both sides, and is transitive
pub record IsOrder {A : Type 0} (cmp : A → A → Option Ordering) : Type 0 where
  pub flip : (a b : A) → cmp b a ≡ option_map reverse (cmp a b)
  pub eq_left :
      (a b c : A) (o : Ordering) → cmp a b ≡ some Ordering.eq → cmp b c ≡ some o → cmp a c ≡ some o
  pub lt_trans :
      (a b c : A)
      → cmp a b ≡ some Ordering.lt
      → cmp b c ≡ some Ordering.lt
      → cmp a c ≡ some Ordering.lt

nat_flip : (a b : ℕ) → compare_ℕ b a ≡ reverse (compare_ℕ a b)
nat_flip a b = ground arith

pub str_flip : (a b : String) → compare b a ≡ reverse (compare a b)
str_flip String.[] String.[] = refl
str_flip String.[] (String.◌∷◌ d t) = cc (compare.nil-cons d t, compare.cons-nil d t)
str_flip (String.◌∷◌ c s) String.[] = cc (compare.nil-cons c s, compare.cons-nil c s)
str_flip (String.◌∷◌ c s) (String.◌∷◌ d t) =
    ground (arith, compare.cons-cons c d s t, compare.cons-cons d c t s, str_flip s t)

pub str_lt_trans :
    (a b c : String)
    → compare a b ≡ Ordering.lt
    → compare b c ≡ Ordering.lt
    → compare a c ≡ Ordering.lt
str_lt_trans String.[] String.[] z h k = k
str_lt_trans String.[] (String.◌∷◌ d t) String.[] h k = cc (compare.cons-nil d t)
str_lt_trans String.[] (String.◌∷◌ d t) (String.◌∷◌ e u) h k = compare.nil-cons e u
str_lt_trans (String.◌∷◌ c s) String.[] z h k = cc (compare.cons-nil c s)
str_lt_trans (String.◌∷◌ c s) (String.◌∷◌ d t) String.[] h k = cc (compare.cons-nil d t)
str_lt_trans (String.◌∷◌ c s) (String.◌∷◌ d t) (String.◌∷◌ e u) h k = ground (
  arith,
  compare.cons-cons c d s t,
  compare.cons-cons d e t u,
  compare.cons-cons c e s u,
  path_by_compare s t,
  path_by_compare t u,
  str_lt_trans s t u,
)

abbrev str_cmp : String → String → Option Ordering
str_cmp a b = some (compare a b)

pub str-IsOrder : IsOrder str_cmp
str-IsOrder = record {
  flip = λ a b. ap some (str_flip a b);
  eq_left = λ a b c o h k. rw (path_by_compare a b (cc)) k;
  lt_trans = λ a b c h k. ap some (str_lt_trans a b c (cc) (cc));
}

module _ {P : Floats} (floats : IsOrder P.partial_cmp) where
  scalar_flip :
      (a b : Value P) → compare_scalar_values b a ≡ option_map reverse (compare_scalar_values a b)
  unfolding compare_scalar_values
  scalar_flip (number a) (number b) = floats.flip (as_f64 a) (as_f64 b)
  scalar_flip (string a) (string b) = str-IsOrder.flip a b
  scalar_flip a b = ground arith

  scalar_eq_left :
      (a b c : Value P) (o : Ordering)
      → compare_scalar_values a b ≡ some Ordering.eq
      → compare_scalar_values b c ≡ some o
      → compare_scalar_values a c ≡ some o
  unfolding compare_scalar_values
  scalar_eq_left (number a) (number b) (number c) o h k =
      floats.eq_left (as_f64 a) (as_f64 b) (as_f64 c) o h k
  scalar_eq_left (string a) (string b) (string c) o h k = str-IsOrder.eq_left a b c o h k
  scalar_eq_left a b c o h k = ground arith

  scalar_lt_trans :
      (a b c : Value P)
      → compare_scalar_values a b ≡ some Ordering.lt
      → compare_scalar_values b c ≡ some Ordering.lt
      → compare_scalar_values a c ≡ some Ordering.lt
  unfolding compare_scalar_values
  scalar_lt_trans (number a) (number b) (number c) h k =
      floats.lt_trans (as_f64 a) (as_f64 b) (as_f64 c) h k
  scalar_lt_trans (string a) (string b) (string c) h k = str-IsOrder.lt_trans a b c h k
  scalar_lt_trans a b c h k = ground arith

  pub scalar-IsOrder : IsOrder (compare_scalar_values {P = P})
  scalar-IsOrder = record {
    flip = scalar_flip;
    eq_left = scalar_eq_left;
    lt_trans = scalar_lt_trans;
  }
