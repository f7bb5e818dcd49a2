-- ===== src/Common/Order.antt =====
-- The order of texts, `Ord` on `String`, with `sort`, `max` and the comparisons of the code.
use Prim.Native.Nat.{Ordering}
use Prim.Native.String.{String, compare}
use mathlib.Core.Path.{◌≡◌, refl}
use mathlib.Core.Bool.{Bool, true, false, ◌&&◌, ◌||◌}
use mathlib.Core.Option.{Option, none, some}
use mathlib.Core.List.{List, [], ◌∷◌}
use native.Mathlib.Omega.{arith}
use powdrr_engine.Common.Tests.{if◌then◌else◌, ◌==◌, string_eq}
use powdrr_engine.Common.Lists.{contains, all}

-- `a < b`
abbrev pub str_ltb : String → String → Bool
str_ltb a b = elim (compare a b) [ Ordering.lt ↦ true | _ ↦ false ]

-- `sort`, on texts
unfoldable pub sort_insert : String → List String → List String
sort_insert x [] = x ∷ []
sort_insert x (y ∷ ys) = let rest = sort_insert x ys in if str_ltb y x then y ∷ rest else x ∷ y ∷ ys

unfoldable pub sort : List String → List String
unfolding sort_insert
sort [] = []
sort (x ∷ xs) = sort_insert x (sort xs)

contains-sort_insert :
    (x : String) (ys : List String) (a : String)
    → contains (sort_insert x ys) a ≡ (x == a || contains ys a)
unfolding sort_insert
contains-sort_insert x [] a = refl
contains-sort_insert x (y ∷ ys) a = ground (arith, contains-sort_insert x ys a)

-- sorting keeps the members
pub contains-sort : (xs : List String) (a : String) → contains (sort xs) a ≡ contains xs a
unfolding sort
contains-sort [] a = refl
contains-sort (x ∷ xs) a = ground (arith, contains-sort_insert x (sort xs) a, contains-sort xs a)

pub all-sort : (p : String → Bool) (xs : List String) → all p (sort xs) ≡ all p xs
unfolding sort
all-sort p [] = refl
all-sort p (x ∷ xs) = ground (arith, all-sort_insert p x (sort xs), all-sort p xs)
  where
    all-sort_insert :
        (p : String → Bool) (x : String) (ys : List String)
        → all p (sort_insert x ys) ≡ (p x && all p ys)
    all-sort_insert p x [] = refl
    all-sort_insert p x (y ∷ ys) = ground (arith, all-sort_insert p x ys)

-- `iter().max()`: the last of the greatest
unfoldable pub max_from : String → List String → String
max_from m [] = m
max_from m (x ∷ xs) = max_from (if str_ltb x m then m else x) xs

unfoldable pub max? : List String → Option String
unfolding max_from
max? [] = none
max? (x ∷ xs) = some (max_from x xs)
