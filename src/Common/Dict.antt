-- ===== src/Common/Dict.antt =====
-- Rust's `HashMap` (and `HashSet`, by its keys), as an association list. The order of the entries
-- stands for the order in which Rust would iterate, which the program cannot rely on.
use powdrr_engine.Common.Tests.{Eq, ◌==◌, if◌then◌else◌, is_some, option_map}
use powdrr_engine.Common.Lists.{contains, distinct}
use mathlib.Core.Path.{◌≡◌, refl}
use mathlib.Core.Bool.{Bool, true, ◌||◌}
use mathlib.Core.Option.{Option, none, some}
use mathlib.Core.List.{List, [], ◌∷◌}
use native.Mathlib.Omega.{arith}

abbrev pub Dict {ℓ κ} : Type ℓ → Type κ → Type (ℓ ⊔ κ)
Dict K V = List (K × V)

abbrev pub keep {ℓ} : {V : Type ℓ} → (V → Bool) → Option V → Option V
keep p none = none
keep p (some v) = if p v then some v else none

module _ {ℓ κ} {K : Type ℓ} {V : Type κ} ⦃e : Eq K⦄ where
  unfoldable pub get : Dict K V → K → Option V
  get [] k = none
  get ((j, v) ∷ m) k = if j == k then some v else get m k

  -- a new key is appended, a known one keeps its place
  unfoldable pub insert : K → V → Dict K V → Dict K V
  insert k v [] = (k, v) ∷ []
  insert k v ((j, w) ∷ m) = if j == k then (k, v) ∷ m else (j, w) ∷ insert k v m

  unfoldable pub remove : K → Dict K V → Dict K V
  remove k [] = []
  remove k ((j, w) ∷ m) = let rest = remove k m in if j == k then rest else (j, w) ∷ rest

  -- `retain`. What follows a dropped entry holds no second entry of its key: keys are distinct in a
  -- `HashMap`, and the inner `remove` keeps that reading for every list.
  unfoldable pub retain : (K → V → Bool) → Dict K V → Dict K V
  retain p [] = []
  retain p ((j, w) ∷ m) = let rest = retain p m in if p j w then (j, w) ∷ rest else remove j rest

  unfoldable pub contains_key : Dict K V → K → Bool
  contains_key m k = is_some (get m k)

  unfoldable pub keys : Dict K V → List K
  keys [] = []
  keys ((j, w) ∷ m) = j ∷ keys m

  pub get-insert :
      (k j : K) (v : V) (m : Dict K V) → get (insert k v m) j ≡ (if k == j then some v else get m j)
  unfolding get insert
  get-insert k j v [] = refl
  get-insert k j v ((i, w) ∷ m) =
      ground (arith, e.same_iff k j, e.same_iff i k, e.same_iff i j, get-insert k j v m)

  pub contains-insert :
      (k j : K) (v : V) (m : Dict K V)
      → contains (keys (insert k v m)) j ≡ (contains (keys m) j || k == j)
  unfolding insert keys
  contains-insert k j v [] = ground arith
  contains-insert k j v ((i, w) ∷ m) =
      ground (arith, e.same_iff i k, e.same_iff i j, e.same_iff k j, contains-insert k j v m)

  pub distinct-insert :
      (k : K) (v : V) (m : Dict K V)
      → distinct (keys m) ≡ true
      → distinct (keys (insert k v m)) ≡ true
  unfolding insert keys
  distinct-insert k v [] d = refl
  distinct-insert k v ((i, w) ∷ m) d =
      ground (arith, e.same_iff i k, e.same_iff k i, contains-insert k i v m, distinct-insert k v m)

  pub get-remove :
      (k j : K) (m : Dict K V) → get (remove k m) j ≡ (if k == j then none else get m j)
  unfolding get remove
  get-remove k j [] = ground arith
  get-remove k j ((i, w) ∷ m) =
      ground (arith, e.same_iff k j, e.same_iff i k, e.same_iff i j, get-remove k j m)

  pub get-retain :
      (p : K → V → Bool) (j : K) (m : Dict K V) → get (retain p m) j ≡ keep (p j) (get m j)
  unfolding get retain
  get-retain p j [] = refl
  get-retain p j ((i, w) ∷ m) =
      ground (arith, e.same_iff i j, get-retain p j m, get-remove i j (retain p m))

  pub contains-keys : (m : Dict K V) (k : K) → contains (keys m) k ≡ contains_key m k
  unfolding keys contains_key get
  contains-keys [] k = refl
  contains-keys ((j, w) ∷ m) k = ground (arith, contains-keys m k)

unfoldable pub values {ℓ κ} : {K : Type ℓ} {V : Type κ} → Dict K V → List V
values [] = []
values ((j, w) ∷ m) = w ∷ values m

-- `for v in map.values_mut()`
unfoldable pub map_values {ℓ κ ι} :
    {K : Type ℓ} {V : Type κ} {W : Type ι} → (V → W) → Dict K V → Dict K W
map_values f [] = []
map_values f ((j, w) ∷ m) = (j, f w) ∷ map_values f m

pub get-map_values {ℓ κ ι} :
    {K : Type ℓ} {V : Type κ} {W : Type ι} ⦃e : Eq K⦄ (f : V → W) (m : Dict K V) (k : K)
    → get (map_values f m) k ≡ option_map f (get m k)
unfolding get map_values
get-map_values f [] k = refl
get-map_values f ((j, w) ∷ m) k = ground (arith, get-map_values f m k)

pub ruleset dict_laws = (get-insert, get-remove, get-retain, get-map_values)
