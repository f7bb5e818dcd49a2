-- ===== src/Common/Counting.antt =====
-- Counting the members of one list that are in another: the size check of a cover of a finite set.
use Prim.Native.Nat.{ℕ, ◌+◌}
use mathlib.Core.Path.{◌≡◌, refl}
use mathlib.Core.Logic.{◌↔◌}
use mathlib.Core.Bool.{Bool, true, false}
use mathlib.Core.List.{List, [], ◌∷◌}
use native.Mathlib.Omega.{arith}
use powdrr_engine.Common.Tests.{Eq, ◌==◌, if◌then◌else◌, nat_eq}
use powdrr_engine.Common.Lists.{length, all, retain, contains, distinct, length-retain}

module _ {ℓ} {A : Type ℓ} where
  retain-none : (xs : List A) → length (retain (λ x. false) xs) ≡ 0
  retain-none [] = refl
  retain-none (x ∷ xs) = retain-none xs

  length-retain-all :
      (p : A → Bool) (xs : List A) → (length (retain p xs) ≡ length xs) ↔ (all p xs ≡ true)
  length-retain-all p [] = ground arith
  length-retain-all p (x ∷ xs) = ground (arith, length-retain-all p xs, length-retain p xs)

module _ {ℓ} {A : Type ℓ} ⦃e : Eq A⦄ where
  abbrev count_one : List A → A → ℕ
  count_one ks x = if contains ks x then 1 else 0

  -- one more element to look for is found once, if it is among distinct elements
  retain-one_more :
      (x : A) (xs ks : List A)
      → contains xs x ≡ false
      → distinct ks ≡ true
      → length (retain (contains (x ∷ xs)) ks) ≡ length (retain (contains xs) ks) + count_one ks x
  retain-one_more x xs [] c d = refl
  retain-one_more x xs (k ∷ ks) c d =
      ground (arith, retain-one_more x xs ks, e.same_iff x k, e.same_iff k x)

  -- Of two lists of distinct elements, each has as many in the other.
  pub common_count :
      (xs ks : List A)
      → distinct xs ≡ true
      → distinct ks ≡ true
      → length (retain (contains xs) ks) ≡ length (retain (contains ks) xs)
  common_count [] ks d f = retain-none ks
  common_count (x ∷ xs) ks d f = ground (arith, retain-one_more x xs ks, common_count xs ks)

  pub cover_by_size :
      (xs ks : List A)
      → distinct xs ≡ true
      → distinct ks ≡ true
      → (length xs == length (retain (contains xs) ks)) ≡ all (contains ks) xs
  cover_by_size xs ks d f = ground (arith, common_count xs ks, length-retain-all (contains ks) xs)
