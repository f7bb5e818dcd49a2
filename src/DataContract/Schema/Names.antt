-- ===== src/DataContract/Schema/Names.antt =====
-- The columns of a merged schema: those of the first schema, in their order, and then the new ones.
use mathlib.Core.List.{append-nil, append_assoc}
use powdrr_engine.Common.{
  String, ◌≡◌, refl, ap, Bool, true, false, not, Option, none, some, List, [], ◌∷◌, ◌++◌, arith,
  >>=-eq-some, contains, retain, is_some, string_eq, Option-cases, inl, inr,
}
use powdrr_engine.DataContract.Schema.{
  PowdrrDataType, PowdrrSchema, nil, field, to_map_get, set_field, push_field, store_merged,
  merge_field, merge_fields, merge_from,
}

abbrev pub names : PowdrrSchema → List String
names nil = []
names (field n t r) = n ∷ names r

pub to_map_get-names :
    (s : PowdrrSchema) (n : String) → is_some (to_map_get s n) ≡ contains (names s) n
unfolding to_map_get
to_map_get-names nil n = refl
to_map_get-names (field m t r) n = ground (arith, to_map_get-names r n)

names-set_field :
    (n : String) (t : PowdrrDataType) (s : PowdrrSchema) {r : PowdrrSchema}
    → set_field n t s ≡ some r
    → names r ≡ names s
unfolding set_field
names-set_field n t nil h = cc
names-set_field n t (field m u s) h = elim (Option-cases (set_field n t s)) [
  | inl e ↦ ground arith
  | inr (r', e) ↦ ground (arith, names-set_field n t s e)
]

names-push_field :
    (n : String) (t : PowdrrDataType) (s : PowdrrSchema)
    → names (push_field n t s) ≡ names s ++ n ∷ []
unfolding push_field
names-push_field n t nil = refl
names-push_field n t (field m u s) = ap (λ l. m ∷ l) (names-push_field n t s)

names-store_merged :
    (n : String) (m : Option PowdrrDataType) (s : PowdrrSchema) {r : PowdrrSchema}
    → store_merged n m s ≡ some r
    → names r ≡ names s
unfolding store_merged
names-store_merged n none s h = ground arith
names-store_merged n (some t) s h = names-set_field n t s h

-- the names that a schema does not have yet
abbrev pub fresh_in : PowdrrSchema → String → Bool
fresh_in self n = not (contains (names self) n)

names-merge_fields :
    (self fields other : PowdrrSchema) {r : PowdrrSchema}
    → merge_fields self fields other ≡ some r
    → names r ≡ names fields ++ retain (fresh_in self) (names other)
unfolding merge_fields
names-merge_fields self fields nil h = rw append-nil (ground arith)
names-merge_fields self fields (field n u other) {r} h = elim (Option-cases (to_map_get self n)) [
  | inl e ↦
      let fresh : contains (names self) n ≡ false = ground (arith, to_map_get-names self n) in
      let ih =
        names-merge_fields self (push_field n u fields) other {r = r} (rw (e, merge_fields) at h) in
      rw (ih, fresh, names-push_field n u fields) (append_assoc (names fields) (n ∷ []) _)
  | inr (t, e) ↦
      let known : contains (names self) n ≡ true = ground (arith, to_map_get-names self n) in
      let (fields', p, q) = >>=-eq-some _ _ (rw (e, merge_fields) at h) in
      let (merged, m, k) = >>=-eq-some (merge_field t u) _ p in
      rw (known, ← names-store_merged n merged fields k) (names-merge_fields self fields' other q)
]

-- Where the merge does not panic, the columns of the result are those of `self`, in their order, and
-- then those of `other` that `self` does not have, in theirs.
pub names-merge_from :
    (self other : PowdrrSchema) {r : PowdrrSchema}
    → merge_from self other ≡ some r
    → names r ≡ names self ++ retain (fresh_in self) (names other)
unfolding merge_from
names-merge_from self other h = names-merge_fields self self other h
