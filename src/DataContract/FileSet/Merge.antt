-- ===== src/DataContract/FileSet/Merge.antt =====
-- What a merge of two file sets holds: the paths of both, none of them twice.
use powdrr_engine.Common.{
  String, ◌≡◌, refl, ◌∙◌, true, false, ◌||◌, some, List, [], ◌∷◌, ◌++◌, arith, ltb, ◌==◌, ==_iff,
  contains, contains-append, distinct, inl, inr, Bool-cases, string_eq, nat_eq,
}
use powdrr_engine.DataContract.Schema.{schema_eq}
use powdrr_engine.DataContract.FileSet.{
  FileSetPayload, FileDescriptor, add, add_all, push_file, merge, merge_inplace, len,
}
use powdrr_engine.DataContract.FileSet.Valid.{
  IsValid, as_file_tuples_total, paths_of, add_all-IsValid,
}

distinct-snoc :
    (xs : List String) (x : String)
    → distinct xs ≡ true
    → contains xs x ≡ false
    → distinct (xs ++ x ∷ []) ≡ true
distinct-snoc [] x d c = refl
distinct-snoc (y ∷ xs) x d c =
    ground (arith, distinct-snoc xs x, contains-append xs (x ∷ []) y, ==_iff x y, ==_iff y x)

add_paths :
    (fs : FileSetPayload) (d : FileDescriptor) (path : String)
    → contains (add fs d).file_paths path ≡ (contains fs.file_paths path || d.file_path == path)
unfolding add push_file
add_paths fs d path =
    ground (arith, contains-append fs.file_paths (d.file_path ∷ []) path, ==_iff d.file_path path)

add-distinct :
    (fs : FileSetPayload) (d : FileDescriptor)
    → distinct fs.file_paths ≡ true
    → distinct (add fs d).file_paths ≡ true
unfolding add push_file
add-distinct fs d h = ground (arith, distinct-snoc fs.file_paths d.file_path)

add_all_paths :
    (fs : FileSetPayload) (ds : List FileDescriptor) (path : String)
    → contains (add_all fs ds).file_paths path
      ≡ (contains fs.file_paths path || contains (paths_of ds) path)
unfolding add_all
add_all_paths fs [] path = ground arith
add_all_paths fs (d ∷ ds) path =
    ground (arith, add_all_paths (add fs d) ds path, add_paths fs d path)

add_all-distinct :
    (fs : FileSetPayload) (ds : List FileDescriptor)
    → distinct fs.file_paths ≡ true
    → distinct (add_all fs ds).file_paths ≡ true
unfolding add_all
add_all-distinct fs [] h = h
add_all-distinct fs (d ∷ ds) h = add_all-distinct (add fs d) ds (add-distinct fs d h)

-- The paths of `fs`, then those of `other`, each once.
pub record IsUnion (fs other r : FileSetPayload) : Type 0 where
  pub valid : IsValid r
  pub unique : distinct r.file_paths ≡ true
  pub members :
      (path : String)
      → contains r.file_paths path ≡ (contains fs.file_paths path || contains other.file_paths path)

pub merge_inplace-IsUnion :
    (fs other : FileSetPayload)
    → IsValid fs
    → IsValid other
    → distinct fs.file_paths ≡ true
    → (r : FileSetPayload) × (merge_inplace fs other ≡ some r) × IsUnion fs other r
unfolding merge_inplace
merge_inplace-IsUnion fs other v w d =
    let (ds, e, p) = as_file_tuples_total other w in
    (
      add_all fs ds,
      rw e,
      record {
        valid = add_all-IsValid fs ds v;
        unique = add_all-distinct fs ds d;
        members = λ path. add_all_paths fs ds path ∙ rw p refl;
      },
    )

IsUnion-comm : (fs other r : FileSetPayload) → IsUnion other fs r → IsUnion fs other r
IsUnion-comm fs other r u = record {
  valid = u.valid;
  unique = u.unique;
  members = λ path. ground (arith, u.members path);
}

-- The merge of two valid sets with distinct paths does not panic; it is valid, and holds the paths of
-- both, each once, whichever set is cloned.
pub merge-IsUnion :
    (fs other : FileSetPayload)
    → IsValid fs
    → IsValid other
    → distinct fs.file_paths ≡ true
    → distinct other.file_paths ≡ true
    → (r : FileSetPayload) × (merge fs other ≡ some r) × IsUnion fs other r
unfolding merge
merge-IsUnion fs other v w d f = elim (Bool-cases (ltb (len other) (len fs))) [
  | inl larger ↦ rw larger (merge_inplace-IsUnion fs other v w d)
  | inr smaller ↦
      let (r, e, u) = merge_inplace-IsUnion other fs w v f in
      (r, rw smaller e, IsUnion-comm fs other r u)
]
