-- ===== src/DataContract/Checkpoint/Coverage.antt =====
-- The coverage of a checkpoint's files by an extension: the two ways to check it agree, and what an
-- extension commit adds.
use powdrr_engine.Common.{
  String, ◌≡◌, refl, ◌∙◌, Bool, true, false, ◌&&◌, ◌||◌, Option, none, some, List, [], ◌∷◌, ◌++◌,
  arith, inl, inr, Bool-cases, Option-cases, if◌then◌else◌, ◌==◌, ==_iff, ==_refl, all, all-append,
  all-contains, all_of_contains, contains, contains-append, distinct, string_eq, nat_eq, bool_eq,
}
use powdrr_engine.Common.Counting.{cover_by_size}
use powdrr_engine.Common.Dict.{get, keys, contains_key, contains-keys, get-insert}
use powdrr_engine.DataContract.Types.{
  ExtensionFile, ExtensionFileMetadata, ExtensionCommit, TableMetadataCheckpoint,
}
use powdrr_engine.DataContract.Checkpoint.{
  extend, iceberg_paths, speedboat_paths, current_file_paths, extension_map,
  validate_fully_covered_for_extension, size_check_method, fully_covered_for_extension, cover_one,
  cover_all, add_coverage, checkpoint_extension_metadata_key,
}

contains-extend :
    (set xs : List String) (x : String)
    → contains (extend set xs) x ≡ (contains set x || contains xs x)
unfolding extend
contains-extend set [] x = ground arith
contains-extend set (y ∷ xs) x = ground (
  arith,
  contains-extend (if contains set y then set else set ++ y ∷ []) xs x,
  contains-append set (y ∷ []) x,
  ==_iff y x,
)

distinct-snoc :
    (xs : List String) (x : String)
    → distinct xs ≡ true
    → contains xs x ≡ false
    → distinct (xs ++ x ∷ []) ≡ true
distinct-snoc [] x d c = refl
distinct-snoc (y ∷ xs) x d c =
    ground (arith, distinct-snoc xs x, contains-append xs (x ∷ []) y, ==_iff x y, ==_iff y x)

distinct-extend : (set xs : List String) → distinct set ≡ true → distinct (extend set xs) ≡ true
unfolding extend
distinct-extend set [] d = d
distinct-extend set (y ∷ xs) d =
    distinct-extend (if contains set y then set else set ++ y ∷ []) xs
      (ground (arith, distinct-snoc set y))

all-extend :
    (p : String → Bool) (set xs : List String) → all p (extend set xs) ≡ (all p set && all p xs)
unfolding extend
all-extend p set [] = ground arith
all-extend p set (y ∷ xs) = ground (
  arith,
  all-extend p (if contains set y then set else set ++ y ∷ []) xs,
  all-append p set (y ∷ []),
  all-contains p set y,
)

all-pointwise :
    (p q : String → Bool) (xs : List String) → ((x : String) → p x ≡ q x) → all p xs ≡ all q xs
all-pointwise p q [] h = refl
all-pointwise p q (x ∷ xs) h = ground (arith, h x, all-pointwise p q xs h)

module _ {V : Type 0} where
  pub contains-current_file_paths :
      (c : TableMetadataCheckpoint V) (path : String)
      → contains (current_file_paths c) path
        ≡ (contains (iceberg_paths c) path || contains (speedboat_paths c) path)
  unfolding current_file_paths
  contains-current_file_paths c path = rw (
    contains-extend (extend [] (iceberg_paths c)) (speedboat_paths c) path,
    contains-extend [] (iceberg_paths c) path,
  )

  size_check-eq-validate :
      (c : TableMetadataCheckpoint V) (extension : String)
      → distinct (keys (extension_map c extension)) ≡ true
      → size_check_method c extension ≡ validate_fully_covered_for_extension c extension
  unfolding size_check_method validate_fully_covered_for_extension
  size_check-eq-validate c extension d =
      cover_by_size (current_file_paths c) (keys (extension_map c extension))
        (distinct-extend (extend [] (iceberg_paths c)) (speedboat_paths c)
          (distinct-extend [] (iceberg_paths c) refl))
        d
      ∙ (all-pointwise _ _ (current_file_paths c) (contains-keys (extension_map c extension))
          ∙ (all-extend _ (extend [] (iceberg_paths c)) (speedboat_paths c)
              ∙ rw (all-extend (contains_key (extension_map c extension)) [] (iceberg_paths c))
                  refl))

  -- The assertion of `fully_covered_for_extension` never fails where the keys of the extension's map
  -- are distinct: it returns true exactly where each file of the checkpoint has an entry.
  pub fully_covered_for_extension_lem :
      (c : TableMetadataCheckpoint V) (extension : String)
      → distinct (keys (extension_map c extension)) ≡ true
      → fully_covered_for_extension c extension
        ≡ some (validate_fully_covered_for_extension c extension)
  unfolding fully_covered_for_extension
  fully_covered_for_extension_lem c extension d =
      rw
        (
          size_check-eq-validate c extension d,
          ==_refl (validate_fully_covered_for_extension c extension),
        )
        refl

-- What is found in the map after a commit: what it held before, and else the commit's entry, at the
-- keys that were looked at.
abbrev pub after_cover :
    ExtensionFileMetadata → ExtensionFileMetadata → Bool → String → Option (List ExtensionFile)
after_cover existing files looked_at k =
    if contains_key existing k then get existing k else if looked_at then get files k else none

-- the map while the keys are walked through: `seen` are those looked at
abbrev Covering :
    ExtensionFileMetadata → ExtensionFileMetadata → (String → Bool) → ExtensionFileMetadata → Type 0
Covering existing files seen metadata =
    (k : String) → get metadata k ≡ after_cover existing files (seen k) k

Covering-one :
    (existing files : ExtensionFileMetadata) (seen : String → Bool)
    (metadata : ExtensionFileMetadata) (changed : Bool) (key : String)
    → Covering existing files seen metadata
    → Covering existing files
        (λ k. seen k || key == k)
        (cover_one existing files key (metadata, changed)).0
unfolding cover_one contains_key
Covering-one existing files seen metadata changed key h k = elim (Option-cases (get files key)) [
  | inl n ↦ ground (arith, h k, ==_iff key k)
  | inr (v, e) ↦ ground (arith, h k, ==_iff key k, get-insert key k v metadata)
]

Covering-all :
    (existing files : ExtensionFileMetadata) (seen : String → Bool) (ks : List String)
    (state : ExtensionFileMetadata × Bool)
    → Covering existing files seen state.0
    → Covering existing files (λ k. seen k || contains ks k) (cover_all existing files ks state).0
unfolding cover_all
Covering-all existing files seen [] state h k = ground (arith, h k)
Covering-all existing files seen (key ∷ ks) state h k =
    Covering-all existing files (λ j. seen j || key == j) ks (cover_one existing files key state)
      (Covering-one existing files seen state.0 state.1 key h) k
    ∙ ground arith

Covering-none :
    (existing files : ExtensionFileMetadata) → Covering existing files (λ _. false) existing
unfolding contains_key
Covering-none existing files k = ground arith

module _ {V : Type 0} where
  -- the keys that `add_coverage` looks at
  abbrev pub covered_keys : TableMetadataCheckpoint V → String → Bool
  covered_keys c k =
      contains (iceberg_paths c) k
      || contains (speedboat_paths c) k
      || checkpoint_extension_metadata_key c.checkpoint_id == k

  abbrev covered : TableMetadataCheckpoint V → ExtensionCommit → ExtensionFileMetadata
  covered c commit =
      (cover_one (extension_map c commit.extension) commit.files
        (checkpoint_extension_metadata_key c.checkpoint_id)
        (cover_all (extension_map c commit.extension) commit.files (speedboat_paths c) (
          cover_all (extension_map c commit.extension) commit.files (iceberg_paths c)
            (extension_map c commit.extension, false)))).0

  add_coverage-same :
      (c : TableMetadataCheckpoint V) (commit : ExtensionCommit) (k : String)
      → get (covered c commit) k
        ≡ after_cover (extension_map c commit.extension) commit.files (covered_keys c k) k
  add_coverage-same c commit k =
      let existing = extension_map c commit.extension in
      let key = checkpoint_extension_metadata_key c.checkpoint_id in
      let icebergs =
        Covering-all existing commit.files (λ _. false) (iceberg_paths c) (existing, false)
          (Covering-none existing commit.files) in
      let both =
        Covering-all existing commit.files (λ j. false || contains (iceberg_paths c) j)
          (speedboat_paths c) (cover_all existing commit.files (iceberg_paths c) (existing, false))
          icebergs in
      Covering-one existing commit.files
        (λ j. (false || contains (iceberg_paths c) j) || contains (speedboat_paths c) j)
        (cover_all existing commit.files (speedboat_paths c)
          (cover_all existing commit.files (iceberg_paths c) (existing, false))).0
        (cover_all existing commit.files (speedboat_paths c)
          (cover_all existing commit.files (iceberg_paths c) (existing, false))).1
        key both k
      ∙ ground arith

  -- The map of the commit's extension after the commit, at every key: an entry that was there stays as
  -- it was; else the commit's entry is taken at the checkpoint's files and its own key, and no other.
  -- The maps of other extensions do not change.
  pub add_coverage_lem :
      (c : TableMetadataCheckpoint V) (commit : ExtensionCommit) (extension : String) (k : String)
      → get (extension_map (add_coverage c commit).0 extension) k ≡ (
          if commit.extension == extension
          then after_cover (extension_map c extension) commit.files (covered_keys c k) k
          else get (extension_map c extension) k)
  unfolding add_coverage
  add_coverage_lem c commit extension k = elim (Bool-cases (commit.extension == extension)) [
    | inl same ↦
        rw
          (
            get-insert commit.extension extension _ c.extension_metadata,
            same,
            ← (==_iff commit.extension extension).0 same,
          )
          (add_coverage-same c commit k)
    | inr other ↦ rw (get-insert commit.extension extension _ c.extension_metadata, other) refl
  ]

  all-covered :
      (c : TableMetadataCheckpoint V) (commit : ExtensionCommit) (paths : List String)
      → all (λ path. covered_keys c path) paths ≡ true
      → all (contains_key commit.files) paths ≡ true
      → all (contains_key (extension_map (add_coverage c commit).0 commit.extension)) paths ≡ true
  unfolding contains_key
  all-covered c commit [] l h = refl
  all-covered c commit (path ∷ paths) l h = ground (
    arith,
    add_coverage_lem c commit commit.extension path,
    ==_refl commit.extension,
    all-covered c commit paths,
  )

  paths-add_coverage :
      (c : TableMetadataCheckpoint V) (commit : ExtensionCommit)
      → (iceberg_paths (add_coverage c commit).0 ≡ iceberg_paths c)
        × (speedboat_paths (add_coverage c commit).0 ≡ speedboat_paths c)
  unfolding add_coverage
  paths-add_coverage c commit = (refl, refl)

  -- A commit that has an entry for each file of the checkpoint covers it fully.
  pub validate_fully_covered-add_coverage :
      (c : TableMetadataCheckpoint V) (commit : ExtensionCommit)
      → all (contains_key commit.files) (iceberg_paths c) ≡ true
      → all (contains_key commit.files) (speedboat_paths c) ≡ true
      → validate_fully_covered_for_extension (add_coverage c commit).0 commit.extension ≡ true
  unfolding validate_fully_covered_for_extension
  validate_fully_covered-add_coverage c commit h k =
      rw
        (
          (paths-add_coverage c commit).0,
          (paths-add_coverage c commit).1,
          all-covered c commit (iceberg_paths c)
              (all_of_contains (covered_keys c) (iceberg_paths c) (λ a e. ground arith)) h,
          all-covered c commit (speedboat_paths c)
              (all_of_contains (covered_keys c) (speedboat_paths c) (λ a e. ground arith)) k,
        )
        refl
