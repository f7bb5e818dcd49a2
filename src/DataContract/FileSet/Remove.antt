-- ===== src/DataContract/FileSet/Remove.antt =====
-- The in-place loop of `remove` against a filter: what is left of the three vectors, and of the
-- descriptors.
use powdrr_engine.Common.{
  ℕ, zero, suc, ◌≤◌, String, ◌≡◌, refl, ap, ◌∙◌, Bool, true, false, not, none, some, List, [], ◌∷◌,
  ◌++◌, arith, ltb, if◌then◌else◌, all, contains, length, length-append, inl, inr, Bool-cases,
  Option-cases, get_elem?, get_elem?-append_length, retain, string_eq, nat_eq,
}
use powdrr_engine.DataContract.Schema.{PowdrrSchema, schema_eq}
use powdrr_engine.DataContract.FileSet.{
  FileSetPayload, FileDescriptor, remove_at, remove_from, remove, file_tuples, as_file_tuples,
}
use powdrr_engine.DataContract.FileSet.Valid.{IsValid, as_file_tuples_total}

-- the paths that stay
abbrev pub stays : List String → String → Bool
stays to_remove path = not (contains to_remove path)

-- what stays of a vector that runs parallel to the paths
abbrev pub retain_parallel {ℓ} : {A : Type ℓ} → (String → Bool) → List String → List A → List A
retain_parallel p (path ∷ paths) (a ∷ rest) =
    let kept = retain_parallel p paths rest in if p path then a ∷ kept else kept
retain_parallel p _ _ = []

remove_at-append {ℓ} :
    {A : Type ℓ} (before : List A) (x : A) (after : List A) (i : ℕ)
    → i ≡ length before
    → remove_at (before ++ x ∷ after) i ≡ some (before ++ after)
unfolding remove_at
remove_at-append [] x after zero h = refl
remove_at-append [] x after (suc i) h = absurd (omega arith)
remove_at-append (b ∷ before) x after zero h = absurd (omega arith)
remove_at-append (b ∷ before) x after (suc i) h =
    rw (remove_at-append before x after i (omega arith))

get_elem?-at {ℓ} :
    {A : Type ℓ} (before : List A) (x : A) (after : List A) (i : ℕ)
    → i ≡ length before
    → get_elem? (before ++ x ∷ after) i ≡ some x
get_elem?-at before x after i h = rw h (get_elem?-append_length before after x)

get_elem?-past {ℓ} : {A : Type ℓ} (xs : List A) (i : ℕ) → length xs ≤ i → get_elem? xs i ≡ none
get_elem?-past [] i h = refl
get_elem?-past (x ∷ xs) zero h = absurd (omega arith)
get_elem?-past (x ∷ xs) (suc i) h = get_elem?-past xs i (omega arith)

abbrev pub payload : List PowdrrSchema → List String → List ℕ → List ℕ → FileSetPayload
payload schemas paths sizes indexes = record {
  file_paths = paths;
  schemas = schemas;
  file_schemas = indexes;
  sizes = sizes;
}

snoc {ℓ} :
    {A : Type ℓ} (before : List A) (x : A) (after : List A)
    → before ++ x ∷ after ≡ (before ++ x ∷ []) ++ after
snoc [] x after = refl
snoc (b ∷ before) x after = ap (λ l. b ∷ l) (snoc before x after)

-- one round of the loop, at a file that goes and at a file that stays
remove_from_gone :
    (rounds i : ℕ) (to_remove : List String) (fs : FileSetPayload) {name : String}
    {paths : List String} {sizes indexes : List ℕ}
    → get_elem? fs.file_paths i ≡ some name
    → contains to_remove name ≡ true
    → remove_at fs.file_paths i ≡ some paths
    → remove_at fs.sizes i ≡ some sizes
    → remove_at fs.file_schemas i ≡ some indexes
    → remove_from (suc rounds) i to_remove fs
      ≡ remove_from rounds i to_remove (payload fs.schemas paths sizes indexes)
unfolding remove_from
remove_from_gone rounds i to_remove fs g c p s x =
    rw (g, remove_from)
      (rw (c, remove_from) (rw (p, remove_from) (rw (s, remove_from) (rw (x, remove_from)))))

remove_from_kept :
    (rounds i : ℕ) (to_remove : List String) (fs : FileSetPayload) {name : String}
    → get_elem? fs.file_paths i ≡ some name
    → contains to_remove name ≡ false
    → remove_from (suc rounds) i to_remove fs ≡ remove_from rounds (suc i) to_remove fs
unfolding remove_from
remove_from_kept rounds i to_remove fs g c = rw (g, remove_from) (rw (c, remove_from))

module _ (schemas : List PowdrrSchema) (to_remove : List String) where
  -- the loop at `i`, with the files before `i` looked at
  remove_from_lem :
      (paths : List String) (sizes indexes : List ℕ) (paths' : List String)
      (sizes' indexes' : List ℕ) (i : ℕ)
      → i ≡ length paths'
      → i ≡ length sizes'
      → i ≡ length indexes'
      → length sizes ≡ length paths
      → length indexes ≡ length paths
      → remove_from
          (length paths)
          i
          to_remove
          (payload schemas (paths' ++ paths) (sizes' ++ sizes) (indexes' ++ indexes))
        ≡ some (
            payload schemas
              (paths' ++ retain (stays to_remove) paths)
              (sizes' ++ retain_parallel (stays to_remove) paths sizes)
              (indexes' ++ retain_parallel (stays to_remove) paths indexes))
  unfolding remove_from
  remove_from_lem [] [] [] ps zs xs i hp hz hx s t = refl
  remove_from_lem [] (z ∷ sizes) indexes ps zs xs i hp hz hx s t = absurd (omega arith)
  remove_from_lem [] [] (x ∷ indexes) ps zs xs i hp hz hx s t = absurd (omega arith)
  remove_from_lem (p ∷ paths) [] indexes ps zs xs i hp hz hx s t = absurd (omega arith)
  remove_from_lem (p ∷ paths) (z ∷ sizes) [] ps zs xs i hp hz hx s t = absurd (omega arith)
  remove_from_lem (p ∷ paths) (z ∷ sizes) (x ∷ indexes) ps zs xs i hp hz hx s t =
      elim (Bool-cases (contains to_remove p)) [
        | inl gone ↦
            remove_from_gone (length paths) i to_remove
              (payload schemas (ps ++ p ∷ paths) (zs ++ z ∷ sizes) (xs ++ x ∷ indexes))
              (get_elem?-at ps p paths i hp) gone (remove_at-append ps p paths i hp)
              (remove_at-append zs z sizes i hz) (remove_at-append xs x indexes i hx)
            ∙ (rw gone (
                remove_from_lem paths sizes indexes ps zs xs i hp hz hx (omega arith)
                  (omega arith)))
        | inr kept ↦
            remove_from_kept (length paths) i to_remove
              (payload schemas (ps ++ p ∷ paths) (zs ++ z ∷ sizes) (xs ++ x ∷ indexes))
              (get_elem?-at ps p paths i hp) kept
            ∙ rw
                (
                  kept,
                  snoc ps p paths,
                  snoc zs z sizes,
                  snoc xs x indexes,
                  snoc ps p (retain (stays to_remove) paths),
                  snoc zs z (retain_parallel (stays to_remove) paths sizes),
                  snoc xs x (retain_parallel (stays to_remove) paths indexes),
                )
                (remove_from_lem paths sizes indexes (ps ++ p ∷ []) (zs ++ z ∷ []) (xs ++ x ∷ [])
                  (suc i) (omega (arith, length-append ps (p ∷ [])))
                  (omega (arith, length-append zs (z ∷ [])))
                  (omega (arith, length-append xs (x ∷ []))) (omega arith) (omega arith))
      ]

unfoldable pub removed : FileSetPayload → List String → FileSetPayload
removed fs to_remove =
    payload fs.schemas (retain (stays to_remove) fs.file_paths)
      (retain_parallel (stays to_remove) fs.file_paths fs.sizes)
      (retain_parallel (stays to_remove) fs.file_paths fs.file_schemas)

-- On a valid set the loop does not panic, and its result is the set with the three vectors filtered.
pub remove_lem :
    (fs : FileSetPayload) (to_remove : List String)
    → IsValid fs
    → remove fs to_remove ≡ some (removed fs to_remove)
unfolding remove removed
remove_lem fs to_remove v =
    remove_from_lem fs.schemas to_remove fs.file_paths fs.sizes fs.file_schemas [] [] [] 0 refl refl
      refl v.sizes_parallel v.schemas_parallel

length-retain_parallel {ℓ} :
    {A : Type ℓ} (p : String → Bool) (paths : List String) (xs : List A)
    → length xs ≡ length paths
    → length (retain_parallel p paths xs) ≡ length (retain p paths)
length-retain_parallel p [] [] h = refl
length-retain_parallel p [] (x ∷ xs) h = absurd (omega arith)
length-retain_parallel p (q ∷ paths) [] h = absurd (omega arith)
length-retain_parallel p (q ∷ paths) (x ∷ xs) h = ground (arith, length-retain_parallel p paths xs)

all-retain_parallel :
    (n : ℕ) (p : String → Bool) (paths : List String) (xs : List ℕ)
    → all (λ i. ltb i n) xs ≡ true
    → all (λ i. ltb i n) (retain_parallel p paths xs) ≡ true
all-retain_parallel n p [] xs h = refl
all-retain_parallel n p (q ∷ paths) [] h = refl
all-retain_parallel n p (q ∷ paths) (x ∷ xs) h = ground (arith, all-retain_parallel n p paths xs)

pub removed-IsValid :
    (fs : FileSetPayload) (to_remove : List String) → IsValid fs → IsValid (removed fs to_remove)
unfolding removed
removed-IsValid fs to_remove v = record {
  sizes_parallel = length-retain_parallel (stays to_remove) fs.file_paths fs.sizes v.sizes_parallel;
  schemas_parallel =
      length-retain_parallel (stays to_remove) fs.file_paths fs.file_schemas v.schemas_parallel;
  indexes_in_range =
      all-retain_parallel (length fs.schemas) (stays to_remove) fs.file_paths fs.file_schemas
        v.indexes_in_range;
}

abbrev pub retain_tuples : (String → Bool) → List FileDescriptor → List FileDescriptor
retain_tuples p ds = retain (λ d. p d.file_path) ds

file_tuples-retain :
    (schemas : List PowdrrSchema) (p : String → Bool) (paths : List String) (sizes indexes : List ℕ)
    {ds : List FileDescriptor}
    → length sizes ≡ length paths
    → length indexes ≡ length paths
    → file_tuples schemas paths sizes indexes ≡ some ds
    → file_tuples schemas
        (retain p paths)
        (retain_parallel p paths sizes)
        (retain_parallel p paths indexes)
      ≡ some (retain_tuples p ds)
unfolding file_tuples
file_tuples-retain schemas p [] sizes indexes s t e = ground arith
file_tuples-retain schemas p (q ∷ paths) [] indexes s t e = absurd (omega arith)
file_tuples-retain schemas p (q ∷ paths) (z ∷ sizes) [] s t e = absurd (omega arith)
file_tuples-retain schemas p (q ∷ paths) (z ∷ sizes) (x ∷ indexes) s t e =
    elim (Option-cases (get_elem? schemas x)) [
      | inl n ↦ ground arith
      | inr (schema, g) ↦ elim (Option-cases (file_tuples schemas paths sizes indexes)) [
        | inl n ↦ ground arith
        | inr (rest, r) ↦
            ground (arith, file_tuples-retain schemas p paths sizes indexes {ds = rest})
      ]
    ]

-- Removing files from a valid set leaves exactly the descriptors of the other files, in their order.
pub as_file_tuples-remove :
    (fs : FileSetPayload) (to_remove : List String)
    → IsValid fs
    → (r : FileSetPayload) × (ds : List FileDescriptor) × (remove fs to_remove ≡ some r)
      × IsValid r
      × (as_file_tuples fs ≡ some ds)
      × (as_file_tuples r ≡ some (retain_tuples (stays to_remove) ds))
unfolding as_file_tuples removed
as_file_tuples-remove fs to_remove v =
    let (ds, e, _) = as_file_tuples_total fs v in
    (
      removed fs to_remove,
      ds,
      remove_lem fs to_remove v,
      removed-IsValid fs to_remove v,
      e,
      file_tuples-retain fs.schemas (stays to_remove) fs.file_paths fs.sizes fs.file_schemas
          v.sizes_parallel v.schemas_parallel e,
    )
