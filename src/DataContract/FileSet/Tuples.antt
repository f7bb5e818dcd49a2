-- ===== src/DataContract/FileSet/Tuples.antt =====
-- The split of a file set among `num` nodes by the hash of the path.
use powdrr_engine.Common.{
  ℕ, ◌<◌, ◌%◌, String, ◌≡◌, refl, some, List, [], ◌∷◌, arith, ◌==◌, nat_eq, retain,
}
use powdrr_engine.DataContract.FileSet.{
  FileSetPayload, FileDescriptor, as_file_tuples, select_tuples, selected_file, as_selected_tuples,
}
use powdrr_engine.DataContract.FileSet.Valid.{IsValid, as_file_tuples_total}

module _ (hash : String → ℕ) where
  -- the node that a file goes to
  abbrev pub shard : ℕ → FileDescriptor → ℕ
  shard num d = hash d.file_path % num

  select_tuples_lem :
      (index num : ℕ) (ds : List FileDescriptor)
      → 0 < num
      → select_tuples hash index num ds ≡ some (retain (λ d. shard num d == index) ds)
  unfolding select_tuples selected_file
  select_tuples_lem index num [] h = refl
  select_tuples_lem index num (d ∷ ds) h = ground (arith, select_tuples_lem index num ds h)

  -- For `num` nodes, node `index` gets the files whose shard it is, and each file has one shard below
  -- `num`: so every file goes to exactly one node.
  pub as_selected_tuples_lem :
      (fs : FileSetPayload) (num : ℕ)
      → IsValid fs
      → 0 < num
      → (ds : List FileDescriptor) × (as_file_tuples fs ≡ some ds)
        × ((index : ℕ)
            → as_selected_tuples hash fs index num ≡ some (retain (λ d. shard num d == index) ds))
        × ((d : FileDescriptor) → shard num d < num)
  unfolding as_selected_tuples
  as_selected_tuples_lem fs num v h =
      let (ds, e, _) = as_file_tuples_total fs v in
      (ds, e, λ index. rw e (select_tuples_lem index num ds h), λ d. omega arith)
