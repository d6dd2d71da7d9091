-- ===== src/Handle/Hashed.antt =====
-- Building a sketch from values, and from their hashes.
use singlestoredb_extension.Base.{
  ℕ, ◌≡◌, refl, sym, ap, ◌∙◌, List, Option, some, Outcome, ok, stop, ◌>>=◌, length,
}
use singlestoredb_extension.Table.{Table, make_table}
use singlestoredb_extension.UpdateSketch
use singlestoredb_extension.UpdateSketch.{
  default_builder, default_seed, update_by_hash, compute_hash,
}
use singlestoredb_extension.UpdateSketch.Hashes.{update-compute_hash}
use singlestoredb_extension.Handle.{
  Heap, Handle, no_handle, at, update_sketch, update_sketch_at, store, theta_sketch_update,
  theta_sketch_update_by_hash,
}
use singlestoredb_extension.Handle.Aggregate.{build_accum, build_accum_by_hash, state_of}
use singlestoredb_extension.Handle.Scalar.{hash}
use singlestoredb_extension.Handle.Build.{with, fresh, state_of-fresh, sketch-new}

module _ (murmur : List ℕ → ℕ → ℕ) (seed_hash_of : ℕ → ℕ) (malloc : ℕ → Option (List ℕ)) where
  -- A sketch is hashed with the seed that `hash` uses.
  abbrev pub HasDefaultSeed : Outcome Table → Type 0
  HasDefaultSeed (ok t) = t.seed ≡ default_seed
  HasDefaultSeed (stop s) = Unit

  hashed :
      (bytes : List ℕ) (read : Outcome Table) (rest : Table → Outcome Heap)
      → HasDefaultSeed read
      → (read >>= λ t. UpdateSketch.update murmur t bytes >>= rest)
        ≡ (read >>= λ t. update_by_hash t (hash murmur seed_hash_of malloc (some bytes)) >>= rest)
  unfolding hash compute_hash
  hashed bytes (ok t) rest same =
      ap (λ updated. updated >>= rest)
        (update-compute_hash murmur t bytes
          ∙ ap (λ seed. update_by_hash t (compute_hash murmur bytes seed)) same)
  hashed bytes (stop s) rest same = refl

  update-hash :
      (address : ℕ) (bytes : List ℕ) (heap : Heap)
      → HasDefaultSeed (update_sketch_at address heap)
      → theta_sketch_update murmur seed_hash_of malloc address bytes heap
        ≡ theta_sketch_update_by_hash murmur seed_hash_of malloc address
            (hash murmur seed_hash_of malloc (some bytes))
            heap
  unfolding theta_sketch_update theta_sketch_update_by_hash
  update-hash address bytes heap same =
      hashed bytes (update_sketch_at address heap) (λ t. store address (update_sketch t) heap) same

  fresh-seed :
      (heap : Heap)
      → HasDefaultSeed (
          update_sketch_at
            (length heap)
            (with murmur seed_hash_of malloc heap (fresh murmur seed_hash_of malloc)))
  unfolding UpdateSketch.build make_table
  fresh-seed heap =
      rw (sketch-new murmur seed_hash_of malloc heap (fresh murmur seed_hash_of malloc)) refl

  -- For no handle, or one at an update sketch with the default seed: `build_accum` with some bytes
  -- does the same as `build_accum_by_hash` with what `extension_sketch_hash` returns for them, on
  -- every outcome.
  pub build_accum-build_accum_by_hash :
      (handle : Handle) (bytes : List ℕ) (heap : Heap)
      → ((address : ℕ) → handle ≡ at address → HasDefaultSeed (update_sketch_at address heap))
      → build_accum murmur seed_hash_of malloc handle (some bytes) heap
        ≡ build_accum_by_hash murmur seed_hash_of malloc handle
            (hash murmur seed_hash_of malloc (some bytes))
            heap
  unfolding build_accum build_accum_by_hash state_of
  build_accum-build_accum_by_hash (at address) bytes heap same =
      ap (λ updated. updated >>= λ heap'. ok (at address, heap'))
        (update-hash address bytes heap (same address refl))
  build_accum-build_accum_by_hash no_handle bytes heap same =
      let made = state_of-fresh murmur seed_hash_of malloc heap in
      ap
        (λ state. state >>= λ s.
          theta_sketch_update murmur seed_hash_of malloc (s.0) bytes (s.1) >>= λ heap'.
          ok (at (s.0), heap'))
        made
      ∙ ap (λ updated. updated >>= λ heap'. ok (at (length heap), heap'))
          (update-hash (length heap) bytes
            (with murmur seed_hash_of malloc heap (fresh murmur seed_hash_of malloc))
            (fresh-seed heap))
      ∙ ap
          (λ state. state >>= λ s.
            theta_sketch_update_by_hash murmur seed_hash_of malloc (s.0)
              (hash murmur seed_hash_of malloc (some bytes)) (s.1)
            >>= λ heap'. ok (at (s.0), heap'))
          (sym made)
