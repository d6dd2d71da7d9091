-- ===== src/Handle/Pipeline.antt =====
-- Two aggregates, and the union of what they put out.
use singlestoredb_extension.Base.{
  ℕ, ◌<◌, ◌≤◌, ◌^◌, ◌≡◌, List, [], ◌∷◌, ◌++◌, Option, none, some, Outcome, ◌>>=◌, Returns, length,
}
use singlestoredb_extension.UpdateSketch.{default_seed, default_lg_k}
use singlestoredb_extension.Sketch.{CompactSketch}
use singlestoredb_extension.Sketch.Sample.{set_of, IsCompactOf}
use singlestoredb_extension.Union.Merge.{union_set}
use singlestoredb_extension.Serial.{written}
use singlestoredb_extension.Handle.{Heap}
use singlestoredb_extension.Handle.Scalar.{union}
use singlestoredb_extension.Handle.Unions.{union-IsResultOf}
use singlestoredb_extension.Handle.Build.{build_agg_by_hash, build_agg_by_hash-run}

module _ (murmur : List ℕ → ℕ → ℕ) (seed_hash_of : ℕ → ℕ) (malloc : ℕ → Option (List ℕ)) where
  -- The union of the sketches of two columns.
  unfoldable pub union_of_aggs : (xs ys : List ℕ) → Heap → Outcome (List ℕ × Heap)
  unfolding build_agg_by_hash union
  union_of_aggs xs ys heap = do
    left ← build_agg_by_hash murmur seed_hash_of malloc xs heap
    right ← build_agg_by_hash murmur seed_hash_of malloc ys (left.1)
    union murmur seed_hash_of malloc (some (left.0)) (some (right.0)) (right.1)

  -- Where memory can be had and the default seed hash has 16 bits: two aggregates over streams of
  -- at least one hash each, and `extension_sketch_union` of their outputs, return. The output is a
  -- serialized compact sketch that samples the hashes of both streams, with at most `2 ^ 12`
  -- entries.
  pub union_of_aggs-IsCompactOf :
      (x y : ℕ) (xs ys : List ℕ) (heap : Heap)
      → ((size : ℕ) → (memory : List ℕ) × (malloc size ≡ some memory))
      → seed_hash_of default_seed < 2 ^ 16
      → Returns (union_of_aggs (x ∷ xs) (y ∷ ys) heap) (λ r.
        (result : CompactSketch) × (memory : List ℕ) × (r.0 ≡ written result memory)
        × IsCompactOf (union_set (set_of (x ∷ xs)) (set_of (y ∷ ys))) result
        × (length result.entries ≤ 2 ^ default_lg_k))
  unfolding union_of_aggs
  union_of_aggs-IsCompactOf x y xs ys heap gives small =
      let (c, m₁, run₁, is_c, serial_c, full_c) =
        build_agg_by_hash-run murmur seed_hash_of malloc x xs heap gives small in
      let heap₁ = heap ++ none ∷ none ∷ [] in
      let (d, m₂, run₂, is_d, serial_d, full_d) =
        build_agg_by_hash-run murmur seed_hash_of malloc y ys heap₁ gives small in
      let (r, run₃, (result, memory, bytes, freed, is, nominal)) =
        union-IsResultOf murmur seed_hash_of malloc (heap₁ ++ none ∷ none ∷ []) c d m₁ m₂ gives is_c
          serial_c is_d serial_d in
      (r, rw (run₁, run₂) run₃, (result, memory, bytes, is, nominal))
