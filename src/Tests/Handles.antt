-- ===== src/Tests/Handles.antt =====
-- The functions of the extension on small sketches.
use singlestoredb_extension.Base.{
  ok, ℕ, ◌+◌, ◌*◌, ◌^◌, ◌≤◌, ◌≡◌, ◌⊎◌, refl, List, [], ◌∷◌, Option, none, some, Returns, arith,
  replicate, length,
}
use singlestoredb_extension.UpdateSketch.{default_seed, default_lg_k}
use singlestoredb_extension.Sketch.{CompactSketch}
use singlestoredb_extension.Sketch.Sample.{set_of, IsCompactOf}
use singlestoredb_extension.Union.Merge.{union_set}
use singlestoredb_extension.Intersection.Load.{both_sets}
use singlestoredb_extension.SetDifference.Compute.{minus_set}
use singlestoredb_extension.Serial.{written, deserialize}
use singlestoredb_extension.Serial.RoundTrip.{IsSerial}
use singlestoredb_extension.Table.{max_theta}
use singlestoredb_extension.Handle.{no_handle}
use singlestoredb_extension.Handle.Aggregate.{build_accum, build_accum_by_hash}
use singlestoredb_extension.Handle.Scalar.{union, intersection, a_not_b, hash}
use singlestoredb_extension.Handle.Unions.{union-IsResultOf}
use singlestoredb_extension.Handle.Intersections.{intersection-IsCompactOf}
use singlestoredb_extension.Handle.Differences.{a_not_b-IsCompactOf}
use singlestoredb_extension.Handle.Build.{build_agg_by_hash, build_agg_by_hash-IsCompactOf}
use singlestoredb_extension.Handle.Pipeline.{union_of_aggs, union_of_aggs-IsCompactOf}
use singlestoredb_extension.Handle.Hashed.{build_accum-build_accum_by_hash}
use singlestoredb_extension.Tests.{seed_code}
use singlestoredb_extension.Tests.Sketches.{few, few-IsCompactOf}

-- The sum of the bytes and the seed in place of the hash.
abbrev murmur : List ℕ → ℕ → ℕ
murmur [] seed = seed
murmur (byte ∷ bytes) seed = 1000003 * byte + murmur bytes seed

abbrev malloc : ℕ → Option (List ℕ)
malloc size = some (replicate size 171)

gives : (size : ℕ) → (memory : List ℕ) × (malloc size ≡ some memory)
gives size = (replicate size 171, refl)

few-IsSerial : IsSerial (seed_code default_seed) few
few-IsSerial = record {
  seed = refl;
  seed_small = omega arith;
  theta_small = omega arith;
  words = (omega arith, (omega arith, tt));
  few = omega arith;
  short_ordered = λ short. absurd (omega (arith, short));
  bare = λ empty. cc;
}

union-IsResultOf_example :
    Returns (union murmur seed_code malloc (some (written few [])) (some (written few [])) []) (λ r.
      (result : CompactSketch) × (memory : List ℕ) × (r.0 ≡ written result memory)
      × (r.1 ≡ none ∷ none ∷ [])
      × IsCompactOf (union_set (set_of (37 ∷ 5 ∷ 40 ∷ [])) (set_of (37 ∷ 5 ∷ 40 ∷ []))) result
      × (length result.entries ≤ 2 ^ default_lg_k))
union-IsResultOf_example =
    union-IsResultOf murmur seed_code malloc [] few few [] [] gives few-IsCompactOf few-IsSerial
      few-IsCompactOf few-IsSerial

intersection-IsCompactOf_example :
    Returns
      (intersection murmur seed_code malloc (some (written few [])) (some (written few [])) [])
      (λ r.
        (result : CompactSketch) × (memory : List ℕ) × (r.0 ≡ written result memory)
        × (r.1 ≡ none ∷ none ∷ [])
        × IsCompactOf (both_sets (set_of (37 ∷ 5 ∷ 40 ∷ [])) (set_of (37 ∷ 5 ∷ 40 ∷ []))) result)
intersection-IsCompactOf_example =
    intersection-IsCompactOf murmur seed_code malloc [] few few [] [] gives few-IsCompactOf
      few-IsSerial (omega arith) few-IsCompactOf few-IsSerial (omega arith)

a_not_b-IsCompactOf_example :
    Returns
      (a_not_b murmur seed_code malloc (some (written few [])) (some (written few [])) [])
      (λ r.
        (result : CompactSketch) × (memory : List ℕ) × (r.0 ≡ written result memory)
        × (r.1 ≡ none ∷ [])
        × IsCompactOf (minus_set (set_of (37 ∷ 5 ∷ 40 ∷ [])) (set_of (37 ∷ 5 ∷ 40 ∷ []))) result)
a_not_b-IsCompactOf_example =
    a_not_b-IsCompactOf murmur seed_code malloc [] few few [] [] gives few-IsCompactOf few-IsSerial
      few-IsCompactOf few-IsSerial (omega arith)

build_agg_by_hash-IsCompactOf_example :
    Returns (build_agg_by_hash murmur seed_code malloc (5 ∷ 37 ∷ 5 ∷ []) []) (λ r.
      (c : CompactSketch) × (deserialize (seed_code default_seed) r.0 ≡ ok c)
      × (r.1 ≡ none ∷ none ∷ [])
      × IsCompactOf (set_of (5 ∷ 37 ∷ 5 ∷ [])) c
      × ((c.theta ≡ max_theta) ⊎ (2 ^ default_lg_k ≤ length c.entries)))
build_agg_by_hash-IsCompactOf_example =
    build_agg_by_hash-IsCompactOf murmur seed_code malloc 5 (37 ∷ 5 ∷ []) [] gives (omega arith)

union_of_aggs-IsCompactOf_example :
    Returns (union_of_aggs murmur seed_code malloc (5 ∷ 37 ∷ []) (37 ∷ 6 ∷ []) []) (λ r.
      (result : CompactSketch) × (memory : List ℕ) × (r.0 ≡ written result memory)
      × IsCompactOf (union_set (set_of (5 ∷ 37 ∷ [])) (set_of (37 ∷ 6 ∷ []))) result
      × (length result.entries ≤ 2 ^ default_lg_k))
union_of_aggs-IsCompactOf_example =
    union_of_aggs-IsCompactOf murmur seed_code malloc 5 37 (37 ∷ []) (6 ∷ []) [] gives (omega arith)

build_accum-build_accum_by_hash_example :
    build_accum murmur seed_code malloc no_handle (some (104 ∷ 105 ∷ [])) []
    ≡ build_accum_by_hash murmur seed_code malloc no_handle
        (hash murmur seed_code malloc (some (104 ∷ 105 ∷ [])))
        []
build_accum-build_accum_by_hash_example =
    build_accum-build_accum_by_hash murmur seed_code malloc no_handle (104 ∷ 105 ∷ []) []
      (λ address e. cc)
