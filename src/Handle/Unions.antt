-- ===== src/Handle/Unions.antt =====
-- `extension_sketch_union` on serialized sketches.
use singlestoredb_extension.Base.{
  ℕ, ◌^◌, ◌≤◌, ◌≡◌, refl, sym, ap, ◌∙◌, true, List, [], ◌∷◌, ◌++◌, Option, none, some, ok, ◌>>◌,
  Returns, arith, length, le→ltb,
}
use singlestoredb_extension.UpdateSketch.{default_builder, default_seed, default_lg_k}
use singlestoredb_extension.UpdateSketch.Build.{IsBuilder}
use singlestoredb_extension.Sketch.{CompactSketch, of_compact}
use singlestoredb_extension.Sketch.Sample.{HashSet, IsCompactOf}
use singlestoredb_extension.Sketch.Compact.{of_compact-IsSketchOf}
use singlestoredb_extension.Union.{Union}
use singlestoredb_extension.Union.Merge.{union_set}
use singlestoredb_extension.Union.Update.{IsUnionOf, update-IsUnionOf}
use singlestoredb_extension.Union.Result.{get_result-IsResultOf}
use singlestoredb_extension.Union.Start.{build-IsUnionOf}
use singlestoredb_extension.Union.Streams.{IsCompactOf-congr}
use singlestoredb_extension.Serial.{written}
use singlestoredb_extension.Serial.RoundTrip.{IsSerial, written_long, wrap-written}
use singlestoredb_extension.Handle.{
  Heap, theta_union_update_with_bytes, theta_union_new_default, mutable_sketch, theta_union,
}
use singlestoredb_extension.Handle.Scalar.{union, union_argument, check_length}
use singlestoredb_extension.Handle.Memory.{
  object, output_size, union_update-new, union_get_result-new, serialize-second, delete-second,
}

pub default_builder-IsBuilder : IsBuilder default_builder
default_builder-IsBuilder = record { least = omega arith; most = omega arith; factor = omega arith }

pub check_length-long : (bytes : List ℕ) → 8 ≤ length bytes → check_length bytes ≡ ok tt
unfolding check_length
check_length-long bytes long = rw (le→ltb (length bytes) 8 long)

module _ (murmur : List ℕ → ℕ → ℕ) (seed_hash_of : ℕ → ℕ) (malloc : ℕ → Option (List ℕ))
    (heap : Heap) where
  -- A serialized sketch is long enough, and is put into the union.
  argument-union :
      {X Y : HashSet} {u : Union} (c : CompactSketch) (memory : List ℕ)
      → IsUnionOf default_builder X u
      → IsCompactOf Y c
      → IsSerial (seed_hash_of default_seed) c
      → (u' : Union) × IsUnionOf default_builder (union_set X Y) u'
        × (union_argument murmur seed_hash_of malloc
              (length heap)
              (some (written c memory))
              (heap ++ object mutable_sketch (theta_union u) ∷ [])
            ≡ ok (heap ++ object mutable_sketch (theta_union u') ∷ []))
  unfolding union_argument of_compact
  argument-union {u = u} c memory of is serial =
      let (u', run, of') =
        update-IsUnionOf of (of_compact-IsSketchOf is) seed_hash_of
          (λ _. serial.seed ∙ sym (ap seed_hash_of of.settings.seed)) in
      (
        u',
        of',
        ap
              (λ checked.
                checked
                >> theta_union_update_with_bytes murmur seed_hash_of malloc (length heap)
                    (written c memory) (heap ++ object mutable_sketch (theta_union u) ∷ []))
              (check_length-long (written c memory) (written_long c memory))
            ∙ union_update-new murmur seed_hash_of malloc heap mutable_sketch u u' (of_compact c)
                (written c memory)
                (wrap-written (seed_hash_of default_seed) c memory serial is.no_zero) run,
      )

  -- Where memory can be had, `extension_sketch_union` of two serialized compact sketches that
  -- sample `X` and `Y` and carry the default seed hash returns: its output is a serialized compact
  -- sketch that samples `X` and `Y` together with at most `2 ^ 12` entries, and the two objects
  -- that it made on the heap are both deleted, while the heap is otherwise as before.
  pub union-IsResultOf :
      {X Y : HashSet} (c d : CompactSketch) (m₁ m₂ : List ℕ)
      → ((size : ℕ) → (memory : List ℕ) × (malloc size ≡ some memory))
      → IsCompactOf X c
      → IsSerial (seed_hash_of default_seed) c
      → IsCompactOf Y d
      → IsSerial (seed_hash_of default_seed) d
      → Returns
          (union murmur seed_hash_of malloc (some (written c m₁)) (some (written d m₂)) heap)
          (λ r.
            (result : CompactSketch) × (memory : List ℕ) × (r.0 ≡ written result memory)
            × (r.1 ≡ heap ++ none ∷ none ∷ [])
            × IsCompactOf (union_set X Y) result
            × (length result.entries ≤ 2 ^ default_lg_k))
  unfolding union theta_union_new_default
  union-IsResultOf {X = X} {Y = Y} c d m₁ m₂ gives is_c serial_c is_d serial_d =
      let u₀ = build-IsUnionOf default_builder default_builder-IsBuilder (omega arith) in
      let (u₁, of₁, run₁) = argument-union c m₁ u₀ is_c serial_c in
      let (u₂, of₂, run₂) = argument-union d m₂ of₁ is_d serial_d in
      let (result, run₃, of) = get_result-IsResultOf seed_hash_of of₂ true in
      let (memory, given) = gives (output_size result) in
      let o = object mutable_sketch (theta_union u₂) in
      (
        (written result memory, heap ++ none ∷ none ∷ []),
        rw (
          run₁,
          run₂,
          union_get_result-new murmur seed_hash_of malloc heap mutable_sketch u₂ result run₃,
          serialize-second murmur seed_hash_of malloc heap none mutable_sketch result memory given,
          delete-second murmur seed_hash_of malloc heap none mutable_sketch result,
        ),
        (
          result,
          memory,
          refl,
          refl,
          IsCompactOf-congr (λ k. refl) of.compact,
          omega (arith, of.nominal, ap (λ (lg : ℕ). 2 ^ lg) of₂.settings.nominal),
        ),
      )
