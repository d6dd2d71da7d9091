-- ===== src/Handle/Differences.antt =====
-- `extension_sketch_a_not_b` on serialized sketches.
use singlestoredb_extension.Base.{
  ℕ, ◌≤◌, ◌≡◌, refl, true, List, [], ◌∷◌, ◌++◌, Option, none, some, ok, Returns, length,
}
use singlestoredb_extension.LgSize.{most_entries}
use singlestoredb_extension.UpdateSketch.{default_seed}
use singlestoredb_extension.Sketch.{CompactSketch, of_compact}
use singlestoredb_extension.Sketch.Sample.{HashSet, IsCompactOf}
use singlestoredb_extension.Sketch.Compact.{of_compact-IsSketchOf}
use singlestoredb_extension.SetDifference.Compute.{minus_set, compute-IsCompactOf}
use singlestoredb_extension.Serial.{written}
use singlestoredb_extension.Serial.RoundTrip.{IsSerial, written_long, wrap-written}
use singlestoredb_extension.Handle.{Heap, mutable_sketch, compact_sketch, theta_anotb}
use singlestoredb_extension.Handle.Scalar.{a_not_b, check_length}
use singlestoredb_extension.Handle.Unions.{check_length-long}
use singlestoredb_extension.Handle.Memory.{object, output_size, serialize-new, delete-new}

module _ (murmur : List ℕ → ℕ → ℕ) (seed_hash_of : ℕ → ℕ) (malloc : ℕ → Option (List ℕ))
    (heap : Heap) where
  -- The new sketch at the end of the heap.
  anotb-written :
      {X Y : HashSet} (c d : CompactSketch) (m₁ m₂ : List ℕ)
      → IsCompactOf X c
      → IsSerial (seed_hash_of default_seed) c
      → IsCompactOf Y d
      → IsSerial (seed_hash_of default_seed) d
      → length d.entries ≤ most_entries
      → (result : CompactSketch) × IsCompactOf (minus_set X Y) result
        × (theta_anotb murmur seed_hash_of malloc (written c m₁) (written d m₂) heap
            ≡ ok (length heap, heap ++ object mutable_sketch (compact_sketch result) ∷ []))
  unfolding theta_anotb of_compact
  anotb-written c d m₁ m₂ is_c serial_c is_d serial_d few =
      let sh = seed_hash_of default_seed in
      let (result, run, is) =
        compute-IsCompactOf sh true (of_compact-IsSketchOf is_c) (of_compact-IsSketchOf is_d)
          serial_c.seed serial_d.seed few in
      (
        result,
        is,
        rw (
          wrap-written sh c m₁ serial_c is_c.no_zero,
          wrap-written sh d m₂ serial_d is_d.no_zero,
          run,
        ),
      )

  finish :
      (left right : List ℕ) (result : CompactSketch) (memory : List ℕ)
      → check_length left ≡ ok tt
      → check_length right ≡ ok tt
      → theta_anotb murmur seed_hash_of malloc left right heap
        ≡ ok (length heap, heap ++ object mutable_sketch (compact_sketch result) ∷ [])
      → malloc (output_size result) ≡ some memory
      → a_not_b murmur seed_hash_of malloc (some left) (some right) heap
        ≡ ok (written result memory, heap ++ none ∷ [])
  unfolding a_not_b
  finish left right result memory long_left long_right run given = rw (
    long_left,
    long_right,
    run,
    serialize-new murmur seed_hash_of malloc heap mutable_sketch result memory given,
    delete-new murmur seed_hash_of malloc heap mutable_sketch result,
  )

  -- Where memory can be had, `extension_sketch_a_not_b` of two serialized compact sketches that
  -- sample `X` and `Y` and carry the default seed hash, the second with at most 125829120 entries,
  -- returns: its output is a serialized compact sketch that samples the members of `X` that are not
  -- in `Y`, and the object that it made on the heap is deleted, while the heap is otherwise as
  -- before.
  pub a_not_b-IsCompactOf :
      {X Y : HashSet} (c d : CompactSketch) (m₁ m₂ : List ℕ)
      → ((size : ℕ) → (memory : List ℕ) × (malloc size ≡ some memory))
      → IsCompactOf X c
      → IsSerial (seed_hash_of default_seed) c
      → IsCompactOf Y d
      → IsSerial (seed_hash_of default_seed) d
      → length d.entries ≤ most_entries
      → Returns
          (a_not_b murmur seed_hash_of malloc (some (written c m₁)) (some (written d m₂)) heap)
          (λ r.
            (result : CompactSketch) × (memory : List ℕ) × (r.0 ≡ written result memory)
            × (r.1 ≡ heap ++ none ∷ [])
            × IsCompactOf (minus_set X Y) result)
  a_not_b-IsCompactOf c d m₁ m₂ gives is_c serial_c is_d serial_d few =
      let (result, is, run) = anotb-written c d m₁ m₂ is_c serial_c is_d serial_d few in
      let (memory, given) = gives (output_size result) in
      (
        (written result memory, heap ++ none ∷ []),
        finish (written c m₁) (written d m₂) result memory
            (check_length-long (written c m₁) (written_long c m₁))
            (check_length-long (written d m₂) (written_long d m₂)) run given,
        (result, memory, refl, refl, is),
      )
