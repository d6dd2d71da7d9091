-- ===== src/Handle/Intersections.antt =====
-- `extension_sketch_intersection` on serialized sketches.
use singlestoredb_extension.Base.{
  ℕ, suc, ◌≤◌, ◌≡◌, refl, sym, ap, ◌∙◌, true, List, [], ◌∷◌, ◌++◌, Option, none, some, ok, ◌>>◌,
  Returns, length, inl, inr,
}
use singlestoredb_extension.LgSize.{most_entries}
use singlestoredb_extension.UpdateSketch.{default_seed}
use singlestoredb_extension.Sketch.{Sketch, CompactSketch, of_compact}
use singlestoredb_extension.Sketch.Sample.{HashSet, IsCompactOf}
use singlestoredb_extension.Sketch.Compact.{of_compact-IsSketchOf}
use singlestoredb_extension.Intersection
use singlestoredb_extension.Intersection.{Intersection}
use singlestoredb_extension.Intersection.Load.{both_sets}
use singlestoredb_extension.Intersection.Steps.{IsIntersectionOf, IsValidOf, make-IsIntersectionOf}
use singlestoredb_extension.Intersection.Update.{update-IsIntersectionOf}
use singlestoredb_extension.Intersection.Result.{get_result-IsCompactOf}
use singlestoredb_extension.Union.Streams.{IsCompactOf-congr}
use singlestoredb_extension.Serial.{written, wrap}
use singlestoredb_extension.Serial.RoundTrip.{IsSerial, written_long, wrap-written}
use singlestoredb_extension.Handle.{
  Heap, mutable_sketch, compact_sketch, theta_intersection, theta_intersection_new_default,
  intersection_at, store, theta_intersection_delete, theta_intersection_update_with_bytes,
  theta_intersection_get_result,
}
use singlestoredb_extension.Handle.Scalar.{intersection, intersection_argument}
use singlestoredb_extension.Handle.Unions.{check_length-long}
use singlestoredb_extension.Handle.Memory.{
  object, output_size, object_at-new, set-new, length-second, append-second, serialize-second,
  delete-second,
}

module _ (murmur : List ℕ → ℕ → ℕ) (seed_hash_of : ℕ → ℕ) (malloc : ℕ → Option (List ℕ))
    (heap : Heap) where
  abbrev with : Intersection → Heap
  with i = heap ++ object mutable_sketch (theta_intersection i) ∷ []

  intersection_update-new :
      (i i' : Intersection) (s : Sketch) (bytes : List ℕ)
      → wrap (seed_hash_of default_seed) bytes ≡ ok s
      → Intersection.update seed_hash_of i s ≡ ok i'
      → theta_intersection_update_with_bytes murmur seed_hash_of malloc (length heap) bytes (with i)
        ≡ ok (with i')
  unfolding theta_intersection_update_with_bytes intersection_at store
  intersection_update-new i i' s bytes wrapped updated = rw (
    object_at-new heap [] mutable_sketch (theta_intersection i),
    wrapped,
    updated,
    set-new heap [] (object mutable_sketch (theta_intersection i))
        (object mutable_sketch (theta_intersection i')),
  )

  intersection_get_result-new :
      (i : Intersection) (c : CompactSketch)
      → Intersection.get_result seed_hash_of i true ≡ ok c
      → theta_intersection_get_result murmur seed_hash_of malloc (length heap) (with i)
        ≡ ok (suc (length heap), heap ++ none ∷ object mutable_sketch (compact_sketch c) ∷ [])
  unfolding theta_intersection_get_result theta_intersection_delete intersection_at
  intersection_get_result-new i c result =
      let o = object mutable_sketch (theta_intersection i) in
      let rest = object mutable_sketch (compact_sketch c) ∷ [] in
      rw (
        object_at-new heap [] mutable_sketch (theta_intersection i),
        result,
        length-second heap o,
        append-second heap rest o,
        object_at-new heap rest mutable_sketch (theta_intersection i),
        set-new heap rest o none,
      )

  -- A serialized sketch is long enough, and is put into the intersection.
  argument-intersection :
      {X Y : HashSet} {i : Intersection} (c : CompactSketch) (memory : List ℕ)
      → IsIntersectionOf default_seed X i
      → IsCompactOf Y c
      → IsSerial (seed_hash_of default_seed) c
      → length c.entries ≤ most_entries
      → (i' : Intersection) × IsValidOf default_seed (both_sets X Y) i'
        × (intersection_argument murmur seed_hash_of malloc
              (length heap)
              (some (written c memory))
              (with i)
            ≡ ok (with i'))
  unfolding intersection_argument of_compact
  argument-intersection {i = i} c memory of is serial few =
      let (i', run, of') =
        update-IsIntersectionOf of (of_compact-IsSketchOf is) seed_hash_of few
          (λ _. serial.seed ∙ sym (ap seed_hash_of of.seed_same)) in
      (
        i',
        of',
        ap
              (λ checked.
                checked
                >> theta_intersection_update_with_bytes murmur seed_hash_of malloc (length heap)
                    (written c memory) (with i))
              (check_length-long (written c memory) (written_long c memory))
            ∙ intersection_update-new i i' (of_compact c) (written c memory)
                (wrap-written (seed_hash_of default_seed) c memory serial is.no_zero) run,
      )

  -- Where memory can be had, `extension_sketch_intersection` of two serialized compact sketches
  -- that sample `X` and `Y`, carry the default seed hash and have at most 125829120 entries
  -- returns: its output is a serialized compact sketch that samples the members of both, and the
  -- two objects that it made on the heap are both deleted, while the heap is otherwise as before.
  pub intersection-IsCompactOf :
      {X Y : HashSet} (c d : CompactSketch) (m₁ m₂ : List ℕ)
      → ((size : ℕ) → (memory : List ℕ) × (malloc size ≡ some memory))
      → IsCompactOf X c
      → IsSerial (seed_hash_of default_seed) c
      → length c.entries ≤ most_entries
      → IsCompactOf Y d
      → IsSerial (seed_hash_of default_seed) d
      → length d.entries ≤ most_entries
      → Returns
          (intersection murmur seed_hash_of malloc (some (written c m₁)) (some (written d m₂)) heap)
          (λ r.
            (result : CompactSketch) × (memory : List ℕ) × (r.0 ≡ written result memory)
            × (r.1 ≡ heap ++ none ∷ none ∷ [])
            × IsCompactOf (both_sets X Y) result)
  unfolding intersection theta_intersection_new_default
  intersection-IsCompactOf c d m₁ m₂ gives is_c serial_c few_c is_d serial_d few_d =
      let i₀ = make-IsIntersectionOf default_seed in
      let (i₁, of₁, run₁) = argument-intersection c m₁ i₀ is_c serial_c few_c in
      let (i₂, of₂, run₂) = argument-intersection d m₂ of₁.0 is_d serial_d few_d in
      elim (get_result-IsCompactOf seed_hash_of true of₂.0) [
        | inl refused ↦ (let valid = of₂.1 in let invalid = refused.0 in cc)
        | inr returned ↦
            let (result, run₃, is) = returned.1 in
            let (memory, given) = gives (output_size result) in
            (
              (written result memory, heap ++ none ∷ none ∷ []),
              rw (
                run₁,
                run₂,
                intersection_get_result-new i₂ result run₃,
                serialize-second murmur seed_hash_of malloc heap none mutable_sketch result memory
                    given,
                delete-second murmur seed_hash_of malloc heap none mutable_sketch result,
              ),
              (result, memory, refl, refl, IsCompactOf-congr (λ k. refl) is),
            )
      ]
