-- ===== src/Handle/Scalar.antt =====
-- The functions over serialized sketches of extension_impl_handle.cpp; their names are without the
-- prefix `extension_sketch_`. An argument is the list that a pointer points to, and nothing for a
-- null pointer. A call takes the heap and returns the new one.
use singlestoredb_extension.Base.{
  ℕ, ◌/◌, List, Option, none, some, Outcome, ok, stop, undefined, aborted, ◌>>=◌, ◌>>◌, ltb,
  if◌then◌else◌, length,
}
use singlestoredb_extension.UpdateSketch.{default_seed}
use singlestoredb_extension.Sketch.{CompactSketch}
use singlestoredb_extension.Handle.{
  Heap, compact_sketch_at, theta_sketch_delete, theta_union_new_default,
  theta_intersection_new_default, theta_union_get_result, theta_intersection_get_result,
  theta_union_update_with_bytes, theta_intersection_update_with_bytes, theta_sketch_serialize,
  theta_sketch_deserialize, theta_anotb,
}
use singlestoredb_extension.Handle.Aggregate.{empty_is_null}

-- `BAIL_IF(list->len < 8, ...)`.
unfoldable pub check_length : List ℕ → Outcome (Unit {0})
check_length bytes = if ltb (length bytes) 8 then stop aborted else ok tt

module _ (murmur : List ℕ → ℕ → ℕ) (seed_hash_of : ℕ → ℕ) (malloc : ℕ → Option (List ℕ)) where
  -- One argument of `union`.
  unfoldable pub union_argument : (unionptr : ℕ) → Option (List ℕ) → Heap → Outcome Heap
  unfolding check_length theta_union_update_with_bytes
  union_argument unionptr none heap = ok heap
  union_argument unionptr (some bytes) heap =
      check_length bytes
      >> theta_union_update_with_bytes murmur seed_hash_of malloc unionptr bytes heap

  unfoldable pub union : (left right : Option (List ℕ)) → Heap → Outcome (List ℕ × Heap)
  unfolding theta_union_new_default union_argument theta_union_get_result theta_sketch_serialize
      theta_sketch_delete
  union left right heap = do
    let unionptr = theta_union_new_default heap
    heap₁ ← union_argument (unionptr.0) left (unionptr.1)
    heap₂ ← union_argument (unionptr.0) right heap₁
    sketchptr ← theta_union_get_result murmur seed_hash_of malloc (unionptr.0) heap₂
    output ← theta_sketch_serialize murmur seed_hash_of malloc (sketchptr.0) (sketchptr.1)
    heap₃ ← theta_sketch_delete (sketchptr.0) (sketchptr.1)
    ok (output, heap₃)

  unfoldable pub union_emptyisnull : (left right : Option (List ℕ)) → Heap → Outcome (List ℕ × Heap)
  unfolding empty_is_null union
  union_emptyisnull left right heap = do
    left' ← empty_is_null left
    right' ← empty_is_null right
    union left' right' heap

  -- One argument of `intersection`.
  unfoldable pub intersection_argument : (interptr : ℕ) → Option (List ℕ) → Heap → Outcome Heap
  unfolding check_length theta_intersection_update_with_bytes
  intersection_argument interptr none heap = ok heap
  intersection_argument interptr (some bytes) heap =
      check_length bytes
      >> theta_intersection_update_with_bytes murmur seed_hash_of malloc interptr bytes heap

  unfoldable pub intersection : (left right : Option (List ℕ)) → Heap → Outcome (List ℕ × Heap)
  unfolding theta_intersection_new_default intersection_argument theta_intersection_get_result
      theta_sketch_serialize theta_sketch_delete
  intersection left right heap = do
    let interptr = theta_intersection_new_default heap
    heap₁ ← intersection_argument (interptr.0) left (interptr.1)
    heap₂ ← intersection_argument (interptr.0) right heap₁
    sketchptr ← theta_intersection_get_result murmur seed_hash_of malloc (interptr.0) heap₂
    output ← theta_sketch_serialize murmur seed_hash_of malloc (sketchptr.0) (sketchptr.1)
    heap₃ ← theta_sketch_delete (sketchptr.0) (sketchptr.1)
    ok (output, heap₃)

  unfoldable pub intersection_emptyisnull :
      (left right : Option (List ℕ)) → Heap → Outcome (List ℕ × Heap)
  unfolding empty_is_null intersection
  intersection_emptyisnull left right heap = do
    left' ← empty_is_null left
    right' ← empty_is_null right
    intersection left' right' heap

  unfoldable pub a_not_b : (left right : Option (List ℕ)) → Heap → Outcome (List ℕ × Heap)
  unfolding check_length theta_anotb theta_sketch_serialize theta_sketch_delete
  a_not_b none right heap = stop aborted
  a_not_b (some left) none heap = stop aborted
  a_not_b (some left) (some right) heap = do
    check_length left
    check_length right
    sketchptr ← theta_anotb murmur seed_hash_of malloc left right heap
    output ← theta_sketch_serialize murmur seed_hash_of malloc (sketchptr.0) (sketchptr.1)
    heap' ← theta_sketch_delete (sketchptr.0) (sketchptr.1)
    ok (output, heap')

  unfoldable pub a_not_b_emptyisnull :
      (left right : Option (List ℕ)) → Heap → Outcome (List ℕ × Heap)
  unfolding empty_is_null a_not_b
  a_not_b_emptyisnull left right heap = do
    left' ← empty_is_null left
    right' ← empty_is_null right
    a_not_b left' right' heap

  unfoldable pub hash : Option (List ℕ) → ℕ
  hash none = 0
  hash (some bytes) = murmur bytes default_seed / 2

  unfoldable pub hash_emptyisnull : Option (List ℕ) → Outcome ℕ
  unfolding empty_is_null hash
  hash_emptyisnull bytes = do bytes' ← empty_is_null bytes; ok (hash bytes')

  -- `get_estimate` of a sketch is floating point. A null pointer is freed, which reads through it.
  unfoldable pub get_estimate :
      {Estimate : Type 0}
      → (CompactSketch → Estimate)
      → Option (List ℕ)
      → Heap
      → Outcome (Estimate × Heap)
  unfolding check_length theta_sketch_deserialize compact_sketch_at theta_sketch_delete
  get_estimate estimate_of none heap = stop undefined
  get_estimate estimate_of (some bytes) heap = do
    check_length bytes
    sketchptr ← theta_sketch_deserialize murmur seed_hash_of malloc bytes heap
    c ← compact_sketch_at (sketchptr.0) (sketchptr.1)
    heap' ← theta_sketch_delete (sketchptr.0) (sketchptr.1)
    ok (estimate_of c, heap')

  unfoldable pub get_estimate_emptyisnull :
      {Estimate : Type 0}
      → (CompactSketch → Estimate)
      → Option (List ℕ)
      → Heap
      → Outcome (Estimate × Heap)
  unfolding empty_is_null get_estimate
  get_estimate_emptyisnull estimate_of bytes heap = do
    bytes' ← empty_is_null bytes
    get_estimate estimate_of bytes' heap
