-- ===== src/Handle/Memory.antt =====
-- New objects stand at the end of the heap; what the helpers of extension_impl_handle.cpp do to them.
use singlestoredb_extension.Base.{
  ℕ, suc, ◌≡◌, refl, ap, true, List, [], ◌∷◌, ◌++◌, Option, none, some, ok, stop, aborted,
  get_elem?, set, length, length-append, arith, ◌+◌, ◌*◌, ◌%◌, ◌^◌,
}
use singlestoredb_extension.Sketch.{Sketch, CompactSketch}
use singlestoredb_extension.UpdateSketch.{default_seed}
use singlestoredb_extension.Union
use singlestoredb_extension.Union.{Union}
use singlestoredb_extension.Serial.{written, preamble_longs, serialize2, wrap}
use singlestoredb_extension.Handle.{
  AggStateType, Payload, compact_sketch, theta_union, Object, mutable_sketch, Heap, object_at,
  union_at, store, theta_union_delete, theta_union_get_result, theta_union_update_with_bytes,
  theta_sketch_serialize, theta_sketch_delete, compact_sketch_at,
}

-- An object of a type.
abbrev pub object : AggStateType → Payload → Option Object
object type payload = some (record { type = type; payload = payload })

-- The addresses of the first and the second new object.
get_elem?-new :
    (heap rest : Heap) (o : Option Object) → get_elem? (heap ++ o ∷ rest) (length heap) ≡ some o
get_elem?-new [] rest o = refl
get_elem?-new (x ∷ heap) rest o = get_elem?-new heap rest o

get_elem?-second :
    (heap rest : Heap) (o p : Option Object)
    → get_elem? (heap ++ o ∷ p ∷ rest) (suc (length heap)) ≡ some p
get_elem?-second [] rest o p = refl
get_elem?-second (x ∷ heap) rest o p = get_elem?-second heap rest o p

pub object_at-new :
    (heap rest : Heap) (type : AggStateType) (payload : Payload)
    → object_at (length heap) (heap ++ object type payload ∷ rest)
      ≡ ok (record { type = type; payload = payload })
unfolding object_at
object_at-new heap rest type payload = rw (object_at, get_elem?-new heap rest (object type payload))

pub object_at-second :
    (heap rest : Heap) (o : Option Object) (type : AggStateType) (payload : Payload)
    → object_at (suc (length heap)) (heap ++ o ∷ object type payload ∷ rest)
      ≡ ok (record { type = type; payload = payload })
unfolding object_at
object_at-second heap rest o type payload =
    rw (object_at, get_elem?-second heap rest o (object type payload))

pub set-new :
    (heap rest : Heap) (o v : Option Object)
    → set (heap ++ o ∷ rest) (length heap) v ≡ heap ++ v ∷ rest
set-new [] rest o v = refl
set-new (x ∷ heap) rest o v = ap (λ h. x ∷ h) (set-new heap rest o v)

pub set-second :
    (heap rest : Heap) (o p v : Option Object)
    → set (heap ++ o ∷ p ∷ rest) (suc (length heap)) v ≡ heap ++ o ∷ v ∷ rest
set-second [] rest o p v = refl
set-second (x ∷ heap) rest o p v = ap (λ h. x ∷ h) (set-second heap rest o p v)

pub length-second : (heap : Heap) (o : Option Object) → length (heap ++ o ∷ []) ≡ suc (length heap)
length-second heap o = omega (arith, length-append heap (o ∷ []))

pub append-second :
    (heap rest : Heap) (o : Option Object) → (heap ++ o ∷ []) ++ rest ≡ heap ++ o ∷ rest
append-second [] rest o = refl
append-second (x ∷ heap) rest o = ap (λ h. x ∷ h) (append-second heap rest o)

-- The memory that `serialize2` asks for.
abbrev pub output_size : CompactSketch → ℕ
output_size c = (8 * preamble_longs c + 8 * length c.entries) % 2 ^ 32

serialize2-written :
    (malloc : ℕ → Option (List ℕ)) (c : CompactSketch) (memory : List ℕ)
    → malloc (output_size c) ≡ some memory
    → serialize2 malloc c ≡ some (written c memory)
unfolding serialize2
serialize2-written malloc c memory given = rw (serialize2, given)

given_bytes :
    {bytes : List ℕ} (given : Option (List ℕ))
    → given ≡ some bytes
    → elim given [ none ↦ stop aborted | some b ↦ ok b ] ≡ ok bytes
given_bytes given e = rw (e)

module _ (murmur : List ℕ → ℕ → ℕ) (seed_hash_of : ℕ → ℕ) (malloc : ℕ → Option (List ℕ))
    (heap : Heap) where
  -- An update of the union at the end of the heap.
  pub union_update-new :
      (type : AggStateType) (u u' : Union) (s : Sketch) (bytes : List ℕ)
      → wrap (seed_hash_of default_seed) bytes ≡ ok s
      → Union.update seed_hash_of u s ≡ ok u'
      → theta_union_update_with_bytes murmur seed_hash_of malloc
          (length heap)
          bytes
          (heap ++ object type (theta_union u) ∷ [])
        ≡ ok (heap ++ object type (theta_union u') ∷ [])
  unfolding theta_union_update_with_bytes union_at store
  union_update-new type u u' s bytes wrapped updated = rw (
    object_at-new heap [] type (theta_union u),
    wrapped,
    updated,
    set-new heap [] (object type (theta_union u)) (object type (theta_union u')),
  )

  pub union_get_result-new :
      (type : AggStateType) (u : Union) (c : CompactSketch)
      → Union.get_result seed_hash_of u true ≡ ok c
      → theta_union_get_result murmur seed_hash_of malloc
          (length heap)
          (heap ++ object type (theta_union u) ∷ [])
        ≡ ok (suc (length heap), heap ++ none ∷ object mutable_sketch (compact_sketch c) ∷ [])
  unfolding theta_union_get_result theta_union_delete union_at
  union_get_result-new type u c result =
      let o = object type (theta_union u) in
      rw (
        object_at-new heap [] type (theta_union u),
        result,
        length-second heap o,
        append-second heap (object mutable_sketch (compact_sketch c) ∷ []) o,
        object_at-new heap (object mutable_sketch (compact_sketch c) ∷ []) type (theta_union u),
        set-new heap (object mutable_sketch (compact_sketch c) ∷ []) o none,
      )

  -- The second new object is written out and deleted.
  pub serialize-second :
      (o : Option Object) (type : AggStateType) (c : CompactSketch) (memory : List ℕ)
      → malloc (output_size c) ≡ some memory
      → theta_sketch_serialize murmur seed_hash_of malloc
          (suc (length heap))
          (heap ++ o ∷ object type (compact_sketch c) ∷ [])
        ≡ ok (written c memory)
  unfolding theta_sketch_serialize compact_sketch_at
  serialize-second o type c memory given =
      rw (object_at-second heap [] o type (compact_sketch c))
        (given_bytes (serialize2 malloc c) (serialize2-written malloc c memory given))

  pub delete-second :
      (o : Option Object) (type : AggStateType) (c : CompactSketch)
      → theta_sketch_delete (suc (length heap)) (heap ++ o ∷ object type (compact_sketch c) ∷ [])
        ≡ ok (heap ++ o ∷ none ∷ [])
  unfolding theta_sketch_delete
  delete-second o type c = rw (
    object_at-second heap [] o type (compact_sketch c),
    set-second heap [] o (object type (compact_sketch c)) none,
  )

  pub serialize-new :
      (type : AggStateType) (c : CompactSketch) (memory : List ℕ)
      → malloc (output_size c) ≡ some memory
      → theta_sketch_serialize murmur seed_hash_of malloc
          (length heap)
          (heap ++ object type (compact_sketch c) ∷ [])
        ≡ ok (written c memory)
  unfolding theta_sketch_serialize compact_sketch_at
  serialize-new type c memory given =
      rw (object_at-new heap [] type (compact_sketch c))
        (given_bytes (serialize2 malloc c) (serialize2-written malloc c memory given))

  pub delete-new :
      (type : AggStateType) (c : CompactSketch)
      → theta_sketch_delete (length heap) (heap ++ object type (compact_sketch c) ∷ [])
        ≡ ok (heap ++ none ∷ [])
  unfolding theta_sketch_delete
  delete-new type c = rw (
    object_at-new heap [] type (compact_sketch c),
    set-new heap [] (object type (compact_sketch c)) none,
  )
