-- ===== src/Handle.antt =====
-- The heap of the extension's states, and the helpers at the head of extension_impl_handle.cpp. A
-- state is a C++ object that a handle points to; each function of the extension takes the heap and
-- returns the new one. `new` gives a fresh address and does not fail.
pub mod Aggregate
pub mod Scalar
pub mod Memory
pub mod Unions
pub mod Differences
pub mod Intersections
pub mod Build
pub mod Hashed
pub mod Pipeline
use singlestoredb_extension.Base.{
  ℕ, zero, suc, Bool, true, false, List, [], ◌∷◌, ◌++◌, Option, none, some, Outcome, ok, stop,
  undefined, aborted, ◌>>=◌, get_elem?, set, length,
}
use singlestoredb_extension.Table.{Table}
use singlestoredb_extension.UpdateSketch
use singlestoredb_extension.UpdateSketch.{default_builder, default_seed, update_by_hash}
use singlestoredb_extension.Sketch.{Sketch, CompactSketch, of_table, of_compact, compact}
use singlestoredb_extension.Union
use singlestoredb_extension.Union.{Union}
use singlestoredb_extension.Intersection
use singlestoredb_extension.Intersection.{Intersection}
use singlestoredb_extension.SetDifference.{compute}
use singlestoredb_extension.Serial.{serialize2, deserialize, wrap}

-- `agg_state_type` of theta-sketch/theta_data.hpp.
pub data AggStateType : Type 0 where
  mutable_sketch immutable_sketch union intersection : AggStateType

-- The classes of the objects.
pub data Payload : Type 0 where
  update_sketch : Table → Payload
  compact_sketch : CompactSketch → Payload
  theta_union : Union → Payload
  theta_intersection : Intersection → Payload

-- `theta_data` with the object of the class that derives from it. The class of an intersection does
-- not: its object has no type in the source, and the one that it has here is never read or written.
pub record Object : Type 0 where
  pub type : AggStateType
  pub payload : Payload

-- The objects by address; `none` is an object that was deleted.
abbrev pub Heap : Type 0
Heap = List (Option Object)

-- `extension_state_t`; `no_handle` is -1.
pub data Handle : Type 0 where
  no_handle : Handle
  at : ℕ → Handle

abbrev pub is_valid : Handle → Bool
is_valid no_handle = false
is_valid (at address) = true

-- A new object has the type `MUTABLE_SKETCH` of the constructor of `theta_data`.
abbrev pub new : Payload → Heap → ℕ × Heap
new payload heap =
    (length heap, heap ++ some (record { type = mutable_sketch; payload = payload }) ∷ [])

-- Reading an object that was deleted is undefined.
unfoldable pub object_at : ℕ → Heap → Outcome Object
object_at address heap = elim (get_elem? heap address) [
  | none ↦ stop undefined
  | some o ↦ elim o [ none ↦ stop undefined | some object ↦ ok object ]
]

abbrev pub put : ℕ → Object → Heap → Heap
put address object heap = set heap address (some object)

abbrev pub delete : ℕ → Heap → Heap
delete address heap = set heap address none

-- The cast to `theta_data`, from which the class of an intersection does not derive.
unfoldable pub theta_data_at : ℕ → Heap → Outcome Object
unfolding object_at
theta_data_at address heap = do
  o ← object_at address heap
  elim o.payload [ theta_intersection i ↦ stop undefined | _ ↦ ok o ]

unfoldable pub theta_data_set_type : ℕ → AggStateType → Heap → Outcome Heap
unfolding theta_data_at
theta_data_set_type address type heap = do
  o ← theta_data_at address heap
  ok (put address (record o { type = type }) heap)

unfoldable pub theta_data_get_type : ℕ → Heap → Outcome AggStateType
unfolding theta_data_at
theta_data_get_type address heap = do o ← theta_data_at address heap; ok o.type

-- A cast to a class that the object does not have is undefined.
unfoldable pub update_sketch_at : ℕ → Heap → Outcome Table
unfolding object_at
update_sketch_at address heap = do
  o ← object_at address heap
  elim o.payload [ update_sketch t ↦ ok t | _ ↦ stop undefined ]

unfoldable pub compact_sketch_at : ℕ → Heap → Outcome CompactSketch
unfolding object_at
compact_sketch_at address heap = do
  o ← object_at address heap
  elim o.payload [ compact_sketch c ↦ ok c | _ ↦ stop undefined ]

unfoldable pub union_at : ℕ → Heap → Outcome Union
unfolding object_at
union_at address heap = do
  o ← object_at address heap
  elim o.payload [ theta_union u ↦ ok u | _ ↦ stop undefined ]

unfoldable pub intersection_at : ℕ → Heap → Outcome Intersection
unfolding object_at
intersection_at address heap = do
  o ← object_at address heap
  elim o.payload [ theta_intersection i ↦ ok i | _ ↦ stop undefined ]

-- The object keeps its type.
unfoldable pub store : ℕ → Payload → Heap → Outcome Heap
unfolding object_at
store address payload heap = do
  o ← object_at address heap
  ok (put address (record o { payload = payload }) heap)

unfoldable pub update_theta_sketch_delete : ℕ → Heap → Outcome Heap
unfolding update_sketch_at
update_theta_sketch_delete address heap = do
  t ← update_sketch_at address heap
  ok (delete address heap)

unfoldable pub theta_sketch_delete : ℕ → Heap → Outcome Heap
unfolding object_at
theta_sketch_delete address heap = do
  o ← object_at address heap
  elim o.payload [
    | update_sketch t ↦ ok (delete address heap)
    | compact_sketch c ↦ ok (delete address heap)
    | _ ↦ stop undefined
  ]

unfoldable pub theta_union_delete : ℕ → Heap → Outcome Heap
unfolding union_at
theta_union_delete address heap = do u ← union_at address heap; ok (delete address heap)

unfoldable pub theta_intersection_delete : ℕ → Heap → Outcome Heap
unfolding intersection_at
theta_intersection_delete address heap = do
  i ← intersection_at address heap
  ok (delete address heap)

unfoldable pub theta_sketch_new_default : Heap → ℕ × Heap
unfolding UpdateSketch.build
theta_sketch_new_default heap = new (update_sketch (UpdateSketch.build default_builder)) heap

unfoldable pub theta_union_new_default : Heap → ℕ × Heap
theta_union_new_default heap = new (theta_union (Union.build default_builder)) heap

unfoldable pub theta_intersection_new_default : Heap → ℕ × Heap
theta_intersection_new_default heap = new (theta_intersection (Intersection.make default_seed)) heap

-- Third-party code, and what the C library does.
module _ (murmur : List ℕ → ℕ → ℕ) (seed_hash_of : ℕ → ℕ) (malloc : ℕ → Option (List ℕ)) where
  unfoldable pub theta_sketch_update : ℕ → List ℕ → Heap → Outcome Heap
  unfolding update_sketch_at store
  theta_sketch_update address bytes heap = do
    t ← update_sketch_at address heap
    t' ← UpdateSketch.update murmur t bytes
    store address (update_sketch t') heap

  unfoldable pub theta_sketch_update_by_hash : ℕ → ℕ → Heap → Outcome Heap
  unfolding update_sketch_at store
  theta_sketch_update_by_hash address hash heap = do
    t ← update_sketch_at address heap
    t' ← update_by_hash t hash
    store address (update_sketch t') heap

  -- A set operation reads a sketch of either class.
  unfoldable pub sketch_at : ℕ → Heap → Outcome Sketch
  unfolding object_at of_table of_compact
  sketch_at address heap = do
    o ← object_at address heap
    elim o.payload [
      | update_sketch t ↦ ok (of_table seed_hash_of t)
      | compact_sketch c ↦ ok (of_compact c)
      | _ ↦ stop undefined
    ]

  unfoldable pub theta_union_get_result : ℕ → Heap → Outcome (ℕ × Heap)
  unfolding union_at theta_union_delete
  theta_union_get_result address heap = do
    u ← union_at address heap
    c ← Union.get_result seed_hash_of u true
    let made = new (compact_sketch c) heap
    heap' ← theta_union_delete address (made.1)
    ok (made.0, heap')

  unfoldable pub theta_intersection_get_result : ℕ → Heap → Outcome (ℕ × Heap)
  unfolding intersection_at theta_intersection_delete
  theta_intersection_get_result address heap = do
    i ← intersection_at address heap
    c ← Intersection.get_result seed_hash_of i true
    let made = new (compact_sketch c) heap
    heap' ← theta_intersection_delete address (made.1)
    ok (made.0, heap')

  unfoldable pub theta_data_get_result : ℕ → Heap → Outcome (ℕ × Heap)
  unfolding theta_data_get_type theta_union_get_result theta_intersection_get_result
  theta_data_get_result address heap = do
    type ← theta_data_get_type address heap
    elim type [
      | union ↦ theta_union_get_result address heap
      | intersection ↦ theta_intersection_get_result address heap
      | _ ↦ ok (address, heap)
    ]

  unfoldable pub theta_union_update_with_sketch : (address sketch : ℕ) → Heap → Outcome Heap
  unfolding union_at sketch_at store
  theta_union_update_with_sketch address sketch heap = do
    u ← union_at address heap
    s ← sketch_at sketch heap
    u' ← Union.update seed_hash_of u s
    store address (theta_union u') heap

  unfoldable pub theta_union_update_with_bytes : ℕ → List ℕ → Heap → Outcome Heap
  unfolding union_at wrap store
  theta_union_update_with_bytes address bytes heap = do
    u ← union_at address heap
    s ← wrap (seed_hash_of default_seed) bytes
    u' ← Union.update seed_hash_of u s
    store address (theta_union u') heap

  unfoldable pub theta_intersection_update_with_sketch : (address sketch : ℕ) → Heap → Outcome Heap
  unfolding intersection_at sketch_at store
  theta_intersection_update_with_sketch address sketch heap = do
    i ← intersection_at address heap
    s ← sketch_at sketch heap
    i' ← Intersection.update seed_hash_of i s
    store address (theta_intersection i') heap

  unfoldable pub theta_intersection_update_with_bytes : ℕ → List ℕ → Heap → Outcome Heap
  unfolding intersection_at wrap store
  theta_intersection_update_with_bytes address bytes heap = do
    i ← intersection_at address heap
    s ← wrap (seed_hash_of default_seed) bytes
    i' ← Intersection.update seed_hash_of i s
    store address (theta_intersection i') heap

  unfoldable pub theta_sketch_compact : ℕ → Heap → Outcome (ℕ × Heap)
  unfolding update_sketch_at compact update_theta_sketch_delete
  theta_sketch_compact address heap = do
    t ← update_sketch_at address heap
    let made = new (compact_sketch (compact seed_hash_of t true)) heap
    heap' ← update_theta_sketch_delete address (made.1)
    ok (made.0, heap')

  unfoldable pub theta_sketch_serialize : ℕ → Heap → Outcome (List ℕ)
  unfolding compact_sketch_at serialize2
  theta_sketch_serialize address heap = do
    c ← compact_sketch_at address heap
    elim (serialize2 malloc c) [ none ↦ stop aborted | some bytes ↦ ok bytes ]

  unfoldable pub theta_sketch_deserialize : List ℕ → Heap → Outcome (ℕ × Heap)
  unfolding deserialize
  theta_sketch_deserialize bytes heap = do
    c ← deserialize (seed_hash_of default_seed) bytes
    ok (new (compact_sketch c) heap)

  unfoldable pub theta_anotb : (buf1 buf2 : List ℕ) → Heap → Outcome (ℕ × Heap)
  unfolding wrap
  theta_anotb buf1 buf2 heap = do
    a ← wrap (seed_hash_of default_seed) buf1
    b ← wrap (seed_hash_of default_seed) buf2
    c ← compute (seed_hash_of default_seed) a b true
    ok (new (compact_sketch c) heap)
