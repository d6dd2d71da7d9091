-- ===== src/Handle/Aggregate.antt =====
-- The functions over handles of extension_impl_handle.cpp, which the aggregates of the database call;
-- their names are without the prefix `extension_sketch_handle_`. An argument `input` or `data` is the
-- list that a pointer points to, and nothing for a null pointer. The list is freed where the function
-- frees it; it is not part of the heap.
use singlestoredb_extension.Base.{
  ℕ, List, [], ◌∷◌, Option, none, some, Outcome, ok, stop, undefined, ◌>>=◌, ◌==◌, if◌then◌else◌,
  not, ◌&&◌,
}
use singlestoredb_extension.Handle.{
  AggStateType, mutable_sketch, immutable_sketch, union, intersection, Heap, Handle, no_handle, at,
  is_valid, theta_data_set_type, theta_data_get_type, theta_sketch_delete, theta_sketch_new_default,
  theta_union_new_default, theta_intersection_new_default, theta_sketch_update,
  theta_sketch_update_by_hash, theta_data_get_result, theta_union_update_with_sketch,
  theta_union_update_with_bytes, theta_intersection_update_with_sketch,
  theta_intersection_update_with_bytes, theta_sketch_compact, theta_sketch_serialize,
  theta_sketch_deserialize,
}

abbrev pub init : Handle
init = no_handle

-- The state of a handle, or a new one of the given kind.
unfoldable pub state_of : Handle → (Heap → ℕ × Heap) → AggStateType → Heap → Outcome (ℕ × Heap)
unfolding theta_data_set_type
state_of (at state) new_default type heap = ok (state, heap)
state_of no_handle new_default type heap = do
  let made = new_default heap
  heap' ← theta_data_set_type (made.0) type (made.1)
  ok (made.0, heap')

-- The variants `_emptyisnull` free an empty list and go on with a null pointer.
unfoldable pub empty_is_null : Option (List ℕ) → Outcome (Option (List ℕ))
empty_is_null none = stop undefined
empty_is_null (some []) = ok none
empty_is_null (some (byte ∷ bytes)) = ok (some (byte ∷ bytes))

module _ (murmur : List ℕ → ℕ → ℕ) (seed_hash_of : ℕ → ℕ) (malloc : ℕ → Option (List ℕ)) where
  unfoldable pub build_accum : Handle → Option (List ℕ) → Heap → Outcome (Handle × Heap)
  unfolding state_of theta_sketch_new_default theta_sketch_update
  build_accum handle none heap = ok (handle, heap)
  build_accum handle (some input) heap = do
    s ← state_of handle theta_sketch_new_default mutable_sketch heap
    heap' ← theta_sketch_update murmur seed_hash_of malloc (s.0) input (s.1)
    ok (at (s.0), heap')

  unfoldable pub build_accum_emptyisnull : Handle → Option (List ℕ) → Heap → Outcome (Handle × Heap)
  unfolding empty_is_null build_accum
  build_accum_emptyisnull handle input heap = do
    input' ← empty_is_null input
    build_accum handle input' heap

  unfoldable pub build_accum_by_hash : Handle → ℕ → Heap → Outcome (Handle × Heap)
  unfolding state_of theta_sketch_new_default theta_sketch_update_by_hash
  build_accum_by_hash handle input heap = do
    s ← state_of handle theta_sketch_new_default mutable_sketch heap
    heap' ← theta_sketch_update_by_hash murmur seed_hash_of malloc (s.0) input (s.1)
    ok (at (s.0), heap')

  unfoldable pub build_accum_by_hash_emptyisnull : Handle → ℕ → Heap → Outcome (Handle × Heap)
  unfolding build_accum_by_hash
  build_accum_by_hash_emptyisnull handle input heap =
      if input == 0 then ok (handle, heap) else build_accum_by_hash handle input heap

  unfoldable pub union_accum : Handle → Option (List ℕ) → Heap → Outcome (Handle × Heap)
  unfolding state_of theta_union_new_default theta_union_update_with_bytes
  union_accum handle none heap = ok (handle, heap)
  union_accum handle (some input) heap = do
    s ← state_of handle theta_union_new_default union heap
    heap' ← theta_union_update_with_bytes murmur seed_hash_of malloc (s.0) input (s.1)
    ok (at (s.0), heap')

  unfoldable pub union_accum_emptyisnull : Handle → Option (List ℕ) → Heap → Outcome (Handle × Heap)
  unfolding empty_is_null union_accum
  union_accum_emptyisnull handle input heap = do
    input' ← empty_is_null input
    union_accum handle input' heap

  unfoldable pub intersection_accum : Handle → Option (List ℕ) → Heap → Outcome (Handle × Heap)
  unfolding state_of theta_intersection_new_default theta_intersection_update_with_bytes
  intersection_accum handle none heap = ok (handle, heap)
  intersection_accum handle (some input) heap = do
    s ← state_of handle theta_intersection_new_default intersection heap
    heap' ← theta_intersection_update_with_bytes murmur seed_hash_of malloc (s.0) input (s.1)
    ok (at (s.0), heap')

  unfoldable pub intersection_accum_emptyisnull :
      Handle → Option (List ℕ) → Heap → Outcome (Handle × Heap)
  unfolding empty_is_null intersection_accum
  intersection_accum_emptyisnull handle input heap = do
    input' ← empty_is_null input
    intersection_accum handle input' heap

  -- One side of a merge. Its state is used up.
  unfoldable pub merge_into_union : (u : ℕ) → Handle → Heap → Outcome Heap
  unfolding theta_data_get_result theta_union_update_with_sketch theta_sketch_delete
  merge_into_union u no_handle heap = ok heap
  merge_into_union u (at side) heap = do
    result ← theta_data_get_result murmur seed_hash_of malloc side heap
    heap' ← theta_union_update_with_sketch murmur seed_hash_of malloc u (result.0) (result.1)
    theta_sketch_delete (result.0) heap'

  unfoldable pub union_merge : (left right : Handle) → Heap → Outcome (Handle × Heap)
  unfolding theta_union_new_default theta_data_set_type merge_into_union
  union_merge left right heap =
      if not (is_valid left) && not (is_valid right) then ok (no_handle, heap) else do
        let u = theta_union_new_default heap
        heap₁ ← theta_data_set_type (u.0) union (u.1)
        heap₂ ← merge_into_union (u.0) left heap₁
        heap₃ ← merge_into_union (u.0) right heap₂
        ok (at (u.0), heap₃)

  unfoldable pub merge_into_intersection : (x : ℕ) → Handle → Heap → Outcome Heap
  unfolding theta_data_get_result theta_intersection_update_with_sketch theta_sketch_delete
  merge_into_intersection x no_handle heap = ok heap
  merge_into_intersection x (at side) heap = do
    result ← theta_data_get_result murmur seed_hash_of malloc side heap
    heap' ← theta_intersection_update_with_sketch murmur seed_hash_of malloc x (result.0) (result.1)
    theta_sketch_delete (result.0) heap'

  unfoldable pub intersection_merge : (left right : Handle) → Heap → Outcome (Handle × Heap)
  unfolding theta_intersection_new_default theta_data_set_type merge_into_intersection
  intersection_merge left right heap =
      if not (is_valid left) && not (is_valid right) then ok (no_handle, heap) else do
        let x = theta_intersection_new_default heap
        heap₁ ← theta_data_set_type (x.0) intersection (x.1)
        heap₂ ← merge_into_intersection (x.0) left heap₁
        heap₃ ← merge_into_intersection (x.0) right heap₂
        ok (at (x.0), heap₃)

  -- The sketch that a state is serialized as.
  unfoldable pub serialized_state : ℕ → Heap → Outcome (ℕ × Heap)
  unfolding theta_data_get_type theta_sketch_compact theta_data_get_result
  serialized_state state heap = do
    type ← theta_data_get_type state heap
    elim type [
      | mutable_sketch ↦ theta_sketch_compact murmur seed_hash_of malloc state heap
      | _ ↦ theta_data_get_result murmur seed_hash_of malloc state heap
    ]

  -- The output, which is empty for an invalid handle.
  unfoldable pub serialize : Handle → Heap → Outcome (List ℕ × Heap)
  unfolding serialized_state theta_sketch_serialize theta_sketch_delete
  serialize no_handle heap = ok ([], heap)
  serialize (at address) heap = do
    state ← serialized_state address heap
    output ← theta_sketch_serialize murmur seed_hash_of malloc (state.0) (state.1)
    heap' ← theta_sketch_delete (state.0) (state.1)
    ok (output, heap')

  unfoldable pub deserialize : (data_bytes : Option (List ℕ)) → Heap → Outcome (Handle × Heap)
  unfolding theta_sketch_deserialize theta_data_set_type
  deserialize none heap = stop undefined
  deserialize (some []) heap = ok (no_handle, heap)
  deserialize (some (byte ∷ bytes)) heap = do
    state ← theta_sketch_deserialize murmur seed_hash_of malloc (byte ∷ bytes) heap
    heap' ← theta_data_set_type (state.0) immutable_sketch (state.1)
    ok (at (state.0), heap')
