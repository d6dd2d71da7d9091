-- ===== src/Handle/Build.antt =====
-- The aggregate that builds a sketch: a state takes a stream of values and is serialized.
use singlestoredb_extension.Base.{
  ◌≤◌, ◌<◌, ◌^◌, ℕ, suc, ◌≡◌, refl, ap, ◌∙◌, ◌⊎◌, true, List, [], ◌∷◌, ◌++◌, Option, none, some,
  Outcome, ok, stop, ◌>>=◌, Returns, arith, length,
}
use singlestoredb_extension.Table.{Table, max_theta}
use singlestoredb_extension.UpdateSketch
use singlestoredb_extension.UpdateSketch.{
  default_builder, default_seed, default_lg_k, update_by_hash, update_all,
}
use singlestoredb_extension.UpdateSketch.Retains.{update_all-Retains}
use singlestoredb_extension.Sketch.{CompactSketch, compact}
use singlestoredb_extension.Sketch.Sample.{set_of, IsCompactOf}
use singlestoredb_extension.Sketch.Streams.{compact-IsCompactOf, compact_full}
use singlestoredb_extension.Serial.{written, deserialize}
use singlestoredb_extension.Serial.RoundTrip.{IsSerial, deserialize-written}
use singlestoredb_extension.Serial.Sketches.{compact-IsSerial}
use singlestoredb_extension.Handle.{
  Heap, Handle, no_handle, at, mutable_sketch, update_sketch, compact_sketch, update_sketch_at,
  store, theta_sketch_update_by_hash, theta_data_at, theta_data_set_type, theta_data_get_type,
  theta_sketch_new_default, theta_sketch_compact, update_theta_sketch_delete,
}
use singlestoredb_extension.Handle.Aggregate.{
  init, build_accum_by_hash, state_of, serialize, serialized_state,
}
use singlestoredb_extension.Handle.Unions.{default_builder-IsBuilder}
use singlestoredb_extension.Handle.Memory.{
  object, output_size, object_at-new, set-new, length-second, append-second, serialize-second,
  delete-second,
}

module _ (murmur : List ℕ → ℕ → ℕ) (seed_hash_of : ℕ → ℕ) (malloc : ℕ → Option (List ℕ)) where
  -- The rows of a group, one call each.
  unfoldable pub accum_all : Handle → List ℕ → Heap → Outcome (Handle × Heap)
  accum_all handle [] heap = ok (handle, heap)
  accum_all handle (x ∷ xs) heap = do
    s ← build_accum_by_hash murmur seed_hash_of malloc handle x heap
    accum_all (s.0) xs (s.1)

  abbrev pub with : Heap → Table → Heap
  with heap t = heap ++ object mutable_sketch (update_sketch t) ∷ []

  -- What a call leaves behind, once the sketch is updated.
  abbrev left_behind : Heap → Outcome Table → Outcome (Handle × Heap)
  left_behind heap updated = updated >>= λ t. ok (at (length heap), with heap t)

  stored :
      (heap : Heap) (t : Table) (updated : Outcome Table)
      → (updated >>= (λ t'. store (length heap) (update_sketch t') (with heap t)) >>= λ heap'.
          ok (at (length heap), heap'))
        ≡ left_behind heap updated
  unfolding store
  stored heap t (ok t') = rw (
    object_at-new heap [] mutable_sketch (update_sketch t),
    set-new heap [] (object mutable_sketch (update_sketch t))
        (object mutable_sketch (update_sketch t')),
  )
  stored heap t (stop s) = refl

  pub sketch-new : (heap : Heap) (t : Table) → update_sketch_at (length heap) (with heap t) ≡ ok t
  unfolding update_sketch_at
  sketch-new heap t = rw (object_at-new heap [] mutable_sketch (update_sketch t))

  accum-new :
      (heap : Heap) (t : Table) (x : ℕ)
      → build_accum_by_hash murmur seed_hash_of malloc (at (length heap)) x (with heap t)
        ≡ left_behind heap (update_by_hash t x)
  unfolding build_accum_by_hash state_of theta_sketch_update_by_hash
  accum-new heap t x =
      ap
        (λ read.
          read
          >>= (λ u.
              update_by_hash u x >>= λ t'. store (length heap) (update_sketch t') (with heap t))
          >>= λ heap'. ok (at (length heap), heap'))
        (sketch-new heap t)
      ∙ stored heap t (update_by_hash t x)

  -- The first row makes the state.
  abbrev pub fresh : Table
  fresh = UpdateSketch.build default_builder

  pub state_of-fresh :
      (heap : Heap)
      → state_of no_handle theta_sketch_new_default mutable_sketch heap
        ≡ ok (length heap, with heap fresh)
  unfolding state_of theta_sketch_new_default theta_data_set_type theta_data_at
  state_of-fresh heap =
      let o = object mutable_sketch (update_sketch fresh) in
      rw (object_at-new heap [] mutable_sketch (update_sketch fresh), set-new heap [] o o)

  accum-first :
      (heap : Heap) (x : ℕ)
      → build_accum_by_hash murmur seed_hash_of malloc no_handle x heap
        ≡ left_behind heap (update_by_hash fresh x)
  unfolding build_accum_by_hash state_of
  accum-first heap x =
      ap
        (λ made. made >>= λ s.
          theta_sketch_update_by_hash murmur seed_hash_of malloc (s.0) x (s.1) >>= λ heap'.
          ok (at (s.0), heap'))
        (state_of-fresh heap)
      ∙ accum-new heap fresh x

  further :
      (heap : Heap) (updated : Outcome Table) (xs : List ℕ)
      → ((t : Table)
          → accum_all (at (length heap)) xs (with heap t) ≡ left_behind heap (update_all t xs))
      → (left_behind heap updated >>= λ s. accum_all (s.0) xs (s.1))
        ≡ left_behind heap (updated >>= λ t. update_all t xs)
  further heap (ok t) xs rest = rest t
  further heap (stop s) xs rest = refl

  accum_all-new :
      (heap : Heap) (t : Table) (xs : List ℕ)
      → accum_all (at (length heap)) xs (with heap t) ≡ left_behind heap (update_all t xs)
  unfolding accum_all update_all
  accum_all-new heap t [] = refl
  accum_all-new heap t (x ∷ xs) =
      ap (λ first. first >>= λ s. accum_all (s.0) xs (s.1)) (accum-new heap t x)
      ∙ further heap (update_by_hash t x) xs (λ t'. accum_all-new heap t' xs)

  accum_all-first :
      (heap : Heap) (x : ℕ) (xs : List ℕ)
      → accum_all no_handle (x ∷ xs) heap ≡ left_behind heap (update_all fresh (x ∷ xs))
  unfolding accum_all update_all
  accum_all-first heap x xs =
      ap (λ first. first >>= λ s. accum_all (s.0) xs (s.1)) (accum-first heap x)
      ∙ further heap (update_by_hash fresh x) xs (λ t. accum_all-new heap t xs)

  -- A state is serialized as its compact sketch, and both are deleted.
  abbrev compacted : Table → CompactSketch
  compacted t = compact seed_hash_of t true

  compact-new :
      (heap : Heap) (t : Table)
      → theta_sketch_compact murmur seed_hash_of malloc (length heap) (with heap t)
        ≡ ok (
          suc (length heap),
          heap ++ none ∷ object mutable_sketch (compact_sketch (compacted t)) ∷ [],
        )
  unfolding theta_sketch_compact update_sketch_at update_theta_sketch_delete
  compact-new heap t =
      let o = object mutable_sketch (update_sketch t) in
      let rest = object mutable_sketch (compact_sketch (compacted t)) ∷ [] in
      rw (
        object_at-new heap [] mutable_sketch (update_sketch t),
        length-second heap o,
        append-second heap rest o,
        object_at-new heap rest mutable_sketch (update_sketch t),
        set-new heap rest o none,
      )

  type-new :
      (heap : Heap) (t : Table)
      → theta_data_get_type (length heap) (with heap t) ≡ ok mutable_sketch
  unfolding theta_data_get_type theta_data_at
  type-new heap t = rw (object_at-new heap [] mutable_sketch (update_sketch t))

  serialize-new :
      (heap : Heap) (t : Table) (memory : List ℕ)
      → malloc (output_size (compacted t)) ≡ some memory
      → serialize murmur seed_hash_of malloc (at (length heap)) (with heap t)
        ≡ ok (written (compacted t) memory, heap ++ none ∷ none ∷ [])
  unfolding serialize serialized_state
  serialize-new heap t memory given = rw (
    type-new heap t,
    compact-new heap t,
    serialize-second murmur seed_hash_of malloc heap none mutable_sketch (compacted t) memory given,
    delete-second murmur seed_hash_of malloc heap none mutable_sketch (compacted t),
  )

  -- The whole aggregate.
  unfoldable pub build_agg_by_hash : List ℕ → Heap → Outcome (List ℕ × Heap)
  unfolding accum_all serialize
  build_agg_by_hash xs heap = do
    s ← accum_all init xs heap
    serialize murmur seed_hash_of malloc (s.0) (s.1)

  -- The output is a serialized sketch that samples the stream.
  pub build_agg_by_hash-run :
      (x : ℕ) (xs : List ℕ) (heap : Heap)
      → ((size : ℕ) → (memory : List ℕ) × (malloc size ≡ some memory))
      → seed_hash_of default_seed < 2 ^ 16
      → (c : CompactSketch) × (memory : List ℕ) × (build_agg_by_hash (x ∷ xs) heap
          ≡ ok (written c memory, heap ++ none ∷ none ∷ []))
        × IsCompactOf (set_of (x ∷ xs)) c
        × IsSerial (seed_hash_of default_seed) c
        × ((c.theta ≡ max_theta) ⊎ (2 ^ default_lg_k ≤ length c.entries))
  unfolding build_agg_by_hash
  build_agg_by_hash-run x xs heap gives small =
      let (t, run, r) = update_all-Retains default_builder (x ∷ xs) default_builder-IsBuilder in
      let (memory, given) = gives (output_size (compacted t)) in
      (
        compacted t,
        memory,
        rw (accum_all-first heap x xs, run) (serialize-new heap t memory given),
        compact-IsCompactOf r (omega arith) seed_hash_of true,
        compact-IsSerial seed_hash_of r (omega arith) small,
        compact_full r (omega arith) seed_hash_of true,
      )

  -- Where memory can be had and the default seed hash has 16 bits: the aggregate that takes a
  -- stream of at least one hash, one call of `build_accum_by_hash` each from no handle on, and
  -- serializes the state, returns. Its output is read back by `deserialize` as a compact sketch
  -- that samples the hashes of the stream, with the largest theta or at least `2 ^ 12` entries, and
  -- the two objects that it made on the heap are both deleted, while the heap is otherwise as
  -- before.
  pub build_agg_by_hash-IsCompactOf :
      (x : ℕ) (xs : List ℕ) (heap : Heap)
      → ((size : ℕ) → (memory : List ℕ) × (malloc size ≡ some memory))
      → seed_hash_of default_seed < 2 ^ 16
      → Returns (build_agg_by_hash (x ∷ xs) heap) (λ r.
        (c : CompactSketch) × (deserialize (seed_hash_of default_seed) r.0 ≡ ok c)
        × (r.1 ≡ heap ++ none ∷ none ∷ [])
        × IsCompactOf (set_of (x ∷ xs)) c
        × ((c.theta ≡ max_theta) ⊎ (2 ^ default_lg_k ≤ length c.entries)))
  build_agg_by_hash-IsCompactOf x xs heap gives small =
      let (c, memory, run, is, serial, full) = build_agg_by_hash-run x xs heap gives small in
      (
        (written c memory, heap ++ none ∷ none ∷ []),
        run,
        (c, deserialize-written (seed_hash_of default_seed) c memory serial, refl, is, full),
      )
