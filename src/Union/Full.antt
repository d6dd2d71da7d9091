-- ===== src/Union/Full.antt =====
-- How large the sample of a union is: its theta, and the members below it.
use singlestoredb_extension.Base.{
  ℕ, ◌≤◌, ◌≡◌, ◌≢◌, ◌⊎◌, ◌^◌, ap, ◌∙◌, Bool, true, false, List, ◌++◌, Returns, arith, inl, inr, min,
  ltb, ◌&&◌, if◌then◌else◌, length, lt-cases,
}
use singlestoredb_extension.Base.Counts.{count, length-counted}
use singlestoredb_extension.Table.{Table, max_theta}
use singlestoredb_extension.Table.Insert.{Grows}
use singlestoredb_extension.UpdateSketch.{Builder}
use singlestoredb_extension.UpdateSketch.Build.{IsBuilder}
use singlestoredb_extension.UpdateSketch.Retains.{Retains, is_nil, update_all-Retains}
use singlestoredb_extension.Sketch.{
  Sketch, CompactSketch, keys, of_table, of_compact, compact, copy_compact,
}
use singlestoredb_extension.Sketch.Keys.{count-keys, count-keys_zero, length-keys, keys-full}
use singlestoredb_extension.Sketch.Sample.{HashSet, set_of, IsSketchOf, IsCompactOf}
use singlestoredb_extension.Sketch.Compact.{of_compact-IsSketchOf}
use singlestoredb_extension.Sketch.Streams.{
  of_table-IsSketchOf, compact-IsCompactOf, table_full, compact_full,
}
use singlestoredb_extension.Union.Merge.{union_set}
use singlestoredb_extension.Union.Update.{IsUnionOf, Moves, update-Moves}
use singlestoredb_extension.Union.Result.{get_result-IsResultOf}
use singlestoredb_extension.Union.Start.{empty_set, build-IsUnionOf, build-IsNew}
use singlestoredb_extension.Union.Streams.{
  union_streams, table_seed_hash, both_streams, IsCompactOf-congr,
}
use singlestoredb_extension.Union.{Union, build, update, get_result}

-- At least `n` members of the set are below theta.
record Enough (n : ℕ) (X : HashSet) (theta : ℕ) : Type 0 where
  list : List ℕ
  no_zero : count 0 list ≡ 0
  among : (k : ℕ) → k ≢ 0 → count k list ≤ (if ltb k theta && X k then 1 else 0)
  long : n ≤ length list

-- Theta is the starting theta, or larger, or as many members as the nominal number are below it.
abbrev IsFull : Builder → HashSet → ℕ → Type 0
IsFull b X theta = (b.p_theta ≤ theta) ⊎ Enough (2 ^ b.lg_k) X theta

-- More members are enough too.
IsFull-mono :
    (b : Builder) (X Y : HashSet) (theta : ℕ)
    → ((k : ℕ) → X k ≡ true → Y k ≡ true)
    → IsFull b X theta
    → IsFull b Y theta
IsFull-mono b X Y theta more (inl le) = inl le
IsFull-mono b X Y theta more (inr e) = inr (record {
  list = e.list;
  no_zero = e.no_zero;
  among = λ k nz. ground (arith, e.among k nz, more k);
  long = e.long;
})

-- The entries of a sample show how many there are.
sketch-IsFull :
    (b : Builder) {Y : HashSet} {s : Sketch}
    → IsSketchOf Y s
    → (b.p_theta ≤ s.theta) ⊎ (2 ^ b.lg_k ≤ length s.entries)
    → IsFull b Y s.theta
sketch-IsFull b is (inl le) = inl le
sketch-IsFull b {s = s} is (inr long) = inr (record {
  list = s.entries;
  no_zero = is.no_zero;
  among = λ k nz. omega (arith, is.samples k nz);
  long = long;
})

-- A compact sample holds all the members below its theta.
IsFull-compact :
    (b : Builder) {X : HashSet} {c : CompactSketch}
    → IsCompactOf X c
    → IsFull b X c.theta
    → (b.p_theta ≤ c.theta) ⊎ (2 ^ b.lg_k ≤ length c.entries)
IsFull-compact b is (inl le) = inl le
IsFull-compact b {c = c} is (inr e) =
    let shorter : length e.list ≤ length c.entries =
      length-counted e.list c.entries e.no_zero
        (λ k nz. omega (arith, e.among k nz, is.samples k nz)) in
    inr (omega (arith, shorter, e.long))

record IsFullUnion (b : Builder) (X : HashSet) (u : Union) : Type 0 where
  sample : IsFull b X u.union_theta
  table : (u.table.theta ≡ b.p_theta) ⊎ (2 ^ b.lg_k ≤ u.table.num_entries)

-- The keys of the table show it where theta is that of the table.
union-IsFull :
    {b : Builder} {X : HashSet} {u : Union}
    → IsUnionOf b X u
    → (u.table.theta ≡ b.p_theta) ⊎ (2 ^ b.lg_k ≤ u.table.num_entries)
    → u.table.theta ≤ u.union_theta
    → IsFull b X u.union_theta
union-IsFull of (inl same) le = inl (omega arith)
union-IsFull {u = u} of (inr full) le = inr (record {
  list = keys u.table.entries;
  no_zero = count-keys_zero u.table.entries;
  among = λ k nz. ground (
    arith,
    count-keys k u.table.entries nz,
    of.merges.counts k nz,
    of.merges.table.below k nz,
    of.lowest,
  );
  long = omega (arith, full, length-keys u.table.entries, of.merges.table.filled);
})

module _ {b : Builder} {X Y : HashSet} {u : Union} {s : Sketch} (of : IsUnionOf b X u)
    (is : IsSketchOf Y s) (full : IsFullUnion b X u) (full_sketch : IsFull b Y s.theta) where
  table_after : (t : Table) → Grows u.table t → (t.theta ≡ b.p_theta) ⊎ (2 ^ b.lg_k ≤ t.num_entries)
  table_after t (inl (same, more)) = elim full.table [
    | inl e ↦ inl (same ∙ e)
    | inr le ↦ inr (omega (arith, le))
  ]
  table_after t (inr le) = inr (omega (arith, le, ap (λ (lg : ℕ). 2 ^ lg) of.settings.nominal))

  sample_after :
      (u' : Union)
      → IsUnionOf b (union_set X Y) u'
      → u'.union_theta ≡ min (min u.union_theta s.theta) u'.table.theta
      → Grows u.table u'.table
      → IsFull b (union_set X Y) u'.union_theta
  sample_after u' of' e grows = elim (lt-cases u'.union_theta u'.table.theta) [
    | inr le ↦ union-IsFull of' (table_after u'.table grows) le
    | inl lt ↦ elim (lt-cases s.theta u.union_theta) [
      | inl lt' ↦
          let same : u'.union_theta ≡ s.theta = omega arith in
          rw same (IsFull-mono b Y (union_set X Y) s.theta (λ k h. ground arith) full_sketch)
      | inr le ↦
          let same : u'.union_theta ≡ u.union_theta = omega arith in
          rw same (IsFull-mono b X (union_set X Y) u.union_theta (λ k h. ground arith) full.sample)
    ]
  ]

  moved-IsFullUnion :
      (u' : Union)
      → IsUnionOf b (union_set X Y) u'
      → Moves of is u'
      → IsFullUnion b (union_set X Y) u'
  moved-IsFullUnion u' of' (inl same) = rw same (record {
    sample = IsFull-mono b X (union_set X Y) u.union_theta (λ k h. ground arith) full.sample;
    table = full.table;
  })
  moved-IsFullUnion u' of' (inr (e, grows)) = record {
    sample = sample_after u' of' e grows;
    table = table_after u'.table grows;
  }

  update-IsFullUnion :
      (seed_hash_of : ℕ → ℕ)
      → (s.is_empty ≡ false → s.seed_hash ≡ seed_hash_of u.table.seed)
      → Returns
          (update seed_hash_of u s)
          (λ u'. IsUnionOf b (union_set X Y) u' × IsFullUnion b (union_set X Y) u')
  update-IsFullUnion seed_hash_of same_seed =
      let (u', run, (of', moves)) = update-Moves of is seed_hash_of same_seed in
      (u', run, (of', moved-IsFullUnion u' of' moves))

-- The result of a full union.
get_result_full :
    (seed_hash_of : ℕ → ℕ) {b : Builder} {X : HashSet} {u : Union}
    → IsUnionOf b X u
    → IsFullUnion b X u
    → (ordered : Bool)
    → Returns
        (get_result seed_hash_of u ordered)
        (λ c. IsCompactOf X c × ((b.p_theta ≤ c.theta) ⊎ (2 ^ b.lg_k ≤ length c.entries)))
get_result_full seed_hash_of {b = b} {X = X} {u = u} of full ordered =
    let (c, run, r) = get_result-IsResultOf seed_hash_of of ordered in
    let size : (b.p_theta ≤ c.theta) ⊎ (2 ^ b.lg_k ≤ length c.entries) = elim r.size [
      | inl same ↦ IsFull-compact b r.compact (rw same full.sample)
      | inr e ↦ inr (omega (arith, e, ap (λ (lg : ℕ). 2 ^ lg) of.settings.nominal))
    ] in
    (c, run, (r.compact, size))

module _ (seed_hash_of : ℕ → ℕ) {b : Builder} (is : IsBuilder b) (le : b.p_theta ≤ max_theta) where
  -- The starting theta is reached.
  starts :
      (hashes : List ℕ) (theta : ℕ)
      → theta ≡ (if is_nil hashes then max_theta else b.p_theta)
      → b.p_theta ≤ theta
  starts hashes theta e = ground arith

  table-IsFull :
      {hashes : List ℕ} {t : Table}
      → Retains b hashes t
      → IsFull b (set_of hashes) (of_table seed_hash_of t).theta
  table-IsFull {hashes = hashes} r = sketch-IsFull b (of_table-IsSketchOf r le seed_hash_of) (
      unfold of_table in
      elim (table_full r le) [ inl e ↦ inl (starts hashes _ e) | inr long ↦ inr long ])

  compact-IsFull :
      {hashes : List ℕ} {t : Table}
      → Retains b hashes t
      → (ordered : Bool)
      → IsFull b (set_of hashes) (of_compact (compact seed_hash_of t ordered)).theta
  compact-IsFull {hashes = hashes} {t = t} r ordered =
      let c = compact-IsCompactOf r le seed_hash_of ordered in
      sketch-IsFull b (of_compact-IsSketchOf c) (
        unfold of_compact in
        elim (compact_full r le seed_hash_of ordered) [
          | inl e ↦ inl (starts hashes _ e)
          | inr long ↦ inr (rw (keys-full (compact seed_hash_of t ordered).entries c.no_zero) long)
        ])

  new-IsFullUnion : IsFullUnion b empty_set (build b)
  new-IsFullUnion =
      let (new, run) = build-IsNew b is le seed_hash_of true in
      record { sample = inl (omega (arith, new.union_theta)); table = inl new.theta }

  -- For a builder with `lg_k` between 5 and 26, a resize factor up to 3 and a starting theta up to
  -- the maximum: two update sketches take two streams of hashes, a union takes the first sketch and
  -- the compact copy of the second, and `get_result` returns a compact sketch of the hashes of both
  -- streams that is large enough: its theta is not below the starting theta, or it has at least `2
  -- ^ lg_k` entries.
  pub union_streams_full :
      (ordered : Bool) (xs ys : List ℕ)
      → Returns (union_streams seed_hash_of b ordered xs ys) (λ c.
        IsCompactOf (set_of (xs ++ ys)) c
        × ((b.p_theta ≤ c.theta) ⊎ (2 ^ b.lg_k ≤ length c.entries)))
  unfolding union_streams of_table compact copy_compact of_compact
  union_streams_full ordered xs ys =
      let (t₁, run₁, r₁) = update_all-Retains b xs is in
      let (t₂, run₂, r₂) = update_all-Retains b ys is in
      let u₀ = build-IsUnionOf b is le in
      let (u₁, run₃, (of₁, full₁)) =
        update-IsFullUnion u₀ (of_table-IsSketchOf r₁ le seed_hash_of) new-IsFullUnion
          (table-IsFull r₁) seed_hash_of (λ _. table_seed_hash seed_hash_of is le r₁ u₀) in
      let c = compact-IsCompactOf r₂ le seed_hash_of ordered in
      let (u₂, run₄, (of₂, full₂)) =
        update-IsFullUnion of₁ (of_compact-IsSketchOf c) full₁ (compact-IsFull r₂ ordered)
          seed_hash_of (λ _. table_seed_hash seed_hash_of is le r₂ of₁) in
      let (result, run₅, (sample, size)) = get_result_full seed_hash_of of₂ full₂ ordered in
      (
        result,
        rw (run₁, run₂, run₃, run₄) run₅,
        (IsCompactOf-congr (both_streams xs ys) sample, size),
      )
