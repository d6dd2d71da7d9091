-- ===== src/Union/Streams.antt =====
-- Two update sketches and a union: the result samples both streams.
use singlestoredb_extension.Base.{
  ℕ, ◌≤◌, ◌^◌, ◌≡◌, ◌∙◌, sym, ap, Bool, List, Outcome, ◌++◌, ◌>>=◌, Returns, arith, length,
}
use singlestoredb_extension.Base.Counts.{count-append}
use singlestoredb_extension.Table.{Table, max_theta}
use singlestoredb_extension.UpdateSketch.{Builder, build as build_sketch, update_all}
use singlestoredb_extension.UpdateSketch.Build.{IsBuilder}
use singlestoredb_extension.UpdateSketch.Retains.{Retains, update_all-Retains}
use singlestoredb_extension.Sketch.{CompactSketch, of_table, of_compact, compact, copy_compact}
use singlestoredb_extension.Sketch.Sample.{HashSet, set_of, IsCompactOf}
use singlestoredb_extension.Sketch.Compact.{of_compact-IsSketchOf}
use singlestoredb_extension.Sketch.Streams.{of_table-IsSketchOf, compact-IsCompactOf}
use singlestoredb_extension.Union.Merge.{union_set}
use singlestoredb_extension.Union.Update.{IsUnionOf, update-IsUnionOf}
use singlestoredb_extension.Union.Result.{get_result-IsResultOf}
use singlestoredb_extension.Union.Start.{empty_set, build-IsUnionOf}
use singlestoredb_extension.Union.{Union, build, update, get_result}

-- A compact sample of another description of the same set.
pub IsCompactOf-congr :
    {X Y : HashSet} {c : CompactSketch} → ((k : ℕ) → Y k ≡ X k) → IsCompactOf X c → IsCompactOf Y c
IsCompactOf-congr same is = record {
  no_zero = is.no_zero;
  samples = λ k nz. rw (same k) (is.samples k nz);
  sorted = is.sorted;
  void = λ e k nz lt. rw (same k) (is.void e k nz lt);
  bounded = is.bounded;
}

pub both_streams :
    (xs ys : List ℕ) (k : ℕ)
    → set_of (xs ++ ys) k ≡ union_set (union_set empty_set (set_of xs)) (set_of ys) k
both_streams xs ys k = ground (arith, count-append k xs ys)

-- The union of a sketch and the compact copy of another, each made from a stream.
unfoldable pub union_streams :
    (seed_hash_of : ℕ → ℕ) (b : Builder) (ordered : Bool) (xs ys : List ℕ) → Outcome CompactSketch
union_streams seed_hash_of b ordered xs ys = do
  t₁ ← update_all (build_sketch b) xs
  t₂ ← update_all (build_sketch b) ys
  u₁ ← update seed_hash_of (build b) (of_table seed_hash_of t₁)
  u₂ ← update seed_hash_of u₁ (of_compact (compact seed_hash_of t₂ ordered))
  get_result seed_hash_of u₂ ordered

module _ (seed_hash_of : ℕ → ℕ) {b : Builder} (is : IsBuilder b) (le : b.p_theta ≤ max_theta) where
  pub table_seed_hash :
      {hashes : List ℕ} {t : Table} {X : HashSet} {u : Union}
      → Retains b hashes t
      → IsUnionOf b X u
      → seed_hash_of t.seed ≡ seed_hash_of u.table.seed
  table_seed_hash r of = ap seed_hash_of (r.seed ∙ sym of.settings.seed)

  -- For a builder with `lg_k` between 5 and 26, a resize factor up to 3 and a starting theta up to
  -- the maximum: two update sketches take two streams of hashes, a union takes the first sketch and
  -- the compact copy of the second, and `get_result` returns. No call stops. The result is a
  -- compact sketch of the hashes of both streams: each that is not 0 and below its theta occurs
  -- once, nothing else occurs, its entries are in order if it says so, and there are at most `2 ^
  -- lg_k` of them.
  pub union_streams-IsCompactOf :
      (ordered : Bool) (xs ys : List ℕ)
      → Returns
          (union_streams seed_hash_of b ordered xs ys)
          (λ c. IsCompactOf (set_of (xs ++ ys)) c × (length c.entries ≤ 2 ^ b.lg_k))
  unfolding union_streams of_table compact copy_compact of_compact
  union_streams-IsCompactOf ordered xs ys =
      let (t₁, run₁, r₁) = update_all-Retains b xs is in
      let (t₂, run₂, r₂) = update_all-Retains b ys is in
      let u₀ = build-IsUnionOf b is le in
      let (u₁, run₃, of₁) =
        update-IsUnionOf u₀ (of_table-IsSketchOf r₁ le seed_hash_of) seed_hash_of
          (λ _. table_seed_hash r₁ u₀) in
      let c = compact-IsCompactOf r₂ le seed_hash_of ordered in
      let (u₂, run₄, of₂) =
        update-IsUnionOf of₁ (of_compact-IsSketchOf c) seed_hash_of (λ _. table_seed_hash r₂ of₁) in
      let (result, run₅, of) = get_result-IsResultOf seed_hash_of of₂ ordered in
      (
        result,
        rw (run₁, run₂, run₃, run₄) run₅,
        (
          IsCompactOf-congr (both_streams xs ys) of.compact,
          omega (arith, of.nominal, ap (λ (lg : ℕ). 2 ^ lg) of₂.settings.nominal),
        ),
      )
