-- ===== src/Intersection/Streams.antt =====
-- Two update sketches and an intersection: the result samples the hashes that both streams have.
use singlestoredb_extension.Base.{
  ℕ, ◌≤◌, ◌≡◌, sym, ◌∙◌, ap, Bool, true, List, Outcome, ◌>>=◌, Returns, arith, inl, inr,
}
use singlestoredb_extension.LgSize.{most_entries}
use singlestoredb_extension.Table.{Table, max_theta}
use singlestoredb_extension.Table.Shape.{capacity-most}
use singlestoredb_extension.UpdateSketch.{Builder, build, update_all}
use singlestoredb_extension.UpdateSketch.Build.{IsBuilder}
use singlestoredb_extension.UpdateSketch.Retains.{Retains, update_all-Retains}
use singlestoredb_extension.Sketch.{CompactSketch, of_table}
use singlestoredb_extension.Sketch.Sample.{HashSet, set_of, IsCompactOf}
use singlestoredb_extension.Sketch.Streams.{of_table-IsSketchOf}
use singlestoredb_extension.Intersection.{Intersection, make, update, get_result}
use singlestoredb_extension.Intersection.Load.{both_sets}
use singlestoredb_extension.Intersection.Steps.{IsIntersectionOf, make-IsIntersectionOf}
use singlestoredb_extension.Intersection.Update.{update-IsIntersectionOf}
use singlestoredb_extension.Intersection.Result.{get_result-IsCompactOf}

-- The intersection of two update sketches, each made from a stream.
pub intersect_streams :
    (seed_hash_of : ℕ → ℕ) (b : Builder) (ordered : Bool) (xs ys : List ℕ) → Outcome CompactSketch
intersect_streams seed_hash_of b ordered xs ys = do
  t₁ ← update_all (build b) xs
  t₂ ← update_all (build b) ys
  i₁ ← update seed_hash_of (make b.seed) (of_table seed_hash_of t₁)
  i₂ ← update seed_hash_of i₁ (of_table seed_hash_of t₂)
  get_result seed_hash_of i₂ ordered

module _ (seed_hash_of : ℕ → ℕ) {b : Builder} {hashes : List ℕ} {t : Table}
    (r : Retains b hashes t) where
  few : (of_table seed_hash_of t).num_retained ≤ most_entries
  unfolding of_table
  few = omega (arith, r.table.room, capacity-most r.table.shape)

  same_seed :
      {X : HashSet} {i : Intersection}
      → IsIntersectionOf b.seed X i
      → (of_table seed_hash_of t).seed_hash ≡ seed_hash_of i.table.seed
  unfolding of_table
  same_seed of = ap seed_hash_of (r.seed ∙ sym of.seed_same)

-- After an update there is a result.
result_of :
    (seed_hash_of : ℕ → ℕ) {seed : ℕ} {X : HashSet} {i : Intersection} (ordered : Bool)
    → IsIntersectionOf seed X i
    → i.is_valid ≡ true
    → Returns (get_result seed_hash_of i ordered) (IsCompactOf X)
result_of seed_hash_of ordered of v = elim (get_result-IsCompactOf seed_hash_of ordered of) [
  | inl (not_valid, stopped) ↦ absurd (cc (sym v ∙ not_valid))
  | inr (_, result) ↦ result
]

-- For a builder with `lg_k` between 5 and 26, a resize factor up to 3 and a starting theta up to
-- the maximum: two update sketches take two streams of hashes, a new intersection with the same
-- seed takes both sketches, and `get_result` returns. No call stops. The result is a compact sketch
-- of the hashes that occur in both streams: each of them that is not 0 and below its theta occurs
-- once, nothing else occurs, and its entries are in order if it says so.
pub intersect_streams-IsCompactOf :
    (seed_hash_of : ℕ → ℕ) (b : Builder) (ordered : Bool) (xs ys : List ℕ)
    → IsBuilder b
    → b.p_theta ≤ max_theta
    → Returns
        (intersect_streams seed_hash_of b ordered xs ys)
        (IsCompactOf (both_sets (set_of xs) (set_of ys)))
unfolding intersect_streams
intersect_streams-IsCompactOf seed_hash_of b ordered xs ys is le =
    let (t₁, run₁, r₁) = update_all-Retains b xs is in
    let (t₂, run₂, r₂) = update_all-Retains b ys is in
    let i₀ = make-IsIntersectionOf b.seed in
    let (i₁, run₃, (of₁, v₁)) =
      update-IsIntersectionOf i₀ (of_table-IsSketchOf r₁ le seed_hash_of) seed_hash_of
        (few seed_hash_of r₁) (λ _. same_seed seed_hash_of r₁ i₀) in
    let (i₂, run₄, (of₂, v₂)) =
      update-IsIntersectionOf of₁ (of_table-IsSketchOf r₂ le seed_hash_of) seed_hash_of
        (few seed_hash_of r₂) (λ _. same_seed seed_hash_of r₂ of₁) in
    let (result, run₅, of) = result_of seed_hash_of ordered of₂ v₂ in
    (result, rw (run₁, run₂, run₃, run₄) run₅, of)
