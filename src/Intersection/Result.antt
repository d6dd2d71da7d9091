-- ===== src/Intersection/Result.antt =====
-- `get_result` gives a compact sample of the set of the intersection.
use singlestoredb_extension.Base.{
  ℕ, ◌≡◌, ◌≢◌, ◌∙◌, Bool, true, false, List, [], stop, invalid_arg, Returns, arith, ltb,
  if◌then◌else◌, ◌&&◌, Bool-cases, inl, inr, ◌⊎◌,
}
use singlestoredb_extension.Base.Counts.{count, count_of_empty}
use singlestoredb_extension.Base.Sorting.{IsSorted, sort, count-sort, sort-IsSorted}
use singlestoredb_extension.Table.{Table}
use singlestoredb_extension.Sketch.{keys, make_compact}
use singlestoredb_extension.Sketch.Keys.{count-keys, count-keys_zero}
use singlestoredb_extension.Sketch.Compact.{make_compact-IsCompactOf}
use singlestoredb_extension.Sketch.Sample.{HashSet, IsCompactOf}
use singlestoredb_extension.Intersection.{Intersection, get_result}
use singlestoredb_extension.Intersection.Load.{Holds}
use singlestoredb_extension.Intersection.Steps.{IsIntersectionOf}

-- The entries that `get_result` takes from the table.
abbrev taken_entries : Table → Bool → List ℕ
taken_entries t ordered =
    let kept = if ltb 0 t.num_entries then keys t.entries else [] in
    if ltb 0 t.num_entries && ordered then sort kept else kept

count-taken :
    {X : HashSet} (t : Table) (ordered : Bool) (k : ℕ)
    → Holds X t
    → k ≢ 0
    → count k (taken_entries t ordered) ≡ count k t.entries
count-taken t ordered k h nz = ground (
  arith,
  count-keys k t.entries nz,
  count-sort k (keys t.entries),
  h.number,
  count_of_empty k t.entries nz,
)

count-taken_zero : (t : Table) (ordered : Bool) → count 0 (taken_entries t ordered) ≡ 0
count-taken_zero t ordered =
    ground (arith, count-keys_zero t.entries, count-sort 0 (keys t.entries))

taken-IsSorted : (t : Table) (ordered : Bool) → ordered ≡ true → IsSorted (taken_entries t ordered)
taken-IsSorted t ordered o = elim (Bool-cases (ltb 0 t.num_entries)) [
  | inl e ↦ rw (e, o) (sort-IsSorted (keys t.entries))
  | inr e ↦ rw e tt
]

-- For an intersection that samples `X`: before the first update `get_result` stops with an invalid
-- argument; after it, it returns a compact sample of `X`.
pub get_result-IsCompactOf :
    (seed_hash_of : ℕ → ℕ) {seed : ℕ} {X : HashSet} {i : Intersection} (ordered : Bool)
    → IsIntersectionOf seed X i
    → (i.is_valid ≡ false) × (get_result seed_hash_of i ordered ≡ stop invalid_arg)
      ⊎ (i.is_valid ≡ true) × Returns (get_result seed_hash_of i ordered) (IsCompactOf X)
unfolding get_result
get_result-IsCompactOf seed_hash_of {i = i} ordered of = elim (Bool-cases i.is_valid) [
  | inr v ↦ inl (v, rw v)
  | inl v ↦
      let held = of.holds v in
      inr (
        v,
        (
          make_compact i.table.is_empty ordered (seed_hash_of i.table.seed) i.table.theta
              (taken_entries i.table ordered),
          rw v,
          make_compact-IsCompactOf i.table.is_empty ordered (seed_hash_of i.table.seed)
              i.table.theta (taken_entries i.table ordered) (count-taken_zero i.table ordered)
              (λ k nz. count-taken i.table ordered k held nz ∙ held.samples k nz)
              (taken-IsSorted i.table ordered) of.void of.bounded,
        ),
      )
]
