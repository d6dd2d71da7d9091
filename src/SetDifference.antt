-- ===== src/SetDifference.antt =====
-- The set difference: `theta_set_difference_base::compute` of
-- theta-sketch/theta_set_difference_base_impl.hpp, which `theta_a_not_b_alloc` of
-- theta-sketch/theta_a_not_b.hpp passes its calls to.
pub mod Merge
pub mod Hash
pub mod Missing
pub mod Compute
use singlestoredb_extension.Base.{
  ℕ, Bool, true, false, List, [], ◌∷◌, Outcome, ok, stop, invalid_arg, ◌>>=◌, ltb, ◌==◌,
  if◌then◌else◌, ◌&&◌, ◌||◌, not, length, min,
}
use singlestoredb_extension.Base.Sorting.{sort}
use singlestoredb_extension.LgSize.{lg_size_from_count}
use singlestoredb_extension.Table.{Table, max_theta, make_table, find, insert}
use singlestoredb_extension.Sketch.{Sketch, CompactSketch, make_compact, copy_compact}

-- The keys that `key_less_than` lets through.
unfoldable pub less_than : ℕ → List ℕ → List ℕ
less_than theta [] = []
less_than theta (x ∷ xs) = if ltb x theta then x ∷ less_than theta xs else less_than theta xs

-- The elements of an ordered list from `x` on.
unfoldable pub skip_below : ℕ → List ℕ → List ℕ
skip_below x [] = []
skip_below x (y ∷ ys) = if ltb y x then skip_below x ys else y ∷ ys

-- One step of `std::set_difference`: what is left of the second list at `x`, and whether `x` goes.
unfoldable pub take_equal : ℕ → List ℕ → Bool × List ℕ
take_equal x [] = (false, [])
take_equal x (y ∷ ys) = if y == x then (true, ys) else (false, y ∷ ys)

-- `std::set_difference` of two ordered lists.
unfoldable pub set_difference : List ℕ → List ℕ → List ℕ
unfolding take_equal skip_below
set_difference [] ys = []
set_difference (x ∷ xs) ys =
    let (gone, rest) = take_equal x (skip_below x ys) in
    if gone then set_difference xs rest else x ∷ set_difference xs rest

-- The loop that puts the entries of the second sketch into a table.
pub hash_entries : (theta : ℕ) (is_ordered : Bool) → List ℕ → Table → Outcome Table
hash_entries theta is_ordered [] t = ok t
hash_entries theta is_ordered (hash ∷ hashes) t = elim (ltb hash theta) [
  | true ↦ do
    slot ← find t.entries t.lg_cur_size hash
    insert t slot.0 hash >>= hash_entries theta is_ordered hashes
  | false ↦ elim is_ordered [ true ↦ ok t | false ↦ hash_entries theta is_ordered hashes t ]
]

-- The loop that looks the entries of the first sketch up.
pub missing_entries : Table → (theta : ℕ) (is_ordered : Bool) → List ℕ → Outcome (List ℕ)
missing_entries t theta is_ordered [] = ok []
missing_entries t theta is_ordered (hash ∷ hashes) = elim (ltb hash theta) [
  | true ↦ do
    slot ← find t.entries t.lg_cur_size hash
    rest ← missing_entries t theta is_ordered hashes
    if slot.1 then ok rest else ok (hash ∷ rest)
  | false ↦ elim is_ordered [ true ↦ ok [] | false ↦ missing_entries t theta is_ordered hashes ]
]

-- The entries of the result, before they are put in order.
pub difference_entries : (theta : ℕ) (a b : Sketch) → Outcome (List ℕ)
difference_entries theta a b =
    if b.num_retained == 0
    then ok (less_than theta a.entries)
    else if a.is_ordered && b.is_ordered
    then ok (less_than theta (set_difference a.entries b.entries))
    else do
      let lg_size = lg_size_from_count b.num_retained
      t ←
          hash_entries theta b.is_ordered b.entries
            (make_table lg_size lg_size 0 max_theta 0 0 true)
      missing_entries t theta a.is_ordered a.entries

-- `seed_hash` is `compute_seed_hash` of the seed, as the constructor stores it.
pub compute : (seed_hash : ℕ) (a b : Sketch) → Bool → Outcome CompactSketch
compute seed_hash a b ordered =
    let theta = min a.theta b.theta in
    if a.is_empty || ltb 0 a.num_retained && b.is_empty
    then ok (copy_compact a ordered)
    else if not (a.seed_hash == seed_hash)
    then stop invalid_arg
    else if not (b.seed_hash == seed_hash)
    then stop invalid_arg
    else do
      entries ← difference_entries theta a b
      let is_empty = a.is_empty || length entries == 0 && theta == max_theta
      ok (
          make_compact is_empty (a.is_ordered || ordered) seed_hash theta
            (if ordered && not a.is_ordered then sort entries else entries))
