-- ===== src/Sketch/Sample.antt =====
-- What a sketch says of a set of hashes: it holds the members below its theta, each of them once.
use singlestoredb_extension.Base.{
  ℕ, ◌≡◌, ◌≢◌, ◌<◌, ◌≤◌, Bool, true, false, List, ◌&&◌, ltb, if◌then◌else◌, length,
}
use singlestoredb_extension.Base.Counts.{count}
use singlestoredb_extension.Base.Sorting.{IsSorted}
use singlestoredb_extension.Table.{max_theta}
use singlestoredb_extension.Sketch.{Sketch, CompactSketch}

-- A set of hashes.
abbrev pub HashSet : Type 0
HashSet = ℕ → Bool

-- The set of the hashes in a list.
abbrev pub set_of : List ℕ → HashSet
set_of hashes k = ltb 0 (count k hashes)

abbrev pub Samples : HashSet → ℕ → List ℕ → Type 0
Samples X theta entries = (k : ℕ) → k ≢ 0 → count k entries ≡ (if ltb k theta && X k then 1 else 0)

-- No hash that can be kept is in the set.
abbrev pub IsVoid : HashSet → Type 0
IsVoid X = (k : ℕ) → k ≢ 0 → k < max_theta → X k ≡ false

-- The sketch is a sample of the set.
pub record IsSketchOf (X : HashSet) (s : Sketch) : Type 0 where
  pub no_zero : count 0 s.entries ≡ 0
  pub samples : Samples X s.theta s.entries
  pub sorted : s.is_ordered ≡ true → IsSorted s.entries
  pub void : s.is_empty ≡ true → IsVoid X
  pub bounded : s.theta ≤ max_theta
  pub number : s.num_retained ≡ length s.entries

pub record IsCompactOf (X : HashSet) (c : CompactSketch) : Type 0 where
  pub no_zero : count 0 c.entries ≡ 0
  pub samples : Samples X c.theta c.entries
  pub sorted : c.is_ordered ≡ true → IsSorted c.entries
  pub void : c.is_empty ≡ true → IsVoid X
  pub bounded : c.theta ≤ max_theta
