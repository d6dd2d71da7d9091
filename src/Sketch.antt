-- ===== src/Sketch.antt =====
-- Sketches as the set operations read them, and the compact sketch: `compact_theta_sketch_alloc` of
-- theta-sketch/theta_sketch.hpp and its _impl.hpp.
pub mod Sample
pub mod Keys
pub mod Compact
pub mod Streams
use singlestoredb_extension.Base.{
  ℕ, ◌^◌, Bool, true, false, List, [], ◌∷◌, ◌||◌, not, ◌&&◌, ltb, leb, ◌==◌, if◌then◌else◌, length,
}
use singlestoredb_extension.Base.Sorting.{sort}
use singlestoredb_extension.Table.{Table, max_theta}
use singlestoredb_extension.UpdateSketch.{get_theta64, is_ordered}

-- The members that a set operation calls on its argument, of whichever class it is. `entries` is
-- what its iterator goes through.
pub record Sketch : Type 0 where
  pub is_empty : Bool
  pub is_ordered : Bool
  pub seed_hash : ℕ
  pub theta : ℕ
  pub num_retained : ℕ
  pub entries : List ℕ

pub record CompactSketch : Type 0 where
  pub is_empty : Bool
  pub is_ordered : Bool
  pub seed_hash : ℕ
  pub theta : ℕ
  pub entries : List ℕ

-- The iterators `theta_iterator` and `theta_const_iterator` pass over empty slots.
unfoldable pub keys : List ℕ → List ℕ
keys [] = []
keys (x ∷ xs) = if x == 0 then keys xs else x ∷ keys xs

-- The constructor of a compact sketch from its parts.
unfoldable pub make_compact :
    (is_empty is_ordered : Bool) (seed_hash theta : ℕ) → List ℕ → CompactSketch
make_compact is_empty is_ordered seed_hash theta entries = record {
  is_empty = is_empty;
  is_ordered = is_ordered || leb (length entries) 1;
  seed_hash = seed_hash;
  theta = theta;
  entries = entries;
}

-- The body of the constructor of a compact sketch from another sketch.
abbrev pub copied_entries : (is_empty ordered is_ordered : Bool) → List ℕ → List ℕ
copied_entries is_empty ordered is_ordered entries =
    if is_empty then [] else if ordered && not is_ordered then sort entries else entries

unfoldable pub copy_compact : Sketch → Bool → CompactSketch
copy_compact other ordered = record {
  is_empty = other.is_empty;
  is_ordered = other.is_ordered || ordered;
  seed_hash = other.seed_hash;
  theta = other.theta;
  entries = copied_entries other.is_empty ordered other.is_ordered other.entries;
}

unfoldable pub of_compact : CompactSketch → Sketch
of_compact c = record {
  is_empty = c.is_empty;
  is_ordered = c.is_ordered;
  seed_hash = c.seed_hash;
  theta = c.theta;
  num_retained = length c.entries;
  entries = keys c.entries;
}

-- `compute_seed_hash` of common/MurmurHash3.h, which is third-party code, is a parameter.
module _ (seed_hash_of : ℕ → ℕ) where
  unfoldable pub of_table : Table → Sketch
  of_table t = record {
    is_empty = t.is_empty;
    is_ordered = is_ordered t;
    seed_hash = seed_hash_of t.seed;
    theta = get_theta64 t;
    num_retained = t.num_entries;
    entries = keys t.entries;
  }

  -- `update_theta_sketch::compact`.
  unfoldable pub compact : Table → Bool → CompactSketch
  compact t ordered = copy_compact (of_table t) ordered
