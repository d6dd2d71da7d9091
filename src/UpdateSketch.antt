-- ===== src/UpdateSketch.antt =====
-- The update sketch: `update_theta_sketch_alloc` of theta-sketch/theta_sketch.hpp and its _impl.hpp,
-- with the builder of theta-sketch/theta_update_sketch_base.hpp. The sketch is its table.
pub mod Build
pub mod Retains
pub mod Hashes
use singlestoredb_extension.Base.{
  ℕ, ◌+◌, ◌/◌, Bool, true, false, List, [], ◌∷◌, Outcome, ok, stop, invalid_arg, ◌>>=◌, ltb, ◌==◌,
  if◌then◌else◌, ◌&&◌, not,
}
use singlestoredb_extension.Table.{
  Table, max_theta, min_lg_k, max_lg_k, make_table, find, insert, screen, starting_sub_multiple,
}

-- `theta_base_builder`. `p_theta` stands for `starting_theta_from_p(p_)`.
pub record Builder : Type 0 where
  pub lg_k : ℕ
  pub rf : ℕ
  pub p_theta : ℕ
  pub seed : ℕ

abbrev pub default_lg_k : ℕ
default_lg_k = 12

abbrev pub default_seed : ℕ
default_seed = 9001

-- `DEFAULT_RESIZE_FACTOR` is `X8`, the fourth of the enumeration.
abbrev pub default_builder : Builder
default_builder = record { lg_k = default_lg_k; rf = 3; p_theta = max_theta; seed = default_seed }

pub set_lg_k : Builder → ℕ → Outcome Builder
set_lg_k b lg_k =
    if ltb lg_k min_lg_k
    then stop invalid_arg
    else if ltb max_lg_k lg_k
    then stop invalid_arg
    else ok (record b { lg_k = lg_k })

pub set_resize_factor : Builder → ℕ → Builder
set_resize_factor b rf = record b { rf = rf }

pub set_seed : Builder → ℕ → Builder
set_seed b seed = record b { seed = seed }

unfoldable pub starting_lg_size : Builder → ℕ
starting_lg_size b = starting_sub_multiple (b.lg_k + 1) min_lg_k b.rf

-- `builder::build`, of the sketch and of the union.
unfoldable pub build : Builder → Table
build b = make_table (starting_lg_size b) b.lg_k b.rf b.p_theta b.p_theta b.seed true

pub update_by_hash : Table → ℕ → Outcome Table
update_by_hash t raw =
    let (t', hash) = screen t raw in
    if hash == 0 then ok t' else do
      slot ← find t'.entries t'.lg_cur_size hash
      if slot.1 then ok t' else insert t' slot.0 hash

-- The first half of `MurmurHash3_x64_128`, which is third-party code: bytes and seed to 64 bits.
module _ (murmur : List ℕ → ℕ → ℕ) where
  unfoldable pub compute_hash : List ℕ → ℕ → ℕ
  compute_hash bytes seed = murmur bytes seed / 2

  unfoldable pub hash_and_screen : Table → List ℕ → Table × ℕ
  hash_and_screen t bytes = screen t (compute_hash bytes t.seed)

  unfoldable pub update : Table → List ℕ → Outcome Table
  update t bytes =
      let (t', hash) = hash_and_screen t bytes in
      if hash == 0 then ok t' else do
        slot ← find t'.entries t'.lg_cur_size hash
        if slot.1 then ok t' else insert t' slot.0 hash

-- A stream of updates.
unfoldable pub update_all : Table → List ℕ → Outcome Table
update_all t [] = ok t
update_all t (hash ∷ hashes) = do t' ← update_by_hash t hash; update_all t' hashes

unfoldable pub get_theta64 : Table → ℕ
get_theta64 t = if t.is_empty then max_theta else t.theta

unfoldable pub is_ordered : Table → Bool
is_ordered t = if ltb 1 t.num_entries then false else true

pub is_estimation_mode : Table → Bool
is_estimation_mode t = ltb (get_theta64 t) max_theta && not t.is_empty
