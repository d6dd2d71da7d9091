-- ===== src/Intersection.antt =====
-- The intersection: `theta_intersection_base` of theta-sketch/theta_intersection_base.hpp and its
-- _impl.hpp, which `theta_intersection_alloc` of theta-sketch/theta_intersection.hpp passes its calls
-- to. The policy does nothing.
pub mod Fill
pub mod Match
pub mod Load
pub mod Steps
pub mod Update
pub mod Result
pub mod Streams
use singlestoredb_extension.Base.{
  ℕ, ◌+◌, ◌-◌, ◌%◌, ◌^◌, Bool, true, false, List, [], ◌∷◌, Outcome, ok, stop, invalid_arg, ◌>>=◌,
  ltb, ◌==◌, if◌then◌else◌, ◌&&◌, ◌||◌, not, length, min,
}
use singlestoredb_extension.Base.Sorting.{sort}
use singlestoredb_extension.LgSize.{lg_size_from_count}
use singlestoredb_extension.Table.{Table, max_theta, make_table, find, insert}
use singlestoredb_extension.Sketch.{Sketch, CompactSketch, keys, make_compact}

pub record Intersection : Type 0 where
  pub is_valid : Bool
  pub table : Table

-- `hash_table(lg_cur, lg_nom, resize_factor::X1, 1, theta, seed, allocator, is_empty)`.
abbrev pub new_table : (lg_cur lg_nom theta seed : ℕ) → Bool → Table
new_table lg_cur lg_nom theta seed is_empty =
    make_table lg_cur lg_nom 0 max_theta theta seed is_empty

pub make : ℕ → Intersection
make seed = record { is_valid = false; table = new_table 0 0 max_theta seed false }

-- The loop of the first update, which copies the entries of the sketch.
pub copy_entries : List ℕ → Table → Outcome Table
copy_entries [] t = ok t
copy_entries (hash ∷ hashes) t = do
  slot ← find t.entries t.lg_cur_size hash
  if slot.1 then stop invalid_arg else insert t slot.0 hash >>= copy_entries hashes

-- The loop over the matches of a later update.
pub place_matches : List ℕ → Table → Outcome Table
place_matches [] t = ok t
place_matches (hash ∷ hashes) t = do
  slot ← find t.entries t.lg_cur_size hash
  insert t slot.0 hash >>= place_matches hashes

-- The loop that looks the entries of the sketch up: the matches, and `count` at its end.
pub match_entries :
    (t : Table) (is_ordered : Bool) (max_matches match_count count : ℕ)
    → List ℕ
    → Outcome (List ℕ × ℕ)
match_entries t is_ordered max_matches match_count count [] = ok ([], count)
match_entries t is_ordered max_matches match_count count (hash ∷ hashes) =
    let next = (count + 1) % 2 ^ 32 in
    elim (ltb hash t.theta) [
      | true ↦ do
        slot ← find t.entries t.lg_cur_size hash
        elim slot.1 [
          | true ↦
              (if match_count == max_matches then stop invalid_arg else (do
                rest ← match_entries t is_ordered max_matches (match_count + 1) next hashes
                ok (hash ∷ rest.0, rest.1)))
          | false ↦ match_entries t is_ordered max_matches match_count next hashes
        ]
      | false ↦ elim is_ordered [
        | true ↦ ok ([], count)
        | false ↦ match_entries t is_ordered max_matches match_count next hashes
      ]
    ]

-- The first update: the table is a copy of the sketch.
pub first_update : Table → Sketch → Outcome Intersection
first_update t s = do
  let lg_size = lg_size_from_count s.num_retained
  t' ← copy_entries s.entries (new_table lg_size (lg_size - 1) t.theta t.seed t.is_empty)
  if not (t'.num_entries == s.num_retained)
      then stop invalid_arg
      else ok (record { is_valid = true; table = t' })

-- The table after the loop over the sketch, from its matches.
pub keep_matches : Table → List ℕ → Outcome Table
keep_matches t matched =
    if length matched == 0
    then ok (new_table 0 0 t.theta t.seed (t.is_empty || t.theta == max_theta))
    else let lg_size = lg_size_from_count (length matched) in
      place_matches matched (new_table lg_size (lg_size - 1) t.theta t.seed t.is_empty)

pub next_update : Table → Sketch → Outcome Intersection
next_update t s = do
  let max_matches = min t.num_entries s.num_retained
  matched ← match_entries t s.is_ordered max_matches 0 0 s.entries
  t' ←
      (if ltb s.num_retained matched.1
        then stop invalid_arg
        else if not s.is_ordered && ltb matched.1 s.num_retained
        then stop invalid_arg
        else keep_matches t matched.0)
  ok (record { is_valid = true; table = t' })

-- `compute_seed_hash` of common/MurmurHash3.h, which is third-party code, is a parameter.
module _ (seed_hash_of : ℕ → ℕ) where
  pub update : Intersection → Sketch → Outcome Intersection
  update i s =
      let is_empty = i.table.is_empty || s.is_empty in
      let theta = if is_empty then max_theta else min i.table.theta s.theta in
      let t = record i.table { is_empty = is_empty; theta = theta } in
      if i.table.is_empty
      then ok i
      else if not s.is_empty && not (s.seed_hash == seed_hash_of i.table.seed)
      then stop invalid_arg
      else if i.is_valid && t.num_entries == 0
      then ok (record i { table = t })
      else if s.num_retained == 0
      then ok (record { is_valid = true; table = new_table 0 0 theta t.seed is_empty })
      else if not i.is_valid
      then first_update t s
      else next_update t s

  pub get_result : Intersection → Bool → Outcome CompactSketch
  get_result i ordered =
      let t = i.table in
      let kept = if ltb 0 t.num_entries then keys t.entries else [] in
      let entries = if ltb 0 t.num_entries && ordered then sort kept else kept in
      if not i.is_valid
      then stop invalid_arg
      else ok (make_compact t.is_empty ordered (seed_hash_of t.seed) t.theta entries)
