-- ===== src/Intersection/Load.antt =====
-- The tables that an intersection makes for a known number of keys.
use singlestoredb_extension.Base.{
  ℕ, ◌-◌, ◌^◌, ◌≤◌, ◌<◌, ◌≡◌, ◌≢◌, refl, Bool, false, List, ok, arith, ◌&&◌, length, lt→ltb,
}
use singlestoredb_extension.Base.Counts.{count, occupied, count-zeros, occupied-zeros}
use singlestoredb_extension.Base.Powers.{pow_pos}
use singlestoredb_extension.LgSize.{lg_size_from_count, Fits, lg_size_from_count-Fits, most_entries}
use singlestoredb_extension.Table.{Table, make_table}
use singlestoredb_extension.Table.Place.{empty-IsPlaced}
use singlestoredb_extension.Table.Fill.{HasRoom, get_capacity-large}
use singlestoredb_extension.Sketch.Sample.{HashSet, Samples}
use singlestoredb_extension.Intersection.{new_table, copy_entries, place_matches}
use singlestoredb_extension.Intersection.Fill.{fill-Fills}

abbrev pub both_sets : HashSet → HashSet → HashSet
both_sets X Y k = X k && Y k

-- The table holds the members of `X` below its theta, if it holds any it can look them up.
pub record Holds (X : HashSet) (t : Table) : Type 0 where
  pub samples : Samples X t.theta t.entries
  pub number : occupied t.entries ≡ t.num_entries
  pub room : t.num_entries ≢ 0 → HasRoom 0 t

-- A new table for `n` keys has room for them.
new-HasRoom :
    (n lg theta seed : ℕ) (e : Bool) → Fits n lg → HasRoom n (new_table lg (lg - 1) theta seed e)
unfolding make_table
new-HasRoom n lg theta seed e fits =
    let full = lt→ltb 0 lg (omega (arith, fits.least)) in
    record {
      placed = rw full (empty-IsPlaced lg fits.most);
      filled = rw full (occupied-zeros (2 ^ lg));
      room = omega (arith, get_capacity-large lg (lg - 1) (omega (arith, fits.least)), fits.room);
      spare = omega (arith, get_capacity-large lg (lg - 1) (omega (arith, fits.least)), pow_pos lg);
    }

-- A table for nothing.
pub no_table-Holds :
    (X : HashSet) (theta seed : ℕ) (e : Bool)
    → ((k : ℕ) → k ≢ 0 → k < theta → X k ≡ false)
    → Holds X (new_table 0 0 theta seed e)
unfolding make_table
no_table-Holds X theta seed e none_there = record {
  samples = λ k nz. ground (arith, none_there k nz);
  number = refl;
  room = λ h. absurd (h refl);
}

-- A table that holds the given keys, by either loop.
pub record Loaded (keys : List ℕ) (n theta seed : ℕ) (e : Bool) : Type 0 where
  pub t : Table
  pub run_copy :
      copy_entries keys (new_table (lg_size_from_count n) (lg_size_from_count n - 1) theta seed e)
      ≡ ok t
  pub run_place :
      place_matches keys (new_table (lg_size_from_count n) (lg_size_from_count n - 1) theta seed e)
      ≡ ok t
  pub counts : (k : ℕ) → k ≢ 0 → count k t.entries ≡ count k keys
  pub room : HasRoom 0 t
  pub number : t.num_entries ≡ n
  pub theta_same : t.theta ≡ theta
  pub seed_same : t.seed ≡ seed
  pub flag : t.is_empty ≡ e

load_all :
    (keys : List ℕ) (theta seed : ℕ) (e : Bool)
    → 0 < length keys
    → length keys ≤ most_entries
    → count 0 keys ≡ 0
    → ((k : ℕ) → k ≢ 0 → count k keys ≤ 1)
    → Loaded keys (length keys) theta seed e
load_all keys theta seed e pos few no_zero once =
    let lg = lg_size_from_count (length keys) in
    let fits = lg_size_from_count-Fits (length keys) pos few in
    let room = new-HasRoom (length keys) lg theta seed e fits in
    let fresh : (k : ℕ) → k ≢ 0 → count k (new_table lg (lg - 1) theta seed e).entries ≡ 0 = λ k nz.
      unfold make_table in
      rw (lt→ltb 0 lg (omega (arith, fits.least))) (count-zeros k (2 ^ lg) nz) in
    let f = fill-Fills keys room no_zero (λ k nz. omega (arith, once k nz, fresh k nz)) in
    record {
      t = _;
      run_copy = f.run_copy;
      run_place = f.run_place;
      counts = λ k nz. omega (arith, f.holds.counts k nz, fresh k nz);
      room = record {
        placed = f.holds.placed;
        filled = f.holds.filled;
        room = omega (arith, room.room);
        spare = room.spare;
      };
      number = unfold make_table in omega arith;
      theta_same = unfold make_table in refl;
      seed_same = unfold make_table in refl;
      flag = unfold make_table in refl;
    }

pub load :
    (keys : List ℕ) (n theta seed : ℕ) (e : Bool)
    → n ≡ length keys
    → 0 < n
    → n ≤ most_entries
    → count 0 keys ≡ 0
    → ((k : ℕ) → k ≢ 0 → count k keys ≤ 1)
    → Loaded keys n theta seed e
load keys n theta seed e same pos few no_zero once =
    rw same (load_all keys theta seed e (omega (arith, pos)) (omega (arith, few)) no_zero once)
