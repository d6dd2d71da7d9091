-- ===== src/Tests/Tables.antt =====
-- Tables with the keys that the tests use.
use singlestoredb_extension.Base.{
  ℕ, ◌≤◌, ◌≡◌, ◌≢◌, refl, false, List, [], ◌∷◌, ◌++◌, ok, arith, replicate, length,
  length-replicate,
}
use singlestoredb_extension.Base.Counts.{count, occupied, count-zeros, occupied-zeros}
use singlestoredb_extension.Table.{Table, max_theta, move_entries, table_code}
use singlestoredb_extension.Table.Place.{Joined, Miss, move_entries-Joined, empty-IsPlaced}
use singlestoredb_extension.Table.Insert.{IsTable}

-- An array of 32 slots with the keys, by the loop of `resize`.
pub placed_keys :
    (old entries : List ℕ)
    → move_entries 5 (length old) old (replicate 32 0) ≡ ok entries
    → ((j : ℕ) → j ≢ 0 → count j old ≤ 1)
    → occupied old ≤ 32
    → Joined 5 old (replicate 32 0) entries
placed_keys old entries run once few =
    let (r, run', j) =
      move_entries-Joined 5 old (replicate 32 0) (empty-IsPlaced 5 (omega arith))
        (λ j nz. omega (arith, once j nz, count-zeros j 32 nz))
        (omega (arith, few, occupied-zeros 32, length-replicate {A = ℕ} 32 0)) in
    let same : r ≡ entries = cc (run', run) in rw same at j

-- 5 and 69 start at slot 5; 69 goes on to slot 10.
abbrev pub two_keys : List ℕ
two_keys = 0 ∷ 0 ∷ 0 ∷ 0 ∷ 0 ∷ 5 ∷ 0 ∷ 0 ∷ 0 ∷ 0 ∷ 69 ∷ 0 ∷ 0 ∷ 0 ∷ 0 ∷ 0 ∷ replicate 16 0

pub two_keys-Joined : Joined 5 (5 ∷ 69 ∷ []) (replicate 32 0) two_keys
two_keys-Joined =
    placed_keys (5 ∷ 69 ∷ []) two_keys (unfold table_code in refl) (λ j nz. ground arith)
      (omega arith)

abbrev pub two_table : Table
two_table = record {
  is_empty = false;
  lg_cur_size = 5;
  lg_nom_size = 5;
  rf = 1;
  p_theta = max_theta;
  num_entries = 2;
  theta = max_theta;
  seed = 9001;
  entries = two_keys;
}

pub two_table-IsTable : IsTable two_table
unfolding replicate
two_table-IsTable = record {
  shape = record {
    least = omega arith;
    most = omega arith;
    nominal = omega arith;
    factor = omega arith;
    grows = λ _. omega arith;
  };
  placed = two_keys-Joined.placed;
  filled = refl;
  room = unfold table_code in omega arith;
  below = λ k nz there. ground (arith, two_keys-Joined.counts k nz, count-zeros k 32 nz);
}

-- 37 starts at slot 5 too, and with the stride 3 it goes on to slot 8.
unfoldable pub two_keys-Miss : Miss 5 two_keys 37
unfolding replicate table_code
two_keys-Miss = record { slot = 8; run = refl; inside = omega arith; empty = refl; absent = refl }

-- 17 keys in order, one over the nominal 16.
abbrev pub many_keys : List ℕ
many_keys = 1 ∷ 2 ∷ 3 ∷ 4 ∷ 5 ∷ 6 ∷ 7 ∷ 8 ∷ 9 ∷ 10 ∷ 11 ∷ 12 ∷ 13 ∷ 14 ∷ 15 ∷ 16 ∷ 17 ∷ []

abbrev pub many_entries : List ℕ
many_entries = 0 ∷ many_keys ++ replicate 14 0

pub many_keys-Joined : Joined 5 many_keys (replicate 32 0) many_entries
many_keys-Joined =
    placed_keys many_keys many_entries (unfold table_code in refl) (λ j nz. ground arith)
      (omega arith)

abbrev pub many_table : Table
many_table = record {
  is_empty = false;
  lg_cur_size = 5;
  lg_nom_size = 4;
  rf = 0;
  p_theta = max_theta;
  num_entries = 17;
  theta = max_theta;
  seed = 9001;
  entries = many_entries;
}

pub many_table-IsTable : IsTable many_table
unfolding replicate
many_table-IsTable = record {
  shape = record {
    least = omega arith;
    most = omega arith;
    nominal = omega arith;
    factor = omega arith;
    grows = λ h. absurd (omega arith);
  };
  placed = many_keys-Joined.placed;
  filled = refl;
  room = unfold table_code in omega arith;
  below = λ k nz there. ground (arith, many_keys-Joined.counts k nz, count-zeros k 32 nz);
}

-- A stream that leaves the two keys.
abbrev pub first_stream : List ℕ
first_stream = 5 ∷ 69 ∷ 5 ∷ 0 ∷ []
