-- ===== src/Table/Start.antt =====
-- Empty tables at a starting size: the constructor, and `reset`, which gives the constructor's table.
use singlestoredb_extension.Base.{
  ℕ, ◌+◌, ◌^◌, ◌≤◌, ◌≡◌, ◌≢◌, refl, Bool, arith, replicate, lt→ltb, ltb, Bool-cases, inl, inr, List,
  [], ◌∷◌, ok, length, true, not, if◌then◌else◌, ◌==◌, ==_self, ne→==, eq-cases,
}
use singlestoredb_extension.Base.Counts.{count, count-zeros, occupied-zeros}
use singlestoredb_extension.Table.{
  Table, make_table, starting_sub_multiple, min_lg_k, clear_entries, reset,
}
use singlestoredb_extension.Table.Shape.{IsShaped}
use singlestoredb_extension.Table.Insert.{IsTable}
use singlestoredb_extension.Table.Place.{empty-IsPlaced}

-- The starting size fits the nominal size; a table that cannot grow starts at its full size.
pub starting-IsShaped :
    (lg_k rf : ℕ)
    → 5 ≤ lg_k
    → lg_k ≤ 26
    → rf ≤ 3
    → IsShaped (starting_sub_multiple (lg_k + 1) 5 rf) lg_k rf
unfolding starting_sub_multiple
starting-IsShaped lg_k rf lo hi f = ground arith

-- A table without keys.
pub empty-IsTable :
    (t : Table)
    → IsShaped t.lg_cur_size t.lg_nom_size t.rf
    → t.entries ≡ replicate (2 ^ t.lg_cur_size) 0
    → t.num_entries ≡ 0
    → IsTable t
empty-IsTable t shape e none_in = record {
  shape = shape;
  placed = rw e (empty-IsPlaced t.lg_cur_size (omega (arith, shape.most, shape.nominal)));
  filled = rw e (omega (arith, occupied-zeros (2 ^ t.lg_cur_size)));
  room = omega arith;
  below = λ k nz there. absurd (omega (arith, count-zeros k (2 ^ t.lg_cur_size) nz, rw e at there));
}

-- The constructor's table, as far as its settings go.
pub make_table-count :
    (lg_cur lg_nom rf p_theta theta seed : ℕ) (is_empty : Bool) (k : ℕ)
    → k ≢ 0
    → count k (make_table lg_cur lg_nom rf p_theta theta seed is_empty).entries ≡ 0
unfolding make_table
make_table-count lg_cur lg_nom rf p_theta theta seed is_empty k nz =
    elim (Bool-cases (ltb 0 lg_cur)) [ inl e ↦ rw e (count-zeros k (2 ^ lg_cur) nz) | inr e ↦ rw e ]

pub make_table-IsTable :
    (lg_cur lg_nom rf p_theta theta seed : ℕ) (is_empty : Bool)
    → IsShaped lg_cur lg_nom rf
    → IsTable (make_table lg_cur lg_nom rf p_theta theta seed is_empty)
unfolding make_table
make_table-IsTable lg_cur lg_nom rf p_theta theta seed is_empty shape =
    empty-IsTable _ shape (rw (lt→ltb 0 lg_cur (omega (arith, shape.least)))) refl

clear_entries_zeros :
    (entries : List ℕ) → clear_entries (length entries) entries ≡ ok (replicate (length entries) 0)
unfolding clear_entries replicate
clear_entries_zeros [] = refl
clear_entries_zeros (key ∷ entries) = rw (clear_entries_zeros entries)

-- Cleared or made anew, the array has every slot empty.
zeros_either :
    (lg lg' : ℕ)
    → (if not (lg == lg') then replicate {A = ℕ} (2 ^ lg) 0 else replicate (2 ^ lg') 0)
      ≡ replicate (2 ^ lg) 0
zeros_either lg lg' = elim (eq-cases lg lg') [
  | inl same ↦ rw (same, ==_self)
  | inr other ↦ rw (ne→== _ _ other)
]

-- `reset` gives the table that the constructor makes at the starting size and theta.
pub reset-make_table :
    (t : Table)
    → IsTable t
    → 5 ≤ t.lg_nom_size
    → reset t
      ≡ ok (
          make_table
            (starting_sub_multiple (t.lg_nom_size + 1) min_lg_k t.rf)
            t.lg_nom_size
            t.rf
            t.p_theta
            t.p_theta
            t.seed
            true)
unfolding reset make_table
reset-make_table t is lo =
    let starting = starting_sub_multiple (t.lg_nom_size + 1) min_lg_k t.rf in
    let shape = starting-IsShaped t.lg_nom_size t.rf lo is.shape.nominal is.shape.factor in
    let cleared : clear_entries (2 ^ t.lg_cur_size) t.entries
        ≡ ok (replicate (2 ^ t.lg_cur_size) 0) =
      rw (← is.placed.width) (clear_entries_zeros t.entries) in
    rw (cleared, zeros_either, lt→ltb 0 starting (omega (arith, shape.least)))
