-- ===== src/Table/Fill.antt =====
-- Tables that are made for a known number of keys and filled without growth.
use singlestoredb_extension.Base.{
  ℕ, suc, ◌+◌, ◌*◌, ◌/◌, ◌%◌, ◌^◌, ◌≤◌, ◌<◌, ◌≡◌, ◌≢◌, ◌⊎◌, false, ok, List, arith, set, length,
  ltb, le→ltb, lt→ltb, le→leb, true, leb, inl, inr, lt→leb,
}
use singlestoredb_extension.Base.Counts.{count, occupied}
use singlestoredb_extension.Base.Powers.{pow_mono}
use singlestoredb_extension.Table.{Table, get_capacity, insert, resize}
use singlestoredb_extension.Table.Place.{IsPlaced, Hit, Miss, Added, find-cases, set-Added}

-- An insertion that stays within the capacity only writes and counts.
pub insert_within :
    (t : Table) (slot k : ℕ)
    → t.num_entries + 1 ≤ get_capacity t.lg_cur_size t.lg_nom_size
    → t.num_entries + 1 < 2 ^ 32
    → insert t slot k
      ≡ ok (record t { entries = set t.entries slot k; num_entries = t.num_entries + 1 })
unfolding insert
insert_within t slot k room small =
    let number : (t.num_entries + 1) % 2 ^ 32 ≡ t.num_entries + 1 = omega arith in
    let fits : ltb (get_capacity t.lg_cur_size t.lg_nom_size) (t.num_entries + 1) ≡ false =
      le→ltb _ _ room in
    rw (number, fits)

-- An insertion past the capacity of an array that is not larger than the nominal size.
pub insert_over :
    (t : Table) (slot k : ℕ)
    → get_capacity t.lg_cur_size t.lg_nom_size < t.num_entries + 1
    → t.lg_cur_size ≤ t.lg_nom_size
    → t.num_entries + 1 < 2 ^ 32
    → insert t slot k
      ≡ resize (record t { entries = set t.entries slot k; num_entries = t.num_entries + 1 })
unfolding insert
insert_over t slot k over grows small =
    let number : (t.num_entries + 1) % 2 ^ 32 ≡ t.num_entries + 1 = omega arith in
    let is_over : ltb (get_capacity t.lg_cur_size t.lg_nom_size) (t.num_entries + 1) ≡ true =
      lt→ltb _ _ over in
    let is_small : leb t.lg_cur_size t.lg_nom_size ≡ true = le→leb _ _ grows in
    rw (number, is_over, is_small)

-- The capacity of a table whose array is larger than the nominal size.
pub get_capacity-large :
    (lg_cur lg_nom : ℕ) → lg_nom < lg_cur → get_capacity lg_cur lg_nom ≡ 15 * 2 ^ lg_cur / 16
unfolding get_capacity
get_capacity-large lg_cur lg_nom lt = rw (lt→leb lg_cur lg_nom lt)

-- A table in which every key is found, with room for `more` keys and an empty slot.
pub record HasRoom (more : ℕ) (t : Table) : Type 0 where
  pub placed : IsPlaced t.lg_cur_size t.entries
  pub filled : occupied t.entries ≡ t.num_entries
  pub room : t.num_entries + more ≤ get_capacity t.lg_cur_size t.lg_nom_size
  pub spare : get_capacity t.lg_cur_size t.lg_nom_size < 2 ^ t.lg_cur_size

-- The table with its array and its counter replaced.
abbrev pub with_entries : Table → List ℕ → ℕ → Table
with_entries t entries num = record t { entries = entries; num_entries = num }

module _ {more : ℕ} {t : Table} (h : HasRoom more t) where
  -- The keys can be looked up.
  pub HasRoom-find :
      (k : ℕ) → k ≢ 0 → Hit t.lg_cur_size t.entries k ⊎ Miss t.lg_cur_size t.entries k
  HasRoom-find k nz =
      find-cases h.placed k nz (omega (arith, h.filled, h.room, h.spare, h.placed.width))

  size_bound : 2 ^ t.lg_cur_size ≤ 2 ^ 27
  size_bound = pow_mono t.lg_cur_size 27 h.placed.small

-- The step of a filling loop: the new key, and room for one key less.
pub record Step (k more : ℕ) (t : Table) : Type 0 where
  pub miss : Miss t.lg_cur_size t.entries k
  pub run :
      insert t miss.slot k ≡ ok (with_entries t (set t.entries miss.slot k) (t.num_entries + 1))
  pub room : HasRoom more (with_entries t (set t.entries miss.slot k) (t.num_entries + 1))
  pub added : Added t.lg_cur_size k t.entries (set t.entries miss.slot k)

pub HasRoom-Step :
    {more : ℕ} {t : Table} (k : ℕ)
    → HasRoom (suc more) t
    → k ≢ 0
    → count k t.entries ≡ 0
    → Step k more t
HasRoom-Step {t = t} k h nz absent = elim (HasRoom-find h k nz) [
  | inl there ↦ absurd (omega (arith, there.present))
  | inr m ↦
      let added = set-Added h.placed nz m in
      record {
        miss = m;
        run =
            insert_within t m.slot k (omega (arith, h.room))
              (omega (arith, h.room, h.spare, size_bound h));
        room = record {
          placed = added.placed;
          filled = omega (arith, added.filled, h.filled);
          room = omega (arith, h.room);
          spare = h.spare;
        };
        added = added;
      }
]

-- The array after a list of keys was put into it.
pub record FilledWith (keys : List ℕ) (t : Table) (entries : List ℕ) : Type 0 where
  pub placed : IsPlaced t.lg_cur_size entries
  pub counts : (j : ℕ) → j ≢ 0 → count j entries ≡ count j t.entries + count j keys
  pub filled : occupied entries ≡ t.num_entries + length keys
