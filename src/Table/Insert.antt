-- ===== src/Table/Insert.antt =====
-- `insert` keeps the table's invariant on each of its branches: room is left, the array is resized,
-- or it is rebuilt with a lower theta.
use singlestoredb_extension.Base.{
  ℕ, ◌+◌, ◌%◌, ◌^◌, ◌≤◌, ◌<◌, ◌≡◌, ◌≢◌, ◌⊎◌, refl, ◌∙◌, true, false, Returns, arith, ltb, leb,
  if◌then◌else◌, lt-cases, inl, inr, set, le→ltb, lt→ltb, le→leb, lt→leb,
}
use singlestoredb_extension.Base.Counts.{hit, count, occupied}
use singlestoredb_extension.Table.{Table, get_capacity, insert}
use singlestoredb_extension.Table.Shape.{
  IsShaped, capacity-lt, capacity_small, capacity-nominal, next-IsShaped, capacity-next,
}
use singlestoredb_extension.Table.Place.{IsPlaced, Miss, Added, set-Added}
use singlestoredb_extension.Table.Resize.{next_lg_size, resize-Rehashed}
use singlestoredb_extension.Table.Rebuild.{rebuild-Trimmed}

pub record IsTable (t : Table) : Type 0 where
  pub shape : IsShaped t.lg_cur_size t.lg_nom_size t.rf
  pub placed : IsPlaced t.lg_cur_size t.entries
  pub filled : occupied t.entries ≡ t.num_entries
  pub room : t.num_entries ≤ get_capacity t.lg_cur_size t.lg_nom_size
  pub below : (k : ℕ) → k ≢ 0 → 0 < count k t.entries → k < t.theta

-- The settings of a table, which no insertion changes.
pub record SameSettings (t t' : Table) : Type 0 where
  pub is_empty : t'.is_empty ≡ t.is_empty
  pub lg_nom_size : t'.lg_nom_size ≡ t.lg_nom_size
  pub rf : t'.rf ≡ t.rf
  pub p_theta : t'.p_theta ≡ t.p_theta
  pub seed : t'.seed ≡ t.seed

-- The number of entries does not fall, unless theta is lowered to the nominal number of them.
abbrev pub Grows : Table → Table → Type 0
Grows t t' =
    ((t'.theta ≡ t.theta) × (t.num_entries ≤ t'.num_entries)) ⊎ (2 ^ t.lg_nom_size ≤ t'.num_entries)

-- The keys after an insertion: those of before and the new one, as far as they are below theta.
pub record Inserted (k : ℕ) (t t' : Table) : Type 0 where
  pub settings : SameSettings t t'
  pub lowers : t'.theta ≤ t.theta
  pub positive : 0 < t.theta → 0 < t'.theta
  pub size :
      ((t'.theta ≡ t.theta) × (t'.num_entries ≡ t.num_entries + 1))
      ⊎ (t'.num_entries ≡ 2 ^ t.lg_nom_size)
  pub counts :
      (j : ℕ)
      → j ≢ 0
      → count j t'.entries ≡ (if ltb j t'.theta then count j t.entries + hit j k else 0)

module _ {t : Table} (is : IsTable t) (k : ℕ) (ne : k ≢ 0) (lt : k < t.theta)
    (m : Miss t.lg_cur_size t.entries k) where
  added : Added t.lg_cur_size k t.entries (set t.entries m.slot k)
  added = set-Added is.placed ne m

  -- The table with the entry written and counted.
  written : Table
  written = record t {
    entries = set t.entries m.slot k;
    num_entries = (t.num_entries + 1) % 2 ^ 32;
  }

  number : (t.num_entries + 1) % 2 ^ 32 ≡ t.num_entries + 1
  number = omega (arith, is.room, capacity_small is.shape)

  written-below : (j : ℕ) → j ≢ 0 → 0 < count j (set t.entries m.slot k) → j < t.theta
  written-below j nz there = ground (arith, added.counts j nz, is.below j nz)

  written-counts :
      (j : ℕ)
      → j ≢ 0
      → count j (set t.entries m.slot k)
        ≡ (if ltb j t.theta then count j t.entries + hit j k else 0)
  written-counts j nz = ground (arith, added.counts j nz, is.below j nz)

  -- There is room for the entry.
  insert-room :
      t.num_entries + 1 ≤ get_capacity t.lg_cur_size t.lg_nom_size
      → Returns (insert t m.slot k) (λ t'. IsTable t' × Inserted k t t')
  unfolding insert written
  insert-room fits =
      let small : ltb (get_capacity t.lg_cur_size t.lg_nom_size) (t.num_entries + 1) ≡ false =
        le→ltb _ _ fits in
      (
        written,
        rw (number, small),
        (
          record {
            shape = is.shape;
            placed = added.placed;
            filled = omega (arith, added.filled, is.filled, number);
            room = rw number fits;
            below = written-below;
          },
          record {
            settings = record {
              is_empty = refl;
              lg_nom_size = refl;
              rf = refl;
              p_theta = refl;
              seed = refl;
            };
            lowers = omega arith;
            positive = λ h. h;
            size = inl (refl, number);
            counts = written-counts;
          },
        ),
      )

  module _ (over : get_capacity t.lg_cur_size t.lg_nom_size < t.num_entries + 1) where
    filled_up : t.num_entries ≡ get_capacity t.lg_cur_size t.lg_nom_size
    filled_up = omega (arith, is.room)

    is_over : ltb (get_capacity t.lg_cur_size t.lg_nom_size) (t.num_entries + 1) ≡ true
    is_over = lt→ltb _ _ over

    now_filled : occupied (set t.entries m.slot k) ≡ t.num_entries + 1
    now_filled = omega (arith, added.filled, is.filled)

    -- The array grows.
    insert-resize :
        t.lg_cur_size ≤ t.lg_nom_size
        → Returns (insert t m.slot k) (λ t'. IsTable t' × Inserted k t t')
    unfolding insert written
    insert-resize small =
        let wide = next-IsShaped is.shape small in
        let roomy = capacity-next is.shape small in
        let is_small : leb t.lg_cur_size t.lg_nom_size ≡ true = le→leb _ _ small in
        let (r, run, p) =
          resize-Rehashed written (omega (arith, is.shape)) (omega (arith, is.shape.nominal))
            (omega (arith, is.shape.nominal)) added.placed.width added.placed.once
            (omega (arith, roomy, capacity-lt wide, now_filled)) in
        (
          record written { entries = r; lg_cur_size = next_lg_size t },
          rw (number, is_over, is_small) (rw number at run),
          (
            record {
              shape = wide;
              placed = p.placed;
              filled = omega (arith, p.filled, now_filled, number);
              room = omega (arith, roomy, filled_up, number);
              below = λ j nz there. written-below j nz (omega (arith, p.counts j nz));
            },
            record {
              settings = record {
                is_empty = refl;
                lg_nom_size = refl;
                rf = refl;
                p_theta = refl;
                seed = refl;
              };
              lowers = omega arith;
              positive = λ h. h;
              size = inl (refl, number);
              counts = λ j nz. p.counts j nz ∙ written-counts j nz;
            },
          ),
        )

    -- The array has its full size: theta is lowered.
    insert-rebuild :
        t.lg_nom_size < t.lg_cur_size
        → Returns (insert t m.slot k) (λ t'. IsTable t' × Inserted k t t')
    unfolding insert written
    insert-rebuild large =
        let is_large : leb t.lg_cur_size t.lg_nom_size ≡ false = lt→leb _ _ large in
        let enough = capacity-nominal is.shape large in
        let (theta, r, run, p) =
          rebuild-Trimmed written added.placed (omega (arith, now_filled, number))
            (omega (arith, number, filled_up, capacity-lt is.shape))
            (omega (arith, number, filled_up, enough)) in
        let lower : theta < t.theta = written-below theta p.held.0 (omega (arith, p.held)) in
        (
          record written { theta = theta; entries = r; num_entries = 2 ^ t.lg_nom_size },
          rw (number, is_over, is_large) (rw number at run),
          (
            record {
              shape = is.shape;
              placed = p.placed;
              filled = p.filled;
              room = enough;
              below = λ j nz there. ground (arith, p.counts j nz);
            },
            record {
              settings = record {
                is_empty = refl;
                lg_nom_size = refl;
                rf = refl;
                p_theta = refl;
                seed = refl;
              };
              lowers = omega arith;
              positive = λ _. omega (arith, p.held);
              size = inr refl;
              counts = λ j nz. ground (arith, p.counts j nz, added.counts j nz);
            },
          ),
        )

  -- `insert` of a key that is not 0, below theta and not in the table, at the slot where `find`
  -- ended, returns a table that satisfies the invariant again, whether there is room, the array is
  -- resized or it is rebuilt. The settings stay, theta does not rise, and the keys are those of
  -- before and the new one, as far as they are below the new theta. Either theta stays and the
  -- counter is one higher, or the counter is the nominal size.
  pub insert-Inserted : Returns (insert t m.slot k) (λ t'. IsTable t' × Inserted k t t')
  insert-Inserted = elim (lt-cases (get_capacity t.lg_cur_size t.lg_nom_size) (t.num_entries + 1)) [
    | inr fits ↦ insert-room fits
    | inl over ↦ elim (lt-cases t.lg_nom_size t.lg_cur_size) [
      | inr small ↦ insert-resize over small
      | inl large ↦ insert-rebuild over large
    ]
  ]
