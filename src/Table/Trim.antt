-- ===== src/Table/Trim.antt =====
-- `trim` brings a table down to the nominal number of entries.
use singlestoredb_extension.Base.{
  ℕ, ◌≤◌, ◌<◌, ◌^◌, ◌≡◌, ◌≢◌, refl, Returns, arith, ltb, if◌then◌else◌, lt-cases, inl, inr, le→ltb,
  lt→ltb,
}
use singlestoredb_extension.Base.Counts.{count}
use singlestoredb_extension.Table.{Table, trim}
use singlestoredb_extension.Table.Shape.{capacity-lt}
use singlestoredb_extension.Table.Insert.{IsTable, SameSettings}
use singlestoredb_extension.Table.Rebuild.{rebuild-Trimmed}

-- The table with the keys below a lower theta, at most the nominal number of them.
pub record Cut (t t' : Table) : Type 0 where
  pub table : IsTable t'
  pub settings : SameSettings t t'
  pub lowers : t'.theta ≤ t.theta
  pub counts :
      (j : ℕ) → j ≢ 0 → count j t'.entries ≡ (if ltb j t'.theta then count j t.entries else 0)
  pub nominal : t'.num_entries ≤ 2 ^ t.lg_nom_size

same : (t : Table) → SameSettings t t
same t = record { is_empty = refl; lg_nom_size = refl; rf = refl; p_theta = refl; seed = refl }

module _ {t : Table} (is : IsTable t) where
  trim-few : t.num_entries ≤ 2 ^ t.lg_nom_size → Returns (trim t) (Cut t)
  unfolding trim
  trim-few few = (
    t,
    rw (le→ltb _ _ few),
    record {
      table = is;
      settings = same t;
      lowers = omega arith;
      counts = λ j nz. ground (arith, is.below j nz);
      nominal = few;
    },
  )

  trim-many : 2 ^ t.lg_nom_size < t.num_entries → Returns (trim t) (Cut t)
  unfolding trim
  trim-many many =
      let (theta, entries, run, cut) =
        rebuild-Trimmed t is.placed is.filled (omega (arith, is.room, capacity-lt is.shape)) many in
      (
        _,
        rw (lt→ltb _ _ many) run,
        record {
          table = record {
            shape = is.shape;
            placed = cut.placed;
            filled = cut.filled;
            room = omega (arith, is.room);
            below = λ j nz there. ground (arith, cut.counts j nz);
          };
          settings = record {
            is_empty = refl;
            lg_nom_size = refl;
            rf = refl;
            p_theta = refl;
            seed = refl;
          };
          lowers = omega (arith, is.below theta cut.held.0 (omega (arith, cut.held.1)));
          counts = cut.counts;
          nominal = omega arith;
        },
      )

  -- `trim` of a table that satisfies the invariant returns a table that does, with at most the
  -- nominal number of entries. The settings stay, theta does not rise, and the keys are those of
  -- before below the new theta.
  pub trim-Cut : Returns (trim t) (Cut t)
  trim-Cut = elim (lt-cases (2 ^ t.lg_nom_size) t.num_entries) [
    | inl many ↦ trim-many many
    | inr few ↦ trim-few few
  ]
