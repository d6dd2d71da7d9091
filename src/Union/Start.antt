-- ===== src/Union/Start.antt =====
-- New unions: those of the builder, and those that `reset` leaves.
use singlestoredb_extension.Base.{ℕ, Bool, true, false, [], ok, ◌≡◌, ◌≤◌, refl, arith}
use singlestoredb_extension.Table.{make_table, max_theta}
use singlestoredb_extension.Table.Start.{make_table-count, reset-make_table}
use singlestoredb_extension.UpdateSketch
use singlestoredb_extension.UpdateSketch.{Builder}
use singlestoredb_extension.UpdateSketch.Build.{IsBuilder, build-IsTable}
use singlestoredb_extension.Sketch.{make_compact}
use singlestoredb_extension.Sketch.Sample.{HashSet}
use singlestoredb_extension.Union.Update.{IsUnionOf}
use singlestoredb_extension.Union.{Union, build, get_result, reset}

abbrev pub empty_set : HashSet
empty_set k = false

-- A union of builder `b` that has taken nothing.
pub record IsNew (b : Builder) (u : Union) : Type 0 where
  pub of : IsUnionOf b empty_set u
  pub is_empty : u.table.is_empty ≡ true
  pub num_entries : u.table.num_entries ≡ 0
  pub theta : u.table.theta ≡ b.p_theta
  pub union_theta : u.union_theta ≡ b.p_theta

module _ (b : Builder) (is : IsBuilder b) (le : b.p_theta ≤ max_theta) where
  pub build-IsUnionOf : IsUnionOf b empty_set (build b)
  unfolding build UpdateSketch.build
  build-IsUnionOf = record {
    settings =
        unfold make_table in record { seed = refl; nominal = refl; rf = refl; p_theta = refl };
    merges = record {
      table = build-IsTable b is;
      counts = λ k nz lt₁ lt₂.
          make_table-count (UpdateSketch.starting_lg_size b) b.lg_k b.rf b.p_theta b.p_theta b.seed
            _ k nz;
    };
    lowest = unfold make_table in omega arith;
    bounded = unfold make_table in le;
    void = λ e k nz lt. refl;
  }

  -- The union of a valid builder whose starting theta is up to the maximum satisfies the invariant,
  -- samples the empty set, has the empty flag, no entries and the builder's starting theta in both
  -- thetas, and `get_result` of it, ordered or not, is the empty compact sketch with the starting
  -- theta and the seed hash of the builder's seed.
  pub build-IsNew :
      (seed_hash_of : ℕ → ℕ) (ordered : Bool)
      → IsNew b (build b)
        × (get_result seed_hash_of (build b) ordered
            ≡ ok (make_compact true true (seed_hash_of b.seed) b.p_theta []))
  unfolding build UpdateSketch.build make_table get_result
  build-IsNew seed_hash_of ordered = (
    record {
      of = build-IsUnionOf;
      is_empty = refl;
      num_entries = refl;
      theta = refl;
      union_theta = refl;
    },
    refl,
  )

-- `reset` of a union that samples any set and has the settings of a valid builder returns exactly
-- the union that the builder builds: the size, each slot of the array, the counter, both thetas and
-- the empty flag are those of a new one.
pub reset-build :
    {b : Builder} {X : HashSet} {u : Union} → IsUnionOf b X u → IsBuilder b → reset u ≡ ok (build b)
unfolding reset build UpdateSketch.build UpdateSketch.starting_lg_size
reset-build {u = u} of is = rw (
  reset-make_table u.table of.merges.table (omega (arith, of.settings.nominal, is.least)),
  of.settings.nominal,
  of.settings.rf,
  of.settings.p_theta,
  of.settings.seed,
)
