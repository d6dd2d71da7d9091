-- ===== src/Union/Update.antt =====
-- An update merges a sample of one set into a union that samples another.
use singlestoredb_extension.Base.{
  ℕ, ◌≤◌, ◌<◌, ◌≡◌, ◌≢◌, ◌⊎◌, refl, ◌∙◌, true, false, stop, invalid_arg, Returns, arith, Bool-cases,
  inl, inr, min, ne→==, sym, eq-cases, ◌↔◌, ◌==◌, ==_iff,
}
use singlestoredb_extension.Table.{Table, max_theta}
use singlestoredb_extension.Table.Insert.{IsTable, Grows}
use singlestoredb_extension.UpdateSketch.{Builder}
use singlestoredb_extension.Sketch.{Sketch}
use singlestoredb_extension.Sketch.Sample.{HashSet, set_of, IsVoid, IsSketchOf}
use singlestoredb_extension.Union.Merge.{
  Merges, Kept, Merges-congr, union_set, merge_entries-Merges,
}
use singlestoredb_extension.Union.{Union, update}

-- The table has the settings of the builder.
pub record IsSetBy (b : Builder) (t : Table) : Type 0 where
  pub seed : t.seed ≡ b.seed
  pub nominal : t.lg_nom_size ≡ b.lg_k
  pub rf : t.rf ≡ b.rf
  pub p_theta : t.p_theta ≡ b.p_theta

-- The union of builder `b` samples the set `X`, below its own theta.
pub record IsUnionOf (b : Builder) (X : HashSet) (u : Union) : Type 0 where
  pub settings : IsSetBy b u.table
  pub merges : Merges X u.union_theta u.table
  pub lowest : u.union_theta ≤ u.table.theta
  pub bounded : u.union_theta ≤ max_theta
  pub void : u.table.is_empty ≡ true → IsVoid X

opened : Table → Table
opened t = record t { is_empty = false }

opened-IsTable : {t : Table} → IsTable t → IsTable (opened t)
unfolding opened
opened-IsTable is = record {
  shape = is.shape;
  placed = is.placed;
  filled = is.filled;
  room = is.room;
  below = is.below;
}

opened-Merges :
    {X : HashSet} {theta theta' : ℕ} {t : Table}
    → Merges X theta t
    → theta' ≤ theta
    → Merges X theta' (opened t)
unfolding opened
opened-Merges m le = record {
  table = opened-IsTable m.table;
  counts = λ k nz lt₁ lt₂. m.counts k nz (omega arith) lt₂;
}

module _ {b : Builder} {X Y : HashSet} {u : Union} {s : Sketch} (of : IsUnionOf b X u)
    (is : IsSketchOf Y s) where
  -- An empty sketch adds nothing.
  union-void : s.is_empty ≡ true → IsUnionOf b (union_set X Y) u
  union-void e = record {
    settings = of.settings;
    merges = Merges-congr (λ k nz lt₁ lt₂. ground (arith, is.void e k nz, of.bounded)) of.merges;
    lowest = of.lowest;
    bounded = of.bounded;
    void = λ f k nz lt. ground (arith, of.void f k nz lt, is.void e k nz lt);
  }

  -- The loop keeps the settings.
  set_by : {t : Table} → Kept (opened u.table) t → IsSetBy b t
  unfolding opened
  set_by kept = record {
    seed = kept.settings.seed ∙ of.settings.seed;
    nominal = kept.settings.lg_nom_size ∙ of.settings.nominal;
    rf = kept.settings.rf ∙ of.settings.rf;
    p_theta = kept.settings.p_theta ∙ of.settings.p_theta;
  }

  -- What the loop leaves is a union of both.
  union-merged :
      (t : Table)
      → Merges (union_set X (set_of s.entries)) (min u.union_theta s.theta) t
      → t.is_empty ≡ false
      → IsSetBy b t
      → IsUnionOf b
          (union_set X Y)
          (record { table = t; union_theta = min (min u.union_theta s.theta) t.theta })
  union-merged t m open_table set_by = record {
    settings = set_by;
    merges = record {
      table = m.table;
      counts = λ k nz lt₁ lt₂.
          ground (arith, m.counts k nz (omega arith) lt₂, is.samples k nz, lower k lt₁);
    };
    lowest = omega arith;
    bounded = omega (arith, of.bounded);
    void = λ f. cc;
  }
    where
      lower : (k : ℕ) → k < min (min u.union_theta s.theta) t.theta → k < s.theta
      lower k lt = omega arith

  -- What an update does to the thetas and to the number of entries.
  abbrev pub Moves : Union → Type 0
  Moves u' =
      (u' ≡ u)
      ⊎ ((u'.union_theta ≡ min (min u.union_theta s.theta) u'.table.theta) × Grows u.table u'.table)

  module _ (seed_hash_of : ℕ → ℕ) where
    pub update-Moves :
        (s.is_empty ≡ false → s.seed_hash ≡ seed_hash_of u.table.seed)
        → Returns (update seed_hash_of u s) (λ u'. IsUnionOf b (union_set X Y) u' × Moves u')
    unfolding update opened
    update-Moves same_seed = elim (Bool-cases s.is_empty) [
      | inl e ↦ (u, rw e, (union-void e, inl refl))
      | inr e ↦
          let equal : (s.seed_hash == seed_hash_of u.table.seed) ≡ true =
            (==_iff _ _).1 (same_seed e) in
          let (t, run, (m, kept)) =
            merge_entries-Merges s.is_ordered (min u.union_theta s.theta) s.entries
              (opened-Merges of.merges (omega arith)) is.no_zero is.sorted in
          (
            _,
            rw (e, equal, run),
            (union-merged t m kept.settings.is_empty (set_by kept), inr (refl, kept.grows)),
          )
    ]

    -- A union that samples `X`, updated with a sample of `Y` whose seed hash is that of the union
    -- if it is not empty, returns, and samples `X` and `Y` together. This includes the early stop
    -- at an ordered sketch.
    pub update-IsUnionOf :
        (s.is_empty ≡ false → s.seed_hash ≡ seed_hash_of u.table.seed)
        → Returns (update seed_hash_of u s) (IsUnionOf b (union_set X Y))
    update-IsUnionOf same_seed =
        let (u', run, (is_union, moves)) = update-Moves same_seed in (u', run, is_union)

    update_seed_mismatch :
        s.is_empty ≡ false
        → s.seed_hash ≢ seed_hash_of u.table.seed
        → update seed_hash_of u s ≡ stop invalid_arg
    unfolding update
    update_seed_mismatch e other = rw (e, ne→== _ _ other)

    -- For a union that samples a set and a sketch that samples another, `update` stops with an
    -- invalid argument exactly if the sketch is not empty and its seed hash is another than the
    -- union's.
    pub update-refuses :
        (update seed_hash_of u s ≡ stop invalid_arg)
        ↔ (s.is_empty ≡ false) × (s.seed_hash ≢ seed_hash_of u.table.seed)
    update-refuses = (refused, λ h. update_seed_mismatch h.0 h.1)
      where
        refused :
            update seed_hash_of u s ≡ stop invalid_arg
            → (s.is_empty ≡ false) × (s.seed_hash ≢ seed_hash_of u.table.seed)
        refused run = elim (eq-cases s.seed_hash (seed_hash_of u.table.seed)) [
          | inl same ↦
              let (u', done, of') = update-IsUnionOf (λ _. same) in absurd (cc (sym run ∙ done))
          | inr other ↦ elim (Bool-cases s.is_empty) [
            | inl e ↦
                let (u', done, of') = update-IsUnionOf (λ f. absurd (cc (sym e ∙ f))) in
                absurd (cc (sym run ∙ done))
            | inr e ↦ (e, other)
          ]
        ]
