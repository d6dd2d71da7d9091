-- ===== src/UpdateSketch/Build.antt =====
-- The builder checks its sizes, and what it builds is an empty table with the invariant.
use singlestoredb_extension.Base.{
  ℕ, ◌≤◌, ◌<◌, ◌≡◌, ◌⊎◌, inl, inr, refl, stop, invalid_arg, Returns, lt-cases, lt→ltb, le→ltb,
}
use singlestoredb_extension.Table.Insert.{IsTable}
use singlestoredb_extension.Table.Start.{starting-IsShaped, make_table-IsTable}
use singlestoredb_extension.UpdateSketch.{Builder, set_lg_k, starting_lg_size, build}

-- The settings that `set_lg_k` lets through, and one of the four resize factors.
pub record IsBuilder (b : Builder) : Type 0 where
  pub least : 5 ≤ b.lg_k
  pub most : b.lg_k ≤ 26
  pub factor : b.rf ≤ 3

-- For a builder with a resize factor up to 3, `set_lg_k` either returns a valid builder with the
-- new `lg_k`, which is then between 5 and 26, or stops with an invalid argument, and `lg_k` is then
-- below 5 or above 26.
pub set_lg_k-IsBuilder :
    (b : Builder) (lg_k : ℕ)
    → b.rf ≤ 3
    → (Returns (set_lg_k b lg_k) (λ b'. IsBuilder b' × (b'.lg_k ≡ lg_k)) × (5 ≤ lg_k) × (lg_k ≤ 26))
      ⊎ (set_lg_k b lg_k ≡ stop invalid_arg) × (lg_k < 5 ⊎ (26 < lg_k))
unfolding set_lg_k
set_lg_k-IsBuilder b lg_k factor = elim (lt-cases lg_k 5) [
  | inl low ↦ inr (rw (lt→ltb _ _ low), inl low)
  | inr least ↦ elim (lt-cases 26 lg_k) [
    | inl high ↦ inr (rw (le→ltb _ _ least, lt→ltb _ _ high), inr high)
    | inr most ↦ inl (
      (
        record b { lg_k = lg_k },
        rw (le→ltb _ _ least, le→ltb _ _ most),
        (record { least = least; most = most; factor = factor }, refl),
      ),
      least,
      most,
    )
  ]
]

pub build-IsTable : (b : Builder) → IsBuilder b → IsTable (build b)
unfolding build starting_lg_size
build-IsTable b is =
    make_table-IsTable _ _ _ _ _ _ _ (starting-IsShaped b.lg_k b.rf is.least is.most is.factor)
