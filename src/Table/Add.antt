-- ===== src/Table/Add.antt =====
-- The way in which a union adds a key to its table: `find`, and `insert` if the key is not there.
use singlestoredb_extension.Base.{
  ℕ, ◌≤◌, ◌<◌, ◌≡◌, ◌≢◌, refl, Outcome, ok, ◌>>=◌, Returns, arith, ltb, ◌==◌, if◌then◌else◌, inl,
  inr,
}
use singlestoredb_extension.Base.Counts.{count}
use singlestoredb_extension.Table.{Table, find, insert}
use singlestoredb_extension.Table.Shape.{capacity-lt}
use singlestoredb_extension.Table.Place.{find-cases}
use singlestoredb_extension.Table.Insert.{IsTable, SameSettings, Grows, Inserted, insert-Inserted}

abbrev pub add : Table → ℕ → Outcome Table
add t k = do slot ← find t.entries t.lg_cur_size k; if slot.1 then ok t else insert t slot.0 k

-- The keys of before and `k`, as far as they are below theta.
pub record Adds (k : ℕ) (t t' : Table) : Type 0 where
  pub table : IsTable t'
  pub settings : SameSettings t t'
  pub lowers : t'.theta ≤ t.theta
  pub grows : Grows t t'
  pub counts :
      (j : ℕ)
      → j ≢ 0
      → count j t'.entries ≡ (if ltb j t'.theta then if j == k then 1 else count j t.entries else 0)

Inserted-Grows : {k : ℕ} {t t' : Table} → Inserted k t t' → Grows t t'
Inserted-Grows more = elim more.size [
  | inl e ↦ inl (e.0, omega (arith, e.1))
  | inr full ↦ inr (omega (arith, full))
]

pub add-Adds :
    {t : Table} → IsTable t → (k : ℕ) → k ≢ 0 → k < t.theta → Returns (add t k) (Adds k t)
add-Adds {t} is k ne lt =
    elim (find-cases is.placed k ne
      (omega (arith, is.room, is.filled, is.placed.width, capacity-lt is.shape))) [
        | inl h ↦ (
          t,
          rw h.run,
          record {
            table = is;
            settings = record {
              is_empty = refl;
              lg_nom_size = refl;
              rf = refl;
              p_theta = refl;
              seed = refl;
            };
            lowers = omega arith;
            grows = inl (refl, omega arith);
            counts = λ j nz. ground (arith, h.present, is.below j nz);
          },
        )
        | inr m ↦
            let (t', run, (valid, more)) = insert-Inserted is k ne lt m in
            (
              t',
              rw m.run run,
              record {
                table = valid;
                settings = more.settings;
                lowers = more.lowers;
                grows = Inserted-Grows more;
                counts = λ j nz. ground (arith, more.counts j nz, m.absent);
              },
            )
      ]
