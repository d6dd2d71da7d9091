-- ===== src/Union/Merge.antt =====
-- The loop of `update` merges the entries of a sketch into the table of the union.
use singlestoredb_extension.Base.{
  ℕ, ◌≤◌, ◌<◌, ◌≡◌, ◌≢◌, ◌⊎◌, refl, sym, ap, ◌^◌, ◌∙◌, Bool, true, false, List, [], ◌∷◌, ok,
  Returns, arith, ◌>>=◌, ◌||◌, if◌then◌else◌, Bool-cases, lt-cases, inl, inr, lt→ltb, >>=_assoc,
}
use singlestoredb_extension.Base.Counts.{count}
use singlestoredb_extension.Base.Sorting.{IsSorted, AtLeast, AtLeast-count}
use singlestoredb_extension.Table.{Table, find, insert}
use singlestoredb_extension.Table.Add.{add, Adds, add-Adds}
use singlestoredb_extension.Table.Insert.{IsTable, SameSettings, Grows}
use singlestoredb_extension.Sketch.Sample.{HashSet, set_of}
use singlestoredb_extension.Union.{merge_entries}

-- The table holds the members of `X` below both thetas, each once.
pub record Merges (X : HashSet) (theta : ℕ) (t : Table) : Type 0 where
  pub table : IsTable t
  pub counts :
      (k : ℕ) → k ≢ 0 → k < theta → k < t.theta → count k t.entries ≡ (if X k then 1 else 0)

abbrev pub union_set : HashSet → HashSet → HashSet
union_set X Y k = X k || Y k

-- What the loop keeps, beside the members.
pub record Kept (t t' : Table) : Type 0 where
  pub settings : SameSettings t t'
  pub lowers : t'.theta ≤ t.theta
  pub grows : Grows t t'

Kept-refl : (t : Table) → Kept t t
Kept-refl t = record {
  settings = record { is_empty = refl; lg_nom_size = refl; rf = refl; p_theta = refl; seed = refl };
  lowers = omega arith;
  grows = inl (refl, omega arith);
}

pub Merges-congr :
    {X Y : HashSet} {theta : ℕ} {t : Table}
    → ((k : ℕ) → k ≢ 0 → k < theta → k < t.theta → Y k ≡ X k)
    → Merges X theta t
    → Merges Y theta t
Merges-congr same m = record {
  table = m.table;
  counts = λ k nz lt₁ lt₂. rw (same k nz lt₁ lt₂) (m.counts k nz lt₁ lt₂);
}

SameSettings-trans : {t u v : Table} → SameSettings t u → SameSettings u v → SameSettings t v
SameSettings-trans p q = record {
  is_empty = q.is_empty ∙ p.is_empty;
  lg_nom_size = q.lg_nom_size ∙ p.lg_nom_size;
  rf = q.rf ∙ p.rf;
  p_theta = q.p_theta ∙ p.p_theta;
  seed = q.seed ∙ p.seed;
}

Grows-trans : (t u v : Table) → u.lg_nom_size ≡ t.lg_nom_size → Grows t u → Grows u v → Grows t v
Grows-trans t u v same (inl (e, le)) (inl (e', le')) = inl (e' ∙ e, omega arith)
Grows-trans t u v same (inr full) (inl (e', le')) = inr (omega arith)
Grows-trans t u v same first (inr full) = inr (omega (arith, full, ap (λ (lg : ℕ). 2 ^ lg) same))

-- The rounds of the loop.
module _ (is_ordered : Bool) (theta hash : ℕ) (hashes : List ℕ) (t : Table) where
  merge-below :
      hash < theta
      → hash < t.theta
      → merge_entries is_ordered theta (hash ∷ hashes) t
        ≡ (add t hash >>= merge_entries is_ordered theta hashes)
  unfolding merge_entries
  merge-below lt below =
      rw (lt→ltb _ _ lt, lt→ltb _ _ below, merge_entries)
        (sym (
          >>=_assoc (find t.entries t.lg_cur_size hash)
            (λ slot. if slot.1 then ok t else insert t slot.0 hash)
            (merge_entries is_ordered theta hashes)))

  merge-stop :
      theta ≤ hash ⊎ (t.theta ≤ hash)
      → is_ordered ≡ true
      → merge_entries is_ordered theta (hash ∷ hashes) t ≡ ok t
  unfolding merge_entries
  merge-stop out o = ground arith

  merge-skip :
      theta ≤ hash ⊎ (t.theta ≤ hash)
      → is_ordered ≡ false
      → merge_entries is_ordered theta (hash ∷ hashes) t ≡ merge_entries is_ordered theta hashes t
  unfolding merge_entries
  merge-skip out o = ground arith

Adds-Merges :
    {X : HashSet} {theta hash : ℕ} {t t' : Table}
    → Merges X theta t
    → Adds hash t t'
    → Merges (union_set X (set_of (hash ∷ []))) theta t'
Adds-Merges m a = record {
  table = a.table;
  counts = λ k nz lt₁ lt₂. ground (arith, a.counts k nz, m.counts k nz lt₁, a.lowers);
}

in_range-cases :
    (theta hash : ℕ) (t : Table)
    → ((hash < theta) × (hash < t.theta)) ⊎ (theta ≤ hash ⊎ (t.theta ≤ hash))
in_range-cases theta hash t = elim (lt-cases hash theta) [
  | inr out ↦ inr (inl out)
  | inl lt ↦ elim (lt-cases hash t.theta) [ inr out ↦ inr (inr out) | inl below ↦ inl (lt, below) ]
]

union_set-cons :
    (X : HashSet) (hash : ℕ) (hashes : List ℕ) (k : ℕ)
    → union_set X (set_of (hash ∷ hashes)) k
      ≡ union_set (union_set X (set_of (hash ∷ []))) (set_of hashes) k
union_set-cons X hash hashes k = ground arith

-- A hash that is out of range adds no member below the thetas.
union_set-skip :
    (X : HashSet) (theta hash : ℕ) (hashes : List ℕ) (t : Table) (k : ℕ)
    → theta ≤ hash ⊎ (t.theta ≤ hash)
    → k < theta
    → k < t.theta
    → union_set X (set_of (hash ∷ hashes)) k ≡ union_set X (set_of hashes) k
union_set-skip X theta hash hashes t k out lt₁ lt₂ = ground arith

-- Nor do the later ones, if the entries are in order.
union_set-stop :
    (X : HashSet) (theta hash : ℕ) (hashes : List ℕ) (t : Table) (k : ℕ)
    → AtLeast hash hashes
    → theta ≤ hash ⊎ (t.theta ≤ hash)
    → k < theta
    → k < t.theta
    → union_set X (set_of (hash ∷ hashes)) k ≡ X k
union_set-stop X theta hash hashes t k least out lt₁ lt₂ =
    ground (arith, AtLeast-count hash k hashes least)

-- The loop merges the entries of the sketch, also where it stops early.
pub merge_entries-Merges :
    (is_ordered : Bool) (theta : ℕ) (hashes : List ℕ) {X : HashSet} {t : Table}
    → Merges X theta t
    → count 0 hashes ≡ 0
    → (is_ordered ≡ true → IsSorted hashes)
    → Returns
        (merge_entries is_ordered theta hashes t)
        (λ t'. Merges (union_set X (set_of hashes)) theta t' × Kept t t')
merge_entries-Merges is_ordered theta [] {t = t} m no_zero sorted =
    (t, unfold merge_entries in refl, (Merges-congr (λ k nz lt₁ lt₂. ground arith) m, Kept-refl t))
merge_entries-Merges is_ordered theta (hash ∷ hashes) {X = X} {t = t} m no_zero sorted =
    elim (in_range-cases theta hash t) [
      | inl (lt, below) ↦
          let (t₁, run₁, a) = add-Adds m.table hash (ground arith) below in
          let (t₂, run₂, (m₂, kept)) =
            merge_entries-Merges is_ordered theta hashes (Adds-Merges m a) (omega arith)
              (λ o. (sorted o).1) in
          (
            t₂,
            rw (merge-below is_ordered theta hash hashes t lt below, run₁) run₂,
            (
              Merges-congr (λ k nz lt₁ lt₂. union_set-cons X hash hashes k) m₂,
              record {
                settings = SameSettings-trans a.settings kept.settings;
                lowers = omega (arith, a.lowers, kept.lowers);
                grows = Grows-trans t t₁ t₂ a.settings.lg_nom_size a.grows kept.grows;
              },
            ),
          )
      | inr out ↦ elim (Bool-cases is_ordered) [
        | inl o ↦ (
          t,
          merge-stop is_ordered theta hash hashes t out o,
          (
            Merges-congr
                (λ k nz lt₁ lt₂. union_set-stop X theta hash hashes t k (sorted o).0 out lt₁ lt₂) m,
            Kept-refl t,
          ),
        )
        | inr o ↦
            let (t₂, run₂, (m₂, kept)) =
              merge_entries-Merges is_ordered theta hashes m (omega arith) (λ o. (sorted o).1) in
            (
              t₂,
              merge-skip is_ordered theta hash hashes t out o ∙ run₂,
              (
                Merges-congr
                    (λ k nz lt₁ lt₂.
                      union_set-skip X theta hash hashes t k out lt₁ (omega (arith, kept.lowers)))
                    m₂,
                kept,
              ),
            )
      ]
    ]
