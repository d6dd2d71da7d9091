-- ===== src/Sketch/Streams.antt =====
-- An update sketch is a sample of the stream that it was given, and so is its compact copy.
use singlestoredb_extension.Base.{
  ℕ, ◌≤◌, ◌≡◌, refl, sym, ◌∙◌, ◌⊎◌, ◌^◌, if◌then◌else◌, length, Bool, true, false, List, [], ◌∷◌,
  arith, Bool-cases, inl, inr,
}
use singlestoredb_extension.Base.Counts.{count}
use singlestoredb_extension.Base.Sorting.{IsSorted, length-sort}
use singlestoredb_extension.Table.{Table, max_theta}
use singlestoredb_extension.UpdateSketch.{Builder, get_theta64, is_ordered}
use singlestoredb_extension.UpdateSketch.Retains.{Retains, is_nil}
use singlestoredb_extension.Sketch.{of_table, compact, copy_compact, copied_entries, keys}
use singlestoredb_extension.Sketch.Sample.{set_of, IsSketchOf, IsCompactOf, Samples, IsVoid}
use singlestoredb_extension.Sketch.Keys.{count-keys, count-keys_zero, length-keys, short-IsSorted}
use singlestoredb_extension.Sketch.Compact.{copy_compact-IsCompactOf}

nil-IsVoid : (hashes : List ℕ) → is_nil hashes ≡ true → IsVoid (set_of hashes)
nil-IsVoid [] e k nz lt = refl
nil-IsVoid (x ∷ hashes) e k nz lt = cc

nil-count : (hashes : List ℕ) (k : ℕ) → is_nil hashes ≡ true → count k hashes ≡ 0
nil-count [] k e = refl
nil-count (x ∷ hashes) k e = cc

length-arranged :
    (is_empty ordered is_ordered : Bool) (xs : List ℕ)
    → is_empty ≡ false
    → length (copied_entries is_empty ordered is_ordered xs) ≡ length xs
length-arranged true ordered is_ordered xs e = cc
length-arranged false true true xs e = refl
length-arranged false true false xs e = length-sort xs
length-arranged false false is_ordered xs e = refl

module _ {b : Builder} {hashes : List ℕ} {t : Table} (r : Retains b hashes t)
    (le : b.p_theta ≤ max_theta) where
  keys-Samples : Samples (set_of hashes) (get_theta64 t) (keys t.entries)
  unfolding get_theta64
  keys-Samples k nz = elim (Bool-cases t.is_empty) [
    | inl e ↦
        ground
          (arith, count-keys k t.entries nz, r.counts k nz, nil-count hashes k (sym r.flag ∙ e))
    | inr e ↦ ground (arith, count-keys k t.entries nz, r.counts k nz)
  ]

  -- The sketch has its starting theta, or at least the nominal number of keys.
  pub table_full :
      (get_theta64 t ≡ (if is_nil hashes then max_theta else b.p_theta))
      ⊎ (2 ^ b.lg_k ≤ length (keys t.entries))
  unfolding get_theta64
  table_full = elim (Bool-cases t.is_empty) [
    | inl e ↦ inl (rw (e, ← r.flag, e))
    | inr e ↦ elim r.size [
      | inl same ↦ inl (rw (e, ← r.flag, e) same)
      | inr full ↦ inr (omega (arith, full, length-keys t.entries, r.table.filled))
    ]
  ]

  keys-IsSorted : is_ordered t ≡ true → IsSorted (keys t.entries)
  unfolding is_ordered
  keys-IsSorted e = short-IsSorted _ (ground (arith, length-keys t.entries, r.table.filled))

  module _ (seed_hash_of : ℕ → ℕ) where
    pub of_table-IsSketchOf : IsSketchOf (set_of hashes) (of_table seed_hash_of t)
    unfolding of_table
    of_table-IsSketchOf = record {
      no_zero = count-keys_zero t.entries;
      samples = keys-Samples;
      sorted = keys-IsSorted;
      void = λ e. nil-IsVoid hashes (sym r.flag ∙ e);
      bounded = unfold get_theta64 in ground (arith, r.lowers);
      number = omega (arith, length-keys t.entries, r.table.filled);
    }

    -- For an update sketch that retains the hashes of a stream, with a starting theta up to the
    -- maximum, `compact` is a compact sample of the stream.
    pub compact-IsCompactOf :
        (ordered : Bool) → IsCompactOf (set_of hashes) (compact seed_hash_of t ordered)
    unfolding compact
    compact-IsCompactOf ordered = copy_compact-IsCompactOf ordered of_table-IsSketchOf

    length-compact :
        (ordered : Bool)
        → t.is_empty ≡ false
        → length (compact seed_hash_of t ordered).entries ≡ length (keys t.entries)
    unfolding compact of_table copy_compact
    length-compact ordered e = length-arranged t.is_empty ordered (is_ordered t) (keys t.entries) e

    -- For an update sketch that retains the hashes of a stream, with a starting theta up to the
    -- maximum: the theta of its compact copy is the maximum for an empty stream and the starting
    -- theta for another one, or the copy has at least `2 ^ lg_k` entries.
    pub compact_full :
        (ordered : Bool)
        → ((compact seed_hash_of t ordered).theta
            ≡ (if is_nil hashes then max_theta else b.p_theta))
          ⊎ (2 ^ b.lg_k ≤ length (compact seed_hash_of t ordered).entries)
    unfolding compact of_table copy_compact get_theta64
    compact_full ordered = elim (Bool-cases t.is_empty) [
      | inl e ↦ inl (rw (e, ← r.flag, e))
      | inr e ↦ elim table_full [
        | inl same ↦ inl same
        | inr le ↦ inr (omega (arith, le, length-compact ordered e))
      ]
    ]
