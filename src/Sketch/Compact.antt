-- ===== src/Sketch/Compact.antt =====
-- Compact sketches are samples: made from parts, copied from another sketch, or read as one.
use singlestoredb_extension.Base.{
  ℕ, ◌≡◌, ◌≤◌, refl, Bool, true, false, List, arith, ◌||◌, if◌then◌else◌, Bool-cases, inl, inr,
}
use singlestoredb_extension.Base.Counts.{count}
use singlestoredb_extension.Base.Sorting.{IsSorted, count-sort, sort-IsSorted}
use singlestoredb_extension.Table.{max_theta}
use singlestoredb_extension.Sketch.{
  Sketch, CompactSketch, make_compact, copied_entries, copy_compact, of_compact,
}
use singlestoredb_extension.Sketch.Keys.{keys-full, short-IsSorted}
use singlestoredb_extension.Sketch.Sample.{HashSet, Samples, IsVoid, IsSketchOf, IsCompactOf}

-- A compact sketch serves as an argument of a set operation.
pub of_compact-IsSketchOf :
    {X : HashSet} {c : CompactSketch} → IsCompactOf X c → IsSketchOf X (of_compact c)
unfolding of_compact
of_compact-IsSketchOf {c = c} is =
    let same = keys-full c.entries is.no_zero in
    record {
      no_zero = rw same is.no_zero;
      samples = rw same is.samples;
      sorted = rw same is.sorted;
      void = is.void;
      bounded = is.bounded;
      number = rw same;
    }

pub make_compact-IsCompactOf :
    {X : HashSet} (is_empty is_ordered : Bool) (seed_hash theta : ℕ) (entries : List ℕ)
    → count 0 entries ≡ 0
    → Samples X theta entries
    → (is_ordered ≡ true → IsSorted entries)
    → (is_empty ≡ true → IsVoid X)
    → theta ≤ max_theta
    → IsCompactOf X (make_compact is_empty is_ordered seed_hash theta entries)
unfolding make_compact
make_compact-IsCompactOf is_empty is_ordered seed_hash theta entries no_zero samples sorted void
      bounded =
    record {
      no_zero = no_zero;
      samples = samples;
      sorted = λ e. elim (Bool-cases is_ordered) [
        | inl o ↦ sorted o
        | inr o ↦ short-IsSorted entries (ground arith)
      ];
      void = void;
      bounded = bounded;
    }

-- The entries that a copy takes over.
count-copied :
    (k : ℕ) (is_empty ordered is_ordered : Bool) (entries : List ℕ)
    → count k (copied_entries is_empty ordered is_ordered entries)
      ≡ (if is_empty then 0 else count k entries)
count-copied k true ordered is_ordered entries = refl
count-copied k false true false entries = count-sort k entries
count-copied k false true true entries = refl
count-copied k false false is_ordered entries = refl

sorted-copied :
    (is_empty ordered is_ordered : Bool) (entries : List ℕ)
    → (is_ordered ≡ true → IsSorted entries)
    → (is_ordered || ordered) ≡ true
    → IsSorted (copied_entries is_empty ordered is_ordered entries)
sorted-copied true ordered is_ordered entries s e = tt
sorted-copied false true false entries s e = sort-IsSorted entries
sorted-copied false true true entries s e = s refl
sorted-copied false false true entries s e = s refl
sorted-copied false false false entries s e = cc

-- The compact copy of a sample of `X`, ordered or not, is a compact sample of `X`: no 0, each
-- member below theta once, in order if it says so, empty only if `X` has no hash below the maximum.
pub copy_compact-IsCompactOf :
    {X : HashSet} {s : Sketch} (ordered : Bool)
    → IsSketchOf X s
    → IsCompactOf X (copy_compact s ordered)
unfolding copy_compact
copy_compact-IsCompactOf {X} {s} ordered is =
    let copied = λ (k : ℕ). count-copied k s.is_empty ordered s.is_ordered s.entries in
    record {
      no_zero = ground (arith, copied 0, is.no_zero);
      samples = λ k nz. elim (Bool-cases s.is_empty) [
        | inl e ↦ ground (arith, copied k, is.void e k nz)
        | inr e ↦ ground (arith, copied k, is.samples k nz)
      ];
      sorted = sorted-copied s.is_empty ordered s.is_ordered s.entries is.sorted;
      void = is.void;
      bounded = is.bounded;
    }
