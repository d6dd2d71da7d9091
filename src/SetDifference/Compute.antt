-- ===== src/SetDifference/Compute.antt =====
-- `compute` gives a compact sample of the hashes that are in the first set and not in the second.
use singlestoredb_extension.Base.{
  ℕ, ◌≤◌, ◌<◌, ◌^◌, ◌≡◌, ◌≢◌, refl, sym, ◌∙◌, Bool, true, false, List, [], ◌∷◌, Returns, arith, ltb,
  ◌==◌, if◌then◌else◌, ◌||◌, ◌&&◌, not, Bool-cases, eq-cases, inl, inr, min, length, ne→==, ==_iff,
  lt→ltb,
}
use singlestoredb_extension.Base.Counts.{count, count-zeros, occupied-zeros}
use singlestoredb_extension.Base.Powers.{pow_pos}
use singlestoredb_extension.Base.Sorting.{IsSorted, sort, count-sort, sort-IsSorted}
use singlestoredb_extension.LgSize.{lg_size_from_count, Fits, lg_size_from_count-Fits, most_entries}
use singlestoredb_extension.Table.{Table, max_theta, make_table}
use singlestoredb_extension.Table.Place.{empty-IsPlaced}
use singlestoredb_extension.Sketch.{Sketch, CompactSketch, make_compact, copy_compact}
use singlestoredb_extension.Sketch.Compact.{make_compact-IsCompactOf, copy_compact-IsCompactOf}
use singlestoredb_extension.Sketch.Sample.{HashSet, Samples, IsSketchOf, IsCompactOf}
use singlestoredb_extension.SetDifference.{less_than, set_difference, difference_entries, compute}
use singlestoredb_extension.SetDifference.Merge.{count-less_than, count-set_difference}
use singlestoredb_extension.SetDifference.Hash.{IsFixed, Hashed, hash_entries-Hashed}
use singlestoredb_extension.SetDifference.Missing.{
  missing, count-missing, missing-IsSorted, less_than-IsSorted, set_difference-IsSorted,
  missing_entries-missing,
}

abbrev pub minus_set : HashSet → HashSet → HashSet
minus_set X Y k = X k && not (Y k)

-- The entries of the result.
record Left (X : HashSet) (theta : ℕ) (is_ordered : Bool) (entries : List ℕ) : Type 0 where
  no_zero : count 0 entries ≡ 0
  samples : Samples X theta entries
  sorted : is_ordered ≡ true → IsSorted entries

count-no_length : (k : ℕ) (xs : List ℕ) → length xs ≡ 0 → count k xs ≡ 0
count-no_length k [] e = refl
count-no_length k (x ∷ xs) e = absurd (omega arith)

module _ {X Y : HashSet} {a b : Sketch} (is_a : IsSketchOf X a) (is_b : IsSketchOf Y b) where
  Left-none :
      length b.entries ≡ 0
      → Left
          (minus_set X Y)
          (min a.theta b.theta)
          a.is_ordered
          (less_than (min a.theta b.theta) a.entries)
  Left-none zero = record {
    no_zero = ground (arith, count-less_than 0 (min a.theta b.theta) a.entries, is_a.no_zero);
    samples = λ k nz. ground (
      arith,
      count-less_than k (min a.theta b.theta) a.entries,
      is_a.samples k nz,
      is_b.samples k nz,
      count-no_length k b.entries zero,
    );
    sorted = λ o. less_than-IsSorted (min a.theta b.theta) a.entries (is_a.sorted o);
  }

  a_once : (k : ℕ) → count k a.entries ≤ 1
  a_once k = elim (eq-cases k 0) [
    | inl e ↦ rw e (omega (arith, is_a.no_zero))
    | inr nz ↦ ground (arith, is_a.samples k nz)
  ]

  Left-sorted :
      a.is_ordered ≡ true
      → b.is_ordered ≡ true
      → Left
          (minus_set X Y)
          (min a.theta b.theta)
          a.is_ordered
          (less_than (min a.theta b.theta) (set_difference a.entries b.entries))
  Left-sorted o o' =
      let diff = λ (k : ℕ).
        count-set_difference k a.entries b.entries (is_a.sorted o) (is_b.sorted o') a_once in
      let all =
        λ (k : ℕ). count-less_than k (min a.theta b.theta) (set_difference a.entries b.entries) in
      record {
        no_zero = ground (arith, all 0, diff 0, is_a.no_zero);
        samples = λ k nz. ground (arith, all k, diff k, is_a.samples k nz, is_b.samples k nz);
        sorted = λ _.
            less_than-IsSorted (min a.theta b.theta) (set_difference a.entries b.entries)
              (set_difference-IsSorted a.entries b.entries (is_a.sorted o));
      }

  Left-Hashed :
      (t t' : Table)
      → ((k : ℕ) → k ≢ 0 → count k t.entries ≡ 0)
      → Hashed (min a.theta b.theta) b.entries t t'
      → Left
          (minus_set X Y)
          (min a.theta b.theta)
          a.is_ordered
          (missing t' (min a.theta b.theta) a.entries)
  Left-Hashed t t' fresh h = record {
    no_zero = ground (arith, count-missing 0 t' (min a.theta b.theta) a.entries, is_a.no_zero);
    samples = λ k nz. ground (
      arith,
      count-missing k t' (min a.theta b.theta) a.entries,
      h.counts k nz,
      fresh k nz,
      is_a.samples k nz,
      is_b.samples k nz,
    );
    sorted = λ o. missing-IsSorted t' (min a.theta b.theta) a.entries (is_a.sorted o);
  }

-- A new table for `n` keys.
new-IsFixed :
    (more n lg : ℕ) → Fits n lg → more ≤ n → IsFixed more (make_table lg lg 0 max_theta 0 0 true)
unfolding make_table
new-IsFixed more n lg fits le =
    let full = lt→ltb 0 lg (omega (arith, fits.least)) in
    record {
      placed = rw full (empty-IsPlaced lg fits.most);
      filled = rw full (occupied-zeros (2 ^ lg));
      room = omega (arith, fits.room, pow_pos lg);
      same = refl;
      factor = refl;
    }

new-count : (lg k : ℕ) → k ≢ 0 → count k (make_table lg lg 0 max_theta 0 0 true).entries ≡ 0
unfolding make_table
new-count lg k nz = elim (Bool-cases (ltb 0 lg)) [
  | inl e ↦ rw e (count-zeros k (2 ^ lg) nz)
  | inr e ↦ rw e
]

-- The entries by whichever way.
module _ {X Y : HashSet} {a b : Sketch} (is_a : IsSketchOf X a) (is_b : IsSketchOf Y b)
    (few : b.num_retained ≤ most_entries) where
  by_hash :
      b.num_retained ≢ 0
      → (a.is_ordered && b.is_ordered) ≡ false
      → Returns
          (difference_entries (min a.theta b.theta) a b)
          (Left (minus_set X Y) (min a.theta b.theta) a.is_ordered)
  unfolding difference_entries
  by_hash some_in mixed =
      let lg = lg_size_from_count b.num_retained in
      let fixed =
        new-IsFixed (length b.entries) b.num_retained lg
          (lg_size_from_count-Fits b.num_retained (omega arith) few) (omega (arith, is_b.number)) in
      let (t', run, h) =
        hash_entries-Hashed (min a.theta b.theta) b.is_ordered b.entries fixed is_b.no_zero
          is_b.sorted (λ j nz. ground (arith, new-count lg j nz, is_b.samples j nz)) in
      (
        missing t' (min a.theta b.theta) a.entries,
        rw (ne→== _ _ some_in, mixed, run)
            (missing_entries-missing t' (min a.theta b.theta) a.is_ordered a.entries h.fixed
              is_a.no_zero is_a.sorted),
        Left-Hashed is_a is_b _ t' (new-count lg) h,
      )

  difference_entries-Left :
      Returns
        (difference_entries (min a.theta b.theta) a b)
        (Left (minus_set X Y) (min a.theta b.theta) a.is_ordered)
  difference_entries-Left = elim (eq-cases b.num_retained 0) [
    | inl zero ↦
        let e : (b.num_retained == 0) ≡ true = (==_iff _ _).1 zero in
        (
          less_than (min a.theta b.theta) a.entries,
          unfold difference_entries in rw e,
          Left-none is_a is_b (sym is_b.number ∙ zero),
        )
    | inr some_in ↦ elim (Bool-cases (a.is_ordered && b.is_ordered)) [
      | inr mixed ↦ by_hash some_in mixed
      | inl both ↦ (
        less_than (min a.theta b.theta) (set_difference a.entries b.entries),
        unfold difference_entries in rw (ne→== _ _ some_in, both),
        Left-sorted is_a is_b (ground (arith, both)) (ground (arith, both)),
      )
    ]
  ]

-- A compact sample of a set that has the same members below the maximum.
IsCompactOf-below :
    {X Z : HashSet} {c : CompactSketch}
    → ((k : ℕ) → k ≢ 0 → k < max_theta → Z k ≡ X k)
    → IsCompactOf X c
    → IsCompactOf Z c
IsCompactOf-below same c = record {
  no_zero = c.no_zero;
  samples = λ k nz. ground (arith, c.samples k nz, same k nz, c.bounded);
  sorted = c.sorted;
  void = λ e k nz lt. ground (arith, c.void e k nz lt, same k nz lt);
  bounded = c.bounded;
}

-- What `compute` makes of the entries.
finish-IsCompactOf :
    {X : HashSet} (seed_hash theta : ℕ) (e o ordered : Bool) (entries : List ℕ)
    → e ≡ false
    → theta ≤ max_theta
    → Left X theta o entries
    → IsCompactOf X (
        make_compact
          (e || length entries == 0 && theta == max_theta)
          (o || ordered)
          seed_hash
          theta
          (if ordered && not o then sort entries else entries))
finish-IsCompactOf seed_hash theta e o ordered entries open_flag le l =
    make_compact-IsCompactOf _ _ _ _ _ (ground (arith, l.no_zero, count-sort 0 entries))
      (λ k nz. ground (arith, l.samples k nz, count-sort k entries)) (in_order o ordered l.sorted)
      (λ f k nz lt. ground (arith, open_flag, f, l.samples k nz, count-no_length k entries)) le
  where
    in_order :
        (o ordered : Bool)
        → (o ≡ true → IsSorted entries)
        → (o || ordered) ≡ true
        → IsSorted (if ordered && not o then sort entries else entries)
    in_order true true s f = s refl
    in_order true false s f = s refl
    in_order false true s f = sort-IsSorted entries
    in_order false false s f = absurd (cc f)

-- An early return of `compute` loses nothing: one of the sketches is empty.
early-same :
    {X Y : HashSet} {a b : Sketch}
    → IsSketchOf X a
    → IsSketchOf Y b
    → (a.is_empty || ltb 0 a.num_retained && b.is_empty) ≡ true
    → (k : ℕ) → k ≢ 0
    → k < max_theta
    → minus_set X Y k ≡ X k
early-same {a = a} {b = b} is_a is_b early k nz lt = elim (Bool-cases a.is_empty) [
  | inl e ↦ ground (arith, is_a.void e k nz lt)
  | inr e ↦ elim (Bool-cases b.is_empty) [
    | inl f ↦ ground (arith, is_b.void f k nz lt)
    | inr f ↦ absurd (ground (arith, early, e, f))
  ]
]

-- `compute` on a sample of `X` and a sample of `Y`, both with the seed hash of the operation, the
-- second with at most 125829120 retained entries, returns a compact sample of the members of `X`
-- that are not in `Y`: by the early return, the plain copy, the merge of ordered entries or the
-- hash table.
pub compute-IsCompactOf :
    {X Y : HashSet} {a b : Sketch} (seed_hash : ℕ) (ordered : Bool)
    → IsSketchOf X a
    → IsSketchOf Y b
    → a.seed_hash ≡ seed_hash
    → b.seed_hash ≡ seed_hash
    → b.num_retained ≤ most_entries
    → Returns (compute seed_hash a b ordered) (IsCompactOf (minus_set X Y))
unfolding compute
compute-IsCompactOf {a = a} {b = b} seed_hash ordered is_a is_b same_a same_b few =
    let seed_a : (a.seed_hash == seed_hash) ≡ true = (==_iff _ _).1 same_a in
    let seed_b : (b.seed_hash == seed_hash) ≡ true = (==_iff _ _).1 same_b in
    elim (Bool-cases (a.is_empty || ltb 0 a.num_retained && b.is_empty)) [
      | inl early ↦ (
        copy_compact a ordered,
        rw early,
        IsCompactOf-below (λ k nz lt. early-same is_a is_b early k nz lt)
            (copy_compact-IsCompactOf ordered is_a),
      )
      | inr on ↦
          let (entries, run, l) = difference_entries-Left is_a is_b few in
          (
            _,
            rw (on, seed_a, seed_b, run),
            finish-IsCompactOf seed_hash (min a.theta b.theta) a.is_empty a.is_ordered ordered
                entries (ground (arith, on)) (omega (arith, is_a.bounded)) l,
          )
    ]
