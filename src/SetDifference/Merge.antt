-- ===== src/SetDifference/Merge.antt =====
-- The sort-based way: the merge of two ordered lists leaves what only the first has.
use singlestoredb_extension.Base.{ℕ, ◌≤◌, ◌<◌, ◌≡◌, refl, List, [], ◌∷◌, arith, ltb, if◌then◌else◌}
use singlestoredb_extension.Base.Counts.{count}
use singlestoredb_extension.Base.Sorting.{IsSorted, AtLeast, AtLeast-count, AtLeast-mono}
use singlestoredb_extension.SetDifference.{less_than, skip_below, take_equal, set_difference}

pub count-less_than :
    (k theta : ℕ) (xs : List ℕ)
    → count k (less_than theta xs) ≡ (if ltb k theta then count k xs else 0)
unfolding less_than
count-less_than k theta [] = ground arith
count-less_than k theta (x ∷ xs) = ground (arith, count-less_than k theta xs)

count-skip_below : (k x : ℕ) (ys : List ℕ) → x ≤ k → count k (skip_below x ys) ≡ count k ys
unfolding skip_below
count-skip_below k x [] le = refl
count-skip_below k x (y ∷ ys) le = ground (arith, count-skip_below k x ys)

skip_below-IsSorted : (x : ℕ) (ys : List ℕ) → IsSorted ys → IsSorted (skip_below x ys)
unfolding skip_below
skip_below-IsSorted x [] s = tt
skip_below-IsSorted x (y ∷ ys) s = ground (arith, skip_below-IsSorted x ys)

AtLeast-skip_below : (x : ℕ) (ys : List ℕ) → IsSorted ys → AtLeast x (skip_below x ys)
unfolding skip_below
AtLeast-skip_below x [] s = tt
AtLeast-skip_below x (y ∷ ys) s = ground (arith, AtLeast-skip_below x ys, AtLeast-mono x y ys)

-- What a step leaves.
record Taken (x : ℕ) (ys : List ℕ) : Type 0 where
  sorted : IsSorted (take_equal x ys).1
  above : (k : ℕ) → x < k → count k (take_equal x ys).1 ≡ count k ys
  gone : (take_equal x ys).0 ≡ ltb 0 (count x ys)

take_equal-Taken : (x : ℕ) (ys : List ℕ) → IsSorted ys → AtLeast x ys → Taken x ys
unfolding take_equal
take_equal-Taken x [] s a = record { sorted = tt; above = λ k lt. refl; gone = ground arith }
take_equal-Taken x (y ∷ ys) s a = record {
  sorted = ground arith;
  above = λ k lt. ground arith;
  gone = ground (arith, AtLeast-count y x ys s.0);
}

-- The merge removes what the second list has.
pub count-set_difference :
    (k : ℕ) (xs ys : List ℕ)
    → IsSorted xs
    → IsSorted ys
    → ((j : ℕ) → count j xs ≤ 1)
    → count k (set_difference xs ys) ≡ (if ltb 0 (count k ys) then 0 else count k xs)
unfolding set_difference
count-set_difference k [] ys s s' once = ground arith
count-set_difference k (x ∷ xs) ys s s' once =
    let zs = skip_below x ys in
    let t = take_equal-Taken x zs (skip_below-IsSorted x ys s') (AtLeast-skip_below x ys s') in
    let rest =
      count-set_difference k xs (take_equal x zs).1 s.1 t.sorted (λ j. omega (arith, once j)) in
    ground (
      arith,
      rest,
      t.gone,
      t.above k,
      count-skip_below k x ys,
      count-skip_below x x ys,
      AtLeast-count x k xs s.0,
      once k,
    )
