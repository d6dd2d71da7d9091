-- ===== src/Base/Sorting.antt =====
-- Sorting of keys. `std::sort` and `std::nth_element` of the standard library are both read as this
-- insertion sort: the order that it produces is one that `std::nth_element` may leave.
use Prim.Native.Nat.{ℕ, zero, suc, ◌+◌, ◌≤◌, ◌<◌}
use mathlib.Core.Path.{◌≡◌, refl}
use mathlib.Core.List.{List, [], ◌∷◌}
use mathlib.Core.Option.{some}
use native.Mathlib.Omega.{arith}
use singlestoredb_extension.Base.Tests.{ltb, leb, if◌then◌else◌}
use singlestoredb_extension.Base.Lists.{length, get_elem?, take}
use singlestoredb_extension.Base.Counts.{hit, count, count_pos}

unfoldable pub insert_sorted : ℕ → List ℕ → List ℕ
insert_sorted a [] = a ∷ []
insert_sorted a (x ∷ xs) = if leb a x then a ∷ x ∷ xs else x ∷ insert_sorted a xs

unfoldable pub sort : List ℕ → List ℕ
unfolding insert_sorted
sort [] = []
sort (x ∷ xs) = insert_sorted x (sort xs)

abbrev pub AtLeast : ℕ → List ℕ → Type 0
AtLeast a [] = Unit
AtLeast a (x ∷ xs) = (a ≤ x) × AtLeast a xs

abbrev pub IsSorted : List ℕ → Type 0
IsSorted [] = Unit
IsSorted (x ∷ xs) = AtLeast x xs × IsSorted xs

count-insert_sorted : (k a : ℕ) (xs : List ℕ) → count k (insert_sorted a xs) ≡ hit k a + count k xs
unfolding insert_sorted
count-insert_sorted k a [] = refl
count-insert_sorted k a (x ∷ xs) = ground (arith, count-insert_sorted k a xs)

pub count-sort : (k : ℕ) (xs : List ℕ) → count k (sort xs) ≡ count k xs
unfolding sort
count-sort k [] = refl
count-sort k (x ∷ xs) = omega (arith, count-insert_sorted k x (sort xs), count-sort k xs)

length-insert_sorted : (a : ℕ) (xs : List ℕ) → length (insert_sorted a xs) ≡ suc (length xs)
unfolding insert_sorted
length-insert_sorted a [] = refl
length-insert_sorted a (x ∷ xs) = ground (arith, length-insert_sorted a xs)

pub length-sort : (xs : List ℕ) → length (sort xs) ≡ length xs
unfolding sort
length-sort [] = refl
length-sort (x ∷ xs) = omega (arith, length-insert_sorted x (sort xs), length-sort xs)

pub AtLeast-mono : (a b : ℕ) (xs : List ℕ) → a ≤ b → AtLeast b xs → AtLeast a xs
AtLeast-mono a b [] h p = tt
AtLeast-mono a b (x ∷ xs) h p = (omega arith, AtLeast-mono a b xs h p.1)

AtLeast-insert_sorted :
    (b a : ℕ) (xs : List ℕ) → b ≤ a → AtLeast b xs → AtLeast b (insert_sorted a xs)
unfolding insert_sorted
AtLeast-insert_sorted b a [] h p = (h, tt)
AtLeast-insert_sorted b a (x ∷ xs) h p = ground (arith, AtLeast-insert_sorted b a xs h)

insert_sorted-IsSorted : (a : ℕ) (xs : List ℕ) → IsSorted xs → IsSorted (insert_sorted a xs)
unfolding insert_sorted
insert_sorted-IsSorted a [] s = (tt, tt)
insert_sorted-IsSorted a (x ∷ xs) s =
    ground (arith, AtLeast-mono a x xs, insert_sorted-IsSorted a xs, AtLeast-insert_sorted x a xs)

pub sort-IsSorted : (xs : List ℕ) → IsSorted (sort xs)
unfolding sort
sort-IsSorted [] = tt
sort-IsSorted (x ∷ xs) = insert_sorted-IsSorted x (sort xs) (sort-IsSorted xs)

AtLeast-get : (a : ℕ) (xs : List ℕ) (n x : ℕ) → AtLeast a xs → get_elem? xs n ≡ some x → a ≤ x
AtLeast-get a [] n x p e = cc
AtLeast-get a (y ∷ xs) zero x p e = ground arith
AtLeast-get a (y ∷ xs) (suc n) x p e = AtLeast-get a xs n x p.1 e

pub AtLeast-count : (a k : ℕ) (xs : List ℕ) → AtLeast a xs → k < a → count k xs ≡ 0
AtLeast-count a k [] p h = refl
AtLeast-count a k (x ∷ xs) p h = ground (arith, AtLeast-count a k xs p.1 h)

-- The first `n` of a sorted list are the elements below the one at `n`, if that one is single.
pub count-take_sorted :
    (k n : ℕ) (xs : List ℕ) (pivot : ℕ)
    → IsSorted xs
    → get_elem? xs n ≡ some pivot
    → count pivot xs ≤ 1
    → count k (take n xs) ≡ (if ltb k pivot then count k xs else 0)
count-take_sorted k n [] pivot s e once = cc
count-take_sorted k zero (x ∷ xs) pivot s e once = ground (arith, AtLeast-count x k xs s.0)
count-take_sorted k (suc n) (x ∷ xs) pivot s e once = ground (
  arith,
  count-take_sorted k n xs pivot s.1 e,
  AtLeast-get x xs n pivot s.0 e,
  count_pos xs n pivot e,
)
