-- ===== src/Base/Counts.antt =====
-- How often a number stands in a list, and how many of its numbers are not zero. A hash table of
-- the library is an array in which 0 marks an empty slot.
use Prim.Native.Nat.{ℕ, zero, suc, ◌+◌, ◌≤◌, ◌<◌}
use mathlib.Core.Path.{◌≡◌, refl, ap}
use mathlib.Core.Logic.{◌≢◌}
use mathlib.Core.List.{List, [], ◌∷◌, ◌++◌}
use mathlib.Core.Option.{some}
use native.Mathlib.Omega.{arith}
use singlestoredb_extension.Base.Tests.{◌==◌, if◌then◌else◌}
use singlestoredb_extension.Base.Lists.{length, get_elem?, set, replicate}

-- One if the slot `x` holds `k`.
abbrev pub hit : ℕ → ℕ → ℕ
hit k x = if x == k then 1 else 0

abbrev pub count : ℕ → List ℕ → ℕ
count k [] = 0
count k (x ∷ xs) = hit k x + count k xs

-- One if the slot is taken.
abbrev pub taken : ℕ → ℕ
taken x = if x == 0 then 0 else 1

abbrev pub occupied : List ℕ → ℕ
occupied [] = 0
occupied (x ∷ xs) = taken x + occupied xs

pub count-append : (k : ℕ) (xs ys : List ℕ) → count k (xs ++ ys) ≡ count k xs + count k ys
count-append k [] ys = omega arith
count-append k (x ∷ xs) ys = omega (arith, count-append k xs ys)

pub occupied-append : (xs ys : List ℕ) → occupied (xs ++ ys) ≡ occupied xs + occupied ys
occupied-append [] ys = omega arith
occupied-append (x ∷ xs) ys = omega (arith, occupied-append xs ys)

pub count-zeros : (k n : ℕ) → k ≢ 0 → count k (replicate n 0) ≡ 0
unfolding replicate
count-zeros k zero h = refl
count-zeros k (suc n) h = ground (arith, count-zeros k n h)

pub occupied-zeros : (n : ℕ) → occupied (replicate n 0) ≡ 0
unfolding replicate
occupied-zeros zero = refl
occupied-zeros (suc n) = ground (arith, occupied-zeros n)

pub occupied-le : (xs : List ℕ) → occupied xs ≤ length xs
occupied-le [] = omega arith
occupied-le (x ∷ xs) = ground (arith, occupied-le xs)

-- A write trades the old content of the slot for the new one.
pub count-set :
    (k : ℕ) (xs : List ℕ) (i x v : ℕ)
    → get_elem? xs i ≡ some x
    → count k (set xs i v) + hit k x ≡ count k xs + hit k v
count-set k [] i x v h = cc
count-set k (y ∷ xs) zero x v h = ground arith
count-set k (y ∷ xs) (suc i) x v h = omega (arith, count-set k xs i x v h)

pub occupied-set :
    (xs : List ℕ) (i x v : ℕ)
    → get_elem? xs i ≡ some x
    → occupied (set xs i v) + taken x ≡ occupied xs + taken v
occupied-set [] i x v h = cc
occupied-set (y ∷ xs) zero x v h = ground arith
occupied-set (y ∷ xs) (suc i) x v h = omega (arith, occupied-set xs i x v h)

pub count_pos : (xs : List ℕ) (i k : ℕ) → get_elem? xs i ≡ some k → 0 < count k xs
count_pos [] i k h = cc
count_pos (x ∷ xs) zero k h = ground arith
count_pos (x ∷ xs) (suc i) k h = omega (arith, count_pos xs i k h)

-- An array that is not full has an empty slot.
pub empty_slot :
    (xs : List ℕ) → occupied xs < length xs → (i : ℕ) × (i < length xs) × (get_elem? xs i ≡ some 0)
empty_slot [] h = elim h [ ]
empty_slot (zero ∷ xs) h = (0, omega arith, refl)
empty_slot (suc x ∷ xs) h =
    let (i, inside, e) = empty_slot xs (ground arith) in (suc i, omega arith, e)

-- Two slots that hold the same number.
pub unique_slot :
    (k : ℕ) (xs : List ℕ) (i j : ℕ)
    → count k xs ≤ 1
    → get_elem? xs i ≡ some k
    → get_elem? xs j ≡ some k
    → i ≡ j
unique_slot k [] i j once p q = cc
unique_slot k (x ∷ xs) zero zero once p q = refl
unique_slot k (x ∷ xs) zero (suc j) once p q = ground (arith, count_pos xs j k q)
unique_slot k (x ∷ xs) (suc i) zero once p q = ground (arith, count_pos xs i k p)
unique_slot k (x ∷ xs) (suc i) (suc j) once p q = ap suc (unique_slot k xs i j (ground arith) p q)

pub count_of_empty : (k : ℕ) (xs : List ℕ) → k ≢ 0 → occupied xs ≡ 0 → count k xs ≡ 0
count_of_empty k [] nz e = refl
count_of_empty k (x ∷ xs) nz e = ground (arith, count_of_empty k xs nz)

-- The list without the first `k`.
remove_one : ℕ → List ℕ → List ℕ
remove_one k [] = []
remove_one k (x ∷ xs) = if x == k then xs else x ∷ remove_one k xs

count-remove_one :
    (k j : ℕ) (xs : List ℕ) → 0 < count k xs → count j (remove_one k xs) + hit j k ≡ count j xs
unfolding remove_one
count-remove_one k j [] there = absurd (omega arith)
count-remove_one k j (x ∷ xs) there = ground (arith, count-remove_one k j xs)

length-remove_one :
    (k : ℕ) (xs : List ℕ) → 0 < count k xs → suc (length (remove_one k xs)) ≡ length xs
unfolding remove_one
length-remove_one k [] there = absurd (omega arith)
length-remove_one k (x ∷ xs) there = ground (arith, length-remove_one k xs)

-- A list whose numbers another one has too, as often, is not longer.
pub length-counted :
    (xs ys : List ℕ)
    → count 0 xs ≡ 0
    → ((k : ℕ) → k ≢ 0 → count k xs ≤ count k ys)
    → length xs ≤ length ys
length-counted [] ys no_zero among = omega arith
length-counted (zero ∷ xs) ys no_zero among = absurd (ground arith)
length-counted (suc x ∷ xs) ys no_zero among =
    let there : 0 < count (suc x) ys = ground (arith, among (suc x)) in
    let shorter : length xs ≤ length (remove_one (suc x) ys) =
      length-counted xs (remove_one (suc x) ys) (ground arith)
        (λ k nz. ground (arith, among k nz, count-remove_one (suc x) k ys there)) in
    omega (arith, shorter, length-remove_one (suc x) ys there)

-- Slots are empty or taken.
pub occupied-count_zero : (xs : List ℕ) → occupied xs + count 0 xs ≡ length xs
occupied-count_zero [] = omega arith
occupied-count_zero (x ∷ xs) = ground (arith, occupied-count_zero xs)
