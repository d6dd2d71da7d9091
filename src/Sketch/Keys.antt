-- ===== src/Sketch/Keys.antt =====
-- The keys that an iterator passes through.
use singlestoredb_extension.Base.{ℕ, zero, suc, ◌≡◌, ◌≢◌, ◌≤◌, refl, List, [], ◌∷◌, arith, length}
use singlestoredb_extension.Base.Counts.{count, occupied}
use singlestoredb_extension.Base.Sorting.{IsSorted}
use singlestoredb_extension.Sketch.{keys}

pub count-keys : (k : ℕ) (xs : List ℕ) → k ≢ 0 → count k (keys xs) ≡ count k xs
unfolding keys
count-keys k [] nz = refl
count-keys k (x ∷ xs) nz = ground (arith, count-keys k xs nz)

pub count-keys_zero : (xs : List ℕ) → count 0 (keys xs) ≡ 0
unfolding keys
count-keys_zero [] = refl
count-keys_zero (x ∷ xs) = ground (arith, count-keys_zero xs)

pub length-keys : (xs : List ℕ) → length (keys xs) ≡ occupied xs
unfolding keys
length-keys [] = refl
length-keys (x ∷ xs) = ground (arith, length-keys xs)

-- An array with no empty slot is its keys.
pub keys-full : (xs : List ℕ) → count 0 xs ≡ 0 → keys xs ≡ xs
unfolding keys
keys-full [] h = refl
keys-full (zero ∷ xs) h = absurd (ground arith)
keys-full (suc x ∷ xs) h = ground (arith, keys-full xs)

-- A list of at most one element is in order.
pub short-IsSorted : (xs : List ℕ) → length xs ≤ 1 → IsSorted xs
short-IsSorted [] h = tt
short-IsSorted (x ∷ []) h = (tt, tt)
short-IsSorted (x ∷ y ∷ xs) h = absurd (omega arith)
