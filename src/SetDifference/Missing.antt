-- ===== src/SetDifference/Missing.antt =====
-- The second loop of the hash-based way keeps the entries that the table does not hold.
use singlestoredb_extension.Base.{
  ℕ, ◌≤◌, ◌<◌, ◌≡◌, refl, Bool, true, false, ok, List, [], ◌∷◌, arith, ltb, ◌==◌, ◌&&◌,
  if◌then◌else◌, le→ltb, lt→ltb, lt-cases, Bool-cases, inl, inr,
}
use singlestoredb_extension.Base.Counts.{count}
use singlestoredb_extension.Base.Sorting.{IsSorted, AtLeast}
use singlestoredb_extension.Table.{Table}
use singlestoredb_extension.Table.Place.{Hit, Miss}
use singlestoredb_extension.SetDifference.{
  missing_entries, less_than, set_difference, take_equal, skip_below,
}
use singlestoredb_extension.SetDifference.Hash.{IsFixed, IsFixed-find}

-- The hashes below theta that the table does not hold.
pub missing : Table → ℕ → List ℕ → List ℕ
missing t theta [] = []
missing t theta (hash ∷ hashes) =
    if ltb hash theta && count hash t.entries == 0
    then hash ∷ missing t theta hashes
    else missing t theta hashes

pub count-missing :
    (k : ℕ) (t : Table) (theta : ℕ) (hashes : List ℕ)
    → count k (missing t theta hashes)
      ≡ (if ltb k theta && count k t.entries == 0 then count k hashes else 0)
unfolding missing
count-missing k t theta [] = ground arith
count-missing k t theta (hash ∷ hashes) = ground (arith, count-missing k t theta hashes)

AtLeast-missing :
    (a : ℕ) (t : Table) (theta : ℕ) (hashes : List ℕ)
    → AtLeast a hashes
    → AtLeast a (missing t theta hashes)
unfolding missing
AtLeast-missing a t theta [] h = tt
AtLeast-missing a t theta (x ∷ xs) h = ground (arith, AtLeast-missing a t theta xs)

pub missing-IsSorted :
    (t : Table) (theta : ℕ) (hashes : List ℕ) → IsSorted hashes → IsSorted (missing t theta hashes)
unfolding missing
missing-IsSorted t theta [] s = tt
missing-IsSorted t theta (x ∷ xs) s =
    ground (arith, missing-IsSorted t theta xs, AtLeast-missing x t theta xs)

missing-none :
    (a : ℕ) (t : Table) (theta : ℕ) (hashes : List ℕ)
    → AtLeast a hashes
    → theta ≤ a
    → missing t theta hashes ≡ []
unfolding missing
missing-none a t theta [] h le = refl
missing-none a t theta (x ∷ xs) h le = ground (arith, missing-none a t theta xs h.1 le)

-- The other filters keep the order too.
AtLeast-less_than : (a theta : ℕ) (xs : List ℕ) → AtLeast a xs → AtLeast a (less_than theta xs)
unfolding less_than
AtLeast-less_than a theta [] h = tt
AtLeast-less_than a theta (x ∷ xs) h = ground (arith, AtLeast-less_than a theta xs)

pub less_than-IsSorted : (theta : ℕ) (xs : List ℕ) → IsSorted xs → IsSorted (less_than theta xs)
unfolding less_than
less_than-IsSorted theta [] s = tt
less_than-IsSorted theta (x ∷ xs) s =
    ground (arith, less_than-IsSorted theta xs, AtLeast-less_than x theta xs)

AtLeast-set_difference : (a : ℕ) (xs ys : List ℕ) → AtLeast a xs → AtLeast a (set_difference xs ys)
unfolding set_difference
AtLeast-set_difference a [] ys h = tt
AtLeast-set_difference a (x ∷ xs) ys h =
    ground (arith, AtLeast-set_difference a xs (take_equal x (skip_below x ys)).1)

pub set_difference-IsSorted : (xs ys : List ℕ) → IsSorted xs → IsSorted (set_difference xs ys)
unfolding set_difference
set_difference-IsSorted [] ys s = tt
set_difference-IsSorted (x ∷ xs) ys s = ground (
  arith,
  set_difference-IsSorted xs (take_equal x (skip_below x ys)).1,
  AtLeast-set_difference x xs (take_equal x (skip_below x ys)).1,
)

-- The rounds of the loop.
module _ (t : Table) (theta : ℕ) (o : Bool) (hash : ℕ) (hashes : List ℕ) where
  round-Hit :
      hash < theta
      → Hit t.lg_cur_size t.entries hash
      → missing_entries t theta o hashes ≡ ok (missing t theta hashes)
      → missing_entries t theta o (hash ∷ hashes) ≡ ok (missing t theta (hash ∷ hashes))
  unfolding missing_entries missing
  round-Hit lt h run = rw (lt→ltb _ _ lt, missing_entries, h.run, run, h.present)

  round-Miss :
      hash < theta
      → Miss t.lg_cur_size t.entries hash
      → missing_entries t theta o hashes ≡ ok (missing t theta hashes)
      → missing_entries t theta o (hash ∷ hashes) ≡ ok (missing t theta (hash ∷ hashes))
  unfolding missing_entries missing
  round-Miss lt h run = rw (lt→ltb _ _ lt, missing_entries, h.run, run, h.absent)

  round-stop :
      theta ≤ hash
      → o ≡ true
      → AtLeast hash hashes
      → missing_entries t theta o (hash ∷ hashes) ≡ ok (missing t theta (hash ∷ hashes))
  unfolding missing_entries missing
  round-stop le e above =
      rw (le→ltb _ _ le, missing_entries, e, missing-none hash t theta hashes above le)

  round-skip :
      theta ≤ hash
      → o ≡ false
      → missing_entries t theta o hashes ≡ ok (missing t theta hashes)
      → missing_entries t theta o (hash ∷ hashes) ≡ ok (missing t theta (hash ∷ hashes))
  unfolding missing_entries missing
  round-skip le e run = rw (le→ltb _ _ le, missing_entries, e) run

pub missing_entries-missing :
    (t : Table) (theta : ℕ) (o : Bool) (hashes : List ℕ)
    → IsFixed 0 t
    → count 0 hashes ≡ 0
    → (o ≡ true → IsSorted hashes)
    → missing_entries t theta o hashes ≡ ok (missing t theta hashes)
missing_entries-missing t theta o [] h no_zero sorted = unfold missing_entries missing in refl
missing_entries-missing t theta o (hash ∷ hashes) h no_zero sorted =
    let rest = missing_entries-missing t theta o hashes h (ground arith) (λ e. (sorted e).1) in
    elim (lt-cases hash theta) [
      | inl lt ↦ elim (IsFixed-find hash h (ground arith)) [
        | inl hit ↦ round-Hit t theta o hash hashes lt hit rest
        | inr miss ↦ round-Miss t theta o hash hashes lt miss rest
      ]
      | inr le ↦ elim (Bool-cases o) [
        | inl e ↦ round-stop t theta o hash hashes le e (sorted e).0
        | inr e ↦ round-skip t theta o hash hashes le e rest
      ]
    ]
