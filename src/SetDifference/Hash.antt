-- ===== src/SetDifference/Hash.antt =====
-- The hash-based way: a table of the second sketch, and the entries of the first that are not in it.
use singlestoredb_extension.Base.{
  ℕ, suc, ◌+◌, ◌^◌, ◌≤◌, ◌<◌, ◌≡◌, ◌≢◌, refl, ◌∙◌, ◌>>=◌, ◌⊎◌, Bool, true, false, ok, List, [], ◌∷◌,
  Returns, arith, set, length, ltb, ◌==◌, if◌then◌else◌, le→ltb, lt→ltb, lt-cases, Bool-cases, inl,
  inr,
}
use singlestoredb_extension.Base.Counts.{count, occupied}
use singlestoredb_extension.Base.Powers.{pow_mono}
use singlestoredb_extension.Base.Sorting.{IsSorted, AtLeast-count}
use singlestoredb_extension.Table.{Table, get_capacity, insert}
use singlestoredb_extension.Table.Place.{IsPlaced, Hit, Miss, Added, find-cases, set-Added}
use singlestoredb_extension.Table.Resize.{next_lg_size, resize-Rehashed}
use singlestoredb_extension.Table.Fill.{insert_within, insert_over, with_entries}
use singlestoredb_extension.SetDifference.{hash_entries}

-- A table of a fixed size, with room for `more` keys.
pub record IsFixed (more : ℕ) (t : Table) : Type 0 where
  pub placed : IsPlaced t.lg_cur_size t.entries
  pub filled : occupied t.entries ≡ t.num_entries
  pub room : t.num_entries + more < 2 ^ t.lg_cur_size
  pub same : t.lg_nom_size ≡ t.lg_cur_size
  pub factor : t.rf ≡ 0

pub IsFixed-find :
    {more : ℕ} {t : Table} (k : ℕ)
    → IsFixed more t
    → k ≢ 0
    → Hit t.lg_cur_size t.entries k ⊎ Miss t.lg_cur_size t.entries k
IsFixed-find k h nz = find-cases h.placed k nz (omega (arith, h.filled, h.room, h.placed.width))

-- The keys of before and `k`.
record Put (k more : ℕ) (t t' : Table) : Type 0 where
  fixed : IsFixed more t'
  counts : (j : ℕ) → j ≢ 0 → count j t'.entries ≡ count j t.entries + (if j == k then 1 else 0)

module _ {k more : ℕ} {t : Table} (h : IsFixed (suc more) t) (nz : k ≢ 0)
    (m : Miss t.lg_cur_size t.entries k) where
  added : Added t.lg_cur_size k t.entries (set t.entries m.slot k)
  added = set-Added h.placed nz m

  size_bound : 2 ^ t.lg_cur_size ≤ 2 ^ 27
  size_bound = pow_mono t.lg_cur_size 27 h.placed.small

  Put-within :
      t.num_entries + 1 ≤ get_capacity t.lg_cur_size t.lg_nom_size
      → Returns (insert t m.slot k) (Put k more t)
  Put-within fits = (
    with_entries t (set t.entries m.slot k) (t.num_entries + 1),
    insert_within t m.slot k fits (omega (arith, h.room, size_bound)),
    record {
      fixed = record {
        placed = added.placed;
        filled = omega (arith, added.filled, h.filled);
        room = omega (arith, h.room);
        same = h.same;
        factor = h.factor;
      };
      counts = λ j j_nz. ground (arith, added.counts j j_nz);
    },
  )

  -- Past half of the array it is made anew, in the same size.
  Put-resize :
      get_capacity t.lg_cur_size t.lg_nom_size < t.num_entries + 1
      → Returns (insert t m.slot k) (Put k more t)
  Put-resize over =
      let written = with_entries t (set t.entries m.slot k) (t.num_entries + 1) in
      let size : next_lg_size written ≡ t.lg_cur_size = omega (arith, h.same, h.factor) in
      let (r, run, p) =
        resize-Rehashed written (omega (arith, h.factor, h.placed.small))
          (omega (arith, h.same, h.placed.small)) (omega (arith, size, h.placed.small))
          added.placed.width added.placed.once
          (rw size (omega (arith, added.filled, h.filled, h.room))) in
      (
        record written { entries = r; lg_cur_size = next_lg_size written },
        insert_over t m.slot k over (omega (arith, h.same)) (omega (arith, h.room, size_bound))
            ∙ run,
        record {
          fixed = record {
            placed = p.placed;
            filled = omega (arith, p.filled, added.filled, h.filled);
            room = rw size (omega (arith, h.room));
            same = omega (arith, size, h.same);
            factor = h.factor;
          };
          counts = λ j j_nz. ground (arith, p.counts j j_nz, added.counts j j_nz);
        },
      )

  put : Returns (insert t m.slot k) (Put k more t)
  put = elim (lt-cases (get_capacity t.lg_cur_size t.lg_nom_size) (t.num_entries + 1)) [
    | inl over ↦ Put-resize over
    | inr fits ↦ Put-within fits
  ]

-- The table after the loop over the second sketch.
pub record Hashed (theta : ℕ) (hashes : List ℕ) (t t' : Table) : Type 0 where
  pub fixed : IsFixed 0 t'
  pub counts :
      (j : ℕ)
      → j ≢ 0
      → count j t'.entries ≡ count j t.entries + (if ltb j theta then count j hashes else 0)

-- The rounds of the loop.
module _ (theta : ℕ) (o : Bool) (hash : ℕ) (hashes : List ℕ) (t : Table) where
  hash-below :
      hash < theta
      → (m : Miss t.lg_cur_size t.entries hash)
      → hash_entries theta o (hash ∷ hashes) t
        ≡ (insert t m.slot hash >>= hash_entries theta o hashes)
  unfolding hash_entries
  hash-below lt m = rw (lt→ltb _ _ lt, hash_entries, m.run)

  hash-stop : theta ≤ hash → o ≡ true → hash_entries theta o (hash ∷ hashes) t ≡ ok t
  unfolding hash_entries
  hash-stop le e = rw (le→ltb _ _ le, hash_entries, e)

  hash-skip :
      theta ≤ hash
      → o ≡ false
      → hash_entries theta o (hash ∷ hashes) t ≡ hash_entries theta o hashes t
  unfolding hash_entries
  hash-skip le e = rw (le→ltb _ _ le, hash_entries, e)

IsFixed-less : {more : ℕ} (less : ℕ) {t : Table} → less ≤ more → IsFixed more t → IsFixed less t
IsFixed-less less le h = record {
  placed = h.placed;
  filled = h.filled;
  room = omega (arith, h.room);
  same = h.same;
  factor = h.factor;
}

pub hash_entries-Hashed :
    (theta : ℕ) (o : Bool) (hashes : List ℕ) {t : Table}
    → IsFixed (length hashes) t
    → count 0 hashes ≡ 0
    → (o ≡ true → IsSorted hashes)
    → ((j : ℕ) → j ≢ 0 → count j t.entries + count j hashes ≤ 1)
    → Returns (hash_entries theta o hashes t) (Hashed theta hashes t)
hash_entries-Hashed theta o [] {t = t} h no_zero sorted once =
    (t, unfold hash_entries in refl, record { fixed = h; counts = λ j nz. ground arith })
hash_entries-Hashed theta o (hash ∷ hashes) {t = t} h no_zero sorted once =
    let nz : hash ≢ 0 = ground arith in
    elim (lt-cases hash theta) [
      | inl lt ↦ elim (IsFixed-find hash h nz) [
        | inl there ↦ absurd (ground (arith, once hash nz, there.present))
        | inr m ↦
            let (t₁, run₁, p) = put h nz m in
            let (t₂, run₂, r) =
              hash_entries-Hashed theta o hashes p.fixed (ground arith) (λ e. (sorted e).1)
                (λ j j_nz. ground (arith, once j j_nz, p.counts j j_nz)) in
            (
              t₂,
              rw (hash-below theta o hash hashes t lt m, run₁) run₂,
              record {
                fixed = r.fixed;
                counts = λ j j_nz. ground (arith, r.counts j j_nz, p.counts j j_nz);
              },
            )
      ]
      | inr le ↦ elim (Bool-cases o) [
        | inl e ↦ (
          t,
          hash-stop theta o hash hashes t le e,
          record {
            fixed = IsFixed-less 0 (omega arith) h;
            counts = λ j j_nz. ground (arith, AtLeast-count hash j hashes (sorted e).0);
          },
        )
        | inr e ↦
            let (t₂, run₂, r) =
              hash_entries-Hashed theta o hashes (IsFixed-less _ (omega arith) h) (ground arith)
                (λ f. (sorted f).1) (λ j j_nz. ground (arith, once j j_nz)) in
            (
              t₂,
              hash-skip theta o hash hashes t le e ∙ run₂,
              record { fixed = r.fixed; counts = λ j j_nz. ground (arith, r.counts j j_nz) },
            )
      ]
    ]
