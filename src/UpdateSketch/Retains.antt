-- ===== src/UpdateSketch/Retains.antt =====
-- What an update sketch retains of the hashes that it was given: those that are not 0 and below
-- theta, each of them once. Every update succeeds, whichever way it takes through the table.
use singlestoredb_extension.Base.{
  ℕ, ◌≤◌, ◌<◌, ◌≡◌, ◌≢◌, refl, Bool, true, false, List, [], ◌∷◌, Returns, arith, min, ltb, leb,
  if◌then◌else◌, eq-cases, lt-cases, inl, inr, ◌⊎◌, ◌+◌, ◌^◌, ap, lt→leb, le→leb, ne→==, ◌++◌, sym,
  ◌∙◌,
}
use singlestoredb_extension.Base.Counts.{count, count-append}
use mathlib.Core.List.{append-nil}
use singlestoredb_extension.Table.{Table, make_table, screen}
use singlestoredb_extension.Table.Shape.{capacity-lt}
use singlestoredb_extension.Table.Place.{Hit, Miss, find-cases}
use singlestoredb_extension.Table.Insert.{IsTable, insert-Inserted}
use singlestoredb_extension.Table.Start.{make_table-count}
use singlestoredb_extension.UpdateSketch.{
  Builder, build, starting_lg_size, update_by_hash, update_all,
}
use singlestoredb_extension.UpdateSketch.Build.{IsBuilder, build-IsTable}

abbrev pub is_nil : List ℕ → Bool
is_nil [] = true
is_nil (x ∷ xs) = false

-- The hashes `seen` leave in the table of builder `b` those below theta.
pub record Retains (b : Builder) (seen : List ℕ) (t : Table) : Type 0 where
  pub table : IsTable t
  pub flag : t.is_empty ≡ is_nil seen
  pub lowers : t.theta ≤ b.p_theta
  pub seed : t.seed ≡ b.seed
  pub nominal : t.lg_nom_size ≡ b.lg_k
  pub size : (t.theta ≡ b.p_theta) ⊎ (2 ^ b.lg_k ≤ t.num_entries)
  pub counts :
      (k : ℕ) → k ≢ 0 → count k t.entries ≡ (if ltb k t.theta then min 1 (count k seen) else 0)

-- The flag of emptiness is no part of the invariant.
opened : Table → Table
opened t = record t { is_empty = false }

opened-IsTable : (t : Table) → IsTable t → IsTable (opened t)
unfolding opened
opened-IsTable t is = record {
  shape = is.shape;
  placed = is.placed;
  filled = is.filled;
  room = is.room;
  below = is.below;
}

module _ {b : Builder} {seen : List ℕ} {t : Table} (r : Retains b seen t) (hash : ℕ) where
  is : IsTable (opened t)
  is = opened-IsTable t r.table

  -- A hash that is screened out, or is there already, leaves the keys as they are.
  unchanged :
      ((k : ℕ) → k ≢ 0 → k < t.theta → min 1 (count k (hash ∷ seen)) ≡ min 1 (count k seen))
      → Retains b (hash ∷ seen) (opened t)
  unfolding opened
  unchanged same = record {
    table = is;
    flag = refl;
    lowers = r.lowers;
    seed = r.seed;
    nominal = r.nominal;
    size = r.size;
    counts = λ k nz. ground (arith, r.counts k nz, same k nz);
  }

  -- A table that has lowered theta has the nominal number of entries from then on.
  size_after :
      (t' : Table)
      → ((t'.theta ≡ t.theta) × (t'.num_entries ≡ t.num_entries + 1))
        ⊎ (t'.num_entries ≡ 2 ^ t.lg_nom_size)
      → (t'.theta ≡ b.p_theta) ⊎ (2 ^ b.lg_k ≤ t'.num_entries)
  size_after t' (inl (same, one_more)) = elim r.size [
    | inl e ↦ inl (same ∙ e)
    | inr le ↦ inr (omega (arith, le, one_more))
  ]
  size_after t' (inr full) = inr (omega (arith, full, ap (λ (lg : ℕ). 2 ^ lg) r.nominal))

  update_by_hash-zero : hash ≡ 0 → Returns (update_by_hash t hash) (Retains b (hash ∷ seen))
  unfolding update_by_hash screen
  update_by_hash-zero z =
      let dropped : (if leb t.theta hash then 0 else hash) ≡ 0 = ground arith in
      (opened t, unfold opened in rw dropped, unchanged λ k nz lt. ground arith)

  update_by_hash-large : t.theta ≤ hash → Returns (update_by_hash t hash) (Retains b (hash ∷ seen))
  unfolding update_by_hash screen
  update_by_hash-large large =
      let dropped : (if leb t.theta hash then 0 else hash) ≡ 0 = rw (le→leb _ _ large) in
      (opened t, unfold opened in rw dropped, unchanged λ k nz lt. ground arith)

  module _ (ne : hash ≢ 0) (below : hash < t.theta) where
    kept : (if leb t.theta hash then 0 else hash) ≡ hash
    kept = rw (lt→leb _ _ below)

    update_by_hash-Hit :
        Hit t.lg_cur_size t.entries hash → Returns (update_by_hash t hash) (Retains b (hash ∷ seen))
    unfolding update_by_hash screen
    update_by_hash-Hit h = (
      opened t,
      unfold opened in rw (kept, ne→== hash 0 ne, h.run),
      unchanged λ k nz lt. ground (arith, r.counts hash ne, h.present),
    )

    update_by_hash-Miss :
        Miss t.lg_cur_size t.entries hash
        → Returns (update_by_hash t hash) (Retains b (hash ∷ seen))
    unfolding update_by_hash screen opened
    update_by_hash-Miss m =
        let (t', run, (valid, more)) = insert-Inserted is hash ne below m in
        (
          t',
          rw (kept, ne→== hash 0 ne, m.run) run,
          record {
            table = valid;
            flag = more.settings.is_empty;
            lowers = omega (arith, more.lowers, r.lowers);
            seed = more.settings.seed ∙ r.seed;
            nominal = more.settings.lg_nom_size ∙ r.nominal;
            size = size_after t' more.size;
            counts = λ k nz. ground (arith, more.counts k nz, r.counts k nz, m.absent);
          },
        )

  -- One update, on each of its branches.
  pub update_by_hash-Retains : Returns (update_by_hash t hash) (Retains b (hash ∷ seen))
  update_by_hash-Retains = elim (eq-cases hash 0) [
    | inl z ↦ update_by_hash-zero z
    | inr ne ↦ elim (lt-cases hash t.theta) [
      | inr large ↦ update_by_hash-large large
      | inl below ↦
          elim (find-cases r.table.placed hash ne (
            omega (
              arith,
              r.table.room,
              r.table.filled,
              r.table.placed.width,
              capacity-lt r.table.shape,
            ))) [ inl h ↦ update_by_hash-Hit ne below h | inr m ↦ update_by_hash-Miss ne below m ]
    ]
  ]

-- Only the counts of what was seen matter, and whether there was anything.
Retains-congr :
    {b : Builder} {t : Table} (seen seen' : List ℕ)
    → ((k : ℕ) → count k seen' ≡ count k seen)
    → is_nil seen' ≡ is_nil seen
    → Retains b seen t
    → Retains b seen' t
Retains-congr seen seen' same flag r = record {
  table = r.table;
  flag = r.flag ∙ sym flag;
  lowers = r.lowers;
  seed = r.seed;
  nominal = r.nominal;
  size = r.size;
  counts = λ k nz. rw (same k) (r.counts k nz);
}

move_last :
    (hash : ℕ) (hashes seen : List ℕ) (k : ℕ)
    → count k (hash ∷ hashes ++ seen) ≡ count k (hashes ++ hash ∷ seen)
move_last hash hashes seen k =
    omega (arith, count-append k hashes seen, count-append k hashes (hash ∷ seen))

is_nil-append : (hash : ℕ) (hashes seen : List ℕ) → false ≡ is_nil (hashes ++ hash ∷ seen)
is_nil-append hash [] seen = refl
is_nil-append hash (x ∷ hashes) seen = refl

update_all-more :
    {b : Builder} (hashes : List ℕ) {seen : List ℕ} {t : Table}
    → Retains b seen t
    → Returns (update_all t hashes) (Retains b (hashes ++ seen))
unfolding update_all
update_all-more [] {t = t} r = (t, refl, r)
update_all-more (hash ∷ hashes) {seen = seen} r =
    let (t', run₁, r₁) = update_by_hash-Retains r hash in
    let (t'', run₂, r₂) = update_all-more hashes r₁ in
    (
      t'',
      rw run₁ run₂,
      Retains-congr (hashes ++ hash ∷ seen) (hash ∷ hashes ++ seen) (move_last hash hashes seen)
          (is_nil-append hash hashes seen) r₂,
    )

build-Retains : (b : Builder) → IsBuilder b → Retains b [] (build b)
build-Retains b is = record {
  table = build-IsTable b is;
  flag = unfold build make_table in refl;
  lowers = unfold build make_table in omega arith;
  seed = unfold build make_table in refl;
  nominal = unfold build make_table in refl;
  size = unfold build make_table in inl refl;
  counts = λ k nz.
      unfold build in
      ground (
        arith,
        make_table-count (starting_lg_size b) b.lg_k b.rf b.p_theta b.p_theta b.seed true k nz,
      );
}

-- For a builder with `lg_k` between 5 and 26 and a resize factor up to 3, the sketch that it builds
-- takes any stream of hashes without a stop. At the end it holds each hash of the stream that is
-- not 0 and below its theta, once, and no other; it is empty exactly if the stream is; its theta is
-- at most the starting theta, and equal to it unless the sketch counts at least `2 ^ lg_k` entries;
-- its table satisfies the invariant `IsTable`.
pub update_all-Retains :
    (b : Builder) (hashes : List ℕ)
    → IsBuilder b
    → Returns (update_all (build b) hashes) (Retains b hashes)
update_all-Retains b hashes is =
    let (t, run, r) = update_all-more hashes (build-Retains b is) in (t, run, rw append-nil at r)
