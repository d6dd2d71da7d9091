-- ===== src/Serial/Sketches.antt =====
-- The compact copy of an update sketch can be serialized and read back.
use singlestoredb_extension.Base.{
  ℕ, ◌^◌, ◌<◌, ◌≤◌, ◌≡◌, refl, ap, ◌∙◌, Bool, true, false, ◌||◌, List, [], ◌∷◌, arith, length, inl,
  inr, lt-cases, le→ltb,
}
use singlestoredb_extension.Base.Counts.{count}
use singlestoredb_extension.Base.Sorting.{length-sort}
use singlestoredb_extension.Table.{Table, max_theta}
use singlestoredb_extension.Table.Shape.{capacity-most}
use singlestoredb_extension.UpdateSketch.{Builder, get_theta64, is_ordered}
use singlestoredb_extension.UpdateSketch.Retains.{Retains}
use singlestoredb_extension.Sketch.{of_table, compact, copy_compact, copied_entries, keys}
use singlestoredb_extension.Sketch.Sample.{HashSet, set_of, Samples}
use singlestoredb_extension.Sketch.Keys.{length-keys}
use singlestoredb_extension.Sketch.Streams.{compact-IsCompactOf}
use singlestoredb_extension.Serial.Layout.{AllWords}
use singlestoredb_extension.Serial.RoundTrip.{IsSerial}

-- A list without a number of more than 64 bits.
counted-AllWords : (xs : List ℕ) → ((k : ℕ) → 2 ^ 64 ≤ k → count k xs ≡ 0) → AllWords xs
counted-AllWords [] none = tt
counted-AllWords (x ∷ xs) none = (
  elim (lt-cases x (2 ^ 64)) [ inl lt ↦ lt | inr le ↦ absurd (ground (arith, none x le)) ],
  counted-AllWords xs (λ k le. omega (arith, none k le)),
)

pub Samples-AllWords :
    (X : HashSet) (theta : ℕ) (xs : List ℕ) → theta ≤ max_theta → Samples X theta xs → AllWords xs
Samples-AllWords X theta xs le samples =
    counted-AllWords xs
      (λ k large. samples k (omega arith) ∙ rw (le→ltb k theta (omega (arith, le, large))))

or_true : (b : Bool) → (b || true) ≡ true
or_true true = refl
or_true false = refl

length-copied :
    (is_empty ordered is_ordered : Bool) (xs : List ℕ)
    → length (copied_entries is_empty ordered is_ordered xs) ≤ length xs
length-copied true ordered is_ordered xs = omega arith
length-copied false true true xs = omega arith
length-copied false true false xs = omega (arith, length-sort xs)
length-copied false false is_ordered xs = omega arith

-- Whatever the stream was.
pub compact-IsSerial :
    (seed_hash_of : ℕ → ℕ) {b : Builder} {hashes : List ℕ} {t : Table}
    → Retains b hashes t
    → b.p_theta ≤ max_theta
    → seed_hash_of b.seed < 2 ^ 16
    → IsSerial (seed_hash_of b.seed) (compact seed_hash_of t true)
unfolding compact copy_compact of_table get_theta64
compact-IsSerial seed_hash_of {b = b} {hashes = hashes} {t = t} r le small =
    let is = compact-IsCompactOf r le seed_hash_of true in
    record {
      seed = ap seed_hash_of r.seed;
      seed_small = omega (arith, small, ap seed_hash_of r.seed);
      theta_small = is.bounded;
      words =
          Samples-AllWords (set_of hashes) (get_theta64 t) (compact seed_hash_of t true).entries
            is.bounded is.samples;
      few = omega (
        arith,
        length-copied t.is_empty true (is_ordered t) (keys t.entries),
        length-keys t.entries,
        r.table.filled,
        r.table.room,
        capacity-most r.table.shape,
      );
      short_ordered = λ _. or_true _;
      bare = λ e. rw (e) (refl, refl, or_true _);
    }
