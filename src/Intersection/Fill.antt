-- ===== src/Intersection/Fill.antt =====
-- The loops of the intersection that put known entries into a new table.
use singlestoredb_extension.Base.{ℕ, suc, ◌+◌, ◌≤◌, ◌≡◌, ◌≢◌, ok, List, [], ◌∷◌, arith, length, set}
use singlestoredb_extension.Base.Counts.{count}
use singlestoredb_extension.Table.{Table}
use singlestoredb_extension.Table.Fill.{HasRoom, HasRoom-Step, Step, FilledWith, with_entries}
use singlestoredb_extension.Intersection.{copy_entries, place_matches}

-- Both loops fill the table alike.
pub record Fills (keys : List ℕ) (t : Table) : Type 0 where
  pub entries : List ℕ
  pub run_copy : copy_entries keys t ≡ ok (with_entries t entries (t.num_entries + length keys))
  pub run_place : place_matches keys t ≡ ok (with_entries t entries (t.num_entries + length keys))
  pub holds : FilledWith keys t entries

-- The rounds of the loops at a key that is not there.
module _ {hash more : ℕ} (hashes : List ℕ) {t : Table} (s : Step hash more t) where
  copy-cons :
      copy_entries (hash ∷ hashes) t
      ≡ copy_entries hashes (with_entries t (set t.entries s.miss.slot hash) (t.num_entries + 1))
  unfolding copy_entries
  copy-cons = rw (s.miss.run, s.run)

  place-cons :
      place_matches (hash ∷ hashes) t
      ≡ place_matches hashes (with_entries t (set t.entries s.miss.slot hash) (t.num_entries + 1))
  unfolding place_matches
  place-cons = rw (s.miss.run, s.run)

  Fills-cons :
      Fills hashes (with_entries t (set t.entries s.miss.slot hash) (t.num_entries + 1))
      → Fills (hash ∷ hashes) t
  Fills-cons f =
      let number : t.num_entries + 1 + length hashes ≡ t.num_entries + suc (length hashes) =
        omega arith in
      record {
        entries = f.entries;
        run_copy = rw (copy-cons, ← number) f.run_copy;
        run_place = rw (place-cons, ← number) f.run_place;
        holds = record {
          placed = f.holds.placed;
          counts = λ j nz. ground (arith, f.holds.counts j nz, s.added.counts j nz);
          filled = omega (arith, f.holds.filled);
        };
      }

pub fill-Fills :
    (hashes : List ℕ) {t : Table}
    → HasRoom (length hashes) t
    → count 0 hashes ≡ 0
    → ((j : ℕ) → j ≢ 0 → count j t.entries + count j hashes ≤ 1)
    → Fills hashes t
fill-Fills [] {t = t} h no_zero once =
    let number : t.num_entries + 0 ≡ t.num_entries = omega arith in
    record {
      entries = t.entries;
      run_copy = unfold copy_entries in rw number;
      run_place = unfold place_matches in rw number;
      holds = record {
        placed = h.placed;
        counts = λ j nz. omega arith;
        filled = omega (arith, h.filled);
      };
    }
fill-Fills (hash ∷ hashes) {t = t} h no_zero once =
    let nz : hash ≢ 0 = ground arith in
    let s = HasRoom-Step hash h nz (ground (arith, once hash nz)) in
    Fills-cons hashes s (
      fill-Fills hashes s.room (ground arith)
        (λ j j_nz. ground (arith, once j j_nz, s.added.counts j j_nz)))
