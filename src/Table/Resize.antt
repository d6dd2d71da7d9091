-- ===== src/Table/Resize.antt =====
-- `resize` moves the keys into a larger array, or into a new one of the same size.
use singlestoredb_extension.Base.{
  ℕ, ◌+◌, ◌^◌, ◌%◌, ◌≤◌, ◌<◌, ◌≡◌, ◌≢◌, List, ok, Returns, arith, replicate, length,
  length-replicate, min,
}
use singlestoredb_extension.Base.Counts.{count, occupied, count-zeros, occupied-zeros}
use singlestoredb_extension.Table.{Table, resize, move_entries}
use singlestoredb_extension.Table.Place.{IsPlaced, move_entries-Joined, empty-IsPlaced}

-- The same keys in an array of size `2 ^ lg_size`.
pub record Rehashed (lg_size : ℕ) (old entries : List ℕ) : Type 0 where
  pub placed : IsPlaced lg_size entries
  pub counts : (j : ℕ) → j ≢ 0 → count j entries ≡ count j old
  pub filled : occupied entries ≡ occupied old

pub move_entries-Rehashed :
    (lg_size : ℕ) (old : List ℕ)
    → lg_size ≤ 27
    → ((j : ℕ) → j ≢ 0 → count j old ≤ 1)
    → occupied old ≤ 2 ^ lg_size
    → Returns
        (move_entries lg_size (length old) old (replicate (2 ^ lg_size) 0))
        (Rehashed lg_size old)
move_entries-Rehashed lg_size old small once room =
    let size = 2 ^ lg_size in
    let wide = length-replicate {A = ℕ} size 0 in
    let (r, run, t) =
      move_entries-Joined lg_size old (replicate size 0) (empty-IsPlaced lg_size small)
        (λ j nz. omega (arith, once j nz, count-zeros j size nz))
        (omega (arith, wide, occupied-zeros size)) in
    (
      r,
      run,
      record {
        placed = t.placed;
        counts = λ j nz. omega (arith, t.counts j nz, count-zeros j size nz);
        filled = omega (arith, t.filled, occupied-zeros size);
      },
    )

-- The exponent of the next size.
abbrev pub next_lg_size : Table → ℕ
next_lg_size t = min (t.lg_cur_size + t.rf) (t.lg_nom_size + 1)

-- For a table with an array of `2 ^ lg_cur_size` slots, whose exponent and resize factor add up to
-- less than 256, with a nominal exponent below 255, an exponent of the next size up to 27, each key
-- at most once and no more keys than the new size: `resize` returns, with the same keys in an array
-- of the next size, each found by `find`. Nothing else changes.
pub resize-Rehashed :
    (t : Table)
    → t.lg_cur_size + t.rf < 256
    → t.lg_nom_size < 255
    → next_lg_size t ≤ 27
    → length t.entries ≡ 2 ^ t.lg_cur_size
    → ((j : ℕ) → j ≢ 0 → count j t.entries ≤ 1)
    → occupied t.entries ≤ 2 ^ next_lg_size t
    → (entries : List ℕ) × (resize t
        ≡ ok (record t { entries = entries; lg_cur_size = next_lg_size t }))
      × Rehashed (next_lg_size t) t.entries entries
unfolding resize
resize-Rehashed t near near' small width once room =
    let exact : min ((t.lg_cur_size + t.rf) % 256) ((t.lg_nom_size + 1) % 256) ≡ next_lg_size t =
      omega arith in
    let (r, run, p) = move_entries-Rehashed (next_lg_size t) t.entries (omega arith) once room in
    (r, rw (exact, ← width, run, exact), p)
