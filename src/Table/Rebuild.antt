-- ===== src/Table/Rebuild.antt =====
-- `rebuild` keeps the `2 ^ lg_nom_size` smallest keys, and lowers theta to the next one.
use singlestoredb_extension.Base.{
  ℕ, ◌^◌, ◌≤◌, ◌<◌, ◌≡◌, ◌≢◌, ◌∙◌, List, some, ok, arith, length, length-take, take, drop,
  get_elem?, get_elem?-lt, get_elem?-append_left, take-append_left, ltb, if◌then◌else◌,
}
use singlestoredb_extension.Base.Counts.{count, occupied, occupied-count_zero, count_pos}
use singlestoredb_extension.Base.Sorting.{
  sort, count-sort, length-sort, sort-IsSorted, count-take_sorted,
}
use singlestoredb_extension.Table.{Table, rebuild, nth_element}
use singlestoredb_extension.Table.Place.{IsPlaced, place_all-move_entries}
use singlestoredb_extension.Table.Consolidate.{Fronted, consolidate-Fronted}
use singlestoredb_extension.Table.Resize.{move_entries-Rehashed}

-- Of the keys of `old` those below `theta` are left, `nominal` of them.
pub record Trimmed (lg_size nominal theta : ℕ) (old entries : List ℕ) : Type 0 where
  pub placed : IsPlaced lg_size entries
  pub counts : (j : ℕ) → j ≢ 0 → count j entries ≡ (if ltb j theta then count j old else 0)
  pub filled : occupied entries ≡ nominal
  pub held : (theta ≢ 0) × (count theta old ≡ 1)

-- What `nth_element` leaves around the place `nominal`.
pub record Selected (nominal : ℕ) (keys arranged : List ℕ) : Type 0 where
  pub pivot : ℕ
  pub at_place : get_elem? arranged nominal ≡ some pivot
  pub pivot_key : (pivot ≢ 0) × (count pivot keys ≡ 1)
  pub below :
      (k : ℕ) → k ≢ 0 → count k (take nominal arranged) ≡ (if ltb k pivot then count k keys else 0)
  pub no_gap : count 0 (take nominal arranged) ≡ 0
  pub number : occupied (take nominal arranged) ≡ nominal

module _ (keys entries : List ℕ) (num nominal : ℕ) (f : Fronted num keys entries)
    (once : (k : ℕ) → k ≢ 0 → count k keys ≤ 1) (less : nominal < num) where
  sorted : List ℕ
  sorted = sort (take num entries)

  long : length sorted ≡ num
  unfolding sorted
  long = length-sort (take num entries) ∙ f.whole

  same : (k : ℕ) → k ≢ 0 → count k sorted ≡ count k keys
  unfolding sorted
  same k nz = count-sort k (take num entries) ∙ f.counts k nz

  no_zero : count 0 sorted ≡ 0
  unfolding sorted
  no_zero = count-sort 0 (take num entries) ∙ f.full

  arranged-take : take nominal (nth_element num entries) ≡ take nominal sorted
  unfolding nth_element sorted
  arranged-take =
      take-append_left nominal (sort (take num entries)) (drop num entries) (omega (arith, long))

  arranged-get : get_elem? (nth_element num entries) nominal ≡ get_elem? sorted nominal
  unfolding nth_element sorted
  arranged-get =
      get_elem?-append_left (sort (take num entries)) (drop num entries) nominal
        (omega (arith, long))

  module _ (pivot : ℕ) (e : get_elem? sorted nominal ≡ some pivot) where
    pivot_nonzero : pivot ≢ 0
    pivot_nonzero z = ground (arith, count_pos sorted nominal pivot e, no_zero)

    pivot_once : count pivot keys ≡ 1
    pivot_once = omega (
      arith,
      same pivot pivot_nonzero,
      once pivot pivot_nonzero,
      count_pos sorted nominal pivot e,
    )

    kept : (k : ℕ) → count k (take nominal sorted) ≡ (if ltb k pivot then count k sorted else 0)
    unfolding sorted
    kept k =
        count-take_sorted k nominal (sort (take num entries)) pivot
          (sort-IsSorted (take num entries)) e (omega (arith, same pivot pivot_nonzero, pivot_once))

    kept_zero : count 0 (take nominal sorted) ≡ 0
    kept_zero = ground (arith, kept 0, no_zero)

    selected : Selected nominal keys (nth_element num entries)
    selected = record {
      pivot = pivot;
      at_place = arranged-get ∙ e;
      pivot_key = (pivot_nonzero, pivot_once);
      below = λ k nz. rw (arranged-take, kept k, same k nz);
      no_gap = rw arranged-take kept_zero;
      number = rw arranged-take (
          omega (
            arith,
            occupied-count_zero (take nominal sorted),
            kept_zero,
            length-take nominal sorted,
            long,
          ));
    }

  pub nth_element-Selected : Selected nominal keys (nth_element num entries)
  nth_element-Selected =
      let (pivot, e) = get_elem?-lt sorted nominal (omega (arith, long)) in selected pivot e

-- For a table in which every key is found, whose number of entries is right, above the nominal size
-- and below the array's: `rebuild` returns, theta becomes one of the old keys, exactly the old keys
-- below it remain, they are `2 ^ lg_nom_size` many, each is found by `find`, and nothing else
-- changes.
pub rebuild-Trimmed :
    (t : Table)
    → IsPlaced t.lg_cur_size t.entries
    → occupied t.entries ≡ t.num_entries
    → t.num_entries < 2 ^ t.lg_cur_size
    → 2 ^ t.lg_nom_size < t.num_entries
    → (theta : ℕ) × (entries : List ℕ) × (rebuild t
        ≡ ok (record t { theta = theta; entries = entries; num_entries = 2 ^ t.lg_nom_size }))
      × Trimmed t.lg_cur_size (2 ^ t.lg_nom_size) theta t.entries entries
unfolding rebuild
rebuild-Trimmed t placed filled room over =
    let size = 2 ^ t.lg_cur_size in
    let nominal = 2 ^ t.lg_nom_size in
    let f = consolidate-Fronted t.entries size t.num_entries placed.width filled room in
    let s = nth_element-Selected t.entries _ t.num_entries nominal f placed.once over in
    let (r, run, p) =
      move_entries-Rehashed t.lg_cur_size (take nominal _) placed.small
        (λ j nz. ground (arith, s.below j nz, placed.once j nz)) (omega (arith, s.number)) in
    (
      s.pivot,
      r,
      rw (s.at_place, rebuild, place_all-move_entries t.lg_cur_size _ _ s.no_gap, run),
      record {
        placed = p.placed;
        counts = λ j nz. p.counts j nz ∙ s.below j nz;
        filled = p.filled ∙ s.number;
        held = s.pivot_key;
      },
    )
