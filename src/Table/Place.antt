-- ===== src/Table/Place.antt =====
-- An array in which every key stands where `find` finds it, and the placing of new keys in one.
use singlestoredb_extension.Base.{
  ℕ, zero, suc, ◌+◌, ◌^◌, ◌≤◌, ◌<◌, ◌≡◌, ◌≢◌, refl, sym, ◌∙◌, true, false, List, [], ◌∷◌, some, ok,
  ◌>>=◌, Returns, arith, get_elem?, set, length, length-set, lt-length_of_some, ◌⊎◌, inl, inr,
  eq-cases, replicate, length-replicate, ◌==◌, ==_self, ne→==,
}
use mathlib.Core.Path.{fun_ext}
use singlestoredb_extension.Base.Counts.{
  hit, count, occupied, count-set, occupied-set, count_pos, count-zeros,
}
use singlestoredb_extension.Table.{find, place, move_entries, place_all}
use singlestoredb_extension.Table.Orbit.{find_total}
use singlestoredb_extension.Table.Probe.{find-hit, find-miss, find-keeps, find-fills}

pub record IsPlaced (lg_size : ℕ) (entries : List ℕ) : Type 0 where
  pub small : lg_size ≤ 27
  pub width : length entries ≡ 2 ^ lg_size
  pub once : (k : ℕ) → k ≢ 0 → count k entries ≤ 1
  pub reach :
      (k : ℕ) → k ≢ 0 → 0 < count k entries → (i : ℕ) × (find entries lg_size k ≡ ok (i, true))

-- `find` came to the slot of the key, which is there once.
pub record Hit (lg_size : ℕ) (entries : List ℕ) (k : ℕ) : Type 0 where
  pub slot : ℕ
  pub run : find entries lg_size k ≡ ok (slot, true)
  pub present : count k entries ≡ 1

-- `find` came to an empty slot, and the key is not there.
pub record Miss (lg_size : ℕ) (entries : List ℕ) (k : ℕ) : Type 0 where
  pub slot : ℕ
  pub run : find entries lg_size k ≡ ok (slot, false)
  pub inside : slot < length entries
  pub empty : get_elem? entries slot ≡ some 0
  pub absent : count k entries ≡ 0

-- The array with one more key.
pub record Added (lg_size k : ℕ) (entries entries' : List ℕ) : Type 0 where
  pub placed : IsPlaced lg_size entries'
  pub counts : (j : ℕ) → j ≢ 0 → count j entries' ≡ count j entries + hit j k
  pub filled : occupied entries' ≡ suc (occupied entries)

module _ {lg_size : ℕ} {entries : List ℕ} (placed : IsPlaced lg_size entries) where
  -- In an array with an empty slot in which every key is found, `find` of a key other than 0 ends
  -- at a hit if the key is there, once, or at an empty slot if it is not there.
  pub find-cases :
      (k : ℕ)
      → k ≢ 0
      → occupied entries < length entries
      → Hit lg_size entries k ⊎ Miss lg_size entries k
  find-cases k ne room = by_result (find_total entries lg_size k placed.width placed.small room)
    where
      present_once : (i : ℕ) → find entries lg_size k ≡ ok (i, true) → count k entries ≡ 1
      present_once i run =
          omega (arith, count_pos entries i k (find-hit entries lg_size k i run), placed.once k ne)

      absent_at : (i : ℕ) → find entries lg_size k ≡ ok (i, false) → count k entries ≡ 0
      absent_at i run = elim (eq-cases (count k entries) 0) [
        | inl e ↦ e
        | inr some_there ↦
            let (j, found) = placed.reach k ne (omega arith) in absurd (cc (sym run ∙ found))
      ]

      by_result :
          ((r : ℕ × singlestoredb_extension.Base.Bool) × (find entries lg_size k ≡ ok r))
          → Hit lg_size entries k ⊎ Miss lg_size entries k
      by_result ((i, true), run) =
          inl (record { slot = i; run = run; present = present_once i run })
      by_result ((i, false), run) =
          let empty = find-miss entries lg_size k i run in
          inr (record {
            slot = i;
            run = run;
            inside = lt-length_of_some entries i empty;
            empty = empty;
            absent = absent_at i run;
          })

  module _ {k : ℕ} (ne : k ≢ 0) (m : Miss lg_size entries k) where
    count-fill : (j : ℕ) → j ≢ 0 → count j (set entries m.slot k) ≡ count j entries + hit j k
    count-fill j nz = ground (arith, count-set j entries m.slot 0 k m.empty)

    reach-fill :
        (j : ℕ)
        → j ≢ 0
        → 0 < count j (set entries m.slot k)
        → (i : ℕ) × (find (set entries m.slot k) lg_size j ≡ ok (i, true))
    reach-fill j nz there = elim (eq-cases k j) [
      | inl same ↦ (m.slot, rw (← same) (find-fills entries lg_size k m.slot ne m.inside m.run))
      | inr other ↦
          let (i, run) = placed.reach j nz (ground (arith, count-fill j nz)) in
          (i, find-keeps entries lg_size j m.slot k i m.empty run)
    ]

    -- Writing a new key to the empty slot where its probes end keeps every key findable.
    pub set-Added : Added lg_size k entries (set entries m.slot k)
    set-Added = record {
      placed = record {
        small = placed.small;
        width = length-set entries m.slot k ∙ placed.width;
        once = λ j nz. ground (arith, count-fill j nz, placed.once j nz, m.absent);
        reach = reach-fill;
      };
      counts = count-fill;
      filled = ground (arith, occupied-set entries m.slot 0 k m.empty);
    }

  pub place-Added :
      (k : ℕ)
      → k ≢ 0
      → count k entries ≡ 0
      → occupied entries < length entries
      → Returns (place lg_size k entries) (Added lg_size k entries)
  unfolding place
  place-Added k ne absent room = elim (find-cases k ne room) [
    | inl h ↦ absurd (omega (arith, h.present))
    | inr m ↦ (set entries m.slot k, rw m.run, set-Added ne m)
  ]

-- The array `fresh` after the keys of `old` are placed in it.
pub record Joined (lg_size : ℕ) (old fresh entries : List ℕ) : Type 0 where
  pub placed : IsPlaced lg_size entries
  pub counts : (j : ℕ) → j ≢ 0 → count j entries ≡ count j fresh + count j old
  pub filled : occupied entries ≡ occupied fresh + occupied old

-- The round of the loop at a key.
move_entries-suc :
    (lg_size k : ℕ) (old fresh : List ℕ)
    → move_entries lg_size (length (suc k ∷ old)) (suc k ∷ old) fresh
      ≡ (place lg_size (suc k) fresh >>= move_entries lg_size (length old) old)
unfolding move_entries
move_entries-suc lg_size k old fresh =
    let e : (suc k == 0) ≡ false = ground arith in rw (e, move_entries)

move_entries-zero :
    (lg_size : ℕ) (old fresh : List ℕ)
    → move_entries lg_size (length (zero ∷ old)) (zero ∷ old) fresh
      ≡ move_entries lg_size (length old) old fresh
unfolding move_entries
move_entries-zero lg_size old fresh = refl

-- The loop of `resize` places every key of the old array, given room for them.
pub move_entries-Joined :
    (lg_size : ℕ) (old fresh : List ℕ)
    → IsPlaced lg_size fresh
    → ((j : ℕ) → j ≢ 0 → count j fresh + count j old ≤ 1)
    → occupied fresh + occupied old ≤ length fresh
    → Returns (move_entries lg_size (length old) old fresh) (Joined lg_size old fresh)
move_entries-Joined lg_size [] fresh placed apart room = (
  fresh,
  unfold move_entries in refl,
  record { placed = placed; counts = λ j nz. omega arith; filled = omega arith },
)
move_entries-Joined lg_size (zero ∷ old) fresh placed apart room =
    let (r, run, t) =
      move_entries-Joined lg_size old fresh placed (λ j nz. ground (arith, apart j nz))
        (ground arith) in
    (
      r,
      rw move_entries-zero run,
      record {
        placed = t.placed;
        counts = λ j nz. ground (arith, t.counts j nz);
        filled = ground (arith, t.filled);
      },
    )
move_entries-Joined lg_size (suc k ∷ old) fresh placed apart room =
    let (e, run₁, a) =
      place-Added placed (suc k) (λ z. omega arith) (ground (arith, apart (suc k)))
        (ground arith) in
    let (r, run₂, t) =
      move_entries-Joined lg_size old e a.placed (λ j nz. omega (arith, apart j nz, a.counts j nz))
        (ground (arith, a.filled, a.placed.width, placed.width)) in
    (
      r,
      rw (move_entries-suc, run₁) run₂,
      record {
        placed = t.placed;
        counts = λ j nz. omega (arith, t.counts j nz, a.counts j nz);
        filled = ground (arith, t.filled, a.filled);
      },
    )

-- The loop of `rebuild` differs only in that it does not test for empty slots.
pub place_all-move_entries :
    (lg_size : ℕ) (old fresh : List ℕ)
    → count 0 old ≡ 0
    → place_all lg_size old fresh ≡ move_entries lg_size (length old) old fresh
unfolding place_all
place_all-move_entries lg_size [] fresh h = unfold move_entries in refl
place_all-move_entries lg_size (zero ∷ old) fresh h = absurd (ground arith)
place_all-move_entries lg_size (suc k ∷ old) fresh h =
    rw (move_entries-suc, fun_ext (λ f. place_all-move_entries lg_size old f (ground arith)))

-- A new array has every slot empty.
pub empty-IsPlaced : (lg_size : ℕ) → lg_size ≤ 27 → IsPlaced lg_size (replicate (2 ^ lg_size) 0)
empty-IsPlaced lg_size small = record {
  small = small;
  width = length-replicate (2 ^ lg_size) 0;
  once = λ k nz. omega (arith, count-zeros k (2 ^ lg_size) nz);
  reach = λ k nz there. absurd (omega (arith, count-zeros k (2 ^ lg_size) nz));
}
