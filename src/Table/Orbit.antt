-- ===== src/Table/Orbit.antt =====
-- The probes of `find` visit every slot: the stride is odd and the size a power of two. So `find`
-- ends within `size` rounds, and finds the key or an empty slot unless the array is full.
use singlestoredb_extension.Base.{
  ℕ, zero, suc, ◌+◌, ◌*◌, ◌/◌, ◌%◌, ◌^◌, ◌≤◌, ◌<◌, ◌≡◌, ◌≢◌, refl, sym, ◌∙◌, ap, Bool, true, false,
  List, some, ok, stop, out_of_fuel, arith, get_elem?, get_elem?-lt, length, ◌⊎◌, inl, inr,
  eq-cases,
}
use singlestoredb_extension.Base.Counts.{occupied, empty_slot}
use singlestoredb_extension.Base.Powers.{
  pow_pos, pow_mono, Inverse, odd-Inverse, stride_reaches, stride_returns, round_returns,
  next_point,
}
use native.Mathlib.Nat.{mod-lt, mod-eq_of_lt}
use singlestoredb_extension.Table.{next_index, get_stride, find_loop, find}

-- Indices and strides are far below `2 ^ 32`, so the sum of two does not wrap.
next_index_lem :
    (size stride i : ℕ)
    → i < size
    → size ≤ 2 ^ 27
    → stride < 256
    → next_index size stride i ≡ (i + stride) % size
next_index_lem size stride i h k l =
    ap (λ (x : ℕ). x % size) (mod-eq_of_lt {n = i + stride} {m = 2 ^ 32} (omega arith))

module _ (entries : List ℕ) (size s key start : ℕ) (width : length entries ≡ size)
    (small : size ≤ 2 ^ 27) (odd : 2 * s + 1 < 256) (inside : start < size) where
  stride : ℕ
  stride = 2 * s + 1

  -- The slot of the `m`-th probe.
  abbrev point : ℕ → ℕ
  point m = (start + m * (2 * s + 1)) % size

  point-lt : (m : ℕ) → point m < size
  point-lt m = mod-lt (start + m * (2 * s + 1)) (omega arith)

  next-point : (m : ℕ) → next_index size (2 * s + 1) (point m) ≡ point (suc m)
  next-point m =
      next_index_lem size (2 * s + 1) (point m) (point-lt m) small odd
      ∙ next_point start size (2 * s + 1) m

  last-point : (m : ℕ) → suc m ≡ size → next_index size (2 * s + 1) (point m) ≡ start
  last-point m e =
      next-point m
      ∙ ap (λ (x : ℕ). (start + x * (2 * s + 1)) % size) e
      ∙ round_returns start size (2 * s + 1) inside

  -- With the rounds that complete a full turn the loop does not run out of fuel.
  find_loop-ends :
      (fuel m : ℕ)
      → m + suc fuel ≡ size
      → find_loop entries size (2 * s + 1) key start (suc fuel) (point m) ≢ stop out_of_fuel
  unfolding find_loop
  find_loop-ends zero m e = ground (arith, last-point m (omega arith))
  find_loop-ends (suc fuel) m e =
      ground (arith, next-point m, find_loop-ends fuel (suc m) (omega arith))

  -- One round: a hit, an empty slot, or the next probe.
  find_loop-step :
      (fuel m : ℕ)
      → next_index size (2 * s + 1) (point m) ≢ start ⊎ (get_elem? entries (point m) ≡ some 0)
      → (get_elem? entries (point m) ≢ some 0
          → (r : ℕ × Bool) × (find_loop entries size (2 * s + 1) key start fuel (point (suc m))
              ≡ ok r))
      → (r : ℕ × Bool) × (find_loop entries size (2 * s + 1) key start (suc fuel) (point m) ≡ ok r)
  unfolding find_loop
  find_loop-step fuel m open_end later =
      let (x, e) = get_elem?-lt entries (point m) (omega (arith, point-lt m)) in
      elim (eq-cases x 0) [
        | inl zero_slot ↦ ((point m, false), ground arith)
        | inr full ↦ elim (eq-cases x key) [
          | inl same ↦ ((point m, true), ground arith)
          | inr other ↦ let (r, run) = later (ground arith) in (r, ground (arith, next-point m))
        ]
      ]

  -- It reaches the empty slot `point hole`, unless it stops before.
  find_loop-reaches :
      Inverse s size
      → (hole : ℕ) → hole < size
      → get_elem? entries (point hole) ≡ some 0
      → (fuel m : ℕ) → m ≤ hole
      → hole < m + fuel
      → (r : ℕ × Bool) × (find_loop entries size (2 * s + 1) key start fuel (point m) ≡ ok r)
  find_loop-reaches v hole below empty zero m le lt = absurd (omega arith)
  find_loop-reaches v hole below empty (suc fuel) m le lt = elim (eq-cases m hole) [
    | inl here ↦
        let e : get_elem? entries (point m) ≡ some 0 = rw here empty in
        find_loop-step fuel m (inr e) (λ not_empty. absurd (not_empty e))
    | inr before ↦
        find_loop-step fuel m (inl (λ back. onward before (sym (next-point m) ∙ back)))
          (λ _. find_loop-reaches v hole below empty fuel (suc m) (omega arith) (omega arith))
  ]
    where
      onward : m ≢ hole → point (suc m) ≡ start → ⊥
      onward before back =
          let z : suc m ≡ 0 = stride_returns s size v start inside (suc m) (omega arith) back in
          omega arith

  first-point : point 0 ≡ start
  first-point = ap (λ (x : ℕ). x % size) (omega arith) ∙ mod-eq_of_lt inside

  find_loop-total :
      Inverse s size
      → occupied entries < size
      → (fuel : ℕ) → fuel ≡ size
      → (r : ℕ × Bool) × (find_loop entries size (2 * s + 1) key start fuel start ≡ ok r)
  find_loop-total v room fuel e =
      let (slot, in_array, empty) = empty_slot entries (omega arith) in
      let (hole, below, at_hole) = stride_reaches s size v start inside slot (omega arith) in
      let (r, run) =
        find_loop-reaches v hole below (rw at_hole empty) fuel 0 (omega arith) (omega arith) in
      (r, rw first-point at run)

  find_loop-returns :
      (fuel : ℕ)
      → fuel ≡ size
      → find_loop entries size (2 * s + 1) key start fuel start ≢ stop out_of_fuel
  find_loop-returns zero e = absurd (omega arith)
  find_loop-returns (suc fuel) e = rw first-point at (find_loop-ends fuel 0 (omega arith))

-- The index where `find` starts, and half its stride.
abbrev home : ℕ → ℕ → ℕ
home lg_size key = key % 2 ^ 32 % 2 ^ lg_size

abbrev half_stride : ℕ → ℕ → ℕ
half_stride lg_size key = key / 2 ^ lg_size % 128

module _ (entries : List ℕ) (lg_size key : ℕ) (width : length entries ≡ 2 ^ lg_size)
    (small : lg_size ≤ 27) where
  size-le : 2 ^ lg_size ≤ 2 ^ 27
  size-le = pow_mono lg_size 27 small

  home-lt : home lg_size key < 2 ^ lg_size
  home-lt = mod-lt (key % 2 ^ 32) (pow_pos lg_size)

  -- In an array of `2 ^ lg_size` slots, `lg_size` up to 27, full or not, the loop of `find` ends
  -- within as many rounds as there are slots.
  pub find-ends : find entries lg_size key ≢ stop out_of_fuel
  unfolding find get_stride
  find-ends =
      find_loop-returns entries (2 ^ lg_size) (half_stride lg_size key) key (home lg_size key) width
        size-le (omega arith) home-lt (2 ^ lg_size) refl

  -- In an array of `2 ^ lg_size` slots, `lg_size` up to 27, with an empty slot, `find` returns for
  -- every key: it does not run into its logic error.
  pub find_total :
      occupied entries < length entries → (r : ℕ × Bool) × (find entries lg_size key ≡ ok r)
  unfolding find get_stride
  find_total room =
      find_loop-total entries (2 ^ lg_size) (half_stride lg_size key) key (home lg_size key) width
        size-le (omega arith) home-lt (odd-Inverse (half_stride lg_size key) lg_size) (omega arith)
        (2 ^ lg_size) refl
