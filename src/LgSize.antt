-- ===== src/LgSize.antt =====
-- `log2` and `lg_size_from_count` of common/common_defs.hpp: the exponent of an array that holds a
-- given number of entries under a load factor. The factor is always 15/16, `REBUILD_THRESHOLD`.
-- Counts stay below 2 ^ 27 here, so `1 << (log2(n) + 1)` does not overflow an `int`.
use singlestoredb_extension.Base.{
  ℕ, zero, suc, ◌+◌, ◌*◌, ◌/◌, ◌^◌, ◌≤◌, ◌<◌, ◌≡◌, ap, arith, ltb, if◌then◌else◌, lt-cases, inl,
  inr, le→ltb, lt→ltb,
}
use native.Mathlib.Nat.{pow-suc}
use singlestoredb_extension.Base.Powers.{pow_mono}

-- The recursion, on as many rounds as fuel allows; a `uint32_t` needs at most 32.
log2_loop : (fuel n : ℕ) → ℕ
log2_loop zero n = 0
log2_loop (suc fuel) n = let rest = log2_loop fuel (n / 2) in if ltb 1 n then 1 + rest else 0

unfoldable pub log2 : ℕ → ℕ
unfolding log2_loop
log2 n = log2_loop 32 n

unfoldable pub lg_size_from_count : ℕ → ℕ
unfolding log2
lg_size_from_count n = log2 n + (if ltb (15 * 2 ^ (log2 n + 1) / 16) n then 2 else 1)

-- The bounds that make `log2` the logarithm.
record IsLog (l n : ℕ) : Type 0 where
  lower : 2 ^ l ≤ n
  upper : n < 2 * 2 ^ l

log2_loop-IsLog : (fuel n : ℕ) → 0 < n → n < 2 ^ fuel → IsLog (log2_loop fuel n) n
unfolding log2_loop
log2_loop-IsLog zero n pos lt = absurd (omega arith)
log2_loop-IsLog (suc fuel) n pos lt = elim (lt-cases 1 n) [
  | inl more ↦
      let r = log2_loop-IsLog fuel (n / 2) (omega arith) (omega (arith, pow-suc 2 fuel)) in
      record {
        lower = ground (arith, r.lower, pow-suc 2 (log2_loop fuel (n / 2)));
        upper = ground (arith, r.upper, pow-suc 2 (log2_loop fuel (n / 2)));
      }
  | inr one ↦ record { lower = ground arith; upper = ground arith }
]

log2-IsLog : (n : ℕ) → 0 < n → n < 2 ^ 32 → IsLog (log2 n) n
unfolding log2
log2-IsLog n pos lt = log2_loop-IsLog 32 n pos lt

-- The most entries that a table of 2 ^ 27 slots holds.
abbrev pub most_entries : ℕ
most_entries = 125829120

-- The array has room for the entries, and an empty slot beside them.
pub record Fits (n lg : ℕ) : Type 0 where
  pub least : 1 ≤ lg
  pub most : lg ≤ 27
  pub room : n ≤ 15 * 2 ^ lg / 16

small_log : (n l : ℕ) → IsLog l n → n < 2 ^ 27 → l ≤ 26
small_log n l is lt = elim (lt-cases 26 l) [
  | inl big ↦ absurd (omega (arith, is.lower, pow_mono 27 l big))
  | inr fine ↦ fine
]

four_times : (l : ℕ) → 2 ^ (l + 2) ≡ 4 * 2 ^ l
four_times l =
    let e : l + 2 ≡ suc (suc l) = omega arith in
    omega (arith, pow-suc 2 l, pow-suc 2 (suc l), ap (λ (x : ℕ). 2 ^ x) e)

under_most : (n l : ℕ) → l ≤ 26 → n ≤ most_entries → 15 * 2 ^ (l + 1) / 16 < n → l < 26
under_most n l low few over = elim (lt-cases l 26) [
  | inl lt ↦ lt
  | inr ge ↦ let e : l ≡ 26 = omega arith in absurd (omega (arith, ap (λ (x : ℕ). 2 ^ (x + 1)) e))
]

-- For a count between 1 and 125829120, `lg_size_from_count` is between 1 and 27 and the count is at
-- most 15/16 of the array's size, rounded down.
pub lg_size_from_count-Fits : (n : ℕ) → 0 < n → n ≤ most_entries → Fits n (lg_size_from_count n)
unfolding lg_size_from_count
lg_size_from_count-Fits n pos few =
    let is = log2-IsLog n pos (omega arith) in
    let low : log2 n ≤ 26 = small_log n (log2 n) is (omega arith) in
    elim (lt-cases (15 * 2 ^ (log2 n + 1) / 16) n) [
      | inr fits ↦
          rw (le→ltb _ _ fits)
            (record { least = omega arith; most = omega arith; room = omega arith })
      | inl over ↦ rw (lt→ltb _ _ over) (record {
        least = omega arith;
        most = omega (arith, under_most n (log2 n) low few over);
        room = omega (arith, is.upper, four_times (log2 n));
      })
    ]
