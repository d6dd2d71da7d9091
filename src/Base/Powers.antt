-- ===== src/Base/Powers.antt =====
-- Powers of two, remainders by them, and the orbit of an odd stride.
use Prim.Native.Nat.{ℕ, zero, suc, ◌+◌, ◌-◌, ◌*◌, ◌/◌, ◌%◌, ◌^◌, ◌≤◌, ◌<◌}
use mathlib.Core.Path.{◌≡◌, sym, ◌∙◌, ap}
use mathlib.Core.Logic.{◌⊎◌, inl, inr}
use native.Mathlib.Nat.{
  pow-suc, mod-lt, mod-eq_of_lt, div-add-mod, add-mul-mod_self_left, mod-add-mod, mul-mod_left,
}
use native.Mathlib.Omega.{arith}

pub pow_pos : (k : ℕ) → 0 < 2 ^ k
pow_pos zero = omega arith
pow_pos (suc k) = omega (arith, pow-suc 2 k, pow_pos k)

pub pow_mono : (j k : ℕ) → j ≤ k → 2 ^ j ≤ 2 ^ k
pow_mono zero k h = pow_pos k
pow_mono (suc j) zero h = elim h [ ]
pow_mono (suc j) (suc k) h = omega (arith, pow-suc 2 j, pow-suc 2 k, pow_mono j k (omega arith))

-- An inverse of the odd number `2 * s + 1` modulo `n`.
pub record Inverse (s n : ℕ) : Type 0 where
  pub t : ℕ
  pub q : ℕ
  pub law : (2 * s + 1) * t ≡ 1 + q * n

even_or_odd : (q : ℕ) → (q ≡ 2 * (q / 2)) ⊎ (q ≡ 2 * (q / 2) + 1)
even_or_odd q = grind arith

lift-Inverse : (s n : ℕ) → Inverse s n → Inverse s (n * 2)
lift-Inverse s n v = elim (even_or_odd v.q) [
  | inl e ↦ record { t = v.t; q = v.q / 2; law = even e }
  | inr e ↦ record { t = v.t + n; q = v.q / 2 + s + 1; law = odd e }
]
  where
    even : v.q ≡ 2 * (v.q / 2) → (2 * s + 1) * v.t ≡ 1 + v.q / 2 * (n * 2)
    even e = omega (arith, v.law, ap (λ (x : ℕ). x * n) e)

    odd : v.q ≡ 2 * (v.q / 2) + 1 → (2 * s + 1) * (v.t + n) ≡ 1 + (v.q / 2 + s + 1) * (n * 2)
    odd e = omega (arith, v.law, ap (λ (x : ℕ). x * n) e)

pub odd-Inverse : (s k : ℕ) → Inverse s (2 ^ k)
odd-Inverse s zero = record { t = 1; q = 2 * s; law = omega arith }
odd-Inverse s (suc k) = rw (pow-suc 2 k) (lift-Inverse s (2 ^ k) (odd-Inverse s k))

module _ (s n : ℕ) (v : Inverse s n) (start : ℕ) (inside : start < n) where
  -- The number of steps from `start` to `j`.
  abbrev steps_to : ℕ → ℕ
  steps_to j = (j + n - start) * v.t % n

  -- An odd stride reaches every residue.
  pub stride_reaches : (j : ℕ) → j < n → (m : ℕ) × (m < n) × ((start + m * (2 * s + 1)) % n ≡ j)
  stride_reaches j h = (steps_to j, mod-lt _ (omega arith), arrives)
    where
      x : ℕ
      x = j + n - start

      d : ℕ
      d = x * v.t / n

      total : start + steps_to j * (2 * s + 1) + n * (d * (2 * s + 1)) ≡ j + n * (1 + x * v.q)
      total = omega (
        arith,
        ap (λ (y : ℕ). y * (2 * s + 1)) (div-add-mod (x * v.t) n),
        ap (λ (y : ℕ). x * y) v.law,
      )

      arrives : (start + steps_to j * (2 * s + 1)) % n ≡ j
      arrives =
          sym (add-mul-mod_self_left _ n (d * (2 * s + 1)))
          ∙ ap (λ (y : ℕ). y % n) total
          ∙ add-mul-mod_self_left j n (1 + x * v.q)
          ∙ mod-eq_of_lt h

  -- It comes back only after `n` steps.
  pub stride_returns : (m : ℕ) → m < n → (start + m * (2 * s + 1)) % n ≡ start → m ≡ 0
  stride_returns m h back =
      sym (mod-eq_of_lt h)
      ∙ sym (add-mul-mod_self_left m n (m * v.q))
      ∙ ap (λ (y : ℕ). y % n) multiple
      ∙ mul-mod_left (c * v.t) n
    where
      c : ℕ
      c = (start + m * (2 * s + 1)) / n

      product : m * (2 * s + 1) ≡ c * n
      product = omega (arith, div-add-mod (start + m * (2 * s + 1)) n, back)

      multiple : m + n * (m * v.q) ≡ c * v.t * n
      multiple = omega (arith, ap (λ (y : ℕ). y * v.t) product, ap (λ (y : ℕ). m * y) v.law)

-- A full round brings every stride back.
pub round_returns : (start n stride : ℕ) → start < n → (start + n * stride) % n ≡ start
round_returns start n stride h = add-mul-mod_self_left start n stride ∙ mod-eq_of_lt h

-- The next probe is the next point of the orbit.
pub next_point :
    (start n stride m : ℕ) → ((start + m * stride) % n + stride) % n ≡ (start + suc m * stride) % n
next_point start n stride m =
    mod-add-mod (start + m * stride) n stride ∙ ap (λ (y : ℕ). y % n) (omega arith)
