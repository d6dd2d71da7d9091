-- ===== src/Packing/Symbols.antt =====
-- Numbers as lists of binary digits, lowest first, each of which is 0 or a digit of one of the values
-- that are packed; and what the operations of the packing routines do to such lists.
use Prim.Native.Nat.{max, bit_and, bit_or, bit_and-bitwise}
use native.Mathlib.Nat.{pow-suc, mul_comm, div-add-mod, zero-div, zero-mod, div-div-eq-div-mul}
use singlestoredb_extension.Base.{
  ℕ, zero, suc, ◌+◌, ◌*◌, ◌/◌, ◌%◌, ◌^◌, ◌<◌, ◌≡◌, refl, sym, ap, ◌∙◌, List, [], ◌∷◌, arith, ◌==◌,
  if◌then◌else◌, take, drop, eq-cases, ne→==, inl, inr, ◌⊎◌,
}
use singlestoredb_extension.Base.Bits.{
  bit_or_step, bit_and_step, zero-bit_or, bit_or-zero, bit_and-le,
}

-- `digit_of i b` is the digit `b` of the value `i`.
pub data Symbol : Type 0 where
  blank : Symbol
  digit_of : (i b : ℕ) → Symbol
  either : Symbol → Symbol → Symbol

-- The symbol of a digit that is set where one of two is.
unfoldable pub merge : Symbol → Symbol → Symbol
merge blank t = t
merge (digit_of i b) blank = digit_of i b
merge (digit_of i b) (digit_of j c) = either (digit_of i b) (digit_of j c)
merge (digit_of i b) (either t u) = either (digit_of i b) (either t u)
merge (either r s) t = either (either r s) t

unfoldable pub or : List Symbol → List Symbol → List Symbol
unfolding merge
or [] ts = ts
or (s ∷ ss) [] = s ∷ ss
or (s ∷ ss) (t ∷ ts) = merge s t ∷ or ss ts

unfoldable pub and : List Symbol → (mask : ℕ) → List Symbol
and [] mask = []
and (s ∷ ss) mask =
    let rest = and ss (mask / 2) in
    if mask == 0 then [] else (if mask % 2 == 0 then blank else s) ∷ rest

-- A shift to the left.
unfoldable pub shift : (l : ℕ) → List Symbol → List Symbol
shift zero ss = ss
shift (suc l) ss = blank ∷ shift l ss

-- The digits `b` to `b + n - 1` of the value `i`.
unfoldable pub digits_of : (i b n : ℕ) → List Symbol
digits_of i b zero = []
digits_of i b (suc n) = digit_of i b ∷ digits_of i (suc b) n

two_digits : (x : ℕ) → (x % 2 ≡ 0) ⊎ (x % 2 ≡ 1)
two_digits x = omega arith

halved : (x r : ℕ) → x / 2 / 2 ^ r ≡ x / 2 ^ suc r
halved x r = rw (div-div-eq-div-mul x 2 (2 ^ r), pow-suc 2 r, mul_comm 2 (2 ^ r))

halved_after : (x r : ℕ) → x / 2 ^ r / 2 ≡ x / 2 ^ suc r
halved_after x r = rw (div-div-eq-div-mul x (2 ^ r) 2, pow-suc 2 r)

low_digit_of : (x n q a b : ℕ) → n * q + a ≡ x / 2 → n * 2 * q + b ≡ x → b ≡ x % 2 + 2 * a
low_digit_of x n q a b high all = omega (arith, double)
  where
    double : n * 2 * q ≡ 2 * (n * q)
    double = grind arith

low_digit : (x w : ℕ) → x % 2 ^ suc w ≡ x % 2 + 2 * (x / 2 % 2 ^ w)
low_digit x w =
    low_digit_of x (2 ^ w) (x / 2 ^ suc w) (x / 2 % 2 ^ w) (x % 2 ^ suc w)
      (rw (sym (halved x w)) (div-add-mod (x / 2) (2 ^ w)))
      (rw (sym (pow-suc 2 w)) (div-add-mod x (2 ^ suc w)))

-- What symbols stand for under the values.
module _ (values : ℕ → ℕ) where
  unfoldable pub digit : Symbol → ℕ
  digit blank = 0
  digit (digit_of i b) = values i / 2 ^ b % 2
  digit (either s t) = max (digit s) (digit t)

  unfoldable pub number : List Symbol → ℕ
  unfolding digit
  number [] = 0
  number (s ∷ ss) = digit s + 2 * number ss

  digit-lt : (s : Symbol) → digit s < 2
  unfolding digit
  digit-lt blank = omega arith
  digit-lt (digit_of i b) = omega arith
  digit-lt (either s t) = omega (arith, digit-lt s, digit-lt t)

  digit-merge : (s t : Symbol) → digit (merge s t) ≡ max (digit s) (digit t)
  unfolding merge digit
  digit-merge blank t = omega arith
  digit-merge (digit_of i b) blank = omega arith
  digit-merge (digit_of i b) (digit_of j c) = refl
  digit-merge (digit_of i b) (either t u) = refl
  digit-merge (either r s) t = refl

  -- The lowest digit and the others.
  number-low : (s : Symbol) (ss : List Symbol) → number (s ∷ ss) % 2 ≡ digit s
  unfolding number
  number-low s ss = omega (arith, digit-lt s)

  number-high : (s : Symbol) (ss : List Symbol) → number (s ∷ ss) / 2 ≡ number ss
  unfolding number
  number-high s ss = omega (arith, digit-lt s)

  pub number-or : (ss ts : List Symbol) → bit_or (number ss) (number ts) ≡ number (or ss ts)
  unfolding number or
  number-or [] ts = zero-bit_or (number ts)
  number-or (s ∷ ss) [] = bit_or-zero (number (s ∷ ss))
  number-or (s ∷ ss) (t ∷ ts) =
      rw
        (
          bit_or_step (number (s ∷ ss)) (number (t ∷ ts)),
          number-high s ss,
          number-high t ts,
          number-low s ss,
          number-low t ts,
          number-or ss ts,
          digit-merge s t,
        )
        (omega arith)

  zero_mask : (a : ℕ) → bit_and a 0 ≡ 0
  zero_mask a = omega (arith, bit_and-le a 0)

  pub number-and : (ss : List Symbol) (mask : ℕ) → bit_and (number ss) mask ≡ number (and ss mask)
  unfolding number and
  number-and [] mask = bit_and-bitwise 0 mask
  number-and (s ∷ ss) mask = elim (eq-cases mask 0) [
    | inl none ↦ rw (none, zero_mask (number (s ∷ ss)))
    | inr some ↦
        rw
          (
            ne→== mask 0 some,
            bit_and_step (number (s ∷ ss)) mask,
            number-high s ss,
            number-low s ss,
            number-and ss (mask / 2),
          )
          (elim (two_digits mask) [
            | inl e ↦ rw (e) (omega (arith, digit-lt s))
            | inr e ↦ rw (e) (omega (arith, digit-lt s))
          ])
  ]

  pub number-shift : (l : ℕ) (ss : List Symbol) → number (shift l ss) ≡ number ss * 2 ^ l
  unfolding number shift digit
  number-shift zero ss = omega arith
  number-shift (suc l) ss = grind (arith, number-shift l ss, pow-suc 2 l)

  pub number-drop : (r : ℕ) (ss : List Symbol) → number (drop r ss) ≡ number ss / 2 ^ r
  unfolding number
  number-drop zero ss = omega arith
  number-drop (suc r) [] = sym (zero-div (2 ^ suc r))
  number-drop (suc r) (s ∷ ss) =
      number-drop r ss ∙ ap (λ x. x / 2 ^ r) (sym (number-high s ss)) ∙ halved (number (s ∷ ss)) r

  pub number-take : (w : ℕ) (ss : List Symbol) → number (take w ss) ≡ number ss % 2 ^ w
  unfolding number
  number-take zero ss = omega arith
  number-take (suc w) [] = sym (zero-mod (2 ^ suc w))
  number-take (suc w) (s ∷ ss) =
      rw (number-take w ss, low_digit (number (s ∷ ss)) w, number-low s ss, number-high s ss)

  pub number-digits_of : (i b n : ℕ) → number (digits_of i b n) ≡ values i / 2 ^ b % 2 ^ n
  unfolding number digits_of digit
  number-digits_of i b zero = omega arith
  number-digits_of i b (suc n) =
      rw (number-digits_of i (suc b) n, low_digit (values i / 2 ^ b) n, ← halved_after (values i) b)
