-- ===== src/Packing/RoundTrip.antt =====
-- A block of 8 values is unpacked as it was packed.
use native.Mathlib.Nat.{mod-eq_of_lt, div-one}
use singlestoredb_extension.Base.{
  ℕ, zero, suc, ◌+◌, ◌^◌, ◌≤◌, ◌<◌, ◌≡◌, ◌≢◌, refl, sym, ap, ◌∙◌, Bool, true, false, ◌&&◌, not,
  List, [], ◌∷◌, Option, none, some, Outcome, ok, stop, ◌>>=◌, arith, ltb, ◌==◌, length, ==_iff,
  inl, inr, eq-cases, ◌||◌, lt→ltb, ne→==, logic_err,
}
use singlestoredb_extension.Packing.Code.{PackCode, UnpackCode, run_pack, run_unpack}
use singlestoredb_extension.Packing.Block.{
  case_of, pack_cases, unpack_cases, pack_bits_block8, unpack_bits_block8,
}
use singlestoredb_extension.Packing.Symbols.{
  Symbol, blank, digit_of, either, digits_of, number, number-digits_of,
}
use singlestoredb_extension.Packing.Symbolic.{
  all_assign, all_narrow, pack_symbols, unpack_symbols, both-true, numbers, run_pack-symbols,
  run_unpack-symbols,
}

-- The digits of 8 values of as many bits.
abbrev block_symbols : (bits : ℕ) → List (List Symbol)
block_symbols bits =
    digits_of 0 0 bits
    ∷ digits_of 1 0 bits
    ∷ digits_of 2 0 bits
    ∷ digits_of 3 0 bits
    ∷ digits_of 4 0 bits
    ∷ digits_of 5 0 bits
    ∷ digits_of 6 0 bits
    ∷ digits_of 7 0 bits
    ∷ []

unfoldable same_symbol : Symbol → Symbol → Bool
same_symbol blank blank = true
same_symbol (digit_of i b) (digit_of j c) = (i == j) && (b == c)
same_symbol _ _ = false

unfoldable same_number : List Symbol → List Symbol → Bool
unfolding same_symbol
same_number [] [] = true
same_number (s ∷ ss) (t ∷ ts) = same_symbol s t && same_number ss ts
same_number _ _ = false

unfoldable same_block : List (List Symbol) → List (List Symbol) → Bool
unfolding same_number
same_block [] [] = true
same_block (s ∷ ss) (t ∷ ts) = same_number s t && same_block ss ts
same_block _ _ = false

unfoldable same_result : Outcome (List (List Symbol)) → List (List Symbol) → Bool
unfolding same_block
same_result (ok xs) ys = same_block xs ys
same_result (stop s) ys = false

-- A pair of routines that gives back the block on symbols.
unfoldable round_trip : PackCode → UnpackCode → (bits : ℕ) → Bool
unfolding all_assign all_narrow pack_symbols unpack_symbols same_result digits_of
round_trip pack unpack bits =
    all_assign pack
    && ((length pack == bits)
        && (all_narrow unpack
            && same_result (unpack_symbols unpack (pack_symbols pack (block_symbols bits)))
                (block_symbols bits)))

unfoldable case_round_trip : ℕ → Bool
unfolding case_of round_trip
case_round_trip bits = elim (case_of pack_cases bits) [
  | none ↦ false
  | some pack ↦ elim (case_of unpack_cases bits) [
    | none ↦ false
    | some unpack ↦ round_trip pack unpack bits
  ]
]

-- The widths of the routines without a slip: all but 13, 19, 33 and 35.
abbrev is_sound_width : ℕ → Bool
is_sound_width bits =
    ltb 0 bits
    && ltb bits 64
    && not (bits == 13)
    && not (bits == 19)
    && not (bits == 33)
    && not (bits == 35)

-- From `start` on, `count` widths.
unfoldable widths_round_trip : (count start : ℕ) → Bool
unfolding case_round_trip
widths_round_trip zero start = true
widths_round_trip (suc count) start =
    (not (is_sound_width start) || case_round_trip start) && widths_round_trip count (suc start)

all_widths : widths_round_trip 64 0 ≡ true
unfolding widths_round_trip
all_widths = refl

sound_case :
    (bits : ℕ)
    → is_sound_width bits ≡ true
    → (not (is_sound_width bits) || case_round_trip bits) ≡ true
    → case_round_trip bits ≡ true
sound_case bits sound e = rw (sound) at e

width_round_trip :
    (count start bits : ℕ)
    → widths_round_trip count start ≡ true
    → start ≤ bits
    → bits < start + count
    → is_sound_width bits ≡ true
    → case_round_trip bits ≡ true
unfolding widths_round_trip
width_round_trip zero start bits all le lt sound = absurd (omega arith)
width_round_trip (suc count) start bits all le lt sound = elim (eq-cases start bits) [
  | inl e ↦ rw (sym e) (sound_case start (rw (e) sound) (both-true all).0)
  | inr ne ↦
      width_round_trip count (suc start) bits (both-true all).1 (omega arith) (omega arith) sound
]

-- What equal symbols mean.
same_symbol-eq : (s t : Symbol) → same_symbol s t ≡ true → s ≡ t
unfolding same_symbol
same_symbol-eq blank blank e = refl
same_symbol-eq blank (digit_of j c) e = cc
same_symbol-eq blank (either t u) e = cc
same_symbol-eq (digit_of i b) blank e = cc
same_symbol-eq (digit_of i b) (digit_of j c) e =
    let f = both-true e in rw ((==_iff i j).0 f.0, (==_iff b c).0 f.1)
same_symbol-eq (digit_of i b) (either t u) e = cc
same_symbol-eq (either r s) t e = cc

same_number-eq : (ss ts : List Symbol) → same_number ss ts ≡ true → ss ≡ ts
unfolding same_number
same_number-eq [] [] e = refl
same_number-eq [] (t ∷ ts) e = cc
same_number-eq (s ∷ ss) [] e = cc
same_number-eq (s ∷ ss) (t ∷ ts) e =
    let f = both-true e in rw (same_symbol-eq s t f.0, same_number-eq ss ts f.1)

same_block-eq : (ss ts : List (List Symbol)) → same_block ss ts ≡ true → ss ≡ ts
unfolding same_block
same_block-eq [] [] e = refl
same_block-eq [] (t ∷ ts) e = cc
same_block-eq (s ∷ ss) [] e = cc
same_block-eq (s ∷ ss) (t ∷ ts) e =
    let f = both-true e in rw (same_number-eq s t f.0, same_block-eq ss ts f.1)

same_result-eq :
    (r : Outcome (List (List Symbol))) (ys : List (List Symbol))
    → same_result r ys ≡ true
    → r ≡ ok ys
unfolding same_result
same_result-eq (ok xs) ys e = ap ok (same_block-eq xs ys e)
same_result-eq (stop s) ys e = cc

-- 8 values.
abbrev pub block : (ℕ → ℕ) → List ℕ
block v = v 0 ∷ v 1 ∷ v 2 ∷ v 3 ∷ v 4 ∷ v 5 ∷ v 6 ∷ v 7 ∷ []

number-value : (v : ℕ → ℕ) (bits i : ℕ) → v i < 2 ^ bits → number v (digits_of i 0 bits) ≡ v i
number-value v bits i lt = rw (number-digits_of v i 0 bits, div-one (v i), mod-eq_of_lt lt)

numbers-block :
    (v : ℕ → ℕ) (bits : ℕ) → ((i : ℕ) → v i < 2 ^ bits) → numbers v (block_symbols bits) ≡ block v
numbers-block v bits small = rw (
  number-value v bits 0 (small 0),
  number-value v bits 1 (small 1),
  number-value v bits 2 (small 2),
  number-value v bits 3 (small 3),
  number-value v bits 4 (small 4),
  number-value v bits 5 (small 5),
  number-value v bits 6 (small 6),
  number-value v bits 7 (small 7),
)

run_round_trip :
    (pack : PackCode) (unpack : UnpackCode) (bits : ℕ) (v : ℕ → ℕ) (buffer : List ℕ)
    → round_trip pack unpack bits ≡ true
    → ((i : ℕ) → v i < 2 ^ bits)
    → length buffer ≡ bits
    → (run_pack pack (block v) buffer >>= run_unpack unpack) ≡ ok (block v)
unfolding round_trip
run_round_trip pack unpack bits v buffer checked small len =
    let c = both-true {a = all_assign pack} checked in
    let d = both-true {a = length pack == bits} c.1 in
    let e = both-true {a = all_narrow unpack} d.1 in
    let packed = pack_symbols pack (block_symbols bits) in
    rw (
      ← numbers-block v bits small,
      run_pack-symbols v pack (block_symbols bits) buffer c.0
          (len ∙ sym ((==_iff (length pack) bits).0 d.0)),
      run_unpack-symbols v unpack packed e.0,
      same_result-eq (unpack_symbols unpack packed) (block_symbols bits) e.1,
    )

-- The cases of the two `switch` statements.
cases_round_trip :
    (pack : Option PackCode) (unpack : Option UnpackCode) (bits : ℕ) (v : ℕ → ℕ) (buffer : List ℕ)
    → elim pack [
      | none ↦ false
      | some p ↦ elim unpack [ none ↦ false | some u ↦ round_trip p u bits ]
    ]
      ≡ true
    → ((i : ℕ) → v i < 2 ^ bits)
    → length buffer ≡ bits
    → (elim pack [ none ↦ stop logic_err | some code ↦ run_pack code (block v) buffer ] >>= λ bytes.
        elim unpack [ none ↦ stop logic_err | some code ↦ run_unpack code bytes ])
      ≡ ok (block v)
cases_round_trip none unpack bits v buffer checked small len = cc
cases_round_trip (some p) none bits v buffer checked small len = cc
cases_round_trip (some p) (some u) bits v buffer checked small len =
    run_round_trip p u bits v buffer checked small len

-- For every width from 1 to 63 but 13, 19, 33 and 35: 8 values of that many bits, packed by
-- `pack_bits_block8` into as many bytes of any content as the width says and unpacked by
-- `unpack_bits_block8`, are the values again.
pub unpack_bits_block8-pack_bits_block8 :
    (bits : ℕ) (v : ℕ → ℕ) (buffer : List ℕ)
    → 0 < bits
    → bits < 64
    → bits ≢ 13
    → bits ≢ 19
    → bits ≢ 33
    → bits ≢ 35
    → ((i : ℕ) → v i < 2 ^ bits)
    → length buffer ≡ bits
    → (pack_bits_block8 (block v) bits buffer >>= λ bytes. unpack_bits_block8 bytes bits)
      ≡ ok (block v)
unfolding pack_bits_block8 unpack_bits_block8 case_round_trip
unpack_bits_block8-pack_bits_block8 bits v buffer pos lt ne13 ne19 ne33 ne35 small len =
    let sound : is_sound_width bits ≡ true = rw (
      lt→ltb 0 bits pos,
      lt→ltb bits 64 lt,
      ne→== bits 13 ne13,
      ne→== bits 19 ne19,
      ne→== bits 33 ne33,
      ne→== bits 35 ne35,
    ) in
    cases_round_trip (case_of pack_cases bits) (case_of unpack_cases bits) bits v buffer
      (width_round_trip 64 0 bits all_widths (omega arith) (omega arith) sound) small len
