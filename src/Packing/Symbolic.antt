-- ===== src/Packing/Symbolic.antt =====
-- The packing routines on symbols in place of numbers, and that the routines on numbers do the same.
use Prim.Native.Nat.{bit_and}
use native.Mathlib.Nat.{mod-eq_of_lt, mul-le-mul_right}
use singlestoredb_extension.Base.{
  ℕ, zero, suc, ◌*◌, ◌/◌, ◌%◌, ◌^◌, ◌≤◌, ◌<◌, ◌≡◌, refl, ◌∙◌, Bool, true, false, ◌&&◌, List, [],
  ◌∷◌, map, Outcome, ok, stop, undefined, ◌>>=◌, arith, ltb, take, drop, length, get_or, lt→ltb,
  ltb→lt,
}
use singlestoredb_extension.Base.Bits.{bit_and-le}
use singlestoredb_extension.Packing.Code.{
  Part, left, right, assign, or_into, PackCode, Read, here, next, wide, UnpackCode, pack_part,
  or_parts, pack_byte, run_pack, int_shift, unpack_value, run_unpack,
}
use singlestoredb_extension.Packing.Symbols.{
  Symbol, or, and, shift, number, number-or, number-and, number-shift, number-drop, number-take,
}

unfoldable pub part_symbols : List (List Symbol) → Part → List Symbol
unfolding shift
part_symbols values (left i s) = take 8 (take 64 (shift s (get_or values i [])))
part_symbols values (right i s) = take 8 (drop s (get_or values i []))

unfoldable pub parts_symbols : List (List Symbol) → List Part → List Symbol
unfolding part_symbols or
parts_symbols values [] = []
parts_symbols values (p ∷ ps) = or (part_symbols values p) (parts_symbols values ps)

-- Every byte is assigned first.
unfoldable pub all_assign : PackCode → Bool
all_assign [] = true
all_assign (assign ps ∷ code) = all_assign code
all_assign (or_into ps ∷ code) = false

unfoldable pub pack_symbols : PackCode → List (List Symbol) → List (List Symbol)
unfolding parts_symbols
pack_symbols [] values = []
pack_symbols (assign ps ∷ code) values = parts_symbols values ps ∷ pack_symbols code values
pack_symbols (or_into ps ∷ code) values = parts_symbols values ps ∷ pack_symbols code values

-- A shift of an `int` that stays below the sign.
unfoldable pub narrow : List Read → Bool
narrow [] = true
narrow (here r mask l ∷ reads) = ltb (mask * 2 ^ l) (2 ^ 31) && narrow reads
narrow (next r mask l ∷ reads) = ltb (mask * 2 ^ l) (2 ^ 31) && narrow reads
narrow (wide r mask l ∷ reads) = narrow reads

unfoldable pub all_narrow : UnpackCode → Bool
unfolding narrow
all_narrow [] = true
all_narrow (reads ∷ code) = narrow reads && all_narrow code

unfoldable pub read_symbols :
    List Read → List Symbol → List (List Symbol) → Outcome (List Symbol × List (List Symbol))
unfolding or and shift
read_symbols [] value bytes = ok (value, bytes)
read_symbols (read ∷ reads) value [] = stop undefined
read_symbols (here r mask l ∷ reads) value (b ∷ bytes) =
    read_symbols reads (or value (shift l (and (drop r b) mask))) (b ∷ bytes)
read_symbols (next r mask l ∷ reads) value (b ∷ bytes) =
    read_symbols reads (or value (shift l (and (drop r b) mask))) bytes
read_symbols (wide r mask l ∷ reads) value (b ∷ bytes) =
    read_symbols reads (or value (take 64 (shift l (and (drop r b) mask)))) bytes

unfoldable pub unpack_symbols : UnpackCode → List (List Symbol) → Outcome (List (List Symbol))
unfolding read_symbols
unpack_symbols [] bytes = ok []
unpack_symbols (reads ∷ code) bytes = do
  value ← read_symbols reads [] bytes
  values ← unpack_symbols code value.1
  ok (value.0 ∷ values)

pub both-true : {a b : Bool} → (a && b) ≡ true → (a ≡ true) × (b ≡ true)
both-true {a = true} e = (refl, e)
both-true {a = false} e = cc

module _ (v : ℕ → ℕ) where
  abbrev pub numbers : List (List Symbol) → List ℕ
  numbers = map (number v)

  get_or-numbers :
      (xs : List (List Symbol)) (i : ℕ) → get_or (numbers xs) i 0 ≡ number v (get_or xs i [])
  unfolding number
  get_or-numbers [] i = refl
  get_or-numbers (x ∷ xs) zero = refl
  get_or-numbers (x ∷ xs) (suc i) = get_or-numbers xs i

  pack_part-symbols :
      (xs : List (List Symbol)) (p : Part) → pack_part (numbers xs) p ≡ number v (part_symbols xs p)
  unfolding pack_part part_symbols
  pack_part-symbols xs (left i s) = rw (
    get_or-numbers xs i,
    number-take v 8 (take 64 (shift s (get_or xs i []))),
    number-take v 64 (shift s (get_or xs i [])),
    number-shift v s (get_or xs i []),
  )
  pack_part-symbols xs (right i s) = rw (
    get_or-numbers xs i,
    number-take v 8 (drop s (get_or xs i [])),
    number-drop v s (get_or xs i []),
  )

  or_parts-symbols :
      (xs : List (List Symbol)) (ps : List Part)
      → or_parts (numbers xs) ps ≡ number v (parts_symbols xs ps)
  unfolding or_parts parts_symbols number
  or_parts-symbols xs [] = refl
  or_parts-symbols xs (p ∷ ps) = rw (
    pack_part-symbols xs p,
    or_parts-symbols xs ps,
    number-or v (part_symbols xs p) (parts_symbols xs ps),
  )

  pub run_pack-symbols :
      (code : PackCode) (xs : List (List Symbol)) (buffer : List ℕ)
      → all_assign code ≡ true
      → length buffer ≡ length code
      → run_pack code (numbers xs) buffer ≡ ok (numbers (pack_symbols code xs))
  unfolding run_pack pack_byte pack_symbols all_assign
  run_pack-symbols [] xs [] fresh e = refl
  run_pack-symbols [] xs (old ∷ buffer) fresh e = absurd (omega arith)
  run_pack-symbols (c ∷ code) xs [] fresh e = absurd (omega arith)
  run_pack-symbols (assign ps ∷ code) xs (old ∷ buffer) fresh e =
      rw (run_pack-symbols code xs buffer fresh (omega arith), or_parts-symbols xs ps)
  run_pack-symbols (or_into ps ∷ code) xs (old ∷ buffer) fresh e = cc

  int_shift-narrow :
      (x mask l : ℕ) → x ≤ mask → ltb (mask * 2 ^ l) (2 ^ 31) ≡ true → int_shift x l ≡ x * 2 ^ l
  unfolding int_shift
  int_shift-narrow x mask l le small =
      let low : x * 2 ^ l < 2 ^ 31 = omega (
        arith,
        mul-le-mul_right {m = x} {n = mask} (2 ^ l) le,
        ltb→lt (mask * 2 ^ l) (2 ^ 31) small,
      ) in
      rw (mod-eq_of_lt {n = x * 2 ^ l} {m = 2 ^ 32} (omega arith), lt→ltb (x * 2 ^ l) (2 ^ 31) low)

  masked :
      (ss : List Symbol) (r mask l : ℕ)
      → bit_and (number v ss / 2 ^ r) mask * 2 ^ l ≡ number v (shift l (and (drop r ss) mask))
  masked ss r mask l =
      rw (
        number-shift v l (and (drop r ss) mask),
        ← number-and v (drop r ss) mask,
        number-drop v r ss,
      )

  read_part :
      (ss : List Symbol) (r mask l : ℕ)
      → ltb (mask * 2 ^ l) (2 ^ 31) ≡ true
      → int_shift (bit_and (number v ss / 2 ^ r) mask) l ≡ number v (shift l (and (drop r ss) mask))
  read_part ss r mask l small =
      int_shift-narrow (bit_and (number v ss / 2 ^ r) mask) mask l (bit_and-le _ mask) small
      ∙ masked ss r mask l

  wide_part :
      (ss : List Symbol) (r mask l : ℕ)
      → bit_and (number v ss / 2 ^ r) mask * 2 ^ l % 2 ^ 64
        ≡ number v (take 64 (shift l (and (drop r ss) mask)))
  wide_part ss r mask l = rw (number-take v 64 (shift l (and (drop r ss) mask)), masked ss r mask l)

  -- The result of a run on symbols, as numbers.
  abbrev value_result : Outcome (List Symbol × List (List Symbol)) → Outcome (ℕ × List ℕ)
  value_result (ok r) = ok (number v (r.0), numbers (r.1))
  value_result (stop s) = stop s

  unpack_value-symbols :
      (reads : List Read) (value : List Symbol) (bytes : List (List Symbol))
      → narrow reads ≡ true
      → unpack_value reads (number v value) (numbers bytes)
        ≡ value_result (read_symbols reads value bytes)
  unfolding unpack_value read_symbols narrow
  unpack_value-symbols [] value bytes fits = refl
  unpack_value-symbols (read ∷ reads) value [] fits = refl
  unpack_value-symbols (here r mask l ∷ reads) value (b ∷ bytes) fits =
      let f = both-true fits in
      rw (read_part b r mask l f.0, number-or v value (shift l (and (drop r b) mask)))
        (unpack_value-symbols reads (or value (shift l (and (drop r b) mask))) (b ∷ bytes) f.1)
  unpack_value-symbols (next r mask l ∷ reads) value (b ∷ bytes) fits =
      let f = both-true fits in
      rw (read_part b r mask l f.0, number-or v value (shift l (and (drop r b) mask)))
        (unpack_value-symbols reads (or value (shift l (and (drop r b) mask))) bytes f.1)
  unpack_value-symbols (wide r mask l ∷ reads) value (b ∷ bytes) fits =
      rw (wide_part b r mask l, number-or v value (take 64 (shift l (and (drop r b) mask))))
        (unpack_value-symbols reads (or value (take 64 (shift l (and (drop r b) mask)))) bytes fits)

  abbrev pub values_result : Outcome (List (List Symbol)) → Outcome (List ℕ)
  values_result (ok xs) = ok (numbers xs)
  values_result (stop s) = stop s

  -- The values behind one.
  more_values :
      (x : List Symbol) (rest : Outcome (List (List Symbol)))
      → (values_result rest >>= λ xs. ok (number v x ∷ xs))
        ≡ values_result (rest >>= λ xs. ok (x ∷ xs))
  more_values x (ok xs) = refl
  more_values x (stop s) = refl

  step :
      (code : UnpackCode) (first : Outcome (List Symbol × List (List Symbol)))
      → ((bytes : List (List Symbol))
          → run_unpack code (numbers bytes) ≡ values_result (unpack_symbols code bytes))
      → (value_result first >>= λ value.
          run_unpack code (value.1) >>= λ values. ok (value.0 ∷ values))
        ≡ values_result
            (first >>= λ value. unpack_symbols code (value.1) >>= λ values. ok (value.0 ∷ values))
  step code (ok r) hyp = rw (hyp (r.1)) (more_values (r.0) (unpack_symbols code (r.1)))
  step code (stop s) hyp = refl

  pub run_unpack-symbols :
      (code : UnpackCode) (bytes : List (List Symbol))
      → all_narrow code ≡ true
      → run_unpack code (numbers bytes) ≡ values_result (unpack_symbols code bytes)
  unfolding run_unpack unpack_symbols all_narrow number
  run_unpack-symbols [] bytes fits = refl
  run_unpack-symbols (reads ∷ code) bytes fits =
      let f = both-true fits in
      rw (unpack_value-symbols reads [] bytes f.0)
        (step code (read_symbols reads [] bytes) (λ more. run_unpack-symbols code more f.1))
