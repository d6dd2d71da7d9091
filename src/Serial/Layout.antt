-- ===== src/Serial/Layout.antt =====
-- The fields that the parser finds in each layout of a serialized compact sketch of version 3.
use singlestoredb_extension.Base.{
  ℕ, suc, ◌+◌, ◌*◌, ◌/◌, ◌%◌, ◌^◌, ◌≤◌, ◌<◌, ◌≡◌, refl, ap, Bool, true, false, not, List, [], ◌∷◌,
  ◌++◌, ok, arith, ◌==◌, if◌then◌else◌, length, drop, ==_self, le→ltb,
}
use singlestoredb_extension.Table.{max_theta}
use singlestoredb_extension.Bytes.{number_at, bytes_of, number_of, number_of-bytes_of}
use singlestoredb_extension.Parser.{SketchData, parse, whole_entries, parse_v3_entries, no_entries}
use singlestoredb_extension.Serial.{entry_bytes, read_entries}

-- A list of numbers of 64 bits.
abbrev pub AllWords : List ℕ → Type 0
AllWords [] = Unit
AllWords (x ∷ xs) = (x < 2 ^ 64) × AllWords xs

pub length-entry_bytes : (xs : List ℕ) → length (entry_bytes xs) ≡ 8 * length xs
unfolding entry_bytes bytes_of
length-entry_bytes [] = refl
length-entry_bytes (x ∷ xs) = omega (arith, length-entry_bytes xs)

-- A number of 64 bits is read back.
word_at : (x : ℕ) (rest : List ℕ) → x < 2 ^ 64 → number_at 8 (bytes_of 8 x ++ rest) 0 ≡ ok x
unfolding number_at bytes_of number_of
word_at x rest lt = ap ok (number_of-bytes_of 8 x lt)

word_dropped : (x : ℕ) (rest : List ℕ) → drop 8 (bytes_of 8 x ++ rest) ≡ rest
unfolding bytes_of
word_dropped x rest = refl

read_step :
    (x : ℕ) (xs : List ℕ)
    → x < 2 ^ 64
    → read_entries (length xs) (entry_bytes xs) ≡ ok xs
    → read_entries (suc (length xs)) (bytes_of 8 x ++ entry_bytes xs) ≡ ok (x ∷ xs)
unfolding read_entries
read_step x xs lt rest = rw (word_at x (entry_bytes xs) lt, word_dropped x (entry_bytes xs), rest)

pub read_entries-entry_bytes :
    (xs : List ℕ) → AllWords xs → read_entries (length xs) (entry_bytes xs) ≡ ok xs
unfolding read_entries entry_bytes
read_entries-entry_bytes [] all = refl
read_entries-entry_bytes (x ∷ xs) all = read_step x xs all.0 (read_entries-entry_bytes xs all.1)

-- The number of the seed hash in two bytes.
abbrev pub seed_of : (s0 s1 : ℕ) → ℕ
seed_of s0 s1 = number_of (s0 ∷ s1 ∷ [])

pub parse-empty :
    (sh g0 g1 s0 s1 : ℕ)
    → parse sh (1 ∷ 3 ∷ 3 ∷ g0 ∷ g1 ∷ 30 ∷ s0 ∷ s1 ∷ []) ≡ ok (no_entries (seed_of s0 s1) max_theta)
unfolding parse number_at number_of
parse-empty sh g0 g1 s0 s1 = refl

-- The result for a sketch with entries.
abbrev pub found :
    (seed_hash num_entries theta : ℕ) (is_ordered : Bool) (entries : List ℕ) → SketchData
found seed_hash num_entries theta is_ordered entries = record {
  is_empty = false;
  is_ordered = is_ordered;
  seed_hash = seed_hash;
  num_entries = num_entries;
  theta = theta;
  entries_start = entries;
  entry_bits = 64;
}

pub parse-single :
    (sh g0 g1 s0 s1 x : ℕ)
    → seed_of s0 s1 ≡ sh
    → parse sh (1 ∷ 3 ∷ 3 ∷ g0 ∷ g1 ∷ 26 ∷ s0 ∷ s1 ∷ bytes_of 8 x)
      ≡ ok (found sh 1 max_theta true (bytes_of 8 x))
unfolding parse number_at number_of bytes_of
parse-single sh g0 g1 s0 s1 x e = rw (e, ==_self sh)

abbrev flags_of : (ordered : Bool) → ℕ
flags_of ordered = if ordered then 26 else 10

flags_of-order : (ordered : Bool) → not (flags_of ordered / 2 ^ 4 % 2 == 0) ≡ ordered
flags_of-order true = refl
flags_of-order false = refl

-- A sketch that is not empty is read by the branch of version 3 for it.
pub parse-v3 :
    (sh pre g0 g1 s0 s1 : ℕ) (ordered : Bool) (rest : List ℕ)
    → let bytes = pre ∷ 3 ∷ 3 ∷ g0 ∷ g1 ∷ flags_of ordered ∷ s0 ∷ s1 ∷ rest in
      parse sh bytes ≡ parse_v3_entries sh bytes (seed_of s0 s1) (flags_of ordered)
unfolding parse number_of
parse-v3 sh pre g0 g1 s0 s1 true rest =
    rw (le→ltb (length (pre ∷ 3 ∷ 3 ∷ g0 ∷ g1 ∷ 26 ∷ s0 ∷ s1 ∷ rest)) 8 (omega arith))
parse-v3 sh pre g0 g1 s0 s1 false rest =
    rw (le→ltb (length (pre ∷ 3 ∷ 3 ∷ g0 ∷ g1 ∷ 10 ∷ s0 ∷ s1 ∷ rest)) 8 (omega arith))

whole_entries-ok :
    (sh : ℕ) (bytes : List ℕ) (ordered : Bool) (seed_hash n theta start : ℕ)
    → (start + n) % 2 ^ 32 * 8 % 2 ^ 32 ≤ length bytes
    → whole_entries sh bytes ordered seed_hash n theta start
      ≡ ok (found seed_hash n theta ordered (drop (8 * start) bytes))
unfolding whole_entries
whole_entries-ok sh bytes ordered seed_hash n theta start le =
    rw (le→ltb (length bytes) ((start + n) % 2 ^ 32 * 8 % 2 ^ 32) le)

-- The bytes before the entries: the preamble, the flags, the seed hash and the number of entries.
module _ (g0 g1 s0 s1 n0 n1 n2 n3 m0 m1 m2 m3 : ℕ) where
  abbrev layout : (pre : ℕ) (ordered : Bool) (rest : List ℕ) → List ℕ
  layout pre ordered rest =
      pre
      ∷ 3
      ∷ 3
      ∷ g0
      ∷ g1
      ∷ flags_of ordered
      ∷ s0
      ∷ s1
      ∷ n0
      ∷ n1
      ∷ n2
      ∷ n3
      ∷ m0
      ∷ m1
      ∷ m2
      ∷ m3
      ∷ rest

  pub parse-exact :
      (sh n : ℕ) (ordered : Bool) (rest : List ℕ)
      → seed_of s0 s1 ≡ sh
      → number_of (n0 ∷ n1 ∷ n2 ∷ n3 ∷ []) ≡ n
      → n < 2 ^ 28
      → length rest ≡ 8 * n
      → parse sh (layout 2 ordered rest) ≡ ok (found sh n max_theta ordered rest)
  unfolding parse_v3_entries number_of
  parse-exact sh n ordered rest e count few len =
      rw
        (
          parse-v3 sh 2 g0 g1 s0 s1 ordered (n0 ∷ n1 ∷ n2 ∷ n3 ∷ m0 ∷ m1 ∷ m2 ∷ m3 ∷ rest),
          e,
          ==_self sh,
          count,
          flags_of-order ordered,
        )
        (whole_entries-ok sh (layout 2 ordered rest) ordered sh n max_theta 2 (omega arith))

  pub parse-estimation :
      (sh n theta : ℕ) (ordered : Bool) (rest : List ℕ)
      → seed_of s0 s1 ≡ sh
      → number_of (n0 ∷ n1 ∷ n2 ∷ n3 ∷ []) ≡ n
      → n < 2 ^ 28
      → length rest ≡ 8 * n
      → theta < 256 ^ 8
      → parse sh (layout 3 ordered (bytes_of 8 theta ++ rest)) ≡ ok (found sh n theta ordered rest)
  unfolding parse_v3_entries number_of bytes_of
  parse-estimation sh n theta ordered rest e count few len lt =
      let bytes = layout 3 ordered (bytes_of 8 theta ++ rest) in
      rw
        (
          parse-v3 sh 3 g0 g1 s0 s1 ordered
              (n0 ∷ n1 ∷ n2 ∷ n3 ∷ m0 ∷ m1 ∷ m2 ∷ m3 ∷ (bytes_of 8 theta ++ rest)),
          e,
          ==_self sh,
          le→ltb (length bytes) 24 (omega arith),
          number_of-bytes_of 8 theta lt,
          count,
          flags_of-order ordered,
        )
        (whole_entries-ok sh bytes ordered sh n theta 3 (omega arith))
