-- ===== src/Tests/Packs.antt =====
-- Packed blocks of 8 values.
use singlestoredb_extension.Base.{
  ℕ, ◌^◌, ◌<◌, ◌≡◌, refl, List, [], ◌∷◌, Outcome, ok, ◌>>=◌, arith, replicate, get_or,
}
use singlestoredb_extension.Packing.Block.{pack_bits_block8, unpack_bits_block8}
use singlestoredb_extension.Packing.RoundTrip.{block, unpack_bits_block8-pack_bits_block8}

-- Values of 7 bits, in memory that is full of ones.
abbrev small_value : ℕ → ℕ
small_value i = get_or (100 ∷ 3 ∷ 127 ∷ 64 ∷ 0 ∷ 85 ∷ 42 ∷ 1 ∷ []) i 0

abbrev ones : List ℕ
ones = 255 ∷ 255 ∷ 255 ∷ 255 ∷ 255 ∷ 255 ∷ 255 ∷ []

small_value-lt : (i : ℕ) → small_value i < 2 ^ 7
small_value-lt i = ground arith

unpack_bits_block8-pack_bits_block8_example :
    (pack_bits_block8 (block small_value) 7 ones >>= λ bytes. unpack_bits_block8 bytes 7)
    ≡ ok (block small_value)
unpack_bits_block8-pack_bits_block8_example =
    unpack_bits_block8-pack_bits_block8 7 small_value ones (omega arith) (omega arith) (omega arith)
      (omega arith) (omega arith) (omega arith) small_value-lt refl

-- What the four routines with a slip give back.
abbrev packed_and_back : (values : List ℕ) (bits : ℕ) (buffer : List ℕ) → Outcome (List ℕ)
packed_and_back values bits buffer =
    pack_bits_block8 values bits buffer >>= λ bytes. unpack_bits_block8 bytes bits

abbrev all_equal : ℕ → List ℕ
all_equal x = x ∷ x ∷ x ∷ x ∷ x ∷ x ∷ x ∷ x ∷ []

slip_13 :
    packed_and_back (all_equal 16) 13 (replicate 13 0)
    ≡ ok (16 ∷ 16 ∷ 16 ∷ 16 ∷ 528 ∷ 16 ∷ 16 ∷ 16 ∷ [])
unfolding pack_bits_block8 unpack_bits_block8 replicate
slip_13 = refl

slip_19 :
    packed_and_back (all_equal 0) 19 (replicate 19 255)
    ≡ ok (0 ∷ 0 ∷ 0 ∷ 0 ∷ 32640 ∷ 0 ∷ 0 ∷ 0 ∷ [])
unfolding pack_bits_block8 unpack_bits_block8 replicate
slip_19 = refl

slip_33 :
    packed_and_back (all_equal 2147483648) 33 (replicate 33 0)
    ≡ ok (
        2147483648 ∷ 2147483648 ∷ 2147483648 ∷ 2147483648 ∷ 2147483648 ∷ 2147483648 ∷ 2147483648
        ∷ 18446744071562067968 ∷ [])
unfolding pack_bits_block8 unpack_bits_block8 replicate
slip_33 = refl

slip_35 :
    packed_and_back (all_equal 34359738367) 35 (replicate 35 0)
    ≡ ok (
        34359738367 ∷ 34359738367 ∷ 25769803775 ∷ 34359738367 ∷ 34359738367 ∷ 34359738367
        ∷ 34359738367 ∷ 34359738367 ∷ [])
unfolding pack_bits_block8 unpack_bits_block8 replicate
slip_35 = refl
