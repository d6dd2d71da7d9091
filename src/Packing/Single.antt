-- ===== src/Packing/Single.antt =====
-- `pack_bits` and `unpack_bits` of theta-sketch/bit_packing.hpp, for a single value at an offset in
-- bits. Memory is the list of bytes from `ptr` on.
use Prim.Native.Nat.{bit_and, bit_or}
use singlestoredb_extension.Base.{
  ℕ, ◌+◌, ◌-◌, ◌*◌, ◌/◌, ◌%◌, ◌^◌, min, List, [], ◌∷◌, Outcome, ok, stop, undefined, ◌>>=◌, ltb,
  leb, ◌==◌, if◌then◌else◌, true, false,
}

-- The bytes that `ptr` has passed, those from it on, and the number of bits that are left.
pub record Packed : Type 0 where
  pub passed : List ℕ
  pub ahead : List ℕ
  pub bits : ℕ

-- `while (bits >= 8)` of `pack_bits`.
unfoldable pub put_whole : (value bits : ℕ) → List ℕ → Outcome Packed
put_whole value bits [] =
    if leb 8 bits then stop undefined else ok (record { passed = []; ahead = []; bits = bits })
put_whole value bits (old ∷ ahead) = elim (leb 8 bits) [
  | true ↦ do
    rest ← put_whole value (bits - 8) ahead
    ok (record rest { passed = value / 2 ^ (bits - 8) % 256 ∷ rest.passed })
  | false ↦ ok (record { passed = []; ahead = old ∷ ahead; bits = bits })
]

-- The last, partial byte.
unfoldable pub put_last : ℕ → Packed → Outcome Packed
put_last value p = if p.bits == 0 then ok p else elim p.ahead [
  | [] ↦ stop undefined
  | ◌∷◌ old ahead ↦ ok (record p { ahead = value * 2 ^ (8 - p.bits) % 2 ^ 64 % 256 ∷ ahead })
]

-- The new offset is the `bits` of the result.
unfoldable pub pack_bits : (value bits : ℕ) → List ℕ → (offset : ℕ) → Outcome Packed
unfolding put_whole put_last
pack_bits value bits memory offset =
    let chunk_bits = 8 - offset in
    let mask = 2 ^ chunk_bits - 1 in
    if offset == 0 then put_whole value bits memory >>= put_last value else elim memory [
      | [] ↦ stop undefined
      | ◌∷◌ old ahead ↦
          if ltb bits chunk_bits
          then ok (record {
            passed = [];
            ahead = bit_or old (bit_and (value * 2 ^ (chunk_bits - bits) % 2 ^ 64) mask) ∷ ahead;
            bits = offset + bits;
          })
          else do
            p ← put_whole value (bits - chunk_bits) ahead >>= put_last value
            ok (record p {
              passed = bit_or old (bit_and (value / 2 ^ (bits - chunk_bits)) mask) ∷ p.passed;
            })
    ]

-- The value, the bytes from the new `ptr` on, and the bits that are left or the new offset.
pub record Unpacked : Type 0 where
  pub value : ℕ
  pub ahead : List ℕ
  pub bits : ℕ

-- `while (bits >= 8)` of `unpack_bits`.
unfoldable pub take_whole : (value bits : ℕ) → List ℕ → Outcome Unpacked
take_whole value bits [] =
    if leb 8 bits then stop undefined else ok (record { value = value; ahead = []; bits = bits })
take_whole value bits (byte ∷ ahead) = elim (leb 8 bits) [
  | true ↦ take_whole (bit_or (value * 256 % 2 ^ 64) byte) (bits - 8) ahead
  | false ↦ ok (record { value = value; ahead = byte ∷ ahead; bits = bits })
]

-- The last, partial byte; without one the offset of the first chunk is the new offset.
unfoldable pub take_last : (offset : ℕ) → Unpacked → Outcome Unpacked
take_last offset u = if u.bits == 0 then ok (record u { bits = offset }) else elim u.ahead [
  | [] ↦ stop undefined
  | ◌∷◌ byte ahead ↦
      ok (record u { value = bit_or (u.value * 2 ^ u.bits % 2 ^ 64) (byte / 2 ^ (8 - u.bits)) })
]

unfoldable pub unpack_bits : (bits : ℕ) → List ℕ → (offset : ℕ) → Outcome Unpacked
unfolding take_whole take_last
unpack_bits bits [] offset = stop undefined
unpack_bits bits (byte ∷ bytes) offset =
    let avail_bits = 8 - offset in
    let chunk_bits = min avail_bits bits in
    let value = bit_and (byte / 2 ^ (avail_bits - chunk_bits)) (2 ^ chunk_bits - 1) in
    let ahead = if avail_bits == chunk_bits then bytes else byte ∷ bytes in
    take_whole value (bits - chunk_bits) ahead >>= take_last ((offset + chunk_bits) % 8)
