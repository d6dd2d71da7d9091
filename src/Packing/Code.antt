-- ===== src/Packing/Code.antt =====
-- Statements of the unrolled routines of theta-sketch/bit_packing.hpp, and how they run. A pack
-- routine fills a buffer byte by byte; an unpack routine fills a block of 8 values from bytes.
use Prim.Native.Nat.{bit_and, bit_or}
use singlestoredb_extension.Base.{
  ℕ, ◌+◌, ◌-◌, ◌*◌, ◌/◌, ◌%◌, ◌^◌, List, [], ◌∷◌, Outcome, ok, stop, undefined, ◌>>=◌, ltb,
  if◌then◌else◌, get_or,
}

-- `static_cast<uint8_t>(values[i] << s)` and `static_cast<uint8_t>(values[i] >> s)`; a shift of 0 is
-- not written.
pub data Part : Type 0 where
  left right : (i s : ℕ) → Part

-- The statements that write one byte: `*ptr = p`, or `*ptr |= p` for a first statement that keeps
-- what the byte held, and `*ptr |= p` for each later one. The last of them moves `ptr` on.
pub data ByteCode : Type 0 where
  assign or_into : List Part → ByteCode

abbrev pub PackCode : Type 0
PackCode = List ByteCode

-- `(*ptr >> r & mask) << l`, on which `ptr` stays with `here` and moves on with `next`; a mask of 255
-- and a shift of 0 are not written. The operands are of type `int` but for `wide`, which casts to
-- `uint64_t` before the last shift, and moves `ptr` on.
pub data Read : Type 0 where
  here next wide : (r mask l : ℕ) → Read

-- The statements for each value: `values[i] = p`, then `values[i] |= p`.
abbrev pub UnpackCode : Type 0
UnpackCode = List (List Read)

unfoldable pub pack_part : List ℕ → Part → ℕ
pack_part values (left i s) = get_or values i 0 * 2 ^ s % 2 ^ 64 % 256
pack_part values (right i s) = get_or values i 0 / 2 ^ s % 256

unfoldable pub or_parts : List ℕ → List Part → ℕ
unfolding pack_part
or_parts values [] = 0
or_parts values (p ∷ ps) = bit_or (pack_part values p) (or_parts values ps)

unfoldable pub pack_byte : List ℕ → ByteCode → ℕ → ℕ
unfolding or_parts
pack_byte values (assign ps) old = or_parts values ps
pack_byte values (or_into ps) old = bit_or old (or_parts values ps)

-- The buffer after a pack routine, from its content before.
unfoldable pub run_pack : PackCode → List ℕ → List ℕ → Outcome (List ℕ)
unfolding pack_byte
run_pack [] values buffer = ok buffer
run_pack (c ∷ cs) values [] = stop undefined
run_pack (c ∷ cs) values (old ∷ buffer) = do
  rest ← run_pack cs values buffer
  ok (pack_byte values c old ∷ rest)

-- A shift of an `int`, converted to `uint64_t`: past 31 bits it is negative and its sign is extended.
unfoldable pub int_shift : ℕ → ℕ → ℕ
int_shift x l = let y = x * 2 ^ l % 2 ^ 32 in if ltb y (2 ^ 31) then y else y + (2 ^ 64 - 2 ^ 32)

unfoldable pub unpack_value : List Read → ℕ → List ℕ → Outcome (ℕ × List ℕ)
unfolding int_shift
unpack_value [] value bytes = ok (value, bytes)
unpack_value (read ∷ reads) value [] = stop undefined
unpack_value (here r mask l ∷ reads) value (b ∷ bytes) =
    unpack_value reads (bit_or value (int_shift (bit_and (b / 2 ^ r) mask) l)) (b ∷ bytes)
unpack_value (next r mask l ∷ reads) value (b ∷ bytes) =
    unpack_value reads (bit_or value (int_shift (bit_and (b / 2 ^ r) mask) l)) bytes
unpack_value (wide r mask l ∷ reads) value (b ∷ bytes) =
    unpack_value reads (bit_or value (bit_and (b / 2 ^ r) mask * 2 ^ l % 2 ^ 64)) bytes

unfoldable pub run_unpack : UnpackCode → List ℕ → Outcome (List ℕ)
unfolding unpack_value
run_unpack [] bytes = ok []
run_unpack (reads ∷ code) bytes = do
  value ← unpack_value reads 0 bytes
  values ← run_unpack code value.1
  ok (value.0 ∷ values)
