-- ===== src/Bytes.antt =====
-- Numbers in memory, least significant byte first, as on WebAssembly. Memory is a list of bytes; a
-- read outside of it is undefined.
use singlestoredb_extension.Base.{
  ℕ, zero, suc, ◌+◌, ◌*◌, ◌/◌, ◌%◌, ◌^◌, ◌<◌, ◌≡◌, refl, List, [], ◌∷◌, none, some, Outcome, ok,
  stop, undefined, ◌>>=◌, get_elem?, length, arith,
}
use native.Mathlib.Nat.{pow-suc}

-- The number in `width` bytes from `offset` on.
unfoldable pub number_at : (width : ℕ) → List ℕ → (offset : ℕ) → Outcome ℕ
number_at zero bytes offset = ok 0
number_at (suc width) bytes offset = do
  low ← elim (get_elem? bytes offset) [ none ↦ stop undefined | some byte ↦ ok byte ]
  high ← number_at width bytes (offset + 1)
  ok (low + 256 * high)

-- `reinterpret_cast<const uint8_t*>(ptr)[i]`, and the same for wider types.
unfoldable pub u8_at : List ℕ → ℕ → Outcome ℕ
u8_at bytes i = elim (get_elem? bytes i) [ none ↦ stop undefined | some byte ↦ ok byte ]

unfoldable pub u16_at : List ℕ → ℕ → Outcome ℕ
unfolding number_at
u16_at bytes i = number_at 2 bytes (2 * i)

unfoldable pub u32_at : List ℕ → ℕ → Outcome ℕ
unfolding number_at
u32_at bytes i = number_at 4 bytes (4 * i)

unfoldable pub u64_at : List ℕ → ℕ → Outcome ℕ
unfolding number_at
u64_at bytes i = number_at 8 bytes (8 * i)

-- `copy_to_mem` of common/memory_operations.hpp writes these bytes.
unfoldable pub bytes_of : (width : ℕ) → ℕ → List ℕ
bytes_of zero x = []
bytes_of (suc width) x = x % 256 ∷ bytes_of width (x / 256)

-- The number that bytes stand for.
unfoldable pub number_of : List ℕ → ℕ
number_of [] = 0
number_of (b ∷ bs) = b + 256 * number_of bs

pub number_of-bytes_of : (width x : ℕ) → x < 256 ^ width → number_of (bytes_of width x) ≡ x
unfolding number_of bytes_of
number_of-bytes_of zero x lt = omega arith
number_of-bytes_of (suc width) x lt =
    omega (arith, number_of-bytes_of width (x / 256) (omega (arith, pow-suc 256 width)))

pub length-bytes_of : (width x : ℕ) → length (bytes_of width x) ≡ width
unfolding bytes_of
length-bytes_of zero x = refl
length-bytes_of (suc width) x = omega (arith, length-bytes_of width (x / 256))
