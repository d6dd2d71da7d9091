-- ===== src/Parser.antt =====
-- `compact_theta_sketch_parser` of theta-sketch/compact_theta_sketch_parser.hpp and its _impl.hpp: the
-- fields of a serialized compact sketch, of the serial versions 1 to 4. The program is built for
-- WebAssembly, so `size_t` has 32 bits, and sums and products of sizes wrap at 2 ^ 32.
use Prim.Native.Nat.{bit_or}
use singlestoredb_extension.Base.{
  ℕ, zero, suc, ◌+◌, ◌*◌, ◌/◌, ◌%◌, ◌^◌, Bool, true, false, not, ◌&&◌, List, [], Outcome, ok, stop,
  undefined, invalid_arg, out_of_range, ◌>>=◌, ◌>>◌, ltb, leb, ◌==◌, if◌then◌else◌, length, drop,
}
use singlestoredb_extension.Table.{max_theta}
use singlestoredb_extension.Bytes.{u8_at, u16_at, u32_at, u64_at}

-- `compact_theta_sketch_data`. `entries_start` is the memory from `entries_start_ptr` on, and nothing
-- for a null pointer.
pub record SketchData : Type 0 where
  pub is_empty : Bool
  pub is_ordered : Bool
  pub seed_hash : ℕ
  pub num_entries : ℕ
  pub theta : ℕ
  pub entries_start : List ℕ
  pub entry_bits : ℕ

-- The result for a sketch without entries.
abbrev pub no_entries : (seed_hash theta : ℕ) → SketchData
no_entries seed_hash theta = record {
  is_empty = true;
  is_ordered = true;
  seed_hash = seed_hash;
  num_entries = 0;
  theta = theta;
  entries_start = [];
  entry_bits = 64;
}

unfoldable pub whole_bytes_to_hold_bits : ℕ → ℕ
whole_bytes_to_hold_bits bits = bits / 8 + (if ltb 0 (bits % 8) then 1 else 0)

unfoldable pub check_memory_size : (actual_bytes expected_bytes : ℕ) → Outcome (Unit {0})
check_memory_size actual_bytes expected_bytes =
    if ltb actual_bytes expected_bytes then stop out_of_range else ok tt

-- `check_value` of theta-sketch/theta_helpers.hpp, under the names of `checker`.
unfoldable pub check_value : (actual expected : ℕ) → Outcome (Unit {0})
check_value actual expected = if actual == expected then ok tt else stop invalid_arg

-- The loop that reads the number of entries of version 4. A shift by 32 or more is undefined.
unfoldable pub read_num_entries :
    (bytes : List ℕ) (num_entries_bytes i offset num_entries : ℕ) → Outcome ℕ
unfolding u8_at
read_num_entries bytes zero i offset num_entries = ok num_entries
read_num_entries bytes (suc rounds) i offset num_entries = do
  byte ← u8_at bytes offset
  shifted ← (if leb 4 i then stop undefined else ok (byte * 2 ^ (8 * i) % 2 ^ 32))
  read_num_entries bytes rounds (i + 1) (offset + 1) (bit_or num_entries shifted)

-- `expected_seed_hash` is `compute_seed_hash(seed)` in each of the versions.
module _ (expected_seed_hash : ℕ) (bytes : List ℕ) where
  abbrev size : ℕ
  size = length bytes

  -- `entry_bits * num_entries` is computed in 32 bits.
  unfoldable pub parse_v4 : Outcome SketchData
  unfolding u8_at u16_at u64_at check_value check_memory_size read_num_entries
      whole_bytes_to_hold_bits
  parse_v4 = do
    seed_hash ← u16_at bytes 3
    check_value seed_hash expected_seed_hash
    preamble_longs ← u8_at bytes 0
    let has_theta = ltb 1 preamble_longs
    theta ← (if has_theta then check_memory_size size 16 >> u64_at bytes 1 else ok max_theta)
    num_entries_bytes ← u8_at bytes 4
    let packed_data = if has_theta then 16 else 8
    check_memory_size size (packed_data + num_entries_bytes)
    num_entries ← read_num_entries bytes num_entries_bytes 0 packed_data 0
    entry_bits ← u8_at bytes 3
    let data_offset_bytes = packed_data + num_entries_bytes
    let expected_bits = entry_bits * num_entries % 2 ^ 32
    check_memory_size size ((data_offset_bytes + whole_bytes_to_hold_bits expected_bits) % 2 ^ 32)
    ok (record {
      is_empty = false;
      is_ordered = true;
      seed_hash = seed_hash;
      num_entries = num_entries;
      theta = theta;
      entries_start = drop data_offset_bytes bytes;
      entry_bits = entry_bits;
    })

  -- Entries of 64 bits that start at the 64-bit word `start`.
  unfoldable pub whole_entries :
      (is_ordered : Bool) (seed_hash num_entries theta start : ℕ) → Outcome SketchData
  unfolding check_memory_size
  whole_entries is_ordered seed_hash num_entries theta start = do
    check_memory_size size ((start + num_entries) % 2 ^ 32 * 8 % 2 ^ 32)
    ok (record {
      is_empty = false;
      is_ordered = is_ordered;
      seed_hash = seed_hash;
      num_entries = num_entries;
      theta = theta;
      entries_start = drop (8 * start) bytes;
      entry_bits = 64;
    })

  -- The branch of version 3 for a sketch that is not empty.
  unfoldable pub parse_v3_entries : (seed_hash flags : ℕ) → Outcome SketchData
  unfolding u8_at u32_at u64_at check_value check_memory_size whole_entries
  parse_v3_entries seed_hash flags = do
    check_value seed_hash expected_seed_hash
    preamble_longs ← u8_at bytes 0
    let has_theta = ltb 2 preamble_longs
    theta ← (if has_theta then check_memory_size size 24 >> u64_at bytes 2 else ok max_theta)
    elim (preamble_longs == 1) [
      | true ↦ do
        check_memory_size size 16
        ok (record {
          is_empty = false;
          is_ordered = true;
          seed_hash = seed_hash;
          num_entries = 1;
          theta = theta;
          entries_start = drop 8 bytes;
          entry_bits = 64;
        })
      | false ↦ do
        num_entries ← u32_at bytes 2
        whole_entries (not (flags / 2 ^ 4 % 2 == 0)) seed_hash num_entries theta
            (if has_theta then 3 else 2)
    ]

  unfoldable pub parse_v3 : Outcome SketchData
  unfolding u8_at u16_at parse_v3_entries
  parse_v3 = do
    seed_hash ← u16_at bytes 3
    flags ← u8_at bytes 5
    elim (flags / 2 ^ 2 % 2 == 0) [
      | false ↦ ok (no_entries seed_hash max_theta)
      | true ↦ parse_v3_entries seed_hash flags
    ]

  -- The number of entries and theta, which versions 1 and 2 have in the same places.
  unfoldable pub parse_with_theta : (seed_hash : ℕ) → Outcome SketchData
  unfolding u32_at u64_at whole_entries
  parse_with_theta seed_hash = do
    num_entries ← u32_at bytes 2
    theta ← u64_at bytes 2
    if num_entries == 0 && theta == max_theta
        then ok (no_entries seed_hash theta)
        else whole_entries true seed_hash num_entries theta 3

  unfoldable pub parse_v1 : Outcome SketchData
  unfolding parse_with_theta
  parse_v1 = parse_with_theta expected_seed_hash

  unfoldable pub parse_v2 : Outcome SketchData
  unfolding u8_at u16_at u32_at check_value whole_entries parse_with_theta
  parse_v2 = do
    preamble_size ← u8_at bytes 0
    seed_hash ← u16_at bytes 3
    check_value seed_hash expected_seed_hash
    elim (preamble_size == 1) [
      | true ↦ ok (no_entries seed_hash max_theta)
      | false ↦ elim (preamble_size == 2) [
        | true ↦ do
          num_entries ← u32_at bytes 2
          if num_entries == 0
              then ok (no_entries seed_hash max_theta)
              else whole_entries true seed_hash num_entries max_theta 2
        | false ↦ elim (preamble_size == 3) [
          | true ↦ parse_with_theta seed_hash
          | false ↦ stop invalid_arg
        ]
      ]
    ]

  unfoldable pub parse : Outcome SketchData
  unfolding check_memory_size u8_at check_value parse_v1 parse_v2 parse_v3 parse_v4
  parse = do
    check_memory_size size 8
    sketch_type ← u8_at bytes 2
    check_value sketch_type 3
    serial_version ← u8_at bytes 1
    elim (serial_version == 4) [
      | true ↦ parse_v4
      | false ↦ elim (serial_version == 3) [
        | true ↦ parse_v3
        | false ↦ elim (serial_version == 1) [
          | true ↦ parse_v1
          | false ↦ elim (serial_version == 2) [ true ↦ parse_v2 | false ↦ stop invalid_arg ]
        ]
      ]
    ]
