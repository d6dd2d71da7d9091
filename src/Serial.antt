-- ===== src/Serial.antt =====
-- Serialized compact sketches: `serialize2` and `deserialize` of `compact_theta_sketch_alloc`, and the
-- wrapped compact sketch, of theta-sketch/theta_sketch_impl.hpp.
pub mod Layout
pub mod RoundTrip
pub mod Seeds
pub mod Sketches
use singlestoredb_extension.Base.{
  ℕ, zero, suc, ◌+◌, ◌-◌, ◌*◌, ◌/◌, ◌%◌, ◌^◌, Bool, true, false, not, ◌&&◌, ◌||◌, Option, none,
  some, List, [], ◌∷◌, ◌++◌, Outcome, ok, ◌>>=◌, ltb, leb, ◌==◌, if◌then◌else◌, length, drop,
  get_or,
}
use singlestoredb_extension.Table.{max_theta}
use singlestoredb_extension.Sketch.{Sketch, CompactSketch, make_compact}
use singlestoredb_extension.Bytes.{number_at, bytes_of}
use singlestoredb_extension.Packing.Block.{unpack_bits_block8}
use singlestoredb_extension.Packing.Single.{unpack_bits}
use singlestoredb_extension.Parser.{SketchData, parse}

-- `base_theta_sketch_alloc::is_estimation_mode` at a compact sketch.
abbrev pub estimation_mode : CompactSketch → Bool
estimation_mode c = ltb c.theta max_theta && not c.is_empty

abbrev pub preamble_longs : CompactSketch → ℕ
preamble_longs c =
    if estimation_mode c then 3 else if c.is_empty || length c.entries == 1 then 1 else 2

abbrev pub flags_byte : CompactSketch → ℕ
flags_byte c =
    2 ^ 3 + 2 ^ 1 + (if c.is_empty then 2 ^ 2 else 0) + (if c.is_ordered then 2 ^ 4 else 0)

-- `copy_to_mem` of the array.
unfoldable pub entry_bytes : List ℕ → List ℕ
unfolding bytes_of
entry_bytes [] = []
entry_bytes (x ∷ xs) = bytes_of 8 x ++ entry_bytes xs

-- The bytes that `serialize2` leaves in the memory that it was given. It passes over the bytes 3 and 4
-- and 12 to 15, which keep what they held.
unfoldable pub written : CompactSketch → (memory : List ℕ) → List ℕ
unfolding bytes_of entry_bytes
written c memory =
    preamble_longs c
    ∷ 3
    ∷ 3
    ∷ get_or memory 3 0
    ∷ get_or memory 4 0
    ∷ flags_byte c
    ∷ (bytes_of 2 c.seed_hash
        ++ ((if ltb 1 (preamble_longs c)
              then bytes_of 4 (length c.entries)
                ++ (get_or memory 12 0
                    ∷ get_or memory 13 0
                    ∷ get_or memory 14 0
                    ∷ get_or memory 15 0
                    ∷ [])
              else [])
            ++ ((if estimation_mode c then bytes_of 8 c.theta else []) ++ entry_bytes c.entries)))

-- `malloc` gives memory with some content, or fails; `none` is the result `false`.
unfoldable pub serialize2 : (malloc : ℕ → Option (List ℕ)) → CompactSketch → Option (List ℕ)
unfolding written
serialize2 malloc c = elim (malloc ((8 * preamble_longs c + 8 * length c.entries) % 2 ^ 32)) [
  | none ↦ none
  | some memory ↦ some (written c memory)
]

-- The first `num` numbers of 64 bits.
unfoldable pub read_entries : (num : ℕ) → List ℕ → Outcome (List ℕ)
unfolding number_at
read_entries zero bytes = ok []
read_entries (suc num) bytes = do
  x ← number_at 8 bytes 0
  xs ← read_entries num (drop 8 bytes)
  ok (x ∷ xs)

-- The loop over blocks of 8 deltas, and the memory behind them.
unfoldable pub unpack_blocks : (rounds bits : ℕ) → List ℕ → Outcome (List ℕ × List ℕ)
unfolding unpack_bits_block8
unpack_blocks zero bits bytes = ok ([], bytes)
unpack_blocks (suc rounds) bits bytes = do
  block ← unpack_bits_block8 bytes bits
  rest ← unpack_blocks rounds bits (drop bits bytes)
  ok (block ++ rest.0, rest.1)

-- The loop over the deltas behind them.
unfoldable pub unpack_extra : (rounds bits : ℕ) → List ℕ → (offset : ℕ) → Outcome (List ℕ)
unfolding unpack_bits
unpack_extra zero bits bytes offset = ok []
unpack_extra (suc rounds) bits bytes offset = do
  u ← unpack_bits bits bytes offset
  rest ← unpack_extra rounds bits u.ahead u.bits
  ok (u.value ∷ rest)

unfoldable pub undo_deltas : (previous : ℕ) → List ℕ → List ℕ
undo_deltas previous [] = []
undo_deltas previous (delta ∷ deltas) =
    let entry = (delta + previous) % 2 ^ 64 in entry ∷ undo_deltas entry deltas

-- The iterator of the wrapped sketch past its first block. `index` is a multiple of 8.
unfoldable pub iterate_blocks : (rounds index num_entries bits : ℕ) → List ℕ → Outcome (List ℕ)
unfolding unpack_bits_block8 unpack_extra
iterate_blocks zero index num_entries bits bytes = unpack_extra (num_entries - index) bits bytes 0
iterate_blocks (suc rounds) index num_entries bits bytes = elim (ltb (index + 8) num_entries) [
  | true ↦ do
    block ← unpack_bits_block8 bytes bits
    rest ← iterate_blocks rounds (index + 8) num_entries bits (drop bits bytes)
    ok (block ++ rest)
  | false ↦ unpack_extra (num_entries - index) bits bytes 0
]

-- All that the iterator goes through.
unfoldable pub wrapped_entries : SketchData → Outcome (List ℕ)
unfolding read_entries unpack_bits_block8 iterate_blocks unpack_extra undo_deltas
wrapped_entries d = if d.entry_bits == 64 then read_entries d.num_entries d.entries_start else do
  deltas ←
      (if leb 8 d.num_entries
        then (do
          block ← unpack_bits_block8 d.entries_start d.entry_bits
          rest ←
              iterate_blocks (d.num_entries / 8) 8 d.num_entries d.entry_bits
                (drop d.entry_bits d.entries_start)
          ok (block ++ rest))
        else unpack_extra d.num_entries d.entry_bits d.entries_start 0)
  ok (undo_deltas 0 deltas)

-- The entries that `deserialize` copies.
unfoldable pub data_entries : SketchData → Outcome (List ℕ)
unfolding read_entries unpack_blocks unpack_extra undo_deltas
data_entries d = if d.entry_bits == 64 then read_entries d.num_entries d.entries_start else do
  blocks ← unpack_blocks (d.num_entries / 8) d.entry_bits d.entries_start
  extra ← unpack_extra (d.num_entries % 8) d.entry_bits blocks.1 0
  ok (undo_deltas 0 (blocks.0 ++ extra))

-- `expected_seed_hash` is `compute_seed_hash` of the seed.
unfoldable pub deserialize : (expected_seed_hash : ℕ) → List ℕ → Outcome CompactSketch
unfolding parse data_entries make_compact
deserialize expected_seed_hash bytes = do
  d ← parse expected_seed_hash bytes
  entries ← data_entries d
  ok (make_compact d.is_empty d.is_ordered d.seed_hash d.theta entries)

-- A wrapped sketch as the set operations see it. Its entries are read at once here, so a read outside
-- of the memory shows even where an early stop would not come to it.
unfoldable pub wrap : (expected_seed_hash : ℕ) → List ℕ → Outcome Sketch
unfolding parse wrapped_entries
wrap expected_seed_hash bytes = do
  d ← parse expected_seed_hash bytes
  entries ← wrapped_entries d
  ok (record {
    is_empty = d.is_empty;
    is_ordered = d.is_ordered;
    seed_hash = d.seed_hash;
    theta = d.theta;
    num_retained = d.num_entries;
    entries = entries;
  })
