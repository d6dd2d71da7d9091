-- ===== src/Lib.antt =====
-- Verification of the theta sketch extension for SingleStoreDB: a set of stored functions, compiled to
-- WebAssembly, that build theta sketches of columns, combine them with set operations and estimate
-- the number of distinct values.
--
-- A sketch samples a set of 63-bit hashes: it keeps those below a threshold theta. An update sketch
-- keeps them in a hash table with open addressing; when the table is full, it keeps the `k` smallest and
-- lowers theta. Compact sketches are the same as sorted or unsorted arrays, and the set operations take
-- sketches of either kind.
--
-- The files and the code that they model:
--   Base            names shared by all; `Stop` and `Outcome` are common/exception.hpp, whose macros
--                   print a message and exit
--   Table           theta-sketch/theta_update_sketch_base.hpp and its _impl.hpp, theta_helpers.hpp:
--                   `find`, `insert`, `resize`, `rebuild`, `trim`, `reset` carry their names.
--                   Probe, Orbit, Place are about `find`; Consolidate, Resize, Rebuild, Insert, Add,
--                   Trim and Start about the operations; Shape about sizes
--   UpdateSketch    `update_theta_sketch_alloc` of theta-sketch/theta_sketch_impl.hpp, and the
--                   builder; Retains says what a sketch keeps of a stream
--   Sketch          what a set operation sees of a sketch (`Sketch`), and the compact sketch of
--                   theta-sketch/theta_sketch_impl.hpp; Sample says what it is to sample a set
--   Union           theta-sketch/theta_union_base.hpp and its _impl.hpp, which theta_union.hpp
--                   passes its calls to. Merge is about the loop of `update`, Result about `get_result`,
--                   Start about new unions, Full about the size of the sample
--   Intersection    theta-sketch/theta_intersection_base.hpp and its _impl.hpp, which
--                   theta_intersection.hpp passes its calls to. Fill and Match are about its loops,
--                   Load and Steps about its tables and branches
--   SetDifference   theta-sketch/theta_set_difference_base_impl.hpp, which theta_a_not_b.hpp passes its
--                   call to. Merge is about ordered sketches, Hash and Missing about the hash table,
--                   Compute about the whole
--   LgSize          `log2` and `lg_size_from_count` of common/common_defs.hpp
--   Bytes           numbers in memory
--   Packing         theta-sketch/bit_packing.hpp: each unrolled routine is a table of its statements,
--                   which Code runs, and Single has `pack_bits` and `unpack_bits`. Symbols and Symbolic
--                   run the tables on digits of unknown values, for the round trip
--   Parser          theta-sketch/compact_theta_sketch_parser.hpp and its _impl.hpp
--   Serial          `serialize2`, `deserialize` and the wrapped sketch of
--                   theta-sketch/theta_sketch_impl.hpp; Layout is about the layouts of version 3, Seeds
--                   about another seed, Sketches about which sketches can be serialized
--   Handle          extension_impl_handle.cpp: the heap of states and its helpers, the functions over
--                   handles (Aggregate) and those over serialized sketches (Scalar). Memory is about new
--                   objects; Unions, Intersections, Differences, Build and Hashed about the functions,
--                   Pipeline about two aggregates and a union
--   Tests           concrete tables, sketches and unions, and the theorems at them
--
-- State is passed explicitly: an operation takes a table, a sketch or a union and returns an `Outcome`
-- of the new one. Sets of hashes are functions into `Bool`, and what is in an array is said by counting
-- occurrences, so no statement depends on the order in a hash table.
--
-- Bounds: keys and counters are natural numbers, with the wrap-around of 32-bit counters and 8-bit
-- exponents written out; `MAX_LG_K` is 26, so an array has at most 2 ^ 27 slots, and shifts do not
-- wrap. The loop of `find` runs on as many rounds as the array has slots, and it is proved that these
-- are enough, full array or not. `log2` runs on 32 rounds, enough for a 32-bit count. The
-- intersection and the difference are proved for sketches of at most 125829120 entries, which is 15/16 of 2 ^ 27, the most that a
-- hash table holds. `std::sort` and `std::nth_element` are modelled by sorting.
--
-- The parser computes sizes with the 32 bits that `size_t` has on WebAssembly, with the wrap-around
-- written out. A read outside of memory, through a null pointer or of a deleted object, and a cast to
-- another class, is a stop as `undefined`. The aggregate of intersections makes such a cast, of a new
-- intersection to `theta_data`, so its functions are modelled and there is no theorem about them.
-- `malloc` is a parameter, which gives memory with some content
-- or fails; objects made by `new` are at fresh addresses and `new` does not fail. The lists that the
-- database passes in are freed by the functions; they are values here and no part of the heap. The
-- iterator of a wrapped sketch is a list that is read at once.
--
-- Not modelled: MurmurHash3 and `compute_seed_hash` (common/MurmurHash3.h, third-party code), which are
-- parameters; floating point, that is, estimates, confidence bounds and `starting_theta_from_p`, whose
-- value is a field; memory management of tables, which are values; the compressed writer and the stream
-- variants of serialization, which the extension does not call; `to_string`, which formats text; the
-- generated bindings.
pub mod Base
pub mod LgSize
pub mod Table
pub mod UpdateSketch
pub mod Sketch
pub mod Union
pub mod Handle
pub mod Intersection
pub mod SetDifference
pub mod Bytes
pub mod Packing
pub mod Parser
pub mod Serial
mod Tests
