-- ===== src/Table.antt =====
-- The hash table of theta-sketch/theta_update_sketch_base.hpp and its _impl.hpp: open addressing
-- with double hashing over an array of 64-bit keys, in which 0 marks an empty slot. The entry type
-- is `uint64_t` and the key extractor the identity, as the extension instantiates them. Exponents
-- of sizes stay below 28 (`MAX_LG_K` is 26), so a shift `1 << lg` is `2 ^ lg` with no wrap.
pub mod Probe
pub mod Orbit
pub mod Place
pub mod Consolidate
pub mod Resize
pub mod Rebuild
pub mod Shape
pub mod Insert
pub mod Start
pub mod Add
pub mod Trim
pub mod Fill
use singlestoredb_extension.Base.{
  ℕ, zero, suc, ◌+◌, ◌-◌, ◌*◌, ◌/◌, ◌%◌, ◌^◌, min, Bool, true, false, Option, none, some, List, [],
  ◌∷◌, ◌++◌, Outcome, ok, stop, undefined, logic_err, out_of_fuel, ◌>>=◌, ltb, leb, ◌==◌,
  if◌then◌else◌, not, get_elem?, get_or, set, take, drop, replicate,
}
use singlestoredb_extension.Base.Sorting.{sort}

-- `p_theta` stands for the float `p_`, which is read only through `starting_theta_from_p`.
-- A table with `lg_cur_size_` 0 has no array: `entries` is then empty.
pub record Table : Type 0 where
  pub is_empty : Bool
  pub lg_cur_size : ℕ
  pub lg_nom_size : ℕ
  pub rf : ℕ
  pub p_theta : ℕ
  pub num_entries : ℕ
  pub theta : ℕ
  pub seed : ℕ
  pub entries : List ℕ

abbrev pub max_theta : ℕ
max_theta = 2 ^ 63 - 1

abbrev pub min_lg_k : ℕ
min_lg_k = 5

abbrev pub max_lg_k : ℕ
max_lg_k = 26

unfoldable pub make_table : (lg_cur_size lg_nom_size rf p_theta theta seed : ℕ) → Bool → Table
make_table lg_cur_size lg_nom_size rf p_theta theta seed is_empty = record {
  is_empty = is_empty;
  lg_cur_size = lg_cur_size;
  lg_nom_size = lg_nom_size;
  rf = rf;
  p_theta = p_theta;
  num_entries = 0;
  theta = theta;
  seed = seed;
  entries = if ltb 0 lg_cur_size then replicate (2 ^ lg_cur_size) 0 else [];
}

-- `RESIZE_THRESHOLD` is 1/2 and `REBUILD_THRESHOLD` 15/16; the products are exact in a double.
pub get_capacity : ℕ → ℕ → ℕ
get_capacity lg_cur_size lg_nom_size =
    if leb lg_cur_size lg_nom_size then 2 ^ lg_cur_size / 2 else 15 * 2 ^ lg_cur_size / 16

-- `STRIDE_MASK` is 127.
pub get_stride : ℕ → ℕ → ℕ
get_stride key lg_size = 2 * (key / 2 ^ lg_size % 128) + 1

-- `(index + stride) & mask`.
abbrev pub next_index : (size stride index : ℕ) → ℕ
next_index size stride index = (index + stride) % 2 ^ 32 % size

-- The `do … while` of `find`, on as many rounds as fuel allows.
pub find_loop : (entries : List ℕ) (size stride key loop_index fuel index : ℕ) → Outcome (ℕ × Bool)
find_loop entries size stride key loop_index zero index = stop out_of_fuel
find_loop entries size stride key loop_index (suc fuel) index =
    let next = next_index size stride index in
    let rest = find_loop entries size stride key loop_index fuel next in
    elim (get_elem? entries index) [
      | none ↦ stop undefined
      | some probe ↦
          if probe == 0
          then ok (index, false)
          else if probe == key
          then ok (index, true)
          else if next == loop_index
          then stop logic_err
          else rest
    ]

-- The slot that holds the key, or the empty slot where it belongs. `size` rounds are given.
pub find : List ℕ → ℕ → ℕ → Outcome (ℕ × Bool)
find entries lg_size key =
    let size = 2 ^ lg_size in
    let index = key % 2 ^ 32 % size in
    find_loop entries size (get_stride key lg_size) key index size index

-- `new (find(entries, lg, key).first) EN(key)`.
pub place : ℕ → ℕ → List ℕ → Outcome (List ℕ)
place lg_size key entries = do slot ← find entries lg_size key; ok (set entries slot.0 key)

-- The loop of `resize` over the old array, of `old_size` rounds. A read past the array is undefined.
pub move_entries : (lg_size old_size : ℕ) → List ℕ → List ℕ → Outcome (List ℕ)
move_entries lg_size zero old fresh = ok fresh
move_entries lg_size (suc rounds) [] fresh = stop undefined
move_entries lg_size (suc rounds) (key ∷ old) fresh = elim (key == 0) [
  | true ↦ move_entries lg_size rounds old fresh
  | false ↦ place lg_size key fresh >>= move_entries lg_size rounds old
]

pub resize : Table → Outcome Table
resize t = do
  let old_size = 2 ^ t.lg_cur_size
  let lg_new_size = min ((t.lg_cur_size + t.rf) % 256) ((t.lg_nom_size + 1) % 256)
  fresh ← move_entries lg_new_size old_size t.entries (replicate (2 ^ lg_new_size) 0)
  ok (record t { entries = fresh; lg_cur_size = lg_new_size })

-- The first loop of `consolidate_non_empty`.
pub first_empty : List ℕ → ℕ
first_empty [] = 0
first_empty (x ∷ xs) = if x == 0 then 0 else suc (first_empty xs)

-- Its second loop, with the rounds that are left for `j`.
pub move_front : (num rounds j i : ℕ) → List ℕ → List ℕ
move_front num zero j i entries = entries
move_front num (suc rounds) j i entries =
    let moved = set (set entries i (get_or entries j 0)) j 0 in
    elim (get_or entries j 0 == 0) [
      | true ↦ move_front num rounds (j + 1) i entries
      | false ↦ elim (i + 1 == num) [
        | true ↦ moved
        | false ↦ move_front num rounds (j + 1) (i + 1) moved
      ]
    ]

pub consolidate_non_empty : List ℕ → ℕ → ℕ → List ℕ
consolidate_non_empty entries size num =
    let i = first_empty entries in move_front num (size - (i + 1)) (i + 1) i entries

-- `std::nth_element` over the first `num` entries.
pub nth_element : ℕ → List ℕ → List ℕ
nth_element num entries = sort (take num entries) ++ drop num entries

-- The loop of `rebuild` over the entries that are kept.
pub place_all : ℕ → List ℕ → List ℕ → Outcome (List ℕ)
place_all lg_size [] fresh = ok fresh
place_all lg_size (key ∷ old) fresh = place lg_size key fresh >>= place_all lg_size old

pub rebuild : Table → Outcome Table
rebuild t =
    let size = 2 ^ t.lg_cur_size in
    let nominal_size = 2 ^ t.lg_nom_size in
    let old = nth_element t.num_entries (consolidate_non_empty t.entries size t.num_entries) in
    elim (get_elem? old nominal_size) [
      | none ↦ stop undefined
      | some pivot ↦ do
        fresh ← place_all t.lg_cur_size (take nominal_size old) (replicate size 0)
        ok (record t { theta = pivot; entries = fresh; num_entries = nominal_size })
    ]

pub insert : Table → ℕ → ℕ → Outcome Table
insert t slot entry =
    let t' = record t {
      entries = set t.entries slot entry;
      num_entries = (t.num_entries + 1) % 2 ^ 32;
    } in
    if ltb (get_capacity t.lg_cur_size t.lg_nom_size) t'.num_entries
    then if leb t.lg_cur_size t.lg_nom_size then resize t' else rebuild t'
    else ok t'

pub trim : Table → Outcome Table
trim t = if ltb (2 ^ t.lg_nom_size) t.num_entries then rebuild t else ok t

-- `theta_build_helper::starting_sub_multiple` of theta_helpers.hpp.
pub starting_sub_multiple : ℕ → ℕ → ℕ → ℕ
starting_sub_multiple lg_tgt lg_min lg_rf =
    if leb lg_tgt lg_min
    then lg_min
    else if lg_rf == 0
    then lg_tgt
    else (lg_tgt - lg_min) % lg_rf + lg_min

-- The loop of `reset` over the array. A read past the array is undefined.
pub clear_entries : (cur_size : ℕ) → List ℕ → Outcome (List ℕ)
clear_entries zero entries = ok entries
clear_entries (suc rounds) [] = stop undefined
clear_entries (suc rounds) (key ∷ entries) = do
  cleared ← clear_entries rounds entries
  ok (0 ∷ cleared)

pub reset : Table → Outcome Table
reset t = do
  let starting_lg_size = starting_sub_multiple (t.lg_nom_size + 1) min_lg_k t.rf
  cleared ← clear_entries (2 ^ t.lg_cur_size) t.entries
  ok (record t {
    lg_cur_size = starting_lg_size;
    entries =
        if not (starting_lg_size == t.lg_cur_size)
        then replicate (2 ^ starting_lg_size) 0
        else cleared;
    num_entries = 0;
    theta = t.p_theta;
    is_empty = true;
  })

-- `hash_and_screen` and `screen`, after the hash is computed: 0 says that it is not kept.
unfoldable pub screen : Table → ℕ → Table × ℕ
screen t hash = (record t { is_empty = false }, if leb t.theta hash then 0 else hash)

-- Opens the whole module, for runs on concrete tables.
unfoldable pub table_code : Unit {0}
unfolding make_table get_capacity get_stride find_loop find place move_entries resize first_empty
    move_front consolidate_non_empty nth_element place_all rebuild insert trim starting_sub_multiple
    clear_entries reset screen sort replicate
table_code = tt
