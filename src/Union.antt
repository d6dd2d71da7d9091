-- ===== src/Union.antt =====
-- The union: `theta_union_base` of theta-sketch/theta_union_base.hpp and its _impl.hpp, which
-- `theta_union_alloc` of theta-sketch/theta_union.hpp passes its calls to. The policy does nothing.
pub mod Merge
pub mod Update
pub mod Result
pub mod Start
pub mod Streams
pub mod Full
use singlestoredb_extension.Base.{
  ℕ, ◌^◌, Bool, true, false, List, [], ◌∷◌, Outcome, ok, stop, invalid_arg, undefined, ◌>>=◌, ltb,
  leb, ◌==◌, if◌then◌else◌, ◌&&◌, not, length, take, get_elem?, none, some, min,
}
use singlestoredb_extension.Base.Sorting.{sort}
use singlestoredb_extension.Table.{Table, find, insert, nth_element, reset as reset_table}
use singlestoredb_extension.UpdateSketch
use singlestoredb_extension.UpdateSketch.{Builder}
use singlestoredb_extension.Sketch.{Sketch, CompactSketch, keys, make_compact}

pub record Union : Type 0 where
  pub table : Table
  pub union_theta : ℕ

-- `theta_union::builder::build`, by the constructor of the base.
pub build : Builder → Union
build b = let t = UpdateSketch.build b in record { table = t; union_theta = t.theta }

-- The loop of `update` over the entries of the sketch.
pub merge_entries : (is_ordered : Bool) (union_theta : ℕ) → List ℕ → Table → Outcome Table
merge_entries is_ordered union_theta [] t = ok t
merge_entries is_ordered union_theta (hash ∷ hashes) t =
    elim (ltb hash union_theta && ltb hash t.theta) [
      | true ↦ do
        slot ← find t.entries t.lg_cur_size hash
        t' ← (if slot.1 then ok t else insert t slot.0 hash)
        merge_entries is_ordered union_theta hashes t'
      | false ↦ elim is_ordered [
        | true ↦ ok t
        | false ↦ merge_entries is_ordered union_theta hashes t
      ]
    ]

-- The keys below theta: `key_not_zero_less_than`.
pub keys_below : ℕ → List ℕ → List ℕ
keys_below theta [] = []
keys_below theta (x ∷ xs) =
    if x == 0
    then keys_below theta xs
    else if ltb x theta
    then x ∷ keys_below theta xs
    else keys_below theta xs

-- `compute_seed_hash` of common/MurmurHash3.h, which is third-party code, is a parameter.
module _ (seed_hash_of : ℕ → ℕ) where
  pub update : Union → Sketch → Outcome Union
  update u s =
      if s.is_empty
      then ok u
      else if not (s.seed_hash == seed_hash_of u.table.seed)
      then stop invalid_arg
      else do
        let union_theta = min u.union_theta s.theta
        t ← merge_entries s.is_ordered union_theta s.entries (record u.table { is_empty = false })
        ok (record { table = t; union_theta = min union_theta t.theta })

  pub get_result : Union → Bool → Outcome CompactSketch
  get_result u ordered =
      let t = u.table in
      let seed_hash = seed_hash_of t.seed in
      let nominal_num = 2 ^ t.lg_nom_size in
      let theta = min u.union_theta t.theta in
      let entries =
        (if leb t.theta u.union_theta then keys t.entries else keys_below theta t.entries) in
      let finish = λ (theta' : ℕ) (kept : List ℕ).
        make_compact t.is_empty ordered seed_hash theta' (if ordered then sort kept else kept) in
      if t.is_empty
      then ok (make_compact true true seed_hash u.union_theta [])
      else if ltb nominal_num (length entries)
      then (let arranged = nth_element (length entries) entries in
          elim (get_elem? arranged nominal_num) [
            | none ↦ stop undefined
            | some pivot ↦ ok (finish pivot (take nominal_num arranged))
          ])
      else ok (finish theta entries)

pub reset : Union → Outcome Union
reset u = do t ← reset_table u.table; ok (record { table = t; union_theta = t.theta })
