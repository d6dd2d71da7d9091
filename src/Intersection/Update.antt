-- ===== src/Intersection/Update.antt =====
-- An update intersects the set that the intersection samples with that of the sketch.
use singlestoredb_extension.Base.{
  ℕ, ◌≤◌, ◌<◌, ◌≡◌, ◌≢◌, refl, sym, ◌∙◌, true, false, Outcome, ok, Returns, arith, ◌==◌,
  if◌then◌else◌, ◌||◌, ◌&&◌, not, Bool-cases, eq-cases, inl, inr, min, length, ne→==, ==_iff,
}
use singlestoredb_extension.Base.Counts.{occupied, count_of_empty}
use singlestoredb_extension.LgSize.{most_entries}
use singlestoredb_extension.Table.{Table, max_theta, make_table}
use singlestoredb_extension.Sketch.{Sketch}
use singlestoredb_extension.Sketch.Sample.{HashSet, IsVoid, IsSketchOf}
use singlestoredb_extension.Intersection.{
  Intersection, new_table, first_update, next_update, update,
}
use singlestoredb_extension.Intersection.Load.{both_sets, no_table-Holds}
use singlestoredb_extension.Intersection.Steps.{
  IsValidOf, IsIntersectionOf, valid, retains-full, first_update-Holds, next_update-Holds,
  count-no_length,
}

-- The table with the flag and the theta that `update` sets at its start.
abbrev lowered : Table → Sketch → Table
lowered t s =
    let is_empty = t.is_empty || s.is_empty in
    record t { is_empty = is_empty; theta = if is_empty then max_theta else min t.theta s.theta }

-- `update` past its first two lines.
abbrev past_checks : Intersection → Sketch → Outcome Intersection
past_checks i s =
    let t = lowered i.table s in
    if i.is_valid && i.table.num_entries == 0
    then ok (record i { table = t })
    else if s.num_retained == 0
    then ok (record { is_valid = true; table = new_table 0 0 t.theta i.table.seed t.is_empty })
    else if not i.is_valid
    then first_update t s
    else next_update t s

update_past :
    (seed_hash_of : ℕ → ℕ) (i : Intersection) (s : Sketch)
    → i.table.is_empty ≡ false
    → (not s.is_empty && not (s.seed_hash == seed_hash_of i.table.seed)) ≡ false
    → update seed_hash_of i s ≡ past_checks i s
unfolding update
update_past seed_hash_of i s open_table accepted = rw (open_table, accepted)

module _ {seed : ℕ} {X Y : HashSet} {i : Intersection} {s : Sketch} (of : IsIntersectionOf seed X i)
    (is : IsSketchOf Y s) where
  is_valid-empty : i.table.is_empty ≡ true → i.is_valid ≡ true
  is_valid-empty e = elim (Bool-cases i.is_valid) [
    | inl v ↦ v
    | inr v ↦ absurd (cc (sym e ∙ (of.fresh v).0))
  ]

  -- Nothing more happens to an empty intersection.
  already-empty : i.table.is_empty ≡ true → IsIntersectionOf seed (both_sets X Y) i
  already-empty e =
      let held = of.holds (is_valid-empty e) in
      record {
        seed_same = of.seed_same;
        bounded = of.bounded;
        void = λ f k nz lt. ground (arith, of.void f k nz lt);
        fresh = λ v. absurd (cc (sym v ∙ is_valid-empty e));
        holds = λ v. record {
          samples = λ k nz. ground (arith, held.samples k nz, of.void e k nz, of.bounded);
          number = held.number;
          room = held.room;
        };
      }

  module _ (open_table : i.table.is_empty ≡ false) where
    lowered-IsVoid : (lowered i.table s).is_empty ≡ true → IsVoid (both_sets X Y)
    lowered-IsVoid f k nz lt = elim (Bool-cases s.is_empty) [
      | inl e ↦ ground (arith, is.void e k nz lt)
      | inr e ↦ absurd (ground (arith, open_table, e, f))
    ]

    bounded-lowered : (lowered i.table s).theta ≤ max_theta
    bounded-lowered = ground (arith, of.bounded)

    -- Where one of the sides has nothing below the new theta, there is nothing left.
    none-lowered :
        ((k : ℕ) → k ≢ 0 → k < i.table.theta → k < s.theta → both_sets X Y k ≡ false)
        → (k : ℕ) → k ≢ 0
        → k < (lowered i.table s).theta
        → both_sets X Y k ≡ false
    none-lowered none_in k nz lt = elim (Bool-cases (lowered i.table s).is_empty) [
      | inl f ↦ lowered-IsVoid f k nz (omega (arith, bounded-lowered))
      | inr f ↦ none_in k nz (ground arith) (ground arith)
    ]

    -- The intersection holds nothing already.
    nothing-held :
        i.is_valid ≡ true
        → i.table.num_entries ≡ 0
        → IsIntersectionOf seed (both_sets X Y) (record i { table = lowered i.table s })
    nothing-held v zero =
        let held = of.holds v in
        let unused : occupied i.table.entries ≡ 0 = held.number ∙ zero in
        let none_in = λ (k : ℕ) (nz : k ≢ 0).
          none-lowered
            (λ j j_nz lt₁ lt₂.
              ground (arith, held.samples j j_nz, count_of_empty j i.table.entries j_nz unused))
            k nz in
        rw v (
          valid (lowered i.table s) of.seed_same bounded-lowered lowered-IsVoid (record {
            samples =
                λ k nz. ground (arith, count_of_empty k i.table.entries nz unused, none_in k nz);
            number = held.number;
            room = λ h. absurd (h zero);
          }))

    -- The sketch holds nothing.
    nothing-new :
        s.num_retained ≡ 0
        → IsIntersectionOf seed (both_sets X Y) (record {
          is_valid = true;
          table = new_table 0 0 (lowered i.table s).theta i.table.seed (lowered i.table s).is_empty;
        })
    unfolding make_table
    nothing-new zero =
        let unused : length s.entries ≡ 0 = sym is.number ∙ zero in
        valid (new_table 0 0 (lowered i.table s).theta i.table.seed (lowered i.table s).is_empty)
          of.seed_same bounded-lowered lowered-IsVoid
          (no_table-Holds _ _ _ _ (
            none-lowered
              λ k nz lt₁ lt₂. ground (arith, is.samples k nz, count-no_length k s.entries unused)))

    module _ (few : s.num_retained ≤ most_entries) where
      first :
          i.is_valid ≡ false
          → s.num_retained ≢ 0
          → Returns (first_update (lowered i.table s) s) (IsValidOf seed (both_sets X Y))
      first v some_in =
          let e = retains-full is some_in in
          let (open_flag, whole, all) = of.fresh v in
          first_update-Holds is (lowered i.table s) of.seed_same (rw (open_table, e))
            (ground (arith, e, open_table, whole, is.bounded)) all some_in few

      next :
          i.is_valid ≡ true
          → i.table.num_entries ≢ 0
          → s.num_retained ≢ 0
          → Returns (next_update (lowered i.table s) s) (IsValidOf seed (both_sets X Y))
      next v held_some some_in =
          let e = retains-full is some_in in
          let held = of.holds v in
          let room = held.room held_some in
          let both_open : (i.table.is_empty || s.is_empty) ≡ false = rw (open_table, e) in
          next_update-Holds X is (lowered i.table s) both_open (ground (arith, both_open))
            (λ k nz lt. ground (arith, both_open, held.samples k nz)) of.seed_same bounded-lowered
            few
            (record {
              placed = room.placed;
              filled = room.filled;
              room = room.room;
              spare = room.spare;
            })

      -- The four ways on from there.
      past : Returns (past_checks i s) (IsValidOf seed (both_sets X Y))
      past = elim (Bool-cases i.is_valid) [
        | inr v ↦ elim (eq-cases s.num_retained 0) [
          | inl zero ↦
              let e : (s.num_retained == 0) ≡ true = (==_iff _ _).1 zero in
              (_, rw (v, e), (nothing-new zero, refl))
          | inr some_in ↦
              let e : (s.num_retained == 0) ≡ false = ne→== _ _ some_in in
              let (i', run, r) = first v some_in in (i', rw (v, e) run, r)
        ]
        | inl v ↦ elim (eq-cases i.table.num_entries 0) [
          | inl none_held ↦
              let held : (i.table.num_entries == 0) ≡ true = (==_iff _ _).1 none_held in
              (record i { table = lowered i.table s }, rw (v, held), (nothing-held v none_held, v))
          | inr held_some ↦
              let held : (i.table.num_entries == 0) ≡ false = ne→== _ _ held_some in
              elim (eq-cases s.num_retained 0) [
                | inl zero ↦
                    let e : (s.num_retained == 0) ≡ true = (==_iff _ _).1 zero in
                    (_, rw (v, held, e), (nothing-new zero, refl))
                | inr some_in ↦
                    let e : (s.num_retained == 0) ≡ false = ne→== _ _ some_in in
                    let (i', run, r) = next v held_some some_in in (i', rw (v, held, e) run, r)
              ]
        ]
      ]

  module _ (seed_hash_of : ℕ → ℕ) where
    -- An intersection that samples `X` (all hashes before the first update), updated with a sample
    -- of `Y` that retains at most 125829120 entries and whose seed hash is that of the intersection
    -- if it is not empty, returns, is valid, and samples the members of both `X` and `Y`: empty
    -- arguments, the first update and later ones, with the early stop at an ordered sketch. None of
    -- the checks for corrupted input is met.
    pub update-IsIntersectionOf :
        s.num_retained ≤ most_entries
        → (s.is_empty ≡ false → s.seed_hash ≡ seed_hash_of i.table.seed)
        → Returns (update seed_hash_of i s) (IsValidOf seed (both_sets X Y))
    unfolding update
    update-IsIntersectionOf few same_seed = elim (Bool-cases i.table.is_empty) [
      | inl e ↦ (i, rw e, (already-empty e, is_valid-empty e))
      | inr open_table ↦
          let accepted : (not s.is_empty && not (s.seed_hash == seed_hash_of i.table.seed))
              ≡ false =
            elim (Bool-cases s.is_empty) [
              | inl e ↦ rw e
              | inr e ↦
                  let equal : (s.seed_hash == seed_hash_of i.table.seed) ≡ true =
                    (==_iff _ _).1 (same_seed e) in
                  rw (e, equal)
            ] in
          rw (update_past seed_hash_of i s open_table accepted) (past open_table few)
    ]
