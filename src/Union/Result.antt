-- ===== src/Union/Result.antt =====
-- The result of a union is a compact sample of its set, of at most the nominal number of entries.
use singlestoredb_extension.Base.{
  ℕ, ◌≤◌, ◌<◌, ◌^◌, ◌≡◌, ◌≢◌, ◌⊎◌, refl, sym, ◌∙◌, Bool, true, false, List, [], ◌∷◌, ok, Returns,
  arith, ltb, leb, if◌then◌else◌, Bool-cases, lt-cases, inl, inr, min, length, take, some,
  get_elem?, take-length, lt→ltb, le→ltb,
}
use singlestoredb_extension.Base.Counts.{count, occupied-count_zero}
use singlestoredb_extension.Base.Sorting.{IsSorted, sort, count-sort, length-sort, sort-IsSorted}
use singlestoredb_extension.Table.{nth_element}
use singlestoredb_extension.Table.Consolidate.{Fronted}
use singlestoredb_extension.Table.Rebuild.{Selected, nth_element-Selected}
use singlestoredb_extension.UpdateSketch.{Builder}
use singlestoredb_extension.Sketch.{CompactSketch, keys, make_compact}
use singlestoredb_extension.Sketch.Keys.{count-keys, count-keys_zero}
use singlestoredb_extension.Sketch.Sample.{HashSet, Samples, IsCompactOf}
use singlestoredb_extension.Sketch.Compact.{make_compact-IsCompactOf}
use singlestoredb_extension.Union.{Union, keys_below, get_result}
use singlestoredb_extension.Union.Update.{IsUnionOf}

count-keys_below :
    (k theta : ℕ) (xs : List ℕ)
    → k ≢ 0
    → count k (keys_below theta xs) ≡ (if ltb k theta then count k xs else 0)
unfolding keys_below
count-keys_below k theta [] nz = ground arith
count-keys_below k theta (x ∷ xs) nz = ground (arith, count-keys_below k theta xs nz)

count-keys_below_zero : (theta : ℕ) (xs : List ℕ) → count 0 (keys_below theta xs) ≡ 0
unfolding keys_below
count-keys_below_zero theta [] = refl
count-keys_below_zero theta (x ∷ xs) = ground (arith, count-keys_below_zero theta xs)

-- The entries that `get_result` copies from the table.
abbrev copied : Union → List ℕ
copied u =
    if leb u.table.theta u.union_theta
    then keys u.table.entries
    else keys_below (min u.union_theta u.table.theta) u.table.entries

-- Entries without 0, each of them once, below theta and in the set.
record Chosen (X : HashSet) (theta : ℕ) (entries : List ℕ) : Type 0 where
  no_zero : count 0 entries ≡ 0
  samples : Samples X theta entries

module _ {b : Builder} {X : HashSet} {u : Union} (of : IsUnionOf b X u) where
  lowest : min u.union_theta u.table.theta ≡ u.union_theta
  lowest = omega (arith, of.lowest)

  copied-Chosen : Chosen X (min u.union_theta u.table.theta) (copied u)
  copied-Chosen = rw lowest (elim (Bool-cases (leb u.table.theta u.union_theta)) [
    | inl e ↦ rw e (record {
      no_zero = count-keys_zero u.table.entries;
      samples = λ k nz. ground (
        arith,
        count-keys k u.table.entries nz,
        of.merges.counts k nz,
        of.merges.table.below k nz,
        of.lowest,
      );
    })
    | inr e ↦ rw e (record {
      no_zero = count-keys_below_zero u.union_theta u.table.entries;
      samples = λ k nz. ground (
        arith,
        count-keys_below k u.union_theta u.table.entries nz,
        of.merges.counts k nz,
        of.lowest,
      );
    })
  ])

-- A list without 0 is its own front.
Fronted-self : (entries : List ℕ) → count 0 entries ≡ 0 → Fronted (length entries) entries entries
Fronted-self entries no_zero =
    let whole = take-length entries in
    record { whole = rw whole; full = rw whole no_zero; counts = λ k nz. rw whole }

-- The smallest entries of a choice are a choice below the next one.
Selected-Chosen :
    {X : HashSet} {theta nominal : ℕ} {entries arranged : List ℕ}
    → Chosen X theta entries
    → (s : Selected nominal entries arranged)
    → Chosen X s.pivot (take nominal arranged) × (s.pivot < theta)
Selected-Chosen chosen s = (
  record {
    no_zero = s.no_gap;
    samples = λ k nz. ground (
      arith,
      s.below k nz,
      chosen.samples k nz,
      chosen.samples s.pivot s.pivot_key.0,
      s.pivot_key.1,
    );
  },
  ground (arith, chosen.samples s.pivot s.pivot_key.0, s.pivot_key.1),
)

-- The entries put in order if that is asked for.
abbrev arrange : Bool → List ℕ → List ℕ
arrange ordered kept = if ordered then sort kept else kept

count-arrange :
    (k : ℕ) (ordered : Bool) (kept : List ℕ) → count k (arrange ordered kept) ≡ count k kept
count-arrange k true kept = count-sort k kept
count-arrange k false kept = refl

length-arrange : (ordered : Bool) (kept : List ℕ) → length (arrange ordered kept) ≡ length kept
length-arrange true kept = length-sort kept
length-arrange false kept = refl

arrange-IsSorted :
    (ordered : Bool) (kept : List ℕ) → ordered ≡ true → IsSorted (arrange ordered kept)
arrange-IsSorted true kept e = sort-IsSorted kept
arrange-IsSorted false kept e = cc

-- What a union promises of its result.
pub record IsResultOf (X : HashSet) (ordered : Bool) (u : Union) (c : CompactSketch) : Type 0 where
  pub compact : IsCompactOf X c
  pub lowers : c.theta ≤ u.union_theta
  pub nominal : length c.entries ≤ 2 ^ u.table.lg_nom_size
  pub size : (c.theta ≡ u.union_theta) ⊎ (length c.entries ≡ 2 ^ u.table.lg_nom_size)
  pub order : ordered ≡ true → c.is_ordered ≡ true
  pub flag : c.is_empty ≡ u.table.is_empty

module _ {b : Builder} {X : HashSet} {u : Union} (of : IsUnionOf b X u) (ordered : Bool)
    (seed_hash : ℕ) where
  finish-IsResultOf :
      (theta : ℕ) (kept : List ℕ)
      → Chosen X theta kept
      → theta ≤ u.union_theta
      → length kept ≤ 2 ^ u.table.lg_nom_size
      → (theta ≡ u.union_theta) ⊎ (length kept ≡ 2 ^ u.table.lg_nom_size)
      → IsResultOf X ordered u
          (make_compact u.table.is_empty ordered seed_hash theta (arrange ordered kept))
  finish-IsResultOf theta kept chosen le few size = record {
    compact =
        make_compact-IsCompactOf _ _ _ _ _ (count-arrange 0 ordered kept ∙ chosen.no_zero)
          (λ k nz. count-arrange k ordered kept ∙ chosen.samples k nz)
          (arrange-IsSorted ordered kept) of.void (omega (arith, of.bounded));
    lowers = unfold make_compact in le;
    nominal = unfold make_compact in omega (arith, length-arrange ordered kept);
    size =
        unfold make_compact in
        elim size [ inl e ↦ inl e | inr e ↦ inr (length-arrange ordered kept ∙ e) ];
    order = λ e. unfold make_compact in rw e;
    flag = unfold make_compact in refl;
  }

  empty-IsResultOf :
      u.table.is_empty ≡ true
      → IsResultOf X ordered u (make_compact true true seed_hash u.union_theta [])
  empty-IsResultOf e = record {
    compact =
        make_compact-IsCompactOf true true seed_hash u.union_theta [] refl
          (λ k nz. ground (arith, of.void e k nz, of.bounded)) (λ _. tt) (λ _. of.void e)
          of.bounded;
    lowers = unfold make_compact in omega arith;
    nominal = unfold make_compact in omega arith;
    size = unfold make_compact in inl refl;
    order = λ _. unfold make_compact in refl;
    flag = unfold make_compact in sym e;
  }

-- The branch of `get_result` that selects the smallest entries.
get_result_many :
    (seed_hash_of : ℕ → ℕ) (u : Union) (ordered : Bool) (pivot : ℕ)
    → u.table.is_empty ≡ false
    → 2 ^ u.table.lg_nom_size < length (copied u)
    → get_elem? (nth_element (length (copied u)) (copied u)) (2 ^ u.table.lg_nom_size) ≡ some pivot
    → get_result seed_hash_of u ordered
      ≡ ok (
          make_compact u.table.is_empty ordered (seed_hash_of u.table.seed) pivot (
            arrange ordered
              (take (2 ^ u.table.lg_nom_size) (nth_element (length (copied u)) (copied u)))))
unfolding get_result
get_result_many seed_hash_of u ordered pivot e many at_place = rw (e, lt→ltb _ _ many, at_place, e)

-- `get_result` of a union that samples `X` returns a compact sample of `X`, in order if that is
-- asked for, with at most the nominal number of entries, a theta not above that of the union, and
-- equal to it unless there are exactly the nominal number of entries, and the union's flag of
-- emptiness.
pub get_result-IsResultOf :
    (seed_hash_of : ℕ → ℕ) {b : Builder} {X : HashSet} {u : Union}
    → IsUnionOf b X u
    → (ordered : Bool) → Returns (get_result seed_hash_of u ordered) (IsResultOf X ordered u)
unfolding get_result
get_result-IsResultOf seed_hash_of {u = u} of ordered =
    let nominal = 2 ^ u.table.lg_nom_size in
    let seed_hash = seed_hash_of u.table.seed in
    let chosen = copied-Chosen of in
    elim (Bool-cases u.table.is_empty) [
      | inl e ↦ (_, rw e, empty-IsResultOf of ordered seed_hash e)
      | inr e ↦ elim (lt-cases nominal (length (copied u))) [
        | inr few ↦ (
          _,
          rw (e, le→ltb _ _ few),
          finish-IsResultOf of ordered seed_hash _ (copied u) chosen (omega arith) few
              (inl (lowest of)),
        )
        | inl many ↦
            let s =
              nth_element-Selected (copied u) (copied u) (length (copied u)) nominal
                (Fronted-self (copied u) chosen.no_zero)
                (λ k nz. ground (arith, chosen.samples k nz)) many in
            let exact : length (take nominal (nth_element (length (copied u)) (copied u)))
                ≡ nominal =
              omega (arith, occupied-count_zero (take nominal _), s.number, s.no_gap) in
            let (kept, lower) = Selected-Chosen chosen s in
            (
              _,
              get_result_many seed_hash_of u ordered s.pivot e many s.at_place,
              finish-IsResultOf of ordered seed_hash s.pivot _ kept (omega arith)
                  (omega (arith, exact)) (inr exact),
            )
      ]
    ]
