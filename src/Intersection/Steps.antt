-- ===== src/Intersection/Steps.antt =====
-- The first and the later updates of an intersection, past the early returns of `update`.
use singlestoredb_extension.Base.{
  ℕ, ◌≤◌, ◌<◌, ◌≡◌, ◌≢◌, refl, sym, ◌∙◌, true, false, List, [], ◌∷◌, ok, Returns, arith, ltb, ◌==◌,
  if◌then◌else◌, ◌||◌, ◌-◌, Bool-cases, eq-cases, inl, inr, min, length, lt→ltb, ne→==, ==_iff,
  le→ltb,
}
use singlestoredb_extension.Base.Counts.{count}
use singlestoredb_extension.LgSize.{lg_size_from_count, most_entries}
use singlestoredb_extension.Table.{Table, max_theta, make_table}
use singlestoredb_extension.Table.Fill.{HasRoom}
use singlestoredb_extension.Sketch.{Sketch}
use singlestoredb_extension.Sketch.Sample.{HashSet, Samples, IsVoid, IsSketchOf}
use singlestoredb_extension.Intersection.{
  Intersection, new_table, copy_entries, match_entries, make, first_update, next_update,
  keep_matches,
}
use singlestoredb_extension.Intersection.Load.{both_sets, Holds, no_table-Holds, load}
use singlestoredb_extension.Intersection.Match.{
  matches, count-matches, length-matches, length-le-occupied, match_entries-Matched,
}

-- The intersection samples the set `X`. Before the first update this is the set of all hashes.
pub record IsIntersectionOf (seed : ℕ) (X : HashSet) (i : Intersection) : Type 0 where
  pub seed_same : i.table.seed ≡ seed
  pub bounded : i.table.theta ≤ max_theta
  pub void : i.table.is_empty ≡ true → IsVoid X
  pub fresh :
      i.is_valid ≡ false
      → (i.table.is_empty ≡ false) × (i.table.theta ≡ max_theta) × ((k : ℕ) → X k ≡ true)
  pub holds : i.is_valid ≡ true → Holds X i.table

-- The same, after an update.
abbrev pub IsValidOf : ℕ → HashSet → Intersection → Type 0
IsValidOf seed X i = IsIntersectionOf seed X i × (i.is_valid ≡ true)

abbrev pub every_hash : HashSet
every_hash k = true

pub make-IsIntersectionOf : (seed : ℕ) → IsIntersectionOf seed every_hash (make seed)
unfolding make make_table
make-IsIntersectionOf seed = record {
  seed_same = refl;
  bounded = omega arith;
  void = λ e. cc;
  fresh = λ _. (refl, refl, λ k. refl);
  holds = λ e. cc;
}

-- A list without 0 in which nothing else occurs has no elements.
nothing-length : (xs : List ℕ) → count 0 xs ≡ 0 → ((k : ℕ) → k ≢ 0 → count k xs ≡ 0) → length xs ≡ 0
nothing-length [] no_zero nothing = refl
nothing-length (x ∷ xs) no_zero nothing = absurd (ground (arith, nothing x))

-- A sketch that retains something is not empty.
pub retains-full :
    {Y : HashSet} {s : Sketch} → IsSketchOf Y s → s.num_retained ≢ 0 → s.is_empty ≡ false
retains-full {s = s} is some_in = elim (Bool-cases s.is_empty) [
  | inr e ↦ e
  | inl e ↦ absurd (
      some_in (
        is.number
        ∙ nothing-length s.entries is.no_zero
            (λ k nz. ground (arith, is.samples k nz, is.void e k nz, is.bounded))))
]

-- The table of a valid intersection.
pub valid :
    {seed : ℕ} {X : HashSet} (t : Table)
    → t.seed ≡ seed
    → t.theta ≤ max_theta
    → (t.is_empty ≡ true → IsVoid X)
    → Holds X t
    → IsIntersectionOf seed X (record { is_valid = true; table = t })
valid t seed_same bounded void holds = record {
  seed_same = seed_same;
  bounded = bounded;
  void = void;
  fresh = λ e. cc;
  holds = λ _. holds;
}

-- The run of the first update.
first_update_run :
    (t : Table) (s : Sketch) (t' : Table)
    → copy_entries s.entries (
        new_table
          (lg_size_from_count s.num_retained)
          (lg_size_from_count s.num_retained - 1)
          t.theta
          t.seed
          t.is_empty)
      ≡ ok t'
    → t'.num_entries ≡ s.num_retained
    → first_update t s ≡ ok (record { is_valid = true; table = t' })
unfolding first_update
first_update_run t s t' run number =
    let same : (t'.num_entries == s.num_retained) ≡ true = (==_iff _ _).1 number in rw (run, same)

module _ {Y : HashSet} {s : Sketch} (is : IsSketchOf Y s) where
  Y_once : (k : ℕ) → k ≢ 0 → count k s.entries ≤ 1
  Y_once k nz = ground (arith, is.samples k nz)

  -- The first update copies the sketch.
  pub first_update-Holds :
      {X : HashSet} {seed : ℕ} (t : Table)
      → t.seed ≡ seed
      → t.is_empty ≡ false
      → t.theta ≡ s.theta
      → ((k : ℕ) → X k ≡ true)
      → s.num_retained ≢ 0
      → s.num_retained ≤ most_entries
      → Returns (first_update t s) (IsValidOf seed (both_sets X Y))
  first_update-Holds t seed_same e same all some_in few =
      let l =
        load s.entries s.num_retained t.theta t.seed t.is_empty is.number (omega arith) few
          is.no_zero Y_once in
      (
        record { is_valid = true; table = l.t },
        first_update_run t s l.t l.run_copy l.number,
        (
          valid l.t (l.seed_same ∙ seed_same) (omega (arith, l.theta_same, same, is.bounded))
              (λ f. absurd (cc (sym f ∙ l.flag ∙ e)))
              (record {
                samples = λ k nz.
                    ground (arith, l.counts k nz, is.samples k nz, all k, l.theta_same, same);
                number = l.room.filled;
                room = λ _. l.room;
              }),
          refl,
        ),
      )

pub count-no_length : (k : ℕ) (xs : List ℕ) → length xs ≡ 0 → count k xs ≡ 0
count-no_length k [] e = refl
count-no_length k (x ∷ xs) e = absurd (omega arith)

-- The run of a later update.
next_update_run :
    (t : Table) (s : Sketch) (seen : ℕ) (matched : List ℕ) (t' : Table)
    → match_entries t s.is_ordered (min t.num_entries s.num_retained) 0 0 s.entries
      ≡ ok (matched, seen)
    → seen ≤ s.num_retained
    → (s.is_ordered ≡ false → s.num_retained ≤ seen)
    → keep_matches t matched ≡ ok t'
    → next_update t s ≡ ok (record { is_valid = true; table = t' })
unfolding next_update
next_update_run t s seen matched t' run most all kept =
    let enough : ltb s.num_retained seen ≡ false = le→ltb _ _ most in
    elim (Bool-cases s.is_ordered) [
      | inl o ↦ rw (run, enough, o, kept)
      | inr o ↦
          let full : ltb seen s.num_retained ≡ false = le→ltb _ _ (all o) in
          rw (run, enough, o, full, kept)
    ]

-- The table of a later update, with its flag and its theta already brought down.
module _ (X : HashSet) {Y : HashSet} {s : Sketch} (is : IsSketchOf Y s) (t : Table)
    (e : t.is_empty ≡ false) (lower : t.theta ≤ s.theta)
    (X_in : (k : ℕ) → k ≢ 0 → k < t.theta → count k t.entries ≡ (if X k then 1 else 0)) where
  abbrev ms : List ℕ
  ms = matches t s.entries

  ms-Samples : Samples (both_sets X Y) t.theta ms
  ms-Samples k nz = ground (arith, count-matches k t s.entries, X_in k nz, is.samples k nz)

  none-match : length ms ≡ 0 → (k : ℕ) → k ≢ 0 → k < t.theta → both_sets X Y k ≡ false
  none-match none_in k nz lt =
      let zero : count k ms ≡ 0 = count-no_length k ms none_in in
      let sample = ms-Samples k nz in
      elim (Bool-cases (both_sets X Y k)) [
        | inr f ↦ f
        | inl f ↦ absurd (omega (arith, zero, rw (lt→ltb _ _ lt, f) at sample))
      ]

  ms-no_zero : count 0 ms ≡ 0
  ms-no_zero = ground (arith, count-matches 0 t s.entries, is.no_zero)

  ms-once : (k : ℕ) → k ≢ 0 → count k ms ≤ 1
  ms-once k nz = ground (arith, ms-Samples k nz)

  module _ {seed : ℕ} (seed_same : t.seed ≡ seed) (bounded : t.theta ≤ max_theta)
      (few : s.num_retained ≤ most_entries) where
    keep_matches-none :
        length ms ≡ 0
        → Returns
            (keep_matches t ms)
            (λ t'. IsIntersectionOf seed (both_sets X Y) (record { is_valid = true; table = t' }))
    unfolding keep_matches make_table
    keep_matches-none none_in =
        let zero : (length ms == 0) ≡ true = (==_iff _ _).1 none_in in
        let flag = t.is_empty || t.theta == max_theta in
        (
          new_table 0 0 t.theta t.seed flag,
          rw zero,
          valid (new_table 0 0 t.theta t.seed flag) seed_same bounded
              (λ f k nz lt. none-match none_in k nz (ground (arith, e, f)))
              (no_table-Holds _ t.theta t.seed flag (none-match none_in)),
        )

    keep_matches-some :
        length ms ≢ 0
        → Returns
            (keep_matches t ms)
            (λ t'. IsIntersectionOf seed (both_sets X Y) (record { is_valid = true; table = t' }))
    unfolding keep_matches
    keep_matches-some some_in =
        let l =
          load ms (length ms) t.theta t.seed t.is_empty refl (omega arith)
            (omega (arith, few, is.number, length-matches t s.entries)) ms-no_zero ms-once in
        (
          l.t,
          rw (ne→== _ _ some_in, l.run_place),
          valid l.t (l.seed_same ∙ seed_same) (omega (arith, l.theta_same))
              (λ f. absurd (cc (sym f ∙ l.flag ∙ e)))
              (record {
                samples = λ k nz. rw l.theta_same (l.counts k nz ∙ ms-Samples k nz);
                number = l.room.filled;
                room = λ _. l.room;
              }),
        )

    keep_matches-Holds :
        Returns
          (keep_matches t ms)
          (λ t'. IsIntersectionOf seed (both_sets X Y) (record { is_valid = true; table = t' }))
    keep_matches-Holds = elim (eq-cases (length ms) 0) [
      | inl none_in ↦ keep_matches-none none_in
      | inr some_in ↦ keep_matches-some some_in
    ]

    -- A later update keeps the matches.
    pub next_update-Holds : HasRoom 0 t → Returns (next_update t s) (IsValidOf seed (both_sets X Y))
    next_update-Holds h =
        let m =
          match_entries-Matched t s.is_ordered (min t.num_entries s.num_retained) 0 0 s.entries h
            is.no_zero is.sorted
            (omega (
              arith,
              length-matches t s.entries,
              is.number,
              h.filled,
              length-le-occupied ms t.entries ms-no_zero
                  (λ k nz. ground (arith, count-matches k t s.entries, Y_once is k nz)),
            ))
            (omega (arith, is.number, few)) in
        let (t', run, result) = keep_matches-Holds in
        (
          record { is_valid = true; table = t' },
          next_update_run t s m.seen ms t' m.run (omega (arith, m.most, is.number))
              (λ o. omega (arith, m.all o, is.number)) run,
          (result, refl),
        )
