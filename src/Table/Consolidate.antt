-- ===== src/Table/Consolidate.antt =====
-- `consolidate_non_empty` moves the keys of an array to its front.
use singlestoredb_extension.Base.{
  ◌<◌, ℕ, zero, suc, ◌+◌, ◌-◌, ◌≡◌, ◌≢◌, refl, sym, ◌∙◌, ap, true, false, List, [], ◌∷◌, ◌++◌,
  arith, length, length-append, replicate, length-replicate, get_or, set, get_or-at, set-at,
  set-append, take, take-at, ◌==◌, eq-cases, inl, inr,
}
use mathlib.Core.List.{append_assoc}
use mathlib.Core.Path.{subst, ◌≡⟨◌⟩◌, ◌∎}
use singlestoredb_extension.Base.Counts.{
  count, occupied, count-append, count_of_empty, occupied-append, occupied-count_zero,
}
use singlestoredb_extension.Table.{first_empty, move_front, consolidate_non_empty}

-- The first `num` entries are the keys of `old`, with no empty slot among them.
pub record Fronted (num : ℕ) (old entries : List ℕ) : Type 0 where
  pub whole : length (take num entries) ≡ num
  pub full : count 0 (take num entries) ≡ 0
  pub counts : (k : ℕ) → k ≢ 0 → count k (take num entries) ≡ count k old

-- The array within the second loop: keys at the front, `suc d` empty slots, and what is not seen.
abbrev layout : List ℕ → ℕ → List ℕ → List ℕ
layout front d rest = front ++ 0 ∷ (replicate d 0 ++ rest)

zeros_shift : (d : ℕ) (rest : List ℕ) → replicate d 0 ++ 0 ∷ rest ≡ 0 ∷ (replicate d 0 ++ rest)
unfolding replicate
zeros_shift zero rest = refl
zeros_shift (suc d) rest = ap (λ (l : List ℕ). 0 ∷ l) (zeros_shift d rest)

layout-border :
    (front : List ℕ) (d : ℕ) (rest : List ℕ)
    → layout front d rest ≡ (front ++ 0 ∷ replicate d 0) ++ rest
layout-border front d rest = sym (append_assoc front (0 ∷ replicate d 0) rest)

length-border :
    (front : List ℕ) (d : ℕ) → length (front ++ 0 ∷ replicate d 0) ≡ length front + suc d
length-border front d =
    omega (arith, length-append front (0 ∷ replicate d 0), length-replicate {A = ℕ} d 0)

layout-read :
    (front : List ℕ) (d r : ℕ) (rest : List ℕ) (j : ℕ)
    → j ≡ length front + suc d
    → get_or (layout front d (r ∷ rest)) j 0 ≡ r
layout-read front d r rest j e =
    rw (layout-border front d (r ∷ rest))
      (get_or-at (front ++ 0 ∷ replicate d 0) r rest j 0 (e ∙ sym (length-border front d)))

length-border_key :
    (front : List ℕ) (d r : ℕ) → length (front ++ r ∷ replicate d 0) ≡ length front + suc d
length-border_key front d r =
    omega (arith, length-append front (r ∷ replicate d 0), length-replicate {A = ℕ} d 0)

-- A key at the border is moved into the first empty slot.
layout-move :
    (front : List ℕ) (d r : ℕ) (rest : List ℕ) (j : ℕ)
    → j ≡ length front + suc d
    → set (set (layout front d (r ∷ rest)) (length front) r) j 0 ≡ layout (front ++ r ∷ []) d rest
layout-move front d r rest j e =
    let zeros = replicate d 0 in
    set (set (layout front d (r ∷ rest)) (length front) r) j 0
    ≡⟨ ap (λ l. set l j 0) (set-append front 0 (zeros ++ r ∷ rest) r) ⟩
      set (front ++ r ∷ (zeros ++ r ∷ rest)) j 0
    ≡⟨ ap (λ l. set l j 0) (sym (append_assoc front (r ∷ zeros) (r ∷ rest))) ⟩
      set ((front ++ r ∷ zeros) ++ r ∷ rest) j 0
    ≡⟨ set-at (front ++ r ∷ zeros) r rest j 0 (e ∙ sym (length-border_key front d r)) ⟩
      (front ++ r ∷ zeros) ++ 0 ∷ rest
    ≡⟨ append_assoc front (r ∷ zeros) (0 ∷ rest) ⟩ front ++ r ∷ (zeros ++ 0 ∷ rest)
    ≡⟨ ap (λ l. front ++ r ∷ l) (zeros_shift d rest) ⟩ front ++ r ∷ 0 ∷ (zeros ++ rest)
    ≡⟨ sym (append_assoc front (r ∷ []) (0 ∷ (zeros ++ rest))) ⟩ layout (front ++ r ∷ []) d rest ∎

layout-empty :
    (front : List ℕ) (d : ℕ) (rest : List ℕ) → layout front d (0 ∷ rest) ≡ layout front (suc d) rest
unfolding replicate
layout-empty front d rest = ap (λ l. front ++ 0 ∷ l) (zeros_shift d rest)

-- What the second loop leaves.
Fronted-front :
    (num : ℕ) (front rest more : List ℕ)
    → num ≡ length front
    → count 0 front ≡ 0
    → occupied rest ≡ 0
    → Fronted num (front ++ rest) (front ++ more)
Fronted-front num front rest more e full none_left =
    let t = take-at front more num e in
    record {
      whole = rw t (sym e);
      full = rw t full;
      counts = λ k nz. rw t (omega (arith, count-append k front rest, count_of_empty k rest nz));
    }

-- The key that is moved to the front counts as one that was there.
Fronted-cons :
    {num : ℕ} {entries : List ℕ} (front : List ℕ) (r : ℕ) (rest : List ℕ)
    → Fronted num ((front ++ r ∷ []) ++ rest) entries
    → Fronted num (front ++ r ∷ rest) entries
Fronted-cons front r rest t = rw (append_assoc front (r ∷ []) rest) at t

Fronted-empty :
    {num : ℕ} {entries : List ℕ} (front rest : List ℕ)
    → Fronted num (front ++ rest) entries
    → Fronted num (front ++ 0 ∷ rest) entries
Fronted-empty front rest t = record {
  whole = t.whole;
  full = t.full;
  counts = λ k nz.
      ground (arith, t.counts k nz, count-append k front rest, count-append k front (0 ∷ rest));
}

-- The three outcomes of a round.
module _ (num n j i : ℕ) (entries : List ℕ) where
  move_front-skip :
      get_or entries j 0 ≡ 0
      → move_front num (suc n) j i entries ≡ move_front num n (j + 1) i entries
  unfolding move_front
  move_front-skip e = rw (e, move_front)

  module _ (r : ℕ) (e : get_or entries j 0 ≡ suc r) where
    not_empty : (suc r == 0) ≡ false
    not_empty = ground arith

    move_front-last :
        i + 1 ≡ num → move_front num (suc n) j i entries ≡ set (set entries i (suc r)) j 0
    unfolding move_front
    move_front-last last =
        let done : (i + 1 == num) ≡ true = ground arith in rw (e, move_front, not_empty, done, e)

    move_front-next :
        i + 1 ≢ num
        → move_front num (suc n) j i entries
          ≡ move_front num n (j + 1) (i + 1) (set (set entries i (suc r)) j 0)
    unfolding move_front
    move_front-next more =
        let going : (i + 1 == num) ≡ false = ground arith in rw (e, move_front, not_empty, going, e)

move_front-Fronted :
    (num : ℕ) (rest front : List ℕ) (d j i : ℕ)
    → j ≡ length front + suc d
    → i ≡ length front
    → num ≡ length front + occupied rest
    → count 0 front ≡ 0
    → Fronted num (front ++ rest) (move_front num (length rest) j i (layout front d rest))
move_front-Fronted num [] front d j i ej ei en full =
    unfold move_front in Fronted-front num front [] _ (omega arith) full refl
move_front-Fronted num (zero ∷ rest) front d j i ej ei en full =
    rw (move_front-skip num (length rest) j i _ (layout-read front d 0 rest j ej)) (
      rw (layout-empty front d rest) (
        Fronted-empty front rest (
          move_front-Fronted num rest front (suc d) (j + 1) i (omega arith) ei (omega arith) full)))
move_front-Fronted num (suc r ∷ rest) front d j i ej ei en full = elim (eq-cases (i + 1) num) [
  | inl last ↦ rw (move_front-last num (length rest) j i _ r key last) (
      rw moved (
        Fronted-cons front (suc r) rest
          (Fronted-front num longer rest _ (omega (arith, grown)) kept (ground (arith, grown)))))
  | inr more ↦ rw (move_front-next num (length rest) j i _ r key more) (
      rw moved (
        Fronted-cons front (suc r) rest (
          move_front-Fronted num rest longer d (j + 1) (i + 1) (omega (arith, grown))
            (omega (arith, grown)) (ground (arith, grown)) kept)))
]
  where
    longer : List ℕ
    longer = front ++ suc r ∷ []

    grown : length longer ≡ length front + 1
    grown = length-append front (suc r ∷ [])

    kept : count 0 longer ≡ 0
    kept = ground (arith, count-append 0 front (suc r ∷ []))

    key : get_or (layout front d (suc r ∷ rest)) j 0 ≡ suc r
    key = layout-read front d (suc r) rest j ej

    moved : set (set (layout front d (suc r ∷ rest)) i (suc r)) j 0 ≡ layout longer d rest
    moved = rw ei (layout-move front d (suc r) rest j ej)

-- The array split at its first empty slot.
record SplitAtEmpty (entries : List ℕ) : Type 0 where
  front : List ℕ
  rest : List ℕ
  split : entries ≡ front ++ 0 ∷ rest
  full : count 0 front ≡ 0
  index : first_empty entries ≡ length front

SplitAtEmpty-cons :
    (r : ℕ) (entries : List ℕ) → SplitAtEmpty entries → SplitAtEmpty (suc r ∷ entries)
unfolding first_empty
SplitAtEmpty-cons r entries t = record {
  front = suc r ∷ t.front;
  rest = t.rest;
  split = ap (λ l. suc r ∷ l) t.split;
  full = ground (arith, t.full);
  index = ground (arith, t.index);
}

first_empty-SplitAtEmpty :
    (entries : List ℕ) → occupied entries < length entries → SplitAtEmpty entries
first_empty-SplitAtEmpty [] h = absurd (omega arith)
first_empty-SplitAtEmpty (zero ∷ entries) h = record {
  front = [];
  rest = entries;
  split = refl;
  full = refl;
  index = unfold first_empty in refl;
}
first_empty-SplitAtEmpty (suc r ∷ entries) h =
    SplitAtEmpty-cons r entries (first_empty-SplitAtEmpty entries (ground arith))

-- For an array of `size` slots with `num` keys, fewer than `size`, `consolidate_non_empty` leaves
-- in the first `num` slots exactly the keys of before and no empty slot.
pub consolidate-Fronted :
    (entries : List ℕ) (size num : ℕ)
    → length entries ≡ size
    → occupied entries ≡ num
    → num < size
    → Fronted num entries (consolidate_non_empty entries size num)
unfolding consolidate_non_empty
consolidate-Fronted entries size num width filled room =
    by_split (first_empty-SplitAtEmpty entries (omega arith))
  where
    by_split :
        SplitAtEmpty entries
        → Fronted num entries (
            move_front num
              (size - (first_empty entries + 1))
              (first_empty entries + 1)
              (first_empty entries)
              entries)
    by_split t =
        let long = length-append t.front (0 ∷ t.rest) in
        let busy = occupied-append t.front (0 ∷ t.rest) in
        let keys = occupied-count_zero t.front in
        let whole : length entries ≡ length (t.front ++ 0 ∷ t.rest) = ap length t.split in
        let taken : occupied entries ≡ occupied (t.front ++ 0 ∷ t.rest) = ap occupied t.split in
        let rounds : size - (first_empty entries + 1) ≡ length t.rest =
          omega (arith, long, t.index) in
        subst
          (λ l. Fronted num l (
            move_front num (size - (first_empty entries + 1)) (first_empty entries + 1)
              (first_empty entries) l))
          (sym t.split)
          (rw rounds (
            unfold replicate in
            Fronted-empty t.front t.rest (
              move_front-Fronted num t.rest t.front 0 (first_empty entries + 1)
                (first_empty entries) (omega (arith, t.index)) t.index
                (ground (arith, busy, keys, t.full)) t.full)))
