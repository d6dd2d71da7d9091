-- ===== src/Intersection/Match.antt =====
-- The loop that looks up the entries of a sketch finds those that the table holds below its theta.
use singlestoredb_extension.Base.{
  ℕ, zero, suc, ◌+◌, ◌%◌, ◌^◌, ◌≤◌, ◌<◌, ◌≡◌, ◌≢◌, refl, Bool, true, false, ok, ◌>>=◌, List, [],
  ◌∷◌, arith, length, set, ltb, if◌then◌else◌, ◌&&◌, get_elem?, some, lt→ltb, le→ltb, lt-cases, inl,
  inr, ne→==, Bool-cases,
}
use singlestoredb_extension.Base.Counts.{count, occupied, count-set, occupied-set}
use singlestoredb_extension.Base.Sorting.{IsSorted, AtLeast}
use singlestoredb_extension.Table.{Table}
use singlestoredb_extension.Table.Place.{Hit, Miss}
use singlestoredb_extension.Table.Fill.{HasRoom, HasRoom-find}
use singlestoredb_extension.Intersection.{match_entries}

abbrev in_table : Table → ℕ → Bool
in_table t k = ltb k t.theta && ltb 0 (count k t.entries)

-- The hashes of a list that the table holds below its theta.
unfoldable pub matches : Table → List ℕ → List ℕ
matches t [] = []
matches t (hash ∷ hashes) =
    if ltb hash t.theta && ltb 0 (count hash t.entries)
    then hash ∷ matches t hashes
    else matches t hashes

pub count-matches :
    (k : ℕ) (t : Table) (hashes : List ℕ)
    → count k (matches t hashes)
      ≡ (if ltb k t.theta && ltb 0 (count k t.entries) then count k hashes else 0)
unfolding matches
count-matches k t [] = ground arith
count-matches k t (hash ∷ hashes) = ground (arith, count-matches k t hashes)

pub length-matches : (t : Table) (hashes : List ℕ) → length (matches t hashes) ≤ length hashes
unfolding matches
length-matches t [] = omega arith
length-matches t (hash ∷ hashes) = ground (arith, length-matches t hashes)

matches-none :
    (t : Table) (least : ℕ) (hashes : List ℕ)
    → AtLeast least hashes
    → t.theta ≤ least
    → matches t hashes ≡ []
unfolding matches
matches-none t least [] above le = refl
matches-none t least (hash ∷ hashes) above le =
    ground (arith, matches-none t least hashes above.1 le)

-- A number that occurs has a slot.
slot_of : (k : ℕ) (xs : List ℕ) → 0 < count k xs → (i : ℕ) × (get_elem? xs i ≡ some k)
slot_of k [] there = absurd (omega arith)
slot_of k (x ∷ xs) there = elim (lt-cases 0 (count k xs)) [
  | inl later ↦ let (i, e) = slot_of k xs later in (suc i, e)
  | inr not_later ↦ (zero, ground arith)
]

-- Distinct keys of an array are at most as many as its taken slots.
pub length-le-occupied :
    (keys xs : List ℕ)
    → count 0 keys ≡ 0
    → ((k : ℕ) → k ≢ 0 → count k keys ≤ count k xs)
    → length keys ≤ occupied xs
length-le-occupied [] xs no_zero within = omega arith
length-le-occupied (key ∷ keys) xs no_zero within =
    let nz : key ≢ 0 = ground arith in
    let (i, e) = slot_of key xs (ground (arith, within key nz)) in
    let rest =
      length-le-occupied keys (set xs i 0) (ground arith)
        (λ k k_nz. ground (arith, within k k_nz, count-set k xs i key 0 e)) in
    ground (arith, rest, occupied-set xs i key 0 e)

-- What the loop returns, from its counters.
pub record Matched (t : Table) (is_ordered : Bool) (max_matches match_count count : ℕ)
    (hashes : List ℕ) : Type 0 where
  pub seen : ℕ
  pub run :
      match_entries t is_ordered max_matches match_count count hashes ≡ ok (matches t hashes, seen)
  pub most : seen ≤ count + length hashes
  pub all : is_ordered ≡ false → seen ≡ count + length hashes

-- The rounds of the loop.
module _ (t : Table) (o : Bool) (max mc c hash : ℕ) (hashes : List ℕ) (small : c + 1 < 2 ^ 32) where
  next : (c + 1) % 2 ^ 32 ≡ c + 1
  next = omega arith

  run-Hit :
      hash < t.theta
      → Hit t.lg_cur_size t.entries hash
      → mc < max
      → match_entries t o max mc c (hash ∷ hashes)
        ≡ (match_entries t o max (mc + 1) (c + 1) hashes >>= λ rest. ok (hash ∷ rest.0, rest.1))
  unfolding match_entries
  run-Hit lt h less = rw (lt→ltb _ _ lt, match_entries, h.run, ne→== mc max (omega arith), next)

  run-Miss :
      hash < t.theta
      → Miss t.lg_cur_size t.entries hash
      → match_entries t o max mc c (hash ∷ hashes) ≡ match_entries t o max mc (c + 1) hashes
  unfolding match_entries
  run-Miss lt h = rw (lt→ltb _ _ lt, match_entries, h.run, next)

  run-skip :
      t.theta ≤ hash
      → o ≡ false
      → match_entries t o max mc c (hash ∷ hashes) ≡ match_entries t o max mc (c + 1) hashes
  unfolding match_entries
  run-skip le e = rw (le→ltb _ _ le, match_entries, e, next)

  run-stop : t.theta ≤ hash → o ≡ true → match_entries t o max mc c (hash ∷ hashes) ≡ ok ([], c)
  unfolding match_entries
  run-stop le e = rw (le→ltb _ _ le, match_entries, e)

  in-Hit :
      hash < t.theta
      → Hit t.lg_cur_size t.entries hash
      → matches t (hash ∷ hashes) ≡ hash ∷ matches t hashes
  unfolding matches
  in-Hit lt h = ground (arith, h.present)

  out-Miss : Miss t.lg_cur_size t.entries hash → matches t (hash ∷ hashes) ≡ matches t hashes
  unfolding matches
  out-Miss h = ground (arith, h.absent)

  out-skip : t.theta ≤ hash → matches t (hash ∷ hashes) ≡ matches t hashes
  unfolding matches
  out-skip le = ground arith

  round-Hit :
      hash < t.theta
      → Hit t.lg_cur_size t.entries hash
      → mc < max
      → Matched t o max (mc + 1) (c + 1) hashes
      → Matched t o max mc c (hash ∷ hashes)
  round-Hit lt h less m = record {
    seen = m.seen;
    run = rw (run-Hit lt h less, m.run, in-Hit lt h);
    most = omega (arith, m.most);
    all = λ e. omega (arith, m.all e);
  }

  round-on :
      match_entries t o max mc c (hash ∷ hashes) ≡ match_entries t o max mc (c + 1) hashes
      → matches t (hash ∷ hashes) ≡ matches t hashes
      → Matched t o max mc (c + 1) hashes
      → Matched t o max mc c (hash ∷ hashes)
  round-on run same m = record {
    seen = m.seen;
    run = rw (run, same) m.run;
    most = omega (arith, m.most);
    all = λ e. omega (arith, m.all e);
  }

  round-stop :
      t.theta ≤ hash → o ≡ true → AtLeast hash hashes → Matched t o max mc c (hash ∷ hashes)
  round-stop le e above = record {
    seen = c;
    run = rw (run-stop le e, out-skip le, matches-none t hash hashes above le);
    most = omega arith;
    all = λ e'. cc;
  }

match-length-in :
    (t : Table) (hash : ℕ) (hashes : List ℕ)
    → hash < t.theta
    → count hash t.entries ≡ 1
    → length (matches t (hash ∷ hashes)) ≡ suc (length (matches t hashes))
unfolding matches
match-length-in t hash hashes lt there = ground arith

match-length-tail :
    (t : Table) (hash : ℕ) (hashes : List ℕ)
    → length (matches t hashes) ≤ length (matches t (hash ∷ hashes))
unfolding matches
match-length-tail t hash hashes = ground arith

pub match_entries-Matched :
    (t : Table) (o : Bool) (max mc c : ℕ) (hashes : List ℕ)
    → HasRoom 0 t
    → count 0 hashes ≡ 0
    → (o ≡ true → IsSorted hashes)
    → mc + length (matches t hashes) ≤ max
    → c + length hashes < 2 ^ 32
    → Matched t o max mc c hashes
match_entries-Matched t o max mc c [] h no_zero sorted room small = record {
  seen = c;
  run = unfold match_entries matches in refl;
  most = omega arith;
  all = λ e. omega arith;
}
match_entries-Matched t o max mc c (hash ∷ hashes) h no_zero sorted room small =
    let nz : hash ≢ 0 = ground arith in
    let tail = match-length-tail t hash hashes in
    let rest = λ (mc' : ℕ) (r : mc' + length (matches t hashes) ≤ max).
      match_entries-Matched t o max mc' (c + 1) hashes h (ground arith) (λ e. (sorted e).1) r
        (omega arith) in
    elim (lt-cases hash t.theta) [
      | inl lt ↦ elim (HasRoom-find h hash nz) [
        | inl hit ↦
            let grown = match-length-in t hash hashes lt hit.present in
            round-Hit t o max mc c hash hashes (omega arith) lt hit (omega arith)
              (rest (mc + 1) (omega arith))
        | inr miss ↦
            round-on t o max mc c hash hashes (omega arith)
              (run-Miss t o max mc c hash hashes (omega arith) lt miss)
              (out-Miss t o max mc c hash hashes (omega arith) miss) (rest mc (omega arith))
      ]
      | inr le ↦ elim (Bool-cases o) [
        | inl e ↦ round-stop t o max mc c hash hashes (omega arith) le e (sorted e).0
        | inr e ↦
            round-on t o max mc c hash hashes (omega arith)
              (run-skip t o max mc c hash hashes (omega arith) le e)
              (out-skip t o max mc c hash hashes (omega arith) le) (rest mc (omega arith))
      ]
    ]
