-- ===== src/Serial/RoundTrip.antt =====
-- A compact sketch that was serialized is read back as it was, whatever the memory held before.
use singlestoredb_extension.Base.{
  stop, invalid_arg, Option, some, ℕ, suc, ◌+◌, ◌*◌, ◌/◌, ◌%◌, ◌^◌, ◌≤◌, ◌<◌, ◌≡◌, ◌≢◌, lt-cases,
  eq-cases, leb, le→leb, lt→leb, Bool-cases, ◌||◌, inl, inr, ne→==, lt→ltb, get_or, ◌∙◌, refl, sym,
  ap, ◌∙◌, Bool, true, false, ◌||◌, List, [], ◌∷◌, ok, arith, ◌==◌, if◌then◌else◌, length,
  Bool-cases, inl, inr,
}
use singlestoredb_extension.Table.{max_theta}
use singlestoredb_extension.Base.Counts.{count}
use singlestoredb_extension.Sketch.Keys.{keys-full}
use singlestoredb_extension.Sketch.{of_compact, make_compact, CompactSketch, make_compact}
use singlestoredb_extension.Bytes.{bytes_of, number_of, number_of-bytes_of}
use singlestoredb_extension.Parser.{
  SketchData, no_entries, parse_v3_entries, parse, parse_v3_entries, no_entries,
}
use singlestoredb_extension.Serial.{
  serialize2, data_entries, wrapped_entries, deserialize, wrap, preamble_longs, entry_bytes,
  written, data_entries, deserialize, wrap, estimation_mode, preamble_longs, flags_byte,
}
use singlestoredb_extension.Serial.Layout.{
  AllWords, length-entry_bytes, length-entry_bytes, read_entries-entry_bytes, seed_of,
  read_entries-entry_bytes, parse-empty, parse-single, found, parse-v3, parse-exact,
  parse-estimation,
}

-- A compact sketch as the program makes them, of a size that 32 bits can address.
pub record IsSerial (expected_seed_hash : ℕ) (c : CompactSketch) : Type 0 where
  pub seed : c.seed_hash ≡ expected_seed_hash
  pub seed_small : c.seed_hash < 2 ^ 16
  pub theta_small : c.theta ≤ max_theta
  pub words : AllWords c.entries
  pub few : length c.entries < 2 ^ 28
  pub short_ordered : length c.entries ≤ 1 → c.is_ordered ≡ true
  pub bare : c.is_empty ≡ true → (c.entries ≡ []) × (c.theta ≡ max_theta) × (c.is_ordered ≡ true)

-- The parsed form of such a sketch.
abbrev parsed : CompactSketch → SketchData
parsed c = record {
  is_empty = c.is_empty;
  is_ordered = c.is_ordered;
  seed_hash = c.seed_hash;
  num_entries = length c.entries;
  theta = c.theta;
  entries_start = entry_bytes c.entries;
  entry_bits = 64;
}

abbrev pub of_parts :
    (is_empty is_ordered : Bool) (seed theta : ℕ) (entries : List ℕ) → CompactSketch
of_parts is_empty is_ordered seed theta entries = record {
  is_empty = is_empty;
  is_ordered = is_ordered;
  seed_hash = seed;
  theta = theta;
  entries = entries;
}

single_entry : (xs : List ℕ) → length xs ≡ 1 → (x : ℕ) × (xs ≡ x ∷ [])
single_entry [] one = elim (absurd one) [ ]
  where
    absurd : length {A = ℕ} [] ≡ 1 → ⊥
    absurd e = omega arith
single_entry (x ∷ []) one = (x, refl)
single_entry (x ∷ y ∷ ys) one = elim (absurd one) [ ]
  where
    absurd : suc (suc (length ys)) ≡ 1 → ⊥
    absurd e = omega arith

module _ (seed theta : ℕ) (entries memory : List ℕ) (seed_small : seed < 2 ^ 16) where
  abbrev seed_bytes : seed_of (seed % 256) (seed / 256 % 256) ≡ seed
  unfolding number_of
  seed_bytes = omega arith

  abbrev sketch : Bool → Bool → CompactSketch
  sketch is_empty is_ordered = of_parts is_empty is_ordered seed theta entries

  abbrev count_of : ℕ
  count_of = number_of (bytes_of 4 (length entries))

  count_bytes : length entries < 2 ^ 28 → count_of ≡ length entries
  count_bytes few = number_of-bytes_of 4 (length entries) (omega arith)

  pub parse-written_empty :
      (sh : ℕ)
      → theta ≡ max_theta
      → entries ≡ []
      → parse sh (written (sketch true true) memory) ≡ ok (parsed (sketch true true))
  unfolding written bytes_of entry_bytes
  parse-written_empty sh top bare =
      rw (top, bare)
        (parse-empty sh (get_or memory 3 0) (get_or memory 4 0) (seed % 256) (seed / 256 % 256)
          ∙ ap (λ s. ok (no_entries s max_theta)) seed_bytes)

  flags :
      (is_ordered : Bool) → flags_byte (sketch false is_ordered) ≡ (if is_ordered then 26 else 10)
  flags true = refl
  flags false = refl

  -- The check of the seed hash.
  pub parse-written_other :
      (sh : ℕ) (is_ordered : Bool)
      → seed ≢ sh
      → parse sh (written (sketch false is_ordered) memory) ≡ stop invalid_arg
  unfolding written bytes_of parse_v3_entries
  parse-written_other sh is_ordered ne = rw (
    flags is_ordered,
    parse-v3 sh _ (get_or memory 3 0) (get_or memory 4 0) (seed % 256) (seed / 256 % 256) is_ordered
        _,
    seed_bytes,
    ne→== seed sh ne,
  )

  parse-written_single :
      (x : ℕ)
      → theta ≡ max_theta
      → entries ≡ x ∷ []
      → parse seed (written (sketch false true) memory)
        ≡ ok (found seed (length entries) theta true (entry_bytes entries))
  unfolding written bytes_of entry_bytes
  parse-written_single x top one =
      rw (top, one)
        (parse-single seed (get_or memory 3 0) (get_or memory 4 0) (seed % 256) (seed / 256 % 256) x
          seed_bytes)

  parse-written_exact :
      (is_ordered : Bool)
      → length entries < 2 ^ 28
      → theta ≡ max_theta
      → length entries ≢ 1
      → parse seed (written (sketch false is_ordered) memory)
        ≡ ok (found seed (length entries) theta is_ordered (entry_bytes entries))
  unfolding written bytes_of
  parse-written_exact is_ordered few top more =
      rw (top, ne→== (length entries) 1 more, flags is_ordered)
        (parse-exact (get_or memory 3 0) (get_or memory 4 0) (seed % 256) (seed / 256 % 256) _ _ _ _
          _ _ _ _ seed (length entries) is_ordered (entry_bytes entries) seed_bytes
          (count_bytes few) few (length-entry_bytes entries))

  parse-written_estimation :
      (is_ordered : Bool)
      → length entries < 2 ^ 28
      → theta < max_theta
      → parse seed (written (sketch false is_ordered) memory)
        ≡ ok (found seed (length entries) theta is_ordered (entry_bytes entries))
  unfolding written bytes_of
  parse-written_estimation is_ordered few low =
      rw (lt→ltb theta max_theta low, flags is_ordered)
        (parse-estimation (get_or memory 3 0) (get_or memory 4 0) (seed % 256) (seed / 256 % 256) _
          _ _ _ _ _ _ _ seed (length entries) theta is_ordered (entry_bytes entries) seed_bytes
          (count_bytes few) few (length-entry_bytes entries) (omega arith))

-- The parser finds the fields of the sketch, in each of its layouts.
parse-parts :
    (is_empty is_ordered : Bool) (seed theta : ℕ) (entries memory : List ℕ)
    → let c = of_parts is_empty is_ordered seed theta entries in
      IsSerial seed c → parse seed (written c memory) ≡ ok (parsed c)
parse-parts true is_ordered seed theta entries memory is =
    let bare = is.bare refl in
    rw (bare.2) (parse-written_empty seed theta entries memory is.seed_small seed bare.1 bare.0)
parse-parts false is_ordered seed theta entries memory is = elim (lt-cases theta max_theta) [
  | inl low ↦ parse-written_estimation seed theta entries memory is.seed_small is_ordered is.few low
  | inr high ↦
      let top : theta ≡ max_theta = omega (arith, is.theta_small) in
      elim (eq-cases (length entries) 1) [
        | inl one ↦
            let x = single_entry entries one in
            rw (is.short_ordered (omega arith))
              (parse-written_single seed theta entries memory is.seed_small x.0 top x.1)
        | inr more ↦
            parse-written_exact seed theta entries memory is.seed_small is_ordered is.few top more
      ]
]

pub parse-written :
    (sh : ℕ) (c : CompactSketch) (memory : List ℕ)
    → IsSerial sh c
    → parse sh (written c memory) ≡ ok (parsed c)
parse-written sh c memory is = rw (sym is.seed) (
    parse-parts c.is_empty c.is_ordered c.seed_hash c.theta c.entries memory (record {
      seed = refl;
      seed_small = is.seed_small;
      theta_small = is.theta_small;
      words = is.words;
      few = is.few;
      short_ordered = is.short_ordered;
      bare = is.bare;
    }))

-- As many bytes as the memory that `serialize2` asks for, and not more.
pub length-written :
    (sh : ℕ) (c : CompactSketch) (memory : List ℕ)
    → IsSerial sh c
    → length (written c memory) ≡ (8 * preamble_longs c + 8 * length c.entries) % 2 ^ 32
unfolding written bytes_of
length-written sh c memory is = elim (Bool-cases (estimation_mode c)) [
  | inl e ↦ rw (e) (omega (arith, length-entry_bytes c.entries, is.few))
  | inr e ↦ elim (Bool-cases (c.is_empty || length c.entries == 1)) [
    | inl b ↦ rw (e, b) (omega (arith, length-entry_bytes c.entries, is.few))
    | inr b ↦ rw (e, b) (omega (arith, length-entry_bytes c.entries, is.few))
  ]
]

pub data_entries-parsed :
    (sh : ℕ) (c : CompactSketch) → IsSerial sh c → data_entries (parsed c) ≡ ok c.entries
unfolding data_entries
data_entries-parsed sh c is = read_entries-entry_bytes c.entries is.words

pub wrapped_entries-parsed :
    (sh : ℕ) (c : CompactSketch) → IsSerial sh c → wrapped_entries (parsed c) ≡ ok c.entries
unfolding wrapped_entries
wrapped_entries-parsed sh c is = read_entries-entry_bytes c.entries is.words

-- The constructor does not change the order flag.
order_kept : (b : Bool) (n : ℕ) → (n ≤ 1 → b ≡ true) → (b || leb n 1) ≡ b
order_kept true n short = refl
order_kept false n short = elim (lt-cases 1 n) [
  | inl more ↦ lt→leb n 1 more
  | inr few ↦ rw (le→leb n 1 few) (sym (short few))
]

make_compact-same :
    (sh : ℕ) (c : CompactSketch)
    → IsSerial sh c
    → make_compact c.is_empty c.is_ordered c.seed_hash c.theta c.entries ≡ c
unfolding make_compact
make_compact-same sh c is = rw (order_kept c.is_ordered (length c.entries) is.short_ordered)

pub deserialize-written :
    (sh : ℕ) (c : CompactSketch) (memory : List ℕ)
    → IsSerial sh c
    → deserialize sh (written c memory) ≡ ok c
unfolding deserialize
deserialize-written sh c memory is =
    rw (parse-written sh c memory is, data_entries-parsed sh c is)
      (ap ok (make_compact-same sh c is))

-- For a compact sketch with fewer than 2 ^ 28 entries of 64 bits that carries the seed hash that is
-- expected, with the flags and theta that go with an empty sketch or one of at most one entry:
-- whatever memory `malloc` gives, `serialize2` fills as many bytes as it asked for, and
-- `deserialize` of them returns the same sketch.
pub deserialize-serialize2 :
    (sh : ℕ) (c : CompactSketch) (malloc : ℕ → Option (List ℕ)) (memory : List ℕ)
    → IsSerial sh c
    → malloc ((8 * preamble_longs c + 8 * length c.entries) % 2 ^ 32) ≡ some memory
    → (bytes : List ℕ) × (serialize2 malloc c ≡ some bytes)
      × (length bytes ≡ (8 * preamble_longs c + 8 * length c.entries) % 2 ^ 32)
      × (deserialize sh bytes ≡ ok c)
unfolding serialize2
deserialize-serialize2 sh c malloc memory is given = (
  written c memory,
  rw (serialize2, given),
  length-written sh c memory is,
  deserialize-written sh c memory is,
)

pub wrap-written :
    (sh : ℕ) (c : CompactSketch) (memory : List ℕ)
    → IsSerial sh c
    → count 0 c.entries ≡ 0
    → wrap sh (written c memory) ≡ ok (of_compact c)
unfolding wrap of_compact
wrap-written sh c memory is full =
    rw (parse-written sh c memory is, wrapped_entries-parsed sh c is, keys-full c.entries full)

-- At least the first word is there.
pub written_long : (c : CompactSketch) (memory : List ℕ) → 8 ≤ length (written c memory)
unfolding written bytes_of
written_long c memory = omega arith

-- For such a sketch without an entry 0, and memory that `malloc` gives, the wrapped sketch over the
-- bytes of `serialize2` shows a set operation the same as the compact sketch itself.
pub wrap-serialize2 :
    (sh : ℕ) (c : CompactSketch) (malloc : ℕ → Option (List ℕ)) (memory : List ℕ)
    → IsSerial sh c
    → count 0 c.entries ≡ 0
    → malloc ((8 * preamble_longs c + 8 * length c.entries) % 2 ^ 32) ≡ some memory
    → (bytes : List ℕ) × (serialize2 malloc c ≡ some bytes) × (wrap sh bytes ≡ ok (of_compact c))
unfolding serialize2
wrap-serialize2 sh c malloc memory is full given =
    (written c memory, rw (serialize2, given), wrap-written sh c memory is full)
