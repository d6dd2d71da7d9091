-- ===== src/Tests/Serials.antt =====
-- Serialized sketches of three numbers, and the properties at them.
use singlestoredb_extension.Base.{
  ℕ, ◌+◌, ◌*◌, ◌^◌, ◌%◌, ◌≡◌, refl, true, false, List, [], ◌∷◌, Option, some, ok, stop, invalid_arg,
  arith, length, replicate,
}
use singlestoredb_extension.Sketch.{CompactSketch, of_compact}
use singlestoredb_extension.Serial.{written, serialize2, deserialize, wrap, preamble_longs}
use singlestoredb_extension.Serial.RoundTrip.{IsSerial, deserialize-serialize2, wrap-serialize2}
use singlestoredb_extension.Serial.Seeds.{deserialize-other_seed}

abbrev three : CompactSketch
three = record {
  is_empty = false;
  is_ordered = true;
  seed_hash = 37836;
  theta = 2 ^ 62;
  entries = 5 ∷ 700 ∷ 123456789012 ∷ [];
}

three-IsSerial : IsSerial 37836 three
three-IsSerial = record {
  seed = refl;
  seed_small = omega arith;
  theta_small = omega arith;
  words = (omega arith, (omega arith, (omega arith, tt)));
  few = omega arith;
  short_ordered = λ few. refl;
  bare = λ empty. cc;
}

-- Memory full of the same byte.
abbrev stale : ℕ → Option (List ℕ)
stale size = some (replicate size 171)

deserialize-serialize2_example :
    (bytes : List ℕ) × (serialize2 stale three ≡ some bytes)
    × (length bytes ≡ (8 * preamble_longs three + 8 * length three.entries) % 2 ^ 32)
    × (deserialize 37836 bytes ≡ ok three)
deserialize-serialize2_example =
    deserialize-serialize2 37836 three stale (replicate 48 171) three-IsSerial refl

wrap-serialize2_example :
    (bytes : List ℕ) × (serialize2 stale three ≡ some bytes)
    × (wrap 37836 bytes ≡ ok (of_compact three))
wrap-serialize2_example =
    wrap-serialize2 37836 three stale (replicate 48 171) three-IsSerial refl refl

deserialize-other_seed_example : deserialize 1 (written three (replicate 48 171)) ≡ stop invalid_arg
deserialize-other_seed_example =
    deserialize-other_seed 1 three (replicate 48 171) three-IsSerial (omega arith)
