-- ===== src/Serial/Seeds.antt =====
-- Reading a serialized compact sketch under a seed other than its own.
use singlestoredb_extension.Base.{
  ℕ, ◌≡◌, ◌≢◌, refl, Bool, true, false, List, ok, stop, invalid_arg, if◌then◌else◌,
}
use singlestoredb_extension.Sketch.{CompactSketch, make_compact}
use singlestoredb_extension.Serial.{written, deserialize, data_entries, read_entries}
use singlestoredb_extension.Serial.RoundTrip.{
  IsSerial, of_parts, parse-written_empty, parse-written_other,
}

other_seed-parts :
    (sh : ℕ) (is_empty is_ordered : Bool) (seed theta : ℕ) (entries memory : List ℕ)
    → let c = of_parts is_empty is_ordered seed theta entries in
      IsSerial seed c
      → seed ≢ sh
      → deserialize sh (written c memory) ≡ (if is_empty then ok c else stop invalid_arg)
unfolding deserialize data_entries read_entries make_compact written
other_seed-parts sh true is_ordered seed theta entries memory is ne =
    let bare = is.bare refl in
    rw (
      bare.2,
      parse-written_empty seed theta entries memory is.seed_small sh bare.1 bare.0,
      bare.1,
      bare.0,
    )
other_seed-parts sh false is_ordered seed theta entries memory is ne =
    rw (parse-written_other seed theta entries memory is.seed_small sh is_ordered ne)

-- Where another seed hash is expected than that of the sketch that was serialized, `deserialize`
-- stops with an invalid argument if the sketch has entries or is in estimation mode, that is, if it
-- is not empty; an empty sketch is read as it was.
pub deserialize-other_seed :
    (sh : ℕ) (c : CompactSketch) (memory : List ℕ)
    → IsSerial c.seed_hash c
    → c.seed_hash ≢ sh
    → deserialize sh (written c memory) ≡ (if c.is_empty then ok c else stop invalid_arg)
deserialize-other_seed sh c memory is ne =
    other_seed-parts sh c.is_empty c.is_ordered c.seed_hash c.theta c.entries memory is ne
