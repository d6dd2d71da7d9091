-- ===== src/Tests/Probes.antt =====
-- `find` and `consolidate_non_empty` at an array with a collision.
use singlestoredb_extension.Base.{
  ℕ, ◌≡◌, ◌≢◌, ◌⊎◌, refl, Bool, ok, stop, out_of_fuel, arith, replicate,
}
use singlestoredb_extension.Table.{find, consolidate_non_empty}
use singlestoredb_extension.Table.Orbit.{find-ends, find_total}
use singlestoredb_extension.Table.Place.{Hit, Miss, find-cases}
use singlestoredb_extension.Table.Consolidate.{Fronted, consolidate-Fronted}
use singlestoredb_extension.Tests.Tables.{two_keys, two_keys-Joined}

find-ends_example : find two_keys 5 37 ≢ stop out_of_fuel
unfolding replicate
find-ends_example = find-ends two_keys 5 37 refl (omega arith)

find_total_example : (r : ℕ × Bool) × (find two_keys 5 37 ≡ ok r)
unfolding replicate
find_total_example = find_total two_keys 5 37 refl (omega arith) (omega arith)

find-cases_example : Hit 5 two_keys 69 ⊎ Miss 5 two_keys 69
unfolding replicate
find-cases_example = find-cases two_keys-Joined.placed 69 (omega arith) (omega arith)

consolidate-Fronted_example : Fronted 2 two_keys (consolidate_non_empty two_keys 32 2)
unfolding replicate
consolidate-Fronted_example = consolidate-Fronted two_keys 32 2 refl refl (omega arith)
