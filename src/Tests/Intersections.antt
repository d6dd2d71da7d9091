-- ===== src/Tests/Intersections.antt =====
-- An intersection at concrete sketches.
use singlestoredb_extension.Base.{
  ◌≡◌, ◌⊎◌, refl, true, false, [], ◌∷◌, stop, invalid_arg, Returns, arith, replicate,
}
use singlestoredb_extension.Base.Counts.{count-zeros}
use singlestoredb_extension.LgSize.{lg_size_from_count, Fits, lg_size_from_count-Fits}
use singlestoredb_extension.Table.{table_code}
use singlestoredb_extension.Sketch.{of_compact, of_table}
use singlestoredb_extension.Sketch.Sample.{set_of, IsCompactOf}
use singlestoredb_extension.Intersection.{Intersection, update, get_result}
use singlestoredb_extension.Intersection.Load.{both_sets}
use singlestoredb_extension.Intersection.Steps.{IsIntersectionOf, IsValidOf}
use singlestoredb_extension.Intersection.Update.{update-IsIntersectionOf}
use singlestoredb_extension.Intersection.Result.{get_result-IsCompactOf}
use singlestoredb_extension.Intersection.Streams.{intersect_streams, intersect_streams-IsCompactOf}
use singlestoredb_extension.Tests.{seed_code, small, small-IsBuilder, small-bounded}
use singlestoredb_extension.SetDifference.{compute}
use singlestoredb_extension.SetDifference.Compute.{minus_set, compute-IsCompactOf}
use singlestoredb_extension.Sketch.Streams.{of_table-IsSketchOf}
use singlestoredb_extension.Tests.Streams.{two_keys-Retains}
use singlestoredb_extension.Tests.Tables.{two_table, two_keys-Joined, first_stream}
use singlestoredb_extension.Tests.Sketches.{few, few-IsSketchOf}

lg_size_from_count-Fits_example : Fits 31 (lg_size_from_count 31)
lg_size_from_count-Fits_example = lg_size_from_count-Fits 31 (omega arith) (omega arith)

-- An intersection that has taken the first stream.
abbrev first_intersection : Intersection
first_intersection = record { is_valid = true; table = two_table }

first_intersection-IsIntersectionOf : IsIntersectionOf 9001 (set_of first_stream) first_intersection
unfolding replicate
first_intersection-IsIntersectionOf = record {
  seed_same = refl;
  bounded = omega arith;
  void = λ e. cc;
  fresh = λ e. cc;
  holds = λ _. record {
    samples = λ k nz. ground (arith, two_keys-Joined.counts k nz, count-zeros k 32 nz);
    number = refl;
    room = λ _. record {
      placed = two_keys-Joined.placed;
      filled = refl;
      room = unfold table_code in omega arith;
      spare = unfold table_code in omega arith;
    };
  };
}

update-IsIntersectionOf_example :
    Returns
      (update seed_code first_intersection (of_compact few))
      (IsValidOf 9001 (both_sets (set_of first_stream) (set_of (37 ∷ 5 ∷ 40 ∷ []))))
update-IsIntersectionOf_example =
    update-IsIntersectionOf first_intersection-IsIntersectionOf few-IsSketchOf seed_code
      (unfold of_compact in omega arith) (λ e. unfold of_compact in refl)

get_result-IsCompactOf_example :
    (first_intersection.is_valid ≡ false)
      × (get_result seed_code first_intersection true ≡ stop invalid_arg)
    ⊎ (first_intersection.is_valid ≡ true)
      × Returns (get_result seed_code first_intersection true) (IsCompactOf (set_of first_stream))
get_result-IsCompactOf_example =
    get_result-IsCompactOf seed_code true first_intersection-IsIntersectionOf

intersect_streams-IsCompactOf_example :
    Returns
      (intersect_streams seed_code small true first_stream (37 ∷ 5 ∷ []))
      (IsCompactOf (both_sets (set_of first_stream) (set_of (37 ∷ 5 ∷ []))))
intersect_streams-IsCompactOf_example =
    intersect_streams-IsCompactOf seed_code small true first_stream (37 ∷ 5 ∷ []) small-IsBuilder
      small-bounded

compute-IsCompactOf_example :
    Returns
      (compute (seed_code 9001) (of_table seed_code two_table) (of_compact few) true)
      (IsCompactOf (minus_set (set_of first_stream) (set_of (37 ∷ 5 ∷ 40 ∷ []))))
compute-IsCompactOf_example =
    compute-IsCompactOf (seed_code 9001) true
      (of_table-IsSketchOf two_keys-Retains small-bounded seed_code) few-IsSketchOf
      (unfold of_table in refl) (unfold of_compact in refl) (unfold of_compact in omega arith)
