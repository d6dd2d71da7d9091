-- ===== src/Tests/Streams.antt =====
-- Sketches and unions at concrete streams.
use singlestoredb_extension.Base.{
  ℕ, ◌^◌, ◌≤◌, ◌<◌, ◌≡◌, ◌≢◌, ◌⊎◌, inl, if◌then◌else◌, ◌↔◌, refl, true, false, List, [], ◌∷◌, ◌++◌,
  ok, stop, invalid_arg, Returns, arith, length,
}
use singlestoredb_extension.Base.Counts.{count-zeros}
use singlestoredb_extension.Table.{max_theta}
use singlestoredb_extension.UpdateSketch.{
  default_builder, set_lg_k, update_all, build as build_sketch,
}
use singlestoredb_extension.UpdateSketch.Build.{IsBuilder, set_lg_k-IsBuilder}
use singlestoredb_extension.UpdateSketch.Retains.{Retains, is_nil, update_all-Retains}
use singlestoredb_extension.Sketch.{compact, of_compact, copy_compact, make_compact}
use singlestoredb_extension.Sketch.Sample.{set_of, IsCompactOf}
use singlestoredb_extension.Sketch.Compact.{copy_compact-IsCompactOf}
use singlestoredb_extension.Sketch.Streams.{compact-IsCompactOf, compact_full}
use singlestoredb_extension.Union.{Union, build, update, get_result, reset}
use singlestoredb_extension.Union.Merge.{union_set}
use singlestoredb_extension.Union.Update.{IsUnionOf, update-IsUnionOf, update-refuses}
use singlestoredb_extension.Union.Result.{IsResultOf, get_result-IsResultOf}
use singlestoredb_extension.Union.Start.{IsNew, build-IsNew, reset-build}
use singlestoredb_extension.Union.Streams.{union_streams, union_streams-IsCompactOf}
use singlestoredb_extension.Union.Full.{union_streams_full}
use singlestoredb_extension.Tests.{small, small-IsBuilder, small-bounded, seed_code}
use singlestoredb_extension.Tests.Sketches.{few, few-IsSketchOf}
use singlestoredb_extension.Tests.Tables.{
  first_stream, two_table, two_table-IsTable, two_keys-Joined,
}

abbrev second_stream : List ℕ
second_stream = 37 ∷ 5 ∷ []

union_streams-IsCompactOf_example :
    Returns (union_streams seed_code small true first_stream second_stream) (λ c.
      IsCompactOf (set_of (first_stream ++ second_stream)) c × (length c.entries ≤ 2 ^ small.lg_k))
union_streams-IsCompactOf_example =
    union_streams-IsCompactOf seed_code small-IsBuilder small-bounded true first_stream
      second_stream

union_streams_full_example :
    Returns (union_streams seed_code small true first_stream second_stream) (λ c.
      IsCompactOf (set_of (first_stream ++ second_stream)) c
      × ((small.p_theta ≤ c.theta) ⊎ (2 ^ small.lg_k ≤ length c.entries)))
union_streams_full_example =
    union_streams_full seed_code small-IsBuilder small-bounded true first_stream second_stream

update_all-Retains_example :
    Returns (update_all (build_sketch small) first_stream) (Retains small first_stream)
update_all-Retains_example = update_all-Retains small first_stream small-IsBuilder

set_lg_k-IsBuilder_example :
    (Returns (set_lg_k default_builder 27) (λ b'. IsBuilder b' × (b'.lg_k ≡ 27))
      × (5 ≤ 27)
      × (27 ≤ 26))
    ⊎ (set_lg_k default_builder 27 ≡ stop invalid_arg) × (27 < 5 ⊎ (26 < 27))
set_lg_k-IsBuilder_example = set_lg_k-IsBuilder default_builder 27 (omega arith)

-- The sketch of the first stream.
pub two_keys-Retains : Retains small first_stream two_table
two_keys-Retains = record {
  table = two_table-IsTable;
  flag = refl;
  lowers = omega arith;
  seed = refl;
  nominal = refl;
  size = inl refl;
  counts = λ k nz. ground (arith, two_keys-Joined.counts k nz, count-zeros k 32 nz);
}

compact-IsCompactOf_example : IsCompactOf (set_of first_stream) (compact seed_code two_table true)
compact-IsCompactOf_example = compact-IsCompactOf two_keys-Retains small-bounded seed_code true

compact_full_example :
    ((compact seed_code two_table true).theta
      ≡ (if is_nil first_stream then max_theta else small.p_theta))
    ⊎ (2 ^ small.lg_k ≤ length (compact seed_code two_table true).entries)
compact_full_example = compact_full two_keys-Retains small-bounded seed_code true

copy_compact-IsCompactOf_example :
    IsCompactOf (set_of (37 ∷ 5 ∷ 40 ∷ [])) (copy_compact (of_compact few) true)
copy_compact-IsCompactOf_example = copy_compact-IsCompactOf true few-IsSketchOf

-- A union that has taken the first stream.
abbrev first_union : Union
first_union = record { table = two_table; union_theta = max_theta }

first_union-IsUnionOf : IsUnionOf small (set_of first_stream) first_union
first_union-IsUnionOf = record {
  settings = record { seed = refl; nominal = refl; rf = refl; p_theta = refl };
  merges = record {
    table = two_table-IsTable;
    counts = λ k nz lt₁ lt₂. ground (arith, two_keys-Joined.counts k nz, count-zeros k 32 nz);
  };
  lowest = omega arith;
  bounded = omega arith;
  void = λ e. cc;
}

update-IsUnionOf_example :
    Returns
      (update seed_code first_union (of_compact few))
      (IsUnionOf small (union_set (set_of first_stream) (set_of (37 ∷ 5 ∷ 40 ∷ []))))
update-IsUnionOf_example =
    update-IsUnionOf first_union-IsUnionOf few-IsSketchOf seed_code (λ e. unfold of_compact in refl)

update-refuses_example :
    (update (λ seed. 7) first_union (of_compact few) ≡ stop invalid_arg)
    ↔ ((of_compact few).is_empty ≡ false) × ((of_compact few).seed_hash ≢ 7)
update-refuses_example = update-refuses first_union-IsUnionOf few-IsSketchOf (λ seed. 7)

get_result-IsResultOf_example :
    Returns
      (get_result seed_code first_union true)
      (IsResultOf (set_of first_stream) true first_union)
get_result-IsResultOf_example = get_result-IsResultOf seed_code first_union-IsUnionOf true

build-IsNew_example :
    IsNew small (build small)
    × (get_result seed_code (build small) true
        ≡ ok (make_compact true true (seed_code small.seed) small.p_theta []))
build-IsNew_example = build-IsNew small small-IsBuilder small-bounded seed_code true

reset-build_example : reset first_union ≡ ok (build small)
reset-build_example = reset-build first_union-IsUnionOf small-IsBuilder
