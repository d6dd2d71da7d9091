-- ===== src/Tests/Sketches.antt =====
-- A compact sketch for the tests.
use singlestoredb_extension.Base.{refl, false, [], ◌∷◌, arith}
use singlestoredb_extension.Sketch.{CompactSketch, of_compact}
use singlestoredb_extension.Sketch.Sample.{set_of, IsSketchOf, IsCompactOf}
use singlestoredb_extension.Sketch.Compact.{of_compact-IsSketchOf}

-- A compact sketch in estimation mode: 40 is at theta, so it is not kept.
abbrev pub few : CompactSketch
few = record {
  is_empty = false;
  is_ordered = false;
  seed_hash = 9001;
  theta = 40;
  entries = 37 ∷ 5 ∷ [];
}

pub few-IsCompactOf : IsCompactOf (set_of (37 ∷ 5 ∷ 40 ∷ [])) few
few-IsCompactOf = record {
  no_zero = refl;
  samples = λ k nz. ground arith;
  sorted = λ e. cc;
  void = λ e. cc;
  bounded = omega arith;
}

pub few-IsSketchOf : IsSketchOf (set_of (37 ∷ 5 ∷ 40 ∷ [])) (of_compact few)
few-IsSketchOf = of_compact-IsSketchOf few-IsCompactOf
