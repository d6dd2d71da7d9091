-- ===== src/Packing/PackTo4.antt =====
-- `pack_bits_1` to `pack_bits_4` of theta-sketch/bit_packing.hpp, statement by statement.
use singlestoredb_extension.Base.{[], ◌∷◌}
use singlestoredb_extension.Packing.Code.{PackCode, assign, left, right}

abbrev pub pack_bits_1 : PackCode
pack_bits_1 =
    assign
      (left 0 7 ∷ left 1 6 ∷ left 2 5 ∷ left 3 4 ∷ left 4 3 ∷ left 5 2 ∷ left 6 1 ∷ right 7 0 ∷ [])
    ∷ []

abbrev pub pack_bits_2 : PackCode
pack_bits_2 =
    assign (left 0 6 ∷ left 1 4 ∷ left 2 2 ∷ right 3 0 ∷ [])
    ∷ assign (left 4 6 ∷ left 5 4 ∷ left 6 2 ∷ right 7 0 ∷ [])
    ∷ []

abbrev pub pack_bits_3 : PackCode
pack_bits_3 =
    assign (left 0 5 ∷ left 1 2 ∷ right 2 1 ∷ [])
    ∷ assign (left 2 7 ∷ left 3 4 ∷ left 4 1 ∷ right 5 2 ∷ [])
    ∷ assign (left 5 6 ∷ left 6 3 ∷ right 7 0 ∷ [])
    ∷ []

abbrev pub pack_bits_4 : PackCode
pack_bits_4 =
    assign (left 0 4 ∷ right 1 0 ∷ [])
    ∷ assign (left 2 4 ∷ right 3 0 ∷ [])
    ∷ assign (left 4 4 ∷ right 5 0 ∷ [])
    ∷ assign (left 6 4 ∷ right 7 0 ∷ [])
    ∷ []
