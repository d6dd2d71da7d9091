-- ===== src/Packing/PackTo8.antt =====
-- `pack_bits_5` to `pack_bits_8` of theta-sketch/bit_packing.hpp, statement by statement.
use singlestoredb_extension.Base.{[], ◌∷◌}
use singlestoredb_extension.Packing.Code.{PackCode, assign, left, right}

abbrev pub pack_bits_5 : PackCode
pack_bits_5 =
    assign (left 0 3 ∷ right 1 2 ∷ [])
    ∷ assign (left 1 6 ∷ left 2 1 ∷ right 3 4 ∷ [])
    ∷ assign (left 3 4 ∷ right 4 1 ∷ [])
    ∷ assign (left 4 7 ∷ left 5 2 ∷ right 6 3 ∷ [])
    ∷ assign (left 6 5 ∷ right 7 0 ∷ [])
    ∷ []

abbrev pub pack_bits_6 : PackCode
pack_bits_6 =
    assign (left 0 2 ∷ right 1 4 ∷ [])
    ∷ assign (left 1 4 ∷ right 2 2 ∷ [])
    ∷ assign (left 2 6 ∷ right 3 0 ∷ [])
    ∷ assign (left 4 2 ∷ right 5 4 ∷ [])
    ∷ assign (left 5 4 ∷ right 6 2 ∷ [])
    ∷ assign (left 6 6 ∷ right 7 0 ∷ [])
    ∷ []

abbrev pub pack_bits_7 : PackCode
pack_bits_7 =
    assign (left 0 1 ∷ right 1 6 ∷ [])
    ∷ assign (left 1 2 ∷ right 2 5 ∷ [])
    ∷ assign (left 2 3 ∷ right 3 4 ∷ [])
    ∷ assign (left 3 4 ∷ right 4 3 ∷ [])
    ∷ assign (left 4 5 ∷ right 5 2 ∷ [])
    ∷ assign (left 5 6 ∷ right 6 1 ∷ [])
    ∷ assign (left 6 7 ∷ right 7 0 ∷ [])
    ∷ []

abbrev pub pack_bits_8 : PackCode
pack_bits_8 =
    assign (right 0 0 ∷ [])
    ∷ assign (right 1 0 ∷ [])
    ∷ assign (right 2 0 ∷ [])
    ∷ assign (right 3 0 ∷ [])
    ∷ assign (right 4 0 ∷ [])
    ∷ assign (right 5 0 ∷ [])
    ∷ assign (right 6 0 ∷ [])
    ∷ assign (right 7 0 ∷ [])
    ∷ []
