-- ===== src/Packing/PackTo12.antt =====
-- `pack_bits_9` to `pack_bits_12` of theta-sketch/bit_packing.hpp, statement by statement.
use singlestoredb_extension.Base.{[], ◌∷◌}
use singlestoredb_extension.Packing.Code.{PackCode, assign, left, right}

abbrev pub pack_bits_9 : PackCode
pack_bits_9 =
    assign (right 0 1 ∷ [])
    ∷ assign (left 0 7 ∷ right 1 2 ∷ [])
    ∷ assign (left 1 6 ∷ right 2 3 ∷ [])
    ∷ assign (left 2 5 ∷ right 3 4 ∷ [])
    ∷ assign (left 3 4 ∷ right 4 5 ∷ [])
    ∷ assign (left 4 3 ∷ right 5 6 ∷ [])
    ∷ assign (left 5 2 ∷ right 6 7 ∷ [])
    ∷ assign (left 6 1 ∷ right 7 8 ∷ [])
    ∷ assign (right 7 0 ∷ [])
    ∷ []

abbrev pub pack_bits_10 : PackCode
pack_bits_10 =
    assign (right 0 2 ∷ [])
    ∷ assign (left 0 6 ∷ right 1 4 ∷ [])
    ∷ assign (left 1 4 ∷ right 2 6 ∷ [])
    ∷ assign (left 2 2 ∷ right 3 8 ∷ [])
    ∷ assign (right 3 0 ∷ [])
    ∷ assign (right 4 2 ∷ [])
    ∷ assign (left 4 6 ∷ right 5 4 ∷ [])
    ∷ assign (left 5 4 ∷ right 6 6 ∷ [])
    ∷ assign (left 6 2 ∷ right 7 8 ∷ [])
    ∷ assign (right 7 0 ∷ [])
    ∷ []

abbrev pub pack_bits_11 : PackCode
pack_bits_11 =
    assign (right 0 3 ∷ [])
    ∷ assign (left 0 5 ∷ right 1 6 ∷ [])
    ∷ assign (left 1 2 ∷ right 2 9 ∷ [])
    ∷ assign (right 2 1 ∷ [])
    ∷ assign (left 2 7 ∷ right 3 4 ∷ [])
    ∷ assign (left 3 4 ∷ right 4 7 ∷ [])
    ∷ assign (left 4 1 ∷ right 5 10 ∷ [])
    ∷ assign (right 5 2 ∷ [])
    ∷ assign (left 5 6 ∷ right 6 5 ∷ [])
    ∷ assign (left 6 3 ∷ right 7 8 ∷ [])
    ∷ assign (right 7 0 ∷ [])
    ∷ []

abbrev pub pack_bits_12 : PackCode
pack_bits_12 =
    assign (right 0 4 ∷ [])
    ∷ assign (left 0 4 ∷ right 1 8 ∷ [])
    ∷ assign (right 1 0 ∷ [])
    ∷ assign (right 2 4 ∷ [])
    ∷ assign (left 2 4 ∷ right 3 8 ∷ [])
    ∷ assign (right 3 0 ∷ [])
    ∷ assign (right 4 4 ∷ [])
    ∷ assign (left 4 4 ∷ right 5 8 ∷ [])
    ∷ assign (right 5 0 ∷ [])
    ∷ assign (right 6 4 ∷ [])
    ∷ assign (left 6 4 ∷ right 7 8 ∷ [])
    ∷ assign (right 7 0 ∷ [])
    ∷ []
