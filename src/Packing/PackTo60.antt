-- ===== src/Packing/PackTo60.antt =====
-- `pack_bits_57` to `pack_bits_60` of theta-sketch/bit_packing.hpp, statement by statement.
use singlestoredb_extension.Base.{[], ◌∷◌}
use singlestoredb_extension.Packing.Code.{PackCode, assign, left, right}

abbrev pub pack_bits_57 : PackCode
pack_bits_57 =
    assign (right 0 49 ∷ [])
    ∷ assign (right 0 41 ∷ [])
    ∷ assign (right 0 33 ∷ [])
    ∷ assign (right 0 25 ∷ [])
    ∷ assign (right 0 17 ∷ [])
    ∷ assign (right 0 9 ∷ [])
    ∷ assign (right 0 1 ∷ [])
    ∷ assign (left 0 7 ∷ right 1 50 ∷ [])
    ∷ assign (right 1 42 ∷ [])
    ∷ assign (right 1 34 ∷ [])
    ∷ assign (right 1 26 ∷ [])
    ∷ assign (right 1 18 ∷ [])
    ∷ assign (right 1 10 ∷ [])
    ∷ assign (right 1 2 ∷ [])
    ∷ assign (left 1 6 ∷ right 2 51 ∷ [])
    ∷ assign (right 2 43 ∷ [])
    ∷ assign (right 2 35 ∷ [])
    ∷ assign (right 2 27 ∷ [])
    ∷ assign (right 2 19 ∷ [])
    ∷ assign (right 2 11 ∷ [])
    ∷ assign (right 2 3 ∷ [])
    ∷ assign (left 2 5 ∷ right 3 52 ∷ [])
    ∷ assign (right 3 44 ∷ [])
    ∷ assign (right 3 36 ∷ [])
    ∷ assign (right 3 28 ∷ [])
    ∷ assign (right 3 20 ∷ [])
    ∷ assign (right 3 12 ∷ [])
    ∷ assign (right 3 4 ∷ [])
    ∷ assign (left 3 4 ∷ right 4 53 ∷ [])
    ∷ assign (right 4 45 ∷ [])
    ∷ assign (right 4 37 ∷ [])
    ∷ assign (right 4 29 ∷ [])
    ∷ assign (right 4 21 ∷ [])
    ∷ assign (right 4 13 ∷ [])
    ∷ assign (right 4 5 ∷ [])
    ∷ assign (left 4 3 ∷ right 5 54 ∷ [])
    ∷ assign (right 5 46 ∷ [])
    ∷ assign (right 5 38 ∷ [])
    ∷ assign (right 5 30 ∷ [])
    ∷ assign (right 5 22 ∷ [])
    ∷ assign (right 5 14 ∷ [])
    ∷ assign (right 5 6 ∷ [])
    ∷ assign (left 5 2 ∷ right 6 55 ∷ [])
    ∷ assign (right 6 47 ∷ [])
    ∷ assign (right 6 39 ∷ [])
    ∷ assign (right 6 31 ∷ [])
    ∷ assign (right 6 23 ∷ [])
    ∷ assign (right 6 15 ∷ [])
    ∷ assign (right 6 7 ∷ [])
    ∷ assign (left 6 1 ∷ right 7 56 ∷ [])
    ∷ assign (right 7 48 ∷ [])
    ∷ assign (right 7 40 ∷ [])
    ∷ assign (right 7 32 ∷ [])
    ∷ assign (right 7 24 ∷ [])
    ∷ assign (right 7 16 ∷ [])
    ∷ assign (right 7 8 ∷ [])
    ∷ assign (right 7 0 ∷ [])
    ∷ []

abbrev pub pack_bits_58 : PackCode
pack_bits_58 =
    assign (right 0 50 ∷ [])
    ∷ assign (right 0 42 ∷ [])
    ∷ assign (right 0 34 ∷ [])
    ∷ assign (right 0 26 ∷ [])
    ∷ assign (right 0 18 ∷ [])
    ∷ assign (right 0 10 ∷ [])
    ∷ assign (right 0 2 ∷ [])
    ∷ assign (left 0 6 ∷ right 1 52 ∷ [])
    ∷ assign (right 1 44 ∷ [])
    ∷ assign (right 1 36 ∷ [])
    ∷ assign (right 1 28 ∷ [])
    ∷ assign (right 1 20 ∷ [])
    ∷ assign (right 1 12 ∷ [])
    ∷ assign (right 1 4 ∷ [])
    ∷ assign (left 1 4 ∷ right 2 54 ∷ [])
    ∷ assign (right 2 46 ∷ [])
    ∷ assign (right 2 38 ∷ [])
    ∷ assign (right 2 30 ∷ [])
    ∷ assign (right 2 22 ∷ [])
    ∷ assign (right 2 14 ∷ [])
    ∷ assign (right 2 6 ∷ [])
    ∷ assign (left 2 2 ∷ right 3 56 ∷ [])
    ∷ assign (right 3 48 ∷ [])
    ∷ assign (right 3 40 ∷ [])
    ∷ assign (right 3 32 ∷ [])
    ∷ assign (right 3 24 ∷ [])
    ∷ assign (right 3 16 ∷ [])
    ∷ assign (right 3 8 ∷ [])
    ∷ assign (right 3 0 ∷ [])
    ∷ assign (right 4 50 ∷ [])
    ∷ assign (right 4 42 ∷ [])
    ∷ assign (right 4 34 ∷ [])
    ∷ assign (right 4 26 ∷ [])
    ∷ assign (right 4 18 ∷ [])
    ∷ assign (right 4 10 ∷ [])
    ∷ assign (right 4 2 ∷ [])
    ∷ assign (left 4 6 ∷ right 5 52 ∷ [])
    ∷ assign (right 5 44 ∷ [])
    ∷ assign (right 5 36 ∷ [])
    ∷ assign (right 5 28 ∷ [])
    ∷ assign (right 5 20 ∷ [])
    ∷ assign (right 5 12 ∷ [])
    ∷ assign (right 5 4 ∷ [])
    ∷ assign (left 5 4 ∷ right 6 54 ∷ [])
    ∷ assign (right 6 46 ∷ [])
    ∷ assign (right 6 38 ∷ [])
    ∷ assign (right 6 30 ∷ [])
    ∷ assign (right 6 22 ∷ [])
    ∷ assign (right 6 14 ∷ [])
    ∷ assign (right 6 6 ∷ [])
    ∷ assign (left 6 2 ∷ right 7 56 ∷ [])
    ∷ assign (right 7 48 ∷ [])
    ∷ assign (right 7 40 ∷ [])
    ∷ assign (right 7 32 ∷ [])
    ∷ assign (right 7 24 ∷ [])
    ∷ assign (right 7 16 ∷ [])
    ∷ assign (right 7 8 ∷ [])
    ∷ assign (right 7 0 ∷ [])
    ∷ []

abbrev pub pack_bits_59 : PackCode
pack_bits_59 =
    assign (right 0 51 ∷ [])
    ∷ assign (right 0 43 ∷ [])
    ∷ assign (right 0 35 ∷ [])
    ∷ assign (right 0 27 ∷ [])
    ∷ assign (right 0 19 ∷ [])
    ∷ assign (right 0 11 ∷ [])
    ∷ assign (right 0 3 ∷ [])
    ∷ assign (left 0 5 ∷ right 1 54 ∷ [])
    ∷ assign (right 1 46 ∷ [])
    ∷ assign (right 1 38 ∷ [])
    ∷ assign (right 1 30 ∷ [])
    ∷ assign (right 1 22 ∷ [])
    ∷ assign (right 1 14 ∷ [])
    ∷ assign (right 1 6 ∷ [])
    ∷ assign (left 1 2 ∷ right 2 57 ∷ [])
    ∷ assign (right 2 49 ∷ [])
    ∷ assign (right 2 41 ∷ [])
    ∷ assign (right 2 33 ∷ [])
    ∷ assign (right 2 25 ∷ [])
    ∷ assign (right 2 17 ∷ [])
    ∷ assign (right 2 9 ∷ [])
    ∷ assign (right 2 1 ∷ [])
    ∷ assign (left 2 7 ∷ right 3 52 ∷ [])
    ∷ assign (right 3 44 ∷ [])
    ∷ assign (right 3 36 ∷ [])
    ∷ assign (right 3 28 ∷ [])
    ∷ assign (right 3 20 ∷ [])
    ∷ assign (right 3 12 ∷ [])
    ∷ assign (right 3 4 ∷ [])
    ∷ assign (left 3 4 ∷ right 4 55 ∷ [])
    ∷ assign (right 4 47 ∷ [])
    ∷ assign (right 4 39 ∷ [])
    ∷ assign (right 4 31 ∷ [])
    ∷ assign (right 4 23 ∷ [])
    ∷ assign (right 4 15 ∷ [])
    ∷ assign (right 4 7 ∷ [])
    ∷ assign (left 4 1 ∷ right 5 58 ∷ [])
    ∷ assign (right 5 50 ∷ [])
    ∷ assign (right 5 42 ∷ [])
    ∷ assign (right 5 34 ∷ [])
    ∷ assign (right 5 26 ∷ [])
    ∷ assign (right 5 18 ∷ [])
    ∷ assign (right 5 10 ∷ [])
    ∷ assign (right 5 2 ∷ [])
    ∷ assign (left 5 6 ∷ right 6 53 ∷ [])
    ∷ assign (right 6 45 ∷ [])
    ∷ assign (right 6 37 ∷ [])
    ∷ assign (right 6 29 ∷ [])
    ∷ assign (right 6 21 ∷ [])
    ∷ assign (right 6 13 ∷ [])
    ∷ assign (right 6 5 ∷ [])
    ∷ assign (left 6 3 ∷ right 7 56 ∷ [])
    ∷ assign (right 7 48 ∷ [])
    ∷ assign (right 7 40 ∷ [])
    ∷ assign (right 7 32 ∷ [])
    ∷ assign (right 7 24 ∷ [])
    ∷ assign (right 7 16 ∷ [])
    ∷ assign (right 7 8 ∷ [])
    ∷ assign (right 7 0 ∷ [])
    ∷ []

abbrev pub pack_bits_60 : PackCode
pack_bits_60 =
    assign (right 0 52 ∷ [])
    ∷ assign (right 0 44 ∷ [])
    ∷ assign (right 0 36 ∷ [])
    ∷ assign (right 0 28 ∷ [])
    ∷ assign (right 0 20 ∷ [])
    ∷ assign (right 0 12 ∷ [])
    ∷ assign (right 0 4 ∷ [])
    ∷ assign (left 0 4 ∷ right 1 56 ∷ [])
    ∷ assign (right 1 48 ∷ [])
    ∷ assign (right 1 40 ∷ [])
    ∷ assign (right 1 32 ∷ [])
    ∷ assign (right 1 24 ∷ [])
    ∷ assign (right 1 16 ∷ [])
    ∷ assign (right 1 8 ∷ [])
    ∷ assign (right 1 0 ∷ [])
    ∷ assign (right 2 52 ∷ [])
    ∷ assign (right 2 44 ∷ [])
    ∷ assign (right 2 36 ∷ [])
    ∷ assign (right 2 28 ∷ [])
    ∷ assign (right 2 20 ∷ [])
    ∷ assign (right 2 12 ∷ [])
    ∷ assign (right 2 4 ∷ [])
    ∷ assign (left 2 4 ∷ right 3 56 ∷ [])
    ∷ assign (right 3 48 ∷ [])
    ∷ assign (right 3 40 ∷ [])
    ∷ assign (right 3 32 ∷ [])
    ∷ assign (right 3 24 ∷ [])
    ∷ assign (right 3 16 ∷ [])
    ∷ assign (right 3 8 ∷ [])
    ∷ assign (right 3 0 ∷ [])
    ∷ assign (right 4 52 ∷ [])
    ∷ assign (right 4 44 ∷ [])
    ∷ assign (right 4 36 ∷ [])
    ∷ assign (right 4 28 ∷ [])
    ∷ assign (right 4 20 ∷ [])
    ∷ assign (right 4 12 ∷ [])
    ∷ assign (right 4 4 ∷ [])
    ∷ assign (left 4 4 ∷ right 5 56 ∷ [])
    ∷ assign (right 5 48 ∷ [])
    ∷ assign (right 5 40 ∷ [])
    ∷ assign (right 5 32 ∷ [])
    ∷ assign (right 5 24 ∷ [])
    ∷ assign (right 5 16 ∷ [])
    ∷ assign (right 5 8 ∷ [])
    ∷ assign (right 5 0 ∷ [])
    ∷ assign (right 6 52 ∷ [])
    ∷ assign (right 6 44 ∷ [])
    ∷ assign (right 6 36 ∷ [])
    ∷ assign (right 6 28 ∷ [])
    ∷ assign (right 6 20 ∷ [])
    ∷ assign (right 6 12 ∷ [])
    ∷ assign (right 6 4 ∷ [])
    ∷ assign (left 6 4 ∷ right 7 56 ∷ [])
    ∷ assign (right 7 48 ∷ [])
    ∷ assign (right 7 40 ∷ [])
    ∷ assign (right 7 32 ∷ [])
    ∷ assign (right 7 24 ∷ [])
    ∷ assign (right 7 16 ∷ [])
    ∷ assign (right 7 8 ∷ [])
    ∷ assign (right 7 0 ∷ [])
    ∷ []
