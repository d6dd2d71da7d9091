-- ===== src/Packing/PackTo56.antt =====
-- `pack_bits_53` to `pack_bits_56` of theta-sketch/bit_packing.hpp, statement by statement.
use singlestoredb_extension.Base.{[], ◌∷◌}
use singlestoredb_extension.Packing.Code.{PackCode, assign, left, right}

abbrev pub pack_bits_53 : PackCode
pack_bits_53 =
    assign (right 0 45 ∷ [])
    ∷ assign (right 0 37 ∷ [])
    ∷ assign (right 0 29 ∷ [])
    ∷ assign (right 0 21 ∷ [])
    ∷ assign (right 0 13 ∷ [])
    ∷ assign (right 0 5 ∷ [])
    ∷ assign (left 0 3 ∷ right 1 50 ∷ [])
    ∷ assign (right 1 42 ∷ [])
    ∷ assign (right 1 34 ∷ [])
    ∷ assign (right 1 26 ∷ [])
    ∷ assign (right 1 18 ∷ [])
    ∷ assign (right 1 10 ∷ [])
    ∷ assign (right 1 2 ∷ [])
    ∷ assign (left 1 6 ∷ right 2 47 ∷ [])
    ∷ assign (right 2 39 ∷ [])
    ∷ assign (right 2 31 ∷ [])
    ∷ assign (right 2 23 ∷ [])
    ∷ assign (right 2 15 ∷ [])
    ∷ assign (right 2 7 ∷ [])
    ∷ assign (left 2 1 ∷ right 3 52 ∷ [])
    ∷ assign (right 3 44 ∷ [])
    ∷ assign (right 3 36 ∷ [])
    ∷ assign (right 3 28 ∷ [])
    ∷ assign (right 3 20 ∷ [])
    ∷ assign (right 3 12 ∷ [])
    ∷ assign (right 3 4 ∷ [])
    ∷ assign (left 3 4 ∷ right 4 49 ∷ [])
    ∷ assign (right 4 41 ∷ [])
    ∷ assign (right 4 33 ∷ [])
    ∷ assign (right 4 25 ∷ [])
    ∷ assign (right 4 17 ∷ [])
    ∷ assign (right 4 9 ∷ [])
    ∷ assign (right 4 1 ∷ [])
    ∷ assign (left 4 7 ∷ right 5 46 ∷ [])
    ∷ assign (right 5 38 ∷ [])
    ∷ assign (right 5 30 ∷ [])
    ∷ assign (right 5 22 ∷ [])
    ∷ assign (right 5 14 ∷ [])
    ∷ assign (right 5 6 ∷ [])
    ∷ assign (left 5 2 ∷ right 6 51 ∷ [])
    ∷ assign (right 6 43 ∷ [])
    ∷ assign (right 6 35 ∷ [])
    ∷ assign (right 6 27 ∷ [])
    ∷ assign (right 6 19 ∷ [])
    ∷ assign (right 6 11 ∷ [])
    ∷ assign (right 6 3 ∷ [])
    ∷ assign (left 6 5 ∷ right 7 48 ∷ [])
    ∷ assign (right 7 40 ∷ [])
    ∷ assign (right 7 32 ∷ [])
    ∷ assign (right 7 24 ∷ [])
    ∷ assign (right 7 16 ∷ [])
    ∷ assign (right 7 8 ∷ [])
    ∷ assign (right 7 0 ∷ [])
    ∷ []

abbrev pub pack_bits_54 : PackCode
pack_bits_54 =
    assign (right 0 46 ∷ [])
    ∷ assign (right 0 38 ∷ [])
    ∷ assign (right 0 30 ∷ [])
    ∷ assign (right 0 22 ∷ [])
    ∷ assign (right 0 14 ∷ [])
    ∷ assign (right 0 6 ∷ [])
    ∷ assign (left 0 2 ∷ right 1 52 ∷ [])
    ∷ assign (right 1 44 ∷ [])
    ∷ assign (right 1 36 ∷ [])
    ∷ assign (right 1 28 ∷ [])
    ∷ assign (right 1 20 ∷ [])
    ∷ assign (right 1 12 ∷ [])
    ∷ assign (right 1 4 ∷ [])
    ∷ assign (left 1 4 ∷ right 2 50 ∷ [])
    ∷ assign (right 2 42 ∷ [])
    ∷ assign (right 2 34 ∷ [])
    ∷ assign (right 2 26 ∷ [])
    ∷ assign (right 2 18 ∷ [])
    ∷ assign (right 2 10 ∷ [])
    ∷ assign (right 2 2 ∷ [])
    ∷ assign (left 2 6 ∷ right 3 48 ∷ [])
    ∷ assign (right 3 40 ∷ [])
    ∷ assign (right 3 32 ∷ [])
    ∷ assign (right 3 24 ∷ [])
    ∷ assign (right 3 16 ∷ [])
    ∷ assign (right 3 8 ∷ [])
    ∷ assign (right 3 0 ∷ [])
    ∷ assign (right 4 46 ∷ [])
    ∷ assign (right 4 38 ∷ [])
    ∷ assign (right 4 30 ∷ [])
    ∷ assign (right 4 22 ∷ [])
    ∷ assign (right 4 14 ∷ [])
    ∷ assign (right 4 6 ∷ [])
    ∷ assign (left 4 2 ∷ right 5 52 ∷ [])
    ∷ assign (right 5 44 ∷ [])
    ∷ assign (right 5 36 ∷ [])
    ∷ assign (right 5 28 ∷ [])
    ∷ assign (right 5 20 ∷ [])
    ∷ assign (right 5 12 ∷ [])
    ∷ assign (right 5 4 ∷ [])
    ∷ assign (left 5 4 ∷ right 6 50 ∷ [])
    ∷ assign (right 6 42 ∷ [])
    ∷ assign (right 6 34 ∷ [])
    ∷ assign (right 6 26 ∷ [])
    ∷ assign (right 6 18 ∷ [])
    ∷ assign (right 6 10 ∷ [])
    ∷ assign (right 6 2 ∷ [])
    ∷ assign (left 6 6 ∷ right 7 48 ∷ [])
    ∷ assign (right 7 40 ∷ [])
    ∷ assign (right 7 32 ∷ [])
    ∷ assign (right 7 24 ∷ [])
    ∷ assign (right 7 16 ∷ [])
    ∷ assign (right 7 8 ∷ [])
    ∷ assign (right 7 0 ∷ [])
    ∷ []

abbrev pub pack_bits_55 : PackCode
pack_bits_55 =
    assign (right 0 47 ∷ [])
    ∷ assign (right 0 39 ∷ [])
    ∷ assign (right 0 31 ∷ [])
    ∷ assign (right 0 23 ∷ [])
    ∷ assign (right 0 15 ∷ [])
    ∷ assign (right 0 7 ∷ [])
    ∷ assign (left 0 1 ∷ right 1 54 ∷ [])
    ∷ assign (right 1 46 ∷ [])
    ∷ assign (right 1 38 ∷ [])
    ∷ assign (right 1 30 ∷ [])
    ∷ assign (right 1 22 ∷ [])
    ∷ assign (right 1 14 ∷ [])
    ∷ assign (right 1 6 ∷ [])
    ∷ assign (left 1 2 ∷ right 2 53 ∷ [])
    ∷ assign (right 2 45 ∷ [])
    ∷ assign (right 2 37 ∷ [])
    ∷ assign (right 2 29 ∷ [])
    ∷ assign (right 2 21 ∷ [])
    ∷ assign (right 2 13 ∷ [])
    ∷ assign (right 2 5 ∷ [])
    ∷ assign (left 2 3 ∷ right 3 52 ∷ [])
    ∷ assign (right 3 44 ∷ [])
    ∷ assign (right 3 36 ∷ [])
    ∷ assign (right 3 28 ∷ [])
    ∷ assign (right 3 20 ∷ [])
    ∷ assign (right 3 12 ∷ [])
    ∷ assign (right 3 4 ∷ [])
    ∷ assign (left 3 4 ∷ right 4 51 ∷ [])
    ∷ assign (right 4 43 ∷ [])
    ∷ assign (right 4 35 ∷ [])
    ∷ assign (right 4 27 ∷ [])
    ∷ assign (right 4 19 ∷ [])
    ∷ assign (right 4 11 ∷ [])
    ∷ assign (right 4 3 ∷ [])
    ∷ assign (left 4 5 ∷ right 5 50 ∷ [])
    ∷ assign (right 5 42 ∷ [])
    ∷ assign (right 5 34 ∷ [])
    ∷ assign (right 5 26 ∷ [])
    ∷ assign (right 5 18 ∷ [])
    ∷ assign (right 5 10 ∷ [])
    ∷ assign (right 5 2 ∷ [])
    ∷ assign (left 5 6 ∷ right 6 49 ∷ [])
    ∷ assign (right 6 41 ∷ [])
    ∷ assign (right 6 33 ∷ [])
    ∷ assign (right 6 25 ∷ [])
    ∷ assign (right 6 17 ∷ [])
    ∷ assign (right 6 9 ∷ [])
    ∷ assign (right 6 1 ∷ [])
    ∷ assign (left 6 7 ∷ right 7 48 ∷ [])
    ∷ assign (right 7 40 ∷ [])
    ∷ assign (right 7 32 ∷ [])
    ∷ assign (right 7 24 ∷ [])
    ∷ assign (right 7 16 ∷ [])
    ∷ assign (right 7 8 ∷ [])
    ∷ assign (right 7 0 ∷ [])
    ∷ []

abbrev pub pack_bits_56 : PackCode
pack_bits_56 =
    assign (right 0 48 ∷ [])
    ∷ assign (right 0 40 ∷ [])
    ∷ assign (right 0 32 ∷ [])
    ∷ assign (right 0 24 ∷ [])
    ∷ assign (right 0 16 ∷ [])
    ∷ assign (right 0 8 ∷ [])
    ∷ assign (right 0 0 ∷ [])
    ∷ assign (right 1 48 ∷ [])
    ∷ assign (right 1 40 ∷ [])
    ∷ assign (right 1 32 ∷ [])
    ∷ assign (right 1 24 ∷ [])
    ∷ assign (right 1 16 ∷ [])
    ∷ assign (right 1 8 ∷ [])
    ∷ assign (right 1 0 ∷ [])
    ∷ assign (right 2 48 ∷ [])
    ∷ assign (right 2 40 ∷ [])
    ∷ assign (right 2 32 ∷ [])
    ∷ assign (right 2 24 ∷ [])
    ∷ assign (right 2 16 ∷ [])
    ∷ assign (right 2 8 ∷ [])
    ∷ assign (right 2 0 ∷ [])
    ∷ assign (right 3 48 ∷ [])
    ∷ assign (right 3 40 ∷ [])
    ∷ assign (right 3 32 ∷ [])
    ∷ assign (right 3 24 ∷ [])
    ∷ assign (right 3 16 ∷ [])
    ∷ assign (right 3 8 ∷ [])
    ∷ assign (right 3 0 ∷ [])
    ∷ assign (right 4 48 ∷ [])
    ∷ assign (right 4 40 ∷ [])
    ∷ assign (right 4 32 ∷ [])
    ∷ assign (right 4 24 ∷ [])
    ∷ assign (right 4 16 ∷ [])
    ∷ assign (right 4 8 ∷ [])
    ∷ assign (right 4 0 ∷ [])
    ∷ assign (right 5 48 ∷ [])
    ∷ assign (right 5 40 ∷ [])
    ∷ assign (right 5 32 ∷ [])
    ∷ assign (right 5 24 ∷ [])
    ∷ assign (right 5 16 ∷ [])
    ∷ assign (right 5 8 ∷ [])
    ∷ assign (right 5 0 ∷ [])
    ∷ assign (right 6 48 ∷ [])
    ∷ assign (right 6 40 ∷ [])
    ∷ assign (right 6 32 ∷ [])
    ∷ assign (right 6 24 ∷ [])
    ∷ assign (right 6 16 ∷ [])
    ∷ assign (right 6 8 ∷ [])
    ∷ assign (right 6 0 ∷ [])
    ∷ assign (right 7 48 ∷ [])
    ∷ assign (right 7 40 ∷ [])
    ∷ assign (right 7 32 ∷ [])
    ∷ assign (right 7 24 ∷ [])
    ∷ assign (right 7 16 ∷ [])
    ∷ assign (right 7 8 ∷ [])
    ∷ assign (right 7 0 ∷ [])
    ∷ []
