-- ===== src/Packing/UnpackTo28.antt =====
-- `unpack_bits_25` to `unpack_bits_28` of theta-sketch/bit_packing.hpp, statement by statement.
use singlestoredb_extension.Base.{[], ◌∷◌}
use singlestoredb_extension.Packing.Code.{UnpackCode, here, next, wide}

abbrev pub unpack_bits_25 : UnpackCode
unpack_bits_25 =
    (next 0 255 17 ∷ next 0 255 9 ∷ next 0 255 1 ∷ here 7 255 0 ∷ [])
    ∷ (next 0 127 18 ∷ next 0 255 10 ∷ next 0 255 2 ∷ here 6 255 0 ∷ [])
    ∷ (next 0 63 19 ∷ next 0 255 11 ∷ next 0 255 3 ∷ here 5 255 0 ∷ [])
    ∷ (next 0 31 20 ∷ next 0 255 12 ∷ next 0 255 4 ∷ here 4 255 0 ∷ [])
    ∷ (next 0 15 21 ∷ next 0 255 13 ∷ next 0 255 5 ∷ here 3 255 0 ∷ [])
    ∷ (next 0 7 22 ∷ next 0 255 14 ∷ next 0 255 6 ∷ here 2 255 0 ∷ [])
    ∷ (next 0 3 23 ∷ next 0 255 15 ∷ next 0 255 7 ∷ here 1 255 0 ∷ [])
    ∷ (wide 0 1 24 ∷ next 0 255 16 ∷ next 0 255 8 ∷ here 0 255 0 ∷ [])
    ∷ []

abbrev pub unpack_bits_26 : UnpackCode
unpack_bits_26 =
    (next 0 255 18 ∷ next 0 255 10 ∷ next 0 255 2 ∷ here 6 255 0 ∷ [])
    ∷ (next 0 63 20 ∷ next 0 255 12 ∷ next 0 255 4 ∷ here 4 255 0 ∷ [])
    ∷ (next 0 15 22 ∷ next 0 255 14 ∷ next 0 255 6 ∷ here 2 255 0 ∷ [])
    ∷ (wide 0 3 24 ∷ next 0 255 16 ∷ next 0 255 8 ∷ next 0 255 0 ∷ [])
    ∷ (next 0 255 18 ∷ next 0 255 10 ∷ next 0 255 2 ∷ here 6 255 0 ∷ [])
    ∷ (next 0 63 20 ∷ next 0 255 12 ∷ next 0 255 4 ∷ here 4 255 0 ∷ [])
    ∷ (next 0 15 22 ∷ next 0 255 14 ∷ next 0 255 6 ∷ here 2 255 0 ∷ [])
    ∷ (wide 0 3 24 ∷ next 0 255 16 ∷ next 0 255 8 ∷ here 0 255 0 ∷ [])
    ∷ []

abbrev pub unpack_bits_27 : UnpackCode
unpack_bits_27 =
    (next 0 255 19 ∷ next 0 255 11 ∷ next 0 255 3 ∷ here 5 255 0 ∷ [])
    ∷ (next 0 31 22 ∷ next 0 255 14 ∷ next 0 255 6 ∷ here 2 255 0 ∷ [])
    ∷ (wide 0 3 25 ∷ next 0 255 17 ∷ next 0 255 9 ∷ next 0 255 1 ∷ here 7 255 0 ∷ [])
    ∷ (next 0 127 20 ∷ next 0 255 12 ∷ next 0 255 4 ∷ here 4 255 0 ∷ [])
    ∷ (next 0 15 23 ∷ next 0 255 15 ∷ next 0 255 7 ∷ here 1 255 0 ∷ [])
    ∷ (wide 0 1 26 ∷ next 0 255 18 ∷ next 0 255 10 ∷ next 0 255 2 ∷ here 6 255 0 ∷ [])
    ∷ (next 0 63 21 ∷ next 0 255 13 ∷ next 0 255 5 ∷ here 3 255 0 ∷ [])
    ∷ (wide 0 7 24 ∷ next 0 255 16 ∷ next 0 255 8 ∷ here 0 255 0 ∷ [])
    ∷ []

abbrev pub unpack_bits_28 : UnpackCode
unpack_bits_28 =
    (next 0 255 20 ∷ next 0 255 12 ∷ next 0 255 4 ∷ here 4 255 0 ∷ [])
    ∷ (wide 0 15 24 ∷ next 0 255 16 ∷ next 0 255 8 ∷ next 0 255 0 ∷ [])
    ∷ (next 0 255 20 ∷ next 0 255 12 ∷ next 0 255 4 ∷ here 4 255 0 ∷ [])
    ∷ (wide 0 15 24 ∷ next 0 255 16 ∷ next 0 255 8 ∷ next 0 255 0 ∷ [])
    ∷ (next 0 255 20 ∷ next 0 255 12 ∷ next 0 255 4 ∷ here 4 255 0 ∷ [])
    ∷ (wide 0 15 24 ∷ next 0 255 16 ∷ next 0 255 8 ∷ next 0 255 0 ∷ [])
    ∷ (next 0 255 20 ∷ next 0 255 12 ∷ next 0 255 4 ∷ here 4 255 0 ∷ [])
    ∷ (wide 0 15 24 ∷ next 0 255 16 ∷ next 0 255 8 ∷ here 0 255 0 ∷ [])
    ∷ []
