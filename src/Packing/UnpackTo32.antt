-- ===== src/Packing/UnpackTo32.antt =====
-- `unpack_bits_29` to `unpack_bits_32` of theta-sketch/bit_packing.hpp, statement by statement.
use singlestoredb_extension.Base.{[], ◌∷◌}
use singlestoredb_extension.Packing.Code.{UnpackCode, here, next, wide}

abbrev pub unpack_bits_29 : UnpackCode
unpack_bits_29 =
    (next 0 255 21 ∷ next 0 255 13 ∷ next 0 255 5 ∷ here 3 255 0 ∷ [])
    ∷ (wide 0 7 26 ∷ next 0 255 18 ∷ next 0 255 10 ∷ next 0 255 2 ∷ here 6 255 0 ∷ [])
    ∷ (next 0 63 23 ∷ next 0 255 15 ∷ next 0 255 7 ∷ here 1 255 0 ∷ [])
    ∷ (wide 0 1 28 ∷ next 0 255 20 ∷ next 0 255 12 ∷ next 0 255 4 ∷ here 4 255 0 ∷ [])
    ∷ (wide 0 15 25 ∷ next 0 255 17 ∷ next 0 255 9 ∷ next 0 255 1 ∷ here 7 255 0 ∷ [])
    ∷ (next 0 127 22 ∷ next 0 255 14 ∷ next 0 255 6 ∷ here 2 255 0 ∷ [])
    ∷ (wide 0 3 27 ∷ next 0 255 19 ∷ next 0 255 11 ∷ next 0 255 3 ∷ here 5 255 0 ∷ [])
    ∷ (wide 0 31 24 ∷ next 0 255 16 ∷ next 0 255 8 ∷ here 0 255 0 ∷ [])
    ∷ []

abbrev pub unpack_bits_30 : UnpackCode
unpack_bits_30 =
    (next 0 255 22 ∷ next 0 255 14 ∷ next 0 255 6 ∷ here 2 255 0 ∷ [])
    ∷ (wide 0 3 28 ∷ next 0 255 20 ∷ next 0 255 12 ∷ next 0 255 4 ∷ here 4 255 0 ∷ [])
    ∷ (wide 0 15 26 ∷ next 0 255 18 ∷ next 0 255 10 ∷ next 0 255 2 ∷ here 6 255 0 ∷ [])
    ∷ (wide 0 63 24 ∷ next 0 255 16 ∷ next 0 255 8 ∷ next 0 255 0 ∷ [])
    ∷ (next 0 255 22 ∷ next 0 255 14 ∷ next 0 255 6 ∷ here 2 255 0 ∷ [])
    ∷ (wide 0 3 28 ∷ next 0 255 20 ∷ next 0 255 12 ∷ next 0 255 4 ∷ here 4 255 0 ∷ [])
    ∷ (wide 0 15 26 ∷ next 0 255 18 ∷ next 0 255 10 ∷ next 0 255 2 ∷ here 6 255 0 ∷ [])
    ∷ (wide 0 63 24 ∷ next 0 255 16 ∷ next 0 255 8 ∷ here 0 255 0 ∷ [])
    ∷ []

abbrev pub unpack_bits_31 : UnpackCode
unpack_bits_31 =
    (next 0 255 23 ∷ next 0 255 15 ∷ next 0 255 7 ∷ here 1 255 0 ∷ [])
    ∷ (wide 0 1 30 ∷ next 0 255 22 ∷ next 0 255 14 ∷ next 0 255 6 ∷ here 2 255 0 ∷ [])
    ∷ (wide 0 3 29 ∷ next 0 255 21 ∷ next 0 255 13 ∷ next 0 255 5 ∷ here 3 255 0 ∷ [])
    ∷ (wide 0 7 28 ∷ next 0 255 20 ∷ next 0 255 12 ∷ next 0 255 4 ∷ here 4 255 0 ∷ [])
    ∷ (wide 0 15 27 ∷ next 0 255 19 ∷ next 0 255 11 ∷ next 0 255 3 ∷ here 5 255 0 ∷ [])
    ∷ (wide 0 31 26 ∷ next 0 255 18 ∷ next 0 255 10 ∷ next 0 255 2 ∷ here 6 255 0 ∷ [])
    ∷ (wide 0 63 25 ∷ next 0 255 17 ∷ next 0 255 9 ∷ next 0 255 1 ∷ here 7 255 0 ∷ [])
    ∷ (wide 0 127 24 ∷ next 0 255 16 ∷ next 0 255 8 ∷ here 0 255 0 ∷ [])
    ∷ []

abbrev pub unpack_bits_32 : UnpackCode
unpack_bits_32 =
    (wide 0 255 24 ∷ next 0 255 16 ∷ next 0 255 8 ∷ next 0 255 0 ∷ [])
    ∷ (wide 0 255 24 ∷ next 0 255 16 ∷ next 0 255 8 ∷ next 0 255 0 ∷ [])
    ∷ (wide 0 255 24 ∷ next 0 255 16 ∷ next 0 255 8 ∷ next 0 255 0 ∷ [])
    ∷ (wide 0 255 24 ∷ next 0 255 16 ∷ next 0 255 8 ∷ next 0 255 0 ∷ [])
    ∷ (wide 0 255 24 ∷ next 0 255 16 ∷ next 0 255 8 ∷ next 0 255 0 ∷ [])
    ∷ (wide 0 255 24 ∷ next 0 255 16 ∷ next 0 255 8 ∷ next 0 255 0 ∷ [])
    ∷ (wide 0 255 24 ∷ next 0 255 16 ∷ next 0 255 8 ∷ next 0 255 0 ∷ [])
    ∷ (wide 0 255 24 ∷ next 0 255 16 ∷ next 0 255 8 ∷ here 0 255 0 ∷ [])
    ∷ []
