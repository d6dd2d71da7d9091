-- ===== src/Packing/UnpackTo36.antt =====
-- `unpack_bits_33` to `unpack_bits_36` of theta-sketch/bit_packing.hpp, statement by statement.
use singlestoredb_extension.Base.{[], ◌∷◌}
use singlestoredb_extension.Packing.Code.{UnpackCode, here, next, wide}

abbrev pub unpack_bits_33 : UnpackCode
unpack_bits_33 =
    (wide 0 255 25 ∷ next 0 255 17 ∷ next 0 255 9 ∷ next 0 255 1 ∷ here 7 255 0 ∷ [])
    ∷ (wide 0 127 26 ∷ next 0 255 18 ∷ next 0 255 10 ∷ next 0 255 2 ∷ here 6 255 0 ∷ [])
    ∷ (wide 0 63 27 ∷ next 0 255 19 ∷ next 0 255 11 ∷ next 0 255 3 ∷ here 5 255 0 ∷ [])
    ∷ (wide 0 31 28 ∷ next 0 255 20 ∷ next 0 255 12 ∷ next 0 255 4 ∷ here 4 255 0 ∷ [])
    ∷ (wide 0 15 29 ∷ next 0 255 21 ∷ next 0 255 13 ∷ next 0 255 5 ∷ here 3 255 0 ∷ [])
    ∷ (wide 0 7 30 ∷ next 0 255 22 ∷ next 0 255 14 ∷ next 0 255 6 ∷ here 2 255 0 ∷ [])
    ∷ (wide 0 3 31 ∷ next 0 255 23 ∷ next 0 255 15 ∷ next 0 255 7 ∷ here 1 255 0 ∷ [])
    ∷ (wide 0 1 32 ∷ next 0 255 24 ∷ next 0 255 16 ∷ next 0 255 8 ∷ here 0 255 0 ∷ [])
    ∷ []

abbrev pub unpack_bits_34 : UnpackCode
unpack_bits_34 =
    (wide 0 255 26 ∷ next 0 255 18 ∷ next 0 255 10 ∷ next 0 255 2 ∷ here 6 255 0 ∷ [])
    ∷ (wide 0 63 28 ∷ next 0 255 20 ∷ next 0 255 12 ∷ next 0 255 4 ∷ here 4 255 0 ∷ [])
    ∷ (wide 0 15 30 ∷ next 0 255 22 ∷ next 0 255 14 ∷ next 0 255 6 ∷ here 2 255 0 ∷ [])
    ∷ (wide 0 3 32 ∷ wide 0 255 24 ∷ next 0 255 16 ∷ next 0 255 8 ∷ next 0 255 0 ∷ [])
    ∷ (wide 0 255 26 ∷ next 0 255 18 ∷ next 0 255 10 ∷ next 0 255 2 ∷ here 6 255 0 ∷ [])
    ∷ (wide 0 63 28 ∷ next 0 255 20 ∷ next 0 255 12 ∷ next 0 255 4 ∷ here 4 255 0 ∷ [])
    ∷ (wide 0 15 30 ∷ next 0 255 22 ∷ next 0 255 14 ∷ next 0 255 6 ∷ here 2 255 0 ∷ [])
    ∷ (wide 0 3 32 ∷ wide 0 255 24 ∷ next 0 255 16 ∷ next 0 255 8 ∷ next 0 255 0 ∷ [])
    ∷ []

abbrev pub unpack_bits_35 : UnpackCode
unpack_bits_35 =
    (wide 0 255 27 ∷ next 0 255 19 ∷ next 0 255 11 ∷ next 0 255 3 ∷ here 5 255 0 ∷ [])
    ∷ (wide 0 31 30 ∷ next 0 255 22 ∷ next 0 255 14 ∷ next 0 255 6 ∷ here 2 255 0 ∷ [])
    ∷ (wide 0 2 33
        ∷ wide 0 255 25
        ∷ next 0 255 17
        ∷ next 0 255 9
        ∷ next 0 255 1
        ∷ here 7 255 0
        ∷ [])
    ∷ (wide 0 127 28 ∷ next 0 255 20 ∷ next 0 255 12 ∷ next 0 255 4 ∷ here 4 255 0 ∷ [])
    ∷ (wide 0 15 31 ∷ next 0 255 23 ∷ next 0 255 15 ∷ next 0 255 7 ∷ here 1 255 0 ∷ [])
    ∷ (wide 0 1 34
        ∷ wide 0 255 26
        ∷ next 0 255 18
        ∷ next 0 255 10
        ∷ next 0 255 2
        ∷ here 6 255 0
        ∷ [])
    ∷ (wide 0 63 29 ∷ next 0 255 21 ∷ next 0 255 13 ∷ next 0 255 5 ∷ here 3 255 0 ∷ [])
    ∷ (wide 0 7 32 ∷ wide 0 255 24 ∷ next 0 255 16 ∷ next 0 255 8 ∷ here 0 255 0 ∷ [])
    ∷ []

abbrev pub unpack_bits_36 : UnpackCode
unpack_bits_36 =
    (wide 0 255 28 ∷ next 0 255 20 ∷ next 0 255 12 ∷ next 0 255 4 ∷ here 4 255 0 ∷ [])
    ∷ (wide 0 15 32 ∷ wide 0 255 24 ∷ next 0 255 16 ∷ next 0 255 8 ∷ next 0 255 0 ∷ [])
    ∷ (wide 0 255 28 ∷ next 0 255 20 ∷ next 0 255 12 ∷ next 0 255 4 ∷ here 4 255 0 ∷ [])
    ∷ (wide 0 15 32 ∷ wide 0 255 24 ∷ next 0 255 16 ∷ next 0 255 8 ∷ next 0 255 0 ∷ [])
    ∷ (wide 0 255 28 ∷ next 0 255 20 ∷ next 0 255 12 ∷ next 0 255 4 ∷ here 4 255 0 ∷ [])
    ∷ (wide 0 15 32 ∷ wide 0 255 24 ∷ next 0 255 16 ∷ next 0 255 8 ∷ next 0 255 0 ∷ [])
    ∷ (wide 0 255 28 ∷ next 0 255 20 ∷ next 0 255 12 ∷ next 0 255 4 ∷ here 4 255 0 ∷ [])
    ∷ (wide 0 15 32 ∷ wide 0 255 24 ∷ next 0 255 16 ∷ next 0 255 8 ∷ here 0 255 0 ∷ [])
    ∷ []
