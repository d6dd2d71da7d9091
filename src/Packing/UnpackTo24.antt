-- ===== src/Packing/UnpackTo24.antt =====
-- `unpack_bits_21` to `unpack_bits_24` of theta-sketch/bit_packing.hpp, statement by statement.
use singlestoredb_extension.Base.{[], ◌∷◌}
use singlestoredb_extension.Packing.Code.{UnpackCode, here, next}

abbrev pub unpack_bits_21 : UnpackCode
unpack_bits_21 =
    (next 0 255 13 ∷ next 0 255 5 ∷ here 3 255 0 ∷ [])
    ∷ (next 0 7 18 ∷ next 0 255 10 ∷ next 0 255 2 ∷ here 6 255 0 ∷ [])
    ∷ (next 0 63 15 ∷ next 0 255 7 ∷ here 1 255 0 ∷ [])
    ∷ (next 0 1 20 ∷ next 0 255 12 ∷ next 0 255 4 ∷ here 4 255 0 ∷ [])
    ∷ (next 0 15 17 ∷ next 0 255 9 ∷ next 0 255 1 ∷ here 7 255 0 ∷ [])
    ∷ (next 0 127 14 ∷ next 0 255 6 ∷ here 2 255 0 ∷ [])
    ∷ (next 0 3 19 ∷ next 0 255 11 ∷ next 0 255 3 ∷ here 5 255 0 ∷ [])
    ∷ (next 0 31 16 ∷ next 0 255 8 ∷ here 0 255 0 ∷ [])
    ∷ []

abbrev pub unpack_bits_22 : UnpackCode
unpack_bits_22 =
    (next 0 255 14 ∷ next 0 255 6 ∷ here 2 255 0 ∷ [])
    ∷ (next 0 3 20 ∷ next 0 255 12 ∷ next 0 255 4 ∷ here 4 255 0 ∷ [])
    ∷ (next 0 15 18 ∷ next 0 255 10 ∷ next 0 255 2 ∷ here 6 255 0 ∷ [])
    ∷ (next 0 63 16 ∷ next 0 255 8 ∷ next 0 255 0 ∷ [])
    ∷ (next 0 255 14 ∷ next 0 255 6 ∷ here 2 255 0 ∷ [])
    ∷ (next 0 3 20 ∷ next 0 255 12 ∷ next 0 255 4 ∷ here 4 255 0 ∷ [])
    ∷ (next 0 15 18 ∷ next 0 255 10 ∷ next 0 255 2 ∷ here 6 255 0 ∷ [])
    ∷ (next 0 63 16 ∷ next 0 255 8 ∷ here 0 255 0 ∷ [])
    ∷ []

abbrev pub unpack_bits_23 : UnpackCode
unpack_bits_23 =
    (next 0 255 15 ∷ next 0 255 7 ∷ here 1 255 0 ∷ [])
    ∷ (next 0 1 22 ∷ next 0 255 14 ∷ next 0 255 6 ∷ here 2 255 0 ∷ [])
    ∷ (next 0 3 21 ∷ next 0 255 13 ∷ next 0 255 5 ∷ here 3 255 0 ∷ [])
    ∷ (next 0 7 20 ∷ next 0 255 12 ∷ next 0 255 4 ∷ here 4 255 0 ∷ [])
    ∷ (next 0 15 19 ∷ next 0 255 11 ∷ next 0 255 3 ∷ here 5 255 0 ∷ [])
    ∷ (next 0 31 18 ∷ next 0 255 10 ∷ next 0 255 2 ∷ here 6 255 0 ∷ [])
    ∷ (next 0 63 17 ∷ next 0 255 9 ∷ next 0 255 1 ∷ here 7 255 0 ∷ [])
    ∷ (next 0 127 16 ∷ next 0 255 8 ∷ here 0 255 0 ∷ [])
    ∷ []

abbrev pub unpack_bits_24 : UnpackCode
unpack_bits_24 =
    (next 0 255 16 ∷ next 0 255 8 ∷ next 0 255 0 ∷ [])
    ∷ (next 0 255 16 ∷ next 0 255 8 ∷ next 0 255 0 ∷ [])
    ∷ (next 0 255 16 ∷ next 0 255 8 ∷ next 0 255 0 ∷ [])
    ∷ (next 0 255 16 ∷ next 0 255 8 ∷ next 0 255 0 ∷ [])
    ∷ (next 0 255 16 ∷ next 0 255 8 ∷ next 0 255 0 ∷ [])
    ∷ (next 0 255 16 ∷ next 0 255 8 ∷ next 0 255 0 ∷ [])
    ∷ (next 0 255 16 ∷ next 0 255 8 ∷ next 0 255 0 ∷ [])
    ∷ (next 0 255 16 ∷ next 0 255 8 ∷ here 0 255 0 ∷ [])
    ∷ []
