-- ===== src/Packing/UnpackTo20.antt =====
-- `unpack_bits_17` to `unpack_bits_20` of theta-sketch/bit_packing.hpp, statement by statement.
use singlestoredb_extension.Base.{[], ◌∷◌}
use singlestoredb_extension.Packing.Code.{UnpackCode, here, next}

abbrev pub unpack_bits_17 : UnpackCode
unpack_bits_17 =
    (next 0 255 9 ∷ next 0 255 1 ∷ here 7 255 0 ∷ [])
    ∷ (next 0 127 10 ∷ next 0 255 2 ∷ here 6 255 0 ∷ [])
    ∷ (next 0 63 11 ∷ next 0 255 3 ∷ here 5 255 0 ∷ [])
    ∷ (next 0 31 12 ∷ next 0 255 4 ∷ here 4 255 0 ∷ [])
    ∷ (next 0 15 13 ∷ next 0 255 5 ∷ here 3 255 0 ∷ [])
    ∷ (next 0 7 14 ∷ next 0 255 6 ∷ here 2 255 0 ∷ [])
    ∷ (next 0 3 15 ∷ next 0 255 7 ∷ here 1 255 0 ∷ [])
    ∷ (next 0 1 16 ∷ next 0 255 8 ∷ here 0 255 0 ∷ [])
    ∷ []

abbrev pub unpack_bits_18 : UnpackCode
unpack_bits_18 =
    (next 0 255 10 ∷ next 0 255 2 ∷ here 6 255 0 ∷ [])
    ∷ (next 0 63 12 ∷ next 0 255 4 ∷ here 4 255 0 ∷ [])
    ∷ (next 0 15 14 ∷ next 0 255 6 ∷ here 2 255 0 ∷ [])
    ∷ (next 0 3 16 ∷ next 0 255 8 ∷ next 0 255 0 ∷ [])
    ∷ (next 0 255 10 ∷ next 0 255 2 ∷ here 6 255 0 ∷ [])
    ∷ (next 0 63 12 ∷ next 0 255 4 ∷ here 4 255 0 ∷ [])
    ∷ (next 0 15 14 ∷ next 0 255 6 ∷ here 2 255 0 ∷ [])
    ∷ (next 0 3 16 ∷ next 0 255 8 ∷ here 0 255 0 ∷ [])
    ∷ []

abbrev pub unpack_bits_19 : UnpackCode
unpack_bits_19 =
    (next 0 255 11 ∷ next 0 255 3 ∷ here 5 255 0 ∷ [])
    ∷ (next 0 31 14 ∷ next 0 255 6 ∷ here 2 255 0 ∷ [])
    ∷ (next 0 3 17 ∷ next 0 255 9 ∷ next 0 255 1 ∷ here 7 255 0 ∷ [])
    ∷ (next 0 127 12 ∷ next 0 255 4 ∷ here 4 255 0 ∷ [])
    ∷ (next 0 15 15 ∷ next 0 255 7 ∷ here 1 255 0 ∷ [])
    ∷ (next 0 1 18 ∷ next 0 255 10 ∷ next 0 255 2 ∷ here 6 255 0 ∷ [])
    ∷ (next 0 63 13 ∷ next 0 255 5 ∷ here 3 255 0 ∷ [])
    ∷ (next 0 7 16 ∷ next 0 255 8 ∷ here 0 255 0 ∷ [])
    ∷ []

abbrev pub unpack_bits_20 : UnpackCode
unpack_bits_20 =
    (next 0 255 12 ∷ next 0 255 4 ∷ here 4 255 0 ∷ [])
    ∷ (next 0 15 16 ∷ next 0 255 8 ∷ next 0 255 0 ∷ [])
    ∷ (next 0 255 12 ∷ next 0 255 4 ∷ here 4 255 0 ∷ [])
    ∷ (next 0 15 16 ∷ next 0 255 8 ∷ next 0 255 0 ∷ [])
    ∷ (next 0 255 12 ∷ next 0 255 4 ∷ here 4 255 0 ∷ [])
    ∷ (next 0 15 16 ∷ next 0 255 8 ∷ next 0 255 0 ∷ [])
    ∷ (next 0 255 12 ∷ next 0 255 4 ∷ here 4 255 0 ∷ [])
    ∷ (next 0 15 16 ∷ next 0 255 8 ∷ here 0 255 0 ∷ [])
    ∷ []
