-- ===== src/Packing/UnpackTo16.antt =====
-- `unpack_bits_13` to `unpack_bits_16` of theta-sketch/bit_packing.hpp, statement by statement.
use singlestoredb_extension.Base.{[], ◌∷◌}
use singlestoredb_extension.Packing.Code.{UnpackCode, here, next}

abbrev pub unpack_bits_13 : UnpackCode
unpack_bits_13 =
    (next 0 255 5 ∷ here 3 255 0 ∷ [])
    ∷ (next 0 7 10 ∷ next 0 255 2 ∷ here 6 255 0 ∷ [])
    ∷ (next 0 63 7 ∷ here 1 255 0 ∷ [])
    ∷ (next 0 1 12 ∷ next 0 255 4 ∷ here 4 255 0 ∷ [])
    ∷ (next 0 15 9 ∷ next 0 255 1 ∷ here 7 255 0 ∷ [])
    ∷ (next 0 127 6 ∷ here 2 255 0 ∷ [])
    ∷ (next 0 3 11 ∷ next 0 255 3 ∷ here 5 255 0 ∷ [])
    ∷ (next 0 31 8 ∷ here 0 255 0 ∷ [])
    ∷ []

abbrev pub unpack_bits_14 : UnpackCode
unpack_bits_14 =
    (next 0 255 6 ∷ here 2 255 0 ∷ [])
    ∷ (next 0 3 12 ∷ next 0 255 4 ∷ here 4 255 0 ∷ [])
    ∷ (next 0 15 10 ∷ next 0 255 2 ∷ here 6 255 0 ∷ [])
    ∷ (next 0 63 8 ∷ next 0 255 0 ∷ [])
    ∷ (next 0 255 6 ∷ here 2 255 0 ∷ [])
    ∷ (next 0 3 12 ∷ next 0 255 4 ∷ here 4 255 0 ∷ [])
    ∷ (next 0 15 10 ∷ next 0 255 2 ∷ here 6 255 0 ∷ [])
    ∷ (next 0 63 8 ∷ here 0 255 0 ∷ [])
    ∷ []

abbrev pub unpack_bits_15 : UnpackCode
unpack_bits_15 =
    (next 0 255 7 ∷ here 1 255 0 ∷ [])
    ∷ (next 0 1 14 ∷ next 0 255 6 ∷ here 2 255 0 ∷ [])
    ∷ (next 0 3 13 ∷ next 0 255 5 ∷ here 3 255 0 ∷ [])
    ∷ (next 0 7 12 ∷ next 0 255 4 ∷ here 4 255 0 ∷ [])
    ∷ (next 0 15 11 ∷ next 0 255 3 ∷ here 5 255 0 ∷ [])
    ∷ (next 0 31 10 ∷ next 0 255 2 ∷ here 6 255 0 ∷ [])
    ∷ (next 0 63 9 ∷ next 0 255 1 ∷ here 7 255 0 ∷ [])
    ∷ (next 0 127 8 ∷ here 0 255 0 ∷ [])
    ∷ []

abbrev pub unpack_bits_16 : UnpackCode
unpack_bits_16 =
    (next 0 255 8 ∷ next 0 255 0 ∷ [])
    ∷ (next 0 255 8 ∷ next 0 255 0 ∷ [])
    ∷ (next 0 255 8 ∷ next 0 255 0 ∷ [])
    ∷ (next 0 255 8 ∷ next 0 255 0 ∷ [])
    ∷ (next 0 255 8 ∷ next 0 255 0 ∷ [])
    ∷ (next 0 255 8 ∷ next 0 255 0 ∷ [])
    ∷ (next 0 255 8 ∷ next 0 255 0 ∷ [])
    ∷ (next 0 255 8 ∷ here 0 255 0 ∷ [])
    ∷ []
