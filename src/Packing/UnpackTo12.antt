-- ===== src/Packing/UnpackTo12.antt =====
-- `unpack_bits_9` to `unpack_bits_12` of theta-sketch/bit_packing.hpp, statement by statement.
use singlestoredb_extension.Base.{[], ◌∷◌}
use singlestoredb_extension.Packing.Code.{UnpackCode, here, next}

abbrev pub unpack_bits_9 : UnpackCode
unpack_bits_9 =
    (next 0 255 1 ∷ here 7 255 0 ∷ [])
    ∷ (next 0 127 2 ∷ here 6 255 0 ∷ [])
    ∷ (next 0 63 3 ∷ here 5 255 0 ∷ [])
    ∷ (next 0 31 4 ∷ here 4 255 0 ∷ [])
    ∷ (next 0 15 5 ∷ here 3 255 0 ∷ [])
    ∷ (next 0 7 6 ∷ here 2 255 0 ∷ [])
    ∷ (next 0 3 7 ∷ here 1 255 0 ∷ [])
    ∷ (next 0 1 8 ∷ here 0 255 0 ∷ [])
    ∷ []

abbrev pub unpack_bits_10 : UnpackCode
unpack_bits_10 =
    (next 0 255 2 ∷ here 6 255 0 ∷ [])
    ∷ (next 0 63 4 ∷ here 4 255 0 ∷ [])
    ∷ (next 0 15 6 ∷ here 2 255 0 ∷ [])
    ∷ (next 0 3 8 ∷ next 0 255 0 ∷ [])
    ∷ (next 0 255 2 ∷ here 6 255 0 ∷ [])
    ∷ (next 0 63 4 ∷ here 4 255 0 ∷ [])
    ∷ (next 0 15 6 ∷ here 2 255 0 ∷ [])
    ∷ (next 0 3 8 ∷ here 0 255 0 ∷ [])
    ∷ []

abbrev pub unpack_bits_11 : UnpackCode
unpack_bits_11 =
    (next 0 255 3 ∷ here 5 255 0 ∷ [])
    ∷ (next 0 31 6 ∷ here 2 255 0 ∷ [])
    ∷ (next 0 3 9 ∷ next 0 255 1 ∷ here 7 255 0 ∷ [])
    ∷ (next 0 127 4 ∷ here 4 255 0 ∷ [])
    ∷ (next 0 15 7 ∷ here 1 255 0 ∷ [])
    ∷ (next 0 1 10 ∷ next 0 255 2 ∷ here 6 255 0 ∷ [])
    ∷ (next 0 63 5 ∷ here 3 255 0 ∷ [])
    ∷ (next 0 7 8 ∷ here 0 255 0 ∷ [])
    ∷ []

abbrev pub unpack_bits_12 : UnpackCode
unpack_bits_12 =
    (next 0 255 4 ∷ here 4 255 0 ∷ [])
    ∷ (next 0 15 8 ∷ next 0 255 0 ∷ [])
    ∷ (next 0 255 4 ∷ here 4 255 0 ∷ [])
    ∷ (next 0 15 8 ∷ next 0 255 0 ∷ [])
    ∷ (next 0 255 4 ∷ here 4 255 0 ∷ [])
    ∷ (next 0 15 8 ∷ next 0 255 0 ∷ [])
    ∷ (next 0 255 4 ∷ here 4 255 0 ∷ [])
    ∷ (next 0 15 8 ∷ here 0 255 0 ∷ [])
    ∷ []
