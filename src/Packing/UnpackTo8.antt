-- ===== src/Packing/UnpackTo8.antt =====
-- `unpack_bits_5` to `unpack_bits_8` of theta-sketch/bit_packing.hpp, statement by statement.
use singlestoredb_extension.Base.{[], ◌∷◌}
use singlestoredb_extension.Packing.Code.{UnpackCode, here, next}

abbrev pub unpack_bits_5 : UnpackCode
unpack_bits_5 =
    (here 3 255 0 ∷ [])
    ∷ (next 0 7 2 ∷ here 6 255 0 ∷ [])
    ∷ (here 1 31 0 ∷ [])
    ∷ (next 0 1 4 ∷ here 4 255 0 ∷ [])
    ∷ (next 0 15 1 ∷ here 7 255 0 ∷ [])
    ∷ (here 2 31 0 ∷ [])
    ∷ (next 0 3 3 ∷ here 5 255 0 ∷ [])
    ∷ (here 0 31 0 ∷ [])
    ∷ []

abbrev pub unpack_bits_6 : UnpackCode
unpack_bits_6 =
    (here 2 255 0 ∷ [])
    ∷ (next 0 3 4 ∷ here 4 255 0 ∷ [])
    ∷ (next 0 15 2 ∷ here 6 255 0 ∷ [])
    ∷ (next 0 63 0 ∷ [])
    ∷ (here 2 255 0 ∷ [])
    ∷ (next 0 3 4 ∷ here 4 255 0 ∷ [])
    ∷ (next 0 15 2 ∷ here 6 255 0 ∷ [])
    ∷ (here 0 63 0 ∷ [])
    ∷ []

abbrev pub unpack_bits_7 : UnpackCode
unpack_bits_7 =
    (here 1 255 0 ∷ [])
    ∷ (next 0 1 6 ∷ here 2 255 0 ∷ [])
    ∷ (next 0 3 5 ∷ here 3 255 0 ∷ [])
    ∷ (next 0 7 4 ∷ here 4 255 0 ∷ [])
    ∷ (next 0 15 3 ∷ here 5 255 0 ∷ [])
    ∷ (next 0 31 2 ∷ here 6 255 0 ∷ [])
    ∷ (next 0 63 1 ∷ here 7 255 0 ∷ [])
    ∷ (here 0 127 0 ∷ [])
    ∷ []

abbrev pub unpack_bits_8 : UnpackCode
unpack_bits_8 =
    (next 0 255 0 ∷ [])
    ∷ (next 0 255 0 ∷ [])
    ∷ (next 0 255 0 ∷ [])
    ∷ (next 0 255 0 ∷ [])
    ∷ (next 0 255 0 ∷ [])
    ∷ (next 0 255 0 ∷ [])
    ∷ (next 0 255 0 ∷ [])
    ∷ (here 0 255 0 ∷ [])
    ∷ []
