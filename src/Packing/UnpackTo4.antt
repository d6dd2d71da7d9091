-- ===== src/Packing/UnpackTo4.antt =====
-- `unpack_bits_1` to `unpack_bits_4` of theta-sketch/bit_packing.hpp, statement by statement.
use singlestoredb_extension.Base.{[], ◌∷◌}
use singlestoredb_extension.Packing.Code.{UnpackCode, here, next}

abbrev pub unpack_bits_1 : UnpackCode
unpack_bits_1 =
    (here 7 255 0 ∷ [])
    ∷ (here 6 1 0 ∷ [])
    ∷ (here 5 1 0 ∷ [])
    ∷ (here 4 1 0 ∷ [])
    ∷ (here 3 1 0 ∷ [])
    ∷ (here 2 1 0 ∷ [])
    ∷ (here 1 1 0 ∷ [])
    ∷ (here 0 1 0 ∷ [])
    ∷ []

abbrev pub unpack_bits_2 : UnpackCode
unpack_bits_2 =
    (here 6 255 0 ∷ [])
    ∷ (here 4 3 0 ∷ [])
    ∷ (here 2 3 0 ∷ [])
    ∷ (next 0 3 0 ∷ [])
    ∷ (here 6 255 0 ∷ [])
    ∷ (here 4 3 0 ∷ [])
    ∷ (here 2 3 0 ∷ [])
    ∷ (here 0 3 0 ∷ [])
    ∷ []

abbrev pub unpack_bits_3 : UnpackCode
unpack_bits_3 =
    (here 5 255 0 ∷ [])
    ∷ (here 2 7 0 ∷ [])
    ∷ (next 0 3 1 ∷ here 7 255 0 ∷ [])
    ∷ (here 4 7 0 ∷ [])
    ∷ (here 1 7 0 ∷ [])
    ∷ (next 0 1 2 ∷ here 6 255 0 ∷ [])
    ∷ (here 3 7 0 ∷ [])
    ∷ (here 0 7 0 ∷ [])
    ∷ []

abbrev pub unpack_bits_4 : UnpackCode
unpack_bits_4 =
    (here 4 255 0 ∷ [])
    ∷ (next 0 15 0 ∷ [])
    ∷ (here 4 255 0 ∷ [])
    ∷ (next 0 15 0 ∷ [])
    ∷ (here 4 255 0 ∷ [])
    ∷ (next 0 15 0 ∷ [])
    ∷ (here 4 255 0 ∷ [])
    ∷ (here 0 15 0 ∷ [])
    ∷ []
