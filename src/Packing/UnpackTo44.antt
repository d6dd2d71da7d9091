-- ===== src/Packing/UnpackTo44.antt =====
-- `unpack_bits_41` to `unpack_bits_44` of theta-sketch/bit_packing.hpp, statement by statement.
use singlestoredb_extension.Base.{[], ◌∷◌}
use singlestoredb_extension.Packing.Code.{UnpackCode, here, next, wide}

abbrev pub unpack_bits_41 : UnpackCode
unpack_bits_41 =
    (wide 0 255 33
      ∷ wide 0 255 25
      ∷ next 0 255 17
      ∷ next 0 255 9
      ∷ next 0 255 1
      ∷ here 7 255 0
      ∷ [])
    ∷ (wide 0 127 34
        ∷ wide 0 255 26
        ∷ next 0 255 18
        ∷ next 0 255 10
        ∷ next 0 255 2
        ∷ here 6 255 0
        ∷ [])
    ∷ (wide 0 63 35
        ∷ wide 0 255 27
        ∷ next 0 255 19
        ∷ next 0 255 11
        ∷ next 0 255 3
        ∷ here 5 255 0
        ∷ [])
    ∷ (wide 0 31 36
        ∷ wide 0 255 28
        ∷ next 0 255 20
        ∷ next 0 255 12
        ∷ next 0 255 4
        ∷ here 4 255 0
        ∷ [])
    ∷ (wide 0 15 37
        ∷ wide 0 255 29
        ∷ next 0 255 21
        ∷ next 0 255 13
        ∷ next 0 255 5
        ∷ here 3 255 0
        ∷ [])
    ∷ (wide 0 7 38
        ∷ wide 0 255 30
        ∷ next 0 255 22
        ∷ next 0 255 14
        ∷ next 0 255 6
        ∷ here 2 255 0
        ∷ [])
    ∷ (wide 0 3 39
        ∷ wide 0 255 31
        ∷ next 0 255 23
        ∷ next 0 255 15
        ∷ next 0 255 7
        ∷ here 1 255 0
        ∷ [])
    ∷ (wide 0 1 40
        ∷ wide 0 255 32
        ∷ wide 0 255 24
        ∷ next 0 255 16
        ∷ next 0 255 8
        ∷ here 0 255 0
        ∷ [])
    ∷ []

abbrev pub unpack_bits_42 : UnpackCode
unpack_bits_42 =
    (wide 0 255 34
      ∷ wide 0 255 26
      ∷ next 0 255 18
      ∷ next 0 255 10
      ∷ next 0 255 2
      ∷ here 6 255 0
      ∷ [])
    ∷ (wide 0 63 36
        ∷ wide 0 255 28
        ∷ next 0 255 20
        ∷ next 0 255 12
        ∷ next 0 255 4
        ∷ here 4 255 0
        ∷ [])
    ∷ (wide 0 15 38
        ∷ wide 0 255 30
        ∷ next 0 255 22
        ∷ next 0 255 14
        ∷ next 0 255 6
        ∷ here 2 255 0
        ∷ [])
    ∷ (wide 0 3 40
        ∷ wide 0 255 32
        ∷ wide 0 255 24
        ∷ next 0 255 16
        ∷ next 0 255 8
        ∷ next 0 255 0
        ∷ [])
    ∷ (wide 0 255 34
        ∷ wide 0 255 26
        ∷ next 0 255 18
        ∷ next 0 255 10
        ∷ next 0 255 2
        ∷ here 6 255 0
        ∷ [])
    ∷ (wide 0 63 36
        ∷ wide 0 255 28
        ∷ next 0 255 20
        ∷ next 0 255 12
        ∷ next 0 255 4
        ∷ here 4 255 0
        ∷ [])
    ∷ (wide 0 15 38
        ∷ wide 0 255 30
        ∷ next 0 255 22
        ∷ next 0 255 14
        ∷ next 0 255 6
        ∷ here 2 255 0
        ∷ [])
    ∷ (wide 0 3 40
        ∷ wide 0 255 32
        ∷ wide 0 255 24
        ∷ next 0 255 16
        ∷ next 0 255 8
        ∷ here 0 255 0
        ∷ [])
    ∷ []

abbrev pub unpack_bits_43 : UnpackCode
unpack_bits_43 =
    (wide 0 255 35
      ∷ wide 0 255 27
      ∷ next 0 255 19
      ∷ next 0 255 11
      ∷ next 0 255 3
      ∷ here 5 255 0
      ∷ [])
    ∷ (wide 0 31 38
        ∷ wide 0 255 30
        ∷ next 0 255 22
        ∷ next 0 255 14
        ∷ next 0 255 6
        ∷ here 2 255 0
        ∷ [])
    ∷ (wide 0 3 41
        ∷ wide 0 255 33
        ∷ wide 0 255 25
        ∷ next 0 255 17
        ∷ next 0 255 9
        ∷ next 0 255 1
        ∷ here 7 255 0
        ∷ [])
    ∷ (wide 0 127 36
        ∷ wide 0 255 28
        ∷ next 0 255 20
        ∷ next 0 255 12
        ∷ next 0 255 4
        ∷ here 4 255 0
        ∷ [])
    ∷ (wide 0 15 39
        ∷ wide 0 255 31
        ∷ next 0 255 23
        ∷ next 0 255 15
        ∷ next 0 255 7
        ∷ here 1 255 0
        ∷ [])
    ∷ (wide 0 1 42
        ∷ wide 0 255 34
        ∷ wide 0 255 26
        ∷ next 0 255 18
        ∷ next 0 255 10
        ∷ next 0 255 2
        ∷ here 6 255 0
        ∷ [])
    ∷ (wide 0 63 37
        ∷ wide 0 255 29
        ∷ next 0 255 21
        ∷ next 0 255 13
        ∷ next 0 255 5
        ∷ here 3 255 0
        ∷ [])
    ∷ (wide 0 7 40
        ∷ wide 0 255 32
        ∷ wide 0 255 24
        ∷ next 0 255 16
        ∷ next 0 255 8
        ∷ here 0 255 0
        ∷ [])
    ∷ []

abbrev pub unpack_bits_44 : UnpackCode
unpack_bits_44 =
    (wide 0 255 36
      ∷ wide 0 255 28
      ∷ next 0 255 20
      ∷ next 0 255 12
      ∷ next 0 255 4
      ∷ here 4 255 0
      ∷ [])
    ∷ (wide 0 15 40
        ∷ wide 0 255 32
        ∷ wide 0 255 24
        ∷ next 0 255 16
        ∷ next 0 255 8
        ∷ next 0 255 0
        ∷ [])
    ∷ (wide 0 255 36
        ∷ wide 0 255 28
        ∷ next 0 255 20
        ∷ next 0 255 12
        ∷ next 0 255 4
        ∷ here 4 255 0
        ∷ [])
    ∷ (wide 0 15 40
        ∷ wide 0 255 32
        ∷ wide 0 255 24
        ∷ next 0 255 16
        ∷ next 0 255 8
        ∷ next 0 255 0
        ∷ [])
    ∷ (wide 0 255 36
        ∷ wide 0 255 28
        ∷ next 0 255 20
        ∷ next 0 255 12
        ∷ next 0 255 4
        ∷ here 4 255 0
        ∷ [])
    ∷ (wide 0 15 40
        ∷ wide 0 255 32
        ∷ wide 0 255 24
        ∷ next 0 255 16
        ∷ next 0 255 8
        ∷ next 0 255 0
        ∷ [])
    ∷ (wide 0 255 36
        ∷ wide 0 255 28
        ∷ next 0 255 20
        ∷ next 0 255 12
        ∷ next 0 255 4
        ∷ here 4 255 0
        ∷ [])
    ∷ (wide 0 15 40
        ∷ wide 0 255 32
        ∷ wide 0 255 24
        ∷ next 0 255 16
        ∷ next 0 255 8
        ∷ here 0 255 0
        ∷ [])
    ∷ []
