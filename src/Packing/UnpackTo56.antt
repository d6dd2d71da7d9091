-- ===== src/Packing/UnpackTo56.antt =====
-- `unpack_bits_53` to `unpack_bits_56` of theta-sketch/bit_packing.hpp, statement by statement.
use singlestoredb_extension.Base.{[], ◌∷◌}
use singlestoredb_extension.Packing.Code.{UnpackCode, here, next, wide}

abbrev pub unpack_bits_53 : UnpackCode
unpack_bits_53 =
    (wide 0 255 45
      ∷ wide 0 255 37
      ∷ wide 0 255 29
      ∷ next 0 255 21
      ∷ next 0 255 13
      ∷ next 0 255 5
      ∷ here 3 255 0
      ∷ [])
    ∷ (wide 0 7 50
        ∷ wide 0 255 42
        ∷ wide 0 255 34
        ∷ wide 0 255 26
        ∷ next 0 255 18
        ∷ next 0 255 10
        ∷ next 0 255 2
        ∷ here 6 255 0
        ∷ [])
    ∷ (wide 0 63 47
        ∷ wide 0 255 39
        ∷ wide 0 255 31
        ∷ wide 0 255 23
        ∷ next 0 255 15
        ∷ next 0 255 7
        ∷ here 1 255 0
        ∷ [])
    ∷ (wide 0 1 52
        ∷ wide 0 255 44
        ∷ wide 0 255 36
        ∷ wide 0 255 28
        ∷ next 0 255 20
        ∷ next 0 255 12
        ∷ next 0 255 4
        ∷ here 4 255 0
        ∷ [])
    ∷ (wide 0 15 49
        ∷ wide 0 255 41
        ∷ wide 0 255 33
        ∷ wide 0 255 25
        ∷ next 0 255 17
        ∷ next 0 255 9
        ∷ next 0 255 1
        ∷ here 7 255 0
        ∷ [])
    ∷ (wide 0 127 46
        ∷ wide 0 255 38
        ∷ wide 0 255 30
        ∷ next 0 255 22
        ∷ next 0 255 14
        ∷ next 0 255 6
        ∷ here 2 255 0
        ∷ [])
    ∷ (wide 0 3 51
        ∷ wide 0 255 43
        ∷ wide 0 255 35
        ∷ wide 0 255 27
        ∷ next 0 255 19
        ∷ next 0 255 11
        ∷ next 0 255 3
        ∷ here 5 255 0
        ∷ [])
    ∷ (wide 0 31 48
        ∷ wide 0 255 40
        ∷ wide 0 255 32
        ∷ wide 0 255 24
        ∷ next 0 255 16
        ∷ next 0 255 8
        ∷ here 0 255 0
        ∷ [])
    ∷ []

abbrev pub unpack_bits_54 : UnpackCode
unpack_bits_54 =
    (wide 0 255 46
      ∷ wide 0 255 38
      ∷ wide 0 255 30
      ∷ next 0 255 22
      ∷ next 0 255 14
      ∷ next 0 255 6
      ∷ here 2 255 0
      ∷ [])
    ∷ (wide 0 3 52
        ∷ wide 0 255 44
        ∷ wide 0 255 36
        ∷ wide 0 255 28
        ∷ next 0 255 20
        ∷ next 0 255 12
        ∷ next 0 255 4
        ∷ here 4 255 0
        ∷ [])
    ∷ (wide 0 15 50
        ∷ wide 0 255 42
        ∷ wide 0 255 34
        ∷ wide 0 255 26
        ∷ next 0 255 18
        ∷ next 0 255 10
        ∷ next 0 255 2
        ∷ here 6 255 0
        ∷ [])
    ∷ (wide 0 63 48
        ∷ wide 0 255 40
        ∷ wide 0 255 32
        ∷ wide 0 255 24
        ∷ next 0 255 16
        ∷ next 0 255 8
        ∷ next 0 255 0
        ∷ [])
    ∷ (wide 0 255 46
        ∷ wide 0 255 38
        ∷ wide 0 255 30
        ∷ next 0 255 22
        ∷ next 0 255 14
        ∷ next 0 255 6
        ∷ here 2 255 0
        ∷ [])
    ∷ (wide 0 3 52
        ∷ wide 0 255 44
        ∷ wide 0 255 36
        ∷ wide 0 255 28
        ∷ next 0 255 20
        ∷ next 0 255 12
        ∷ next 0 255 4
        ∷ here 4 255 0
        ∷ [])
    ∷ (wide 0 15 50
        ∷ wide 0 255 42
        ∷ wide 0 255 34
        ∷ wide 0 255 26
        ∷ next 0 255 18
        ∷ next 0 255 10
        ∷ next 0 255 2
        ∷ here 6 255 0
        ∷ [])
    ∷ (wide 0 63 48
        ∷ wide 0 255 40
        ∷ wide 0 255 32
        ∷ wide 0 255 24
        ∷ next 0 255 16
        ∷ next 0 255 8
        ∷ next 0 255 0
        ∷ [])
    ∷ []

abbrev pub unpack_bits_55 : UnpackCode
unpack_bits_55 =
    (wide 0 255 47
      ∷ wide 0 255 39
      ∷ wide 0 255 31
      ∷ next 0 255 23
      ∷ next 0 255 15
      ∷ next 0 255 7
      ∷ here 1 255 0
      ∷ [])
    ∷ (wide 0 1 54
        ∷ wide 0 255 46
        ∷ wide 0 255 38
        ∷ wide 0 255 30
        ∷ next 0 255 22
        ∷ next 0 255 14
        ∷ next 0 255 6
        ∷ here 2 255 0
        ∷ [])
    ∷ (wide 0 3 53
        ∷ wide 0 255 45
        ∷ wide 0 255 37
        ∷ wide 0 255 29
        ∷ next 0 255 21
        ∷ next 0 255 13
        ∷ next 0 255 5
        ∷ here 3 255 0
        ∷ [])
    ∷ (wide 0 7 52
        ∷ wide 0 255 44
        ∷ wide 0 255 36
        ∷ wide 0 255 28
        ∷ next 0 255 20
        ∷ next 0 255 12
        ∷ next 0 255 4
        ∷ here 4 255 0
        ∷ [])
    ∷ (wide 0 15 51
        ∷ wide 0 255 43
        ∷ wide 0 255 35
        ∷ wide 0 255 27
        ∷ next 0 255 19
        ∷ next 0 255 11
        ∷ next 0 255 3
        ∷ here 5 255 0
        ∷ [])
    ∷ (wide 0 31 50
        ∷ wide 0 255 42
        ∷ wide 0 255 34
        ∷ wide 0 255 26
        ∷ next 0 255 18
        ∷ next 0 255 10
        ∷ next 0 255 2
        ∷ here 6 255 0
        ∷ [])
    ∷ (wide 0 63 49
        ∷ wide 0 255 41
        ∷ wide 0 255 33
        ∷ wide 0 255 25
        ∷ next 0 255 17
        ∷ next 0 255 9
        ∷ next 0 255 1
        ∷ here 7 255 0
        ∷ [])
    ∷ (wide 0 127 48
        ∷ wide 0 255 40
        ∷ wide 0 255 32
        ∷ wide 0 255 24
        ∷ next 0 255 16
        ∷ next 0 255 8
        ∷ here 0 255 0
        ∷ [])
    ∷ []

abbrev pub unpack_bits_56 : UnpackCode
unpack_bits_56 =
    (wide 0 255 48
      ∷ wide 0 255 40
      ∷ wide 0 255 32
      ∷ wide 0 255 24
      ∷ next 0 255 16
      ∷ next 0 255 8
      ∷ next 0 255 0
      ∷ [])
    ∷ (wide 0 255 48
        ∷ wide 0 255 40
        ∷ wide 0 255 32
        ∷ wide 0 255 24
        ∷ next 0 255 16
        ∷ next 0 255 8
        ∷ next 0 255 0
        ∷ [])
    ∷ (wide 0 255 48
        ∷ wide 0 255 40
        ∷ wide 0 255 32
        ∷ wide 0 255 24
        ∷ next 0 255 16
        ∷ next 0 255 8
        ∷ next 0 255 0
        ∷ [])
    ∷ (wide 0 255 48
        ∷ wide 0 255 40
        ∷ wide 0 255 32
        ∷ wide 0 255 24
        ∷ next 0 255 16
        ∷ next 0 255 8
        ∷ next 0 255 0
        ∷ [])
    ∷ (wide 0 255 48
        ∷ wide 0 255 40
        ∷ wide 0 255 32
        ∷ wide 0 255 24
        ∷ next 0 255 16
        ∷ next 0 255 8
        ∷ next 0 255 0
        ∷ [])
    ∷ (wide 0 255 48
        ∷ wide 0 255 40
        ∷ wide 0 255 32
        ∷ wide 0 255 24
        ∷ next 0 255 16
        ∷ next 0 255 8
        ∷ next 0 255 0
        ∷ [])
    ∷ (wide 0 255 48
        ∷ wide 0 255 40
        ∷ wide 0 255 32
        ∷ wide 0 255 24
        ∷ next 0 255 16
        ∷ next 0 255 8
        ∷ next 0 255 0
        ∷ [])
    ∷ (wide 0 255 48
        ∷ wide 0 255 40
        ∷ wide 0 255 32
        ∷ wide 0 255 24
        ∷ next 0 255 16
        ∷ next 0 255 8
        ∷ here 0 255 0
        ∷ [])
    ∷ []
