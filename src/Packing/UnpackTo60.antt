-- ===== src/Packing/UnpackTo60.antt =====
-- `unpack_bits_57` to `unpack_bits_60` of theta-sketch/bit_packing.hpp, statement by statement.
use singlestoredb_extension.Base.{[], ◌∷◌}
use singlestoredb_extension.Packing.Code.{UnpackCode, here, next, wide}

abbrev pub unpack_bits_57 : UnpackCode
unpack_bits_57 =
    (wide 0 255 49
      ∷ wide 0 255 41
      ∷ wide 0 255 33
      ∷ wide 0 255 25
      ∷ next 0 255 17
      ∷ next 0 255 9
      ∷ next 0 255 1
      ∷ here 7 255 0
      ∷ [])
    ∷ (wide 0 127 50
        ∷ wide 0 255 42
        ∷ wide 0 255 34
        ∷ wide 0 255 26
        ∷ next 0 255 18
        ∷ next 0 255 10
        ∷ next 0 255 2
        ∷ here 6 255 0
        ∷ [])
    ∷ (wide 0 63 51
        ∷ wide 0 255 43
        ∷ wide 0 255 35
        ∷ wide 0 255 27
        ∷ next 0 255 19
        ∷ next 0 255 11
        ∷ next 0 255 3
        ∷ here 5 255 0
        ∷ [])
    ∷ (wide 0 31 52
        ∷ wide 0 255 44
        ∷ wide 0 255 36
        ∷ wide 0 255 28
        ∷ next 0 255 20
        ∷ next 0 255 12
        ∷ next 0 255 4
        ∷ here 4 255 0
        ∷ [])
    ∷ (wide 0 15 53
        ∷ wide 0 255 45
        ∷ wide 0 255 37
        ∷ wide 0 255 29
        ∷ next 0 255 21
        ∷ next 0 255 13
        ∷ next 0 255 5
        ∷ here 3 255 0
        ∷ [])
    ∷ (wide 0 7 54
        ∷ wide 0 255 46
        ∷ wide 0 255 38
        ∷ wide 0 255 30
        ∷ next 0 255 22
        ∷ next 0 255 14
        ∷ next 0 255 6
        ∷ here 2 255 0
        ∷ [])
    ∷ (wide 0 3 55
        ∷ wide 0 255 47
        ∷ wide 0 255 39
        ∷ wide 0 255 31
        ∷ next 0 255 23
        ∷ next 0 255 15
        ∷ next 0 255 7
        ∷ here 1 255 0
        ∷ [])
    ∷ (wide 0 1 56
        ∷ wide 0 255 48
        ∷ wide 0 255 40
        ∷ wide 0 255 32
        ∷ wide 0 255 24
        ∷ next 0 255 16
        ∷ next 0 255 8
        ∷ here 0 255 0
        ∷ [])
    ∷ []

abbrev pub unpack_bits_58 : UnpackCode
unpack_bits_58 =
    (wide 0 255 50
      ∷ wide 0 255 42
      ∷ wide 0 255 34
      ∷ wide 0 255 26
      ∷ next 0 255 18
      ∷ next 0 255 10
      ∷ next 0 255 2
      ∷ here 6 255 0
      ∷ [])
    ∷ (wide 0 63 52
        ∷ wide 0 255 44
        ∷ wide 0 255 36
        ∷ wide 0 255 28
        ∷ next 0 255 20
        ∷ next 0 255 12
        ∷ next 0 255 4
        ∷ here 4 255 0
        ∷ [])
    ∷ (wide 0 15 54
        ∷ wide 0 255 46
        ∷ wide 0 255 38
        ∷ wide 0 255 30
        ∷ next 0 255 22
        ∷ next 0 255 14
        ∷ next 0 255 6
        ∷ here 2 255 0
        ∷ [])
    ∷ (wide 0 3 56
        ∷ wide 0 255 48
        ∷ wide 0 255 40
        ∷ wide 0 255 32
        ∷ wide 0 255 24
        ∷ next 0 255 16
        ∷ next 0 255 8
        ∷ next 0 255 0
        ∷ [])
    ∷ (wide 0 255 50
        ∷ wide 0 255 42
        ∷ wide 0 255 34
        ∷ wide 0 255 26
        ∷ next 0 255 18
        ∷ next 0 255 10
        ∷ next 0 255 2
        ∷ here 6 255 0
        ∷ [])
    ∷ (wide 0 63 52
        ∷ wide 0 255 44
        ∷ wide 0 255 36
        ∷ wide 0 255 28
        ∷ next 0 255 20
        ∷ next 0 255 12
        ∷ next 0 255 4
        ∷ here 4 255 0
        ∷ [])
    ∷ (wide 0 15 54
        ∷ wide 0 255 46
        ∷ wide 0 255 38
        ∷ wide 0 255 30
        ∷ next 0 255 22
        ∷ next 0 255 14
        ∷ next 0 255 6
        ∷ here 2 255 0
        ∷ [])
    ∷ (wide 0 3 56
        ∷ wide 0 255 48
        ∷ wide 0 255 40
        ∷ wide 0 255 32
        ∷ wide 0 255 24
        ∷ next 0 255 16
        ∷ next 0 255 8
        ∷ next 0 255 0
        ∷ [])
    ∷ []

abbrev pub unpack_bits_59 : UnpackCode
unpack_bits_59 =
    (wide 0 255 51
      ∷ wide 0 255 43
      ∷ wide 0 255 35
      ∷ wide 0 255 27
      ∷ next 0 255 19
      ∷ next 0 255 11
      ∷ next 0 255 3
      ∷ here 5 255 0
      ∷ [])
    ∷ (wide 0 31 54
        ∷ wide 0 255 46
        ∷ wide 0 255 38
        ∷ wide 0 255 30
        ∷ next 0 255 22
        ∷ next 0 255 14
        ∷ next 0 255 6
        ∷ here 2 255 0
        ∷ [])
    ∷ (wide 0 3 57
        ∷ wide 0 255 49
        ∷ wide 0 255 41
        ∷ wide 0 255 33
        ∷ wide 0 255 25
        ∷ next 0 255 17
        ∷ next 0 255 9
        ∷ next 0 255 1
        ∷ here 7 255 0
        ∷ [])
    ∷ (wide 0 127 52
        ∷ wide 0 255 44
        ∷ wide 0 255 36
        ∷ wide 0 255 28
        ∷ next 0 255 20
        ∷ next 0 255 12
        ∷ next 0 255 4
        ∷ here 4 255 0
        ∷ [])
    ∷ (wide 0 15 55
        ∷ wide 0 255 47
        ∷ wide 0 255 39
        ∷ wide 0 255 31
        ∷ next 0 255 23
        ∷ next 0 255 15
        ∷ next 0 255 7
        ∷ here 1 255 0
        ∷ [])
    ∷ (wide 0 1 58
        ∷ wide 0 255 50
        ∷ wide 0 255 42
        ∷ wide 0 255 34
        ∷ wide 0 255 26
        ∷ next 0 255 18
        ∷ next 0 255 10
        ∷ next 0 255 2
        ∷ here 6 255 0
        ∷ [])
    ∷ (wide 0 63 53
        ∷ wide 0 255 45
        ∷ wide 0 255 37
        ∷ wide 0 255 29
        ∷ next 0 255 21
        ∷ next 0 255 13
        ∷ next 0 255 5
        ∷ here 3 255 0
        ∷ [])
    ∷ (wide 0 7 56
        ∷ wide 0 255 48
        ∷ wide 0 255 40
        ∷ wide 0 255 32
        ∷ wide 0 255 24
        ∷ next 0 255 16
        ∷ next 0 255 8
        ∷ here 0 255 0
        ∷ [])
    ∷ []

abbrev pub unpack_bits_60 : UnpackCode
unpack_bits_60 =
    (wide 0 255 52
      ∷ wide 0 255 44
      ∷ wide 0 255 36
      ∷ wide 0 255 28
      ∷ next 0 255 20
      ∷ next 0 255 12
      ∷ next 0 255 4
      ∷ here 4 255 0
      ∷ [])
    ∷ (wide 0 15 56
        ∷ wide 0 255 48
        ∷ wide 0 255 40
        ∷ wide 0 255 32
        ∷ wide 0 255 24
        ∷ next 0 255 16
        ∷ next 0 255 8
        ∷ next 0 255 0
        ∷ [])
    ∷ (wide 0 255 52
        ∷ wide 0 255 44
        ∷ wide 0 255 36
        ∷ wide 0 255 28
        ∷ next 0 255 20
        ∷ next 0 255 12
        ∷ next 0 255 4
        ∷ here 4 255 0
        ∷ [])
    ∷ (wide 0 15 56
        ∷ wide 0 255 48
        ∷ wide 0 255 40
        ∷ wide 0 255 32
        ∷ wide 0 255 24
        ∷ next 0 255 16
        ∷ next 0 255 8
        ∷ next 0 255 0
        ∷ [])
    ∷ (wide 0 255 52
        ∷ wide 0 255 44
        ∷ wide 0 255 36
        ∷ wide 0 255 28
        ∷ next 0 255 20
        ∷ next 0 255 12
        ∷ next 0 255 4
        ∷ here 4 255 0
        ∷ [])
    ∷ (wide 0 15 56
        ∷ wide 0 255 48
        ∷ wide 0 255 40
        ∷ wide 0 255 32
        ∷ wide 0 255 24
        ∷ next 0 255 16
        ∷ next 0 255 8
        ∷ next 0 255 0
        ∷ [])
    ∷ (wide 0 255 52
        ∷ wide 0 255 44
        ∷ wide 0 255 36
        ∷ wide 0 255 28
        ∷ next 0 255 20
        ∷ next 0 255 12
        ∷ next 0 255 4
        ∷ here 4 255 0
        ∷ [])
    ∷ (wide 0 15 56
        ∷ wide 0 255 48
        ∷ wide 0 255 40
        ∷ wide 0 255 32
        ∷ wide 0 255 24
        ∷ next 0 255 16
        ∷ next 0 255 8
        ∷ here 0 255 0
        ∷ [])
    ∷ []
