-- ===== src/Packing/Block.antt =====
-- The dispatch on the number of bits: `pack_bits_block8` and `unpack_bits_block8` of
-- theta-sketch/bit_packing.hpp.
use singlestoredb_extension.Base.{
  ℕ, ◌-◌, ◌==◌, List, [], ◌∷◌, Option, none, some, Outcome, stop, logic_err, if◌then◌else◌,
  get_elem?,
}
use singlestoredb_extension.Packing.Code.{PackCode, UnpackCode, run_pack, run_unpack}
use singlestoredb_extension.Packing.PackTo4.{pack_bits_1, pack_bits_2, pack_bits_3, pack_bits_4}
use singlestoredb_extension.Packing.PackTo8.{pack_bits_5, pack_bits_6, pack_bits_7, pack_bits_8}
use singlestoredb_extension.Packing.PackTo12.{pack_bits_9, pack_bits_10, pack_bits_11, pack_bits_12}
use singlestoredb_extension.Packing.PackTo16.{
  pack_bits_13, pack_bits_14, pack_bits_15, pack_bits_16,
}
use singlestoredb_extension.Packing.PackTo20.{
  pack_bits_17, pack_bits_18, pack_bits_19, pack_bits_20,
}
use singlestoredb_extension.Packing.PackTo24.{
  pack_bits_21, pack_bits_22, pack_bits_23, pack_bits_24,
}
use singlestoredb_extension.Packing.PackTo28.{
  pack_bits_25, pack_bits_26, pack_bits_27, pack_bits_28,
}
use singlestoredb_extension.Packing.PackTo32.{
  pack_bits_29, pack_bits_30, pack_bits_31, pack_bits_32,
}
use singlestoredb_extension.Packing.PackTo36.{
  pack_bits_33, pack_bits_34, pack_bits_35, pack_bits_36,
}
use singlestoredb_extension.Packing.PackTo40.{
  pack_bits_37, pack_bits_38, pack_bits_39, pack_bits_40,
}
use singlestoredb_extension.Packing.PackTo44.{
  pack_bits_41, pack_bits_42, pack_bits_43, pack_bits_44,
}
use singlestoredb_extension.Packing.PackTo48.{
  pack_bits_45, pack_bits_46, pack_bits_47, pack_bits_48,
}
use singlestoredb_extension.Packing.PackTo52.{
  pack_bits_49, pack_bits_50, pack_bits_51, pack_bits_52,
}
use singlestoredb_extension.Packing.PackTo56.{
  pack_bits_53, pack_bits_54, pack_bits_55, pack_bits_56,
}
use singlestoredb_extension.Packing.PackTo60.{
  pack_bits_57, pack_bits_58, pack_bits_59, pack_bits_60,
}
use singlestoredb_extension.Packing.PackTo63.{pack_bits_61, pack_bits_62, pack_bits_63}
use singlestoredb_extension.Packing.UnpackTo4.{
  unpack_bits_1, unpack_bits_2, unpack_bits_3, unpack_bits_4,
}
use singlestoredb_extension.Packing.UnpackTo8.{
  unpack_bits_5, unpack_bits_6, unpack_bits_7, unpack_bits_8,
}
use singlestoredb_extension.Packing.UnpackTo12.{
  unpack_bits_9, unpack_bits_10, unpack_bits_11, unpack_bits_12,
}
use singlestoredb_extension.Packing.UnpackTo16.{
  unpack_bits_13, unpack_bits_14, unpack_bits_15, unpack_bits_16,
}
use singlestoredb_extension.Packing.UnpackTo20.{
  unpack_bits_17, unpack_bits_18, unpack_bits_19, unpack_bits_20,
}
use singlestoredb_extension.Packing.UnpackTo24.{
  unpack_bits_21, unpack_bits_22, unpack_bits_23, unpack_bits_24,
}
use singlestoredb_extension.Packing.UnpackTo28.{
  unpack_bits_25, unpack_bits_26, unpack_bits_27, unpack_bits_28,
}
use singlestoredb_extension.Packing.UnpackTo32.{
  unpack_bits_29, unpack_bits_30, unpack_bits_31, unpack_bits_32,
}
use singlestoredb_extension.Packing.UnpackTo36.{
  unpack_bits_33, unpack_bits_34, unpack_bits_35, unpack_bits_36,
}
use singlestoredb_extension.Packing.UnpackTo40.{
  unpack_bits_37, unpack_bits_38, unpack_bits_39, unpack_bits_40,
}
use singlestoredb_extension.Packing.UnpackTo44.{
  unpack_bits_41, unpack_bits_42, unpack_bits_43, unpack_bits_44,
}
use singlestoredb_extension.Packing.UnpackTo48.{
  unpack_bits_45, unpack_bits_46, unpack_bits_47, unpack_bits_48,
}
use singlestoredb_extension.Packing.UnpackTo52.{
  unpack_bits_49, unpack_bits_50, unpack_bits_51, unpack_bits_52,
}
use singlestoredb_extension.Packing.UnpackTo56.{
  unpack_bits_53, unpack_bits_54, unpack_bits_55, unpack_bits_56,
}
use singlestoredb_extension.Packing.UnpackTo60.{
  unpack_bits_57, unpack_bits_58, unpack_bits_59, unpack_bits_60,
}
use singlestoredb_extension.Packing.UnpackTo63.{unpack_bits_61, unpack_bits_62, unpack_bits_63}

abbrev pub pack_cases : List PackCode
pack_cases =
    pack_bits_1 ∷ pack_bits_2 ∷ pack_bits_3 ∷ pack_bits_4 ∷ pack_bits_5 ∷ pack_bits_6 ∷ pack_bits_7
    ∷ pack_bits_8 ∷ pack_bits_9 ∷ pack_bits_10 ∷ pack_bits_11 ∷ pack_bits_12 ∷ pack_bits_13
    ∷ pack_bits_14 ∷ pack_bits_15 ∷ pack_bits_16 ∷ pack_bits_17 ∷ pack_bits_18 ∷ pack_bits_19
    ∷ pack_bits_20 ∷ pack_bits_21 ∷ pack_bits_22 ∷ pack_bits_23 ∷ pack_bits_24 ∷ pack_bits_25
    ∷ pack_bits_26 ∷ pack_bits_27 ∷ pack_bits_28 ∷ pack_bits_29 ∷ pack_bits_30 ∷ pack_bits_31
    ∷ pack_bits_32 ∷ pack_bits_33 ∷ pack_bits_34 ∷ pack_bits_35 ∷ pack_bits_36 ∷ pack_bits_37
    ∷ pack_bits_38 ∷ pack_bits_39 ∷ pack_bits_40 ∷ pack_bits_41 ∷ pack_bits_42 ∷ pack_bits_43
    ∷ pack_bits_44 ∷ pack_bits_45 ∷ pack_bits_46 ∷ pack_bits_47 ∷ pack_bits_48 ∷ pack_bits_49
    ∷ pack_bits_50 ∷ pack_bits_51 ∷ pack_bits_52 ∷ pack_bits_53 ∷ pack_bits_54 ∷ pack_bits_55
    ∷ pack_bits_56 ∷ pack_bits_57 ∷ pack_bits_58 ∷ pack_bits_59 ∷ pack_bits_60 ∷ pack_bits_61
    ∷ pack_bits_62 ∷ pack_bits_63 ∷ []

abbrev pub unpack_cases : List UnpackCode
unpack_cases =
    unpack_bits_1 ∷ unpack_bits_2 ∷ unpack_bits_3 ∷ unpack_bits_4 ∷ unpack_bits_5 ∷ unpack_bits_6
    ∷ unpack_bits_7 ∷ unpack_bits_8 ∷ unpack_bits_9 ∷ unpack_bits_10 ∷ unpack_bits_11
    ∷ unpack_bits_12 ∷ unpack_bits_13 ∷ unpack_bits_14 ∷ unpack_bits_15 ∷ unpack_bits_16
    ∷ unpack_bits_17 ∷ unpack_bits_18 ∷ unpack_bits_19 ∷ unpack_bits_20 ∷ unpack_bits_21
    ∷ unpack_bits_22 ∷ unpack_bits_23 ∷ unpack_bits_24 ∷ unpack_bits_25 ∷ unpack_bits_26
    ∷ unpack_bits_27 ∷ unpack_bits_28 ∷ unpack_bits_29 ∷ unpack_bits_30 ∷ unpack_bits_31
    ∷ unpack_bits_32 ∷ unpack_bits_33 ∷ unpack_bits_34 ∷ unpack_bits_35 ∷ unpack_bits_36
    ∷ unpack_bits_37 ∷ unpack_bits_38 ∷ unpack_bits_39 ∷ unpack_bits_40 ∷ unpack_bits_41
    ∷ unpack_bits_42 ∷ unpack_bits_43 ∷ unpack_bits_44 ∷ unpack_bits_45 ∷ unpack_bits_46
    ∷ unpack_bits_47 ∷ unpack_bits_48 ∷ unpack_bits_49 ∷ unpack_bits_50 ∷ unpack_bits_51
    ∷ unpack_bits_52 ∷ unpack_bits_53 ∷ unpack_bits_54 ∷ unpack_bits_55 ∷ unpack_bits_56
    ∷ unpack_bits_57 ∷ unpack_bits_58 ∷ unpack_bits_59 ∷ unpack_bits_60 ∷ unpack_bits_61
    ∷ unpack_bits_62 ∷ unpack_bits_63 ∷ []

-- The case of the `switch`, whose labels are 1 to 63.
unfoldable pub case_of {ℓ} : {A : Type ℓ} → List A → ℕ → Option A
case_of cases bits = if bits == 0 then none else get_elem? cases (bits - 1)

-- The block of 8 values is packed into the buffer at `ptr`.
unfoldable pub pack_bits_block8 : (values : List ℕ) (bits : ℕ) (buffer : List ℕ) → Outcome (List ℕ)
unfolding case_of run_pack
pack_bits_block8 values bits buffer = elim (case_of pack_cases bits) [
  | none ↦ stop logic_err
  | some code ↦ run_pack code values buffer
]

-- The values of the block that starts at `ptr`.
unfoldable pub unpack_bits_block8 : (bytes : List ℕ) (bits : ℕ) → Outcome (List ℕ)
unfolding case_of run_unpack
unpack_bits_block8 bytes bits = elim (case_of unpack_cases bits) [
  | none ↦ stop logic_err
  | some code ↦ run_unpack code bytes
]
