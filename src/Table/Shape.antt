-- ===== src/Table/Shape.antt =====
-- The sizes of a table: its capacity leaves an empty slot, and growth makes room.
use singlestoredb_extension.Base.{ℕ, suc, ◌+◌, ◌*◌, ◌^◌, ◌≤◌, ◌<◌, ◌≡◌, ap, arith, min}
use native.Mathlib.Nat.{pow-suc}
use singlestoredb_extension.Base.Powers.{pow_mono}
use singlestoredb_extension.Table.{get_capacity}

-- The sizes with which a sketch or a union builds its table.
pub record IsShaped (lg_cur lg_nom rf : ℕ) : Type 0 where
  pub least : 5 ≤ lg_cur
  pub most : lg_cur ≤ lg_nom + 1
  pub nominal : lg_nom ≤ 26
  pub factor : rf ≤ 3
  pub grows : lg_cur ≤ lg_nom → 1 ≤ rf

module _ {lg_cur lg_nom rf : ℕ} (shape : IsShaped lg_cur lg_nom rf) where
  least_size : 32 ≤ 2 ^ lg_cur
  least_size = pow_mono 5 lg_cur shape.least

  most_size : 2 ^ lg_cur ≤ 2 ^ 27
  most_size = pow_mono lg_cur 27 (omega arith)

  -- One entry over the capacity still leaves an empty slot.
  pub capacity-lt : get_capacity lg_cur lg_nom + 1 < 2 ^ lg_cur
  unfolding get_capacity
  capacity-lt = ground (arith, least_size)

  pub capacity_small : get_capacity lg_cur lg_nom + 1 < 2 ^ 32
  capacity_small = omega (arith, capacity-lt, most_size)

  -- No table holds more entries than one of 2 ^ 27 slots.
  pub capacity-most : get_capacity lg_cur lg_nom ≤ 125829120
  unfolding get_capacity
  capacity-most = ground (arith, most_size)

  -- Past the capacity of the largest array there are more than the nominal entries.
  pub capacity-nominal : lg_nom < lg_cur → 2 ^ lg_nom ≤ get_capacity lg_cur lg_nom
  unfolding get_capacity
  capacity-nominal h =
      let e : lg_cur ≡ suc lg_nom = omega arith in
      ground (arith, least_size, pow-suc 2 lg_nom, ap (λ (x : ℕ). 2 ^ x) e)

  -- The next size, where the table grows.
  abbrev next : ℕ
  next = min (lg_cur + rf) (lg_nom + 1)

  module _ (small : lg_cur ≤ lg_nom) where
    next-lt : lg_cur < next
    next-lt = omega (arith, shape.grows small)

    double : 2 * 2 ^ lg_cur ≤ 2 ^ next
    double = omega (arith, pow-suc 2 lg_cur, pow_mono (suc lg_cur) next next-lt)

    pub next-IsShaped : IsShaped next lg_nom rf
    next-IsShaped = record {
      least = omega (arith, next-lt, shape.least);
      most = omega arith;
      nominal = shape.nominal;
      factor = shape.factor;
      grows = λ _. shape.grows small;
    }

    pub capacity-next : get_capacity lg_cur lg_nom + 1 ≤ get_capacity next lg_nom
    unfolding get_capacity
    capacity-next = ground (arith, double, least_size)
