-- ===== src/Tests.antt =====
-- Concrete tables, sketches and unions, and the theorems at them. Keys are small numbers here; real
-- ones are 63-bit hashes.
mod Handles
mod Packs
mod Serials
mod Tables
mod Probes
mod Sizes
mod Streams
mod Sketches
mod Intersections
use singlestoredb_extension.Base.{ℕ, ◌%◌, ◌^◌, ◌≤◌, arith}
use singlestoredb_extension.Table.{max_theta}
use singlestoredb_extension.UpdateSketch.{Builder}
use singlestoredb_extension.UpdateSketch.Build.{IsBuilder}

-- The smallest sketch that the builder allows.
abbrev pub small : Builder
small = record { lg_k = 5; rf = 1; p_theta = max_theta; seed = 9001 }

pub small-IsBuilder : IsBuilder small
small-IsBuilder = record { least = omega arith; most = omega arith; factor = omega arith }

pub small-bounded : small.p_theta ≤ max_theta
small-bounded = omega arith

-- A seed hash of 16 bits.
abbrev pub seed_code : ℕ → ℕ
seed_code seed = seed % 2 ^ 16
