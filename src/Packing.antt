-- ===== src/Packing.antt =====
-- The packing of hashes into bits of theta-sketch/bit_packing.hpp. The unrolled routines for blocks
-- of 8 values are tables of their statements, four of them in each file from PackTo4 to UnpackTo63,
-- which Code runs. Block has their dispatch, Single the two routines for a single value.
pub mod Code
pub mod Symbols
pub mod Symbolic
pub mod PackTo4
pub mod PackTo8
pub mod PackTo12
pub mod PackTo16
pub mod PackTo20
pub mod PackTo24
pub mod PackTo28
pub mod PackTo32
pub mod PackTo36
pub mod PackTo40
pub mod PackTo44
pub mod PackTo48
pub mod PackTo52
pub mod PackTo56
pub mod PackTo60
pub mod PackTo63
pub mod UnpackTo4
pub mod UnpackTo8
pub mod UnpackTo12
pub mod UnpackTo16
pub mod UnpackTo20
pub mod UnpackTo24
pub mod UnpackTo28
pub mod UnpackTo32
pub mod UnpackTo36
pub mod UnpackTo40
pub mod UnpackTo44
pub mod UnpackTo48
pub mod UnpackTo52
pub mod UnpackTo56
pub mod UnpackTo60
pub mod UnpackTo63
pub mod Block
pub mod Single
pub mod RoundTrip
