-- ===== src/Aes.antt =====
-- src/simple_aes.c.
pub mod Tables
pub mod Field
pub mod Block
pub mod Key
pub mod Schedule
pub mod Standard
pub mod Size
pub mod Range
pub mod Xor
pub mod Mixing
pub mod Columns
pub mod Permutation
mod Tests
