-- ===== src/Bits.antt =====
-- The operations on binary digits at variables: their laws, and numbers as sequences of bits.
pub mod Step
pub mod Xor
pub mod Digit
pub mod Move
pub mod Bytes
