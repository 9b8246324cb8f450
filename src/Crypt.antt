-- ===== src/Crypt.antt =====
-- muggle/c/crypt: ciphers and parity.
pub mod Parity
pub mod InternalDes
pub mod Modes
pub mod Des
pub mod InternalAes
pub mod Aes
pub mod Tdes
