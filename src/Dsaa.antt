-- ===== src/Dsaa.antt =====
-- muggle/c/dsaa: data structures and algorithms.
pub mod Utils
pub mod Cells
pub mod ArrayList
pub mod Stack
pub mod Heap
pub mod Sort
