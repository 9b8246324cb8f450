-- ===== src/Memory.antt =====
-- muggle/c/memory: buffers and pools.
pub mod BytesBuffer
pub mod MemoryPool
