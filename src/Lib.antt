-- ===== src/Lib.antt =====
-- mugglec, a C base library: its data structures, sorts and buffers, its ciphers and parity tables.
--
-- Memory models muggle/c/memory, Dsaa muggle/c/dsaa and Crypt muggle/c/crypt. Base holds what they
-- share: Boolean tests, lists under native indices, `memcpy` on lists, and total correctness. Bits
-- has the laws of the bitwise operations: Step and Xor their recursion and algebra, Digit and Move
-- single bits and their moves, Bytes the little-endian bytes of a word.
--
-- An array is a list, a pointer into an array an index, a `void*` of the client a number with 0 for
-- NULL. An access outside an array of a container, a buffer or a sort is a fault, `none`; the ciphers'
-- arrays have the sizes that the C code gives them, a key as many bytes as its bits take, so that
-- their reads are inside. `malloc` is a parameter: it may fail, and
-- the memory that it gives has any contents; what is relied on is its size and, in runs of a pool,
-- that it overlaps nothing that is there. `free` functions of the client are modelled by the list of what they are
-- called with. A client's comparison is a parameter that orders the data by a rank. Sizes that the
-- source computes in `size_t` or `uint64_t` wrap around where this can happen.
--
-- * Memory/BytesBuffer is muggle/c/memory/bytes_buffer.c. `Valid.contents` is the stream that a
--   buffer holds; Read, Write and ZeroCopy relate the calls to it, Stream their runs, and
--   Truncation shows what a stale truncation mark does.
-- * Memory/MemoryPool is muggle/c/memory/memory_pool.c. Ring reads a ring of pointers from an index on,
--   Queue states when a pool is valid and the queue of its blocks that are not in use, with `free`;
--   Copying, Split and Grow treat `ensure_space`, Alloc and Init the calls that allocate; Occurrences
--   counts the blocks of a buffer, and Safety treats runs of a client's calls, each with its own
--   `malloc`.
-- * Dsaa/Utils is muggle/c/dsaa/dsaa_utils.h, Dsaa/Heap is muggle/c/dsaa/heap.c. Order states the
--   heap order and counts nodes, Grow is the allocation, and the other children are one for each
--   operation. The sifting loops take fuel: one more than the size, which each theorem shows to be
--   enough by returning a value.
-- * Dsaa/ArrayList is muggle/c/dsaa/array_list.c and Dsaa/Stack is muggle/c/dsaa/stack.c; Dsaa/Cells
--   holds the loop that both copy their nodes with. Casts treats the casts of a list's size to
--   `int`; Find, Grow, Shift and Edit prove its operations,
--   Overlong treats lists of more than 2^31 entries. Stack/Laws is about the stack.
-- * Dsaa/Sort is muggle/c/dsaa/sort.c. Gap states order at a gap and the loop with a hole that
--   insertion and shell sort share; Heapsort uses the heap's theorems. Merge defines merge sort,
--   which Segments, Runs, MergeLoop and Merging prove, and Quick defines quick sort.
-- * Crypt/Parity is muggle/c/crypt/parity.c.
-- * Crypt/Modes holds what muggle/c/crypt/aes.c, des.c and tdes.c share: the checks of parameters
--   and the loops of the five modes for any block cipher. Blocks and Streams relate the loops of
--   encryption and decryption.
-- * Crypt/InternalAes is muggle/c/crypt/internal/internal_aes.c: Field treats the product in the field of
--   256 elements, Columns the columns' matrices, Layers the other layers, Inverse the rounds.
--   Crypt/Aes is aes.c, with Blocks for one block, Keys for the contexts and Decrypt for the modes.
-- * Crypt/InternalDes is muggle/c/crypt/internal/internal_des.c, with its tables in Tables;
--   Permutation treats the initial and the final one.
--   Crypt/Des is des.c: Feistel treats the rounds, Schedule the subkeys, RoundTrip the bytes of a
--   block, Keys and Decrypt as for AES. Crypt/Tdes is tdes.c, in which one pass follows another.
--
-- The ciphers are modelled as they are built without MUGGLE_CRYPT_OPTIMIZATION; with it, which
-- CMakeLists.txt sets, the block ciphers and key schedules are those of the openssl copy, and the
-- theorems of Crypt/Modes hold of any cipher. The unions of bytes and words are those of a
-- little-endian machine. An input and its output do not overlap. What a call leaves in a context
-- that it fails to set up is not said.
--
-- Bounds: capacities stay below 2^58 or 2^59 where a theorem says so, so that the number of bytes of
-- an array does not wrap around; pools have fewer than 2^31 or 2^32 blocks, as an
-- `unsigned int` counts them; the casts of an array list's size to `int` are exact below 2^31,
-- which the theorems on its indices ask for. Fuel: `shell_shift` gets one more than the index that it starts at, `shell_loop` one more
-- than the first increment, `merge_recursive` and `quick_recursive` one more than the number of
-- pointers, of which each half has fewer, `merge_loop` one more than the pointers to merge, and
-- `scan_up` and `partition` the length of the array, which their index cannot pass. `galois_loop` gets
-- 8, the bits of the byte that it halves.
--
-- Not modelled: the other containers of muggle/c/dsaa; the other pools of muggle/c/memory; muggle/c/base,
-- log, sync, os, time, version and net. Sockets, threads, clocks and files are calls of
-- the operating system, and muggle/c/crypt/openssl is a copy of another library.
pub mod Base
pub mod Bits
pub mod Crypt
pub mod Dsaa
pub mod Memory
