-- ===== src/Sizes.antt =====
-- The sizes of chunks and blocks: `InitSizes`, `ChunkSize`, `ChunkBytes` and `BlockSize` of
-- src/frisbee.redux/utils.c, with 1024 blocks to a chunk and 1024 bytes to a block, the values that
-- `InitSizes` asserts. The file-level variables are a record. Images are smaller than 2^41 bytes,
-- so that the `int` variables hold their values. The calls with chunk -1 are left out.
use frisbee.Base.{ℕ, ◌+◌, ◌-◌, ◌*◌, ◌/◌, ◌%◌, ◌<◌, ◌≡◌, Bool, ◌||◌, ◌&&◌}
use frisbee.Base.{arith, if◌then◌else◌, ◌==◌, ltb, leb}

abbrev pub chunk_blocks : ℕ
chunk_blocks = 1024

abbrev pub block_bytes : ℕ
block_bytes = 1024

pub record Sizes : Type 0 where
  pub total_chunks : ℕ
  pub total_blocks : ℕ
  pub last_chunk : ℕ
  pub last_block : ℕ

unfoldable pub init_sizes : ℕ → Sizes
init_sizes bytes =
    let blocks = (bytes + block_bytes - 1) / block_bytes in
    record {
      total_chunks = (blocks + chunk_blocks - 1) / chunk_blocks;
      total_blocks = blocks;
      last_chunk = blocks % chunk_blocks;
      last_block = bytes % block_bytes;
    }

-- `chunkno < _TotalChunks-1`
abbrev pub before_last : Sizes → ℕ → Bool
before_last s chunkno = ltb (chunkno + 1) s.total_chunks

unfoldable pub chunk_size : Sizes → ℕ → ℕ
chunk_size s chunkno =
    if before_last s chunkno || s.last_chunk == 0 then chunk_blocks else s.last_chunk

unfoldable pub chunk_bytes : Sizes → ℕ → ℕ
chunk_bytes s chunkno =
    if before_last s chunkno || s.last_chunk == 0
    then chunk_blocks * block_bytes
    else (s.last_chunk - 1) * block_bytes + s.last_block

unfoldable pub block_size : Sizes → ℕ → ℕ → ℕ
block_size s chunkno blockno =
    if ltb (chunkno * chunk_blocks + blockno + 1) s.total_blocks || s.last_block == 0
    then block_bytes
    else s.last_block

-- What is left of `n` after the first `k`, but at most `most`.
abbrev pub rest_up_to : ℕ → ℕ → ℕ → ℕ
rest_up_to most n k = if leb most (n - k) then most else n - k

-- A chunk of the image has the blocks that are left after the chunks before it, up to a full chunk,
-- and at least one.
pub chunk_size_lem :
    (bytes chunkno : ℕ)
    → chunkno < (init_sizes bytes).total_chunks
    → (chunk_size (init_sizes bytes) chunkno
        ≡ rest_up_to chunk_blocks (init_sizes bytes).total_blocks (chunkno * chunk_blocks))
      × (0 < chunk_size (init_sizes bytes) chunkno)
unfolding chunk_size init_sizes
chunk_size_lem bytes chunkno h = (ground arith, ground arith)

-- A block of the image has the bytes that are left after the blocks before it, up to a full block.
pub block_size_lem :
    (bytes chunkno blockno : ℕ)
    → chunkno * chunk_blocks + blockno < (init_sizes bytes).total_blocks
    → block_size (init_sizes bytes) chunkno blockno
      ≡ rest_up_to block_bytes bytes ((chunkno * chunk_blocks + blockno) * block_bytes)
unfolding block_size init_sizes
block_size_lem bytes chunkno blockno h = ground arith

-- The bytes of the image from chunk `chunkno` on.
abbrev pub left_from : ℕ → ℕ → ℕ
left_from bytes chunkno = bytes - chunkno * 1048576

-- `ChunkBytes` is the bytes that are left from the chunk on, up to a full chunk, but for two cases
-- of the last chunk: where it ends at the end of a block and is not full, the result is a block
-- short, and where it ends inside its last possible block, the result is a full chunk.
pub chunk_bytes_lem :
    (bytes chunkno : ℕ)
    → chunkno < (init_sizes bytes).total_chunks
    → chunk_bytes (init_sizes bytes) chunkno
        + (if bytes % block_bytes == 0 && ltb (left_from bytes chunkno) 1048576
            then block_bytes
            else 0)
      ≡ (if ltb 1047552 (left_from bytes chunkno) then 1048576 else left_from bytes chunkno)
unfolding chunk_bytes init_sizes
chunk_bytes_lem bytes chunkno h = ground arith
