-- ===== src/Fs/Super/Layout.antt =====
-- The super block of fs/super.c as the bytes of its block: written and read back it is the same.
use ece334operating_system.Prelude.{ℕ, ◌+◌, ◌*◌, ◌^◌, ◌<◌, ◌≡◌, arith}
use ece334operating_system.Fs.Device.{Bytes}
use ece334operating_system.Fs.Super.{DsuperBlock, super_bytes, super_of_bytes, u32_at, le_byte}

-- The fields fit their types.
pub record Fits (d : DsuperBlock) : Type 0 where
  pub inode_freemap_start : d.inode_freemap_start < 2 ^ 32
  pub block_freemap_start : d.block_freemap_start < 2 ^ 32
  pub inode_blocks_start : d.inode_blocks_start < 2 ^ 32
  pub data_blocks_start : d.data_blocks_start < 2 ^ 32
  pub used_inode_count : d.used_inode_count < 2 ^ 32
  pub used_block_count : d.used_block_count < 2 ^ 32
  pub max_fs_blocks : d.max_fs_blocks < 2 ^ 64

pub u32_of_bytes :
    (w : ℕ)
    → w < 2 ^ 32
    → le_byte w 0 + 256 * le_byte w 1 + 65536 * le_byte w 2 + 16777216 * le_byte w 3 ≡ w
u32_of_bytes w h = omega arith

pub u64_of_bytes :
    (w : ℕ)
    → w < 2 ^ 64
    → le_byte w 0
        + 256 * le_byte w 1
        + 65536 * le_byte w 2
        + 16777216 * le_byte w 3
        + 4294967296
          * (le_byte w 4 + 256 * le_byte w 5 + 65536 * le_byte w 6 + 16777216 * le_byte w 7)
      ≡ w
u64_of_bytes w h = omega arith

-- What memcpy puts into the block of the super block, memcpy gets back.
pub super_of_bytes-super_bytes : (d : DsuperBlock) → Fits d → super_of_bytes (super_bytes d) ≡ d
unfolding super_of_bytes super_bytes
super_of_bytes-super_bytes d f = λ i. record {
  inode_freemap_start = u32_of_bytes d.inode_freemap_start f.inode_freemap_start i;
  block_freemap_start = u32_of_bytes d.block_freemap_start f.block_freemap_start i;
  inode_blocks_start = u32_of_bytes d.inode_blocks_start f.inode_blocks_start i;
  data_blocks_start = u32_of_bytes d.data_blocks_start f.data_blocks_start i;
  used_inode_count = u32_of_bytes d.used_inode_count f.used_inode_count i;
  used_block_count = u32_of_bytes d.used_block_count f.used_block_count i;
  max_fs_blocks = u64_of_bytes d.max_fs_blocks f.max_fs_blocks i;
}

-- The reading looks at the first 32 bytes alone.
pub super_of_bytes_same :
    (b c : Bytes) → ((p : ℕ) → p < 32 → b p ≡ c p) → super_of_bytes b ≡ super_of_bytes c
unfolding super_of_bytes
super_of_bytes_same b c h = λ i. record {
  inode_freemap_start = u32_same 0 (omega arith) i;
  block_freemap_start = u32_same 4 (omega arith) i;
  inode_blocks_start = u32_same 8 (omega arith) i;
  data_blocks_start = u32_same 12 (omega arith) i;
  used_inode_count = u32_same 16 (omega arith) i;
  used_block_count = u32_same 20 (omega arith) i;
  max_fs_blocks = u32_same 24 (omega arith) i + 4294967296 * u32_same 28 (omega arith) i;
}
  where
    u32_same : (o : ℕ) → o < 29 → u32_at b o ≡ u32_at c o
    u32_same o lt = omega (
      arith,
      h o (omega arith),
      h (o + 1) (omega arith),
      h (o + 2) (omega arith),
      h (o + 3) (omega arith),
    )
