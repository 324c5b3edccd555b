-- ===== src/Fs/Itable/Dinodes.antt =====
-- The struct dinode of fs/inode.c as bytes, and where it lies on the device.
use ece334operating_system.Prelude.{
  ℕ, ◌+◌, ◌-◌, ◌*◌, ◌/◌, ◌%◌, ◌^◌, ◌≤◌, ◌<◌, ◌≡◌, refl, some, arith, ◌∙◌, ap,
}
use ece334operating_system.Fs.Device.{Bytes}
use ece334operating_system.Fs.Device.Frame.{block_byte, read_blocks_lem}
use ece334operating_system.Fs.Bitmap.{Bitmap}
use ece334operating_system.Fs.Super.{SuperBlock, add_u32, le_byte, u32_at, u64_at}
use ece334operating_system.Fs.Super.Layout.{u32_of_bytes, u64_of_bytes}
use ece334operating_system.Fs.Super.Inv.{IsMounted}
use ece334operating_system.Fs.Inode.{Dinode}
use ece334operating_system.Fs.Itable.{
  dinode_bytes, dinode_of_bytes, testfs_inode_to_block_nr, testfs_inode_to_block_offset,
  testfs_read_inode_block, read_dinode,
}

-- The fields hold numbers of their widths.
pub record Fits (d : Dinode) : Type 0 where
  pub i_type : d.i_type < 2 ^ 32
  pub i_block_nr : (i : ℕ) → i < 10 → d.i_block_nr i < 2 ^ 32
  pub i_indirect : d.i_indirect < 2 ^ 32
  pub i_dindirect : d.i_dindirect < 2 ^ 32
  pub block_count : d.block_count < 2 ^ 32
  pub i_size : d.i_size < 2 ^ 64

-- The same contents; `i_block_nr` has ten entries.
pub record SameDinode (d e : Dinode) : Type 0 where
  pub i_type : e.i_type ≡ d.i_type
  pub i_block_nr : (i : ℕ) → i < 10 → e.i_block_nr i ≡ d.i_block_nr i
  pub i_indirect : e.i_indirect ≡ d.i_indirect
  pub i_dindirect : e.i_dindirect ≡ d.i_dindirect
  pub block_count : e.block_count ≡ d.block_count
  pub i_size : e.i_size ≡ d.i_size

module _ (d : Dinode) (f : Fits d) where
  type_word : u32_at (dinode_bytes d) 0 ≡ d.i_type
  unfolding dinode_bytes
  type_word = u32_of_bytes d.i_type f.i_type

  indirect_word : u32_at (dinode_bytes d) 44 ≡ d.i_indirect
  unfolding dinode_bytes
  indirect_word = u32_of_bytes d.i_indirect f.i_indirect

  dindirect_word : u32_at (dinode_bytes d) 48 ≡ d.i_dindirect
  unfolding dinode_bytes
  dindirect_word = u32_of_bytes d.i_dindirect f.i_dindirect

  count_word : u32_at (dinode_bytes d) 52 ≡ d.block_count
  unfolding dinode_bytes
  count_word = u32_of_bytes d.block_count f.block_count

  size_word : u64_at (dinode_bytes d) 56 ≡ d.i_size
  unfolding dinode_bytes
  size_word = u64_of_bytes d.i_size f.i_size

direct_byte :
    (d : Dinode) (i r : ℕ)
    → i < 10
    → r < 4
    → dinode_bytes d (4 + 4 * i + r) ≡ le_byte (d.i_block_nr i) r
unfolding dinode_bytes
direct_byte d i r hi hr =
    let at : (4 + 4 * i + r - 4) / 4 ≡ i = omega arith in
    let off : (4 + 4 * i + r - 4) % 4 ≡ r = omega arith in rw (at, off) (ground arith)

direct_word :
    (d : Dinode) (i : ℕ)
    → i < 10
    → d.i_block_nr i < 2 ^ 32
    → u32_at (dinode_bytes d) (4 + 4 * i) ≡ d.i_block_nr i
direct_word d i hi h =
    let w = d.i_block_nr i in
    let first : dinode_bytes d (4 + 4 * i) ≡ w % 256 =
      ap (dinode_bytes d) (omega arith) ∙ direct_byte d i 0 hi (omega arith) ∙ omega arith in
    let second : dinode_bytes d (4 + 4 * i + 1) ≡ w / 256 % 256 =
      direct_byte d i 1 hi (omega arith) in
    let third : dinode_bytes d (4 + 4 * i + 2) ≡ w / 65536 % 256 =
      direct_byte d i 2 hi (omega arith) in
    let fourth : dinode_bytes d (4 + 4 * i + 3) ≡ w / 16777216 % 256 =
      direct_byte d i 3 hi (omega arith) in
    omega arith

-- A dinode survives the way through bytes that agree with its own.
pub SameDinode-bytes :
    (d : Dinode) (b : Bytes)
    → Fits d
    → ((p : ℕ) → p < 64 → b p ≡ dinode_bytes d p)
    → SameDinode d (dinode_of_bytes b)
unfolding dinode_of_bytes
SameDinode-bytes d b f same = record {
  i_type = word 0 (omega arith) ∙ type_word d f;
  i_block_nr = λ i h. word (4 + 4 * i) (omega arith) ∙ direct_word d i h (f.i_block_nr i h);
  i_indirect = word 44 (omega arith) ∙ indirect_word d f;
  i_dindirect = word 48 (omega arith) ∙ dindirect_word d f;
  block_count = word 52 (omega arith) ∙ count_word d f;
  i_size = omega (arith, word 56 (omega arith), word 60 (omega arith), size_word d f);
}
  where
    word : (o : ℕ) → o + 4 ≤ 64 → u32_at b o ≡ u32_at (dinode_bytes d) o
    word o h = omega (
      arith,
      same o (omega arith),
      same (o + 1) (omega arith),
      same (o + 2) (omega arith),
      same (o + 3) (omega arith),
    )

-- the block of inode `nr`
abbrev pub inode_block : ℕ → ℕ
inode_block nr = 18 + nr / 128

pub inode_to_block_nr_lem : (nr : ℕ) → nr < 16384 → testfs_inode_to_block_nr nr ≡ some (nr / 128)
unfolding testfs_inode_to_block_nr
inode_to_block_nr_lem nr h = ground arith

pub read_inode_block_lem :
    {s : SuperBlock} {im bm : Bitmap} (nr : ℕ)
    → IsMounted s im bm
    → nr < 16384
    → testfs_read_inode_block s nr ≡ some (λ p. block_byte s.dev (inode_block nr) p)
unfolding testfs_read_inode_block
read_inode_block_lem {s} {im} {bm} nr mt h =
    let at : add_u32 s.sb.inode_blocks_start (nr / 128) ≡ inode_block nr =
      omega (arith, mt.laid_out.inode_blocks_start) in
    rw (inode_to_block_nr_lem nr h, at)
      (read_blocks_lem s.dev (inode_block nr) 1 (omega (arith, mt.in_file)))

-- On a mounted file system every inode can be read.
pub read_dinode_lem :
    {s : SuperBlock} {im bm : Bitmap} (nr : ℕ)
    → IsMounted s im bm
    → nr < 16384
    → read_dinode s nr
      ≡ some (
          dinode_of_bytes
            (λ p. block_byte s.dev (inode_block nr) (testfs_inode_to_block_offset nr + p)))
unfolding read_dinode
read_dinode_lem nr mt h = rw (read_inode_block_lem nr mt h) refl
