-- ===== src/Fs/Super/Inv.antt =====
-- The invariant of a mounted file system of fs/super.c, and the two ways in which a freemap, its
-- counter and the device change together.
use ece334operating_system.Prelude.{
  ℕ, ◌+◌, ◌*◌, ◌^◌, ◌≤◌, ◌<◌, ◌≡◌, refl, Bool, some, arith, ◌∙◌, ap,
}
use ece334operating_system.Fs.Device.{Device, Bytes, block_size, write_blocks, zero_blocks}
use ece334operating_system.Fs.Device.Frame.{
  block_byte, InFile, write_blocks_in, write_blocks_out, size-write_blocks, size-write_inside,
  write_blocks_byte, zero_blocks_out, size-zero_blocks,
}
use ece334operating_system.Fs.Bitmap.{Bitmap, bitmap_nr_allocated}
use ece334operating_system.Fs.Bitmap.Bits.{IsValid}
use ece334operating_system.Fs.Bitmap.Mark.{Flipped}
use ece334operating_system.Fs.Super.{
  SuperBlock, DsuperBlock, freemap_bytes, freemap_block, super_bytes,
}
use ece334operating_system.Fs.Super.Sync.{
  Bounded, Synced, Synced-kept, Synced-out, Synced-write, write_blocks-Bounded, zero_blocks-Bounded,
}

abbrev pub inode_bits : ℕ
inode_bits = 65536

abbrev pub block_bits : ℕ
block_bits = 1048576

-- where testfs_make_super_block puts the data blocks
abbrev pub data_start : ℕ
data_start = 146

-- The places that testfs_make_super_block gives to the parts of the device.
pub record IsLaidOut (d : DsuperBlock) : Type 0 where
  pub inode_freemap_start : d.inode_freemap_start ≡ 1
  pub block_freemap_start : d.block_freemap_start ≡ 2
  pub inode_blocks_start : d.inode_blocks_start ≡ 18
  pub data_blocks_start : d.data_blocks_start ≡ data_start
  pub max_fs_blocks : d.max_fs_blocks < 2 ^ 64

-- The freemaps are there and valid, the counters count them, and the device holds the super block
-- and both freemaps as they are in memory.
pub record IsMounted (s : SuperBlock) (im bm : Bitmap) : Type 0 where
  pub laid_out : IsLaidOut s.sb
  pub inode_map : s.inode_freemap ≡ some im
  pub block_map : s.block_freemap ≡ some bm
  pub inode_valid : IsValid im
  pub block_valid : IsValid bm
  pub inode_nbits : im.nbits ≡ inode_bits
  pub block_nbits : bm.nbits ≡ block_bits
  pub inode_count : s.sb.used_inode_count ≡ bitmap_nr_allocated im
  pub block_count : s.sb.used_block_count ≡ bitmap_nr_allocated bm
  pub bounded : Bounded s.dev.byte
  pub inode_synced : Synced s.dev 1 1 im
  pub block_synced : Synced s.dev 2 16 bm
  pub super_synced : (p : ℕ) → p < block_size → block_byte s.dev 0 p ≡ super_bytes s.sb p
  pub in_file : data_start * block_size ≤ s.dev.size

pub super_bytes-Bounded : (d : DsuperBlock) → Bounded (super_bytes d)
unfolding super_bytes
super_bytes-Bounded d p = ground arith

-- The blocks from 18 on, the inode blocks and the data blocks, are the same on both devices.
pub record SameBlocks (dev dev' : Device) : Type 0 where
  pub size : dev.size ≤ dev'.size
  pub same_size : dev'.size ≡ dev.size
  pub bytes : (q : ℕ) → 18 * block_size ≤ q → q < dev.size → dev'.byte q ≡ dev.byte q
  pub same :
      (k p : ℕ) → 18 ≤ k → InFile dev k → p < block_size → block_byte dev' k p ≡ block_byte dev k p

-- The device after a freemap block and the super block were written.
abbrev pub written : Device → Bytes → ℕ → DsuperBlock → Device
written dev b at d = write_blocks (write_blocks dev b at 1) (super_bytes d) 0 1

pub written-SameBlocks :
    (dev : Device) (b : Bytes) (at : ℕ) (d : DsuperBlock)
    → at < 18
    → 18 * block_size ≤ dev.size
    → SameBlocks dev (written dev b at d)
written-SameBlocks dev b at d low long = record {
  size = grow;
  same_size =
      size-write_inside (write_blocks dev b at 1) (super_bytes d) 0 1 (omega (arith, inner))
      ∙ inner;
  bytes = λ q lo hi.
      write_blocks_byte (write_blocks dev b at 1) (super_bytes d) 0 1 q (omega arith)
        (omega (arith, inner))
      ∙ write_blocks_byte dev b at 1 q (omega arith) hi;
  same = λ k p hk h hp.
      write_blocks_out (write_blocks dev b at 1) (super_bytes d) 0 1 k p (omega arith) hp
        (omega (arith, size-write_blocks dev b at 1))
      ∙ write_blocks_out dev b at 1 k p (omega arith) hp h;
}
  where
    inner : (write_blocks dev b at 1).size ≡ dev.size
    inner = size-write_inside dev b at 1 (omega arith)

    grow : dev.size ≤ (written dev b at d).size
    grow = omega (
      arith,
      size-write_blocks dev b at 1,
      size-write_blocks (write_blocks dev b at 1) (super_bytes d) 0 1,
    )

-- The state after the block freemap became `m` at bit `i`, with `used` blocks.
abbrev pub with_block_map : SuperBlock → Bitmap → ℕ → ℕ → SuperBlock
with_block_map s m i used =
    let d : DsuperBlock = s.sb in
    let d' : DsuperBlock = record d { used_block_count = used } in
    record s {
      sb = d';
      dev = written s.dev (freemap_bytes m (freemap_block i)) (2 + freemap_block i) d';
      block_freemap = some m;
    }

-- The same for the inode freemap.
abbrev pub with_inode_map : SuperBlock → Bitmap → ℕ → ℕ → SuperBlock
with_inode_map s m i used =
    let d : DsuperBlock = s.sb in
    let d' : DsuperBlock = record d { used_inode_count = used } in
    record s {
      sb = d';
      dev = written s.dev (freemap_bytes m (freemap_block i)) (1 + freemap_block i) d';
      inode_freemap = some m;
    }

module _ {s : SuperBlock} {im bm : Bitmap} (mt : IsMounted s im bm) (i : ℕ) (value : Bool)
    (used : ℕ) where
  pub with_block_map-IsMounted :
      (m : Bitmap)
      → Flipped bm i value m
      → used ≡ bitmap_nr_allocated m
      → IsMounted (with_block_map s m i used) im m
  with_block_map-IsMounted m f count = record {
    laid_out = record {
      inode_freemap_start = mt.laid_out.inode_freemap_start;
      block_freemap_start = mt.laid_out.block_freemap_start;
      inode_blocks_start = mt.laid_out.inode_blocks_start;
      data_blocks_start = mt.laid_out.data_blocks_start;
      max_fs_blocks = mt.laid_out.max_fs_blocks;
    };
    inode_map = mt.inode_map;
    block_map = refl;
    inode_valid = mt.inode_valid;
    block_valid = f.valid;
    inode_nbits = mt.inode_nbits;
    block_nbits = f.nbits ∙ mt.block_nbits;
    inode_count = mt.inode_count;
    block_count = count;
    bounded = write_blocks-Bounded dev1 (super_bytes d') 0 1 bounded1 (super_bytes-Bounded d');
    inode_synced =
        Synced-out dev1 (super_bytes d') 0 1 1 im (omega arith)
          (Synced-out s.dev b (2 + nr) 1 1 im (omega arith) mt.inode_synced);
    block_synced =
        Synced-out dev1 (super_bytes d') 0 2 16 m (omega arith)
          (Synced-write s.dev 2 16 bm m i low f.words mt.block_synced);
    super_synced = λ p hp.
        write_blocks_in dev1 (super_bytes d') 0 1 0 p (omega arith) (omega arith) hp
        ∙ ap (super_bytes d') (omega arith);
    in_file = omega (
      arith,
      mt.in_file,
      (written-SameBlocks s.dev b (2 + nr) d' (omega (arith, low))
          (omega (arith, mt.in_file))).size,
    );
  }
    where
      nr : ℕ
      nr = freemap_block i

      b : Bytes
      b = freemap_bytes m nr

      d : DsuperBlock
      d = s.sb

      d' : DsuperBlock
      d' = record d { used_block_count = used }

      dev1 : Device
      dev1 = write_blocks s.dev b (2 + nr) 1

      low : nr < 16
      low = omega (arith, f.in_range, mt.block_nbits)

      bounded1 : Bounded dev1.byte
      bounded1 =
          write_blocks-Bounded s.dev b (2 + nr) 1 mt.bounded
            (λ q. f.valid.bytes (nr * block_size + q))

  pub with_inode_map-IsMounted :
      (m : Bitmap)
      → Flipped im i value m
      → used ≡ bitmap_nr_allocated m
      → IsMounted (with_inode_map s m i used) m bm
  with_inode_map-IsMounted m f count = record {
    laid_out = record {
      inode_freemap_start = mt.laid_out.inode_freemap_start;
      block_freemap_start = mt.laid_out.block_freemap_start;
      inode_blocks_start = mt.laid_out.inode_blocks_start;
      data_blocks_start = mt.laid_out.data_blocks_start;
      max_fs_blocks = mt.laid_out.max_fs_blocks;
    };
    inode_map = refl;
    block_map = mt.block_map;
    inode_valid = f.valid;
    block_valid = mt.block_valid;
    inode_nbits = f.nbits ∙ mt.inode_nbits;
    block_nbits = mt.block_nbits;
    inode_count = count;
    block_count = mt.block_count;
    bounded = write_blocks-Bounded dev1 (super_bytes d') 0 1 bounded1 (super_bytes-Bounded d');
    inode_synced =
        Synced-out dev1 (super_bytes d') 0 1 1 m (omega arith)
          (Synced-write s.dev 1 1 im m i low f.words mt.inode_synced);
    block_synced =
        Synced-out dev1 (super_bytes d') 0 2 16 bm (omega arith)
          (Synced-out s.dev b (1 + nr) 2 16 bm (omega (arith, low)) mt.block_synced);
    super_synced = λ p hp.
        write_blocks_in dev1 (super_bytes d') 0 1 0 p (omega arith) (omega arith) hp
        ∙ ap (super_bytes d') (omega arith);
    in_file = omega (
      arith,
      mt.in_file,
      (written-SameBlocks s.dev b (1 + nr) d' (omega (arith, low))
          (omega (arith, mt.in_file))).size,
    );
  }
    where
      nr : ℕ
      nr = freemap_block i

      b : Bytes
      b = freemap_bytes m nr

      d : DsuperBlock
      d = s.sb

      d' : DsuperBlock
      d' = record d { used_inode_count = used }

      dev1 : Device
      dev1 = write_blocks s.dev b (1 + nr) 1

      low : nr < 1
      low = omega (arith, f.in_range, mt.inode_nbits)

      bounded1 : Bounded dev1.byte
      bounded1 =
          write_blocks-Bounded s.dev b (1 + nr) 1 mt.bounded
            (λ q. f.valid.bytes (nr * block_size + q))

-- Zeroing a data block keeps the invariant.
pub zero_data-IsMounted :
    {s : SuperBlock} {im bm : Bitmap} (k : ℕ)
    → data_start ≤ k
    → IsMounted s im bm
    → IsMounted (record s { dev = zero_blocks s.dev k 1 }) im bm
zero_data-IsMounted {s} {im} {bm} k h mt = record {
  laid_out = mt.laid_out;
  inode_map = mt.inode_map;
  block_map = mt.block_map;
  inode_valid = mt.inode_valid;
  block_valid = mt.block_valid;
  inode_nbits = mt.inode_nbits;
  block_nbits = mt.block_nbits;
  inode_count = mt.inode_count;
  block_count = mt.block_count;
  bounded = zero_blocks-Bounded s.dev k 1 mt.bounded;
  inode_synced =
      Synced-kept s.dev (zero_blocks s.dev k 1) 1 1 im (size-zero_blocks 1 s.dev k)
        (λ j p lo hi hp f. zero_blocks_out 1 s.dev k j p (omega arith) hp f) mt.inode_synced;
  block_synced =
      Synced-kept s.dev (zero_blocks s.dev k 1) 2 16 bm (size-zero_blocks 1 s.dev k)
        (λ j p lo hi hp f. zero_blocks_out 1 s.dev k j p (omega arith) hp f) mt.block_synced;
  super_synced = λ p hp.
      zero_blocks_out 1 s.dev k 0 p (omega arith) hp (omega (arith, mt.in_file))
      ∙ mt.super_synced p hp;
  in_file = omega (arith, mt.in_file, size-zero_blocks 1 s.dev k);
}

-- Writing a block past the freemaps keeps the invariant.
pub write_late-IsMounted :
    {s : SuperBlock} {im bm : Bitmap} (b : Bytes) (k : ℕ)
    → 18 ≤ k
    → Bounded b
    → IsMounted s im bm
    → IsMounted (record s { dev = write_blocks s.dev b k 1 }) im bm
write_late-IsMounted {s} {im} {bm} b k h hb mt = record {
  laid_out = mt.laid_out;
  inode_map = mt.inode_map;
  block_map = mt.block_map;
  inode_valid = mt.inode_valid;
  block_valid = mt.block_valid;
  inode_nbits = mt.inode_nbits;
  block_nbits = mt.block_nbits;
  inode_count = mt.inode_count;
  block_count = mt.block_count;
  bounded = write_blocks-Bounded s.dev b k 1 mt.bounded hb;
  inode_synced = Synced-out s.dev b k 1 1 im (omega arith) mt.inode_synced;
  block_synced = Synced-out s.dev b k 2 16 bm (omega arith) mt.block_synced;
  super_synced = λ p hp.
      write_blocks_out s.dev b k 1 0 p (omega arith) hp (omega (arith, mt.in_file))
      ∙ mt.super_synced p hp;
  in_file = omega (arith, mt.in_file, size-write_blocks s.dev b k 1);
}

-- Writing a data block does.
pub write_data-IsMounted :
    {s : SuperBlock} {im bm : Bitmap} (b : Bytes) (k : ℕ)
    → data_start ≤ k
    → Bounded b
    → IsMounted s im bm
    → IsMounted (record s { dev = write_blocks s.dev b k 1 }) im bm
write_data-IsMounted b k h hb mt = write_late-IsMounted b k (omega arith) hb mt
