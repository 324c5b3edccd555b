-- ===== src/Fs/Super/Mount.antt =====
-- testfs_init_super_block of fs/super.c: what it makes of a device, and that mounting the device of
-- a running file system again finds the same super block and freemaps.
use ece334operating_system.Prelude.{
  ℕ, ◌+◌, ◌*◌, ◌/◌, ◌%◌, ◌≤◌, ◌<◌, ◌≡◌, refl, true, Option, none, some, arith, ◌∙◌, ap, sym,
}
use ece334operating_system.Prelude.Bits.{test_bit}
use ece334operating_system.Fs.Device.{Device, block_size}
use ece334operating_system.Fs.Device.Frame.{block_byte, read_blocks_lem}
use ece334operating_system.Fs.Bitmap.{Bitmap, bitmap_create, bitmap_nr_allocated}
use ece334operating_system.Fs.Bitmap.Bits.{is_set, IsValid}
use ece334operating_system.Fs.Bitmap.Count.{nr_allocated_le, nr_allocated-count, count_below_same}
use ece334operating_system.Fs.Super.{
  SuperBlock, DsuperBlock, InitCalls, Mounted, mounted, testfs_init_super_block, read_freemap,
  init_inode_freemap, init_block_freemap, super_bytes, super_of_bytes,
}
use ece334operating_system.Fs.Super.Layout.{Fits, super_of_bytes-super_bytes, super_of_bytes_same}
use ece334operating_system.Fs.Super.Sync.{Bounded, Synced}
use ece334operating_system.Fs.Super.Inv.{IsMounted, IsLaidOut, data_start, block_bits, inode_bits}

-- every allocation succeeds, and so does the opening of the device
abbrev pub calls_succeed : InitCalls
calls_succeed = record {
  malloc_sb = true;
  open_errno = none;
  malloc_inode_map = true;
  malloc_inode_bits = true;
  malloc_block_map = true;
  malloc_block_bits = true;
}

-- the map of `n` blocks that the device holds from block `start` on
abbrev pub stored_map : Device → ℕ → ℕ → Bitmap
stored_map dev start n = record {
  nbits = block_size * n * 8;
  v = λ p. dev.byte (start * block_size + p);
}

-- What the device holds: a super block in its first block, and both freemaps inside the file with as
-- many bits set as the super block says.
pub record Holds (dev : Device) (d : DsuperBlock) : Type 0 where
  pub laid_out : IsLaidOut d
  pub bounded : Bounded dev.byte
  pub in_file : data_start * block_size ≤ dev.size
  pub super_synced : (p : ℕ) → p < block_size → block_byte dev 0 p ≡ super_bytes d p
  pub inode_count : d.used_inode_count ≡ bitmap_nr_allocated (stored_map dev 1 1)
  pub block_count : d.used_block_count ≡ bitmap_nr_allocated (stored_map dev 2 16)

read_inode_freemap :
    (dev : Device) (start : ℕ)
    → (start + 1) * block_size ≤ dev.size
    → read_freemap true true dev start 1 ≡ some (some (stored_map dev start 1))
unfolding read_freemap bitmap_create
read_inode_freemap dev start h = rw (read_blocks_lem dev start 1 h) refl

read_block_freemap :
    (dev : Device) (start : ℕ)
    → (start + 16) * block_size ≤ dev.size
    → read_freemap true true dev start 16 ≡ some (some (stored_map dev start 16))
unfolding read_freemap bitmap_create
read_block_freemap dev start h = rw (read_blocks_lem dev start 16 h) refl

-- the super block that mounting such a device gives
abbrev pub mounted_from : Device → DsuperBlock → SuperBlock
mounted_from dev d = record {
  sb = d;
  dev = dev;
  inode_freemap = some (stored_map dev 1 1);
  block_freemap = some (stored_map dev 2 16);
}

Holds-Fits : {dev : Device} {d : DsuperBlock} → Holds dev d → Fits d
Holds-Fits {dev} h = record {
  inode_freemap_start = omega (arith, h.laid_out.inode_freemap_start);
  block_freemap_start = omega (arith, h.laid_out.block_freemap_start);
  inode_blocks_start = omega (arith, h.laid_out.inode_blocks_start);
  data_blocks_start = omega (arith, h.laid_out.data_blocks_start);
  used_inode_count = omega (arith, h.inode_count, nr_allocated_le (stored_map dev 1 1));
  used_block_count = omega (arith, h.block_count, nr_allocated_le (stored_map dev 2 16));
  max_fs_blocks = h.laid_out.max_fs_blocks;
}

stored-IsValid :
    (dev : Device) (start n : ℕ) → n ≤ 16 → Bounded dev.byte → IsValid (stored_map dev start n)
stored-IsValid dev start n h b = record {
  bytes = λ i. b (start * block_size + i);
  small = omega arith;
  leftover = λ i lo hi. absurd (omega arith);
}

stored-Synced :
    (dev : Device) (start n : ℕ)
    → (start + n) * block_size ≤ dev.size
    → Synced dev start n (stored_map dev start n)
stored-Synced dev start n h = record { in_file = h; same = λ k p hk hp. ap dev.byte (omega arith) }

mounted_from-IsMounted :
    (dev : Device) (d : DsuperBlock)
    → Holds dev d
    → IsMounted (mounted_from dev d) (stored_map dev 1 1) (stored_map dev 2 16)
mounted_from-IsMounted dev d h = record {
  laid_out = h.laid_out;
  inode_map = refl;
  block_map = refl;
  inode_valid = stored-IsValid dev 1 1 (omega arith) h.bounded;
  block_valid = stored-IsValid dev 2 16 (omega arith) h.bounded;
  inode_nbits = refl;
  block_nbits = refl;
  inode_count = h.inode_count;
  block_count = h.block_count;
  bounded = h.bounded;
  inode_synced = stored-Synced dev 1 1 (omega (arith, h.in_file));
  block_synced = stored-Synced dev 2 16 (omega (arith, h.in_file));
  super_synced = h.super_synced;
  in_file = h.in_file;
}

init_eq :
    (dev : Device) (d : DsuperBlock)
    → Holds dev d
    → testfs_init_super_block calls_succeed dev ≡ some (mounted (mounted_from dev d))
unfolding testfs_init_super_block init_inode_freemap init_block_freemap
init_eq dev d h =
    let sb : super_of_bytes (λ p. dev.byte (0 * block_size + p)) ≡ d =
      super_of_bytes_same (λ p. dev.byte (0 * block_size + p)) (super_bytes d)
        (λ p hp. h.super_synced p (omega arith))
      ∙ super_of_bytes-super_bytes d (Holds-Fits h) in
    rw
      (
        read_blocks_lem dev 0 1 (omega (arith, h.in_file)),
        sb,
        h.laid_out.inode_freemap_start,
        h.laid_out.block_freemap_start,
        read_inode_freemap dev 1 (omega (arith, h.in_file)),
        read_block_freemap dev 2 (omega (arith, h.in_file)),
      )
      refl

-- Mounting a device that holds a super block and its freemaps succeeds, and the file system is
-- mounted with that super block and those freemaps.
pub init_lem :
    (dev : Device) (d : DsuperBlock)
    → Holds dev d
    → (testfs_init_super_block calls_succeed dev ≡ some (mounted (mounted_from dev d)))
      × IsMounted (mounted_from dev d) (stored_map dev 1 1) (stored_map dev 2 16)
init_lem dev d h = (init_eq dev d h, mounted_from-IsMounted dev d h)

-- The stored map has the bits of the map that it is in step with.
stored_bits :
    (dev : Device) (start n : ℕ) (m : Bitmap) (i : ℕ)
    → Synced dev start n m
    → i < n * 65536
    → is_set (stored_map dev start n) i ≡ is_set m i
stored_bits dev start n m i s h =
    ap (λ w. test_bit w (i % 8))
      (ap dev.byte (omega arith)
        ∙ s.same (i / 8 / block_size) (i / 8 % block_size) (omega arith) (omega arith)
        ∙ ap m.v (omega arith))

stored_count :
    (dev : Device) (start n : ℕ) (m : Bitmap)
    → Synced dev start n m
    → m.nbits ≡ block_size * n * 8
    → bitmap_nr_allocated (stored_map dev start n) ≡ bitmap_nr_allocated m
stored_count dev start n m s e =
    nr_allocated-count (stored_map dev start n)
    ∙ count_below_same (block_size * n * 8) (is_set m) (is_set (stored_map dev start n))
        (λ i h. stored_bits dev start n m i s (omega arith))
    ∙ rw (nr_allocated-count m, e)

-- What mounting gives: a mounted file system with the same super block, device and set bits.
abbrev pub Remounts : SuperBlock → Bitmap → Bitmap → Option Mounted → Type 0
Remounts s im bm (some (mounted s')) =
    (im' : Bitmap) × (bm' : Bitmap) × IsMounted s' im' bm'
    × (s'.sb ≡ s.sb)
    × (s'.dev ≡ s.dev)
    × ((i : ℕ) → i < inode_bits → is_set im' i ≡ is_set im i)
    × ((i : ℕ) → i < block_bits → is_set bm' i ≡ is_set bm i)
Remounts s im bm _ = ⊥

-- Mounting the device of a mounted file system, at any time, succeeds and finds the same super block
-- and the same allocated inodes and blocks.
pub remount :
    (s : SuperBlock) (im bm : Bitmap)
    → IsMounted s im bm
    → Remounts s im bm (testfs_init_super_block calls_succeed s.dev)
remount s im bm mt = rw (init_eq s.dev s.sb holds) (
  stored_map s.dev 1 1,
  stored_map s.dev 2 16,
  mounted_from-IsMounted s.dev s.sb holds,
  refl,
  refl,
  λ i h. stored_bits s.dev 1 1 im i mt.inode_synced (omega arith),
  λ i h. stored_bits s.dev 2 16 bm i mt.block_synced (omega arith),
)
  where
    holds : Holds s.dev s.sb
    holds = record {
      laid_out = mt.laid_out;
      bounded = mt.bounded;
      in_file = mt.in_file;
      super_synced = mt.super_synced;
      inode_count = mt.inode_count ∙ sym (stored_count s.dev 1 1 im mt.inode_synced mt.inode_nbits);
      block_count =
          mt.block_count ∙ sym (stored_count s.dev 2 16 bm mt.block_synced mt.block_nbits);
    }
