-- ===== src/Fs/Super/Inodes.antt =====
-- testfs_get_inode_freemap and testfs_put_inode_freemap of fs/super.c on a mounted file system.
use ece334operating_system.Prelude.{
  ℕ, ◌+◌, ◌-◌, ◌≤◌, ◌<◌, ◌≡◌, true, false, Option, none, some, arith, ◌⊎◌, ◌∙◌, ap, sym, ◌>>=◌,
  lt→ltb,
}
use ece334operating_system.Prelude.Cint.{Ret, ok, err, enospc}
use ece334operating_system.Fs.Bitmap.{Bitmap, bitmap_alloc, bitmap_unmark, bitmap_nr_allocated}
use ece334operating_system.Fs.Bitmap.Bits.{is_set}
use ece334operating_system.Fs.Bitmap.Mark.{Flipped, Turns, bitmap_unmark-Turns}
use ece334operating_system.Fs.Bitmap.Alloc.{Full, Allocates, bitmap_alloc-Allocates}
use ece334operating_system.Fs.Bitmap.Count.{nr_allocated_set, nr_allocated_clear, nr_allocated_le}
use ece334operating_system.Fs.Super.{
  SuperBlock, testfs_get_inode_freemap, testfs_put_inode_freemap, got_inode, inode_released,
  testfs_write_inode_freemap, testfs_write_super_block, add_u32, freemap_block, freemap_bytes,
}
use ece334operating_system.Fs.Super.Inv.{
  IsMounted, SameBlocks, with_inode_map, with_inode_map-IsMounted, written-SameBlocks, inode_bits,
}

-- Inode `i` was allocated: its bit was the lowest clear one and is set now, the file system is mounted
-- with the new map, and no inode or data block changed.
pub record InodeAllocated (s : SuperBlock) (im bm : Bitmap) (i : ℕ) (s' : SuperBlock) : Type 0 where
  pub map : Bitmap
  pub first : Full im i
  pub flipped : Flipped im i true map
  pub still_mounted : IsMounted s' map bm
  pub same : SameBlocks s.dev s'.dev

abbrev pub GetInode : SuperBlock → Bitmap → Bitmap → Option (Ret × SuperBlock) → Type 0
GetInode s im bm none = ⊥
GetInode s im bm (some (ok i, s')) = InodeAllocated s im bm i s'
GetInode s im bm (some (err e, s')) = (e ≡ enospc) × (s' ≡ s) × Full im inode_bits

module _ {s : SuperBlock} {im bm : Bitmap} (mt : IsMounted s im bm) where
  taken : (r : Option (Ret × Bitmap)) → Allocates im r → GetInode s im bm (r >>= got_inode s)
  unfolding got_inode testfs_write_inode_freemap testfs_write_super_block
  taken none h = h
  taken (some (err e, m)) h = (
    h.0,
    λ j. record s { inode_freemap = (ap some h.1 ∙ sym mt.inode_map) j },
    λ j lt. h.2 j (omega (arith, mt.inode_nbits)),
  )
  taken (some (ok i, m)) h =
      let used = add_u32 s.sb.used_inode_count 1 in
      let low : i < inode_bits = omega (arith, h.1.in_range, mt.inode_nbits) in
      let at : add_u32 s.sb.inode_freemap_start (freemap_block i) ≡ 1 + freemap_block i =
        omega (arith, mt.laid_out.inode_freemap_start) in
      let count : used ≡ bitmap_nr_allocated m = omega (
        arith,
        nr_allocated_set h.1,
        mt.inode_count,
        nr_allocated_le m,
        h.1.nbits,
        mt.inode_nbits,
      ) in
      record {
        map = m;
        first = h.0;
        flipped = h.1;
        still_mounted = rw at (with_inode_map-IsMounted mt i true used m h.1 count);
        same = rw at (
            written-SameBlocks s.dev (freemap_bytes m (freemap_block i)) (1 + freemap_block i)
              (record (s.sb) { used_inode_count = used }) (omega arith)
              (omega (arith, mt.in_file)));
      }

get_inode_freemap_eq :
    (s : SuperBlock) (m : Bitmap)
    → s.inode_freemap ≡ some m
    → testfs_get_inode_freemap s ≡ (bitmap_alloc m >>= got_inode s)
unfolding testfs_get_inode_freemap
get_inode_freemap_eq s m e = ap (λ (o : Option Bitmap). o >>= λ m. bitmap_alloc m >>= got_inode s) e

-- On a mounted file system testfs_get_inode_freemap takes the lowest free inode number and keeps the
-- file system mounted, its inode and data blocks untouched; or it returns -ENOSPC, with nothing
-- changed, when every inode is in use. No assertion of it fails.
pub testfs_get_inode_freemap-GetInode :
    (s : SuperBlock) (im bm : Bitmap)
    → IsMounted s im bm
    → GetInode s im bm (testfs_get_inode_freemap s)
testfs_get_inode_freemap-GetInode s im bm mt =
    rw (get_inode_freemap_eq s im mt.inode_map)
      (taken mt (bitmap_alloc im) (bitmap_alloc-Allocates im mt.inode_valid))

-- Inode `i` was released: its bit was set and is clear now, the file system is mounted with the new
-- map, and no inode or data block changed.
pub record InodeReleased (s : SuperBlock) (im bm : Bitmap) (i : ℕ) (s' : SuperBlock) : Type 0 where
  pub map : Bitmap
  pub flipped : Flipped im i false map
  pub still_mounted : IsMounted s' map bm
  pub same : SameBlocks s.dev s'.dev

abbrev pub PutInode : SuperBlock → Bitmap → Bitmap → ℕ → Option SuperBlock → Type 0
PutInode s im bm i none = (inode_bits ≤ i) ⊎ (is_set im i ≡ false)
PutInode s im bm i (some s') = InodeReleased s im bm i s'

put_inode_freemap_eq :
    (s : SuperBlock) (m : Bitmap) (i : ℕ)
    → s.inode_freemap ≡ some m
    → testfs_put_inode_freemap s i ≡ (
        bitmap_unmark m i
        >>= (λ m'. testfs_write_inode_freemap (record s { inode_freemap = some m' }) i)
        >>= inode_released)
unfolding testfs_put_inode_freemap
put_inode_freemap_eq s m i e =
    ap
      (λ (o : Option Bitmap). o >>= λ m. bitmap_unmark m i >>= λ m'.
        testfs_write_inode_freemap (record s { inode_freemap = some m' }) i >>= inode_released)
      e
    ∙ ground arith

module _ {s : SuperBlock} {im bm : Bitmap} (mt : IsMounted s im bm) (i : ℕ) where
  released :
      (r : Option Bitmap)
      → Turns im i false r
      → PutInode s im bm i (
          r
          >>= (λ m'. testfs_write_inode_freemap (record s { inode_freemap = some m' }) i)
          >>= inode_released)
  unfolding inode_released testfs_write_inode_freemap testfs_write_super_block
  released none h = ground (arith, mt.inode_nbits)
  released (some m) h =
      let used = s.sb.used_inode_count - 1 in
      let low : i < inode_bits = omega (arith, h.in_range, mt.inode_nbits) in
      let at : add_u32 s.sb.inode_freemap_start (freemap_block i) ≡ 1 + freemap_block i =
        omega (arith, mt.laid_out.inode_freemap_start) in
      let count : s.sb.used_inode_count ≡ bitmap_nr_allocated m + 1 =
        omega (arith, nr_allocated_clear h, mt.inode_count) in
      rw (lt→ltb 0 s.sb.used_inode_count (omega arith), at)
        (record {
          map = m;
          flipped = h;
          still_mounted = with_inode_map-IsMounted mt i false used m h (omega arith);
          same =
              written-SameBlocks s.dev (freemap_bytes m (freemap_block i)) (1 + freemap_block i)
                (with_inode_map s m i used).sb (omega arith) (omega (arith, mt.in_file));
        })

-- On a mounted file system testfs_put_inode_freemap clears the bit of an inode, with the file system
-- still mounted and its inode and data blocks untouched; its assertions fail exactly when the inode
-- was not allocated.
pub testfs_put_inode_freemap-PutInode :
    (s : SuperBlock) (im bm : Bitmap) (i : ℕ)
    → IsMounted s im bm
    → PutInode s im bm i (testfs_put_inode_freemap s i)
testfs_put_inode_freemap-PutInode s im bm i mt =
    rw (put_inode_freemap_eq s im i mt.inode_map)
      (released mt i (bitmap_unmark im i) (bitmap_unmark-Turns im i mt.inode_valid))
