-- ===== src/Fs/Super/Blocks.antt =====
-- testfs_alloc_block and testfs_free_block of fs/super.c on a mounted file system.
use ece334operating_system.Prelude.{
  ℕ, ◌+◌, ◌-◌, ◌%◌, ◌^◌, ◌≤◌, ◌<◌, ◌≡◌, ◌≢◌, refl, true, false, Option, none, some, leb, arith, ◌⊎◌,
  inl, inr, ◌∙◌, ap, sym, ◌>>=◌, Bool-cases, lt→ltb,
}
use ece334operating_system.Prelude.Cint.{Ret, ok, err, enospc, u32_mod}
use ece334operating_system.Fs.Device.{block_size, zero_blocks}
use ece334operating_system.Fs.Device.Frame.{
  block_byte, InFile, zero_blocks_in, zero_blocks_out, zero_blocks-InFile, size-zero_blocks,
}
use ece334operating_system.Fs.Bitmap.{Bitmap, bitmap_alloc, bitmap_unmark, bitmap_nr_allocated}
use ece334operating_system.Fs.Bitmap.Bits.{is_set}
use ece334operating_system.Fs.Bitmap.Mark.{Flipped, Turns, bitmap_unmark-Turns}
use ece334operating_system.Fs.Bitmap.Alloc.{Full, Allocates, bitmap_alloc-Allocates}
use ece334operating_system.Fs.Bitmap.Count.{nr_allocated_set, nr_allocated_clear, nr_allocated_le}
use ece334operating_system.Fs.Super.{
  SuperBlock, testfs_alloc_block, testfs_free_block, testfs_get_block_freemap, got_block, allocated,
  testfs_write_block_freemap, testfs_write_super_block, testfs_put_block_freemap, freed, add_u32,
  freemap_block, freemap_bytes,
}
use ece334operating_system.Fs.Super.Inv.{
  IsMounted, SameBlocks, with_block_map, with_block_map-IsMounted, written-SameBlocks,
  zero_data-IsMounted, data_start, block_bits,
}

-- Block `data_start + i` was allocated: its bit was the lowest clear one and is set now, the file
-- system is mounted with the new map, and no inode or data block changed.
pub record BlockAllocated (s : SuperBlock) (im bm : Bitmap) (i : ℕ) (s' : SuperBlock) : Type 0 where
  pub map : Bitmap
  pub room : s.sb.used_block_count < s.sb.max_fs_blocks
  pub first : Full bm i
  pub flipped : Flipped bm i true map
  pub still_mounted : IsMounted s' im map
  pub same : SameBlocks s.dev s'.dev

-- The outcomes of testfs_alloc_block.
abbrev pub AllocBlock : SuperBlock → Bitmap → Bitmap → Option (Ret × SuperBlock) → Type 0
AllocBlock s im bm none = ⊥
AllocBlock s im bm (some (ok n, s')) = (i : ℕ) × (n ≡ data_start + i) × BlockAllocated s im bm i s'
AllocBlock s im bm (some (err e, s')) =
    (e ≡ enospc) × (s' ≡ s) × ((s.sb.max_fs_blocks ≤ s.sb.used_block_count) ⊎ Full bm block_bits)

module _ {s : SuperBlock} {im bm : Bitmap} (mt : IsMounted s im bm) where
  taken :
      (room : s.sb.used_block_count < s.sb.max_fs_blocks) (r : Option (Ret × Bitmap))
      → Allocates bm r
      → AllocBlock s im bm (r >>= got_block s >>= allocated)
  unfolding got_block allocated testfs_write_block_freemap testfs_write_super_block
  taken room none h = h
  taken room (some (err e, m)) h = (
    h.0,
    λ j. record s { block_freemap = (ap some h.1 ∙ sym mt.block_map) j },
    inr (λ j lt. h.2 j (omega (arith, mt.block_nbits))),
  )
  taken room (some (ok i, m)) h =
      let used = add_u32 s.sb.used_block_count 1 in
      let low : i < block_bits = omega (arith, h.1.in_range, mt.block_nbits) in
      let at : add_u32 s.sb.block_freemap_start (freemap_block i) ≡ 2 + freemap_block i =
        omega (arith, mt.laid_out.block_freemap_start) in
      let count : used ≡ bitmap_nr_allocated m = omega (
        arith,
        nr_allocated_set h.1,
        mt.block_count,
        nr_allocated_le m,
        h.1.nbits,
        mt.block_nbits,
      ) in
      (
        i,
        omega (arith, mt.laid_out.data_blocks_start),
        record {
          map = m;
          room = room;
          first = h.0;
          flipped = h.1;
          still_mounted = rw at (with_block_map-IsMounted mt i true used m h.1 count);
          same = rw at (
              written-SameBlocks s.dev (freemap_bytes m (freemap_block i)) (2 + freemap_block i)
                (record (s.sb) { used_block_count = used }) (omega arith)
                (omega (arith, mt.in_file)));
        },
      )

get_block_freemap_eq :
    (s : SuperBlock) (m : Bitmap)
    → s.block_freemap ≡ some m
    → testfs_get_block_freemap s ≡ (bitmap_alloc m >>= got_block s)
unfolding testfs_get_block_freemap
get_block_freemap_eq s m e = ap (λ (o : Option Bitmap). o >>= λ m. bitmap_alloc m >>= got_block s) e

-- On a mounted file system testfs_alloc_block takes the lowest free block and keeps the file system
-- mounted, its inode and data blocks untouched; or it returns -ENOSPC, with nothing changed, when
-- max_fs_blocks blocks are in use or the freemap is full. No assertion of it fails.
pub testfs_alloc_block-AllocBlock :
    (s : SuperBlock) (im bm : Bitmap)
    → IsMounted s im bm
    → AllocBlock s im bm (testfs_alloc_block s)
unfolding testfs_alloc_block
testfs_alloc_block-AllocBlock s im bm mt =
    elim (Bool-cases (leb s.sb.max_fs_blocks s.sb.used_block_count)) [
      | inl full ↦ rw full (refl, refl, inl (ground arith))
      | inr room ↦
          rw (room, get_block_freemap_eq s bm mt.block_map)
            (taken mt (ground arith) (bitmap_alloc bm) (bitmap_alloc-Allocates bm mt.block_valid))
    ]

-- Block `data_start + i` was freed: its bit was set and is clear now, the file system is mounted with
-- the new map, the block reads as zero, and no other inode or data block changed.
pub record BlockFreed (s : SuperBlock) (im bm : Bitmap) (i : ℕ) (s' : SuperBlock) : Type 0 where
  pub map : Bitmap
  pub flipped : Flipped bm i false map
  pub still_mounted : IsMounted s' im map
  pub zeroed : (p : ℕ) → p < block_size → block_byte s'.dev (data_start + i) p ≡ 0
  pub same :
      (k p : ℕ)
      → 18 ≤ k
      → k ≢ data_start + i
      → InFile s.dev k
      → p < block_size
      → block_byte s'.dev k p ≡ block_byte s.dev k p
  pub size : s.dev.size ≤ s'.dev.size

-- The outcomes of testfs_free_block on block `data_start + i`: a failed assertion means that the
-- block was not allocated.
abbrev pub FreeBlock : SuperBlock → Bitmap → Bitmap → ℕ → Option (Ret × SuperBlock) → Type 0
FreeBlock s im bm i none = (block_bits ≤ i) ⊎ (is_set bm i ≡ false)
FreeBlock s im bm i (some (ok n, s')) = (n ≡ 0) × BlockFreed s im bm i s'
FreeBlock s im bm i (some (err e, s')) = ⊥

put_block_freemap_eq :
    (s : SuperBlock) (m : Bitmap) (i : ℕ)
    → s.block_freemap ≡ some m
    → testfs_put_block_freemap s i ≡ (
        bitmap_unmark m i >>= λ m'.
        testfs_write_block_freemap (record s { block_freemap = some m' }) i)
unfolding testfs_put_block_freemap
put_block_freemap_eq s m i e =
    ap
      (λ (o : Option Bitmap). o >>= λ m. bitmap_unmark m i >>= λ m'.
        testfs_write_block_freemap (record s { block_freemap = some m' }) i)
      e

module _ {s : SuperBlock} {im bm : Bitmap} (mt : IsMounted s im bm) (i : ℕ) where
  block_freed :
      (m : Bitmap)
      → Flipped bm i false m
      → (used : ℕ) → s.sb.used_block_count ≡ used + 1
      → s.sb.used_block_count ≡ bitmap_nr_allocated m + 1
      → BlockFreed s im bm i
          (with_block_map (record s { dev = zero_blocks s.dev (data_start + i) 1 }) m i used)
  block_freed m h used fewer count =
      let n = data_start + i in
      let z : SuperBlock = record s { dev = zero_blocks s.dev n 1 } in
      let low : i < block_bits = omega (arith, h.in_range, mt.block_nbits) in
      let same : SameBlocks z.dev (with_block_map z m i used).dev =
        written-SameBlocks z.dev (freemap_bytes m (freemap_block i)) (2 + freemap_block i)
          (with_block_map z m i used).sb (omega arith)
          (omega (arith, mt.in_file, size-zero_blocks 1 s.dev n)) in
      record {
        map = m;
        flipped = h;
        still_mounted =
            with_block_map-IsMounted (zero_data-IsMounted n (omega arith) mt) i false used m h
              (omega arith);
        zeroed = λ p hp.
            same.same n p (omega arith) (zero_blocks-InFile 1 s.dev n n (omega arith) (omega arith))
              hp
            ∙ zero_blocks_in 1 s.dev n n p (omega arith) (omega arith) hp;
        same = λ k p hk ne f hp.
            same.same k p hk (omega (arith, size-zero_blocks 1 s.dev n)) hp
            ∙ zero_blocks_out 1 s.dev n k p (omega arith) hp f;
        size = omega (arith, same.size, size-zero_blocks 1 s.dev n);
      }

  released :
      (r : Option Bitmap)
      → Turns bm i false r
      → FreeBlock s im bm i (
          r
          >>= (λ m'.
              testfs_write_block_freemap
                (record s { dev = zero_blocks s.dev (data_start + i) 1; block_freemap = some m' })
                i)
          >>= freed)
  unfolding freed testfs_write_block_freemap testfs_write_super_block
  released none h = ground (arith, mt.block_nbits)
  released (some m) h =
      let used = s.sb.used_block_count - 1 in
      let low : i < block_bits = omega (arith, h.in_range, mt.block_nbits) in
      let at : add_u32 s.sb.block_freemap_start (freemap_block i) ≡ 2 + freemap_block i =
        omega (arith, mt.laid_out.block_freemap_start) in
      let count : s.sb.used_block_count ≡ bitmap_nr_allocated m + 1 =
        omega (arith, nr_allocated_clear h, mt.block_count) in
      rw (lt→ltb 0 s.sb.used_block_count (omega arith), at)
        (refl, block_freed m h used (omega arith) count)

-- On a mounted file system testfs_free_block of data block `i` clears its bit, zeroes the block and
-- leaves the other blocks alone, with the file system still mounted; its assertions fail exactly when the
-- block was not allocated.
pub testfs_free_block-FreeBlock :
    (s : SuperBlock) (im bm : Bitmap) (i : ℕ)
    → IsMounted s im bm
    → data_start + i < 2 ^ 31
    → FreeBlock s im bm i (testfs_free_block s (data_start + i))
unfolding testfs_free_block
testfs_free_block-FreeBlock s im bm i mt h =
    let n : (data_start + i + (u32_mod - s.sb.data_blocks_start)) % u32_mod ≡ i =
      omega (arith, mt.laid_out.data_blocks_start) in
    rw
      (
        n,
        lt→ltb i (2 ^ 31) (omega arith),
        put_block_freemap_eq (record s { dev = zero_blocks s.dev (data_start + i) 1 }) bm i
            mt.block_map,
      )
      (released mt i (bitmap_unmark bm i) (bitmap_unmark-Turns bm i mt.block_valid))
