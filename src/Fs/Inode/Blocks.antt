-- ===== src/Fs/Inode/Blocks.antt =====
-- testfs_alloc_block_for_inode and testfs_free_block_from_inode of fs/inode.c.
use ece334operating_system.Prelude.{
  ℕ, ◌+◌, ◌-◌, ◌^◌, ◌≤◌, ◌<◌, ◌≡◌, ◌≢◌, refl, true, false, Option, none, some, ◌==◌, if◌then◌else◌,
  arith, inl, inr, ◌>>=◌, ne→==, lt→ltb,
}
use ece334operating_system.Prelude.Cint.{Ret, ok, err, enospc}
use ece334operating_system.Fs.Device.{block_size}
use ece334operating_system.Fs.Device.Frame.{block_byte, InFile}
use ece334operating_system.Fs.Bitmap.{Bitmap}
use ece334operating_system.Fs.Bitmap.Bits.{is_set}
use ece334operating_system.Fs.Super.{SuperBlock, testfs_alloc_block, testfs_free_block}
use ece334operating_system.Fs.Super.Inv.{IsMounted, SameBlocks, data_start, block_bits}
use ece334operating_system.Fs.Super.Blocks.{
  AllocBlock, testfs_alloc_block-AllocBlock, FreeBlock, testfs_free_block-FreeBlock,
}
use ece334operating_system.Fs.Inode.{
  Dinode, FileState, testfs_alloc_block_for_inode, block_added, testfs_free_block_from_inode,
  block_removed,
}

-- The block map of the inode and its size are the same.
pub record SameMap (d d' : Dinode) : Type 0 where
  pub i_block_nr : d'.i_block_nr ≡ d.i_block_nr
  pub i_indirect : d'.i_indirect ≡ d.i_indirect
  pub i_dindirect : d'.i_dindirect ≡ d.i_dindirect
  pub i_size : d'.i_size ≡ d.i_size

-- Block `n` was a free data block and is allocated now, and nothing else changed but the count.
pub record Added (f : FileState) (im bm : Bitmap) (n : ℕ) (f' : FileState) : Type 0 where
  pub map : Bitmap
  pub low : data_start ≤ n
  pub high : n < data_start + block_bits
  pub was_free : is_set bm (n - data_start) ≡ false
  pub bits : (j : ℕ) → is_set map j ≡ (if n - data_start == j then true else is_set bm j)
  pub still_mounted : IsMounted f'.super im map
  pub same : SameBlocks f.super.dev f'.super.dev
  pub same_map : SameMap f.inode.in_core f'.inode.in_core

abbrev pub AllocForInode : FileState → Bitmap → Bitmap → Option (Ret × FileState) → Type 0
AllocForInode f im bm none = ⊥
AllocForInode f im bm (some (ok n, f')) = Added f im bm n f'
AllocForInode f im bm (some (err e, f')) = (e ≡ enospc) × (f' ≡ f)

added_of :
    (f : FileState) (im bm : Bitmap) (r : Option (Ret × SuperBlock))
    → AllocBlock f.super im bm r
    → AllocForInode f im bm (r >>= λ r. some (block_added f r))
unfolding block_added
added_of f im bm none h = h
added_of f im bm (some (err e, s)) h = (h.0, λ j. record f { super = h.1 j })
added_of f im bm (some (ok n, s)) (i, e, a) =
    let at : n - data_start ≡ i = omega arith in
    record {
      map = a.map;
      low = omega arith;
      high = omega (arith, a.flipped.in_range, a.still_mounted.block_nbits, a.flipped.nbits);
      was_free = rw at a.flipped.before;
      bits = λ j. rw at (a.flipped.after j);
      still_mounted = a.still_mounted;
      same = a.same;
      same_map = record { i_block_nr = refl; i_indirect = refl; i_dindirect = refl; i_size = refl };
    }

-- On a mounted file system testfs_alloc_block_for_inode gives the inode a block that was free, with
-- the rest of its map unchanged, or returns -ENOSPC with nothing changed.
pub alloc_for_inode_lem :
    (f : FileState) (im bm : Bitmap)
    → IsMounted f.super im bm
    → AllocForInode f im bm (testfs_alloc_block_for_inode f)
unfolding testfs_alloc_block_for_inode
alloc_for_inode_lem f im bm mt =
    added_of f im bm (testfs_alloc_block f.super) (testfs_alloc_block-AllocBlock f.super im bm mt)

-- Block `n` was allocated and is free now, and no other block changed.
pub record Removed (f : FileState) (im bm : Bitmap) (n : ℕ) (f' : FileState) : Type 0 where
  pub map : Bitmap
  pub bits : (j : ℕ) → is_set map j ≡ (if n - data_start == j then false else is_set bm j)
  pub still_mounted : IsMounted f'.super im map
  pub same :
      (k p : ℕ)
      → 18 ≤ k
      → k ≢ n
      → InFile f.super.dev k
      → p < block_size
      → block_byte f'.super.dev k p ≡ block_byte f.super.dev k p
  pub size : f.super.dev.size ≤ f'.super.dev.size
  pub same_map : SameMap f.inode.in_core f'.inode.in_core

abbrev pub FreeFromInode : FileState → Bitmap → Bitmap → ℕ → Option FileState → Type 0
FreeFromInode f im bm n none = ⊥
FreeFromInode f im bm n (some f') = Removed f im bm n f'

removed_of :
    (f : FileState) (im bm : Bitmap) (i : ℕ) (r : Option (Ret × SuperBlock))
    → i < block_bits
    → is_set bm i ≡ true
    → FreeBlock f.super im bm i r
    → FreeFromInode f im bm (data_start + i) (r >>= λ r. some (block_removed f r.1))
unfolding block_removed
removed_of f im bm i none lt set (inl out) = omega arith
removed_of f im bm i none lt set (inr clear) = cc
removed_of f im bm i (some (err e, s)) lt set h = absurd h
removed_of f im bm i (some (ok n, s)) lt set (z, b) =
    let at : data_start + i - data_start ≡ i = omega arith in
    record {
      map = b.map;
      bits = λ j. rw at (b.flipped.after j);
      still_mounted = b.still_mounted;
      same = b.same;
      size = b.size;
      same_map = record { i_block_nr = refl; i_indirect = refl; i_dindirect = refl; i_size = refl };
    }

-- On a mounted file system testfs_free_block_from_inode gives an allocated data block back.
pub free_from_inode_lem :
    (f : FileState) (im bm : Bitmap) (n : ℕ)
    → IsMounted f.super im bm
    → data_start ≤ n
    → n < data_start + block_bits
    → is_set bm (n - data_start) ≡ true
    → FreeFromInode f im bm n (testfs_free_block_from_inode f n)
unfolding testfs_free_block_from_inode
free_from_inode_lem f im bm n mt lo hi set =
    let i = n - data_start in
    let e : data_start + i ≡ n = omega arith in
    let freed : FreeFromInode f im bm n
        (testfs_free_block f.super n >>= λ r. some (block_removed f r.1)) =
      rw e at (
        removed_of f im bm i (testfs_free_block f.super (data_start + i)) (omega arith) set
          (testfs_free_block-FreeBlock f.super im bm i mt (omega arith))) in
    rw (ne→== n 0 (omega arith), lt→ltb n (2 ^ 31) (omega arith)) freed
