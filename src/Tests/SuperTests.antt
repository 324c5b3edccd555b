-- ===== src/Tests/SuperTests.antt =====
-- fs/super.c at a new file system of 100 blocks.
use ece334operating_system.Prelude.{◌+◌, ◌≡◌, true, arith, ◌>>=◌}
use ece334operating_system.Fs.Device.{Device}
use ece334operating_system.Fs.Bitmap.{Bitmap, bitmap_nr_allocated}
use ece334operating_system.Fs.Bitmap.Bits.{set_one}
use ece334operating_system.Fs.Bitmap.Mark.{Flipped, set_one-Flipped}
use ece334operating_system.Fs.Bitmap.Count.{nr_allocated_set}
use ece334operating_system.Fs.Super.{
  SuperBlock, testfs_alloc_block, testfs_free_block, testfs_get_inode_freemap,
  testfs_put_inode_freemap, testfs_init_super_block,
}
use ece334operating_system.Fs.Super.Layout.{Fits}
use ece334operating_system.Fs.Super.Inv.{
  IsMounted, data_start, with_block_map, with_block_map-IsMounted, with_inode_map,
  with_inode_map-IsMounted,
}
use ece334operating_system.Fs.Super.Mount.{
  init_lem, calls_succeed, stored_map, mounted_from, Remounts, remount,
}
use ece334operating_system.Fs.Super.Blocks.{
  AllocBlock, FreeBlock, testfs_alloc_block-AllocBlock, testfs_free_block-FreeBlock,
}
use ece334operating_system.Fs.Super.Inodes.{
  GetInode, PutInode, testfs_get_inode_freemap-GetInode, testfs_put_inode_freemap-PutInode,
}
use ece334operating_system.Fs.Mkfs.{
  make_fs, Mounts, make_fs-Mounts, closed, new_super, closed-Holds, stored_clear,
}

make_fs-Mounts_example : Mounts 100 (make_fs 100 >>= testfs_init_super_block calls_succeed)
make_fs-Mounts_example = make_fs-Mounts 100 (omega arith)

-- the device that mktestfs makes, the super block that mounting it gives, and its freemaps
abbrev pub device : Device
device = closed 100

abbrev pub fresh : SuperBlock
fresh = mounted_from device (new_super 100)

abbrev pub inode_map : Bitmap
inode_map = stored_map device 1 1

abbrev pub block_map : Bitmap
block_map = stored_map device 2 16

pub fresh-IsMounted : IsMounted fresh inode_map block_map
fresh-IsMounted = (init_lem device (new_super 100) (closed-Holds 100 (omega arith))).1

remount_example :
    Remounts fresh inode_map block_map (testfs_init_super_block calls_succeed fresh.dev)
remount_example = remount fresh inode_map block_map fresh-IsMounted

testfs_alloc_block-AllocBlock_example :
    AllocBlock fresh inode_map block_map (testfs_alloc_block fresh)
testfs_alloc_block-AllocBlock_example =
    testfs_alloc_block-AllocBlock fresh inode_map block_map fresh-IsMounted

-- the same file system with its first block and its first inode in use
abbrev pub one_block : Bitmap
one_block = set_one block_map 0

pub one_block-Flipped : Flipped block_map 0 true one_block
one_block-Flipped =
    set_one-Flipped 0 fresh-IsMounted.block_valid (omega arith)
      (stored_clear 100 2 16 0 (omega arith) (omega arith) (omega arith))

one_block_count : 1 ≡ bitmap_nr_allocated one_block
one_block_count = omega (arith, nr_allocated_set one_block-Flipped, fresh-IsMounted.block_count)

abbrev pub busy : SuperBlock
busy = with_block_map fresh one_block 0 1

pub busy-IsMounted : IsMounted busy inode_map one_block
busy-IsMounted =
    with_block_map-IsMounted fresh-IsMounted 0 true 1 one_block one_block-Flipped one_block_count

testfs_free_block-FreeBlock_example :
    FreeBlock busy inode_map one_block 0 (testfs_free_block busy (data_start + 0))
testfs_free_block-FreeBlock_example =
    testfs_free_block-FreeBlock busy inode_map one_block 0 busy-IsMounted (omega arith)

abbrev one_inode : Bitmap
one_inode = set_one inode_map 0

one_inode-Flipped : Flipped inode_map 0 true one_inode
one_inode-Flipped =
    set_one-Flipped 0 fresh-IsMounted.inode_valid (omega arith)
      (stored_clear 100 1 1 0 (omega arith) (omega arith) (omega arith))

one_inode_count : 1 ≡ bitmap_nr_allocated one_inode
one_inode_count = omega (arith, nr_allocated_set one_inode-Flipped, fresh-IsMounted.inode_count)

abbrev with_root : SuperBlock
with_root = with_inode_map fresh one_inode 0 1

with_root-IsMounted : IsMounted with_root one_inode block_map
with_root-IsMounted =
    with_inode_map-IsMounted fresh-IsMounted 0 true 1 one_inode one_inode-Flipped one_inode_count

testfs_get_inode_freemap-GetInode_example :
    GetInode fresh inode_map block_map (testfs_get_inode_freemap fresh)
testfs_get_inode_freemap-GetInode_example =
    testfs_get_inode_freemap-GetInode fresh inode_map block_map fresh-IsMounted

testfs_put_inode_freemap-PutInode_example :
    PutInode with_root one_inode block_map 0 (testfs_put_inode_freemap with_root 0)
testfs_put_inode_freemap-PutInode_example =
    testfs_put_inode_freemap-PutInode with_root one_inode block_map 0 with_root-IsMounted

new-Fits : Fits (new_super 100)
new-Fits = record {
  inode_freemap_start = omega arith;
  block_freemap_start = omega arith;
  inode_blocks_start = omega arith;
  data_blocks_start = omega arith;
  used_inode_count = omega arith;
  used_block_count = omega arith;
  max_fs_blocks = omega arith;
}
