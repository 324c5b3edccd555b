-- ===== src/Tests/ItableTests.antt =====
-- fs/inode.c on the file system of 100 blocks, with one inode in memory.
use ece334operating_system.Prelude.{
  ◌%◌, ◌≡◌, refl, Bool, true, false, some, [], ◌∷◌, ◌==◌, if◌then◌else◌, arith, ◌>>=◌,
}
use ece334operating_system.Fs.Inode.{Inode}
use ece334operating_system.Fs.Itable.{
  FsState, find_in, inode_hash_find, testfs_get_inode, testfs_sync_inode, testfs_put_inode,
  zero_dinode,
}
use ece334operating_system.Fs.Itable.Dinodes.{Fits}
use ece334operating_system.Fs.Itable.Refs.{testfs_put_inode-get}
use ece334operating_system.Fs.Itable.Persist.{IsPersisted, testfs_sync_inode-IsPersisted}
use ece334operating_system.Tests.SuperTests.{fresh, inode_map, block_map, fresh-IsMounted}

-- inode 3, with a size
abbrev inode_three : Bool → Inode
inode_three dirty = record {
  in_core = record zero_dinode { i_type = 1; i_size = 20000 };
  dirty = dirty;
  i_nr = 3;
  i_count = 2;
}

-- with a hash that is the number modulo 256
abbrev state : Bool → FsState
state dirty = record {
  hash_int = λ v bits. v % 256;
  super = fresh;
  table = λ h. if h == 3 then inode_three dirty ∷ [] else [];
}

found : (dirty : Bool) → inode_hash_find (state dirty) 3 ≡ some (inode_three dirty)
unfolding inode_hash_find find_in
found dirty = refl

three-Fits : Fits (inode_three true).in_core
three-Fits = record {
  i_type = omega arith;
  i_block_nr = λ i h. omega arith;
  i_indirect = omega arith;
  i_dindirect = omega arith;
  block_count = omega arith;
  i_size = omega arith;
}

testfs_sync_inode-IsPersisted_example :
    (s' : FsState) × (testfs_sync_inode (state true) 3 ≡ some s')
    × IsPersisted (state true) inode_map block_map 3 (inode_three true) s'
testfs_sync_inode-IsPersisted_example =
    testfs_sync_inode-IsPersisted (state true) inode_map block_map 3 (inode_three true)
      fresh-IsMounted (omega arith) (found true) three-Fits refl

testfs_put_inode-get_example :
    (testfs_get_inode (state false) 3 >>= λ s'. testfs_put_inode s' 3) ≡ some (state false)
testfs_put_inode-get_example =
    testfs_put_inode-get (state false) inode_map block_map 3 fresh-IsMounted (omega arith)
      (rw (found false) (refl, omega arith))
