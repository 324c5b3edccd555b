-- ===== src/Fs/Inode.antt =====
-- The inode of fs/inode.h, and the part of fs/inode.c that allocates and frees its blocks. An `s32` is
-- its bit pattern, and `i_size` is never negative.
pub mod Blocks
use ece334operating_system.Prelude.{
  ℕ, ◌+◌, ◌-◌, ◌%◌, Bool, true, Option, none, some, ◌==◌, if◌then◌else◌, ◌>>=◌,
}
use ece334operating_system.Prelude.Cint.{Ret, ok, err, u32_mod, as_int}
use ece334operating_system.Fs.Super.{SuperBlock, testfs_alloc_block, testfs_free_block}

abbrev pub nr_direct_blocks : ℕ
nr_direct_blocks = 10

abbrev pub nr_indirect_blocks : ℕ
nr_indirect_blocks = 2048

-- struct dinode; `i_block_nr` has NR_DIRECT_BLOCKS entries
pub record Dinode : Type 0 where
  pub i_type : ℕ
  pub i_block_nr : ℕ → ℕ
  pub i_indirect : ℕ
  pub i_dindirect : ℕ
  pub block_count : ℕ
  pub i_size : ℕ

-- struct inode; of `i_flags` the program uses I_FLAGS_DIRTY alone
pub record Inode : Type 0 where
  pub in_core : Dinode
  pub dirty : Bool
  pub i_nr : ℕ
  pub i_count : ℕ

-- An inode with the super block that its `sb` points to.
pub record FileState : Type 0 where
  pub super : SuperBlock
  pub inode : Inode

-- `in->in.field = …`, and the dirty flag
abbrev pub set_in_core : FileState → Dinode → FileState
set_in_core f d = let i : Inode = f.inode in record f { inode = record i { in_core = d } }

abbrev pub set_dirty : FileState → FileState
set_dirty f = let i : Inode = f.inode in record f { inode = record i { dirty = true } }

-- The rest of testfs_alloc_block_for_inode, after testfs_alloc_block.
pub block_added : FileState → Ret × SuperBlock → Ret × FileState
block_added f (err e, s) = (err e, record f { super = s })
block_added f (ok n, s) =
    let d : Dinode = f.inode.in_core in
    let d' : Dinode = record d { block_count = (d.block_count + 1) % u32_mod } in
    (ok n, set_dirty (set_in_core (record f { super = s }) d'))

unfoldable pub testfs_alloc_block_for_inode : FileState → Option (Ret × FileState)
unfolding block_added
testfs_alloc_block_for_inode f = do r ← testfs_alloc_block f.super; some (block_added f r)

-- The rest of testfs_free_block_from_inode, after testfs_free_block.
pub block_removed : FileState → SuperBlock → FileState
block_removed f s =
    let d : Dinode = f.inode.in_core in
    let d' : Dinode = record d { block_count = (d.block_count + (u32_mod - 1)) % u32_mod } in
    set_dirty (set_in_core (record f { super = s }) d')

-- At a negative number the seek of zero_blocks fails, and the program exits.
unfoldable pub testfs_free_block_from_inode : FileState → ℕ → Option FileState
unfolding block_removed
testfs_free_block_from_inode f phy_block_nr =
    if phy_block_nr == 0 then some f else elim (as_int phy_block_nr) [
      | err e ↦ none
      | ok n ↦ testfs_free_block f.super n >>= λ r. some (block_removed f r.1)
    ]
