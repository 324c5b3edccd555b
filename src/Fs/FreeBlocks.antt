-- ===== src/Fs/FreeBlocks.antt =====
-- testfs_free_blocks of fs/read_write.c: every block of an inode is given back.
use Prim.Native.Nat.{min}
use ece334operating_system.Prelude.{
  ℕ, zero, suc, ◌+◌, ◌-◌, ◌/◌, ◌&&◌, Option, none, some, ltb, ◌==◌, if◌then◌else◌, ◌>>=◌,
}
use ece334operating_system.Prelude.Cint.{Ret, ok, is_pos}
use ece334operating_system.Fs.Device.{Bytes, block_size}
use ece334operating_system.Fs.Inode.{
  nr_direct_blocks, nr_indirect_blocks, Dinode, FileState, set_in_core, set_dirty,
  testfs_free_block_from_inode,
}
use ece334operating_system.Fs.BlockMap.{
  word_at, read_block_at, set_direct, set_indirect, set_dindirect,
}

-- DIVROUNDUP of an off_t
abbrev pub nr_blocks : ℕ → ℕ
nr_blocks size = (size + (block_size - 1)) / block_size

-- `k` rounds of the loop over the direct blocks, from `i` on
free_direct : ℕ → ℕ → FileState → Option FileState
free_direct zero i f = some f
free_direct (suc k) i f =
    let n = f.inode.in_core.i_block_nr i in
    let f' =
      if n == 0
      then some f
      else (testfs_free_block_from_inode f n >>= λ f1. some (set_direct f1 i 0)) in
    f' >>= free_direct k (i + 1)

-- `k` rounds of the loop over an indirect block, from entry `i` on
free_entries : ℕ → ℕ → Bytes → FileState → Option FileState
free_entries zero i block f = some f
free_entries (suc k) i block f =
    let n = word_at block i in
    let f' = if n == 0 then some f else testfs_free_block_from_inode f n in
    f' >>= free_entries k (i + 1) block

free_indirect : ℕ → FileState → Option FileState
unfolding free_entries
free_indirect e_block_nr f =
    if is_pos f.inode.in_core.i_indirect
    then if ltb 0 e_block_nr
      then (do
        block ← read_block_at f.super.dev f.inode.in_core.i_indirect
        f1 ← free_entries (min e_block_nr nr_indirect_blocks) 0 block f
        f2 ← testfs_free_block_from_inode f1 f1.inode.in_core.i_indirect
        some (set_indirect f2 0))
      else none
    else some f

-- `k` rounds of the loop over one indirect block under the double indirect block, from entry `j` on
free_leaves : ℕ → ℕ → Bytes → FileState → Option FileState
free_leaves zero j block f = some f
free_leaves (suc k) j block f =
    let n = word_at block j in
    let f' = if is_pos n then testfs_free_block_from_inode f n else some f in
    f' >>= free_leaves k (j + 1) block

-- `r` rounds of the loop over the double indirect block, from entry `i` on, with `k` leaves counted so
-- far; an absent indirect block counts for none.
free_tables : ℕ → ℕ → ℕ → ℕ → Bytes → FileState → Option FileState
unfolding free_leaves
free_tables zero i k e_block_nr block f = some f
free_tables (suc r) i k e_block_nr block f =
    let n = word_at block i in
    let leaves = min nr_indirect_blocks (e_block_nr - k) in
    let table =
      read_block_at f.super.dev n
      >>= (λ b. free_leaves leaves 0 b f)
      >>= (λ f1. testfs_free_block_from_inode f1 n) in
    let f' = if is_pos n then table else some f in
    let k' = if is_pos n then k + leaves else k in
    let rest = f' >>= free_tables r (i + 1) k' e_block_nr block in
    if ltb k e_block_nr then rest else some f

free_dindirect : ℕ → FileState → Option FileState
unfolding free_tables
free_dindirect e_block_nr f =
    if ltb 0 e_block_nr && is_pos f.inode.in_core.i_dindirect
    then (do
      block ← read_block_at f.super.dev f.inode.in_core.i_dindirect
      f1 ← free_tables nr_indirect_blocks 0 0 e_block_nr block f
      f2 ← testfs_free_block_from_inode f1 f1.inode.in_core.i_dindirect
      some (set_dindirect f2 0))
    else some f

-- Subtraction stops at 0 where the code goes on below it; only `> 0` is asked of the results.
unfoldable pub testfs_free_blocks : FileState → Option (Ret × FileState)
unfolding free_direct free_indirect free_dindirect
testfs_free_blocks f =
    let e_block_nr = nr_blocks f.inode.in_core.i_size in
    let e_indirect = e_block_nr - nr_direct_blocks in
    let e_dindirect = e_indirect - nr_indirect_blocks in
    free_direct (min e_block_nr nr_direct_blocks) 0 f
    >>= free_indirect e_indirect
    >>= free_dindirect e_dindirect
    >>= λ f'.
        let d : Dinode = f'.inode.in_core in
        some (ok 0, set_dirty (set_in_core f' (record d { i_size = 0 })))
