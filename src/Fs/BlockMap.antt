-- ===== src/Fs/BlockMap.antt =====
-- The block map of an inode in fs/read_write.c: testfs_read_block and testfs_allocate_block. `block`
-- buffers are results; a block number is the bit pattern of an int. An outer `none` is a failed
-- assertion, an exit of the program, or an access outside an array.
pub mod Extend
pub mod Direct
pub mod Entry
pub mod Indirect
pub mod Allocate
pub mod Frame
pub mod Lookup
pub mod Slots
pub mod Words
use ece334operating_system.Prelude.{
  ℕ, ◌-◌, ◌*◌, ◌/◌, ◌%◌, ◌^◌, Bool, true, false, not, ◌&&◌, Option, none, some, ltb, leb, ◌==◌,
  if◌then◌else◌, ◌>>=◌, update,
}
use ece334operating_system.Prelude.Cint.{Ret, ok, err, efbig, u32_mod, as_int, is_pos}
use ece334operating_system.Fs.Device.{Device, Bytes, zero_block, write_blocks, read_blocks}
use ece334operating_system.Fs.Super.{SuperBlock, le_byte, u32_at}
use ece334operating_system.Fs.Inode.{
  nr_direct_blocks, nr_indirect_blocks, Dinode, FileState, set_in_core,
  testfs_alloc_block_for_inode, testfs_free_block_from_inode,
}

-- `((int *) block)[k]`, and a store to it; outside the block the access is a fault
abbrev pub word_at : Bytes → ℕ → ℕ
word_at b k = u32_at b (4 * k)

abbrev pub get_word : Bytes → ℕ → Option ℕ
get_word b k = if ltb k nr_indirect_blocks then some (word_at b k) else none

unfoldable pub set_word : Bytes → ℕ → ℕ → Bytes
set_word b k w p = if p / 4 == k then le_byte w (p % 4) else b p

-- a read or a write of the block with an int for its number: the seek fails at a negative one
abbrev pub read_block_at : Device → ℕ → Option Bytes
read_block_at dev w = if ltb w (2 ^ 31) then read_blocks dev w 1 else none

abbrev pub put_block : FileState → Bytes → ℕ → FileState
put_block f b n =
    let s : SuperBlock = f.super in record f { super = record s { dev = write_blocks s.dev b n 1 } }

-- testfs_read_block up to its read: the physical number of a logical block, 0 if there is none.
-- With no double indirect block a number past the indirect ones is looked up in the indirect block,
-- outside its array.
unfoldable pub block_lookup : FileState → ℕ → Option ℕ
block_lookup f log_block_nr =
    let d : Dinode = f.inode.in_core in
    let l = log_block_nr - nr_direct_blocks in
    let rest = l - nr_indirect_blocks in
    if ltb log_block_nr nr_direct_blocks
    then some (d.i_block_nr log_block_nr)
    else if leb nr_indirect_blocks l && is_pos d.i_dindirect
    then (do
      block2 ← read_blocks f.super.dev d.i_dindirect 1
      p ← get_word block2 (rest / nr_indirect_blocks)
      if is_pos p
          then (do block ← read_blocks f.super.dev p 1; get_word block (rest % nr_indirect_blocks))
          else some p)
    else if is_pos d.i_indirect
    then (do block ← read_blocks f.super.dev d.i_indirect 1; get_word block l)
    else some 0

-- The block number that is returned, and what `block` holds. The argument is converted to an int,
-- which is asserted to be no negative one.
unfoldable pub testfs_read_block : FileState → ℕ → Option (ℕ × Bytes)
testfs_read_block f log_block_nr =
    let log = log_block_nr % u32_mod in
    if ltb log (2 ^ 31)
    then (block_lookup f log >>= λ phy_block_nr.
        if is_pos phy_block_nr
        then (read_blocks f.super.dev phy_block_nr 1 >>= λ block. some (phy_block_nr, block))
        else some (phy_block_nr, zero_block))
    else none

-- the number of blocks that the map reaches
abbrev pub max_file_blocks : ℕ
max_file_blocks = 4196362

-- `in->in.i_block_nr[log_block_nr] = n`, and the like
abbrev pub set_direct : FileState → ℕ → ℕ → FileState
set_direct f log_block_nr n =
    let d : Dinode = f.inode.in_core in
    set_in_core f (record d { i_block_nr = update d.i_block_nr log_block_nr n })

abbrev pub set_indirect : FileState → ℕ → FileState
set_indirect f n = let d : Dinode = f.inode.in_core in set_in_core f (record d { i_indirect = n })

abbrev pub set_dindirect : FileState → ℕ → FileState
set_dindirect f n = let d : Dinode = f.inode.in_core in set_in_core f (record d { i_dindirect = n })

direct_allocated : ℕ → Ret × FileState → Ret × FileState
direct_allocated log_block_nr (ok n, f) = (ok n, set_direct f log_block_nr n)
direct_allocated log_block_nr (err e, f) = (err e, f)

unfoldable pub allocate_direct : FileState → ℕ → Option (Ret × FileState)
unfolding direct_allocated
allocate_direct f log_block_nr =
    if f.inode.in_core.i_block_nr log_block_nr == 0
    then (testfs_alloc_block_for_inode f >>= λ r. some (direct_allocated log_block_nr r))
    else none

-- An index block in its buffer, with the flag that it was allocated just now; or an error.
pub data Stage : Type 0 where
  failed : ℕ → FileState → Stage
  ready : Bool → Bytes → FileState → Stage

indirect_new : Ret × FileState → Stage
indirect_new (ok n, f) = ready true zero_block (set_indirect f n)
indirect_new (err e, f) = failed e f

unfoldable pub get_indirect : FileState → Option Stage
unfolding indirect_new
get_indirect f =
    if f.inode.in_core.i_indirect == 0
    then (testfs_alloc_block_for_inode f >>= λ r. some (indirect_new r))
    else read_block_at f.super.dev f.inode.in_core.i_indirect >>= λ b. some (ready false b f)

-- After the allocation of the data block: the entry is stored, or a new indirect block is freed again.
store_indirect : ℕ → Bool → Bytes → Ret × FileState → Option (Ret × FileState)
store_indirect l new b (ok n, f) =
    some (ok n, put_block f (set_word b l n) f.inode.in_core.i_indirect)
store_indirect l true b (err e, f) =
    testfs_free_block_from_inode f f.inode.in_core.i_indirect >>= λ f'.
    some (err e, set_indirect f' 0)
store_indirect l false b (err e, f) = some (err e, f)

fill_indirect : ℕ → Stage → Option (Ret × FileState)
unfolding store_indirect
fill_indirect l (failed e f) = some (err e, f)
fill_indirect l (ready new b f) = get_word b l >>= λ w.
    if w == 0 then testfs_alloc_block_for_inode f >>= store_indirect l new b else none

unfoldable pub allocate_indirect : FileState → ℕ → Option (Ret × FileState)
unfolding fill_indirect
allocate_indirect f l = get_indirect f >>= fill_indirect l

dindirect_new : Ret × FileState → Stage
dindirect_new (ok n, f) = ready true zero_block (set_dindirect f n)
dindirect_new (err e, f) = failed e f

unfoldable pub get_dindirect : FileState → Option Stage
unfolding dindirect_new
get_dindirect f =
    if f.inode.in_core.i_dindirect == 0
    then (testfs_alloc_block_for_inode f >>= λ r. some (dindirect_new r))
    else read_block_at f.super.dev f.inode.in_core.i_dindirect >>= λ b. some (ready false b f)

-- Both index blocks in their buffers, with the flags that they are new; or an error.
pub data Tables : Type 0 where
  no_tables : ℕ → FileState → Tables
  tables :
      (dindirect_allocated indirect_allocated : Bool) (dindirect indirect : Bytes)
      → FileState
      → Tables

-- A new indirect block is written, and so is the double indirect block that names it.
table_new : ℕ → Bool → Bytes → Ret × FileState → Option Tables
table_new d dnew dindirect (ok n, f) =
    let dindirect' = set_word dindirect d n in
    let f' = put_block (put_block f zero_block n) dindirect' f.inode.in_core.i_dindirect in
    some (tables dnew true dindirect' zero_block f')
table_new d true dindirect (err e, f) =
    testfs_free_block_from_inode f f.inode.in_core.i_dindirect >>= λ f'.
    some (no_tables e (set_dindirect f' 0))
table_new d false dindirect (err e, f) = some (no_tables e f)

unfoldable pub get_table : ℕ → Stage → Option Tables
unfolding table_new
get_table d (failed e f) = some (no_tables e f)
get_table d (ready dnew dindirect f) = get_word dindirect d >>= λ w.
    if w == 0
    then testfs_alloc_block_for_inode f >>= table_new d dnew dindirect
    else read_block_at f.super.dev w >>= λ b. some (tables dnew false dindirect b f)

-- After the allocation of the data block. With a new indirect block under an old double indirect block
-- the failure frees the indirect block and leaves its number in the double indirect block.
store_dindirect : ℕ → ℕ → Bool → Bool → Bytes → Bytes → Ret × FileState → Option (Ret × FileState)
store_dindirect d k dnew inew dindirect indirect (ok n, f) = some (
  ok n,
  put_block (put_block f (set_word indirect k n) (word_at dindirect d)) dindirect
      f.inode.in_core.i_dindirect,
)
store_dindirect d k true inew dindirect indirect (err e, f) =
    testfs_free_block_from_inode f (word_at dindirect d) >>= λ f1.
    testfs_free_block_from_inode f1 f1.inode.in_core.i_dindirect >>= λ f2.
    some (err e, set_dindirect f2 0)
store_dindirect d k false true dindirect indirect (err e, f) =
    testfs_free_block_from_inode f (word_at dindirect d) >>= λ f1. some (err e, f1)
store_dindirect d k false false dindirect indirect (err e, f) = some (err e, f)

fill_dindirect : ℕ → ℕ → Tables → Option (Ret × FileState)
unfolding store_dindirect
fill_dindirect d k (no_tables e f) = some (err e, f)
fill_dindirect d k (tables dnew inew dindirect indirect f) =
    testfs_alloc_block_for_inode f >>= store_dindirect d k dnew inew dindirect indirect

unfoldable pub allocate_dindirect : FileState → ℕ → Option (Ret × FileState)
unfolding get_table fill_dindirect
allocate_dindirect f l =
    let d = (l - nr_indirect_blocks) / nr_indirect_blocks in
    let k = (l - nr_indirect_blocks) % nr_indirect_blocks in
    get_dindirect f >>= get_table d >>= fill_dindirect d k

-- testfs_allocate_block after its read: the branches on the logical number.
unfoldable pub allocate_missing : FileState → ℕ → Option (Ret × FileState)
allocate_missing f log =
    let l = log - nr_direct_blocks in
    if ltb log nr_direct_blocks
    then allocate_direct f log
    else if leb nr_indirect_blocks l
    then allocate_dindirect f l
    else allocate_indirect f l

-- The result, what `block` holds, and the new state.
unfoldable pub testfs_allocate_block : FileState → ℕ → Option (Ret × Bytes × FileState)
testfs_allocate_block f log_block_nr =
    let log = log_block_nr % u32_mod in
    testfs_read_block f log_block_nr >>= λ r.
    if leb max_file_blocks log
    then some (err efbig, r.1, f)
    else if not (r.0 == 0)
    then some (as_int r.0, r.1, f)
    else (allocate_missing f log >>= λ a. some (a.0, r.1, a.1))
