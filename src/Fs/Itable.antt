-- ===== src/Fs/Itable.antt =====
-- fs/inode.c: the table of inodes in memory and their way to the device. A pointer to an inode is its
-- number, for which the table has at most one inode; there is one super block. An allocation whose
-- failure exits the program succeeds. An outer `none` is a failed assertion, an exit of the program or
-- a pointer to an inode that is not in the table.
pub mod Dinodes
pub mod Refs
pub mod Persist
use ece334operating_system.Prelude.{
  ℕ, zero, suc, ◌+◌, ◌-◌, ◌*◌, ◌/◌, ◌%◌, ◌^◌, Bool, true, false, ◌&&◌, Option, none, some, List, [],
  ◌∷◌, ltb, leb, ◌==◌, if◌then◌else◌, ◌>>=◌, update,
}
use ece334operating_system.Prelude.Cint.{Ret, ok, err, enospc, u32_mod}
use ece334operating_system.Fs.Device.{Bytes, block_size, write_blocks, read_blocks}
use ece334operating_system.Fs.Super.{
  SuperBlock, nr_inode_blocks, inodes_per_block, dinode_size, le_byte, u32_at, u64_at, add_u32,
  testfs_get_inode_freemap, testfs_put_inode_freemap,
}
use ece334operating_system.Fs.Inode.{Dinode, Inode, FileState, set_in_core, set_dirty}
use ece334operating_system.Fs.ReadData.{memcpy}
use ece334operating_system.Fs.FreeBlocks.{testfs_free_blocks}

-- The bytes of a struct dinode.
unfoldable pub dinode_bytes : Dinode → Bytes
dinode_bytes d p =
    if ltb p 4
    then le_byte d.i_type p
    else if ltb p 44
    then le_byte (d.i_block_nr ((p - 4) / 4)) ((p - 4) % 4)
    else if ltb p 48
    then le_byte d.i_indirect (p - 44)
    else if ltb p 52
    then le_byte d.i_dindirect (p - 48)
    else if ltb p 56
    then le_byte d.block_count (p - 52)
    else if ltb p 64
    then le_byte d.i_size (p - 56)
    else 0

-- A struct dinode from its bytes; of `i_block_nr` the first ten entries count.
unfoldable pub dinode_of_bytes : Bytes → Dinode
dinode_of_bytes b = record {
  i_type = u32_at b 0;
  i_block_nr = λ i. u32_at b (4 + 4 * i);
  i_indirect = u32_at b 44;
  i_dindirect = u32_at b 48;
  block_count = u32_at b 52;
  i_size = u64_at b 56;
}

abbrev pub inode_hash_shift : ℕ
inode_hash_shift = 8

abbrev pub inode_hash_size : ℕ
inode_hash_size = 2 ^ inode_hash_shift

abbrev pub Table : Type 0
Table = ℕ → List Inode

-- The super block and the hash table of inodes; hash_int is the function of fs/list.h, which the
-- program takes from elsewhere, a parameter here.
pub record FsState : Type 0 where
  pub hash_int : ℕ → ℕ → ℕ
  pub super : SuperBlock
  pub table : Table

-- What inode_hash_init makes.
abbrev pub inode_hash_init : Table
inode_hash_init h = []

is_empty : List Inode → Bool
is_empty [] = true
is_empty (i ∷ is) = false

-- inode_hash_destroy's assertion on `k` buckets from bucket `i` on
unfoldable pub all_empty : ℕ → ℕ → Table → Bool
unfolding is_empty
all_empty zero i t = true
all_empty (suc k) i t = is_empty (t i) && all_empty k (i + 1) t

abbrev pub inode_hash_destroy : Table → Bool
inode_hash_destroy t = all_empty inode_hash_size 0 t

abbrev pub inode_hashfn : FsState → ℕ → ℕ
inode_hashfn s nr = s.hash_int (nr % u32_mod) inode_hash_shift

unfoldable pub find_in : ℕ → List Inode → Option Inode
find_in nr [] = none
find_in nr (i ∷ is) = if i.i_nr == nr then some i else find_in nr is

-- The inode `nr` of a bucket is given new contents, or is unlinked.
unfoldable pub replace_in : ℕ → Inode → List Inode → List Inode
replace_in nr new [] = []
replace_in nr new (i ∷ is) =
    let rest = replace_in nr new is in if i.i_nr == nr then new ∷ is else i ∷ rest

unfoldable pub remove_in : ℕ → List Inode → List Inode
remove_in nr [] = []
remove_in nr (i ∷ is) = let rest = remove_in nr is in if i.i_nr == nr then is else i ∷ rest

unfoldable pub inode_hash_find : FsState → ℕ → Option Inode
inode_hash_find s nr = find_in nr (s.table (inode_hashfn s nr))

abbrev pub set_bucket : FsState → ℕ → List Inode → FsState
set_bucket s nr l = record s { table = update s.table (inode_hashfn s nr) l }

unfoldable pub inode_hash_insert : FsState → Inode → FsState
inode_hash_insert s i = set_bucket s i.i_nr (i ∷ s.table (inode_hashfn s i.i_nr))

unfoldable pub inode_hash_remove : FsState → ℕ → FsState
inode_hash_remove s nr = set_bucket s nr (remove_in nr (s.table (inode_hashfn s nr)))

-- an assignment to fields of the inode `nr`
unfoldable pub set_inode : FsState → ℕ → Inode → FsState
set_inode s nr i = set_bucket s nr (replace_in nr i (s.table (inode_hashfn s nr)))

-- The assertions of testfs_inode_to_block_nr; the offset is always inside the block.
unfoldable pub testfs_inode_to_block_nr : ℕ → Option ℕ
testfs_inode_to_block_nr nr =
    let block_nr = nr / inodes_per_block in
    if ltb block_nr nr_inode_blocks then some block_nr else none

abbrev pub testfs_inode_to_block_offset : ℕ → ℕ
testfs_inode_to_block_offset nr = nr % inodes_per_block * dinode_size

unfoldable pub testfs_read_inode_block : SuperBlock → ℕ → Option Bytes
unfolding testfs_inode_to_block_nr
testfs_read_inode_block s nr = do
  block_nr ← testfs_inode_to_block_nr nr
  read_blocks s.dev (add_u32 s.sb.inode_blocks_start block_nr) 1

unfoldable pub testfs_write_inode_block : SuperBlock → ℕ → Bytes → Option SuperBlock
unfolding testfs_inode_to_block_nr
testfs_write_inode_block s nr block = do
  block_nr ← testfs_inode_to_block_nr nr
  some (record s { dev = write_blocks s.dev block (add_u32 s.sb.inode_blocks_start block_nr) 1 })

-- the dinode `nr` on the device
unfoldable pub read_dinode : SuperBlock → ℕ → Option Dinode
unfolding testfs_read_inode_block
read_dinode s nr = do
  block ← testfs_read_inode_block s nr
  some (dinode_of_bytes (λ p. block (testfs_inode_to_block_offset nr + p)))

unfoldable pub testfs_get_inode : FsState → ℕ → Option FsState
unfolding inode_hash_find inode_hash_insert set_inode read_dinode
testfs_get_inode s nr = elim (inode_hash_find s nr) [
  | some i ↦ some (set_inode s nr (record i { i_count = i.i_count + 1 }))
  | none ↦ read_dinode s.super nr >>= λ d.
      some (inode_hash_insert s (record { in_core = d; dirty = false; i_nr = nr; i_count = 1 }))
]

unfoldable pub testfs_sync_inode : FsState → ℕ → Option FsState
unfolding testfs_read_inode_block testfs_write_inode_block inode_hash_find set_inode
testfs_sync_inode s nr = inode_hash_find s nr >>= λ i.
    if i.dirty
    then (do
      block ← testfs_read_inode_block s.super nr
      let block' =
          memcpy block (testfs_inode_to_block_offset nr) (dinode_bytes i.in_core) dinode_size
      super' ← testfs_write_inode_block s.super nr block'
      some (set_inode (record s { super = super' }) nr (record i { dirty = false })))
    else some s

-- A reference count is never 0 in the table.
unfoldable pub testfs_put_inode : FsState → ℕ → Option FsState
unfolding inode_hash_find inode_hash_remove set_inode
testfs_put_inode s nr = inode_hash_find s nr >>= λ i.
    if i.dirty
    then none
    else if i.i_count == 1
    then some (inode_hash_remove s nr)
    else some (set_inode s nr (record i { i_count = i.i_count - 1 }))

-- an inode with its super block, and the state after a function on it
abbrev pub with_file : FsState → ℕ → FileState → FsState
with_file s nr f = set_inode (record s { super = f.super }) nr f.inode

unfoldable pub file_of : FsState → ℕ → Option FileState
file_of s nr = do i ← inode_hash_find s nr; some (record { super = s.super; inode = i })

-- `in->in.i_type = type` on a new inode
unfoldable pub set_type : FsState → ℕ → ℕ → Option FsState
unfolding file_of
set_type s nr type = do
  f ← file_of s nr
  let d : Dinode = f.inode.in_core
  some (with_file s nr (set_dirty (set_in_core f (record d { i_type = type }))))

-- The rest of testfs_create_inode, after testfs_get_inode_freemap. The result is `*inp`.
unfoldable pub created_inode : FsState → ℕ → Ret × SuperBlock → Option (Ret × FsState)
unfolding set_type
created_inode s type (err e, super') = some (err e, record s { super = super' })
created_inode s type (ok nr, super') =
    if leb nr_inode_blocks (nr / inodes_per_block)
    then (do
      super2 ← testfs_put_inode_freemap super' nr
      some (err enospc, record s { super = super2 }))
    else (do
      s1 ← testfs_get_inode (record s { super = super' }) nr
      s2 ← set_type s1 nr type
      some (ok nr, s2))

unfoldable pub testfs_create_inode : FsState → ℕ → Option (Ret × FsState)
unfolding created_inode
testfs_create_inode s type = do r ← testfs_get_inode_freemap s.super; created_inode s type r

abbrev pub zero_dinode : Dinode
zero_dinode = record {
  i_type = 0;
  i_block_nr = λ i. 0;
  i_indirect = 0;
  i_dindirect = 0;
  block_count = 0;
  i_size = 0;
}

unfoldable pub testfs_remove_inode : FsState → ℕ → Option FsState
unfolding file_of
testfs_remove_inode s nr = do
  f ← file_of s nr
  r ← testfs_free_blocks f
  let f1 : FileState = r.1
  let f2 = set_dirty (set_in_core f1 zero_dinode)
  super' ←
      (if f1.inode.in_core.block_count == 0 then testfs_put_inode_freemap f1.super nr else none)
  s' ← testfs_sync_inode (with_file s nr (record f2 { super = super' })) nr
  testfs_put_inode s' nr
