-- ===== src/Fs/Super.antt =====
-- The functions of fs/super.c: the super block, the two freemaps and the blocks of the file system.
-- An outer `none` is a failed assertion, a null pointer or an exit of the program.
pub mod Inv
pub mod Blocks
pub mod Mount
pub mod Inodes
pub mod Layout
pub mod Sync
use ece334operating_system.Prelude.{
  ℕ, zero, suc, ◌+◌, ◌-◌, ◌*◌, ◌/◌, ◌%◌, ◌^◌, Bool, true, false, not, ◌&&◌, Option, none, some,
  List, [], ◌∷◌, ltb, leb, ◌==◌, if◌then◌else◌, ◌>>=◌,
}
use ece334operating_system.Prelude.Cint.{Ret, ok, err, enospc, enomem, einval, u32_mod}
use ece334operating_system.Fs.Bitmap.{Bitmap, bitmap_create, bitmap_alloc, bitmap_unmark}
use ece334operating_system.Fs.Device.{
  Device, Bytes, block_size, zero_block, write_blocks, zero_blocks, read_blocks,
}

abbrev pub super_block_size : ℕ
super_block_size = 1

abbrev pub inode_freemap_size : ℕ
inode_freemap_size = 1

abbrev pub block_freemap_size : ℕ
block_freemap_size = 16

abbrev pub nr_inode_blocks : ℕ
nr_inode_blocks = 128

-- sizeof(struct dinode): fourteen s32 and an off_t
abbrev pub dinode_size : ℕ
dinode_size = 64

abbrev pub inodes_per_block : ℕ
inodes_per_block = block_size / dinode_size

-- struct dsuper_block
pub record DsuperBlock : Type 0 where
  pub inode_freemap_start : ℕ
  pub block_freemap_start : ℕ
  pub inode_blocks_start : ℕ
  pub data_blocks_start : ℕ
  pub used_inode_count : ℕ
  pub used_block_count : ℕ
  pub max_fs_blocks : ℕ

-- struct super_block; a freemap is `none` while its pointer is NULL
pub record SuperBlock : Type 0 where
  pub sb : DsuperBlock
  pub dev : Device
  pub inode_freemap : Option Bitmap
  pub block_freemap : Option Bitmap

-- byte `k` of a little-endian number
abbrev pub le_byte : ℕ → ℕ → ℕ
le_byte w k = w / 256 ^ k % 256

abbrev pub u32_at : Bytes → ℕ → ℕ
u32_at b o = b o + 256 * b (o + 1) + 65536 * b (o + 2) + 16777216 * b (o + 3)

abbrev pub u64_at : Bytes → ℕ → ℕ
u64_at b o = u32_at b o + 4294967296 * u32_at b (o + 4)

-- The super block as the bytes of its block: `memcpy` into a block of zeros.
unfoldable pub super_bytes : DsuperBlock → Bytes
super_bytes s p =
    if ltb p 4
    then le_byte s.inode_freemap_start p
    else if ltb p 8
    then le_byte s.block_freemap_start (p - 4)
    else if ltb p 12
    then le_byte s.inode_blocks_start (p - 8)
    else if ltb p 16
    then le_byte s.data_blocks_start (p - 12)
    else if ltb p 20
    then le_byte s.used_inode_count (p - 16)
    else if ltb p 24
    then le_byte s.used_block_count (p - 20)
    else if ltb p 32
    then le_byte s.max_fs_blocks (p - 24)
    else 0

-- `memcpy` out of a block.
unfoldable pub super_of_bytes : Bytes → DsuperBlock
super_of_bytes b = record {
  inode_freemap_start = u32_at b 0;
  block_freemap_start = u32_at b 4;
  inode_blocks_start = u32_at b 8;
  data_blocks_start = u32_at b 12;
  used_inode_count = u32_at b 16;
  used_block_count = u32_at b 20;
  max_fs_blocks = u64_at b 24;
}

-- unsigned int addition
abbrev pub add_u32 : ℕ → ℕ → ℕ
add_u32 a b = (a + b) % u32_mod

unfoldable pub testfs_write_super_block : SuperBlock → SuperBlock
testfs_write_super_block s = record s { dev = write_blocks s.dev (super_bytes s.sb) 0 1 }

-- the block of a freemap that holds the bit of a number
abbrev pub freemap_block : ℕ → ℕ
freemap_block n = n / (block_size * 8)

-- `freemap + nr * BLOCK_SIZE`
abbrev pub freemap_bytes : Bitmap → ℕ → Bytes
freemap_bytes m nr p = m.v (nr * block_size + p)

unfoldable pub testfs_write_inode_freemap : SuperBlock → ℕ → Option SuperBlock
testfs_write_inode_freemap s inode_nr = do
  m ← s.inode_freemap
  let nr = freemap_block inode_nr
  some (record s {
    dev = write_blocks s.dev (freemap_bytes m nr) (add_u32 s.sb.inode_freemap_start nr) 1;
  })

unfoldable pub testfs_write_block_freemap : SuperBlock → ℕ → Option SuperBlock
testfs_write_block_freemap s block_nr = do
  m ← s.block_freemap
  let nr = freemap_block block_nr
  some (record s {
    dev = write_blocks s.dev (freemap_bytes m nr) (add_u32 s.sb.block_freemap_start nr) 1;
  })

-- The rest of testfs_get_block_freemap, after bitmap_alloc.
pub got_block : SuperBlock → Ret × Bitmap → Option (Ret × SuperBlock)
got_block s (err e, m) = some (err e, record s { block_freemap = some m })
got_block s (ok index, m) = do
  s' ← testfs_write_block_freemap (record s { block_freemap = some m }) index
  some (ok index, s')

unfoldable pub testfs_get_block_freemap : SuperBlock → Option (Ret × SuperBlock)
unfolding got_block
testfs_get_block_freemap s = do m ← s.block_freemap; r ← bitmap_alloc m; got_block s r

unfoldable pub testfs_put_block_freemap : SuperBlock → ℕ → Option SuperBlock
testfs_put_block_freemap s block_nr = do
  m ← s.block_freemap
  m' ← bitmap_unmark m block_nr
  testfs_write_block_freemap (record s { block_freemap = some m' }) block_nr

-- The rest of testfs_get_inode_freemap, after bitmap_alloc.
pub got_inode : SuperBlock → Ret × Bitmap → Option (Ret × SuperBlock)
got_inode s (err e, m) = some (err e, record s { inode_freemap = some m })
got_inode s (ok index, m) = do
  s' ← testfs_write_inode_freemap (record s { inode_freemap = some m }) index
  let d = s'.sb
  let d' : DsuperBlock = record d { used_inode_count = add_u32 d.used_inode_count 1 }
  some (ok index, testfs_write_super_block (record s' { sb = d' }))

unfoldable pub testfs_get_inode_freemap : SuperBlock → Option (Ret × SuperBlock)
unfolding got_inode
testfs_get_inode_freemap s = do m ← s.inode_freemap; r ← bitmap_alloc m; got_inode s r

-- The rest of testfs_put_inode_freemap, after the freemap was written.
pub inode_released : SuperBlock → Option SuperBlock
inode_released s =
    let d = s.sb in
    let d' : DsuperBlock = record d { used_inode_count = d.used_inode_count - 1 } in
    if ltb 0 d.used_inode_count
    then some (testfs_write_super_block (record s { sb = d' }))
    else none

unfoldable pub testfs_put_inode_freemap : SuperBlock → ℕ → Option SuperBlock
unfolding inode_released
testfs_put_inode_freemap s inode_nr = do
  m ← s.inode_freemap
  m' ← bitmap_unmark m inode_nr
  s' ← testfs_write_inode_freemap (record s { inode_freemap = some m' }) inode_nr
  inode_released s'

-- The rest of testfs_alloc_block, after testfs_get_block_freemap.
pub allocated : Ret × SuperBlock → Option (Ret × SuperBlock)
allocated (err e, s) = some (err e, s)
allocated (ok phy_block_nr, s) =
    let d = s.sb in
    let d' : DsuperBlock = record d { used_block_count = add_u32 d.used_block_count 1 } in
    some (
      ok (add_u32 d.data_blocks_start phy_block_nr),
      testfs_write_super_block (record s { sb = d' }),
    )

unfoldable pub testfs_alloc_block : SuperBlock → Option (Ret × SuperBlock)
unfolding allocated
testfs_alloc_block s =
    if leb s.sb.max_fs_blocks s.sb.used_block_count
    then some (err enospc, s)
    else do r ← testfs_get_block_freemap s; allocated r

-- The rest of testfs_free_block, after the bit was cleared.
pub freed : SuperBlock → Option (Ret × SuperBlock)
freed s =
    let d = s.sb in
    let d' : DsuperBlock = record d { used_block_count = d.used_block_count - 1 } in
    if ltb 0 d.used_block_count
    then some (ok 0, testfs_write_super_block (record s { sb = d' }))
    else none

-- `block_nr -= data_blocks_start` is unsigned, and the assertion is on its sign as an int.
unfoldable pub testfs_free_block : SuperBlock → ℕ → Option (Ret × SuperBlock)
unfolding freed
testfs_free_block s block_nr =
    let s0 : SuperBlock = record s { dev = zero_blocks s.dev block_nr 1 } in
    let n = (block_nr + (u32_mod - s.sb.data_blocks_start)) % u32_mod in
    if ltb n (2 ^ 31) then (do s' ← testfs_put_block_freemap s0 n; freed s') else none

-- The block device is opened for writing, which empties it. The flag says whether calloc succeeds.
unfoldable pub testfs_make_super_block : Bool → ℕ → Option SuperBlock
testfs_make_super_block false max_fs_blocks = none
testfs_make_super_block true max_fs_blocks =
    let inode_freemap_start = super_block_size in
    let block_freemap_start = inode_freemap_start + inode_freemap_size in
    let inode_blocks_start = block_freemap_start + block_freemap_size in
    let d : DsuperBlock = record {
      inode_freemap_start = inode_freemap_start;
      block_freemap_start = block_freemap_start;
      inode_blocks_start = inode_blocks_start;
      data_blocks_start = inode_blocks_start + nr_inode_blocks;
      used_inode_count = 0;
      used_block_count = 0;
      max_fs_blocks = max_fs_blocks;
    } in
    let empty : Device = record { size = 0; byte = zero_block } in
    some (
      testfs_write_super_block
        (record { sb = d; dev = empty; inode_freemap = none; block_freemap = none }))

unfoldable pub testfs_make_inode_freemap : SuperBlock → SuperBlock
testfs_make_inode_freemap s = record s {
  dev = zero_blocks s.dev s.sb.inode_freemap_start inode_freemap_size;
}

unfoldable pub testfs_make_block_freemap : SuperBlock → SuperBlock
testfs_make_block_freemap s = record s {
  dev = zero_blocks s.dev s.sb.block_freemap_start block_freemap_size;
}

unfoldable pub testfs_make_inode_blocks : SuperBlock → Option SuperBlock
testfs_make_inode_blocks s =
    let num_bits_in_freemap = block_size * inode_freemap_size * 8 in
    if ltb num_bits_in_freemap (nr_inode_blocks * inodes_per_block)
    then none
    else if block_size % dinode_size == 0
    then some (record s { dev = zero_blocks s.dev s.sb.inode_blocks_start nr_inode_blocks })
    else none

-- How the calls outside the program go in testfs_init_super_block: the allocation of the super
-- block, the opening of the file (or its error number), and the allocations of each freemap.
pub record InitCalls : Type 0 where
  pub malloc_sb : Bool
  pub open_errno : Option ℕ
  pub malloc_inode_map : Bool
  pub malloc_inode_bits : Bool
  pub malloc_block_map : Bool
  pub malloc_block_bits : Bool

-- A return value, and the super block when it is 0.
pub data Mounted : Type 0 where
  mounted : SuperBlock → Mounted
  failed : Ret → Mounted

-- A freemap of `nr` blocks read from block `start` on: bitmap_create and the read into its bytes.
unfoldable pub read_freemap : Bool → Bool → Device → ℕ → ℕ → Option (Option Bitmap)
read_freemap mem_b mem_v dev start nr = do
  made ← bitmap_create mem_b mem_v (block_size * nr * 8)
  elim made [
    | none ↦ some none
    | some m ↦ read_blocks dev start nr >>= λ bytes. some (some (record m { v = bytes }))
  ]

pub init_block_freemap : InitCalls → DsuperBlock → Device → Bitmap → Option Bitmap → Mounted
init_block_freemap c d dev im none = failed (err enomem)
init_block_freemap c d dev im (some bm) =
    mounted (record { sb = d; dev = dev; inode_freemap = some im; block_freemap = some bm })

pub init_inode_freemap : InitCalls → DsuperBlock → Device → Option Bitmap → Option Mounted
unfolding init_block_freemap
init_inode_freemap c d dev none = some (failed (err enomem))
init_inode_freemap c d dev (some im) = do
  r ←
      read_freemap c.malloc_block_map c.malloc_block_bits dev d.block_freemap_start
        block_freemap_size
  some (init_block_freemap c d dev im r)

-- The error number of a failed open is returned as it is, not negated.
unfoldable pub testfs_init_super_block : InitCalls → Device → Option Mounted
unfolding init_inode_freemap
testfs_init_super_block c dev =
    if c.malloc_sb
    then elim c.open_errno [
      | some errno ↦ some (failed (ok errno))
      | none ↦ do
        block ← read_blocks dev 0 1
        let d = super_of_bytes block
        r ←
            read_freemap c.malloc_inode_map c.malloc_inode_bits dev d.inode_freemap_start
              inode_freemap_size
        init_inode_freemap c d dev r
    ]
    else some (failed (err enomem))

-- A freemap that is there is written back.
pub write_back : Device → Option Bitmap → ℕ → ℕ → Device
write_back dev none start nr = dev
write_back dev (some m) start nr = write_blocks dev m.v start nr

-- The flag says whether inode_hash_destroy finds its table empty, which it asserts. What is left
-- is the device file.
unfoldable pub testfs_close_super_block : Bool → SuperBlock → Option Device
unfolding write_back
testfs_close_super_block false s = none
testfs_close_super_block true s =
    let s' = testfs_write_super_block s in
    let dev' = write_back s'.dev s.inode_freemap s.sb.inode_freemap_start inode_freemap_size in
    some (write_back dev' s.block_freemap s.sb.block_freemap_start block_freemap_size)

-- The two numbers that cmd_fsstat prints.
unfoldable pub cmd_fsstat : SuperBlock → ℕ → Ret × List ℕ
cmd_fsstat s nargs =
    if nargs == 1
    then (ok 0, s.sb.used_inode_count ∷ s.sb.used_block_count ∷ [])
    else (err einval, [])
