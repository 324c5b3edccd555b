-- ===== src/Fs/Mkfs.antt =====
-- The main program of fs/mktestfs.c up to the mounting of the new device: the parts of fs/super.c in
-- the order in which it calls them.
use ece334operating_system.Prelude.{
  ℕ, ◌+◌, ◌*◌, ◌/◌, ◌%◌, ◌^◌, ◌≤◌, ◌<◌, ◌≡◌, refl, true, false, Option, some, arith, ◌∙◌, dec_lt,
  ap, sym, ◌>>=◌,
}
use ece334operating_system.Prelude.Bits.{test-zero}
use ece334operating_system.Fs.Device.{Device, block_size, write_blocks, zero_blocks, zero_block}
use ece334operating_system.Fs.Device.Frame.{
  block_byte, write_blocks_in, zero_blocks_in, zero_blocks_out, zero_blocks-InFile,
  write_blocks_out, size-write_blocks,
}
use ece334operating_system.Fs.Bitmap.{Bitmap, bitmap_nr_allocated}
use ece334operating_system.Fs.Bitmap.Bits.{is_set}
use ece334operating_system.Fs.Bitmap.Count.{nr_allocated-count}
use ece334operating_system.Fs.Bitmap.Create.{count_below_none}
use ece334operating_system.Fs.Super.{
  SuperBlock, DsuperBlock, Mounted, mounted, testfs_make_super_block, testfs_make_inode_freemap,
  testfs_make_block_freemap, testfs_make_inode_blocks, testfs_close_super_block,
  testfs_write_super_block, testfs_init_super_block, super_bytes,
}
use ece334operating_system.Fs.Super.Sync.{Bounded, write_blocks-Bounded, zero_blocks-Bounded}
use ece334operating_system.Fs.Super.Inv.{
  IsMounted, data_start, block_bits, inode_bits, super_bytes-Bounded,
}
use ece334operating_system.Fs.Super.Mount.{Holds, init_lem, calls_succeed, stored_map}

-- testfs_make_super_block to testfs_close_super_block, with memory at hand.
unfoldable pub make_fs : ℕ → Option Device
make_fs max_fs_blocks = do
  s ← testfs_make_super_block true max_fs_blocks
  s' ← testfs_make_inode_blocks (testfs_make_block_freemap (testfs_make_inode_freemap s))
  testfs_close_super_block true s'

-- the super block that testfs_make_super_block writes
abbrev pub new_super : ℕ → DsuperBlock
new_super max_fs_blocks = record {
  inode_freemap_start = 1;
  block_freemap_start = 2;
  inode_blocks_start = 18;
  data_blocks_start = 146;
  used_inode_count = 0;
  used_block_count = 0;
  max_fs_blocks = max_fs_blocks;
}

empty_device : Device
empty_device = record { size = 0; byte = zero_block }

-- the device after each part was made
made_super : ℕ → Device
made_super n = write_blocks empty_device (super_bytes (new_super n)) 0 1

made_inode_map : ℕ → Device
made_inode_map n = zero_blocks (made_super n) 1 1

made_block_map : ℕ → Device
made_block_map n = zero_blocks (made_inode_map n) 2 16

made_inodes : ℕ → Device
made_inodes n = zero_blocks (made_block_map n) 18 128

pub closed : ℕ → Device
closed n = write_blocks (made_inodes n) (super_bytes (new_super n)) 0 1

make_fs_eq : (n : ℕ) → make_fs n ≡ some (closed n)
unfolding make_fs testfs_make_super_block testfs_make_inode_freemap testfs_make_block_freemap
    testfs_make_inode_blocks testfs_close_super_block testfs_write_super_block closed made_inodes
    made_block_map made_inode_map made_super empty_device
make_fs_eq n = refl

-- The sizes of the devices, as far as the proofs need them.
sizes :
    (n : ℕ)
    → (2 * block_size ≤ (made_inode_map n).size)
      × (18 * block_size ≤ (made_block_map n).size)
      × (data_start * block_size ≤ (made_inodes n).size)
      × (data_start * block_size ≤ (closed n).size)
unfolding made_inode_map made_block_map made_inodes closed
sizes n = omega (
  arith,
  zero_blocks-InFile 1 (made_super n) 1 1 (omega arith) (omega arith),
  zero_blocks-InFile 16 (made_inode_map n) 2 17 (omega arith) (omega arith),
  zero_blocks-InFile 128 (made_block_map n) 18 145 (omega arith) (omega arith),
  size-write_blocks (made_inodes n) (super_bytes (new_super n)) 0 1,
)

-- What the last two parts leave of a freemap block.
kept :
    (n k p : ℕ)
    → 1 ≤ k
    → k < 18
    → p < block_size
    → block_byte (closed n) k p ≡ block_byte (made_block_map n) k p
unfolding made_inodes closed
kept n k p lo hi hp =
    write_blocks_out (made_inodes n) (super_bytes (new_super n)) 0 1 k p (omega arith) hp
      (omega (arith, sizes n))
    ∙ zero_blocks_out 128 (made_block_map n) 18 k p (omega arith) hp (omega (arith, sizes n))

-- Both freemaps of the new device are zero.
freemap_zero : (n k p : ℕ) → 1 ≤ k → k < 18 → p < block_size → block_byte (closed n) k p ≡ 0
unfolding made_block_map made_inode_map
freemap_zero n k p lo hi hp = kept n k p lo hi hp ∙ elim (dec_lt k 2) [
  | yes one ↦
      zero_blocks_out 16 (made_inode_map n) 2 k p (omega arith) hp (omega (arith, sizes n))
      ∙ zero_blocks_in 1 (made_super n) 1 k p (omega arith) (omega arith) hp
  | no more ↦ zero_blocks_in 16 (made_inode_map n) 2 k p (omega arith) (omega arith) hp
]

closed-Bounded : (n : ℕ) → Bounded (closed n).byte
unfolding closed made_inodes made_block_map made_inode_map made_super empty_device
closed-Bounded n =
    write_blocks-Bounded (made_inodes n) (super_bytes (new_super n)) 0 1
      (zero_blocks-Bounded (made_block_map n) 18 128 (
        zero_blocks-Bounded (made_inode_map n) 2 16 (
          zero_blocks-Bounded (made_super n) 1 1 (
            write_blocks-Bounded empty_device (super_bytes (new_super n)) 0 1 (λ q. omega arith)
              (super_bytes-Bounded (new_super n))))))
      (super_bytes-Bounded (new_super n))

pub stored_clear :
    (n start len i : ℕ)
    → 1 ≤ start
    → start + len ≤ 18
    → i < block_size * len * 8
    → is_set (stored_map (closed n) start len) i ≡ false
stored_clear n start len i lo hi h =
    let zero : (closed n).byte (start * block_size + i / 8) ≡ 0 =
      ap (closed n).byte (omega arith)
      ∙ freemap_zero n (start + i / 8 / block_size) (i / 8 % block_size) (omega arith) (omega arith)
          (omega arith) in
    rw zero (test-zero (i % 8) (omega arith))

stored_empty :
    (n start len : ℕ)
    → 1 ≤ start
    → start + len ≤ 18
    → bitmap_nr_allocated (stored_map (closed n) start len) ≡ 0
stored_empty n start len lo hi =
    nr_allocated-count (stored_map (closed n) start len)
    ∙ count_below_none (block_size * len * 8) (is_set (stored_map (closed n) start len))
        (λ i h. stored_clear n start len i lo hi h)

pub closed-Holds : (n : ℕ) → n < 2 ^ 64 → Holds (closed n) (new_super n)
closed-Holds n h = record {
  laid_out = record {
    inode_freemap_start = refl;
    block_freemap_start = refl;
    inode_blocks_start = refl;
    data_blocks_start = refl;
    max_fs_blocks = h;
  };
  bounded = closed-Bounded n;
  in_file = (sizes n).3;
  super_synced = λ p hp.
      unfold closed in
      write_blocks_in (made_inodes n) (super_bytes (new_super n)) 0 1 0 p (omega arith)
        (omega arith) hp
      ∙ ap (super_bytes (new_super n)) (omega arith);
  inode_count = sym (stored_empty n 1 1 (omega arith) (omega arith));
  block_count = sym (stored_empty n 2 16 (omega arith) (omega arith));
}

-- A new file system: mounted, of the size asked for, with no inode and no block in use.
pub record IsNew (n : ℕ) (s : SuperBlock) : Type 0 where
  pub inode_map : Bitmap
  pub block_map : Bitmap
  pub is_mounted : IsMounted s inode_map block_map
  pub max_fs_blocks : s.sb.max_fs_blocks ≡ n
  pub no_inodes : (i : ℕ) → i < inode_bits → is_set inode_map i ≡ false
  pub no_blocks : (i : ℕ) → i < block_bits → is_set block_map i ≡ false
  pub counts : (s.sb.used_inode_count ≡ 0) × (s.sb.used_block_count ≡ 0)

abbrev pub Mounts : ℕ → Option Mounted → Type 0
Mounts n (some (mounted s)) = IsNew n s
Mounts n _ = ⊥

pub make_fs-Mounts :
    (n : ℕ) → n < 2 ^ 64 → Mounts n (make_fs n >>= testfs_init_super_block calls_succeed)
make_fs-Mounts n h =
    let holds = closed-Holds n h in
    rw (make_fs_eq n, (init_lem (closed n) (new_super n) holds).0)
      (record {
        inode_map = stored_map (closed n) 1 1;
        block_map = stored_map (closed n) 2 16;
        is_mounted = (init_lem (closed n) (new_super n) holds).1;
        max_fs_blocks = refl;
        no_inodes = λ i lt. stored_clear n 1 1 i (omega arith) (omega arith) (omega arith);
        no_blocks = λ i lt. stored_clear n 2 16 i (omega arith) (omega arith) (omega arith);
        counts = (refl, refl);
      })
