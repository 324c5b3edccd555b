-- ===== src/Tests/BlockMapTests.antt =====
-- fs/read_write.c on files of the file system of 100 blocks.
use ece334operating_system.Prelude.{
  ℕ, ◌≡◌, ◌≢◌, refl, true, false, none, some, ◌==◌, if◌then◌else◌, arith, inl, inr, ◌∙◌, ap, sym,
  Bool-cases, ==→eq,
}
use ece334operating_system.Fs.Device.{zero_block, write_blocks}
use ece334operating_system.Fs.Device.Frame.{InFile, write_blocks-InFile}
use ece334operating_system.Fs.Bitmap.Bits.{is_set}
use ece334operating_system.Fs.Super.{SuperBlock}
use ece334operating_system.Fs.Super.Inv.{IsMounted, write_data-IsMounted}
use ece334operating_system.Fs.Inode.{FileState}
use ece334operating_system.Fs.BlockMap.{testfs_read_block, testfs_allocate_block}
use ece334operating_system.Fs.BlockMap.Words.{word_written}
use ece334operating_system.Fs.BlockMap.Entry.{word_in_there}
use ece334operating_system.Fs.BlockMap.Lookup.{testfs_read_block_out}
use ece334operating_system.Fs.BlockMap.Allocate.{
  content, testfs_read_block_lem, NewBlock, testfs_allocate_block-NewBlock,
}
use ece334operating_system.Fs.BlockMap.Slots.{
  Slot, direct, single, double, entry, table, leaf, InRange, ptr, IsMapped, slot_of,
}
use ece334operating_system.Tests.SuperTests.{
  fresh, inode_map, block_map, fresh-IsMounted, busy, one_block, one_block-Flipped, busy-IsMounted,
}

abbrev file : SuperBlock → (ℕ → ℕ) → ℕ → FileState
file s direct_blocks indirect = record {
  inode = record {
    in_core = record {
      i_type = 1;
      i_size = 0;
      block_count = 0;
      i_block_nr = direct_blocks;
      i_indirect = indirect;
      i_dindirect = 0;
    };
    dirty = false;
    i_nr = 0;
    i_count = 1;
  };
  super = s;
}

-- a file without blocks
abbrev empty : FileState
empty = file fresh (λ i. 0) 0

empty_ptr : (s : Slot) → ptr empty s ≡ 0
empty_ptr (direct i) = refl
empty_ptr single = refl
empty_ptr double = refl
empty_ptr (entry k) = refl
empty_ptr (table d) = refl
empty_ptr (leaf d k) = refl

empty-IsMapped : IsMapped empty inode_map block_map
empty-IsMapped = record {
  is_mounted = fresh-IsMounted;
  used = λ s r ne. absurd (ne (empty_ptr s));
  in_file = λ s r ix ne. absurd (ne (empty_ptr s));
  apart = λ s t r q ne e. absurd (ne (empty_ptr s));
}

testfs_allocate_block-NewBlock_example :
    NewBlock empty inode_map block_map 2000 (testfs_allocate_block empty 2000)
testfs_allocate_block-NewBlock_example =
    testfs_allocate_block-NewBlock 2000 empty-IsMapped (omega arith) (empty_ptr (slot_of 2000))

-- the file system with its first data block in use and written
abbrev written : SuperBlock
written = record busy { dev = write_blocks busy.dev zero_block 146 1 }

written-IsMounted : IsMounted written inode_map one_block
written-IsMounted =
    write_data-IsMounted zero_block 146 (omega arith) (λ p. omega arith) busy-IsMounted

block_set : is_set one_block 0 ≡ true
block_set = one_block-Flipped.after 0

written-InFile : InFile written.dev 146
written-InFile = write_blocks-InFile busy.dev zero_block 146 1 146 (omega arith) (omega arith)

-- A file with that block in one slot alone is mapped.
one-IsMapped :
    (f : FileState) (here : Slot)
    → f.super ≡ written
    → ((s : Slot) → InRange s → ptr f s ≢ 0 → (s ≡ here) × (ptr f s ≡ 146))
    → IsMapped f inode_map one_block
one-IsMapped f here e only = record {
  is_mounted = rw e written-IsMounted;
  used = λ s r ne. rw (only s r ne).1 (omega arith, omega arith, block_set);
  in_file = λ s r ix ne. rw ((only s r ne).1, e) written-InFile;
  apart = λ s t r q ne e. (only s r ne).0 ∙ sym (only t q (λ z. ne (e ∙ z))).0;
}

-- in the first direct entry
abbrev direct_file : FileState
direct_file = file written (λ i. if i == 0 then 146 else 0) 0

direct_only :
    (s : Slot) → InRange s → ptr direct_file s ≢ 0 → (s ≡ direct 0) × (ptr direct_file s ≡ 146)
direct_only (direct i) r ne = elim (Bool-cases (i == 0)) [
  | inl first ↦ (ap direct (==→eq i 0 first), rw first refl)
  | inr other ↦ absurd (ne (rw other refl))
]
direct_only single r ne = absurd (ne refl)
direct_only double r ne = absurd (ne refl)
direct_only (entry k) r ne = absurd (ne refl)
direct_only (table d) r ne = absurd (ne refl)
direct_only (leaf d k) r ne = absurd (ne refl)

direct-IsMapped : IsMapped direct_file inode_map one_block
direct-IsMapped = one-IsMapped direct_file (direct 0) refl direct_only

testfs_read_block_lem_example :
    testfs_read_block direct_file 0 ≡ some (146, content written.dev 146)
testfs_read_block_lem_example =
    testfs_read_block_lem 0 direct-IsMapped (omega arith) (inl (omega arith)) (λ ne. written-InFile)

-- as the indirect block
abbrev indirect_file : FileState
indirect_file = file written (λ i. 0) 146

no_entries : (k : ℕ) → InRange (entry k) → ptr indirect_file (entry k) ≡ 0
no_entries k h =
    word_in_there written.dev 146 k (λ z. omega (arith, z))
    ∙ word_written busy.dev zero_block 146 k h

indirect_only :
    (s : Slot) → InRange s → ptr indirect_file s ≢ 0 → (s ≡ single) × (ptr indirect_file s ≡ 146)
indirect_only single r ne = (refl, refl)
indirect_only (direct i) r ne = absurd (ne refl)
indirect_only double r ne = absurd (ne refl)
indirect_only (entry k) r ne = absurd (ne (no_entries k r))
indirect_only (table d) r ne = absurd (ne refl)
indirect_only (leaf d k) r ne = absurd (ne refl)

indirect-IsMapped : IsMapped indirect_file inode_map one_block
indirect-IsMapped = one-IsMapped indirect_file single refl indirect_only

testfs_read_block_out_example : testfs_read_block indirect_file 2058 ≡ none
testfs_read_block_out_example =
    testfs_read_block_out 2058 indirect-IsMapped (omega arith) (omega arith) (λ z. omega (arith, z))
      refl
