-- ===== src/Fs/Itable/Persist.antt =====
-- The way of an inode of fs/inode.c to the device: testfs_sync_inode.
use ece334operating_system.Prelude.{
  ℕ, ◌+◌, ◌-◌, ◌*◌, ◌/◌, ◌≤◌, ◌<◌, ◌≡◌, ◌≢◌, refl, true, false, some, ltb, leb, ◌==◌, ◌&&◌, arith,
  ◌⊎◌, inl, inr, ◌∙◌, ap, sym, Bool-cases, eq→==, lt→ltb, le→leb,
}
use ece334operating_system.Fs.Device.{Bytes, block_size, write_blocks}
use ece334operating_system.Fs.Device.Frame.{block_byte, InFile, write_blocks_in, write_blocks_out}
use ece334operating_system.Fs.Bitmap.{Bitmap}
use ece334operating_system.Fs.Super.{SuperBlock, add_u32, dinode_size}
use ece334operating_system.Fs.Super.Sync.{Bounded}
use ece334operating_system.Fs.Super.Inv.{IsMounted, write_late-IsMounted}
use ece334operating_system.Fs.ReadData.{memcpy}
use ece334operating_system.Fs.Inode.{Dinode, Inode}
use ece334operating_system.Fs.Itable.{
  FsState, set_inode, inode_hash_find, inode_hashfn, dinode_bytes, testfs_inode_to_block_offset,
  testfs_write_inode_block, testfs_sync_inode, read_dinode,
}
use ece334operating_system.Fs.Itable.Dinodes.{
  Fits, SameDinode, SameDinode-bytes, inode_block, inode_to_block_nr_lem, read_inode_block_lem,
  read_dinode_lem,
}
use ece334operating_system.Fs.Itable.Refs.{find_in_nr, find_in-replace}

dinode_bytes-Bounded : (d : Dinode) → Bounded (dinode_bytes d)
unfolding dinode_bytes
dinode_bytes-Bounded d p = ground arith

-- a buffer after `n` bytes were copied into it
memcpy_in : (b : Bytes) (o : ℕ) (src : Bytes) (n p : ℕ) → p < n → memcpy b o src n (o + p) ≡ src p
unfolding memcpy
memcpy_in b o src n p h =
    let at : o + p - o ≡ p = omega arith in
    rw (le→leb o (o + p) (omega arith), lt→ltb (o + p) (o + n) (omega arith), at) refl

memcpy_out :
    (b : Bytes) (o : ℕ) (src : Bytes) (n q : ℕ) → (q < o) ⊎ (o + n ≤ q) → memcpy b o src n q ≡ b q
unfolding memcpy
memcpy_out b o src n q h = ground arith

memcpy-Bounded :
    (b : Bytes) (o : ℕ) (src : Bytes) (n : ℕ) → Bounded b → Bounded src → Bounded (memcpy b o src n)
unfolding memcpy
memcpy-Bounded b o src n h g q = elim (Bool-cases (leb o q && ltb q (o + n))) [
  | inl inside ↦ rw inside (g (q - o))
  | inr outside ↦ rw outside (h q)
]

-- The device holds inode `nr` as it is in memory, where it is clean; the other inodes and the other
-- blocks of the device are as they were, and the file system is mounted.
pub record IsPersisted (s : FsState) (im bm : Bitmap) (nr : ℕ) (i : Inode) (s' : FsState)
    : Type 0 where
  pub still_mounted : IsMounted s'.super im bm
  pub stored : (d : Dinode) × (read_dinode s'.super nr ≡ some d) × SameDinode i.in_core d
  pub clean : inode_hash_find s' nr ≡ some (record i { dirty = false })
  pub others :
      (other p : ℕ)
      → other < 16384
      → other ≢ nr
      → p < 64
      → block_byte s'.super.dev (inode_block other) (testfs_inode_to_block_offset other + p)
        ≡ block_byte s.super.dev (inode_block other) (testfs_inode_to_block_offset other + p)
  pub same :
      (k p : ℕ)
      → k ≢ inode_block nr
      → InFile s.super.dev k
      → p < block_size
      → block_byte s'.super.dev k p ≡ block_byte s.super.dev k p

module _ (s : FsState) {im bm : Bitmap} (mt : IsMounted s.super im bm) (nr : ℕ) (lt : nr < 16384)
    (i : Inode) (e : inode_hash_find s nr ≡ some i) (f : Fits i.in_core) where
  abbrev offset : ℕ
  offset = testfs_inode_to_block_offset nr

  abbrev old_bytes : Bytes
  old_bytes p = block_byte s.super.dev (inode_block nr) p

  abbrev new_bytes : Bytes
  new_bytes = memcpy old_bytes offset (dinode_bytes i.in_core) dinode_size

  abbrev written_super : SuperBlock
  written_super = record (s.super) { dev = write_blocks s.super.dev new_bytes (inode_block nr) 1 }

  abbrev persisted : FsState
  persisted = set_inode (record s { super = written_super }) nr (record i { dirty = false })

  sync_eq : i.dirty ≡ true → testfs_sync_inode s nr ≡ some persisted
  unfolding testfs_sync_inode testfs_write_inode_block
  sync_eq dirty =
      let at : add_u32 s.super.sb.inode_blocks_start (nr / 128) ≡ inode_block nr =
        omega (arith, mt.laid_out.inode_blocks_start) in
      rw (e, dirty, read_inode_block_lem nr mt lt, inode_to_block_nr_lem nr lt, at) refl

  in_block :
      (p : ℕ) → p < block_size → block_byte written_super.dev (inode_block nr) p ≡ new_bytes p
  in_block p hp =
      write_blocks_in s.super.dev new_bytes (inode_block nr) 1 (inode_block nr) p (omega arith)
        (omega arith) hp
      ∙ ap new_bytes (omega arith)

  written-IsMounted : IsMounted written_super im bm
  written-IsMounted =
      write_late-IsMounted new_bytes (inode_block nr) (omega arith)
        (memcpy-Bounded old_bytes offset (dinode_bytes i.in_core) dinode_size
          (λ p. mt.bounded (inode_block nr * block_size + p)) (dinode_bytes-Bounded i.in_core))
        mt

  stored_byte :
      (p : ℕ)
      → p < 64
      → block_byte written_super.dev (inode_block nr) (offset + p) ≡ dinode_bytes i.in_core p
  stored_byte p hp =
      in_block (offset + p) (omega arith)
      ∙ memcpy_in old_bytes offset (dinode_bytes i.in_core) dinode_size p hp

  other_byte :
      (other p : ℕ)
      → other < 16384
      → other ≢ nr
      → p < 64
      → block_byte written_super.dev (inode_block other) (testfs_inode_to_block_offset other + p)
        ≡ block_byte s.super.dev (inode_block other) (testfs_inode_to_block_offset other + p)
  other_byte other p h ne hp =
      let q = testfs_inode_to_block_offset other + p in
      elim (Bool-cases (nr / 128 == other / 128)) [
        | inl together ↦
            let e : nr / 128 ≡ other / 128 = ground arith in
            rw (sym e) (
              in_block q (omega arith)
              ∙ memcpy_out old_bytes offset (dinode_bytes i.in_core) dinode_size q (omega arith))
        | inr apart ↦
            let ne' : nr / 128 ≢ other / 128 = ground arith in
            write_blocks_out s.super.dev new_bytes (inode_block nr) 1 (inode_block other) q
              (omega arith) (omega arith) (omega (arith, mt.in_file))
      ]

  persisted-IsPersisted : IsPersisted s im bm nr i persisted
  unfolding set_inode inode_hash_find
  persisted-IsPersisted = record {
    still_mounted = written-IsMounted;
    stored = (
      _,
      read_dinode_lem nr written-IsMounted lt,
      SameDinode-bytes i.in_core _ f (λ p hp. stored_byte p hp),
    );
    clean = rw (eq→== (inode_hashfn s nr) (inode_hashfn s nr) refl) (
        find_in-replace nr (record i { dirty = false }) (s.table (inode_hashfn s nr)) i
          (find_in_nr nr (s.table (inode_hashfn s nr)) i e) e);
    others = other_byte;
    same = λ k p ne hf hp.
        write_blocks_out s.super.dev new_bytes (inode_block nr) 1 k p (omega arith) hp hf;
  }

-- On a mounted file system testfs_sync_inode of a dirty inode in memory, whose fields fit their types,
-- puts the inode on the device, where reading it gives the same contents, and marks it clean; no other
-- inode and no other block of the device changes, and the file system stays mounted.
pub testfs_sync_inode-IsPersisted :
    (s : FsState) (im bm : Bitmap) (nr : ℕ) (i : Inode)
    → IsMounted s.super im bm
    → nr < 16384
    → inode_hash_find s nr ≡ some i
    → Fits i.in_core
    → i.dirty ≡ true
    → (s' : FsState) × (testfs_sync_inode s nr ≡ some s') × IsPersisted s im bm nr i s'
testfs_sync_inode-IsPersisted s im bm nr i mt lt e f dirty = (
  persisted s mt nr lt i e f,
  sync_eq s mt nr lt i e f dirty,
  persisted-IsPersisted s mt nr lt i e f,
)
