-- ===== src/Fs/BlockMap/Allocate.antt =====
-- testfs_read_block and testfs_allocate_block of fs/read_write.c on a mapped inode.
use ece334operating_system.Prelude.{
  ℕ, ◌+◌, ◌-◌, ◌%◌, ◌^◌, ◌<◌, ◌≡◌, ◌≢◌, refl, true, false, Option, none, some, ◌==◌, if◌then◌else◌,
  arith, inl, inr, Bool-cases, ==→ne, ne→==, ltb, leb, lt→ltb, ◌>>=◌,
}
use ece334operating_system.Prelude.Cint.{Ret, ok, err, u32_mod}
use ece334operating_system.Fs.Device.{Device, Bytes, zero_block}
use ece334operating_system.Fs.Device.Frame.{InFile}
use ece334operating_system.Fs.Bitmap.{Bitmap}
use ece334operating_system.Fs.Inode.{FileState}
use ece334operating_system.Fs.BlockMap.{
  max_file_blocks, testfs_read_block, testfs_allocate_block, allocate_missing,
}
use ece334operating_system.Fs.BlockMap.Words.{block_of, read_block_lem}
use ece334operating_system.Fs.BlockMap.Frame.{AllocOutcome}
use ece334operating_system.Fs.BlockMap.Direct.{allocate_direct_lem}
use ece334operating_system.Fs.BlockMap.Indirect.{allocate_indirect_lem}
use ece334operating_system.Fs.BlockMap.Lookup.{
  CanLookUp, block_lookup-ptr, is_pos-Used, is_pos_zero,
}
use ece334operating_system.Fs.BlockMap.Slots.{ptr, Used, IsMapped, slot_of, slot_of-InRange}

-- what a block of the file reads as: zeros where there is no block
abbrev pub content : Device → ℕ → Bytes
content dev n = if n == 0 then zero_block else block_of dev n

module _ {f : FileState} {im bm : Bitmap} (log : ℕ) (mp : IsMapped f im bm)
    (lt : log < max_file_blocks) (can : CanLookUp f log)
    (long : ptr f (slot_of log) ≢ 0 → InFile f.super.dev (ptr f (slot_of log))) where
  -- On a mapped inode whose block `log`, if there is one, lies inside the device file,
  -- testfs_read_block returns the number in its slot and the bytes of that block, or 0 and zeros,
  -- provided that the look-up stays inside the arrays.
  pub testfs_read_block_lem :
      testfs_read_block f log
      ≡ some (ptr f (slot_of log), content f.super.dev (ptr f (slot_of log)))
  unfolding testfs_read_block
  testfs_read_block_lem =
      let n = ptr f (slot_of log) in
      rw (wrap, lt→ltb log (2 ^ 31) (omega arith), block_lookup-ptr log mp lt can)
        (elim (Bool-cases (n == 0)) [
          | inl zero ↦ rw (is_pos_zero n zero, zero) refl
          | inr more ↦
              let used : Used bm n =
                mp.used (slot_of log) (slot_of-InRange log lt) (==→ne n 0 more) in
              rw (is_pos-Used bm n used, more, read_block_lem f.super.dev n (long (==→ne n 0 more)))
                refl
        ])
    where
      wrap : log % u32_mod ≡ log
      wrap = omega arith

  -- In the same case testfs_allocate_block on a block that is there returns its number and its bytes,
  -- and changes nothing.
  testfs_allocate_block_old :
      ptr f (slot_of log) ≢ 0
      → testfs_allocate_block f log
        ≡ some (ok (ptr f (slot_of log)), content f.super.dev (ptr f (slot_of log)), f)
  unfolding testfs_allocate_block
  testfs_allocate_block_old ne =
      let n = ptr f (slot_of log) in
      let used : Used bm n = mp.used (slot_of log) (slot_of-InRange log lt) ne in
      let wrap : log % u32_mod ≡ log = omega arith in
      let below : leb max_file_blocks log ≡ false = ground arith in
      rw
        (
          testfs_read_block_lem,
          wrap,
          below,
          ne→== n 0 ne,
          lt→ltb n (2 ^ 31) (omega (arith, used.1)),
        )
        refl

-- The outcomes of testfs_allocate_block on a block that is not there: the buffer holds zeros.
abbrev pub NewBlock : FileState → Bitmap → Bitmap → ℕ → Option (Ret × Bytes × FileState) → Type 0
NewBlock f im bm log none = ⊥
NewBlock f im bm log (some (r, b, f')) =
    ((p : ℕ) → b p ≡ 0) × AllocOutcome f im bm log (some (r, f'))

NewBlock-of :
    (f : FileState) (im bm : Bitmap) (log : ℕ) (r : Option (Ret × FileState))
    → AllocOutcome f im bm log r
    → NewBlock f im bm log (r >>= λ a. some (a.0, zero_block, a.1))
NewBlock-of f im bm log none h = h
NewBlock-of f im bm log (some (ok n, f')) h = (λ p. refl, h)
NewBlock-of f im bm log (some (err e, f')) h = (λ p. refl, h)

allocate_missing_lem :
    {f : FileState} {im bm : Bitmap} (log : ℕ)
    → IsMapped f im bm
    → log < 2058
    → ptr f (slot_of log) ≡ 0
    → AllocOutcome f im bm log (allocate_missing f log)
unfolding allocate_missing
allocate_missing_lem {f} {im} {bm} log mp lt free = elim (Bool-cases (ltb log 10)) [
  | inl small ↦ rw small (allocate_direct_lem log mp (ground arith) free)
  | inr large ↦
      let l = log - 10 in
      let split : 10 + l ≡ log = ground arith in
      let below : leb 2048 l ≡ false = ground arith in
      let middle : ltb log 2058 ≡ true = ground arith in
      rw (large, below)
        (rw split at (allocate_indirect_lem mp l (ground arith) (rw (large, middle) at free)))
]

-- On a mapped inode testfs_allocate_block of a direct or an indirect block that is not there puts a
-- block that was free into its slot, allocating the indirect block where there is none: the map
-- stays one of distinct allocated blocks, and the other blocks keep their numbers and their bytes.
-- Or it returns -ENOSPC, with every slot and the freemap as they were. The buffer holds zeros.
pub testfs_allocate_block-NewBlock :
    {f : FileState} {im bm : Bitmap} (log : ℕ)
    → IsMapped f im bm
    → log < 2058
    → ptr f (slot_of log) ≡ 0
    → NewBlock f im bm log (testfs_allocate_block f log)
unfolding testfs_allocate_block
testfs_allocate_block-NewBlock {f} {im} {bm} log mp lt free =
    let wrap : log % u32_mod ≡ log = omega arith in
    let below : leb max_file_blocks log ≡ false = ground arith in
    rw
      (
        testfs_read_block_lem log mp (omega arith) (inl lt) (λ ne. absurd (ne free)),
        free,
        wrap,
        below,
      )
      (NewBlock-of f im bm log (allocate_missing f log) (allocate_missing_lem log mp lt free))
