-- ===== src/Fs/BlockMap/Frame.antt =====
-- Which slots of the block map a change of the device leaves alone, and the outcomes of an allocation.
use ece334operating_system.Prelude.{
  ℕ, dec_lt, ◌+◌, ◌-◌, ◌*◌, ◌≤◌, ◌<◌, ◌≡◌, ◌≢◌, refl, false, Option, none, some, arith, ◌∙◌, ap,
}
use ece334operating_system.Prelude.Cint.{Ret, ok, err, enospc}
use ece334operating_system.Fs.Device.{Device, Bytes, block_size, write_blocks}
use ece334operating_system.Fs.Device.Frame.{block_byte, InFile, write_blocks_out, size-write_blocks}
use ece334operating_system.Fs.Bitmap.{Bitmap}
use ece334operating_system.Fs.Bitmap.Bits.{is_set}
use ece334operating_system.Fs.Super.Inv.{SameBlocks, data_start}
use ece334operating_system.Fs.Inode.{FileState}
use ece334operating_system.Fs.Inode.Blocks.{SameMap}
use ece334operating_system.Fs.BlockMap.{max_file_blocks}
use ece334operating_system.Fs.BlockMap.Extend.{word_in_kept}
use ece334operating_system.Fs.BlockMap.Slots.{
  Slot, direct, single, double, entry, table, leaf, InRange, IsIndex, ptr, word_in, IsMapped,
  slot_of,
}

-- The inode and data blocks but `m` are the same on both devices.
pub record Keeps (m : ℕ) (dev dev' : Device) : Type 0 where
  pub size : dev.size ≤ dev'.size
  pub same :
      (k p : ℕ)
      → 18 ≤ k
      → k ≢ m
      → InFile dev k
      → p < block_size
      → block_byte dev' k p ≡ block_byte dev k p

pub SameBlocks-Keeps : {dev dev' : Device} (m : ℕ) → SameBlocks dev dev' → Keeps m dev dev'
SameBlocks-Keeps m s = record { size = s.size; same = λ k p lo ne f hp. s.same k p lo f hp }

pub write-Keeps : (dev : Device) (b : Bytes) (m : ℕ) → Keeps m dev (write_blocks dev b m 1)
write-Keeps dev b m = record {
  size = size-write_blocks dev b m 1;
  same = λ k p lo ne f hp. write_blocks_out dev b m 1 k p (omega arith) hp f;
}

-- The same block written on both devices.
pub both-Keeps :
    {dev dev' : Device} (b b' : Bytes) (m : ℕ)
    → SameBlocks dev dev'
    → Keeps m (write_blocks dev b m 1) (write_blocks dev' b' m 1)
unfolding write_blocks
both-Keeps {dev} {dev'} b b' m s = record {
  size = ground (arith, s.same_size);
  same = λ k p lo ne f hp. both_byte k p lo ne hp;
}
  where
    both_byte :
        (k p : ℕ)
        → 18 ≤ k
        → k ≢ m
        → p < block_size
        → block_byte (write_blocks dev' b' m 1) k p ≡ block_byte (write_blocks dev b m 1) k p
    both_byte k p lo ne hp = elim (dec_lt (k * block_size + p) dev.size) [
      | yes inside ↦
          let same : dev'.byte (k * block_size + p) ≡ dev.byte (k * block_size + p) =
            s.bytes (k * block_size + p) (omega arith) inside in
          ground (arith, s.same_size)
      | no past ↦ ground (arith, s.same_size)
    ]

pub Keeps-trans : {m : ℕ} {a b c : Device} → Keeps m a b → Keeps m b c → Keeps m a c
Keeps-trans h k = record {
  size = omega (arith, h.size, k.size);
  same = λ j p lo ne f hp. k.same j p lo ne (omega (arith, h.size)) hp ∙ h.same j p lo ne f hp;
}

-- The slot does not lie in block `m`.
abbrev pub NotUnder : FileState → ℕ → Slot → Type 0
NotUnder f m (entry k) = ptr f single ≢ m
NotUnder f m (table d) = ptr f double ≢ m
NotUnder f m (leaf d k) = (ptr f double ≢ m) × (ptr f (table d) ≢ m)
NotUnder f m _ = Unit

-- A slot that does not lie in the changed block holds what it held.
module _ (f f' : FileState) {im bm : Bitmap} (m : ℕ) (mp : IsMapped f im bm)
    (keep : Keeps m f.super.dev f'.super.dev) where
  word_kept_in :
      (s : Slot) (k : ℕ)
      → InRange s
      → IsIndex s
      → ptr f s ≢ m
      → k < 2048
      → word_in f'.super.dev (ptr f s) k ≡ word_in f.super.dev (ptr f s) k
  word_kept_in s k r ix ne hk = word_in_kept f.super.dev f'.super.dev (ptr f s) k hk (λ nz p hp.
      keep.same (ptr f s) p (omega (arith, (mp.used s r nz).0)) ne (mp.in_file s r ix nz) hp)

  -- the slots under the double indirect block
  pub table_kept :
      (d : ℕ)
      → f'.inode.in_core.i_dindirect ≡ f.inode.in_core.i_dindirect
      → d < 2048
      → ptr f double ≢ m
      → ptr f' (table d) ≡ ptr f (table d)
  table_kept d e hd ne = ap (λ n. word_in f'.super.dev n d) e ∙ word_kept_in double d tt tt ne hd

  pub leaf_kept :
      (d k : ℕ)
      → f'.inode.in_core.i_dindirect ≡ f.inode.in_core.i_dindirect
      → InRange (leaf d k)
      → NotUnder f m (leaf d k)
      → ptr f' (leaf d k) ≡ ptr f (leaf d k)
  leaf_kept d k e r nu =
      ap (λ n. word_in f'.super.dev n k) (table_kept d e r.0 nu.0)
      ∙ word_kept_in (table d) k r.0 tt nu.1 r.1

  pub ptr_kept :
      SameMap f.inode.in_core f'.inode.in_core
      → (s : Slot) → InRange s
      → NotUnder f m s
      → ptr f' s ≡ ptr f s
  ptr_kept sm (direct i) r nu = ap (λ (g : ℕ → ℕ). g i) sm.i_block_nr
  ptr_kept sm single r nu = sm.i_indirect
  ptr_kept sm double r nu = sm.i_dindirect
  ptr_kept sm (entry k) r nu =
      ap (λ n. word_in f'.super.dev n k) sm.i_indirect ∙ word_kept_in single k tt tt nu r
  ptr_kept sm (table d) r nu = table_kept d sm.i_dindirect r nu
  ptr_kept sm (leaf d k) r nu = leaf_kept d k sm.i_dindirect r nu

-- The logical block `log` has the new block `n`; the other logical blocks have the blocks and, where
-- these lie inside the file, the bytes that they had.
pub record Allocated (f : FileState) (im bm : Bitmap) (log n : ℕ) (f' : FileState) : Type 0 where
  pub map : Bitmap
  pub mapped : IsMapped f' im map
  pub was_free : is_set bm (n - data_start) ≡ false
  pub here : ptr f' (slot_of log) ≡ n
  pub others :
      (other : ℕ)
      → other < max_file_blocks
      → other ≢ log
      → ptr f' (slot_of other) ≡ ptr f (slot_of other)
  pub bytes :
      (other p : ℕ)
      → other < max_file_blocks
      → ptr f (slot_of other) ≢ 0
      → InFile f.super.dev (ptr f (slot_of other))
      → p < block_size
      → block_byte f'.super.dev (ptr f (slot_of other)) p
        ≡ block_byte f.super.dev (ptr f (slot_of other)) p
  pub grow : f.super.dev.size ≤ f'.super.dev.size
  pub i_size : f'.inode.in_core.i_size ≡ f.inode.in_core.i_size

-- Every slot holds what it held, and the same blocks are in use.
pub record RolledBack (f : FileState) (im bm : Bitmap) (f' : FileState) : Type 0 where
  pub map : Bitmap
  pub mapped : IsMapped f' im map
  pub bits : (j : ℕ) → is_set map j ≡ is_set bm j
  pub ptrs : (s : Slot) → InRange s → ptr f' s ≡ ptr f s
  pub i_size : f'.inode.in_core.i_size ≡ f.inode.in_core.i_size

-- The outcomes of the allocation of logical block `log`.
abbrev pub AllocOutcome : FileState → Bitmap → Bitmap → ℕ → Option (Ret × FileState) → Type 0
AllocOutcome f im bm log none = ⊥
AllocOutcome f im bm log (some (ok n, f')) = Allocated f im bm log n f'
AllocOutcome f im bm log (some (err e, f')) = (e ≡ enospc) × RolledBack f im bm f'

-- Nothing changed.
pub RolledBack-refl : {f : FileState} {im bm : Bitmap} → IsMapped f im bm → RolledBack f im bm f
RolledBack-refl {f} {im} {bm} mp = record {
  map = bm;
  mapped = mp;
  bits = λ j. refl;
  ptrs = λ s r. refl;
  i_size = refl;
}
