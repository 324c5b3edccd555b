-- ===== src/Fs/BlockMap/Slots.antt =====
-- The block map of an inode as a tree of slots, each with a block number, and its invariant: the slots
-- of the map hold 0 or distinct allocated blocks.
use ece334operating_system.Prelude.{
  ℕ, ◌+◌, ◌-◌, ◌/◌, ◌%◌, ◌≤◌, ◌<◌, ◌≡◌, ◌≢◌, true, ltb, ◌==◌, if◌then◌else◌, arith, inl, inr,
  Bool-cases,
}
use native.Mathlib.Decide.{ℕ_discrete}
use ece334operating_system.Fs.Device.{Device}
use ece334operating_system.Fs.Device.Frame.{InFile}
use ece334operating_system.Fs.Bitmap.{Bitmap}
use ece334operating_system.Fs.Bitmap.Bits.{is_set}
use ece334operating_system.Fs.Super.Inv.{IsMounted, data_start, block_bits}
use ece334operating_system.Fs.Inode.{FileState}
use ece334operating_system.Fs.BlockMap.{word_at}
use ece334operating_system.Fs.BlockMap.Words.{block_of}

-- a direct entry, the two index blocks of the inode, an entry of its indirect block, an indirect block
-- under the double indirect block, and an entry of one of those
pub data Slot : Type 0 where
  direct : ℕ → Slot
  single : Slot
  double : Slot
  entry : ℕ → Slot
  table : ℕ → Slot
  leaf : ℕ → ℕ → Slot

pub Slot-discrete : Discrete Slot
Slot-discrete = hlevel ℕ_discrete

abbrev pub InRange : Slot → Type 0
InRange (direct i) = i < 10
InRange single = Unit
InRange double = Unit
InRange (entry k) = k < 2048
InRange (table d) = d < 2048
InRange (leaf d k) = (d < 2048) × (k < 2048)

-- the word of an index block, and 0 where there is no index block
abbrev pub word_in : Device → ℕ → ℕ → ℕ
word_in dev n k = if n == 0 then 0 else word_at (block_of dev n) k

-- the block number that a slot holds
abbrev pub ptr : FileState → Slot → ℕ
ptr f (direct i) = f.inode.in_core.i_block_nr i
ptr f single = f.inode.in_core.i_indirect
ptr f double = f.inode.in_core.i_dindirect
ptr f (entry k) = word_in f.super.dev f.inode.in_core.i_indirect k
ptr f (table d) = word_in f.super.dev f.inode.in_core.i_dindirect d
ptr f (leaf d k) = word_in f.super.dev (word_in f.super.dev f.inode.in_core.i_dindirect d) k

-- slots whose block holds further slots
abbrev pub IsIndex : Slot → Type 0
IsIndex single = Unit
IsIndex double = Unit
IsIndex (table d) = Unit
IsIndex _ = ⊥

-- a data block that the freemap has in use
abbrev pub Used : Bitmap → ℕ → Type 0
Used bm n = (data_start ≤ n) × (n < data_start + block_bits) × (is_set bm (n - data_start) ≡ true)

pub record IsMapped (f : FileState) (im bm : Bitmap) : Type 0 where
  pub is_mounted : IsMounted f.super im bm
  pub used : (s : Slot) → InRange s → ptr f s ≢ 0 → Used bm (ptr f s)
  pub in_file : (s : Slot) → InRange s → IsIndex s → ptr f s ≢ 0 → InFile f.super.dev (ptr f s)
  pub apart : (s t : Slot) → InRange s → InRange t → ptr f s ≢ 0 → ptr f s ≡ ptr f t → s ≡ t

-- the slot of a logical block
abbrev pub slot_of : ℕ → Slot
slot_of log =
    if ltb log 10
    then direct log
    else if ltb log 2058
    then entry (log - 10)
    else leaf ((log - 2058) / 2048) ((log - 2058) % 2048)

pub slot_of-InRange : (log : ℕ) → log < 4196362 → InRange (slot_of log)
slot_of-InRange log h = elim (Bool-cases (ltb log 10)) [
  | inl small ↦ rw small (ground arith)
  | inr large ↦ elim (Bool-cases (ltb log 2058)) [
    | inl middle ↦ rw (large, middle) (ground arith)
    | inr far ↦ rw (large, far) (ground arith, ground arith)
  ]
]

-- Distinct logical blocks have distinct slots.
pub slot_of-injective : (a b : ℕ) → slot_of a ≡ slot_of b → a ≡ b
slot_of-injective a b e = ground arith
