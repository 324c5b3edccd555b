-- ===== src/Fs/BlockMap/Entry.antt =====
-- The store of a new number in the indirect block, in testfs_allocate_block of fs/read_write.c.
use ece334operating_system.Prelude.{
  ℕ, ◌+◌, ◌-◌, ◌<◌, ◌≡◌, ◌≢◌, refl, true, false, ◌==◌, if◌then◌else◌, arith, ◌∙◌, ap, sym, ne→==,
  eq→==, ltb,
}
use ece334operating_system.Fs.Device.{Device, Bytes, write_blocks}
use ece334operating_system.Fs.Bitmap.{Bitmap}
use ece334operating_system.Fs.Super.Sync.{Bounded}
use ece334operating_system.Fs.Super.Inv.{write_data-IsMounted}
use ece334operating_system.Fs.Inode.{FileState}
use ece334operating_system.Fs.Inode.Blocks.{SameMap, Added}
use ece334operating_system.Fs.BlockMap.{word_at, set_word, put_block}
use ece334operating_system.Fs.BlockMap.Words.{
  word_at-set_word, block_of, word_written, set_word-Bounded,
}
use ece334operating_system.Fs.BlockMap.Frame.{Keeps, table_kept, leaf_kept, Allocated}
use ece334operating_system.Fs.BlockMap.Direct.{one_outcome}
use ece334operating_system.Fs.BlockMap.Slots.{
  Slot, direct, single, double, entry, table, leaf, InRange, ptr, word_in, Used, IsMapped, slot_of,
  slot_of-InRange,
}

-- The entry of an index block that is there.
pub word_in_there : (dev : Device) (n k : ℕ) → n ≢ 0 → word_in dev n k ≡ word_at (block_of dev n) k
word_in_there dev n k ne = rw (ne→== n 0 ne) refl

-- `g'` is the state after the allocation of block `n`, with the indirect block of `f` in `buf`.
module _ {f : FileState} {im bm : Bitmap} (mp : IsMapped f im bm) {g : FileState} (g' : FileState)
    (l n : ℕ) (buf : Bytes) (a : Added g im bm n g') (hl : l < 2048) (hb : Bounded buf)
    (sm : SameMap f.inode.in_core g'.inode.in_core) (ne : ptr f single ≢ 0)
    (keep : Keeps
      (g'.inode.in_core.i_indirect)
      f.super.dev
      (write_blocks g'.super.dev (set_word buf l n) g'.inode.in_core.i_indirect 1))
    (words : (k : ℕ) → k < 2048 → word_at buf k ≡ ptr f (entry k)) where
  abbrev at_single : ℕ
  at_single = g'.inode.in_core.i_indirect

  abbrev stored : FileState
  stored = put_block g' (set_word buf l n) at_single

  single-Used : Used bm at_single
  single-Used = rw (sm.i_indirect) (mp.used single tt ne)

  stored_entry : (k : ℕ) → k < 2048 → ptr stored (entry k) ≡ (if l == k then n else ptr f (entry k))
  stored_entry k hk =
      word_in_there stored.super.dev at_single k (omega (arith, single-Used.0))
      ∙ word_written g'.super.dev (set_word buf l n) at_single k hk
      ∙ word_at-set_word buf l n k (omega (arith, a.high))
      ∙ rw (words k hk) refl

  -- Another slot than the indirect block does not hold its number.
  other_block : (s : Slot) → InRange s → s ≢ single → ptr f s ≢ at_single
  other_block s r d e = d (sym (mp.apart single s tt r ne (sym (e ∙ sm.i_indirect))))

  stored_others : (s : Slot) → InRange s → s ≢ entry l → ptr stored s ≡ ptr f s
  stored_others (direct i) r d = ap (λ (h : ℕ → ℕ). h i) sm.i_block_nr
  stored_others single r d = sm.i_indirect
  stored_others double r d = sm.i_dindirect
  stored_others (entry k) r d =
      let ne' : l ≢ k = λ e. d (ap entry (sym e)) in stored_entry k r ∙ rw (ne→== l k ne') refl
  stored_others (table d) r _ =
      table_kept f stored at_single mp keep d sm.i_dindirect r
        (other_block double tt (ground arith))
  stored_others (leaf d k) r _ =
      leaf_kept f stored at_single mp keep d k sm.i_dindirect r
        (other_block double tt (ground arith), other_block (table d) r.0 (ground arith))

  slot_entry : slot_of (10 + l) ≡ entry l
  slot_entry =
      let off : 10 + l - 10 ≡ l = omega arith in
      let large : ltb (10 + l) 10 ≡ false = ground arith in
      let middle : ltb (10 + l) 2058 ≡ true = ground arith in rw (large, middle, off) refl

  data_slot : (log : ℕ) → slot_of log ≢ single
  data_slot log e = ground arith

  pub store_entry : Allocated f im bm (10 + l) n stored
  store_entry =
      one_outcome mp (10 + l) n g' stored a (omega arith)
        (write_data-IsMounted (set_word buf l n) at_single single-Used.0
          (set_word-Bounded buf l n hb) a.still_mounted)
        (λ s r d. stored_others s r (λ e. d (e ∙ sym slot_entry)))
        (ap (ptr stored) slot_entry ∙ stored_entry l hl ∙ rw (eq→== l l refl) refl)
        (λ ix. rw slot_entry at ix)
        (λ o p lt nz hf hp.
          keep.same (ptr f (slot_of o)) p
            (omega (arith, (mp.used (slot_of o) (slot_of-InRange o lt) nz).0))
            (other_block (slot_of o) (slot_of-InRange o lt) (data_slot o)) hf hp)
        keep.size sm.i_size
