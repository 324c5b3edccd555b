-- ===== src/Fs/BlockMap/Indirect.antt =====
-- The indirect branch of testfs_allocate_block in fs/read_write.c.
use ece334operating_system.Prelude.{
  ℕ, ◌+◌, ◌-◌, ◌*◌, ◌^◌, ◌<◌, ◌≡◌, ◌≢◌, refl, true, false, Option, none, some, ◌==◌, arith, inl,
  inr, ◌∙◌, ap, sym, Bool-cases, ==→ne, ==→eq, ne→==, eq→==, lt→ltb, ◌>>=◌,
}
use ece334operating_system.Prelude.Cint.{Ret, ok, err, enospc}
use ece334operating_system.Fs.Device.{Bytes, block_size, zero_block}
use ece334operating_system.Fs.Device.Frame.{block_byte, write_blocks-InFile}
use ece334operating_system.Fs.Bitmap.{Bitmap}
use ece334operating_system.Fs.Bitmap.Bits.{is_set}
use ece334operating_system.Fs.Super.Inv.{data_start, write_data-IsMounted}
use ece334operating_system.Fs.Inode.{
  FileState, testfs_alloc_block_for_inode, testfs_free_block_from_inode,
}
use ece334operating_system.Fs.Inode.Blocks.{
  Added, AllocForInode, alloc_for_inode_lem, Removed, FreeFromInode, free_from_inode_lem,
}
use ece334operating_system.Fs.BlockMap.{
  max_file_blocks, word_at, set_word, put_block, set_indirect, allocate_indirect, get_indirect,
  fill_indirect, store_indirect, indirect_new,
}
use ece334operating_system.Fs.BlockMap.Words.{block_of, read_block_lem, word_written}
use ece334operating_system.Fs.BlockMap.Extend.{Extends-IsMapped}
use ece334operating_system.Fs.BlockMap.Frame.{
  Keeps, SameBlocks-Keeps, write-Keeps, Keeps-trans, both-Keeps, ptr_kept, table_kept, leaf_kept,
  Allocated, RolledBack, AllocOutcome, RolledBack-refl,
}
use ece334operating_system.Fs.BlockMap.Direct.{at, Unused, ptr_ne, not_under, one-Extends}
use ece334operating_system.Fs.BlockMap.Entry.{word_in_there, store_entry}
use ece334operating_system.Fs.BlockMap.Slots.{
  Slot, direct, single, double, entry, table, leaf, InRange, ptr, Used, IsMapped, slot_of,
  slot_of-InRange,
}

-- The inode has its indirect block already.
module _ {f : FileState} {im bm : Bitmap} (mp : IsMapped f im bm) (l : ℕ) (hl : l < 2048)
    (free : ptr f (entry l) ≡ 0) (ne : ptr f single ≢ 0) where
  abbrev old_block : Bytes
  old_block = block_of f.super.dev (ptr f single)

  old_outcome :
      (r : Option (Ret × FileState))
      → AllocForInode f im bm r
      → AllocOutcome f im bm (10 + l) (r >>= store_indirect l false old_block)
  unfolding store_indirect
  old_outcome none h = h
  old_outcome (some (err e, g)) h = (h.0, rw h.1 (RolledBack-refl mp))
  old_outcome (some (ok n, g)) a =
      store_entry mp g l n old_block a hl
        (λ p. mp.is_mounted.bounded (ptr f single * block_size + p)) a.same_map ne
        (Keeps-trans (SameBlocks-Keeps (g.inode.in_core.i_indirect) a.same)
          (write-Keeps g.super.dev (set_word old_block l n) g.inode.in_core.i_indirect))
        (λ k hk. sym (word_in_there f.super.dev (ptr f single) k ne))

  old_indirect : AllocOutcome f im bm (10 + l) (allocate_indirect f l)
  unfolding allocate_indirect get_indirect fill_indirect
  old_indirect =
      let used : Used bm (ptr f single) = mp.used single tt ne in
      let word : word_at old_block l ≡ 0 =
        sym (word_in_there f.super.dev (ptr f single) l ne) ∙ free in
      rw
        (
          ne→== (ptr f single) 0 ne,
          lt→ltb (ptr f single) (2 ^ 31) (omega (arith, used.1)),
          read_block_lem f.super.dev (ptr f single) (mp.in_file single tt tt ne),
          lt→ltb l 2048 hl,
          eq→== (word_at old_block l) 0 word,
        )
        (old_outcome (testfs_alloc_block_for_inode f) (alloc_for_inode_lem f im bm mp.is_mounted))

-- The inode gets its indirect block, `n`, in the same call; `g` is the state after its allocation.
module _ {f : FileState} {im bm : Bitmap} (mp : IsMapped f im bm) (l : ℕ) (hl : l < 2048)
    (zero : ptr f single ≡ 0) (n : ℕ) (g : FileState) (a : Added f im bm n g) where
  abbrev linked : FileState
  linked = set_indirect g n

  -- the same state with the zeros written that are still in the buffer
  abbrev zeroed : FileState
  zeroed = put_block linked zero_block n

  n-Unused : Unused bm n
  n-Unused = (omega (arith, a.low), λ u. let set = u.2 in let clear = a.was_free in cc)

  zeroed-Keeps : Keeps n f.super.dev zeroed.super.dev
  zeroed-Keeps = Keeps-trans (SameBlocks-Keeps n a.same) (write-Keeps g.super.dev zero_block n)

  no_entry : (k : ℕ) → ptr f (entry k) ≡ 0
  no_entry k = rw (eq→== (ptr f single) 0 zero) refl

  zero_word : (k : ℕ) → word_at zero_block k ≡ 0
  zero_word k = refl

  zeroed_entry : (k : ℕ) → k < 2048 → ptr zeroed (entry k) ≡ 0
  zeroed_entry k hk =
      word_in_there zeroed.super.dev n k n-Unused.0
      ∙ word_written g.super.dev zero_block n k hk
      ∙ zero_word k

  zeroed_others : (s : Slot) → InRange s → s ≢ single → ptr zeroed s ≡ ptr f s
  zeroed_others (direct i) r d = ap (λ (h : ℕ → ℕ). h i) a.same_map.i_block_nr
  zeroed_others single r d = absurd (d refl)
  zeroed_others double r d = a.same_map.i_dindirect
  zeroed_others (entry k) r d = zeroed_entry k r ∙ sym (no_entry k)
  zeroed_others (table d) r _ =
      table_kept f zeroed n mp zeroed-Keeps d a.same_map.i_dindirect r
        (not_under mp (table d) n r n-Unused)
  zeroed_others (leaf d k) r _ =
      leaf_kept f zeroed n mp zeroed-Keeps d k a.same_map.i_dindirect r
        (not_under mp (leaf d k) n r n-Unused)

  zeroed-IsMapped : IsMapped zeroed im a.map
  zeroed-IsMapped =
      Extends-IsMapped (at single n) mp
        (write_data-IsMounted zero_block n a.low (λ p. omega arith) a.still_mounted)
        (one-Extends mp single n g zeroed a zeroed-Keeps.size zeroed_others refl
          (λ ix. write_blocks-InFile g.super.dev zero_block n 1 n (omega arith) (omega arith)))

  zeroed_ptr : (log : ℕ) → log < max_file_blocks → ptr zeroed (slot_of log) ≡ ptr f (slot_of log)
  zeroed_ptr log lt = zeroed_others (slot_of log) (slot_of-InRange log lt) (λ e. ground arith)

  -- An allocation after the zeros is one from the start.
  from_start :
      (log n' : ℕ) (f' : FileState)
      → Allocated zeroed im a.map log n' f'
      → Allocated f im bm log n' f'
  from_start log n' f' h = record {
    map = h.map;
    mapped = h.mapped;
    was_free = was_free (n' - data_start) h.was_free;
    here = h.here;
    others = λ o lt d. h.others o lt d ∙ zeroed_ptr o lt;
    bytes = λ o p lt nz hf hp.
        let s = slot_of o in
        let r = slot_of-InRange o lt in
        let e = zeroed_ptr o lt in
        let step : block_byte f'.super.dev (ptr f s) p ≡ block_byte zeroed.super.dev (ptr f s) p =
          rw e at
            (h.bytes o p lt (λ z. nz (sym e ∙ z)) (rw e (omega (arith, zeroed-Keeps.size))) hp) in
        step
        ∙ zeroed-Keeps.same (ptr f s) p (omega (arith, (mp.used s r nz).0))
            (ptr_ne mp s n r n-Unused) hf hp;
    grow = omega (arith, h.grow, zeroed-Keeps.size);
    i_size = h.i_size ∙ a.same_map.i_size;
  }
    where
      was_free : (j : ℕ) → is_set a.map j ≡ false → is_set bm j ≡ false
      was_free j e = elim (Bool-cases (n - data_start == j)) [
        | inl new ↦ rw (==→eq (n - data_start) j new) at a.was_free
        | inr old ↦ sym (a.bits j ∙ rw old refl) ∙ e
      ]

  -- The indirect block is freed again.
  undone : (g' : FileState) → Removed linked im a.map n g' → RolledBack f im bm (set_indirect g' 0)
  undone g' d =
      let f' : FileState = set_indirect g' 0 in
      record {
        map = d.map;
        mapped =
            Extends-IsMapped (λ s. 0) mp d.still_mounted
              (record {
                grow = keep.size;
                kept = λ j set. bits j ∙ set;
                ptrs = ptrs;
                used = λ s r ne. absurd (ne refl);
                was_free = λ s r ne. absurd (ne refl);
                in_file = λ s r ix ne. absurd (ne refl);
                apart = λ s t r q ne e. absurd (ne refl);
              });
        bits = bits;
        ptrs = ptrs;
        i_size = d.same_map.i_size ∙ a.same_map.i_size;
      }
    where
      keep : Keeps n f.super.dev g'.super.dev
      keep =
          Keeps-trans (SameBlocks-Keeps n a.same)
            (record { size = d.size; same = λ k p lo ne hf hp. d.same k p lo ne hf hp })

      bits : (j : ℕ) → is_set d.map j ≡ is_set bm j
      bits j = elim (Bool-cases (n - data_start == j)) [
        | inl new ↦ d.bits j ∙ rw new (sym (rw (==→eq (n - data_start) j new) at a.was_free))
        | inr old ↦ d.bits j ∙ rw old (a.bits j ∙ rw old refl)
      ]

      ptrs : (s : Slot) → InRange s → ptr (set_indirect g' 0) s ≡ ptr f s
      ptrs s r =
          ptr_kept f (set_indirect g' 0) n mp keep
            (record {
              i_block_nr = d.same_map.i_block_nr ∙ a.same_map.i_block_nr;
              i_indirect = sym zero;
              i_dindirect = d.same_map.i_dindirect ∙ a.same_map.i_dindirect;
              i_size = d.same_map.i_size ∙ a.same_map.i_size;
            })
            s r (not_under mp s n r n-Unused)

  undone_outcome :
      (r : Option FileState)
      → FreeFromInode linked im a.map n r
      → AllocOutcome f im bm (10 + l) (r >>= λ f'. some (err enospc, set_indirect f' 0))
  undone_outcome none h = h
  undone_outcome (some g') d = (refl, undone g' d)

  new_outcome :
      (r : Option (Ret × FileState))
      → AllocForInode linked im a.map r
      → AllocOutcome f im bm (10 + l) (r >>= store_indirect l true zero_block)
  unfolding store_indirect
  new_outcome none h = h
  new_outcome (some (err e, g')) h =
      let set : is_set a.map (n - data_start) ≡ true =
        a.bits (n - data_start) ∙ rw (eq→== (n - data_start) (n - data_start) refl) refl in
      rw (h.0, h.1)
        (undone_outcome (testfs_free_block_from_inode linked n)
          (free_from_inode_lem linked im a.map n a.still_mounted a.low a.high set))
  new_outcome (some (ok n', g')) b =
      let at_n : g'.inode.in_core.i_indirect ≡ n = b.same_map.i_indirect in
      from_start (10 + l) n' (put_block g' (set_word zero_block l n') g'.inode.in_core.i_indirect) (
        store_entry zeroed-IsMapped g' l n' zero_block b hl (λ p. omega arith) b.same_map n-Unused.0
          (rw at_n (both-Keeps zero_block (set_word zero_block l n') n b.same))
          (λ k hk. zero_word k ∙ sym (zeroed_entry k hk)))

-- testfs_allocate_block on a free entry of the indirect block, without and with the indirect block.
module _ {f : FileState} {im bm : Bitmap} (mp : IsMapped f im bm) (l : ℕ) (hl : l < 2048) where
  first_outcome :
      ptr f single ≡ 0
      → (r : Option (Ret × FileState)) → AllocForInode f im bm r
      → AllocOutcome f im bm (10 + l) (r >>= (λ r. some (indirect_new r)) >>= fill_indirect l)
  unfolding indirect_new fill_indirect
  first_outcome zero none h = h
  first_outcome zero (some (err e, g)) h = (h.0, rw h.1 (RolledBack-refl mp))
  first_outcome zero (some (ok n, g)) a = rw (lt→ltb l 2048 hl) (
      new_outcome mp l hl zero n g a (testfs_alloc_block_for_inode (set_indirect g n))
        (alloc_for_inode_lem (set_indirect g n) im a.map a.still_mounted))

  pub allocate_indirect_lem :
      ptr f (entry l) ≡ 0 → AllocOutcome f im bm (10 + l) (allocate_indirect f l)
  unfolding allocate_indirect get_indirect
  allocate_indirect_lem free = elim (Bool-cases (f.inode.in_core.i_indirect == 0)) [
    | inl none_there ↦
        let zero : ptr f single ≡ 0 = ==→eq _ 0 none_there in
        rw none_there (
          first_outcome zero (testfs_alloc_block_for_inode f)
            (alloc_for_inode_lem f im bm mp.is_mounted))
    | inr there ↦ old_indirect mp l hl free (==→ne _ 0 there)
  ]
