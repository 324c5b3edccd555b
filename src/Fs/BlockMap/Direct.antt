-- ===== src/Fs/BlockMap/Direct.antt =====
-- One new number in the block map: the allocation of a direct block in testfs_allocate_block of
-- fs/read_write.c, and what the allocation of an entry shares with it.
use ece334operating_system.Prelude.{
  ℕ, ◌-◌, ◌≤◌, ◌<◌, ◌≡◌, ◌≢◌, refl, Option, none, some, arith, ◌⊎◌, inl, inr, ◌∙◌, ap, sym, ne→==,
  eq→==, lt→ltb, ◌>>=◌, update_self, update_ne,
}
use ece334operating_system.Prelude.Cint.{Ret, ok, err}
use ece334operating_system.Fs.Device.{block_size}
use ece334operating_system.Fs.Device.Frame.{block_byte, InFile}
use ece334operating_system.Fs.Bitmap.{Bitmap}
use ece334operating_system.Fs.Super.Inv.{IsMounted, data_start}
use ece334operating_system.Fs.Inode.{FileState, testfs_alloc_block_for_inode}
use ece334operating_system.Fs.Inode.Blocks.{Added, AllocForInode, alloc_for_inode_lem}
use ece334operating_system.Fs.BlockMap.{
  max_file_blocks, allocate_direct, direct_allocated, set_direct,
}
use ece334operating_system.Fs.BlockMap.Extend.{Extends, Extends-IsMapped}
use ece334operating_system.Fs.BlockMap.Frame.{
  SameBlocks-Keeps, NotUnder, ptr_kept, Allocated, AllocOutcome, RolledBack-refl,
}
use ece334operating_system.Fs.BlockMap.Slots.{
  Slot, direct, single, double, entry, table, leaf, Slot-discrete, InRange, IsIndex, ptr, Used,
  IsMapped, slot_of, slot_of-InRange, slot_of-injective,
}

-- the number `n` in the slot `here`
abbrev at_dec : {s here : Slot} → Dec (s ≡ here) → ℕ → ℕ
at_dec (yes e) n = n
at_dec (no ne) n = 0

pub at : Slot → ℕ → Slot → ℕ
at here n s = at_dec (Slot-discrete s here) n

at_dec_cases :
    {s here : Slot} (d : Dec (s ≡ here)) (n : ℕ)
    → ((s ≡ here) × (at_dec d n ≡ n)) ⊎ ((s ≢ here) × (at_dec d n ≡ 0))
at_dec_cases (yes e) n = inl (e, refl)
at_dec_cases (no ne) n = inr (ne, refl)

pub at_cases :
    (here : Slot) (n : ℕ) (s : Slot)
    → ((s ≡ here) × (at here n s ≡ n)) ⊎ ((s ≢ here) × (at here n s ≡ 0))
unfolding at
at_cases here n s = at_dec_cases (Slot-discrete s here) n

-- a number that no slot holds
abbrev pub Unused : Bitmap → ℕ → Type 0
Unused bm m = (m ≢ 0) × (Used bm m → ⊥)

module _ {f : FileState} {im bm : Bitmap} (mp : IsMapped f im bm) where
  pub ptr_ne : (s : Slot) (m : ℕ) → InRange s → Unused bm m → ptr f s ≢ m
  ptr_ne s m r un e = un.1 (rw e at (mp.used s r (λ z. un.0 (sym e ∙ z))))

  pub not_under : (s : Slot) (m : ℕ) → InRange s → Unused bm m → NotUnder f m s
  not_under (direct i) m r un = tt
  not_under single m r un = tt
  not_under double m r un = tt
  not_under (entry k) m r un = ptr_ne single m tt un
  not_under (table d) m r un = ptr_ne double m tt un
  not_under (leaf d k) m r un = (ptr_ne double m tt un, ptr_ne (table d) m r.0 un)

  -- A new block does not change the slots.
  pub ptr_kept_new :
      {n : ℕ} {f1 : FileState} → Added f im bm n f1 → (s : Slot) → InRange s → ptr f1 s ≡ ptr f s
  ptr_kept_new {n} {f1} a s r =
      ptr_kept f f1 1 mp (SameBlocks-Keeps 1 a.same) a.same_map s r
        (not_under s 1 r (omega arith, λ u. omega (arith, u.0)))

  -- One new number extends the map.
  pub one-Extends :
      {g : FileState} (here : Slot) (n : ℕ) (f1 f' : FileState) (a : Added g im bm n f1)
      → f.super.dev.size ≤ f'.super.dev.size
      → ((s : Slot) → InRange s → s ≢ here → ptr f' s ≡ ptr f s)
      → ptr f' here ≡ n
      → (IsIndex here → InFile f'.super.dev n)
      → Extends f bm (at here n) f' a.map
  one-Extends here n f1 f' a grow others is_n index = record {
    grow = grow;
    kept = λ j set. rw (a.bits j, set) (ground arith);
    ptrs = λ s r. elim (at_cases here n s) [
      | inl h ↦ ap (ptr f') h.0 ∙ is_n ∙ rw (h.1, ne→== n 0 (omega (arith, a.low))) refl
      | inr h ↦ others s r h.0 ∙ rw h.1 refl
    ];
    used = λ s r ne. elim (at_cases here n s) [
      | inl h ↦ rw h.1 (
        a.low,
        a.high,
        a.bits (n - data_start) ∙ rw (eq→== (n - data_start) (n - data_start) refl) refl,
      )
      | inr h ↦ absurd (ne h.1)
    ];
    was_free =
        λ s r ne. elim (at_cases here n s) [ inl h ↦ rw h.1 a.was_free | inr h ↦ absurd (ne h.1) ];
    in_file = λ s r ix ne. elim (at_cases here n s) [
      | inl h ↦ rw h.1 (index (rw h.0 at ix))
      | inr h ↦ absurd (ne h.1)
    ];
    apart = λ s t r q ne e. elim (at_cases here n s) [
      | inl h ↦ elim (at_cases here n t) [ inl g ↦ h.0 ∙ sym g.0 | inr g ↦ absurd (ne (e ∙ g.1)) ]
      | inr h ↦ absurd (ne h.1)
    ];
  }

  -- The data blocks keep their bytes in the allocation.
  pub bytes_kept_new :
      {n : ℕ} {f1 : FileState}
      → Added f im bm n f1
      → (other p : ℕ) → other < max_file_blocks
      → ptr f (slot_of other) ≢ 0
      → InFile f.super.dev (ptr f (slot_of other))
      → p < block_size
      → block_byte f1.super.dev (ptr f (slot_of other)) p
        ≡ block_byte f.super.dev (ptr f (slot_of other)) p
  bytes_kept_new a o p lt nz hf hp =
      a.same.same (ptr f (slot_of o)) p
        (omega (arith, (mp.used (slot_of o) (slot_of-InRange o lt) nz).0)) hf hp

  -- The outcome, once the slot of `log` has the new number.
  pub one_outcome :
      {g : FileState} (log n : ℕ) (f1 f' : FileState) (a : Added g im bm n f1)
      → log < max_file_blocks
      → IsMounted f'.super im a.map
      → ((s : Slot) → InRange s → s ≢ slot_of log → ptr f' s ≡ ptr f s)
      → ptr f' (slot_of log) ≡ n
      → (IsIndex (slot_of log) → ⊥)
      → ((other p : ℕ)
          → other < max_file_blocks
          → ptr f (slot_of other) ≢ 0
          → InFile f.super.dev (ptr f (slot_of other))
          → p < block_size
          → block_byte f'.super.dev (ptr f (slot_of other)) p
            ≡ block_byte f.super.dev (ptr f (slot_of other)) p)
      → f.super.dev.size ≤ f'.super.dev.size
      → f'.inode.in_core.i_size ≡ f.inode.in_core.i_size
      → Allocated f im bm log n f'
  one_outcome log n f1 f' a lt mt others is_n not_index bytes grow size = record {
    map = a.map;
    mapped =
        Extends-IsMapped (at (slot_of log) n) mp mt
          (one-Extends (slot_of log) n f1 f' a grow others is_n (λ ix. absurd (not_index ix)));
    was_free = a.was_free;
    here = is_n;
    others = λ o lt' ne.
        others (slot_of o) (slot_of-InRange o lt') (λ e. ne (slot_of-injective o log e));
    bytes = bytes;
    grow = grow;
    i_size = size;
  }

-- A number store in the direct entry `log` after the allocation.
module _ {f : FileState} {im bm : Bitmap} (mp : IsMapped f im bm) (log : ℕ) (lt : log < 10) where
  direct_others :
      {n : ℕ} {f1 : FileState}
      → Added f im bm n f1
      → (s : Slot) → InRange s
      → s ≢ direct log
      → ptr (set_direct f1 log n) s ≡ ptr f s
  direct_others {n} {f1} a (direct i) r ne =
      let ne' : log ≢ i = λ e. ne (ap direct (sym e)) in
      update_ne f1.inode.in_core.i_block_nr log i n ne' ∙ ptr_kept_new mp a (direct i) r
  direct_others a single r ne = ptr_kept_new mp a single r
  direct_others a double r ne = ptr_kept_new mp a double r
  direct_others a (entry k) r ne = ptr_kept_new mp a (entry k) r
  direct_others a (table d) r ne = ptr_kept_new mp a (table d) r
  direct_others a (leaf d k) r ne = ptr_kept_new mp a (leaf d k) r

  slot_direct : slot_of log ≡ direct log
  slot_direct = rw (lt→ltb log 10 lt) refl

  direct_outcome :
      (r : Option (Ret × FileState))
      → AllocForInode f im bm r
      → AllocOutcome f im bm log (r >>= λ r. some (direct_allocated log r))
  unfolding direct_allocated
  direct_outcome none h = h
  direct_outcome (some (err e, f1)) h = (h.0, rw h.1 (RolledBack-refl mp))
  direct_outcome (some (ok n, f1)) a =
      let f' : FileState = set_direct f1 log n in
      let is_n : ptr f' (direct log) ≡ n = update_self f1.inode.in_core.i_block_nr log n in
      one_outcome mp log n f1 f' a (omega arith) a.still_mounted
        (λ s r ne. direct_others a s r (λ e. ne (e ∙ sym slot_direct))) (rw slot_direct is_n)
        (λ ix. rw slot_direct at ix) (λ o p lt' nz hf hp. bytes_kept_new mp a o p lt' nz hf hp)
        a.same.size a.same_map.i_size

-- testfs_allocate_block on a free direct slot.
pub allocate_direct_lem :
    {f : FileState} {im bm : Bitmap} (log : ℕ)
    → IsMapped f im bm
    → log < 10
    → ptr f (slot_of log) ≡ 0
    → AllocOutcome f im bm log (allocate_direct f log)
unfolding allocate_direct
allocate_direct_lem {f} {im} {bm} log mp lt free =
    let z : f.inode.in_core.i_block_nr log ≡ 0 = rw (slot_direct mp log lt) at free in
    rw (eq→== _ 0 z) (
      direct_outcome mp log lt (testfs_alloc_block_for_inode f)
        (alloc_for_inode_lem f im bm mp.is_mounted))
