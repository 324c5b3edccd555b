-- ===== src/Fs/BlockMap/Lookup.antt =====
-- testfs_read_block of fs/read_write.c against the slots of the block map.
use ece334operating_system.Prelude.{
  ℕ, ◌-◌, ◌/◌, ◌%◌, ◌≤◌, ◌<◌, ◌≡◌, ◌≢◌, refl, true, false, none, some, ltb, leb, ◌==◌,
  if◌then◌else◌, arith, ◌⊎◌, inl, inr, ◌∙◌, ap, sym, Bool-cases, ◌>>=◌, ne→==, ==→ne, ==→eq, eq→==,
  lt→ltb, le→ltb,
}
use ece334operating_system.Prelude.Cint.{is_pos, u32_mod}
use ece334operating_system.Fs.Device.{read_blocks}
use ece334operating_system.Fs.Device.Frame.{InFile}
use ece334operating_system.Fs.Bitmap.{Bitmap}
use ece334operating_system.Fs.Inode.{FileState}
use ece334operating_system.Fs.BlockMap.{
  word_at, get_word, block_lookup, testfs_read_block, max_file_blocks,
}
use ece334operating_system.Fs.BlockMap.Words.{block_of, read_block_lem}
use ece334operating_system.Fs.BlockMap.Slots.{
  single, double, entry, table, leaf, ptr, Used, IsMapped, slot_of,
}

-- The look-up of a logical block stays inside the arrays: the block lies below the double indirect ones,
-- or there is a double indirect block, or there is no indirect block.
abbrev pub CanLookUp : FileState → ℕ → Type 0
CanLookUp f log = (log < 2058) ⊎ ((ptr f double ≢ 0) ⊎ (ptr f single ≡ 0))

pub is_pos-Used : (bm : Bitmap) (n : ℕ) → Used bm n → is_pos n ≡ true
is_pos-Used bm n u = ground arith

pub is_pos_zero : (n : ℕ) → (n == 0) ≡ true → is_pos n ≡ false
is_pos_zero n h = ground arith

module _ {f : FileState} {im bm : Bitmap} (mp : IsMapped f im bm) where
  entry_lookup :
      (l : ℕ)
      → l < 2048
      → (if is_pos f.inode.in_core.i_indirect
          then (read_blocks f.super.dev f.inode.in_core.i_indirect 1 >>= λ block. get_word block l)
          else some 0)
        ≡ some (ptr f (entry l))
  entry_lookup l h = elim (Bool-cases (f.inode.in_core.i_indirect == 0)) [
    | inl zero ↦ rw (is_pos_zero _ zero, zero) refl
    | inr more ↦
        let ne : ptr f single ≢ 0 = ground arith in
        rw
          (
            is_pos-Used bm f.inode.in_core.i_indirect (mp.used single tt ne),
            read_block_lem f.super.dev f.inode.in_core.i_indirect (mp.in_file single tt tt ne),
            more,
          )
          (ground arith)
  ]

  leaf_lookup :
      (d k : ℕ)
      → d < 2048
      → k < 2048
      → ptr f double ≢ 0
      → (read_blocks f.super.dev f.inode.in_core.i_dindirect 1 >>= λ block2.
          get_word block2 d >>= λ p.
          if is_pos p then (read_blocks f.super.dev p 1 >>= λ block. get_word block k) else some p)
        ≡ some (ptr f (leaf d k))
  leaf_lookup d k hd hk ne =
      let n = f.inode.in_core.i_dindirect in
      let p = word_at (block_of f.super.dev n) d in
      let there : (n == 0) ≡ false = ne→== n 0 ne in
      let is_table : ptr f (table d) ≡ p = rw there refl in
      rw (read_block_lem f.super.dev n (mp.in_file double tt tt ne), there, lt→ltb d 2048 hd)
        (elim (Bool-cases (p == 0)) [
          | inl none_there ↦
              rw (is_pos_zero p none_there, none_there) (ap some (==→eq p 0 none_there))
          | inr some_there ↦
              let ne' : ptr f (table d) ≢ 0 = λ e. ==→ne p 0 some_there (sym is_table ∙ e) in
              let used : Used bm p = rw is_table at (mp.used (table d) hd ne') in
              let in_file : InFile f.super.dev p =
                rw is_table at (mp.in_file (table d) hd tt ne') in
              rw
                (
                  is_pos-Used bm p used,
                  read_block_lem f.super.dev p in_file,
                  lt→ltb k 2048 hk,
                  some_there,
                )
                refl
        ])

-- On a mapped inode the look-up of a logical block gives the number in its slot, provided that it stays
-- inside the arrays.
pub block_lookup-ptr :
    {f : FileState} {im bm : Bitmap} (log : ℕ)
    → IsMapped f im bm
    → log < max_file_blocks
    → CanLookUp f log
    → block_lookup f log ≡ some (ptr f (slot_of log))
unfolding block_lookup
block_lookup-ptr {f} {im} {bm} log mp h can = elim (Bool-cases (ltb log 10)) [
  | inl small ↦ rw small refl
  | inr large ↦ elim (Bool-cases (ltb log 2058)) [
    | inl middle ↦
        let below : leb 2048 (log - 10) ≡ false = ground arith in
        rw (large, below, middle) (entry_lookup mp (log - 10) (ground arith))
    | inr far ↦
        let past : leb 2048 (log - 10) ≡ true = ground arith in
        let shift : log - 10 - 2048 ≡ log - 2058 = omega arith in
        elim (Bool-cases (f.inode.in_core.i_dindirect == 0)) [
          | inl no_double ↦
              let no_single : (f.inode.in_core.i_indirect == 0) ≡ true = ground arith in
              rw (large, past, far, is_pos_zero _ no_double, is_pos_zero _ no_single, no_double)
                refl
          | inr double_there ↦
              let ne : ptr f double ≢ 0 = ==→ne _ 0 double_there in
              rw (large, past, far, is_pos-Used bm _ (mp.used double tt ne), shift)
                (leaf_lookup mp ((log - 2058) / 2048) ((log - 2058) % 2048) (ground arith)
                  (omega arith) ne)
        ]
  ]
]

-- A block past the indirect ones of an inode with an indirect and no double indirect block: the
-- look-up reads outside the indirect block.
pub testfs_read_block_out :
    {f : FileState} {im bm : Bitmap} (log : ℕ)
    → IsMapped f im bm
    → 2058 ≤ log
    → log < max_file_blocks
    → ptr f single ≢ 0
    → ptr f double ≡ 0
    → testfs_read_block f log ≡ none
unfolding testfs_read_block block_lookup
testfs_read_block_out {f} {im} {bm} log mp lo hi ne no_double =
    let n = f.inode.in_core.i_indirect in
    rw
      (
        wrap,
        le→ltb log 10 (omega arith),
        is_pos_zero f.inode.in_core.i_dindirect (eq→== _ 0 no_double),
        is_pos-Used bm n (mp.used single tt ne),
        read_block_lem f.super.dev n (mp.in_file single tt tt ne),
      )
      (ground arith)
  where
    wrap : log % u32_mod ≡ log
    wrap = omega arith
