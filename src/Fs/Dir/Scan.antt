-- ===== src/Fs/Dir/Scan.antt =====
-- The loops over the entries of a directory in fs/dir.c end: every entry takes at least nine bytes.
use ece334operating_system.Prelude.{
  ℕ, zero, suc, ◌+◌, ◌≤◌, ◌<◌, ◌≡◌, refl, Bool, Option, none, some, leb, ◌==◌, arith, inl, inr, ◌∙◌,
  ap, ◌>>=◌, Bool-cases,
}
use ece334operating_system.Prelude.Cint.{Ret, ok, err, is_pos}
use ece334operating_system.Fs.Device.{Bytes, zero_block}
use ece334operating_system.Fs.Super.{u32_at}
use ece334operating_system.Fs.Inode.{FileState}
use ece334operating_system.Fs.ReadData.{testfs_read_data}
use ece334operating_system.Fs.Dir.{
  Dirent, i_dir, dirent_size, next_name, next_head, testfs_next_dirent, scan, scan_all,
}

-- An entry was there, and the next one lies behind it.
abbrev Advances : ℕ → ℕ → Option (Option (Dirent × ℕ)) → Type 0
Advances size offset none = Unit
Advances size offset (some none) = Unit
Advances size offset (some (some (d, offset'))) = (offset < size) × (offset < offset')

next_name-Advances :
    (size offset : ℕ) (d : Bytes) (r : Option (Ret × Bytes))
    → offset < size
    → Advances size offset (r >>= λ r. some (next_name offset d r))
unfolding next_name
next_name-Advances size offset d none lt = tt
next_name-Advances size offset d (some (err e, b)) lt = tt
next_name-Advances size offset d (some (ok n, b)) lt = (lt, omega arith)

next_head-Advances :
    (size : ℕ) (dir : FileState) (offset : ℕ) (r : Option (Ret × Bytes))
    → offset < size
    → Advances size offset (r >>= next_head dir offset)
unfolding next_head
next_head-Advances size dir offset none lt = tt
next_head-Advances size dir offset (some (err e, d)) lt = tt
next_head-Advances size dir offset (some (ok n, d)) lt = elim (Bool-cases (is_pos (u32_at d 0))) [
  | inl pos ↦ rw pos (
      next_name-Advances size offset d
        (testfs_read_data dir zero_block (offset + dirent_size) (u32_at d 0)) lt)
  | inr neg ↦ rw neg tt
]

next_dirent-Advances :
    (dir : FileState) (offset : ℕ)
    → Advances dir.inode.in_core.i_size offset (testfs_next_dirent dir offset)
unfolding testfs_next_dirent
next_dirent-Advances dir offset = elim (Bool-cases (dir.inode.in_core.i_type == i_dir)) [
  | inl is_dir ↦ elim (Bool-cases (leb dir.inode.in_core.i_size offset)) [
    | inl at_end ↦ rw (is_dir, at_end) tt
    | inr more ↦
        rw (is_dir, more)
          (next_head-Advances dir.inode.in_core.i_size dir offset
            (testfs_read_data dir zero_block offset dirent_size) (ground arith))
  ]
  | inr other ↦ rw other tt
]

-- One round, when the next rounds agree.
round_same :
    (dir : FileState) (stop : Dirent → Bool) (offset k j : ℕ) (r : Option (Option (Dirent × ℕ)))
    → testfs_next_dirent dir offset ≡ r
    → ((d : Dirent) (offset' : ℕ)
        → r ≡ some (some (d, offset'))
        → scan j dir stop offset' ≡ scan k dir stop offset')
    → scan (suc j) dir stop offset ≡ scan (suc k) dir stop offset
unfolding scan
round_same dir stop offset k j none e h = rw e refl
round_same dir stop offset k j (some none) e h = rw e refl
round_same dir stop offset k j (some (some (d, offset'))) e h = elim (Bool-cases (stop d)) [
  | inl here ↦ rw (e, here) refl
  | inr on ↦ rw (e, on) (h d offset' refl)
]

module _ (dir : FileState) (stop : Dirent → Bool) where
  abbrev advance :
      (offset : ℕ) (d : Dirent) (offset' : ℕ)
      → testfs_next_dirent dir offset ≡ some (some (d, offset'))
      → (offset < dir.inode.in_core.i_size) × (offset < offset')
  advance offset d offset' e = rw e at (next_dirent-Advances dir offset)

  scan_more :
      (k m offset : ℕ)
      → k ≤ m
      → dir.inode.in_core.i_size ≤ k + offset
      → scan (suc m) dir stop offset ≡ scan (suc k) dir stop offset
  scan_more zero m offset le h =
      round_same dir stop offset zero m (testfs_next_dirent dir offset) refl
        (λ d o e. absurd (omega (arith, (advance offset d o e).0)))
  scan_more (suc k) zero offset le h = absurd (omega arith)
  scan_more (suc k) (suc m) offset le h =
      round_same dir stop offset (suc k) (suc m) (testfs_next_dirent dir offset) refl
        (λ d o e. scan_more k m o (omega arith) (omega (arith, (advance offset d o e).1)))

pub scan_all_lem :
    (dir : FileState) (stop : Dirent → Bool) (more : ℕ)
    → scan (dir.inode.in_core.i_size + 1 + more) dir stop 0 ≡ scan_all dir stop
scan_all_lem dir stop more =
    let size = dir.inode.in_core.i_size in
    ap (λ k. scan k dir stop 0) (omega arith)
    ∙ scan_more dir stop size (size + more) 0 (omega arith) (omega arith)
    ∙ ap (λ k. scan k dir stop 0) (omega arith)
