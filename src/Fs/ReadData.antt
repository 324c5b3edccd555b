-- ===== src/Fs/ReadData.antt =====
-- testfs_read_data of fs/read_write.c. The buffer is an array with what it held before; the sizes are
-- such that `start + size` does not overflow.
use ece334operating_system.Prelude.{
  ℕ, zero, suc, ◌+◌, ◌-◌, ◌/◌, ◌%◌, ◌^◌, Bool, true, false, not, ◌&&◌, Option, none, some, ltb, leb,
  ◌==◌, if◌then◌else◌, ◌>>=◌,
}
use ece334operating_system.Prelude.Cint.{Ret, ok, err, efbig, u32_mod, as_int}
use ece334operating_system.Fs.Device.{Bytes, block_size}
use ece334operating_system.Fs.Inode.{FileState}
use ece334operating_system.Fs.BlockMap.{testfs_read_block}

-- the most bytes that a file can have
abbrev pub max_file_size : ℕ
max_file_size = 34376597504

-- `memcpy(buf + off, src, n)`
unfoldable pub memcpy : Bytes → ℕ → Bytes → ℕ → Bytes
memcpy buf off src n p = if leb off p && ltb p (off + n) then src (p - off) else buf p

-- The variables of the loops over full blocks: blocks past the first, bytes to go, bytes moved.
pub record Progress : Type 0 where
  pub i : ℕ
  pub remain : ℕ
  pub moved : ℕ

-- The loop over full blocks of testfs_read_data. The flag tells its end from the return inside it, at
-- a negative block number, which `ret = testfs_read_block(…) < 0` turns into 1.
unfoldable pub read_full : ℕ → FileState → ℕ → Progress → Bytes → Option (Bool × Progress × Bytes)
read_full zero f block_nr p buf = none
read_full (suc k) f block_nr p buf =
    let next = λ (r : ℕ × Bytes).
      read_full k f block_nr
        (record { i = p.i + 1; remain = p.remain - block_size; moved = p.moved + block_size })
        (memcpy buf p.moved r.1 block_size) in
    let round = testfs_read_block f (block_nr + (p.i + 1)) >>= λ r. elim (ltb r.0 (2 ^ 31)) [
      | true ↦ next r
      | false ↦ some (false, p, buf)
    ] in
    elim (ltb block_size p.remain) [ true ↦ round | false ↦ some (true, p, buf) ]

-- The end of testfs_read_data after the loop: what is left of the last block, unless that is a
-- multiple of the block size.
read_tail : FileState → ℕ → ℕ → Bool × Progress × Bytes → Option (Ret × Bytes)
read_tail f block_nr size (false, p, buf) = some (ok 1, buf)
read_tail f block_nr size (true, p, buf) =
    let rest = p.remain % block_size in
    if not (rest == 0)
    then (testfs_read_block f (block_nr + (p.i + 1)) >>= λ r.
        if ltb r.0 (2 ^ 31)
        then some (as_int (size % u32_mod), memcpy buf p.moved r.1 rest)
        else some (ok 1, buf))
    else some (as_int (size % u32_mod), buf)

-- The part of testfs_read_data that crosses a block boundary, after the first block was read.
read_rest : FileState → Bytes → ℕ → ℕ → ℕ → ℕ × Bytes → Option (Ret × Bytes)
unfolding read_tail read_full memcpy
read_rest f buf block_nr block_ix size (phy, block) =
    let first = block_size - block_ix in
    if ltb phy (2 ^ 31)
    then read_full (size + 1) f block_nr (record { i = 0; remain = size - first; moved = first })
        (memcpy buf 0 (λ p. block (block_ix + p)) first)
      >>= read_tail f block_nr size
    else some (as_int phy, buf)

-- The part of testfs_read_data that stays in one block.
read_one : Bytes → ℕ → ℕ → ℕ × Bytes → Ret × Bytes
unfolding memcpy
read_one buf block_ix size (phy, block) =
    if ltb phy (2 ^ 31)
    then (as_int (size % u32_mod), memcpy buf 0 (λ p. block (block_ix + p)) size)
    else (as_int phy, buf)

-- `size` is a size_t, and the two subtractions wrap.
unfoldable pub testfs_read_data : FileState → Bytes → ℕ → ℕ → Option (Ret × Bytes)
unfolding read_rest read_one
testfs_read_data f buf start size =
    let block_nr = start / block_size in
    let block_ix = start % block_size in
    let i_size = f.inode.in_core.i_size in
    let size' = if ltb i_size (start + size) then (i_size + (2 ^ 64 - start)) % 2 ^ 64 else size in
    if ltb ((max_file_size + (2 ^ 64 - start)) % 2 ^ 64) size
    then some (err efbig, buf)
    else if ltb block_size (block_ix + size')
    then (if ltb max_file_size size'
        then some (err efbig, buf)
        else testfs_read_block f block_nr >>= read_rest f buf block_nr block_ix size')
    else (testfs_read_block f block_nr >>= λ r. some (read_one buf block_ix size' r))
