-- ===== src/Fs/WriteData.antt =====
-- testfs_write_data of fs/read_write.c. The bytes to write are an array; the sizes are such that
-- `start + size` does not overflow.
use ece334operating_system.Prelude.{
  ℕ, zero, suc, ◌+◌, ◌-◌, ◌/◌, ◌%◌, ◌^◌, Bool, true, false, Option, none, some, ltb, ◌==◌,
  if◌then◌else◌, ◌>>=◌,
}
use ece334operating_system.Prelude.Cint.{Ret, ok, err, efbig, u32_mod, as_int}
use ece334operating_system.Fs.Device.{Bytes, block_size}
use ece334operating_system.Fs.Inode.{Dinode, FileState, set_in_core, set_dirty}
use ece334operating_system.Fs.BlockMap.{testfs_allocate_block, put_block}
use ece334operating_system.Fs.ReadData.{Progress, memcpy, max_file_size}

-- One block of testfs_write_data: the block is allocated if need be, its buffer takes `n` bytes from the
-- place `src` of `buf` to its place `ix`, and it is written.
unfoldable pub write_piece : FileState → ℕ → ℕ → Bytes → ℕ → ℕ → Option (Ret × FileState)
unfolding memcpy
write_piece f log ix buf src n = testfs_allocate_block f log >>= λ (r, block, f'). elim r [
  | err e ↦ some (err e, f')
  | ok phy ↦ some (ok phy, put_block f' (memcpy block ix (λ p. buf (src + p)) n) phy)
]

-- The loop over full blocks. A failed allocation returns from it.
unfoldable pub write_full :
    ℕ → FileState → ℕ → Progress → Bytes → Option (Ret × Progress × FileState)
write_full zero f block_nr p buf = none
write_full (suc k) f block_nr p buf =
    let next : Ret × FileState → Option (Ret × Progress × FileState) = λ r. elim r.0 [
      | err e ↦ some (err e, p, r.1)
      | ok phy ↦
          write_full k r.1 block_nr
            (record { i = p.i + 1; remain = p.remain - block_size; moved = p.moved + block_size })
            buf
    ] in
    let round = write_piece f (block_nr + (p.i + 1)) 0 buf p.moved block_size >>= next in
    elim (ltb block_size p.remain) [ true ↦ round | false ↦ some (ok 0, p, f) ]

-- From the label `out` on: the size of the inode grows, and -EFBIG tells of a write that was cut.
unfoldable pub write_out : ℕ → ℕ → Bool → FileState → Ret × FileState
write_out start size check f =
    let d : Dinode = f.inode.in_core in
    let grown = if ltb d.i_size (start + size) then start + size else d.i_size in
    let i_size = if ltb 0 size then grown else d.i_size in
    let f' = set_dirty (set_in_core f (record d { i_size = i_size })) in
    (if check then err efbig else as_int (size % u32_mod), f')

-- The last block. After the loop a failed allocation returns; with no full block in between it goes to
-- `out`.
write_last : ℕ → ℕ → ℕ → Bool → Bytes → Ret × Progress × FileState → Option (Ret × FileState)
unfolding write_out write_piece
write_last start size block_nr check buf (err e, p, f) = some (err e, f)
write_last start size block_nr check buf (ok n, p, f) =
    write_piece f (block_nr + (p.i + 1)) 0 buf p.moved p.remain >>= λ (r, f'). elim r [
      | ok phy ↦ some (write_out start size check f')
      | err e ↦ if p.i == 0 then some (write_out start size check f') else some (err e, f')
    ]

-- After the first block of a write that crosses a block boundary.
write_rest : ℕ → ℕ → Bool → Bytes → Ret × FileState → Option (Ret × FileState)
unfolding write_full write_last
write_rest start size check buf (err e, f) = some (err e, f)
write_rest start size check buf (ok phy, f) =
    let block_nr = start / block_size in
    let first = block_size - start % block_size in
    write_full (size + 1) f block_nr (record { i = 0; remain = size - first; moved = first }) buf
    >>= write_last start size block_nr check buf

-- A write inside one block.
write_one : ℕ → ℕ → Ret × FileState → Ret × FileState
unfolding write_out
write_one start size (err e, f) = (err e, f)
write_one start size (ok phy, f) = write_out start size false f

-- A write past the largest file is cut. The room left is computed as a size_t, which wraps.
unfoldable pub testfs_write_data : FileState → Bytes → ℕ → ℕ → Option (Ret × FileState)
unfolding write_rest write_one write_piece
testfs_write_data f buf start size =
    let block_nr = start / block_size in
    let block_ix = start % block_size in
    let room = (max_file_size + (2 ^ 64 - start)) % 2 ^ 64 in
    let cut = ltb room size in
    let size' = if cut then room else size in
    if ltb block_size (block_ix + size)
    then (write_piece f block_nr block_ix buf 0 (block_size - block_ix)
        >>= write_rest start size' cut buf)
    else (write_piece f block_nr block_ix buf 0 size >>= λ r. some (write_one start size r))
