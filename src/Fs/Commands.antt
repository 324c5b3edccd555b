-- ===== src/Fs/Commands.antt =====
-- The commands of fs/dir.c and fs/file.c on files. A command gets its arguments after its name, and the
-- number of the current directory; what it prints is left out but for the bytes of cmd_read.
use ece334operating_system.Prelude.{
  ℕ, ◌+◌, Option, some, List, [], ◌∷◌, ltb, ◌==◌, if◌then◌else◌, ◌>>=◌,
}
use ece334operating_system.Prelude.Cint.{Ret, ok, err, einval, enotdir, eisdir}
use ece334operating_system.Fs.Device.{Bytes, zero_block}
use ece334operating_system.Fs.ReadData.{testfs_read_data}
use ece334operating_system.Fs.WriteData.{testfs_write_data}
use ece334operating_system.Fs.Itable.{
  FsState, testfs_get_inode, testfs_sync_inode, testfs_put_inode, testfs_remove_inode, file_of,
}
use ece334operating_system.Fs.Dir.{
  String, i_dir, i_file, strlen, str_bytes, testfs_dir_name_to_inode_nr,
}
use ece334operating_system.Fs.DirEdit.{on_file, testfs_remove_dirent, testfs_create_file_or_dir}

-- the inode number of a name in a directory in memory
unfoldable pub look_up : FsState → ℕ → String → Option Ret
unfolding file_of
look_up s dir name = file_of s dir >>= λ f. testfs_dir_name_to_inode_nr f name

-- The type of an inode in memory.
unfoldable pub type_of : FsState → ℕ → Option ℕ
unfolding file_of
type_of s nr = file_of s nr >>= λ f. some f.inode.in_core.i_type

-- cmd_cd after the look-up; the last component is the current directory.
enter : FsState → ℕ → Ret → Option (Ret × FsState × ℕ)
enter s cur (err e) = some (err e, s, cur)
enter s cur (ok nr) = do
  s1 ← testfs_get_inode s nr
  type ← type_of s1 nr
  if type == i_dir
      then (testfs_put_inode s1 cur >>= λ s2. some (ok 0, s2, nr))
      else (testfs_put_inode s1 nr >>= λ s2. some (err enotdir, s2, cur))

unfoldable pub cmd_cd : FsState → ℕ → List String → Option (Ret × FsState × ℕ)
unfolding enter look_up
cmd_cd s cur (name ∷ []) = look_up s cur name >>= enter s cur
cmd_cd s cur _ = some (err einval, s, cur)

unfoldable pub cmd_create : FsState → ℕ → List String → Option (Ret × FsState)
cmd_create s cur (name ∷ []) = testfs_create_file_or_dir s (some cur) i_file name
cmd_create s cur _ = some (err einval, s)

unfoldable pub cmd_mkdir : FsState → ℕ → List String → Option (Ret × FsState)
cmd_mkdir s cur (name ∷ []) = testfs_create_file_or_dir s (some cur) i_dir name
cmd_mkdir s cur _ = some (err einval, s)

-- cmd_rm after the entry was removed.
remove_inode_of : ℕ → Ret × FsState → Option (Ret × FsState)
remove_inode_of cur (err e, s) = some (err e, s)
remove_inode_of cur (ok nr, s) = do
  s1 ← testfs_get_inode s nr
  s2 ← testfs_remove_inode s1 nr
  s3 ← testfs_sync_inode s2 cur
  some (ok 0, s3)

unfoldable pub cmd_rm : FsState → ℕ → List String → Option (Ret × FsState)
unfolding remove_inode_of
cmd_rm s cur (name ∷ []) = testfs_remove_dirent s cur name >>= remove_inode_of cur
cmd_rm s cur _ = some (err einval, s)

-- The result is `*inptr`.
file_inode : FsState → Ret → Option (Ret × FsState)
file_inode s (err e) = some (err e, s)
file_inode s (ok nr) = do
  s1 ← testfs_get_inode s nr
  type ← type_of s1 nr
  if type == i_dir
      then (testfs_put_inode s1 nr >>= λ s2. some (err eisdir, s2))
      else some (ok nr, s1)

unfoldable pub testfs_get_file_inode : FsState → ℕ → String → Option (Ret × FsState)
unfolding file_inode look_up
testfs_get_file_inode s dir name = look_up s dir name >>= file_inode s

-- cmd_read and cmd_write after the inode was got. The offset and the size are the results of
-- str_to_offset and str_to_size, and `offset + size` does not overflow.
read_file : ℕ → ℕ → Ret × FsState → Option (Ret × Bytes × FsState)
read_file offset size (err e, s) = some (err e, zero_block, s)
read_file offset size (ok nr, s) = do
  f ← file_of s nr
  r ←
      (if ltb f.inode.in_core.i_size (offset + size)
        then some (err einval, zero_block)
        else testfs_read_data f zero_block offset size)
  s1 ← testfs_put_inode s nr
  some (r.0, r.1, s1)

unfoldable pub cmd_read : FsState → ℕ → String → ℕ → ℕ → Option (Ret × Bytes × FsState)
unfolding read_file
cmd_read s cur filename offset size = testfs_get_file_inode s cur filename >>= read_file offset size

write_file : ℕ → String → Ret × FsState → Option (Ret × FsState)
write_file offset buf (err e, s) = some (err e, s)
write_file offset buf (ok nr, s) = do
  f ← file_of s nr
  r ← testfs_write_data f (str_bytes buf) offset (strlen buf)
  let s1 = (on_file s nr r).1
  s2 ← testfs_sync_inode s1 nr
  s3 ← testfs_put_inode s2 nr
  some (r.0, s3)

unfoldable pub cmd_write : FsState → ℕ → String → ℕ → String → Option (Ret × FsState)
unfolding write_file
cmd_write s cur filename offset buf = testfs_get_file_inode s cur filename >>= write_file offset buf
