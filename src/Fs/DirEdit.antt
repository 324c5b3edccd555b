-- ===== src/Fs/DirEdit.antt =====
-- fs/dir.c: removing entries, and creating files and directories. `dir` is the number of an inode in
-- memory.
use ece334operating_system.Prelude.{
  ℕ, ◌+◌, ◌-◌, ◌^◌, Bool, true, false, not, ◌&&◌, ◌||◌, Option, none, some, [], ◌==◌, if◌then◌else◌,
  ◌>>=◌,
}
use ece334operating_system.Prelude.Cint.{Ret, ok, err, einval, eexist, enoent, enotempty}
use ece334operating_system.Fs.Inode.{FileState}
use ece334operating_system.Fs.WriteData.{testfs_write_data}
use ece334operating_system.Fs.Itable.{
  FsState, testfs_get_inode, testfs_sync_inode, testfs_put_inode, testfs_create_inode,
  testfs_remove_inode, file_of, with_file,
}
use ece334operating_system.Fs.Dir.{
  String, Dirent, Scanned, found, ended, i_dir, dot, dot_dot, str_bytes, str_eq, dirent_size,
  dirent_bytes, is_live, has_name, scan_all, testfs_dir_name_to_inode_nr, testfs_add_dirent,
}

-- a result of a function on the file `nr`, in the state of the file system
abbrev pub on_file : FsState → ℕ → Ret × FileState → Ret × FsState
on_file s nr r = (r.0, with_file s nr r.1)

-- `ret >= 0`
is_ok : Ret → Bool
is_ok (ok n) = true
is_ok (err e) = false

allowed_result : Scanned → Ret
allowed_result (found d p) = err enotempty
allowed_result (ended p) = ok 0

-- an entry in use that is neither of the two of an empty directory
abbrev pub is_other : Dirent → Bool
is_other d = is_live d && not (str_eq d.d_name dot || str_eq d.d_name dot_dot)

unfoldable pub testfs_remove_dirent_allowed : FsState → ℕ → Option (Ret × FsState)
unfolding file_of allowed_result
testfs_remove_dirent_allowed s inode_nr = do
  s1 ← testfs_get_inode s inode_nr
  dir ← file_of s1 inode_nr
  ret ←
      (if dir.inode.in_core.i_type == i_dir
        then (scan_all dir is_other >>= λ r. some (allowed_result r))
        else some (ok 0))
  s2 ← testfs_put_inode s1 inode_nr
  some (ret, s2)

-- The entry is written back with no inode; the result is the number of the inode that it had.
removed_result : ℕ → Ret × FsState → Ret × FsState
removed_result inode_nr (ok n, s) = (ok inode_nr, s)
removed_result inode_nr (err e, s) = (err e, s)

remove_allowed : ℕ → Dirent → ℕ → Ret × FsState → Option (Ret × FsState)
unfolding file_of removed_result
remove_allowed dir d p (err e, s) = some (err e, s)
remove_allowed dir d p (ok n, s) = do
  f ← file_of s dir
  let freed : Dirent = record d { d_inode_nr = 2 ^ 32 - 1 }
  r ← testfs_write_data f (dirent_bytes freed) p (dirent_size + d.d_name_len)
  some (removed_result d.d_inode_nr (on_file s dir r))

remove_found : FsState → ℕ → Scanned → Option (Ret × FsState)
unfolding remove_allowed
remove_found s dir (ended p) = some (err enoent, s)
remove_found s dir (found d p) =
    testfs_remove_dirent_allowed s d.d_inode_nr >>= remove_allowed dir d p

-- `strcmp(name, ".") == 0 || strcmp(name, "..") == 0`
abbrev pub is_dots : String → Bool
is_dots name = str_eq (str_bytes name) dot || str_eq (str_bytes name) dot_dot

unfoldable pub testfs_remove_dirent : FsState → ℕ → String → Option (Ret × FsState)
unfolding file_of remove_found
testfs_remove_dirent s dir name =
    if is_dots name
    then some (err einval, s)
    else (do f ← file_of s dir; r ← scan_all f (has_name name); remove_found s dir r)

-- testfs_add_dirent on an inode in memory
unfoldable pub add_dirent_in : FsState → ℕ → String → ℕ → Option (Ret × FsState)
unfolding file_of
add_dirent_in s dir name inode_nr = do
  f ← file_of s dir
  r ← testfs_add_dirent f name inode_nr
  some (on_file s dir r)

-- The rest of testfs_create_empty_dir, after each of its entries.
parent_added : ℕ → Ret × FsState → Option (Ret × FsState)
unfolding testfs_remove_dirent
parent_added cdir (ok n, s) = some (ok 0, s)
parent_added cdir (err e, s) = testfs_remove_dirent s cdir dot >>= λ r. some (err e, r.1)

self_added : ℕ → ℕ → Ret × FsState → Option (Ret × FsState)
unfolding parent_added add_dirent_in
self_added p_inode_nr cdir (err e, s) = some (err e, s)
self_added p_inode_nr cdir (ok n, s) = add_dirent_in s cdir dot_dot p_inode_nr >>= parent_added cdir

-- The new directory's type is asserted in the first reading of its entries.
unfoldable pub testfs_create_empty_dir : FsState → ℕ → ℕ → Option (Ret × FsState)
unfolding self_added add_dirent_in
testfs_create_empty_dir s p_inode_nr cdir =
    add_dirent_in s cdir dot cdir >>= self_added p_inode_nr cdir

-- The end of testfs_create_file_or_dir: the label `out`, and the success.
unfoldable pub create_undone : FsState → ℕ → ℕ → Option (Ret × FsState)
create_undone s nr e = testfs_remove_inode s nr >>= λ s'. some (err e, s')

unfoldable pub create_done : FsState → ℕ → Option (Ret × FsState)
create_done s nr = do s1 ← testfs_sync_inode s nr; s2 ← testfs_put_inode s1 nr; some (ok 0, s2)

-- After the entry in the parent was added.
entry_added : ℕ → ℕ → Ret × FsState → Option (Ret × FsState)
unfolding create_undone create_done
entry_added dir nr (err e, s) = create_undone s nr e
entry_added dir nr (ok n, s) = testfs_sync_inode s dir >>= λ s'. create_done s' nr

-- After the new inode was made an empty directory, where it is to be one.
add_entry : Option ℕ → String → ℕ → Ret × FsState → Option (Ret × FsState)
unfolding entry_added create_undone create_done
add_entry dir name nr (err e, s) = create_undone s nr e
add_entry none name nr (ok n, s) = create_done s nr
add_entry (some dir) name nr (ok n, s) = add_dirent_in s dir name nr >>= entry_added dir nr

parent_of : Option ℕ → ℕ → ℕ
parent_of none nr = nr
parent_of (some dir) nr = dir

-- After testfs_create_inode.
fill_inode : Option ℕ → ℕ → String → Ret × FsState → Option (Ret × FsState)
unfolding add_entry parent_of
fill_inode dir type name (err e, s) = some (err e, s)
fill_inode dir type name (ok nr, s) =
    (if type == i_dir then testfs_create_empty_dir s (parent_of dir nr) nr else some (ok 0, s))
    >>= add_entry dir name nr

-- Whether the parent has the name already; the root directory has no parent.
unfoldable pub name_taken : FsState → Option ℕ → String → Option Bool
unfolding file_of is_ok
name_taken s none name = some false
name_taken s (some dir) name = do
  f ← file_of s dir
  r ← testfs_dir_name_to_inode_nr f name
  some (is_ok r)

unfoldable pub testfs_create_file_or_dir : FsState → Option ℕ → ℕ → String → Option (Ret × FsState)
unfolding name_taken fill_inode
testfs_create_file_or_dir s dir type name = name_taken s dir name >>= λ taken.
    if taken then some (err eexist, s) else testfs_create_inode s type >>= fill_inode dir type name

unfoldable pub testfs_make_root_dir : FsState → Option (Ret × FsState)
testfs_make_root_dir s = testfs_create_file_or_dir s none i_dir []
