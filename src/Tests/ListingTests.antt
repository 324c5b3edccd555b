-- ===== src/Tests/ListingTests.antt =====
-- The commands of fs/dir.c that print, on a directory with the entry of its parent, which it is itself.
use ece334operating_system.Prelude.{
  ℕ, ◌%◌, ◌≡◌, refl, true, false, Option, none, some, ◌⊎◌, inl, inr, arith, Bool-cases, [], ◌∷◌,
  ◌==◌, if◌then◌else◌,
}
use ece334operating_system.Prelude.Cint.{Ret, ok, err, enotdir}
use ece334operating_system.Fs.Device.{write_blocks, read_blocks}
use ece334operating_system.Fs.Inode.{Inode}
use ece334operating_system.Fs.Itable.{
  FsState, zero_dinode, testfs_get_inode, testfs_put_inode, inode_hash_find, find_in, replace_in,
  set_inode, file_of,
}
use ece334operating_system.Fs.Dir.{
  String, i_dir, dot_dot, str_bytes, dirent_bytes, str_eq, scan, testfs_next_dirent,
  testfs_dir_name_to_inode_nr,
}
use ece334operating_system.Fs.BlockMap.{testfs_read_block, block_lookup}
use ece334operating_system.Fs.Commands.{look_up, type_of}
use ece334operating_system.Fs.ReadData.{testfs_read_data, memcpy, read_full}
use ece334operating_system.Fs.Listing.{
  c_string, ls_entry, ls_from, testfs_ls, cmd_ls_internal, Stat, cmd_pwd, testfs_pwd, number_of,
  cmd_stat, stat_found,
}
use ece334operating_system.Fs.Listing.Paths.{cmd_pwd-stat}
use ece334operating_system.Fs.Listing.Refs.{AllClean, IsAllClean, cmd_ls_internal-Refs}
use ece334operating_system.Fs.Super.{SuperBlock}

abbrev root : Inode
root = record {
  in_core = record zero_dinode {
    i_type = i_dir;
    i_block_nr = λ i. 70;
    block_count = 1;
    i_size = 11;
  };
  dirty = false;
  i_nr = 0;
  i_count = 1;
}

-- block 70 is its only block
abbrev disk : SuperBlock
disk = record {
  sb = record {
    inode_freemap_start = 1;
    block_freemap_start = 2;
    inode_blocks_start = 4;
    data_blocks_start = 68;
    used_inode_count = 1;
    used_block_count = 1;
    max_fs_blocks = 100;
  };
  dev =
      write_blocks (record { size = 819200; byte = λ p. 0 })
        (dirent_bytes (record { d_name_len = 3; d_inode_nr = 0; d_name = str_bytes dot_dot })) 70 1;
  inode_freemap = none;
  block_freemap = none;
}

abbrev mounted : FsState
mounted = record {
  hash_int = λ v bits. v % 256;
  super = disk;
  table = λ h. if h == 0 then root ∷ [] else [];
}

-- the state in a result
state_in : Option (Ret × String × FsState) → FsState
state_in none = mounted
state_in (some r) = r.2

abbrev listed : FsState
unfolding state_in
listed = state_in (cmd_ls_internal true 2 mounted 0 (dot_dot ∷ []))

-- "../" and a newline
run : cmd_ls_internal true 2 mounted 0 (dot_dot ∷ []) ≡ some (ok 0, 46 ∷ 46 ∷ 47 ∷ 10 ∷ [], listed)
unfolding listed cmd_ls_internal inode_hash_find find_in testfs_dir_name_to_inode_nr scan
    testfs_next_dirent testfs_read_data testfs_read_block block_lookup read_blocks write_blocks
    dirent_bytes str_eq str_bytes testfs_get_inode replace_in testfs_put_inode c_string look_up
    type_of file_of set_inode ls_entry ls_from testfs_ls memcpy read_full state_in
run = refl

mounted-AllClean : IsAllClean mounted
unfolding AllClean
mounted-AllClean h = elim (Bool-cases (h == 0)) [
  | inl first ↦ rw first ((refl, omega arith), tt)
  | inr other ↦ rw other tt
]

cmd_ls_internal-Refs_example :
    (listed ≡ mounted)
    ⊎ ((nr : ℕ) × (ok 0 ≡ err enotdir) × (testfs_get_inode mounted nr ≡ some listed))
cmd_ls_internal-Refs_example =
    cmd_ls_internal-Refs true 2 mounted 0 (dot_dot ∷ []) (ok 0) (46 ∷ 46 ∷ 47 ∷ 10 ∷ []) listed
      mounted-AllClean run

-- the state after stat
after : Option (Ret × Option Stat × FsState) → FsState
after none = mounted
after (some r) = r.2

abbrev examined : FsState
unfolding after
examined = after (cmd_stat mounted 0 (dot_dot ∷ []))

-- "/" and a newline
pwd_run : cmd_pwd 1 mounted 0 [] ≡ some (ok 0, 47 ∷ 10 ∷ [], mounted)
unfolding cmd_pwd testfs_pwd number_of inode_hash_find find_in testfs_dir_name_to_inode_nr scan
    testfs_next_dirent testfs_read_data testfs_read_block block_lookup read_blocks write_blocks
    dirent_bytes str_eq str_bytes testfs_get_inode replace_in testfs_put_inode look_up file_of
    set_inode memcpy read_full
pwd_run = refl

stat_run :
    cmd_stat mounted 0 (dot_dot ∷ [])
    ≡ some (
      ok 0,
      some (record { name = dot_dot; i_nr = 0; i_type = 2; i_size = 11; block_count = 1 }),
      examined,
    )
unfolding after examined cmd_stat stat_found inode_hash_find find_in testfs_dir_name_to_inode_nr
    scan testfs_next_dirent testfs_read_data testfs_read_block block_lookup read_blocks write_blocks
    dirent_bytes str_eq str_bytes testfs_get_inode replace_in testfs_put_inode look_up file_of
    set_inode memcpy read_full
stat_run = refl

cmd_pwd-stat_example : (mounted ≡ mounted) × (examined ≡ mounted)
cmd_pwd-stat_example =
    cmd_pwd-stat 1 mounted 0 [] (dot_dot ∷ []) (ok 0, 47 ∷ 10 ∷ [], mounted)
      (
        ok 0,
        some (record { name = dot_dot; i_nr = 0; i_type = 2; i_size = 11; block_count = 1 }),
        examined,
      )
      mounted-AllClean pwd_run stat_run
