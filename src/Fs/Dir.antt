-- ===== src/Fs/Dir.antt =====
-- fs/dir.c: directories as files of entries, the loops over them, and adding one. A string is the list
-- of its characters, none of them 0. An allocation succeeds, and a buffer that was not set holds zeros.
-- An outer `none` is a failed assertion or an exit of the program.
pub mod Scan
pub mod Names
use ece334operating_system.Prelude.{
  ℕ, zero, suc, ◌+◌, ◌-◌, ◌*◌, ◌/◌, ◌%◌, ◌^◌, Bool, true, false, not, ◌&&◌, ◌||◌, Option, none,
  some, List, [], ◌∷◌, ltb, leb, ◌==◌, if◌then◌else◌, ◌>>=◌,
}
use ece334operating_system.Prelude.Cint.{
  Ret, ok, err, einval, eexist, enoent, enotdir, enotempty, is_pos,
}
use ece334operating_system.Fs.Device.{Bytes, zero_block}
use ece334operating_system.Fs.Super.{le_byte, u32_at}
use ece334operating_system.Fs.Inode.{FileState}
use ece334operating_system.Fs.ReadData.{testfs_read_data}
use ece334operating_system.Fs.WriteData.{testfs_write_data}
use ece334operating_system.Fs.Itable.{
  FsState, testfs_get_inode, testfs_sync_inode, testfs_put_inode, testfs_create_inode,
  testfs_remove_inode, file_of, with_file,
}

abbrev pub i_dir : ℕ
i_dir = 2

abbrev pub i_file : ℕ
i_file = 1

abbrev pub String : Type 0
String = List ℕ

unfoldable pub strlen : String → ℕ
strlen [] = 0
strlen (c ∷ cs) = strlen cs + 1

-- `strcmp(b, s) == 0`
unfoldable pub str_eq : Bytes → String → Bool
str_eq b [] = b 0 == 0
str_eq b (c ∷ cs) = (b 0 == c) && str_eq (λ p. b (p + 1)) cs

-- What strcpy copies.
unfoldable pub str_bytes : String → Bytes
str_bytes [] p = 0
str_bytes (c ∷ cs) p = let rest = str_bytes cs (p - 1) in if p == 0 then c else rest

abbrev pub dot : String
dot = 46 ∷ []

abbrev pub dot_dot : String
dot_dot = 46 ∷ 46 ∷ []

abbrev pub dirent_size : ℕ
dirent_size = 8

-- struct dirent with its name; the two words are bit patterns of an s32
pub record Dirent : Type 0 where
  pub d_name_len : ℕ
  pub d_inode_nr : ℕ
  pub d_name : Bytes

-- `d->d_inode_nr >= 0`
abbrev pub is_live : Dirent → Bool
is_live d = ltb d.d_inode_nr (2 ^ 31)

-- The bytes of an entry with its name.
unfoldable pub dirent_bytes : Dirent → Bytes
dirent_bytes d p =
    if ltb p 4
    then le_byte d.d_name_len p
    else if ltb p 8
    then le_byte d.d_inode_nr (p - 4)
    else d.d_name (p - 8)

-- The rest of testfs_next_dirent after its two reads: an entry and the next offset, or NULL.
next_name : ℕ → Bytes → Ret × Bytes → Option (Dirent × ℕ)
next_name offset d (err e, b) = none
next_name offset d (ok n, b) =
    let len = u32_at d 0 in
    some
      (record { d_name_len = len; d_inode_nr = u32_at d 4; d_name = b }, offset + dirent_size + len)

next_head : FileState → ℕ → Ret × Bytes → Option (Option (Dirent × ℕ))
unfolding next_name
next_head dir offset (err e, d) = some none
next_head dir offset (ok n, d) =
    if is_pos (u32_at d 0)
    then (testfs_read_data dir zero_block (offset + dirent_size) (u32_at d 0) >>= λ r.
        some (next_name offset d r))
    else none

unfoldable pub testfs_next_dirent : FileState → ℕ → Option (Option (Dirent × ℕ))
unfolding next_head
testfs_next_dirent dir offset =
    if dir.inode.in_core.i_type == i_dir
    then if leb dir.inode.in_core.i_size offset
      then some none
      else (testfs_read_data dir zero_block offset dirent_size >>= next_head dir offset)
    else none

-- What a loop over the entries finds: the first entry that it looks for and its offset, or the end and
-- its offset.
pub data Scanned : Type 0 where
  found : Dirent → ℕ → Scanned
  ended : ℕ → Scanned

-- A loop over the entries from `offset` on, which stops at the first one with the property.
unfoldable pub scan : ℕ → FileState → (Dirent → Bool) → ℕ → Option Scanned
scan zero dir stop offset = none
scan (suc k) dir stop offset =
    let next : Option (Dirent × ℕ) → Option Scanned = λ r. elim r [
      | none ↦ some (ended offset)
      | some (d, offset') ↦ elim (stop d) [
        | true ↦ some (found d offset)
        | false ↦ scan k dir stop offset'
      ]
    ] in
    testfs_next_dirent dir offset >>= next

-- with fuel for every entry: an entry takes at least nine bytes
abbrev pub scan_all : FileState → (Dirent → Bool) → Option Scanned
scan_all dir stop = scan (dir.inode.in_core.i_size + 1) dir stop 0

find_result : Scanned → Option Dirent
find_result (found d p) = some d
find_result (ended p) = none

unfoldable pub testfs_find_dirent : FileState → ℕ → Option (Option Dirent)
unfolding find_result
testfs_find_dirent dir inode_nr =
    scan_all dir (λ d. d.d_inode_nr == inode_nr) >>= λ r. some (find_result r)

name_result : Scanned → Ret
name_result (found d p) = ok d.d_inode_nr
name_result (ended p) = err enoent

-- an entry in use with the name
abbrev pub has_name : String → Dirent → Bool
has_name name d = is_live d && str_eq d.d_name name

unfoldable pub testfs_dir_name_to_inode_nr : FileState → String → Option Ret
unfolding name_result
testfs_dir_name_to_inode_nr dir name = scan_all dir (has_name name) >>= λ r. some (name_result r)

unfoldable pub testfs_write_dirent : FileState → String → ℕ → ℕ → ℕ → Option (Ret × FileState)
testfs_write_dirent dir name len inode_nr offset =
    let d : Dirent = record { d_name_len = len; d_inode_nr = inode_nr; d_name = str_bytes name } in
    if ltb inode_nr (2 ^ 31)
    then testfs_write_data dir (dirent_bytes d) offset (dirent_size + len)
    else none

-- The end of testfs_add_dirent after its loop.
add_at : FileState → String → ℕ → Scanned → Option (Ret × FileState)
add_at dir name inode_nr (found d p) =
    if is_live d
    then some (err eexist, dir)
    else testfs_write_dirent dir name (strlen name + 1) inode_nr p
add_at dir name inode_nr (ended p) =
    if p == dir.inode.in_core.i_size
    then testfs_write_dirent dir name (strlen name + 1) inode_nr p
    else none

-- The loop stops at an entry with the name, and at a free entry of the same length.
unfoldable pub testfs_add_dirent : FileState → String → ℕ → Option (Ret × FileState)
unfolding add_at
testfs_add_dirent dir name inode_nr =
    let len = strlen name + 1 in
    scan_all dir (λ d. has_name name d || (not (is_live d) && (d.d_name_len == len)))
    >>= add_at dir name inode_nr
