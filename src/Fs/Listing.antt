-- ===== src/Fs/Listing.antt =====
-- The commands of fs/dir.c that print: pwd, ls, lsr and stat. What a command prints is a value. A
-- name ends inside its entry. A walk over the tree has fuel for the directories on a path, and stops
-- with `none` on a path that is longer.
pub mod Refs
pub mod Paths
use ece334operating_system.Prelude.{
  ℕ, zero, suc, ◌+◌, Bool, true, false, not, ◌&&◌, ◌||◌, Option, none, some, List, [], ◌∷◌, ◌++◌,
  ◌==◌, if◌then◌else◌, ◌>>=◌,
}
use ece334operating_system.Prelude.Cint.{Ret, ok, err, einval, enotdir}
use ece334operating_system.Fs.Device.{Bytes}
use ece334operating_system.Fs.Inode.{Dinode}
use ece334operating_system.Fs.Itable.{FsState, testfs_get_inode, testfs_put_inode, file_of}
use ece334operating_system.Fs.Dir.{
  String, Dirent, i_dir, dot, dot_dot, is_live, str_eq, testfs_next_dirent, testfs_find_dirent,
}
use ece334operating_system.Fs.Commands.{look_up, type_of}

-- What `%s` prints of a string that ends within `n` bytes.
unfoldable pub c_string : ℕ → Bytes → String
c_string zero b = []
c_string (suc n) b = let rest = c_string n (λ p. b (p + 1)) in if b 0 == 0 then [] else b 0 ∷ rest

abbrev pub name_of : Dirent → String
name_of d = c_string d.d_name_len d.d_name

abbrev pub slash : String
slash = 47 ∷ []

abbrev pub newline : String
newline = 10 ∷ []

-- The inode number that testfs_dir_name_to_inode_nr returned; an error fails the assertion of
-- testfs_pwd.
unfoldable pub number_of : Ret → Option ℕ
number_of (ok nr) = some nr
number_of (err e) = none

-- The `ret == 1 ? "" : "/"` of testfs_pwd.
unfoldable pub separator : Ret → String
separator (ok n) = if n == 1 then [] else slash
separator (err e) = slash

-- The result, what is printed, and the state.
unfoldable pub testfs_pwd : ℕ → FsState → ℕ → Option (Ret × String × FsState)
unfolding number_of separator look_up file_of
testfs_pwd zero s nr = none
testfs_pwd (suc k) s nr = do
  r ← look_up s nr dot_dot
  p_nr ← number_of r
  if p_nr == nr then some (ok 1, slash, s) else (do
    s1 ← testfs_get_inode s p_nr
    p_in ← file_of s1 p_nr
    entry ← testfs_find_dirent p_in nr
    d ← entry
    above ← testfs_pwd k s1 p_nr
    s2 ← testfs_put_inode above.2 p_nr
    some (ok 0, above.1 ++ separator above.0 ++ name_of d, s2))

unfoldable pub cmd_pwd : ℕ → FsState → ℕ → List String → Option (Ret × String × FsState)
cmd_pwd depth s cur [] = testfs_pwd depth s cur >>= λ r. some (ok 0, r.1 ++ newline, r.2)
cmd_pwd depth s cur (a ∷ args) = some (err einval, [], s)

-- The line of an entry.
abbrev pub ls_line : Dirent → Bool → String
ls_line d is_dir = name_of d ++ (if is_dir then slash else []) ++ newline

-- The condition of the call of testfs_ls on a subdirectory.
abbrev pub goes_down : Bool → Bool → Dirent → Bool
goes_down recursive is_dir d =
    recursive && is_dir && not (str_eq d.d_name dot || str_eq d.d_name dot_dot)

-- The body of the loop of testfs_ls for an entry; `visit` is testfs_ls on a subdirectory.
unfoldable pub ls_entry :
    (FsState → ℕ → Option (String × FsState)) → Bool → FsState → Dirent → Option (String × FsState)
unfolding type_of
ls_entry visit recursive s d =
    if is_live d
    then (do
      s1 ← testfs_get_inode s d.d_inode_nr
      type ← type_of s1 d.d_inode_nr
      let is_dir = type == i_dir
      below ← (if goes_down recursive is_dir d then visit s1 d.d_inode_nr else some ([], s1))
      s2 ← testfs_put_inode below.1 d.d_inode_nr
      some (ls_line d is_dir ++ below.0, s2))
    else some ([], s)

-- The loop of testfs_ls from `offset` on.
unfoldable pub ls_from :
    (FsState → ℕ → Option (String × FsState))
    → Bool
    → ℕ
    → FsState
    → ℕ
    → ℕ
    → Option (String × FsState)
unfolding file_of ls_entry
ls_from visit recursive zero s nr offset = some ([], s)
ls_from visit recursive (suc k) s nr offset =
    let next : Option (Dirent × ℕ) → Option (String × FsState) = λ r. elim r [
      | none ↦ some ([], s)
      | some (d, offset') ↦ ls_entry visit recursive s d >>= λ here.
          ls_from visit recursive k here.1 nr offset' >>= λ rest. some (here.0 ++ rest.0, rest.1)
    ] in
    file_of s nr >>= λ f. testfs_next_dirent f offset >>= next

-- As for scan_all, with fuel for every entry.
unfoldable pub testfs_ls : Bool → ℕ → FsState → ℕ → Option (String × FsState)
unfolding file_of ls_from
testfs_ls recursive zero s nr = none
testfs_ls recursive (suc k) s nr = do
  f ← file_of s nr
  ls_from (testfs_ls recursive k) recursive (f.inode.in_core.i_size + 1) s nr 0

-- cmd_ls_internal after the look-up. A file stays referenced.
ls_found : Bool → ℕ → FsState → Ret → Option (Ret × String × FsState)
unfolding testfs_ls type_of
ls_found recursive depth s (err e) = some (err e, [], s)
ls_found recursive depth s (ok nr) = do
  s1 ← testfs_get_inode s nr
  type ← type_of s1 nr
  if type == i_dir
      then (do
        r ← testfs_ls recursive depth s1 nr
        s2 ← testfs_put_inode r.1 nr
        some (ok 0, r.0, s2))
      else some (err enotdir, [], s1)

unfoldable pub cmd_ls_internal :
    Bool → ℕ → FsState → ℕ → List String → Option (Ret × String × FsState)
unfolding ls_found look_up
cmd_ls_internal recursive depth s cur (cdir ∷ []) =
    look_up s cur cdir >>= ls_found recursive depth s
cmd_ls_internal recursive depth s cur _ = some (err einval, [], s)

abbrev pub cmd_ls : ℕ → FsState → ℕ → List String → Option (Ret × String × FsState)
cmd_ls = cmd_ls_internal false

abbrev pub cmd_lsr : ℕ → FsState → ℕ → List String → Option (Ret × String × FsState)
cmd_lsr = cmd_ls_internal true

-- What cmd_stat prints: the name, i_nr, i_type, i_size and block_count.
pub record Stat : Type 0 where
  pub name : String
  pub i_nr : ℕ
  pub i_type : ℕ
  pub i_size : ℕ
  pub block_count : ℕ

unfoldable pub stat_found : FsState → String → Ret → Option (Ret × Option Stat × FsState)
unfolding file_of
stat_found s name (err e) = some (err e, none, s)
stat_found s name (ok nr) = do
  s1 ← testfs_get_inode s nr
  f ← file_of s1 nr
  let d : Dinode = f.inode.in_core
  s2 ← testfs_put_inode s1 nr
  some (
    ok 0,
    some (record {
      name = name;
      i_nr = nr;
      i_type = d.i_type;
      i_size = d.i_size;
      block_count = d.block_count;
    }),
    s2,
  )

unfoldable pub cmd_stat : FsState → ℕ → List String → Option (Ret × Option Stat × FsState)
unfolding stat_found look_up
cmd_stat s cur (name ∷ []) = look_up s cur name >>= stat_found s name
cmd_stat s cur _ = some (err einval, none, s)
