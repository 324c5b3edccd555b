-- ===== src/Fs/Listing/Paths.antt =====
-- The references to inodes that pwd and stat of fs/dir.c take and give back.
use ece334operating_system.Prelude.{
  ℕ, zero, suc, ◌≡◌, refl, Option, none, some, List, [], ◌∷◌, ◌++◌, ◌==◌, arith, inl, inr, ◌∙◌, ap,
  sym, ◌>>=◌, Bool-cases,
}
use ece334operating_system.Prelude.Cint.{Ret, ok, err}
use ece334operating_system.Fs.Itable.{FsState, testfs_get_inode, testfs_put_inode, file_of}
use ece334operating_system.Fs.Dir.{String, Dirent, dot_dot, testfs_find_dirent}
use ece334operating_system.Fs.Commands.{look_up}
use ece334operating_system.Fs.Listing.{
  Stat, number_of, separator, name_of, newline, testfs_pwd, cmd_pwd, stat_found, cmd_stat,
}
use ece334operating_system.Fs.Listing.Refs.{
  IsAllClean, bind-some, same_some, some_last, put_old, get_clean,
}

-- what is done after the walk to the root
climb :
    (walk : Option (Ret × String × FsState)) (d : Dirent) (s s1 : FsState) (nr : ℕ)
    (r : Ret × String × FsState)
    → ((a : Ret × String × FsState) → walk ≡ some a → a.2 ≡ s1)
    → testfs_put_inode s1 nr ≡ some s
    → (walk >>= λ a.
        testfs_put_inode a.2 nr >>= λ s2. some (ok 0, a.1 ++ separator a.0 ++ name_of d, s2))
      ≡ some r
    → r.2 ≡ s
climb walk d s s1 nr r keeps back e =
    let print : Ret × String × FsState → FsState → Option (Ret × String × FsState) =
      λ a s2. some (ok 0, a.1 ++ separator a.0 ++ name_of d, s2) in
    let (a, up, e1) = bind-some walk (λ a. testfs_put_inode a.2 nr >>= print a) r e in
    let (s2, put, e2) = bind-some (testfs_put_inode a.2 nr) (print a) r e1 in
    sym (some_last e2) ∙ put_old a.2 s1 nr s2 s (keeps a up) put back

-- from the entry of the directory in its parent on
from_entry :
    (entry : Option Dirent) (walk : Option (Ret × String × FsState)) (s s1 : FsState) (nr : ℕ)
    (r : Ret × String × FsState)
    → ((a : Ret × String × FsState) → walk ≡ some a → a.2 ≡ s1)
    → testfs_put_inode s1 nr ≡ some s
    → (entry >>= λ d. walk >>= λ a.
        testfs_put_inode a.2 nr >>= λ s2. some (ok 0, a.1 ++ separator a.0 ++ name_of d, s2))
      ≡ some r
    → r.2 ≡ s
from_entry none walk s s1 nr r keeps back e = ground arith
from_entry (some d) walk s s1 nr r keeps back e = climb walk d s s1 nr r keeps back e

testfs_pwd-keeps :
    (k : ℕ) (s : FsState) (nr : ℕ) (r : Ret × String × FsState)
    → IsAllClean s
    → testfs_pwd k s nr ≡ some r
    → r.2 ≡ s
unfolding testfs_pwd
testfs_pwd-keeps zero s nr r c e = ground arith
testfs_pwd-keeps (suc k) s nr r c e =
    let (looked, l, e1) = bind-some (look_up s nr dot_dot) _ r e in
    let (p_nr, n, e2) = bind-some (number_of looked) _ r e1 in
    elim (Bool-cases (p_nr == nr)) [
      | inl root ↦ sym (some_last (rw root at e2))
      | inr below ↦
          let (s1, get, e3) = bind-some (testfs_get_inode s p_nr) _ r (rw below at e2) in
          let (p_in, found, e4) = bind-some (file_of s1 p_nr) _ r e3 in
          let (entry, read, e5) = bind-some (testfs_find_dirent p_in nr) _ r e4 in
          let (c1, back) = get_clean s p_nr s1 c get in
          from_entry entry (testfs_pwd k s1 p_nr) s s1 p_nr r (λ a. testfs_pwd-keeps k s1 p_nr a c1)
            back e5
    ]

cmd_pwd-keeps :
    (depth : ℕ) (s : FsState) (cur : ℕ) (args : List String) (r : Ret × String × FsState)
    → IsAllClean s
    → cmd_pwd depth s cur args ≡ some r
    → r.2 ≡ s
unfolding cmd_pwd
cmd_pwd-keeps depth s cur [] r c e =
    let (p, went, e1) =
      bind-some (testfs_pwd depth s cur) (λ r. some (ok 0, r.1 ++ newline, r.2)) r e in
    sym (some_last e1) ∙ testfs_pwd-keeps depth s cur p c went
cmd_pwd-keeps depth s cur (a ∷ args) r c e = sym (some_last e)

some_state : {p r : Ret × Option Stat × FsState} → some p ≡ some r → p.2 ≡ r.2
some_state {p} {r} e = ap (λ (q : Ret × Option Stat × FsState). q.2) (same_some (some p) p r refl e)

stat_found-keeps :
    (s : FsState) (name : String) (looked : Ret) (r : Ret × Option Stat × FsState)
    → IsAllClean s
    → stat_found s name looked ≡ some r
    → r.2 ≡ s
unfolding stat_found
stat_found-keeps s name (err x) r c e = sym (some_state e)
stat_found-keeps s name (ok nr) r c e =
    let (s1, get, e1) = bind-some (testfs_get_inode s nr) _ r e in
    let (f, found, e2) = bind-some (file_of s1 nr) _ r e1 in
    let (s2, put, e3) = bind-some (testfs_put_inode s1 nr) _ r e2 in
    let (c1, back) = get_clean s nr s1 c get in
    sym (some_state e3) ∙ put_old s1 s1 nr s2 s refl put back

cmd_stat-keeps :
    (s : FsState) (cur : ℕ) (args : List String) (r : Ret × Option Stat × FsState)
    → IsAllClean s
    → cmd_stat s cur args ≡ some r
    → r.2 ≡ s
unfolding cmd_stat
cmd_stat-keeps s cur [] r c e = sym (some_state e)
cmd_stat-keeps s cur (a ∷ b ∷ l) r c e = sym (some_state e)
cmd_stat-keeps s cur (name ∷ []) r c e =
    let (looked, l, e1) = bind-some (look_up s cur name) (stat_found s name) r e in
    stat_found-keeps s name looked r c e1

-- Where every inode in memory is clean, pwd and stat that come to an end, whatever their arguments,
-- leave the file system as it was, with the inodes in memory and their reference counts.
pub cmd_pwd-stat :
    (depth : ℕ) (s : FsState) (cur : ℕ) (args args' : List String) (r : Ret × String × FsState)
    (r' : Ret × Option Stat × FsState)
    → IsAllClean s
    → cmd_pwd depth s cur args ≡ some r
    → cmd_stat s cur args' ≡ some r'
    → (r.2 ≡ s) × (r'.2 ≡ s)
cmd_pwd-stat depth s cur args args' r r' c e e' =
    (cmd_pwd-keeps depth s cur args r c e, cmd_stat-keeps s cur args' r' c e')
