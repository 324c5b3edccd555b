-- ===== src/Fs/Listing/Refs.antt =====
-- The references to inodes that the commands of fs/dir.c that print take and give back.
use mathlib.Core.Path.{subst}
use ece334operating_system.Prelude.{
  ℕ, zero, suc, ◌+◌, ◌≤◌, ◌≡◌, refl, Bool, true, false, Option, none, some, List, [], ◌∷◌, ◌++◌,
  ◌==◌, if◌then◌else◌, arith, ◌⊎◌, inl, inr, ◌∙◌, ap, sym, ◌>>=◌, Bool-cases, Option-cases,
}
use ece334operating_system.Prelude.Cint.{Ret, ok, err, enotdir}
use ece334operating_system.Fs.Inode.{Dinode, Inode}
use ece334operating_system.Fs.Itable.{
  FsState, find_in, replace_in, inode_hashfn, inode_hash_find, inode_hash_insert, set_inode,
  read_dinode, testfs_get_inode, testfs_put_inode, file_of,
}
use ece334operating_system.Fs.Itable.Refs.{back_absent, back_present}
use ece334operating_system.Fs.Dir.{String, Dirent, is_live, i_dir, testfs_next_dirent}
use ece334operating_system.Fs.Commands.{look_up, type_of}
use ece334operating_system.Fs.Listing.{
  goes_down, ls_line, ls_entry, ls_from, testfs_ls, ls_found, cmd_ls_internal,
}

pub bind-some {ℓ κ} :
    {A : Type ℓ} {B : Type κ} (o : Option A) (f : A → Option B) (b : B)
    → (o >>= f) ≡ some b
    → (a : A) × (o ≡ some a) × (f a ≡ some b)
bind-some none f b e = ground arith
bind-some (some a) f b e = (a, refl, e)

pub same_some {ℓ} : {A : Type ℓ} (o : Option A) (a b : A) → o ≡ some a → o ≡ some b → a ≡ b
same_some o a b e d = ground arith

some_state : (p r : String × FsState) → some p ≡ some r → p.1 ≡ r.1
some_state p r e = ap (λ (q : String × FsState). q.1) (same_some (some p) p r refl e)

-- Clean and referenced, as every inode in memory is between two commands.
abbrev pub IsClean : Inode → Type 0
IsClean i = (i.dirty ≡ false) × (1 ≤ i.i_count)

unfoldable pub AllClean : List Inode → Type 0
AllClean [] = Unit
AllClean (i ∷ is) = IsClean i × AllClean is

abbrev pub IsAllClean : FsState → Type 0
IsAllClean s = (h : ℕ) → AllClean (s.table h)

find_in-IsClean :
    (nr : ℕ) (l : List Inode) (i : Inode) → AllClean l → find_in nr l ≡ some i → IsClean i
unfolding find_in AllClean
find_in-IsClean nr [] i c e = ground arith
find_in-IsClean nr (j ∷ l) i c e = elim (Bool-cases (j.i_nr == nr)) [
  | inl here ↦
      let same : j ≡ i = same_some (find_in nr (j ∷ l)) j i (rw here refl) e in rw same at c.0
  | inr other ↦ find_in-IsClean nr l i c.1 (sym (rw other refl) ∙ e)
]

replace_in-AllClean :
    (nr : ℕ) (i : Inode) (l : List Inode) → IsClean i → AllClean l → AllClean (replace_in nr i l)
unfolding replace_in AllClean
replace_in-AllClean nr i [] ci c = tt
replace_in-AllClean nr i (j ∷ l) ci c = elim (Bool-cases (j.i_nr == nr)) [
  | inl here ↦ rw here (ci, c.1)
  | inr other ↦ rw other (c.0, replace_in-AllClean nr i l ci c.1)
]

update-AllClean :
    (s : FsState) (nr : ℕ) (l : List Inode)
    → IsAllClean s
    → AllClean l
    → IsAllClean (record s { table = λ h. if inode_hashfn s nr == h then l else s.table h })
update-AllClean s nr l c cl h = elim (Bool-cases (inode_hashfn s nr == h)) [
  | inl here ↦ rw here cl
  | inr other ↦ rw other (c h)
]

-- Where every inode in memory is clean, it is so after testfs_get_inode, and testfs_put_inode takes
-- that back.
pub get_clean :
    (s : FsState) (nr : ℕ) (s1 : FsState)
    → IsAllClean s
    → testfs_get_inode s nr ≡ some s1
    → IsAllClean s1 × (testfs_put_inode s1 nr ≡ some s)
unfolding testfs_get_inode inode_hash_find inode_hash_insert set_inode AllClean
get_clean s nr s1 c e =
    let l = s.table (inode_hashfn s nr) in
    elim (Option-cases (find_in nr l)) [
      | inl absent ↦
          let insert : Dinode → FsState = λ d.
            inode_hash_insert s (record { in_core = d; dirty = false; i_nr = nr; i_count = 1 }) in
          let (d, read, into) =
            bind-some (read_dinode s.super nr) (λ d. some (insert d)) s1
              (rw (testfs_get_inode, absent) at e) in
          let same : insert d ≡ s1 = ground arith in
          let one : IsClean (record { in_core = d; dirty = false; i_nr = nr; i_count = 1 }) =
            (refl, omega arith) in
          let kept : IsAllClean (insert d) =
            update-AllClean s nr _ c (one, c (inode_hashfn s nr)) in
          (subst IsAllClean same kept, rw e at (back_absent s nr d read absent))
      | inr (i, found) ↦
          let (clean, pos) = find_in-IsClean nr l i (c (inode_hashfn s nr)) found in
          let j : Inode = record i { i_count = i.i_count + 1 } in
          let into : some (set_inode s nr j) ≡ some s1 = rw (testfs_get_inode, found) at e in
          let same : set_inode s nr j ≡ s1 = ground arith in
          let kept : IsAllClean (set_inode s nr j) =
            update-AllClean s nr _ c
              (replace_in-AllClean nr j l (clean, omega arith) (c (inode_hashfn s nr))) in
          (subst IsAllClean same kept, rw e at (back_present s nr i found clean pos))
    ]

pub put_old :
    (t s1 : FsState) (nr : ℕ) (s2 s : FsState)
    → t ≡ s1
    → testfs_put_inode t nr ≡ some s2
    → testfs_put_inode s1 nr ≡ some s
    → s2 ≡ s
put_old t s1 nr s2 s same put back =
    let put1 : testfs_put_inode s1 nr ≡ some s2 =
      subst (λ (x : FsState). testfs_put_inode x nr ≡ some s2) same put in
    same_some (testfs_put_inode s1 nr) s2 s put1 back

-- A visit of a directory that leaves the inodes as they were.
abbrev KeepsInodes : (FsState → ℕ → Option (String × FsState)) → Type 0
KeepsInodes visit =
    (s : FsState) (nr : ℕ) (r : String × FsState) → IsAllClean s → visit s nr ≡ some r → r.1 ≡ s

module _ (visit : FsState → ℕ → Option (String × FsState)) (keeps : KeepsInodes visit) where
  go_down :
      (down : Bool) (s : FsState) (nr : ℕ) (r : String × FsState)
      → IsAllClean s
      → (if down then visit s nr else some ([], s)) ≡ some r
      → r.1 ≡ s
  go_down true s nr r c e = keeps s nr r c e
  go_down false s nr r c e = sym (some_state ([], s) r e)

  -- what is done in a directory after its inode was got, up to the release
  release :
      (down : Bool) (line : String) (s s1 : FsState) (nr : ℕ) (r : String × FsState)
      → IsAllClean s1
      → testfs_put_inode s1 nr ≡ some s
      → ((if down then visit s1 nr else some ([], s1)) >>= λ below.
          testfs_put_inode below.1 nr >>= λ s2. some (line ++ below.0, s2))
        ≡ some r
      → r.1 ≡ s
  release down line s s1 nr r c back e =
      let last : String × FsState → FsState → Option (String × FsState) =
        λ below s2. some (line ++ below.0, s2) in
      let (below, went, e1) =
        bind-some (if down then visit s1 nr else some ([], s1))
          (λ below. testfs_put_inode below.1 nr >>= last below) r e in
      let (s2, put, e2) = bind-some (testfs_put_inode below.1 nr) (last below) r e1 in
      let same : below.1 ≡ s1 = go_down down s1 nr below c went in
      sym (some_state (line ++ below.0, s2) r e2) ∙ put_old below.1 s1 nr s2 s same put back

  ls_entry-keeps :
      (recursive : Bool) (s : FsState) (d : Dirent) (r : String × FsState)
      → IsAllClean s
      → ls_entry visit recursive s d ≡ some r
      → r.1 ≡ s
  unfolding ls_entry
  ls_entry-keeps recursive s d r c e = elim (Bool-cases (is_live d)) [
    | inl live ↦
        let nr = d.d_inode_nr in
        let (s1, get, e1) = bind-some (testfs_get_inode s nr) _ r (rw (ls_entry, live) at e) in
        let (type, typed, e2) = bind-some (type_of s1 nr) _ r e1 in
        let (c1, back) = get_clean s nr s1 c get in
        let is_dir = type == i_dir in
        release (goes_down recursive is_dir d) (ls_line d is_dir) s s1 nr r c1 back e2
    | inr dead ↦ sym (some_state ([], s) r (rw (ls_entry, dead) at e))
  ]

  ls_from-keeps :
      (recursive : Bool) (k : ℕ) (s : FsState) (nr offset : ℕ) (r : String × FsState)
      → IsAllClean s
      → ls_from visit recursive k s nr offset ≡ some r
      → r.1 ≡ s
  unfolding ls_from
  ls_from-keeps recursive zero s nr offset r c e = sym (some_state ([], s) r e)
  ls_from-keeps recursive (suc k) s nr offset r c e =
      let (f, found, e1) = bind-some (file_of s nr) _ r e in
      let (next, read, e2) = bind-some (testfs_next_dirent f offset) _ r e1 in
      elim (Option-cases next) [
        | inl last ↦ sym (some_state ([], s) r (rw last at e2))
        | inr ((d, offset'), entry) ↦
            let rest : String × FsState → Option (String × FsState) =
              λ here. ls_from visit recursive k here.1 nr offset' in
            let (here, listed, e3) =
              bind-some (ls_entry visit recursive s d)
                (λ here. rest here >>= λ more. some (here.0 ++ more.0, more.1)) r
                (rw entry at e2) in
            let (more, went, e4) =
              bind-some (rest here) (λ more. some (here.0 ++ more.0, more.1)) r e3 in
            let same : here.1 ≡ s = ls_entry-keeps recursive s d here c listed in
            let c1 : IsAllClean here.1 = subst IsAllClean (sym same) c in
            let last : more.1 ≡ r.1 = some_state (here.0 ++ more.0, more.1) r e4 in
            let later : more.1 ≡ here.1 =
              ls_from-keeps recursive k here.1 nr offset' more c1 went in
            cc
      ]

testfs_ls-keeps : (recursive : Bool) (k : ℕ) → KeepsInodes (testfs_ls recursive k)
unfolding testfs_ls
testfs_ls-keeps recursive zero s nr r c e = ground arith
testfs_ls-keeps recursive (suc k) s nr r c e =
    let (f, found, e1) = bind-some (file_of s nr) _ r e in
    ls_from-keeps (testfs_ls recursive k) (testfs_ls-keeps recursive k) recursive _ s nr 0 r c e1

pub some_last : {p r : Ret × String × FsState} → some p ≡ some r → p.2 ≡ r.2
some_last {p} {r} e = ap (λ (q : Ret × String × FsState). q.2) (same_some (some p) p r refl e)

ls_found-Refs :
    (recursive : Bool) (depth : ℕ) (s : FsState) (r ret : Ret) (out : String) (s' : FsState)
    → IsAllClean s
    → ls_found recursive depth s r ≡ some (ret, out, s')
    → (s' ≡ s) ⊎ ((nr : ℕ) × (ret ≡ err enotdir) × (testfs_get_inode s nr ≡ some s'))
unfolding ls_found
ls_found-Refs recursive depth s (err x) ret out s' c e = inl (sym (some_last e))
ls_found-Refs recursive depth s (ok nr) ret out s' c e =
    let (s1, get, e1) = bind-some (testfs_get_inode s nr) _ (ret, out, s') e in
    let (type, typed, e2) = bind-some (type_of s1 nr) _ (ret, out, s') e1 in
    let (c1, back) = get_clean s nr s1 c get in
    elim (Bool-cases (type == i_dir)) [
      | inl dir ↦
          let end : String × FsState → FsState → Option (Ret × String × FsState) =
            λ r s2. some (ok 0, r.0, s2) in
          let (r, listed, e3) =
            bind-some (testfs_ls recursive depth s1 nr) (λ r. testfs_put_inode r.1 nr >>= end r)
              (ret, out, s') (rw dir at e2) in
          let (s2, put, e4) = bind-some (testfs_put_inode r.1 nr) (end r) (ret, out, s') e3 in
          let same : r.1 ≡ s1 = testfs_ls-keeps recursive depth s1 nr r c1 listed in
          inl (sym (some_last e4) ∙ put_old r.1 s1 nr s2 s same put back)
      | inr file ↦
          let left : some (err enotdir, [], s1) ≡ some (ret, out, s') = rw file at e2 in
          let is : (err enotdir, [], s1) ≡ (ret, out, s') =
            same_some (some (err enotdir, [], s1)) _ _ refl left in
          inr (
            nr,
            sym (ap (λ (q : Ret × String × FsState). q.0) is),
            subst (λ (x : FsState). testfs_get_inode s nr ≡ some x) (some_last left) get,
          )
    ]

pub cmd_ls_internal-Refs :
    (recursive : Bool) (depth : ℕ) (s : FsState) (cur : ℕ) (args : List String) (ret : Ret)
    (out : String) (s' : FsState)
    → IsAllClean s
    → cmd_ls_internal recursive depth s cur args ≡ some (ret, out, s')
    → (s' ≡ s) ⊎ ((nr : ℕ) × (ret ≡ err enotdir) × (testfs_get_inode s nr ≡ some s'))
unfolding cmd_ls_internal ls_found
cmd_ls_internal-Refs recursive depth s cur [] ret out s' c e = inl (sym (some_last e))
cmd_ls_internal-Refs recursive depth s cur (a ∷ b ∷ l) ret out s' c e = inl (sym (some_last e))
cmd_ls_internal-Refs recursive depth s cur (cdir ∷ []) ret out s' c e =
    let (r, looked, e1) =
      bind-some (look_up s cur cdir) (ls_found recursive depth s) (ret, out, s') e in
    ls_found-Refs recursive depth s r ret out s' c e1
