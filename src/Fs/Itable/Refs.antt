-- ===== src/Fs/Itable/Refs.antt =====
-- The reference counts of fs/inode.c: testfs_put_inode undoes testfs_get_inode.
use mathlib.Core.Path.{fun_ext}
use ece334operating_system.Prelude.{
  ℕ, ◌+◌, ◌-◌, ◌≤◌, ◌<◌, ◌≡◌, refl, false, Option, none, some, List, [], ◌∷◌, ◌==◌, if◌then◌else◌,
  arith, inl, inr, ◌∙◌, ap, sym, ◌>>=◌, Bool-cases, Option-cases, eq→==, ==→eq,
}
use ece334operating_system.Fs.Bitmap.{Bitmap}
use ece334operating_system.Fs.Super.Inv.{IsMounted}
use ece334operating_system.Fs.Inode.{Dinode, Inode}
use ece334operating_system.Fs.Itable.Dinodes.{read_dinode_lem}
use ece334operating_system.Fs.Itable.{
  FsState, find_in, replace_in, remove_in, set_bucket, inode_hashfn, inode_hash_find,
  inode_hash_insert, inode_hash_remove, set_inode, read_dinode, testfs_get_inode, testfs_put_inode,
}

pub find_in_nr : (nr : ℕ) (l : List Inode) (i : Inode) → find_in nr l ≡ some i → i.i_nr ≡ nr
unfolding find_in
find_in_nr nr [] i e = ground arith
find_in_nr nr (j ∷ l) i e = elim (Bool-cases (j.i_nr == nr)) [
  | inl here ↦
      let found : find_in nr (j ∷ l) ≡ some j = rw here refl in
      let same : j ≡ i = ground arith in
      sym (ap (λ (k : Inode). k.i_nr) same) ∙ ==→eq j.i_nr nr here
  | inr other ↦ find_in_nr nr l i (sym (rw other refl) ∙ e)
]

pub find_in-replace :
    (nr : ℕ) (new : Inode) (l : List Inode) (i : Inode)
    → new.i_nr ≡ nr
    → find_in nr l ≡ some i
    → find_in nr (replace_in nr new l) ≡ some new
unfolding find_in replace_in
find_in-replace nr new [] i n e = ground arith
find_in-replace nr new (j ∷ l) i n e = elim (Bool-cases (j.i_nr == nr)) [
  | inl here ↦ rw (here, eq→== new.i_nr nr n) refl
  | inr other ↦ rw (other, other) (find_in-replace nr new l i n (sym (rw other refl) ∙ e))
]

find_in_head : (nr : ℕ) (i : Inode) (l : List Inode) → i.i_nr ≡ nr → find_in nr (i ∷ l) ≡ some i
unfolding find_in
find_in_head nr i l e = rw (eq→== i.i_nr nr e) refl

remove_in_head : (nr : ℕ) (i : Inode) (l : List Inode) → i.i_nr ≡ nr → remove_in nr (i ∷ l) ≡ l
unfolding remove_in
remove_in_head nr i l e = rw (eq→== i.i_nr nr e) refl

replace_in_back :
    (nr : ℕ) (new : Inode) (l : List Inode) (i : Inode)
    → new.i_nr ≡ nr
    → find_in nr l ≡ some i
    → replace_in nr i (replace_in nr new l) ≡ l
unfolding find_in replace_in
replace_in_back nr new [] i n e = refl
replace_in_back nr new (j ∷ l) i n e = elim (Bool-cases (j.i_nr == nr)) [
  | inl here ↦
      let found : find_in nr (j ∷ l) ≡ some j = rw here refl in
      let same : j ≡ i = ground arith in rw (here, eq→== new.i_nr nr n) (ap (λ k. k ∷ l) (sym same))
  | inr other ↦
      rw (other, other) (ap (λ k. j ∷ k) (replace_in_back nr new l i n (sym (rw other refl) ∙ e)))
]

-- A bucket that is given its old contents again.
bucket_back :
    (s : FsState) (nr : ℕ) (l m : List Inode)
    → m ≡ s.table (inode_hashfn s nr)
    → set_bucket (set_bucket s nr l) nr m ≡ s
bucket_back s nr l m e =
    ap (λ t. record s { table = t })
      (fun_ext λ h. elim (Bool-cases (inode_hashfn s nr == h)) [
        | inl here ↦ rw here (e ∙ ap s.table (==→eq (inode_hashfn s nr) h here))
        | inr other ↦ rw other refl
      ])

bucket_self :
    (s : FsState) (nr : ℕ) (l : List Inode) → (set_bucket s nr l).table (inode_hashfn s nr) ≡ l
bucket_self s nr l = rw (eq→== (inode_hashfn s nr) (inode_hashfn s nr) refl) refl

-- The inode is not in memory, or it is clean there and referenced.
abbrev pub IsAtRest : Option Inode → Type 0
IsAtRest none = Unit
IsAtRest (some i) = (i.dirty ≡ false) × (1 ≤ i.i_count)

module _ (s : FsState) (nr : ℕ) where
  -- `put` looks at the bucket of the inode alone.
  put_found :
      (i : Inode) (l : List Inode)
      → find_in nr l ≡ some i
      → i.dirty ≡ false
      → testfs_put_inode (set_bucket s nr l) nr
        ≡ some (
            if i.i_count == 1
            then set_bucket (set_bucket s nr l) nr (remove_in nr l)
            else set_bucket
                (set_bucket s nr l)
                nr
                (replace_in nr (record i { i_count = i.i_count - 1 }) l))
  unfolding testfs_put_inode inode_hash_find inode_hash_remove set_inode
  put_found i l e clean = elim (Bool-cases (i.i_count == 1)) [
    | inl last ↦ rw (eq→== (inode_hashfn s nr) (inode_hashfn s nr) refl, e, clean, last) refl
    | inr more ↦ rw (eq→== (inode_hashfn s nr) (inode_hashfn s nr) refl, e, clean, more) refl
  ]

  abbrev here : List Inode
  here = s.table (inode_hashfn s nr)

  -- what testfs_get_inode makes of an inode that it reads
  abbrev read_in : Dinode → Inode
  read_in d = record { in_core = d; dirty = false; i_nr = nr; i_count = 1 }

  pub back_absent :
      (d : Dinode)
      → read_dinode s.super nr ≡ some d
      → find_in nr here ≡ none
      → (testfs_get_inode s nr >>= λ s'. testfs_put_inode s' nr) ≡ some s
  unfolding testfs_get_inode inode_hash_find inode_hash_insert
  back_absent d e absent =
      let i = read_in d in
      let found : find_in nr (i ∷ here) ≡ some i = find_in_head nr i here refl in
      let gone : remove_in nr (i ∷ here) ≡ here = remove_in_head nr i here refl in
      rw (testfs_get_inode, absent, e)
        (put_found i (i ∷ here) found refl
          ∙ ap some (bucket_back s nr (i ∷ here) (remove_in nr (i ∷ here)) gone))

  pub back_present :
      (i : Inode)
      → find_in nr here ≡ some i
      → i.dirty ≡ false
      → 1 ≤ i.i_count
      → (testfs_get_inode s nr >>= λ s'. testfs_put_inode s' nr) ≡ some s
  unfolding testfs_get_inode inode_hash_find set_inode
  back_present i e clean pos =
      let j : Inode = record i { i_count = i.i_count + 1 } in
      let at : j.i_nr ≡ nr = find_in_nr nr here i e in
      let l = replace_in nr j here in
      let more : (i.i_count + 1 == 1) ≡ false = ground arith in
      let same : i.i_count + 1 - 1 ≡ i.i_count = omega arith in
      let back : replace_in nr (record i { i_count = i.i_count + 1 - 1 }) l ≡ here =
        ap (λ c. replace_in nr (record i { i_count = c }) l) same
        ∙ replace_in_back nr j here i at e in
      rw (testfs_get_inode, e)
        (put_found j l (find_in-replace nr j here i at e) clean
          ∙ rw more (
              ap some (
                bucket_back s nr l (replace_in nr (record i { i_count = i.i_count + 1 - 1 }) l)
                  back)))

-- On a mounted file system, for an inode number of the device: testfs_put_inode takes back what
-- testfs_get_inode did, whether the inode was in memory, clean and referenced, or not in memory.
pub testfs_put_inode-get :
    (s : FsState) (im bm : Bitmap) (nr : ℕ)
    → IsMounted s.super im bm
    → nr < 16384
    → IsAtRest (inode_hash_find s nr)
    → (testfs_get_inode s nr >>= λ s'. testfs_put_inode s' nr) ≡ some s
unfolding inode_hash_find
testfs_put_inode-get s im bm nr mt h rest = elim (Option-cases (find_in nr (here s nr))) [
  | inl absent ↦ back_absent s nr _ (read_dinode_lem nr mt h) absent
  | inr (i, e) ↦
      let (clean, pos) : IsAtRest (some i) = rw e at rest in back_present s nr i e clean pos
]
