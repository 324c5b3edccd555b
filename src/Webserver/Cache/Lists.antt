-- ===== src/Webserver/Cache/Lists.antt =====
-- The lists of the cache of webserver/server_thread.c: moving and removing elements, and their sizes.
use ece334operating_system.Prelude.{
  ℕ, ◌+◌, ◌≡◌, refl, true, false, Option, none, some, List, [], ◌∷◌, ◌==◌, arith, ap, sym, ◌∙◌, inl,
  inr, Bool-cases, ==→eq, eq→==,
}
use ece334operating_system.Threads.{pushback_rl}
use ece334operating_system.Threads.Yield.{elem, last, without_last, remove}
use ece334operating_system.Threads.Lists.{
  NoDup, elem-cons, elem-nil, elem-pushback, NoDup-pushback, elem-remove, NoDup-remove,
  remove_end-eq,
}
use ece334operating_system.Webserver.Cache.{
  Element, pushback_lru, append_chain, swap_in, delete_chain,
}

pub pushback_lru-eq : (l : List ℕ) (e : ℕ) → pushback_lru l e ≡ pushback_rl l e
unfolding pushback_lru pushback_rl
pushback_lru-eq [] e = refl
pushback_lru-eq (j ∷ l) e = ap (λ k. j ∷ k) (pushback_lru-eq l e)

pub append_chain-eq : (l : List ℕ) (e : ℕ) → append_chain l e ≡ pushback_rl l e
unfolding append_chain pushback_rl
append_chain-eq [] e = refl
append_chain-eq (j ∷ l) e = ap (λ k. j ∷ k) (append_chain-eq l e)

remove-here : (j : ℕ) (l : List ℕ) → remove j (j ∷ l) ≡ l
unfolding remove
remove-here j l = rw (eq→== j j refl) refl

-- The last element stays where it is, as it would behind all others.
push-last : (j : ℕ) (l : List ℕ) → pushback_rl (without_last j l) (last j l) ≡ j ∷ l
unfolding pushback_rl without_last last
push-last j [] = refl
push-last j (k ∷ l) = ap (λ m. j ∷ m) (push-last k l)

-- deleteSwapNode with 0 takes an element of the list out of it.
pub swap_in-remove :
    (e : ℕ) (l : List ℕ) → NoDup l → elem e l ≡ true → swap_in e 0 l ≡ some (remove e l)
unfolding swap_in
swap_in-remove e [] d h = let n = elem-nil e in cc
swap_in-remove e (j ∷ l) d h = elim (Bool-cases (e == j)) [
  | inl head ↦
      rw head (ap some (sym (remove-here j l) ∙ ap (λ i. remove i (j ∷ l)) (sym (==→eq e j head))))
  | inr other ↦ elim (Bool-cases (e == last j l)) [
    | inl end ↦
        rw (other, end)
          (ap some
            (sym (remove_end-eq j l d) ∙ ap (λ i. remove i (j ∷ l)) (sym (==→eq e (last j l) end))))
    | inr middle ↦ rw (other, middle, h) refl
  ]
]

-- With 1 it moves the element to the end, in all three places.
pub swap_in-move :
    (e : ℕ) (l : List ℕ)
    → NoDup l
    → elem e l ≡ true
    → swap_in e 1 l ≡ some (pushback_rl (remove e l) e)
unfolding swap_in
swap_in-move e [] d h = let n = elem-nil e in cc
swap_in-move e (j ∷ l) d h = elim (Bool-cases (e == j)) [
  | inl head ↦
      let q = ==→eq e j head in
      rw head (
        ap some (
          pushback_lru-eq l j
          ∙ ap (λ m. pushback_rl m j) (sym (remove-here j l))
          ∙ ap (λ i. pushback_rl (remove i (j ∷ l)) i) (sym q)))
  | inr other ↦ elim (Bool-cases (e == last j l)) [
    | inl end ↦
        let q = ==→eq e (last j l) end in
        rw (other, end)
          (ap some (
            sym (push-last j l)
            ∙ ap (λ m. pushback_rl m (last j l)) (sym (remove_end-eq j l d))
            ∙ ap (λ i. pushback_rl (remove i (j ∷ l)) i) (sym q)))
    | inr middle ↦ rw (other, middle, h) (ap some (pushback_lru-eq (remove e (j ∷ l)) e))
  ]
]

pub delete_chain-remove :
    (e : ℕ) (l : List ℕ) → elem e l ≡ true → delete_chain e l ≡ some (remove e l)
unfolding delete_chain remove elem
delete_chain-remove e [] h = cc
delete_chain-remove e (j ∷ l) h = elim (Bool-cases (e == j)) [
  | inl head ↦ ground arith
  | inr other ↦
      let n : (j == e) ≡ false = ground arith in
      let m : elem e l ≡ true = rw n at h in rw (other, n, delete_chain-remove e l m) refl
]

abbrev pub size_of : Option Element → ℕ
size_of none = 0
size_of (some x) = x.sizeofword

-- The sum of the sizes of the elements of a list.
abbrev pub total : (ℕ → Option Element) → List ℕ → ℕ
total f [] = 0
total f (e ∷ l) = size_of (f e) + total f l

pub total-same :
    (f g : ℕ → Option Element) (l : List ℕ)
    → ((e : ℕ) → elem e l ≡ true → size_of (f e) ≡ size_of (g e))
    → total f l ≡ total g l
total-same f g [] h = refl
total-same f g (e ∷ l) h =
    let a = h e (elem-cons e e l ∙ ground arith) in
    let b = total-same f g l (λ i k. h i (elem-cons i e l ∙ ground (arith, k))) in omega arith

pub total-push :
    (f : ℕ → Option Element) (l : List ℕ) (e : ℕ)
    → total f (pushback_rl l e) ≡ total f l + size_of (f e)
unfolding pushback_rl
total-push f [] e = omega arith
total-push f (j ∷ l) e = let a = total-push f l e in omega arith

pub total-remove :
    (f : ℕ → Option Element) (e : ℕ) (l : List ℕ)
    → elem e l ≡ true
    → total f (remove e l) + size_of (f e) ≡ total f l
unfolding remove elem
total-remove f e [] h = cc
total-remove f e (j ∷ l) h = elim (Bool-cases (j == e)) [
  | inl this ↦ rw this (ap (λ i. total f l + size_of (f i)) (sym (==→eq j e this)) ∙ omega arith)
  | inr other ↦
      let m : elem e l ≡ true = rw other at h in
      let a = total-remove f e l m in rw other (omega arith)
]

-- Moving an element to the end keeps the list as a set, without repetition, and its size.
pub move-elem :
    (e : ℕ) (l : List ℕ)
    → NoDup l
    → elem e l ≡ true
    → ((i : ℕ) → elem i (pushback_rl (remove e l) e) ≡ elem i l)
      × NoDup (pushback_rl (remove e l) e)
move-elem e l d h = (
  λ i. elem-pushback i e (remove e l) ∙ ground (arith, elem-remove i e l d),
  NoDup-pushback e (remove e l) (NoDup-remove e l d) (elem-remove e e l d ∙ ground arith),
)
