-- ===== src/Threads/Lists.antt =====
-- The lists of threads of threads/thread.c as sets without repetition.
use ece334operating_system.Prelude.{
  ℕ, ◌≡◌, ◌≢◌, refl, Bool, true, false, some, List, [], ◌∷◌, ◌++◌, ◌==◌, if◌then◌else◌, arith, ◌⊎◌,
  inl, inr, ◌∙◌, ap, sym, Bool-cases, ==→eq, eq→==, ne→==,
}
use ece334operating_system.Threads.{pushback_rl}
use ece334operating_system.Threads.Queue.{pushback_wq}
use ece334operating_system.Threads.Yield.{elem, last, without_last, remove, delete_node}

pub List-cases : (l : List ℕ) → (l ≡ []) ⊎ ((i : ℕ) × (k : List ℕ) × (l ≡ i ∷ k))
List-cases [] = inl refl
List-cases (i ∷ k) = inr (i, k, refl)

-- No thread is in the list twice.
abbrev pub NoDup : List ℕ → Type 0
NoDup [] = Unit
NoDup (i ∷ l) = (elem i l ≡ false) × NoDup l

pub pushback_wq-eq : (l : List ℕ) (i : ℕ) → pushback_wq l i ≡ pushback_rl l i
unfolding pushback_wq pushback_rl
pushback_wq-eq [] i = refl
pushback_wq-eq (j ∷ l) i = ap (λ k. j ∷ k) (pushback_wq-eq l i)

pub pushback_rl-eq : (l : List ℕ) (i : ℕ) → pushback_rl l i ≡ l ++ (i ∷ [])
unfolding pushback_rl
pushback_rl-eq [] i = refl
pushback_rl-eq (j ∷ l) i = ap (λ k. j ∷ k) (pushback_rl-eq l i)

pub pushback_rl-cons : (j : ℕ) (l : List ℕ) (i : ℕ) → pushback_rl (j ∷ l) i ≡ j ∷ pushback_rl l i
unfolding pushback_rl
pushback_rl-cons j l i = refl

pub elem-cons : (j i : ℕ) (l : List ℕ) → elem j (i ∷ l) ≡ (if i == j then true else elem j l)
unfolding elem
elem-cons j i l = refl

pub elem-nil : (j : ℕ) → elem j [] ≡ false
unfolding elem
elem-nil j = refl

pub elem-pushback :
    (j i : ℕ) (l : List ℕ) → elem j (pushback_rl l i) ≡ (if i == j then true else elem j l)
unfolding elem pushback_rl
elem-pushback j i [] = refl
elem-pushback j i (k ∷ l) = ground (arith, elem-pushback j i l)

pub NoDup-pushback : (i : ℕ) (l : List ℕ) → NoDup l → elem i l ≡ false → NoDup (pushback_rl l i)
unfolding pushback_rl elem
NoDup-pushback i [] d e = (refl, tt)
NoDup-pushback i (k ∷ l) d e =
    (ground (arith, elem-pushback k i l), NoDup-pushback i l d.1 (ground arith))

pub elem-remove :
    (j i : ℕ) (l : List ℕ) → NoDup l → elem j (remove i l) ≡ (if i == j then false else elem j l)
unfolding remove elem
elem-remove j i [] d = ground arith
elem-remove j i (k ∷ l) d = ground (arith, elem-remove j i l d.1)

pub NoDup-remove : (i : ℕ) (l : List ℕ) → NoDup l → NoDup (remove i l)
unfolding remove
NoDup-remove i [] d = tt
NoDup-remove i (k ∷ l) d = elim (Bool-cases (k == i)) [
  | inl here ↦ rw here d.1
  | inr other ↦ rw other (elem-remove k i l d.1 ∙ ground arith, NoDup-remove i l d.1)
]

pub elem-last : (j : ℕ) (l : List ℕ) → elem (last j l) (j ∷ l) ≡ true
unfolding last elem
elem-last j [] = ground arith
elem-last j (k ∷ l) = ground (arith, elem-last k l)

pub remove_end-eq :
    (j : ℕ) (l : List ℕ) → NoDup (j ∷ l) → remove (last j l) (j ∷ l) ≡ without_last j l
unfolding last without_last remove
remove_end-eq j [] d = ground arith
remove_end-eq j (k ∷ l) d =
    let there : elem (last k l) (k ∷ l) ≡ true = elem-last k l in
    let ne : j ≢ last k l = λ e. cc in
    rw (ne→== j (last k l) ne) (ap (λ m. j ∷ m) (remove_end-eq k l d.1))

-- deleteNode takes the thread out, in the middle of the list too where its node is known.
pub delete_node-remove :
    (i : ℕ) (l : List ℕ) → NoDup l → elem i l ≡ true → delete_node true i l ≡ some (remove i l)
unfolding delete_node elem remove
delete_node-remove i [] d e = cc
delete_node-remove i (j ∷ l) d e = elim (Bool-cases (i == j)) [
  | inl head ↦ ground arith
  | inr other ↦ elim (Bool-cases (i == last j l)) [
    | inl end ↦
        rw (other, end)
          (ap some
            (sym (remove_end-eq j l d) ∙ ap (λ k. remove k (j ∷ l)) (sym (==→eq i (last j l) end))))
    | inr middle ↦ rw (other, middle) refl
  ]
]

pub delete_node-head : (b : Bool) (i : ℕ) (l : List ℕ) → delete_node b i (i ∷ l) ≡ some l
unfolding delete_node
delete_node-head b i l = rw (eq→== i i refl) refl

last-pushback : (j i : ℕ) (l : List ℕ) → last j (pushback_rl l i) ≡ i
unfolding last pushback_rl
last-pushback j i [] = refl
last-pushback j i (k ∷ l) = last-pushback k i l

without_last-pushback : (j i : ℕ) (l : List ℕ) → without_last j (pushback_rl l i) ≡ j ∷ l
unfolding without_last pushback_rl
without_last-pushback j i [] = refl
without_last-pushback j i (k ∷ l) = ap (λ m. j ∷ m) (without_last-pushback k i l)

-- A thread that was put at the end of the list is taken out of it again.
pub delete_node-pushback :
    (b : Bool) (i : ℕ) (l : List ℕ) → elem i l ≡ false → delete_node b i (pushback_rl l i) ≡ some l
unfolding delete_node pushback_rl elem
delete_node-pushback b i [] e = rw (eq→== i i refl) refl
delete_node-pushback b i (j ∷ l) e =
    let ne : (i == j) ≡ false = ground arith in
    rw (ne, last-pushback j i l, eq→== i i refl) (ap some (without_last-pushback j i l))
