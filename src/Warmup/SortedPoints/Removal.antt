-- ===== src/Warmup/SortedPoints/Removal.antt =====
-- What the removals of warmup/sorted_points.c take out of the list and what they leave.
use ece334operating_system.Prelude.{
  ℕ, zero, suc, ◌+◌, ◌≤◌, ◌≡◌, refl, false, Option, none, some, List, [], ◌∷◌, ◌++◌, arith, inl,
  inr, ap, Bool-cases,
}
use ece334operating_system.Warmup.SortedPoints.{
  Doubles, Node, same_point, drop_last, sp_remove_last, put_before, remove_from, sp_remove_by_index,
  delete_after, sp_delete_duplicates,
}

-- the number of elements
abbrev pub length {ℓ} : {A : Type ℓ} → List A → ℕ
length [] = 0
length (a ∷ l) = length l + 1

-- `r` stands at place `i` of the list, and `rest` is the list without it.
pub record TakesOut {A : Type 0} (i : ℕ) (l : List A) (r : A) (rest : List A) : Type 0 where
  pub before : List A
  pub after : List A
  pub whole : l ≡ before ++ (r ∷ after)
  pub left : rest ≡ before ++ after
  pub place : length before ≡ i

pub TakesOut-cons :
    {A : Type 0} {i : ℕ} {l rest : List A} {r : A} (a : A)
    → TakesOut i l r rest
    → TakesOut (i + 1) (a ∷ l) r (a ∷ rest)
TakesOut-cons a t = record {
  before = a ∷ t.before;
  after = t.after;
  whole = ap (λ k. a ∷ k) t.whole;
  left = ap (λ k. a ∷ k) t.left;
  place = ap (λ n. n + 1) t.place;
}

module _ (F : Doubles) where
  -- The outcomes of the removal of index `i`: a list of one element fails with a NULL access at every
  -- other index than 0.
  abbrev pub RemovesAt : ℕ → List (Node F) → Option (Option (Node F × List (Node F))) → Type 0
  RemovesAt i l none = (length l ≡ 1) × (1 ≤ i)
  RemovesAt i l (some none) = (length l ≤ i)
  RemovesAt i l (some (some (r, rest))) = TakesOut i l r rest

  -- The same inside the loop, where the list has a second element.
  abbrev RemovesIn : ℕ → List (Node F) → Option (Option (Node F × List (Node F))) → Type 0
  RemovesIn i l none = ⊥
  RemovesIn i l (some r) = RemovesAt i l (some r)

  put_before-RemovesIn :
      (i : ℕ) (n : Node F) (l : List (Node F)) (r : Option (Option (Node F × List (Node F))))
      → RemovesIn i l r
      → RemovesIn (i + 1) (n ∷ l) (put_before F n r)
  unfolding put_before
  put_before-RemovesIn i n l none h = h
  put_before-RemovesIn i n l (some none) h = omega arith
  put_before-RemovesIn i n l (some (some (r, rest))) h = TakesOut-cons n h

  remove_from-RemovesIn :
      (k : ℕ) (n m : Node F) (l : List (Node F))
      → RemovesIn (k + 1) (n ∷ m ∷ l) (remove_from F k n (m ∷ l))
  unfolding remove_from
  remove_from-RemovesIn zero n m l = record {
    before = n ∷ [];
    after = l;
    whole = refl;
    left = refl;
    place = refl;
  }
  remove_from-RemovesIn (suc k) n m [] = omega arith
  remove_from-RemovesIn (suc k) n m (o ∷ l) =
      let h : RemovesIn (k + 1 + 1) (n ∷ m ∷ o ∷ l) (put_before F n (remove_from F k m (o ∷ l))) =
        put_before-RemovesIn (k + 1) n (m ∷ o ∷ l) (remove_from F k m (o ∷ l))
          (remove_from-RemovesIn k m o l) in
      let at : k + 1 + 1 ≡ suc k + 1 = omega arith in rw at at h

  outside :
      (i : ℕ) (l : List (Node F)) (r : Option (Option (Node F × List (Node F))))
      → RemovesIn i l r
      → RemovesAt i l r
  outside i l none h = absurd h
  outside i l (some r) h = h

  -- sp_remove_by_index on every branch: it takes out the element at the index, or returns 0 where the
  -- list is too short, but for a list of one element, where an index past 0 is a NULL access.
  pub sp_remove_by_index-RemovesAt :
      (l : List (Node F)) (i : ℕ) → RemovesAt i l (sp_remove_by_index F l i)
  unfolding sp_remove_by_index remove_from
  sp_remove_by_index-RemovesAt [] i = omega arith
  sp_remove_by_index-RemovesAt (n ∷ ns) zero = record {
    before = [];
    after = ns;
    whole = refl;
    left = refl;
    place = refl;
  }
  sp_remove_by_index-RemovesAt (n ∷ []) (suc k) = (refl, omega arith)
  sp_remove_by_index-RemovesAt (n ∷ m ∷ ns) (suc k) =
      let at : k + 1 ≡ suc k = omega arith in
      outside (suc k) (n ∷ m ∷ ns) (remove_from F k n (m ∷ ns))
        (rw at at (remove_from-RemovesIn k n m ns))

  drop_last-TakesOut :
      (n : Node F) (l : List (Node F))
      → TakesOut (length l) (n ∷ l) (drop_last F n l).0 (drop_last F n l).1
  unfolding drop_last
  drop_last-TakesOut n [] = record {
    before = [];
    after = [];
    whole = refl;
    left = refl;
    place = refl;
  }
  drop_last-TakesOut n (m ∷ []) = record {
    before = n ∷ [];
    after = [];
    whole = refl;
    left = refl;
    place = refl;
  }
  drop_last-TakesOut n (m ∷ o ∷ l) = TakesOut-cons n (drop_last-TakesOut m (o ∷ l))

  length-drop_last : (n : Node F) (l : List (Node F)) → length (drop_last F n l).1 ≡ length l
  unfolding drop_last
  length-drop_last n [] = refl
  length-drop_last n (m ∷ []) = refl
  length-drop_last n (m ∷ o ∷ l) = ap (λ k. k + 1) (length-drop_last m (o ∷ l))

  abbrev pub RemovesLast : List (Node F) → Option (Node F × List (Node F)) → Type 0
  RemovesLast l none = l ≡ []
  RemovesLast l (some (r, rest)) = TakesOut (length rest) l r rest

  -- sp_remove_last takes out the last element, and returns 0 exactly on the empty list.
  sp_remove_last-RemovesLast : (l : List (Node F)) → RemovesLast l (sp_remove_last F l)
  unfolding sp_remove_last
  sp_remove_last-RemovesLast [] = refl
  sp_remove_last-RemovesLast (n ∷ ns) = rw (length-drop_last n ns) (drop_last-TakesOut n ns)

  -- no element is the same point as the one before it
  abbrev pub NoRepeat : List (Node F) → Type 0
  NoRepeat [] = Unit
  NoRepeat (n ∷ []) = Unit
  NoRepeat (n ∷ m ∷ l) = (same_point F m n ≡ false) × NoRepeat (m ∷ l)

  -- What stands after `prev` once the duplicates are deleted.
  record Deleted (prev : Node F) (l : List (Node F)) (r : ℕ × List (Node F)) : Type 0 where
    rest : List (Node F)
    starts : r.1 ≡ prev ∷ rest
    distinct : NoRepeat (prev ∷ rest)
    count : r.0 + length rest ≡ length l

  delete_after-Deleted :
      (prev : Node F) (l : List (Node F)) → Deleted prev l (delete_after F prev l)
  unfolding delete_after
  delete_after-Deleted prev [] = record { rest = []; starts = refl; distinct = tt; count = refl }
  delete_after-Deleted prev (n ∷ ns) = elim (Bool-cases (same_point F n prev)) [
    | inl same ↦
        let d = delete_after-Deleted prev ns in
        rw same (record {
          rest = d.rest;
          starts = d.starts;
          distinct = d.distinct;
          count = omega (arith, d.count);
        })
    | inr new ↦
        let d = delete_after-Deleted n ns in
        rw new (record {
          rest = n ∷ d.rest;
          starts = ap (λ k. prev ∷ k) d.starts;
          distinct = (new, d.distinct);
          count = omega (arith, d.count);
        })
  ]

  pub sp_delete_duplicates-NoRepeat :
      (l : List (Node F))
      → NoRepeat (sp_delete_duplicates F l).1
        × ((sp_delete_duplicates F l).0 + length (sp_delete_duplicates F l).1 ≡ length l)
  unfolding sp_delete_duplicates
  sp_delete_duplicates-NoRepeat [] = (tt, refl)
  sp_delete_duplicates-NoRepeat (n ∷ ns) =
      let d = delete_after-Deleted n ns in rw d.starts (d.distinct, omega (arith, d.count))
