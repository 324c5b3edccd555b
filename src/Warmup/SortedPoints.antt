-- ===== src/Warmup/SortedPoints.antt =====
-- warmup/sorted_points.c and the comparison of warmup/point.c. The arithmetic of doubles is a parameter.
-- A linked list is the list of its nodes, and a pointer into it is a place. An outer `none` is an access
-- through NULL; an inner one is the return value 0 of a removal.
pub mod Removal
pub mod Insertion
use ece334operating_system.Prelude.{
  ℕ, zero, suc, ◌+◌, Bool, true, false, ◌&&◌, Option, none, some, List, [], ◌∷◌, if◌then◌else◌,
}
use ece334operating_system.Prelude.Cint.{Ret, ok, err}

-- doubles with `>`, `==` and the distance from the origin
pub record Doubles : Type 1 where
  pub Double : Type 0
  pub gtb : Double → Double → Bool
  pub eqb : Double → Double → Bool
  pub norm : Double → Double → Double

module _ (F : Doubles) where
  -- struct pointNode with its struct point
  pub record Node : Type 0 where
    pub x : F.Double
    pub y : F.Double
    pub distance : F.Double

  -- The return value, 1 for a larger length and -1 for a smaller one; without an order it is not set.
  unfoldable pub point_compare : Node → Node → Option Ret
  point_compare p q =
      let a = F.norm p.x p.y in
      let b = F.norm q.x q.y in
      if F.gtb a b
      then some (ok 1)
      else if F.gtb b a
      then some (err 1)
      else if F.eqb a b
      then some (ok 0)
      else none

  -- Whether the loop of returnPrev goes on past a node.
  unfoldable pub goes_on : Node → Node → Bool
  goes_on new n =
      if F.gtb new.distance n.distance
      then true
      else if F.eqb n.distance new.distance
      then (if F.gtb new.x n.x then true else if F.eqb new.x n.x then F.gtb new.y n.y else false)
      else false

  -- The place of `current` when the loop ends.
  unfoldable pub prev_from : ℕ → Node → List Node → ℕ
  prev_from current new [] = current
  prev_from current new (n ∷ ns) =
      let rest = prev_from (current + 1) new ns in if goes_on new n then rest else current

  unfoldable pub return_prev : List Node → Node → Option ℕ
  return_prev [] new = none
  return_prev (h ∷ t) new = some (prev_from 0 new t)

  -- `newNode->next = pre->next; pre->next = newNode`
  unfoldable pub insert_after : ℕ → Node → List Node → List Node
  insert_after k new [] = new ∷ []
  insert_after zero new (n ∷ ns) = n ∷ new ∷ ns
  insert_after (suc k) new (n ∷ ns) = n ∷ insert_after k new ns

  -- The new node becomes the head where returnPrev gives the head.
  unfoldable pub insert_at : Option ℕ → Node → List Node → List Node
  insert_at none new l = new ∷ []
  insert_at (some zero) new l = new ∷ l
  insert_at (some (suc k)) new l = insert_after (suc k) new l

  -- The return value and the list; the flags say whether the two allocations succeed.
  unfoldable pub sp_add_point :
      (node_made point_made : Bool) → List Node → F.Double → F.Double → ℕ × List Node
  sp_add_point node_made point_made l x y =
      let new : Node = record { x = x; y = y; distance = F.norm x y } in
      if node_made && point_made then (1, insert_at (return_prev l new) new l) else (0, l)

  unfoldable pub sp_remove_first : List Node → Option (Node × List Node)
  sp_remove_first [] = none
  sp_remove_first (n ∷ ns) = some (n, ns)

  -- The last node after `prev`, and the list from `prev` on without it.
  unfoldable pub drop_last : Node → List Node → Node × List Node
  drop_last prev [] = (prev, [])
  drop_last prev (n ∷ []) = (n, prev ∷ [])
  drop_last prev (n ∷ m ∷ ms) = let r = drop_last n (m ∷ ms) in (r.0, prev ∷ r.1)

  unfoldable pub sp_remove_last : List Node → Option (Node × List Node)
  sp_remove_last [] = none
  sp_remove_last (n ∷ ns) = some (drop_last n ns)

  put_before : Node → Option (Option (Node × List Node)) → Option (Option (Node × List Node))
  put_before n none = none
  put_before n (some none) = some none
  put_before n (some (some (r, l))) = some (some (r, n ∷ l))

  -- `k` rounds of the loop of sp_remove_by_index with removeNode the first of the list, and the removal.
  unfoldable pub remove_from : ℕ → Node → List Node → Option (Option (Node × List Node))
  unfolding put_before
  remove_from k prev [] = none
  remove_from zero prev (r ∷ rs) = some (some (r, prev ∷ rs))
  remove_from (suc k) prev (r ∷ []) = some none
  remove_from (suc k) prev (r ∷ s ∷ rs) = put_before prev (remove_from k r (s ∷ rs))

  -- for an index that is not negative
  unfoldable pub sp_remove_by_index : List Node → ℕ → Option (Option (Node × List Node))
  sp_remove_by_index [] index = some none
  sp_remove_by_index (n ∷ ns) zero = some (some (n, ns))
  sp_remove_by_index (n ∷ ns) (suc k) = remove_from k n ns

  abbrev pub same_point : Node → Node → Bool
  same_point n m = F.eqb n.x m.x && F.eqb n.y m.y

  -- The count of what is deleted after `prev`, and the list from `prev` on.
  unfoldable pub delete_after : Node → List Node → ℕ × List Node
  delete_after prev [] = (0, prev ∷ [])
  delete_after prev (n ∷ ns) =
      let kept = delete_after n ns in
      let dropped = delete_after prev ns in
      if same_point n prev then (dropped.0 + 1, dropped.1) else (kept.0, prev ∷ kept.1)

  unfoldable pub sp_delete_duplicates : List Node → ℕ × List Node
  sp_delete_duplicates [] = (0, [])
  sp_delete_duplicates (n ∷ ns) = delete_after n ns
