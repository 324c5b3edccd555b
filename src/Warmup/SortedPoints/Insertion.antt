-- ===== src/Warmup/SortedPoints/Insertion.antt =====
-- Where sp_add_point of warmup/sorted_points.c puts a point.
use ece334operating_system.Prelude.{
  ℕ, zero, suc, ◌+◌, ◌≡◌, refl, Bool, true, false, ◌&&◌, some, List, [], ◌∷◌,
}
use ece334operating_system.Warmup.SortedPoints.{
  Doubles, Node, return_prev, insert_after, insert_at, sp_add_point,
}
use ece334operating_system.Warmup.SortedPoints.Removal.{TakesOut, TakesOut-cons}

-- the node that sp_add_point makes
abbrev pub node_of : (F : Doubles) → F.Double → F.Double → Node F
node_of F x y = record { x = x; y = y; distance = F.norm x y }

module _ (F : Doubles) where
  -- The list has the new element somewhere, and the old elements in their order.
  abbrev pub IsInserted : Node F → List (Node F) → List (Node F) → Type 0
  IsInserted new l r = (i : ℕ) × TakesOut i r new l

  insert_first : (new : Node F) (l : List (Node F)) → IsInserted new l (new ∷ l)
  insert_first new l =
      (0, record { before = []; after = l; whole = refl; left = refl; place = refl })

  insert_after-IsInserted :
      (k : ℕ) (new : Node F) (l : List (Node F)) → IsInserted new l (insert_after F k new l)
  unfolding insert_after
  insert_after-IsInserted k new [] = insert_first new []
  insert_after-IsInserted zero new (n ∷ ns) =
      (1, record { before = n ∷ []; after = ns; whole = refl; left = refl; place = refl })
  insert_after-IsInserted (suc k) new (n ∷ ns) =
      let (i, t) : IsInserted new ns (insert_after F k new ns) = insert_after-IsInserted k new ns in
      (i + 1, TakesOut-cons n t)

  insert_place-IsInserted :
      (k : ℕ) (new : Node F) (l : List (Node F)) → IsInserted new l (insert_at F (some k) new l)
  unfolding insert_at
  insert_place-IsInserted zero new l = insert_first new l
  insert_place-IsInserted (suc k) new l = insert_after-IsInserted (suc k) new l

  insert_at-IsInserted :
      (new : Node F) (l : List (Node F))
      → IsInserted new l (insert_at F (return_prev F l new) new l)
  unfolding insert_at return_prev
  insert_at-IsInserted new [] = insert_first new []
  insert_at-IsInserted new (n ∷ ns) = insert_place-IsInserted _ new (n ∷ ns)

  -- The outcomes: 1 with the point inserted, and 0 with the list as it was where an allocation fails.
  abbrev pub Adds : Bool → List (Node F) → F.Double → F.Double → ℕ × List (Node F) → Type 0
  Adds true l x y r = (r.0 ≡ 1) × IsInserted (node_of F x y) l r.1
  Adds false l x y r = r ≡ (0, l)

  pub sp_add_point-Adds :
      (a b : Bool) (l : List (Node F)) (x y : F.Double)
      → Adds (a && b) l x y (sp_add_point F a b l x y)
  unfolding sp_add_point
  sp_add_point-Adds true true l x y = (refl, insert_at-IsInserted (node_of F x y) l)
  sp_add_point-Adds true false l x y = refl
  sp_add_point-Adds false true l x y = refl
  sp_add_point-Adds false false l x y = refl
