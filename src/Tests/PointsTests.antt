-- ===== src/Tests/PointsTests.antt =====
-- warmup/sorted_points.c on points with natural numbers for their coordinates.
use ece334operating_system.Prelude.{ℕ, ◌+◌, ◌*◌, ◌≡◌, refl, true, List, [], ◌∷◌, ltb, ◌==◌}
use ece334operating_system.Warmup.SortedPoints.{
  Doubles, Node, return_prev, prev_from, insert_at, sp_add_point, sp_remove_by_index,
  sp_delete_duplicates,
}
use ece334operating_system.Warmup.SortedPoints.Removal.{
  length, RemovesAt, NoRepeat, sp_remove_by_index-RemovesAt, sp_delete_duplicates-NoRepeat,
}
use ece334operating_system.Warmup.SortedPoints.Insertion.{node_of, Adds, sp_add_point-Adds}

abbrev numbers : Doubles
numbers = record {
  Double = ℕ;
  gtb = λ a b. ltb b a;
  eqb = λ a b. a == b;
  norm = λ x y. x * x + y * y;
}

abbrev three_points : List (Node numbers)
three_points = node_of numbers 0 1 ∷ node_of numbers 3 4 ∷ node_of numbers 3 4 ∷ []

-- A point farther out than the only one goes before it.
abbrev one_point : List (Node numbers)
one_point = node_of numbers 0 1 ∷ []

second_first :
    sp_add_point numbers true true one_point 3 4
    ≡ (1, node_of numbers 3 4 ∷ node_of numbers 0 1 ∷ [])
unfolding sp_add_point return_prev prev_from insert_at
second_first = refl

sp_add_point-Adds_example :
    Adds numbers true three_points 1 2 (sp_add_point numbers true true three_points 1 2)
sp_add_point-Adds_example = sp_add_point-Adds numbers true true three_points 1 2

sp_remove_by_index-RemovesAt_example :
    RemovesAt numbers 1 three_points (sp_remove_by_index numbers three_points 1)
sp_remove_by_index-RemovesAt_example = sp_remove_by_index-RemovesAt numbers three_points 1

sp_delete_duplicates-NoRepeat_example :
    NoRepeat numbers (sp_delete_duplicates numbers three_points).1
    × ((sp_delete_duplicates numbers three_points).0
          + length (sp_delete_duplicates numbers three_points).1
        ≡ length three_points)
sp_delete_duplicates-NoRepeat_example = sp_delete_duplicates-NoRepeat numbers three_points
