-- ===== src/Tests/Correlation.antt =====
-- Runs of the validation and of the components, and their theorem at two edges.
use reconcileflow.Base.{ℕ, ◌≡◌, refl, [], ◌∷◌, here, there}
use reconcileflow.Base.Int.{pos}
use reconcileflow.Base.Order.{Text, nat_ord, list_ord}
use reconcileflow.Base.Raised.{ok, raised, value_error}
use reconcileflow.Stream.{key_ord}
use reconcileflow.Correlation.Assignment.{Edge, Problem}
use reconcileflow.Correlation.Weights.{IsKept, validated-IsKept}
use reconcileflow.Base.Dict.{note_key, find_or, alter}
use reconcileflow.Base.Order.{◌==◌, contains, lex}
use reconcileflow.Base.Int.{◌+ℤ◌, ◌-ℤ◌, ◌*ℤ◌}
use reconcileflow.Base.Sorting.{insert_by, sort_by}
use reconcileflow.Correlation.Assignment.{
  weight_of, has_no_duplicate, is_weight, is_admissible, add_edges, validated,
}
use reconcileflow.Correlation.Graph.{
  add_neighbour, neighbours, reach, member_at, walk, on_the_left, on_the_right, sides_of,
  components_from, components_of,
}

abbrev name : ℕ → Text
name n = n ∷ []

abbrev edge_1 : Edge
edge_1 = record { left = name 1; right = name 5; weight = pos 3 }

abbrev edge_2 : Edge
edge_2 = record { left = name 2; right = name 5; weight = pos 4 }

abbrev problem : Problem
problem = record {
  lefts = name 1 ∷ name 2 ∷ name 3 ∷ [];
  rights = name 5 ∷ name 6 ∷ [];
  weights = (name 1, name 5, pos 3) ∷ (name 2, name 5, pos 4) ∷ [];
}

validated-two :
    validated
      (name 3 ∷ name 1 ∷ name 2 ∷ [])
      (name 6 ∷ name 5 ∷ [])
      (edge_1 ∷ edge_2 ∷ [])
      (pos 0)
      (pos 32)
    ≡ ok problem
unfolding note_key find_or alter ◌==◌ contains lex ◌+ℤ◌ ◌-ℤ◌ ◌*ℤ◌ insert_by sort_by weight_of
    has_no_duplicate is_weight is_admissible add_edges validated add_neighbour neighbours reach
    member_at walk on_the_left on_the_right sides_of components_from components_of
validated-two = refl

validated-duplicate :
    validated (name 1 ∷ []) (name 5 ∷ []) (edge_1 ∷ edge_1 ∷ []) (pos 0) (pos 32)
    ≡ raised value_error
unfolding note_key find_or alter ◌==◌ contains lex ◌+ℤ◌ ◌-ℤ◌ ◌*ℤ◌ insert_by sort_by weight_of
    has_no_duplicate is_weight is_admissible add_edges validated add_neighbour neighbours reach
    member_at walk on_the_left on_the_right sides_of components_from components_of
validated-duplicate = refl

components_of-two : components_of problem.weights ≡ (name 1 ∷ name 2 ∷ [], name 5 ∷ []) ∷ []
unfolding note_key find_or alter ◌==◌ contains lex ◌+ℤ◌ ◌-ℤ◌ ◌*ℤ◌ insert_by sort_by weight_of
    has_no_duplicate is_weight is_admissible add_edges validated add_neighbour neighbours reach
    member_at walk on_the_left on_the_right sides_of components_from components_of
components_of-two = refl

validated-IsKept_example :
    IsKept (name 3 ∷ name 1 ∷ name 2 ∷ []) (name 6 ∷ name 5 ∷ []) problem.weights edge_2
validated-IsKept_example =
    validated-IsKept (name 3 ∷ name 1 ∷ name 2 ∷ []) (name 6 ∷ name 5 ∷ []) (edge_1 ∷ edge_2 ∷ [])
      (pos 0) (pos 32) problem edge_2 validated-two (there here)
