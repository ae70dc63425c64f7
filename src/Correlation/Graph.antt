-- ===== src/Correlation/Graph.antt =====
-- The connected components of the candidate graph, of src/reconcileflow/correlation/assignment.py.
use reconcileflow.Base.{
  ℕ, zero, suc, ◌+◌, Option, none, some, List, [], ◌∷◌, ◌++◌, length, if◌then◌else◌,
}
use reconcileflow.Base.Order.{Text, nat_ord, list_ord, ◌<=◌, contains}
use reconcileflow.Base.Sorting.{sort_by}
use reconcileflow.Base.Dict.{Dict, keys, find_or, alter}
use reconcileflow.Stream.{left, right, BusinessKey, key_ord}
use reconcileflow.Correlation.Assignment.{Weights}

-- `("L", x)` and `("R", y)`, in the order of the tuples.
abbrev pub Node : Type 0
Node = BusinessKey

-- `neighbours[a].add(b)`
unfoldable pub add_neighbour : Node → Node → Dict Node (List Node) → Dict Node (List Node)
add_neighbour a b = alter [] a (λ ns. if contains b ns then ns else ns ++ b ∷ [])

unfoldable pub neighbours : Weights → Dict Node (List Node) → Dict Node (List Node)
neighbours [] d = d
neighbours ((l, r, w) ∷ ws) d =
    neighbours ws (add_neighbour (right, r) (left, l) (add_neighbour (left, l) (right, r) d))

pub record Walk : Type 0 where
  pub reached : List Node
  pub members : List Node

-- `for other in ...: if other not in reached: ...`
unfoldable pub reach : List Node → Walk → Walk
reach [] w = w
reach (n ∷ ns) w = reach ns (
    if contains n w.reached
    then w
    else record { reached = n ∷ w.reached; members = w.members ++ n ∷ [] })

unfoldable pub member_at : ℕ → List Node → Option Node
member_at k [] = none
member_at zero (n ∷ ns) = some n
member_at (suc k) (n ∷ ns) = member_at k ns

-- The walk by index, bounded by the number of records.
unfoldable pub walk : Dict Node (List Node) → ℕ → ℕ → Walk → Walk
walk d zero k w = w
walk d (suc bound) k w = elim (member_at k w.members) [
  | none ↦ w
  | some n ↦ walk d bound (k + 1) (reach (sort_by ◌<=◌ (find_or [] n d)) w)
]

unfoldable pub on_the_left : List Node → List Text
on_the_left [] = []
on_the_left ((left, x) ∷ ns) = x ∷ on_the_left ns
on_the_left ((right, x) ∷ ns) = on_the_left ns

unfoldable pub on_the_right : List Node → List Text
on_the_right [] = []
on_the_right ((left, x) ∷ ns) = on_the_right ns
on_the_right ((right, x) ∷ ns) = x ∷ on_the_right ns

-- The left and the right ids of a component, each sorted.
unfoldable pub sides_of : List Node → List Text × List Text
sides_of ns = (sort_by ◌<=◌ (on_the_left ns), sort_by ◌<=◌ (on_the_right ns))

-- The loop over the records, in sorted order.
unfoldable pub components_from :
    Dict Node (List Node) → List Node → List Node → List (List Text × List Text)
components_from d [] reached = []
components_from d (start ∷ rest) reached =
    let w = walk d (length d) 0 (record { reached = start ∷ reached; members = start ∷ [] }) in
    if contains start reached
    then components_from d rest reached
    else sides_of w.members ∷ components_from d rest w.reached

-- `_components`
unfoldable pub components_of : Weights → List (List Text × List Text)
components_of ws = let d = neighbours ws [] in components_from d (sort_by ◌<=◌ (keys d)) []
