-- ===== src/Correlation/Assignment.antt =====
-- The input of an assignment and its validation, of src/reconcileflow/correlation/assignment.py.
-- Weights, margins and bounds are integers, so that the tests of `_is_int` cannot fail.
use reconcileflow.Base.{
  ℕ, Bool, true, ◌&&◌, not, Option, none, some, List, [], ◌∷◌, ◌++◌, is_some, if◌then◌else◌,
}
use reconcileflow.Base.Int.{ℤ, pos, leb_ℤ}
use reconcileflow.Base.Order.{Text, nat_ord, list_ord, ◌<=◌, ◌==◌, contains}
use reconcileflow.Base.Sorting.{sort_by}
use reconcileflow.Base.Raised.{Result, ok, ◌>>=◌}
use reconcileflow.M0.Stability.{require}

-- `MAX_WEIGHT`
abbrev pub max_weight : ℕ
max_weight = 1000000000

pub record Edge : Type 0 where
  pub left : Text
  pub right : Text
  pub weight : ℤ

-- `dict[tuple[str, str], int]`
abbrev pub Weights : Type 0
Weights = List (Text × Text × ℤ)

-- `weights.get((x, y))`
unfoldable pub weight_of : Text → Text → Weights → Option ℤ
weight_of x y [] = none
weight_of x y ((l, r, w) ∷ ws) = if l == x && r == y then some w else weight_of x y ws

-- What `_validated` returns.
pub record Problem : Type 0 where
  pub lefts : List Text
  pub rights : List Text
  pub weights : Weights

-- `len(set(ids)) == len(ids)`
unfoldable pub has_no_duplicate : List Text → Bool
has_no_duplicate [] = true
has_no_duplicate (x ∷ xs) = not (contains x xs) && has_no_duplicate xs

-- `1 <= e.weight <= MAX_WEIGHT`
unfoldable pub is_weight : ℤ → Bool
is_weight w = leb_ℤ (pos 1) w && leb_ℤ w (pos max_weight)

-- The tests of one edge against the ids and the weights so far.
unfoldable pub is_admissible : List Text → List Text → Weights → Edge → Bool
is_admissible lefts rights ws e =
    contains e.left lefts
    && contains e.right rights
    && not (is_some (weight_of e.left e.right ws))
    && is_weight e.weight

-- The loop over the edges.
unfoldable pub add_edges : List Text → List Text → List Edge → Weights → Result Weights
add_edges lefts rights [] ws = ok ws
add_edges lefts rights (e ∷ es) ws =
    require (is_admissible lefts rights ws e)
      (add_edges lefts rights es (ws ++ (e.left, e.right, e.weight) ∷ []))

-- `_validated`
unfoldable pub validated : List Text → List Text → List Edge → ℤ → ℤ → Result Problem
validated lefts rights edges margin max_component =
    require
      (leb_ℤ (pos 0) margin
        && leb_ℤ (pos 1) max_component
        && has_no_duplicate lefts
        && has_no_duplicate rights)
      (do
        ws ← add_edges lefts rights edges []
        ok (record { lefts = sort_by ◌<=◌ lefts; rights = sort_by ◌<=◌ rights; weights = ws }))
