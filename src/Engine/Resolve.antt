-- ===== src/Engine/Resolve.antt =====
-- Resolution of one block: the loop over the rules of `_reconcile_block` in
-- src/reconcileflow/engine.py. What the source updates in place is a state that is returned.
pub mod Growth
pub mod Maximal
pub mod Exclusive
use reconcileflow.Base.{
  Bool, true, false, ◌&&◌, ◌||◌, not, Option, none, some, List, [], ◌∷◌, ◌++◌, if◌then◌else◌,
  length, keep, is_empty,
}
use reconcileflow.Base.Order.{Text, nat_ord, list_ord, ◌<=◌, contains}
use reconcileflow.Base.Sorting.{sort_by}
use reconcileflow.Decimal.{lt}
use reconcileflow.Models.Rule.{RuleId}
use reconcileflow.Models.Counters.{Counter, bump, matched, candidates_evaluated}
use reconcileflow.Models.{Record, Tolerance, Match}
use reconcileflow.Rules.{generate}

-- `_candidate_order`, as the test that sorts by it: the highest score first, then the ids.
unfoldable pub candidate_before : Match → Match → Bool
candidate_before m n =
    if lt n.score m.score
    then true
    else if lt m.score n.score
    then false
    else m.left_id ∷ m.right_ids <= n.left_id ∷ n.right_ids

-- What the loop over the rules changes: `taken_left`, `taken_right`, `matches`, `counters`.
pub record Resolution : Type 0 where
  pub taken_left : List Text
  pub taken_right : List Text
  pub matches : List Match
  pub counters : Counter

-- `any(right_id in taken_right for right_id in right_ids)`
unfoldable pub any_taken : List Text → List Text → Bool
unfolding contains
any_taken taken [] = false
any_taken taken (r ∷ rs) = contains r taken || any_taken taken rs

-- One round of the loop over the sorted candidates.
unfoldable pub select_one : Match → Resolution → Resolution
unfolding any_taken contains bump
select_one c s =
    if contains c.left_id s.taken_left || any_taken s.taken_right c.right_ids then s else record {
      taken_left = c.left_id ∷ s.taken_left;
      taken_right = c.right_ids ++ s.taken_right;
      matches = s.matches ++ c ∷ [];
      counters = bump (matched c.rule) 1 s.counters;
    }

unfoldable pub select : List Match → Resolution → Resolution
unfolding select_one
select [] s = s
select (c ∷ cs) s = select cs (select_one c s)

-- `[r for r in records if r.id not in taken]`
unfoldable pub available : List Record → List Text → List Record
unfolding contains
available records taken = keep (λ r. not (contains r.id taken)) records

unfoldable pub is_aggregate : RuleId → Bool
is_aggregate RuleId.m3_aggregate = true
is_aggregate _ = false

module _ (tol : Tolerance) (oversized : Bool) (lefts rights : List Record) where
  -- One rule: `none` is the `break`, and the first test the `continue`.
  unfoldable pub apply_rule : RuleId → Resolution → Option Resolution
  apply_rule rule s =
      let free_left = available lefts s.taken_left in
      let free_right = available rights s.taken_right in
      let candidates = generate rule free_left free_right tol in
      let counted = record s {
        counters = bump candidates_evaluated (length candidates) s.counters;
      } in
      if is_aggregate rule && oversized
      then some s
      else if is_empty free_left || is_empty free_right
      then none
      else some (select (sort_by candidate_before candidates) counted)

  unfoldable pub apply_rules : List RuleId → Resolution → Resolution
  apply_rules [] s = s
  apply_rules (rule ∷ rules) s = elim (apply_rule rule s) [
    | none ↦ s
    | some s' ↦ apply_rules rules s'
  ]
