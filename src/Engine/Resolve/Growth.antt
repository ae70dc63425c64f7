-- ===== src/Engine/Resolve/Growth.antt =====
-- What is taken stays taken: through a candidate, a rule, and the loop over the rules.
use mathlib.Core.Path.{subst}
use mathlib.Core.Option.{some-injective}
use reconcileflow.Base.{
  ◌≡◌, refl, inl, inr, Bool, true, ◌&&◌, ◌||◌, Option, none, some, List, [], ◌∷◌, arith, In, here,
  there, Bool-cases, Option-cases, is_empty,
}
use reconcileflow.Base.Order.{Text, nat_ord, list_ord, contains}
use reconcileflow.Base.Membership.{contains-append_right, contains-cons_self, contains-cons_of}
use reconcileflow.Base.Sorting.{sort_by}
use reconcileflow.Models.Rule.{RuleId}
use reconcileflow.Models.{Record, Tolerance, Match}
use reconcileflow.Rules.{generate}
use reconcileflow.Engine.Resolve.{
  Resolution, any_taken, select_one, select, available, is_aggregate, apply_rule, apply_rules,
  candidate_before,
}

pub record Grows (s t : Resolution) : Type 0 where
  pub left : (x : Text) → contains x s.taken_left ≡ true → contains x t.taken_left ≡ true
  pub right : (x : Text) → contains x s.taken_right ≡ true → contains x t.taken_right ≡ true

pub Grows-refl : (s : Resolution) → Grows s s
Grows-refl s = record { left = λ x h. h; right = λ x h. h }

pub Grows-trans : (s t u : Resolution) → Grows s t → Grows t u → Grows s u
Grows-trans s t u g h = record {
  left = λ x k. h.left x (g.left x k);
  right = λ x k. h.right x (g.right x k);
}

pub select_one-Grows : (c : Match) (s : Resolution) → Grows s (select_one c s)
unfolding select_one
select_one-Grows c s =
    elim (Bool-cases (contains c.left_id s.taken_left || any_taken s.taken_right c.right_ids)) [
      | inl e ↦ rw e (Grows-refl s)
      | inr e ↦ rw e (record {
        left = λ x h. contains-cons_of x c.left_id s.taken_left h;
        right = λ x h. contains-append_right x c.right_ids s.taken_right h;
      })
    ]

pub select-Grows : (cs : List Match) (s : Resolution) → Grows s (select cs s)
unfolding select
select-Grows [] s = Grows-refl s
select-Grows (c ∷ cs) s =
    Grows-trans s (select_one c s) (select cs (select_one c s)) (select_one-Grows c s)
      (select-Grows cs (select_one c s))

any_taken-Grows :
    (s t : Resolution) (ids : List Text)
    → Grows s t
    → any_taken s.taken_right ids ≡ true
    → any_taken t.taken_right ids ≡ true
unfolding any_taken
any_taken-Grows s t [] g h = h
any_taken-Grows s t (r ∷ rs) g h = elim (Bool-cases (contains r s.taken_right)) [
  | inl e ↦ rw (g.right r e) refl
  | inr e ↦ ground (arith, any_taken-Grows s t rs g)
]

-- A candidate is blocked: its left record, or one of its right records, is taken.
abbrev pub IsBlocked : Match → Resolution → Type 0
IsBlocked c s = (contains c.left_id s.taken_left || any_taken s.taken_right c.right_ids) ≡ true

pub IsBlocked-Grows : (c : Match) (s t : Resolution) → Grows s t → IsBlocked c s → IsBlocked c t
IsBlocked-Grows c s t g h = elim (Bool-cases (contains c.left_id s.taken_left)) [
  | inl e ↦ rw (g.left c.left_id e) refl
  | inr e ↦ ground (arith, any_taken-Grows s t c.right_ids g)
]

select_one-IsBlocked : (c : Match) (s : Resolution) → IsBlocked c (select_one c s)
unfolding select_one
select_one-IsBlocked c s =
    elim (Bool-cases (contains c.left_id s.taken_left || any_taken s.taken_right c.right_ids)) [
      | inl e ↦ rw e e
      | inr e ↦ rw (e, contains-cons_self c.left_id s.taken_left) refl
    ]

-- The greedy choice is maximal: after it, every candidate that it was given is blocked.
pub select-IsBlocked :
    {c : Match} {cs : List Match} (s : Resolution) → In c cs → IsBlocked c (select cs s)
unfolding select
select-IsBlocked {c} s (here {xs = cs}) =
    IsBlocked-Grows c (select_one c s) (select cs (select_one c s))
      (select-Grows cs (select_one c s)) (select_one-IsBlocked c s)
select-IsBlocked s (there {y = d} m) = select-IsBlocked (select_one d s) m

module _ (tol : Tolerance) (oversized : Bool) (lefts rights : List Record) where
  -- What one rule does: it is skipped, it ends the loop for want of records, or it selects from its
  -- sorted candidates.
  pub data Outcome (rule : RuleId) (s : Resolution) : Option Resolution → Type 0 where
    skipped : is_aggregate rule ≡ true → oversized ≡ true → Outcome rule s (some s)
    stopped :
        (is_empty (available lefts s.taken_left) || is_empty (available rights s.taken_right))
          ≡ true
        → Outcome rule s none
    applied :
        (counted : Resolution)
        → counted.taken_left ≡ s.taken_left
        → counted.taken_right ≡ s.taken_right
        → counted.matches ≡ s.matches
        → Outcome rule s (
            some (
              select
                (sort_by candidate_before (
                  generate rule
                    (available lefts s.taken_left)
                    (available rights s.taken_right)
                    tol))
                counted))

  pub apply_rule-Outcome :
      (rule : RuleId) (s : Resolution)
      → Outcome rule s (apply_rule tol oversized lefts rights rule s)
  unfolding apply_rule
  apply_rule-Outcome rule s = elim (Bool-cases (is_aggregate rule && oversized)) [
    | inl e ↦ rw e (skipped (ground arith) (ground arith))
    | inr e ↦
        rw e
          (elim (Bool-cases (
            is_empty (available lefts s.taken_left) || is_empty (available rights s.taken_right))) [
              | inl h ↦ rw h (stopped h)
              | inr h ↦ rw h (applied _ refl refl refl)
            ])
  ]

  Outcome-Grows :
      (rule : RuleId) (s t : Resolution) (o : Option Resolution)
      → Outcome rule s o
      → o ≡ some t
      → Grows s t
  Outcome-Grows rule s t o (skipped a b) e = subst (Grows s) (some-injective _ _ e) (Grows-refl s)
  Outcome-Grows rule s t o (stopped h) e = cc
  Outcome-Grows rule s t o (applied counted l r m) e = subst (Grows s) (some-injective _ _ e) (
      Grows-trans s counted _ (record { left = λ x h. rw l h; right = λ x h. rw r h })
        (select-Grows _ counted))

  pub apply_rule-Grows :
      (rule : RuleId) (s t : Resolution)
      → apply_rule tol oversized lefts rights rule s ≡ some t
      → Grows s t
  apply_rule-Grows rule s t e = Outcome-Grows rule s t _ (apply_rule-Outcome rule s) e

  pub apply_rules-Grows :
      (rules : List RuleId) (s : Resolution)
      → Grows s (apply_rules tol oversized lefts rights rules s)
  unfolding apply_rules
  apply_rules-Grows [] s = Grows-refl s
  apply_rules-Grows (rule ∷ rules) s =
      elim (Option-cases (apply_rule tol oversized lefts rights rule s)) [
        | inl e ↦ rw (e, apply_rules) (Grows-refl s)
        | inr (t, e) ↦
            rw (e, apply_rules)
              (Grows-trans s t (apply_rules tol oversized lefts rights rules t)
                (apply_rule-Grows rule s t e) (apply_rules-Grows rules t))
      ]
