-- ===== src/Engine/Resolve/Maximal.antt =====
-- What the greedy loop leaves: no pair of free records that a rule proposes.
use mathlib.Core.Path.{subst}
use mathlib.Core.Option.{some-injective}
use reconcileflow.Base.{
  ◌≡◌, refl, inl, inr, Bool, false, not, Option, none, some, List, [], ◌∷◌, arith, In, here, there,
  In-keep, Bool-cases, Option-cases, is_empty_of_In,
}
use reconcileflow.Base.Order.{nat_ord, list_ord, contains}
use reconcileflow.Base.Sorting.{In-sort_by}
use reconcileflow.Models.Rule.{RuleId}
use reconcileflow.Models.{Record, Tolerance, Match}
use reconcileflow.Rules.{generate}
use reconcileflow.Engine.Resolve.{
  Resolution, any_taken, available, is_aggregate, apply_rule, apply_rules, candidate_before,
}
use reconcileflow.Engine.Resolve.Growth.{
  Grows, IsBlocked, select-IsBlocked, Outcome, skipped, stopped, applied, apply_rule-Outcome,
  apply_rule-Grows, apply_rules-Grows,
}

-- Neither record of a pair is taken.
pub record AreFree (l r : Record) (s : Resolution) : Type 0 where
  pub left : contains l.id s.taken_left ≡ false
  pub right : contains r.id s.taken_right ≡ false

AreFree-before : (l r : Record) (s t : Resolution) → Grows s t → AreFree l r t → AreFree l r s
AreFree-before l r s t g f = record {
  left = elim (Bool-cases (contains l.id s.taken_left)) [
    | inl e ↦ absurd (cc (g.left l.id e, f.left))
    | inr e ↦ e
  ];
  right = elim (Bool-cases (contains r.id s.taken_right)) [
    | inl e ↦ absurd (cc (g.right r.id e, f.right))
    | inr e ↦ e
  ];
}

-- A rule proposes a pair: wherever both are offered to it, one of its candidates is that pair.
abbrev pub Proposes : Tolerance → RuleId → Record → Record → Type 0
Proposes tol rule l r =
    (lefts rights : List Record)
    → In l lefts
    → In r rights
    → (c : Match) × In c (generate rule lefts rights tol)
      × (c.left_id ≡ l.id)
      × (c.right_ids ≡ r.id ∷ [])

-- A blocked candidate of a pair means that the pair is not free.
blocked_pair :
    (l r : Record) (c : Match) (s : Resolution)
    → c.left_id ≡ l.id
    → c.right_ids ≡ r.id ∷ []
    → IsBlocked c s
    → AreFree l r s
    → ⊥
unfolding any_taken
blocked_pair l r c s el er b f = let h = rw (el, er) at b in ground (arith, f.left, f.right)

module _ (tol : Tolerance) (oversized : Bool) (lefts rights : List Record) (l r : Record)
    (ml : In l lefts) (mr : In r rights) where
  offered :
      (s : Resolution)
      → AreFree l r s
      → In l (available lefts s.taken_left) × In r (available rights s.taken_right)
  unfolding available
  offered s f = (
    In-keep (λ x. not (contains x.id s.taken_left)) (rw f.left refl) ml,
    In-keep (λ x. not (contains x.id s.taken_right)) (rw f.right refl) mr,
  )

  -- A rule does not end the loop while the pair is free, and leaves it not free if it proposes it.
  stopped-not_free :
      (rule : RuleId) (s : Resolution) (o : Option Resolution)
      → Outcome tol oversized lefts rights rule s o
      → o ≡ none
      → AreFree l r s
      → ⊥
  stopped-not_free rule s o (skipped a b) e f = cc
  stopped-not_free rule s o (stopped h) e f =
      let (al, ar) = offered s f in cc (h, is_empty_of_In al, is_empty_of_In ar)
  stopped-not_free rule s o (applied counted x y z) e f = cc

  applied-not_free :
      (rule : RuleId) (s t : Resolution) (o : Option Resolution)
      → Outcome tol oversized lefts rights rule s o
      → o ≡ some t
      → is_aggregate rule ≡ false
      → Proposes tol rule l r
      → AreFree l r s
      → AreFree l r t
      → ⊥
  applied-not_free rule s t o (skipped a b) e na p f f' = cc
  applied-not_free rule s t o (stopped h) e na p f f' = cc
  applied-not_free rule s t o (applied counted x y z) e na p f f' =
      let (al, ar) = offered s f in
      let (c, m, el, er) =
        p (available lefts s.taken_left) (available rights s.taken_right) al ar in
      blocked_pair l r c t el er
        (subst (IsBlocked c) (some-injective _ _ e)
          (select-IsBlocked counted (In-sort_by candidate_before m)))
        f'

  -- After the loop over the rules, no pair is free that one of them proposes.
  pub apply_rules-not_free :
      {rule : RuleId} {rules : List RuleId} (s : Resolution)
      → In rule rules
      → is_aggregate rule ≡ false
      → Proposes tol rule l r
      → AreFree l r (apply_rules tol oversized lefts rights rules s)
      → ⊥
  unfolding apply_rules
  apply_rules-not_free {rule} s (here {xs = rules}) na p f =
      elim (Option-cases (apply_rule tol oversized lefts rights rule s)) [
        | inl e ↦
            stopped-not_free rule s _ (apply_rule-Outcome tol oversized lefts rights rule s) e
              (rw (e, apply_rules) at f)
        | inr (t, e) ↦
            let f' : AreFree l r (apply_rules tol oversized lefts rights rules t) =
              rw (e, apply_rules) at f in
            let ft =
              AreFree-before l r t _ (apply_rules-Grows tol oversized lefts rights rules t) f' in
            applied-not_free rule s t _ (apply_rule-Outcome tol oversized lefts rights rule s) e na
              p (AreFree-before l r s t (apply_rule-Grows tol oversized lefts rights rule s t e) ft)
              ft
      ]
  apply_rules-not_free s (there {y = rule} {xs = rules} m) na p f =
      elim (Option-cases (apply_rule tol oversized lefts rights rule s)) [
        | inl e ↦
            stopped-not_free rule s _ (apply_rule-Outcome tol oversized lefts rights rule s) e
              (rw (e, apply_rules) at f)
        | inr (t, e) ↦ apply_rules-not_free t m na p (rw (e, apply_rules) at f)
      ]
