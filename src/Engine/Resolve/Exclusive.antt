-- ===== src/Engine/Resolve/Exclusive.antt =====
-- The matches that the loop appends, and what it records as taken.
use mathlib.Core.List.{append_assoc}
use mathlib.Core.Path.{subst}
use mathlib.Core.Option.{some-injective}
use reconcileflow.Base.{
  ◌≡◌, refl, ◌∙◌, inl, inr, Bool, false, ◌||◌, Option, some, List, [], ◌∷◌, ◌++◌, All, All-append,
  Bool-cases, Option-cases, ||-false,
}
use reconcileflow.Base.Order.{Text, nat_ord, list_ord, contains}
use reconcileflow.Base.Sorting.{All-sort_by}
use reconcileflow.Models.Rule.{RuleId}
use reconcileflow.Models.{Record, Tolerance, Match}
use reconcileflow.Rules.{generate}
use reconcileflow.Engine.Resolve.{
  Resolution, any_taken, select_one, select, available, apply_rule, apply_rules, candidate_before,
}
use reconcileflow.Engine.Resolve.Growth.{Outcome, skipped, stopped, applied, apply_rule-Outcome}

-- What is taken after the matches of a list, in order.
unfoldable pub lefts_of : List Text → List Match → List Text
lefts_of taken [] = taken
lefts_of taken (m ∷ ms) = lefts_of (m.left_id ∷ taken) ms

unfoldable pub rights_of : List Text → List Match → List Text
rights_of taken [] = taken
rights_of taken (m ∷ ms) = rights_of (m.right_ids ++ taken) ms

-- Each match takes a left record and right records that none before it has taken.
abbrev pub IsExclusive : List Text → List Text → List Match → Type 0
IsExclusive left right [] = Unit
IsExclusive left right (m ∷ ms) =
    (contains m.left_id left ≡ false)
    × (any_taken right m.right_ids ≡ false)
    × IsExclusive (m.left_id ∷ left) (m.right_ids ++ right) ms

lefts_of-snoc :
    (taken : List Text) (ms : List Match) (m : Match)
    → lefts_of taken (ms ++ m ∷ []) ≡ m.left_id ∷ lefts_of taken ms
unfolding lefts_of
lefts_of-snoc taken [] m = refl
lefts_of-snoc taken (n ∷ ms) m = lefts_of-snoc (n.left_id ∷ taken) ms m

rights_of-snoc :
    (taken : List Text) (ms : List Match) (m : Match)
    → rights_of taken (ms ++ m ∷ []) ≡ m.right_ids ++ rights_of taken ms
unfolding rights_of
rights_of-snoc taken [] m = refl
rights_of-snoc taken (n ∷ ms) m = rights_of-snoc (n.right_ids ++ taken) ms m

IsExclusive-snoc :
    (left right : List Text) (ms : List Match) (m : Match)
    → IsExclusive left right ms
    → contains m.left_id (lefts_of left ms) ≡ false
    → any_taken (rights_of right ms) m.right_ids ≡ false
    → IsExclusive left right (ms ++ m ∷ [])
unfolding lefts_of rights_of
IsExclusive-snoc left right [] m e hl hr = (hl, hr, tt)
IsExclusive-snoc left right (n ∷ ms) m e hl hr =
    (e.0, e.1, IsExclusive-snoc (n.left_id ∷ left) (n.right_ids ++ right) ms m e.2 hl hr)

-- The state of a block that began with the matches `base`: what was appended since accounts for all
-- that is taken, each record once, and every appended match has the property `P`.
pub record IsResolved (P : Match → Type 0) (base : List Match) (s : Resolution) : Type 0 where
  pub new : List Match
  pub appended : s.matches ≡ base ++ new
  pub left_ids : s.taken_left ≡ lefts_of [] new
  pub right_ids : s.taken_right ≡ rights_of [] new
  pub exclusive : IsExclusive [] [] new
  pub licensed : All P new

module _ (P : Match → Type 0) (base : List Match) where
  take-IsResolved :
      (c : Match) (s : Resolution)
      → P c
      → (contains c.left_id s.taken_left || any_taken s.taken_right c.right_ids) ≡ false
      → IsResolved P base s
      → IsResolved P base (record s {
        taken_left = c.left_id ∷ s.taken_left;
        taken_right = c.right_ids ++ s.taken_right;
        matches = s.matches ++ c ∷ [];
      })
  take-IsResolved c s p free v =
      let (fl, fr) =
        ||-false (contains c.left_id s.taken_left) (any_taken s.taken_right c.right_ids) free in
      record {
        new = v.new ++ c ∷ [];
        appended = rw v.appended (append_assoc base v.new (c ∷ []));
        left_ids = rw (lefts_of-snoc [] v.new c, v.left_ids) refl;
        right_ids = rw (rights_of-snoc [] v.new c, v.right_ids) refl;
        exclusive =
            IsExclusive-snoc [] [] v.new c v.exclusive (rw (← v.left_ids) fl)
              (rw (← v.right_ids) fr);
        licensed = All-append P v.new (c ∷ []) v.licensed (p, tt);
      }

  counters-IsResolved :
      (s t : Resolution)
      → t.matches ≡ s.matches
      → t.taken_left ≡ s.taken_left
      → t.taken_right ≡ s.taken_right
      → IsResolved P base s
      → IsResolved P base t
  counters-IsResolved s t em el er v = record {
    new = v.new;
    appended = em ∙ v.appended;
    left_ids = el ∙ v.left_ids;
    right_ids = er ∙ v.right_ids;
    exclusive = v.exclusive;
    licensed = v.licensed;
  }

  select_one-IsResolved :
      (c : Match) (s : Resolution) → P c → IsResolved P base s → IsResolved P base (select_one c s)
  unfolding select_one
  select_one-IsResolved c s p v =
      elim (Bool-cases (contains c.left_id s.taken_left || any_taken s.taken_right c.right_ids)) [
        | inl e ↦ rw e v
        | inr e ↦ rw e (counters-IsResolved _ _ refl refl refl (take-IsResolved c s p e v))
      ]

  pub select-IsResolved :
      (cs : List Match) (s : Resolution)
      → All P cs
      → IsResolved P base s
      → IsResolved P base (select cs s)
  unfolding select
  select-IsResolved [] s h v = v
  select-IsResolved (c ∷ cs) s h v =
      select-IsResolved cs (select_one c s) h.1 (select_one-IsResolved c s h.0 v)

  module _ (tol : Tolerance) (oversized : Bool) (lefts rights : List Record)
      (licence : (rule : RuleId) (taken_left taken_right : List Text)
        → All P
            (generate rule (available lefts taken_left) (available rights taken_right) tol)) where
    Outcome-IsResolved :
        (rule : RuleId) (s t : Resolution) (o : Option Resolution)
        → Outcome tol oversized lefts rights rule s o
        → o ≡ some t
        → IsResolved P base s
        → IsResolved P base t
    Outcome-IsResolved rule s t o (skipped a b) e v =
        subst (IsResolved P base) (some-injective _ _ e) v
    Outcome-IsResolved rule s t o (stopped h) e v = cc
    Outcome-IsResolved rule s t o (applied counted l r m) e v =
        subst (IsResolved P base) (some-injective _ _ e) (
          select-IsResolved _ counted
            (All-sort_by P candidate_before _ (licence rule s.taken_left s.taken_right))
            (counters-IsResolved s counted m l r v))

    pub apply_rules-IsResolved :
        (rules : List RuleId) (s : Resolution)
        → IsResolved P base s
        → IsResolved P base (apply_rules tol oversized lefts rights rules s)
    unfolding apply_rules
    apply_rules-IsResolved [] s v = v
    apply_rules-IsResolved (rule ∷ rules) s v =
        elim (Option-cases (apply_rule tol oversized lefts rights rule s)) [
          | inl e ↦ rw (e, apply_rules) v
          | inr (t, e) ↦
              rw (e, apply_rules)
                (apply_rules-IsResolved rules t (
                  Outcome-IsResolved rule s t _
                    (apply_rule-Outcome tol oversized lefts rights rule s) e v))
        ]
