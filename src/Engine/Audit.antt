-- ===== src/Engine/Audit.antt =====
-- The justification of unmatched records: `_pair_reject_reason` and `_audit_unmatched` of
-- src/reconcileflow/engine.py.
use reconcileflow.Base.{
  Bool, ◌&&◌, not, Option, none, some, List, [], ◌∷◌, ◌++◌, ltb, leb, if◌then◌else◌, length, keep,
  is_empty,
}
use reconcileflow.Base.Order.{Text, nat_ord, list_ord, contains}
use reconcileflow.Decimal.{abs, sub, lt}
use reconcileflow.Models.Counters.{Counter, bump, unmatched_left, unmatched_right, manual_review}
use reconcileflow.Models.{
  Record, Tolerance, Reject, RejectReason, no_candidate, date_out_of_window,
  amount_out_of_tolerance, lost_to_better_candidate, aggregate_not_found, block_too_large,
}
use reconcileflow.Rules.{date_gap, amount_tolerance, collect}

unfoldable pub pair_reject_reason : Record → Record → Tolerance → Bool → Option RejectReason
pair_reject_reason left right tol right_taken =
    if right_taken
    then some lost_to_better_candidate
    else if ltb tol.date_days (date_gap left.value_date right.value_date)
    then some date_out_of_window
    else if lt (amount_tolerance left.amount tol) (abs (sub left.amount right.amount))
    then some amount_out_of_tolerance
    else none

-- What the audit appends to and counts.
pub record Audit : Type 0 where
  pub rejects : List Reject
  pub counters : Counter

module _ (tol : Tolerance) (taken_right : List Text) where
  -- The reason of one pair, if there is one.
  unfoldable pub pair_reject : Record → Record → List Reject
  pair_reject left right =
      elim (pair_reject_reason left right tol (contains right.id taken_right)) [
        | none ↦ []
        | some reason ↦ record { left_id = left.id; right_id = some right.id; reason = reason } ∷ []
      ]

  -- `in_window_free`
  unfoldable pub in_window_free : Record → List Record → List Record
  in_window_free left = keep (λ r.
      not (contains r.id taken_right) && leb (date_gap left.value_date r.value_date) tol.date_days)

  unfoldable pub aggregate_reject : Record → List Record → List Reject
  aggregate_reject left rights =
      if leb 2 tol.max_aggregate_size && leb 2 (length (in_window_free left rights))
      then record { left_id = left.id; right_id = none; reason = aggregate_not_found } ∷ []
      else []

  module _ (oversized : Bool) (rights : List Record) where
    -- The rejects of one unmatched left record.
    unfoldable pub left_rejects : Record → List Reject
    left_rejects left =
        if is_empty rights
        then record { left_id = left.id; right_id = none; reason = no_candidate } ∷ []
        else if oversized
        then record { left_id = left.id; right_id = none; reason = block_too_large } ∷ []
        else collect (pair_reject left) rights ++ aggregate_reject left rights

    -- The counters of one unmatched left record.
    unfoldable pub left_counters : Counter → Counter
    left_counters c =
        let c' = bump unmatched_left 1 c in
        if not (is_empty rights) && oversized then bump manual_review 1 c' else c'

    unfoldable pub audit_left : List Text → Record → Audit → Audit
    audit_left taken_left left a = if contains left.id taken_left then a else record {
      rejects = a.rejects ++ left_rejects left;
      counters = left_counters a.counters;
    }

    unfoldable pub audit_lefts : List Text → List Record → Audit → Audit
    audit_lefts taken_left [] a = a
    audit_lefts taken_left (left ∷ lefts) a =
        audit_lefts taken_left lefts (audit_left taken_left left a)

  unfoldable pub count_rights : List Record → Counter → Counter
  count_rights [] c = c
  count_rights (right ∷ rights) c =
      count_rights rights (if contains right.id taken_right then c else bump unmatched_right 1 c)

unfoldable pub audit_unmatched :
    List Record → List Record → Tolerance → List Text → List Text → Bool → Audit → Audit
audit_unmatched lefts rights tol taken_left taken_right oversized a =
    let a' = audit_lefts tol taken_right oversized rights taken_left lefts a in
    record a' { counters = count_rights tol taken_right rights a'.counters }
