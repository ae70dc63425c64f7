-- ===== src/Stream/Evaluate.antt =====
-- `_evaluate` of src/reconcileflow/stream.py: what the engine says now of each open record.
use reconcileflow.Base.{
  ℕ, max, Bool, false, ◌||◌, none, some, List, [], ◌∷◌, ◌++◌, leb, eqb, if◌then◌else◌,
}
use reconcileflow.Base.Order.{Text, nat_ord, list_ord, contains}
use reconcileflow.Base.Sorting.{sort_by, by_key}
use reconcileflow.Base.Dict.{Dict, keys, find_or, alter}
use reconcileflow.Models.{
  Record, Match, Reject, RejectReason, no_candidate, date_out_of_window, amount_out_of_tolerance,
  lost_to_better_candidate, aggregate_not_found, block_too_large,
}
use reconcileflow.Rules.{date_gap}
use reconcileflow.Engine.{reconcile}
use reconcileflow.Stream.{
  Side, left, right, BusinessKey, key_ord, BlockState, Proposal, by_rule, as_counterpart, rejected,
  match_type, break_type,
}
use reconcileflow.Base.Dict.{find}
use reconcileflow.Base.Raised.{Result, ok, or_key_error, ◌>>=◌}
use reconcileflow.Stream.Watermark.{Settings, horizon}
use reconcileflow.Stream.Components.{values}

abbrev pub reason_code : RejectReason → ℕ
reason_code no_candidate = 1
reason_code date_out_of_window = 2
reason_code amount_out_of_tolerance = 3
reason_code lost_to_better_candidate = 4
reason_code aggregate_not_found = 5
reason_code block_too_large = 6

-- The largest horizon of some right records and a date.
unfoldable pub max_horizon : Settings → Dict Text Record → List Text → ℕ → Result ℕ
max_horizon s rights [] h = ok h
max_horizon s rights (r ∷ rs) h = do
  right_record ← or_key_error (find r rights)
  max_horizon s rights rs (max h (horizon s right_record))

abbrev pub Proposals : Type 0
Proposals = Dict BusinessKey Proposal

unfoldable pub propose : BusinessKey → Proposal → Proposals → Proposals
propose key p = alter p key (λ _. p)

unfoldable pub propose_counterparts : Proposal → List Text → Proposals → Proposals
propose_counterparts p [] d = d
propose_counterparts p (r ∷ rs) d = propose_counterparts p rs (propose (right, r) p d)

unfoldable pub propose_match :
    Settings → Dict Text Record → Dict Text Record → Match → Proposals → Result Proposals
propose_match s lefts rights m d = do
  l ← or_key_error (find m.left_id lefts)
  window_end ← max_horizon s rights m.right_ids (horizon s l)
  let inputs = m.left_id ∷ m.right_ids
  let p : Proposal = record {
    decision_type = match_type;
    input_ids = inputs;
    reason = by_rule m.rule;
    window_end = window_end;
  }
  ok (
      propose_counterparts (record p { reason = as_counterpart }) m.right_ids
        (propose (left, m.left_id) p d))

unfoldable pub propose_matches :
    Settings → Dict Text Record → Dict Text Record → List Match → Proposals → Result Proposals
propose_matches s lefts rights [] d = ok d
propose_matches s lefts rights (m ∷ ms) d = do
  d' ← propose_match s lefts rights m d
  propose_matches s lefts rights ms d'

-- The set of reasons of each record, as a list without repetition.
abbrev pub Reasons : Type 0
Reasons = Dict BusinessKey (List RejectReason)

unfoldable pub has_reason : RejectReason → List RejectReason → Bool
has_reason r [] = false
has_reason r (q ∷ qs) = eqb (reason_code q) (reason_code r) || has_reason r qs

unfoldable pub add_reason : BusinessKey → RejectReason → Reasons → Reasons
add_reason key r = alter [] key (λ found. if has_reason r found then found else found ++ r ∷ [])

-- Only pairs within the date window count.
unfoldable pub note_reject :
    Settings → Dict Text Record → Dict Text Record → Reject → Reasons → Result Reasons
note_reject s lefts rights x d = elim x.right_id [
  | none ↦ ok (add_reason (left, x.left_id) x.reason d)
  | some right_id ↦ do
    l ← or_key_error (find x.left_id lefts)
    r ← or_key_error (find right_id rights)
    ok (
        if leb (date_gap l.value_date r.value_date) s.tol.date_days
        then add_reason (right, right_id) x.reason (add_reason (left, x.left_id) x.reason d)
        else d)
]

unfoldable pub note_rejects :
    Settings → Dict Text Record → Dict Text Record → List Reject → Reasons → Result Reasons
note_rejects s lefts rights [] d = ok d
note_rejects s lefts rights (x ∷ xs) d = do
  d' ← note_reject s lefts rights x d
  note_rejects s lefts rights xs d'

-- A record that no match names is a break, for its reasons in order, or for want of a candidate.
unfoldable pub propose_break : Settings → Reasons → Side → Text → Record → Proposals → Proposals
propose_break s reasons side id r d =
    let key : BusinessKey = (side, id) in
    if contains key (keys d)
    then d
    else propose key
        (record {
          decision_type = break_type;
          input_ids = id ∷ [];
          reason =
              rejected (sort_by (by_key reason_code) (find_or (no_candidate ∷ []) key reasons));
          window_end = horizon s r;
        })
        d

unfoldable pub propose_breaks :
    Settings → Reasons → Side → List (Text × Record) → Proposals → Proposals
propose_breaks s reasons side [] d = d
propose_breaks s reasons side ((id, r) ∷ pool) d =
    propose_breaks s reasons side pool (propose_break s reasons side id r d)

unfoldable pub proposals_of : Settings → BlockState → Result Proposals
proposals_of s b = do
  let lefts = b.pool.on_left
  let rights = b.pool.on_right
  let result = reconcile (values lefts) (values rights) (some s.tol)
  d ← propose_matches s lefts rights result.matches []
  reasons ← note_rejects s lefts rights result.rejects []
  ok (propose_breaks s reasons right rights (propose_breaks s reasons left lefts d))
