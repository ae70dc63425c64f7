-- ===== src/Models/Digests.antt =====
-- The content hashes of src/reconcileflow/models.py. The hash itself (`hashlib`, cut to 16 hex
-- digits) and the printed form of a decimal are parameters.
use reconcileflow.Base.{◌≡◌, refl, Option, none, some, List, [], ◌∷◌, ◌++◌, map}
use mathlib.Core.List.{append_assoc}
use reconcileflow.Base.Order.{Text, nat_ord, list_ord, ◌<=◌}
use reconcileflow.Base.Sorting.{sort_by}
use reconcileflow.Base.Text.{text, join, decimal_text}
use reconcileflow.Decimal.{Decimal}
use reconcileflow.Models.Rule.{RuleId, rule_order}
use reconcileflow.Models.{
  Tolerance, Match, Reject, MatchResult, RejectReason, no_candidate, date_out_of_window,
  amount_out_of_tolerance, lost_to_better_candidate, aggregate_not_found, block_too_large,
}

-- `_SEP`, U+001F
abbrev pub separator : Text
separator = 0x1f ∷ []

-- `RuleId.name`
abbrev pub rule_name : RuleId → Text
rule_name RuleId.m0_reference = text "M0_REFERENCE"
rule_name RuleId.m1_exact = text "M1_EXACT"
rule_name RuleId.m2_tolerant = text "M2_TOLERANT"
rule_name RuleId.m3_aggregate = text "M3_AGGREGATE"

-- `RejectReason.name`
abbrev pub reason_name : RejectReason → Text
reason_name no_candidate = text "NO_CANDIDATE"
reason_name date_out_of_window = text "DATE_OUT_OF_WINDOW"
reason_name amount_out_of_tolerance = text "AMOUNT_OUT_OF_TOLERANCE"
reason_name lost_to_better_candidate = text "LOST_TO_BETTER_CANDIDATE"
reason_name aggregate_not_found = text "AGGREGATE_NOT_FOUND"
reason_name block_too_large = text "BLOCK_TOO_LARGE"

-- `right_id or ""`
abbrev pub or_empty : Option Text → Text
or_empty none = []
or_empty (some t) = t

module _ (hash : Text → Text) where
  -- `_digest`
  unfoldable pub digest : List Text → Text
  digest parts = hash (join separator parts)

  unfoldable pub reject_fingerprint : Reject → Text
  reject_fingerprint r =
      digest (text "BREAK" ∷ r.left_id ∷ or_empty r.right_id ∷ reason_name r.reason ∷ [])

  module _ (decimal_str : Decimal → Text) where
    unfoldable pub match_fingerprint : Match → Text
    match_fingerprint m = digest (
        text "MATCH"
        ∷ m.left_id
        ∷ join (text ",") m.right_ids
        ∷ rule_name m.rule
        ∷ decimal_str m.amount_residual
        ∷ [])

    unfoldable pub ruleset_id : Tolerance → Text
    ruleset_id tol = hash (
        join (text "|") (
          map rule_name rule_order
          ++ decimal_str tol.amount_abs
            ∷ decimal_str tol.amount_rel
            ∷ decimal_text tol.date_days
            ∷ decimal_text tol.max_aggregate_size
            ∷ decimal_text tol.max_block_candidates
            ∷ []))

    -- `result_hash`: the fingerprints are sorted, so the order of the decisions is forgotten.
    unfoldable pub result_hash : Tolerance → MatchResult → Text
    result_hash tol result = digest (
        ruleset_id tol
        ∷ sort_by ◌<=◌
            (map match_fingerprint result.matches ++ map reject_fingerprint result.rejects))

    -- The identifiers of a match are joined by a comma, which an identifier may contain: for every
    -- digest, a match with the two right ids `a` and `b` has the fingerprint of one with the single
    -- right id `a,b` in their place.
    pub match_fingerprint-joined :
        (m : Match) (a b : Text) (ids : List Text)
        → match_fingerprint (record m { right_ids = a ∷ b ∷ ids })
          ≡ match_fingerprint (record m { right_ids = (a ++ text "," ++ b) ∷ ids })
    unfolding match_fingerprint join
    match_fingerprint-joined m a b [] = refl
    match_fingerprint-joined m a b (c ∷ ids) = simp append_assoc
