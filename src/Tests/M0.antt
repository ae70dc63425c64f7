-- ===== src/Tests/M0.antt =====
-- Runs of the decision rules, and the theorems of them at concrete measurements.
use reconcileflow.Base.{All, ◌≡◌, refl, ◌↔◌, some, List, [], ◌∷◌}
use reconcileflow.Base.Int.{pos}
use reconcileflow.Base.Order.{nat_ord, list_ord}
use reconcileflow.Base.Text.{text}
use reconcileflow.Base.Raised.{ok}
use reconcileflow.Decimal.{Decimal, decimal_zero}
use reconcileflow.M0.Stability.{Repetition}
use reconcileflow.M0.Stable.{IsSteady, TracksAs, assess-stable}
use reconcileflow.M0.Attribution.{Metrics, run_001, borderline, hundredth}
use reconcileflow.M0.Borderline.{HasTurn, decide-borderline}
use reconcileflow.Base.Dict.{note_key, find_or, alter}
use reconcileflow.Base.Order.{◌==◌, contains, lex}
use reconcileflow.Base.Int.{◌+ℤ◌, ◌-ℤ◌, ◌*ℤ◌}
use reconcileflow.Decimal.{
  divide_half_even, digits_from, digits, rounded, add, sub, mul, div, abs, quantize, le, lt, eq,
  of_ℕ,
}
use reconcileflow.Base.Dict.{find}
use reconcileflow.Stream.Evaluate.{
  max_horizon, propose, propose_counterparts, propose_match, propose_matches, has_reason,
  add_reason, note_reject, note_rejects, propose_break, propose_breaks, proposals_of,
}
use reconcileflow.M0.Stability.{
  is_fraction, achievable, are_fractions, check_achievable, repetition, is_subset, same_names,
  all_track, metric_names, values_of, has_few_ops, is_insufficient, worst_of, worst_sd, assess,
}
use reconcileflow.M0.Attribution.{
  is_positive_fraction, thresholds, unresolved, d_of, f_of, e_value, e_of, check, check_measured,
  d_cov_count, is_consistent, check_counts, metrics,
}
use reconcileflow.M0.Verdict.{
  q_value, gate0, classify, moved_by, moved, is_impossible, classify_point, turns, any_turns,
  decide_point, unchecked, decide_valid, decide,
}

-- D is 0.93, two points under its threshold.
abbrev near_threshold : Metrics
near_threshold = record {
  d_cov = hundredth 93;
  d_acc = hundredth 100;
  r = some (hundredth 90);
  t = some (hundredth 81);
  truth_coverage = hundredth 98;
  oracle_capture_failure = hundredth 0;
  n = pos 20000;
  n_residual = some (pos 20000);
}

metrics-near_threshold : metrics near_threshold ≡ ok near_threshold
unfolding note_key find_or alter ◌==◌ contains lex ◌+ℤ◌ ◌-ℤ◌ ◌*ℤ◌ divide_half_even digits_from
    digits rounded add sub mul div abs quantize le lt eq of_ℕ find max_horizon propose
    propose_counterparts propose_match propose_matches has_reason add_reason note_reject
    note_rejects propose_break propose_breaks proposals_of is_fraction achievable are_fractions
    check_achievable repetition is_subset same_names all_track metric_names values_of has_few_ops
    is_insufficient worst_of worst_sd assess is_positive_fraction thresholds unresolved d_of f_of
    e_value e_of check check_measured d_cov_count is_consistent check_counts metrics q_value gate0
    classify moved_by moved is_impossible classify_point turns any_turns decide_point unchecked
    decide_valid decide
metrics-near_threshold = refl

decide-borderline_example :
    ((decide near_threshold run_001).attribution ≡ some borderline)
    ↔ HasTurn run_001 (record {
      d = d_of near_threshold;
      d_acc = near_threshold.d_acc;
      unresolved = unresolved near_threshold;
      r = hundredth 90;
      t = hundredth 81;
    })
unfolding note_key find_or alter ◌==◌ contains lex ◌+ℤ◌ ◌-ℤ◌ ◌*ℤ◌ divide_half_even digits_from
    digits rounded add sub mul div abs quantize le lt eq of_ℕ find max_horizon propose
    propose_counterparts propose_match propose_matches has_reason add_reason note_reject
    note_rejects propose_break propose_breaks proposals_of is_fraction achievable are_fractions
    check_achievable repetition is_subset same_names all_track metric_names values_of has_few_ops
    is_insufficient worst_of worst_sd assess is_positive_fraction thresholds unresolved d_of f_of
    e_value e_of check check_measured d_cov_count is_consistent check_counts metrics q_value gate0
    classify moved_by moved is_impossible classify_point turns any_turns decide_point unchecked
    decide_valid decide
decide-borderline_example =
    decide-borderline near_threshold run_001 (hundredth 90) (hundredth 81) refl refl refl

decide-near_threshold : (decide near_threshold run_001).attribution ≡ some borderline
unfolding note_key find_or alter ◌==◌ contains lex ◌+ℤ◌ ◌-ℤ◌ ◌*ℤ◌ divide_half_even digits_from
    digits rounded add sub mul div abs quantize le lt eq of_ℕ find max_horizon propose
    propose_counterparts propose_match propose_matches has_reason add_reason note_reject
    note_rejects propose_break propose_breaks proposals_of is_fraction achievable are_fractions
    check_achievable repetition is_subset same_names all_track metric_names values_of has_few_ops
    is_insufficient worst_of worst_sd assess is_positive_fraction thresholds unresolved d_of f_of
    e_value e_of check check_measured d_cov_count is_consistent check_counts metrics q_value gate0
    classify moved_by moved is_impossible classify_point turns any_turns decide_point unchecked
    decide_valid decide
decide-near_threshold = refl

abbrev steady : Repetition
steady = record { metrics = (text "d", hundredth 93) ∷ []; deterministic_gt_ops = pos 10000 }

abbrev five : List Repetition
five = steady ∷ steady ∷ steady ∷ steady ∷ steady ∷ []

-- A stand-in for the deviation.
abbrev no_deviation : List Decimal → Decimal
no_deviation values = decimal_zero

assess-stable_example :
    IsSteady no_deviation five × IsSteady no_deviation five × All (TracksAs five) five
unfolding note_key find_or alter ◌==◌ contains lex ◌+ℤ◌ ◌-ℤ◌ ◌*ℤ◌ divide_half_even digits_from
    digits rounded add sub mul div abs quantize le lt eq of_ℕ find max_horizon propose
    propose_counterparts propose_match propose_matches has_reason add_reason note_reject
    note_rejects propose_break propose_breaks proposals_of is_fraction achievable are_fractions
    check_achievable repetition is_subset same_names all_track metric_names values_of has_few_ops
    is_insufficient worst_of worst_sd assess is_positive_fraction thresholds unresolved d_of f_of
    e_value e_of check check_measured d_cov_count is_consistent check_counts metrics q_value gate0
    classify moved_by moved is_impossible classify_point turns any_turns decide_point unchecked
    decide_valid decide
assess-stable_example = assess-stable no_deviation five five refl
