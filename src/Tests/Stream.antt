-- ===== src/Tests/Stream.antt =====
-- Runs of a replay, and the theorems of it at a small journal.
use reconcileflow.Base.{arith, inr, false, ◌+◌, ◌≡◌, refl, none, some, List, [], ◌∷◌}
use reconcileflow.Models.Digests.{match_fingerprint, match_fingerprint-joined}
use reconcileflow.Base.Order.{Text, nat_ord, list_ord}
use reconcileflow.Base.Text.{text}
use reconcileflow.Stream.{
  left, right, Entry, arrival, progress, StreamConfig, Decision, empty_block, final, break_type,
  late, both, key_ord,
}
use reconcileflow.Base.Raised.{Result, ok}
use reconcileflow.Stream.Watermark.{Settings}
use reconcileflow.Stream.Emit.{State}
use reconcileflow.Stream.Replay.{initial}
use reconcileflow.Stream.History.{IsChained, Appends}
use reconcileflow.Stream.Chained.{feed-Appends, feed_all-effective}
use reconcileflow.Stream.Arrivals.{feed-redelivery, feed-late}
use reconcileflow.Stream.Ends.{Ends}
use reconcileflow.Stream.Termination.{replay-Ends}
use reconcileflow.Tests.{left_b, right_c, tol_days}
use reconcileflow.Base.Dict.{note_key, find_or, alter}
use reconcileflow.Base.Int.{◌+ℤ◌, ◌-ℤ◌, ◌*ℤ◌}
use reconcileflow.Base.Order.{◌==◌, contains, lex}
use reconcileflow.Base.Sorting.{insert_by, sort_by}
use reconcileflow.Decimal.{
  divide_half_even, digits_from, digits, rounded, add, sub, mul, div, abs, quantize, le, lt, eq,
  of_ℕ,
}
use reconcileflow.Models.Counters.{bump}
use reconcileflow.Rules.{
  base_score, amount_tolerance, date_gap, score_of, collect, present, index_one, index_references,
  reference_match, m0_left, m0_reference, exact_match, m1_pair, m1_exact, tolerant_match, m2_pair,
  m2_tolerant, combinations, range_from, sum_amounts, max_gap, record_ids, aggregate_match,
  m3_combo, in_window, m3_left, m3_aggregate, generate,
}
use reconcileflow.Engine.Resolve.{
  candidate_before, any_taken, select_one, select, available, is_aggregate, apply_rule, apply_rules,
}
use reconcileflow.Engine.Audit.{
  pair_reject_reason, pair_reject, in_window_free, aggregate_reject, left_rejects, left_counters,
  audit_left, audit_lefts, count_rights, audit_unmatched,
}
use reconcileflow.Engine.{
  BlockKey, blocking_key, by_id, is_oversized, resolve_block, block_resolution, reconcile_block,
  add_left, add_right, add_lefts, add_rights, blocks_of, reconcile_blocks, tolerance_or_default,
  reconcile,
}
use reconcileflow.Base.Text.{join, decimal_from, decimal_text}
use reconcileflow.Stream.Watermark.{settings_of, horizon, watermark, same_reference, is_linked}
use reconcileflow.Stream.Components.{
  own_parents, root_from, root, unite, unite_all, group, values, components,
}
use reconcileflow.Base.Dict.{find}
use reconcileflow.Stream.Evaluate.{
  max_horizon, propose, propose_counterparts, propose_match, propose_matches, has_reason,
  add_reason, note_reject, note_rejects, propose_break, propose_breaks, proposals_of,
}
use reconcileflow.Stream.Emit.{find_key, store, fingerprint, decision_id_of, decide, emit}
use reconcileflow.Stream.Settle.{
  remove, max_of, min_of, dates, horizons, span, records_of, decisions_of, all_closing,
  forced_closing, closing_component, closing_components, closing, withdraw, open_records,
  is_changed, emit_changed, emit_all, evaluate, finalise, finalise_all, re_evaluate, settle_round,
  settle,
}
use reconcileflow.Stream.Replay.{
  record_eq, put_block, refusal, admit, settle_block, accept, arrive, settle_blocks, feed, feed_all,
  replay,
}
use reconcileflow.Stream.Results.{is_superseded, status_of, effective_from, effective}

-- A stand-in for the digest.
abbrev no_hash : Text → Text
no_hash t = t

abbrev settings : Settings
settings = record { tol = tol_days; reference_window = 3; lateness = 1; max_component_days = none }

abbrev config : StreamConfig
config = record {
  tolerance = tol_days;
  lateness_days = 1;
  reference_horizon_days = none;
  max_component_days = none;
}

-- What follows the first arrival of the journal.
abbrev later : List Entry
later = arrival right right_c ∷ progress left 40 ∷ progress right 40 ∷ []

abbrev journal : List Entry
journal = arrival left left_b ∷ later

-- Both sources are complete up to a late date.
abbrev advanced : State
advanced = record initial { progress = both (some 40) }

abbrev state_of : Result State → State
state_of (ok st) = st
state_of _ = initial

abbrev after_one : State
unfolding note_key find_or alter ◌+ℤ◌ ◌-ℤ◌ ◌*ℤ◌ ◌==◌ contains lex insert_by sort_by divide_half_even
    digits_from digits rounded add sub mul div abs quantize le lt eq of_ℕ bump base_score
    amount_tolerance date_gap score_of collect present index_one index_references reference_match
    m0_left m0_reference exact_match m1_pair m1_exact tolerant_match m2_pair m2_tolerant
    combinations range_from sum_amounts max_gap record_ids aggregate_match m3_combo in_window
    m3_left m3_aggregate generate candidate_before any_taken select_one select available
    is_aggregate apply_rule apply_rules pair_reject_reason pair_reject in_window_free
    aggregate_reject left_rejects left_counters audit_left audit_lefts count_rights audit_unmatched
    blocking_key by_id is_oversized resolve_block block_resolution reconcile_block add_left
    add_right add_lefts add_rights blocks_of reconcile_blocks tolerance_or_default reconcile join
    decimal_from decimal_text settings_of horizon watermark same_reference is_linked own_parents
    root_from root unite unite_all group values components find max_horizon propose
    propose_counterparts propose_match propose_matches has_reason add_reason note_reject
    note_rejects propose_break propose_breaks proposals_of find_key store fingerprint decision_id_of
    decide emit remove max_of min_of dates horizons span records_of decisions_of all_closing
    forced_closing closing_component closing_components closing withdraw open_records is_changed
    emit_changed emit_all evaluate finalise finalise_all re_evaluate settle_round settle record_eq
    put_block refusal admit settle_block accept arrive settle_blocks feed feed_all replay
    is_superseded status_of effective_from effective
after_one = state_of (feed no_hash settings (arrival left left_b) initial)

abbrev after_all : State
unfolding note_key find_or alter ◌+ℤ◌ ◌-ℤ◌ ◌*ℤ◌ ◌==◌ contains lex insert_by sort_by divide_half_even
    digits_from digits rounded add sub mul div abs quantize le lt eq of_ℕ bump base_score
    amount_tolerance date_gap score_of collect present index_one index_references reference_match
    m0_left m0_reference exact_match m1_pair m1_exact tolerant_match m2_pair m2_tolerant
    combinations range_from sum_amounts max_gap record_ids aggregate_match m3_combo in_window
    m3_left m3_aggregate generate candidate_before any_taken select_one select available
    is_aggregate apply_rule apply_rules pair_reject_reason pair_reject in_window_free
    aggregate_reject left_rejects left_counters audit_left audit_lefts count_rights audit_unmatched
    blocking_key by_id is_oversized resolve_block block_resolution reconcile_block add_left
    add_right add_lefts add_rights blocks_of reconcile_blocks tolerance_or_default reconcile join
    decimal_from decimal_text settings_of horizon watermark same_reference is_linked own_parents
    root_from root unite unite_all group values components find max_horizon propose
    propose_counterparts propose_match propose_matches has_reason add_reason note_reject
    note_rejects propose_break propose_breaks proposals_of find_key store fingerprint decision_id_of
    decide emit remove max_of min_of dates horizons span records_of decisions_of all_closing
    forced_closing closing_component closing_components closing withdraw open_records is_changed
    emit_changed emit_all evaluate finalise finalise_all re_evaluate settle_round settle record_eq
    put_block refusal admit settle_block accept arrive settle_blocks feed feed_all replay
    is_superseded status_of effective_from effective
after_all = state_of (feed_all no_hash settings journal initial)

feed_one : feed no_hash settings (arrival left left_b) initial ≡ ok after_one
unfolding note_key find_or alter ◌+ℤ◌ ◌-ℤ◌ ◌*ℤ◌ ◌==◌ contains lex insert_by sort_by divide_half_even
    digits_from digits rounded add sub mul div abs quantize le lt eq of_ℕ bump base_score
    amount_tolerance date_gap score_of collect present index_one index_references reference_match
    m0_left m0_reference exact_match m1_pair m1_exact tolerant_match m2_pair m2_tolerant
    combinations range_from sum_amounts max_gap record_ids aggregate_match m3_combo in_window
    m3_left m3_aggregate generate candidate_before any_taken select_one select available
    is_aggregate apply_rule apply_rules pair_reject_reason pair_reject in_window_free
    aggregate_reject left_rejects left_counters audit_left audit_lefts count_rights audit_unmatched
    blocking_key by_id is_oversized resolve_block block_resolution reconcile_block add_left
    add_right add_lefts add_rights blocks_of reconcile_blocks tolerance_or_default reconcile join
    decimal_from decimal_text settings_of horizon watermark same_reference is_linked own_parents
    root_from root unite unite_all group values components find max_horizon propose
    propose_counterparts propose_match propose_matches has_reason add_reason note_reject
    note_rejects propose_break propose_breaks proposals_of find_key store fingerprint decision_id_of
    decide emit remove max_of min_of dates horizons span records_of decisions_of all_closing
    forced_closing closing_component closing_components closing withdraw open_records is_changed
    emit_changed emit_all evaluate finalise finalise_all re_evaluate settle_round settle record_eq
    put_block refusal admit settle_block accept arrive settle_blocks feed feed_all replay
    is_superseded status_of effective_from effective
feed_one = refl

feed_journal : feed_all no_hash settings journal initial ≡ ok after_all
unfolding note_key find_or alter ◌+ℤ◌ ◌-ℤ◌ ◌*ℤ◌ ◌==◌ contains lex insert_by sort_by divide_half_even
    digits_from digits rounded add sub mul div abs quantize le lt eq of_ℕ bump base_score
    amount_tolerance date_gap score_of collect present index_one index_references reference_match
    m0_left m0_reference exact_match m1_pair m1_exact tolerant_match m2_pair m2_tolerant
    combinations range_from sum_amounts max_gap record_ids aggregate_match m3_combo in_window
    m3_left m3_aggregate generate candidate_before any_taken select_one select available
    is_aggregate apply_rule apply_rules pair_reject_reason pair_reject in_window_free
    aggregate_reject left_rejects left_counters audit_left audit_lefts count_rights audit_unmatched
    blocking_key by_id is_oversized resolve_block block_resolution reconcile_block add_left
    add_right add_lefts add_rights blocks_of reconcile_blocks tolerance_or_default reconcile join
    decimal_from decimal_text settings_of horizon watermark same_reference is_linked own_parents
    root_from root unite unite_all group values components find max_horizon propose
    propose_counterparts propose_match propose_matches has_reason add_reason note_reject
    note_rejects propose_break propose_breaks proposals_of find_key store fingerprint decision_id_of
    decide emit remove max_of min_of dates horizons span records_of decisions_of all_closing
    forced_closing closing_component closing_components closing withdraw open_records is_changed
    emit_changed emit_all evaluate finalise finalise_all re_evaluate settle_round settle record_eq
    put_block refusal admit settle_block accept arrive settle_blocks feed feed_all replay
    is_superseded status_of effective_from effective
feed_journal = refl

replay-Ends_example : Ends (replay no_hash journal config)
replay-Ends_example = replay-Ends no_hash journal config

feed-Appends_example : Appends initial after_one
feed-Appends_example =
    feed-Appends no_hash settings (arrival left left_b) initial after_one feed_one

feed_all-effective_example :
    IsChained [] after_all.decisions × (after_all.current ≡ effective none after_all.decisions)
feed_all-effective_example = feed_all-effective no_hash settings journal after_all feed_journal

feed-redelivery_example :
    feed no_hash settings (arrival left left_b) after_all
    ≡ ok (record after_all { duplicates = after_all.duplicates + 1 })
feed-redelivery_example =
    feed-redelivery no_hash settings left left_b later initial after_all feed_journal

feed-late_example :
    (st' : State) × (d : Decision) × (feed no_hash settings (arrival left left_b) advanced ≡ ok st')
    × (st'.decisions ≡ d ∷ [])
    × (d.business_key ≡ (left, left_b.id))
    × (d.status ≡ final)
    × (d.decision_type ≡ break_type)
    × (d.input_ids ≡ left_b.id ∷ [])
    × (d.window_end ≡ horizon settings left_b)
    × (d.reason ≡ late)
    × (d.forced ≡ false)
    × (find_key (left, left_b.id) (effective none st'.decisions) ≡ some d)
    × ((k : BlockKey) → find_or empty_block k st'.blocks ≡ find_or empty_block k advanced.blocks)
unfolding note_key find_or alter ◌+ℤ◌ ◌-ℤ◌ ◌*ℤ◌ ◌==◌ contains lex insert_by sort_by divide_half_even
    digits_from digits rounded add sub mul div abs quantize le lt eq of_ℕ bump base_score
    amount_tolerance date_gap score_of collect present index_one index_references reference_match
    m0_left m0_reference exact_match m1_pair m1_exact tolerant_match m2_pair m2_tolerant
    combinations range_from sum_amounts max_gap record_ids aggregate_match m3_combo in_window
    m3_left m3_aggregate generate candidate_before any_taken select_one select available
    is_aggregate apply_rule apply_rules pair_reject_reason pair_reject in_window_free
    aggregate_reject left_rejects left_counters audit_left audit_lefts count_rights audit_unmatched
    blocking_key by_id is_oversized resolve_block block_resolution reconcile_block add_left
    add_right add_lefts add_rights blocks_of reconcile_blocks tolerance_or_default reconcile join
    decimal_from decimal_text settings_of horizon watermark same_reference is_linked own_parents
    root_from root unite unite_all group values components find max_horizon propose
    propose_counterparts propose_match propose_matches has_reason add_reason note_reject
    note_rejects propose_break propose_breaks proposals_of find_key store fingerprint decision_id_of
    decide emit remove max_of min_of dates horizons span records_of decisions_of all_closing
    forced_closing closing_component closing_components closing withdraw open_records is_changed
    emit_changed emit_all evaluate finalise finalise_all re_evaluate settle_round settle record_eq
    put_block refusal admit settle_block accept arrive settle_blocks feed feed_all replay
    is_superseded status_of effective_from effective
feed-late_example =
    feed-late no_hash settings left left_b advanced refl (omega arith) (40, inr refl, omega arith)
      (40, inr refl, omega arith)

match_fingerprint-joined_example :
    match_fingerprint no_hash
      (λ _. [])
      (record (reference_match left_b right_c) { right_ids = text "x" ∷ text "y" ∷ [] })
    ≡ match_fingerprint no_hash
        (λ _. [])
        (record (reference_match left_b right_c) { right_ids = text "x,y" ∷ [] })
match_fingerprint-joined_example =
    match_fingerprint-joined no_hash (λ _. []) (reference_match left_b right_c) (text "x")
      (text "y") []
