-- ===== src/Tests/Engine.antt =====
-- Runs of the engine, and the theorems of it at the README's example.
use mathlib.Core.List.{Nodup, Mem, Memᴰ, Pairwise}
use mathlib.Core.List.Perm
use mathlib.Core.Logic.{∥∥₁_elim}
use reconcileflow.Base.{
  ◌≡◌, refl, arith, Bool, true, not, ◌&&◌, &&-left, &&-right, none, some, List, [], ◌∷◌, map, In,
  here, there, false, All,
}
use reconcileflow.Models.{Tolerance, Match, MatchResult, block_too_large}
use reconcileflow.Models.Rule.{RuleId}
use reconcileflow.Base.Order.{Text, nat_ord, list_ord, ==_refl}
use reconcileflow.Engine.{unresolved}
use reconcileflow.Engine.Invariance.{reconcile-perm, record_id}
use reconcileflow.Engine.Completeness.{IsExplained, every_left-IsExplained}
use reconcileflow.Engine.Soundness.{reconcile_block-matches}
use reconcileflow.Engine.Resolve.Exclusive.{IsExclusive}
use reconcileflow.Rules.Licence.{Licensed, AllLicensed}
use reconcileflow.Rules.Soundness.{generate-Licensed}
use reconcileflow.Engine.Resolve.Growth.{IsBlocked, select-IsBlocked}
use reconcileflow.Engine.Resolve.Maximal.{AreFree}
use reconcileflow.Engine.Invariance.{find_or-blocks_of, in_block}
use reconcileflow.Engine.Reasons.{
  no_free_reference, no_free_exact, no_free_tolerant, pair_has_reason, oversized-deferred,
  every_pair_audited,
}
use reconcileflow.Models.{RejectReason}
use reconcileflow.Base.{keep}
use reconcileflow.Tests.{left_two, right_three, tol_days, left_a, left_b, right_a, right_c}
use reconcileflow.Base.Dict.{note_key, find_or, alter}
use reconcileflow.Base.Int.{◌+ℤ◌, ◌-ℤ◌, ◌*ℤ◌}
use reconcileflow.Base.Order.{◌==◌, contains, lex}
use reconcileflow.Base.Sorting.{insert_by, sort_by}
use reconcileflow.Decimal.{
  divide_half_even, digits_from, digits, rounded, add, sub, mul, div, abs, quantize, le, lt, eq,
  of_ℕ,
}
use reconcileflow.Models.Counters.{bump}
use reconcileflow.Rules.{
  base_score, amount_tolerance, date_gap, score_of, collect, present, index_one, index_references,
  reference_match, m0_left, m0_reference, exact_match, m1_pair, m1_exact, tolerant_match, m2_pair,
  m2_tolerant, combinations, range_from, sum_amounts, max_gap, record_ids, aggregate_match,
  m3_combo, in_window, m3_left, m3_aggregate, generate,
}
use reconcileflow.Engine.Resolve.{
  candidate_before, any_taken, select_one, select, available, is_aggregate, apply_rule, apply_rules,
}
use reconcileflow.Engine.Audit.{
  pair_reject_reason, pair_reject, in_window_free, aggregate_reject, left_rejects, left_counters,
  audit_left, audit_lefts, count_rights, audit_unmatched,
}
use reconcileflow.Engine.{
  blocking_key, by_id, is_oversized, resolve_block, block_resolution, reconcile_block, add_left,
  add_right, add_lefts, add_rights, blocks_of, reconcile_blocks, tolerance_or_default, reconcile,
}

is_distinct : List Text → Bool
is_distinct [] = true
is_distinct (x ∷ xs) = not (contains x xs) && is_distinct xs

contains_of_Mem : (x : Text) (xs : List Text) → Mem x xs → contains x xs ≡ true
unfolding contains
contains_of_Mem x xs m =
    let p : IsProp (contains x xs ≡ true) = hlevel in ∥∥₁_elim m p (λ d. go xs d)
  where
    go : (xs : List Text) → Memᴰ x xs → contains x xs ≡ true
    go [] d = elim d [ ]
    go (y ∷ ys) (Memᴰ.head e) = rw (e, ==_refl y) refl
    go (y ∷ ys) (Memᴰ.tail d) = ground (arith, go ys d)

is_distinct-Nodup : (xs : List Text) → is_distinct xs ≡ true → Nodup xs
unfolding is_distinct
is_distinct-Nodup [] h = Pairwise.nil
is_distinct-Nodup (x ∷ xs) h =
    Pairwise.cons
      (λ y m e.
        let k = contains_of_Mem x xs (rw e m) in
        let l = &&-left (not (contains x xs)) (is_distinct xs) h in ground arith)
      (is_distinct-Nodup xs (&&-right (not (contains x xs)) (is_distinct xs) h))

distinct_left : Nodup (map record_id left_two)
unfolding is_distinct contains lex ◌==◌
distinct_left = is_distinct-Nodup (map record_id left_two) refl

distinct_right : Nodup (map record_id right_three)
unfolding is_distinct contains lex ◌==◌
distinct_right = is_distinct-Nodup (map record_id right_three) refl

reconcile-perm_example :
    reconcile left_two right_three (some tol_days)
    ≡ reconcile (left_b ∷ left_a ∷ []) right_three (some tol_days)
reconcile-perm_example =
    reconcile-perm left_two right_three (left_b ∷ left_a ∷ []) right_three (some tol_days)
      (Perm.swap left_b left_a []) (Perm.refl right_three) distinct_left distinct_right

every_left-IsExplained_example : IsExplained left_b (reconcile left_two right_three (some tol_days))
every_left-IsExplained_example =
    every_left-IsExplained left_two right_three (some tol_days) left_b (there here)

-- A state of the result before any block.
abbrev nothing : MatchResult
nothing = record { matches = []; rejects = []; counters = [] }

-- One pair per rule but M3, and a bound that three rights exceed.
abbrev tol_small : Tolerance
tol_small = record tol_days { date_days = 0; max_block_candidates = 2 }

reconcile_block-matches_example :
    (new : List Match) × ((reconcile_block tol_days (left_two, right_three) nothing).matches ≡ new)
    × IsExclusive [] [] new
    × All (Licensed tol_days (by_id left_two) (by_id right_three)) new
reconcile_block-matches_example = reconcile_block-matches tol_days left_two right_three nothing

find_or-blocks_of_example :
    find_or ([], []) (left_a.account ∷ []) (blocks_of left_two right_three) ≡ (
      keep (in_block (left_a.account ∷ [])) left_two,
      keep (in_block (left_a.account ∷ [])) right_three,
    )
find_or-blocks_of_example = find_or-blocks_of (left_a.account ∷ []) left_two right_three

generate-Licensed_example : AllLicensed tol_days left_two right_three (
    generate RuleId.m3_aggregate
      (keep (λ r. true) left_two)
      (keep (λ r. true) right_three)
      tol_days)
generate-Licensed_example =
    generate-Licensed tol_days left_two right_three (λ r. true) (λ r. true) RuleId.m3_aggregate

abbrev pair_b : Match
unfolding reference_match
pair_b = reference_match left_b right_c

select-IsBlocked_example : IsBlocked pair_b (select (pair_b ∷ []) (unresolved nothing))
select-IsBlocked_example = select-IsBlocked {c = pair_b} (unresolved nothing) here

free_a :
    contains left_a.id (resolve_block tol_small (left_a ∷ []) (right_a ∷ []) nothing).taken_left
    ≡ false
unfolding note_key find_or alter ◌+ℤ◌ ◌-ℤ◌ ◌*ℤ◌ ◌==◌ contains lex insert_by sort_by divide_half_even
    digits_from digits rounded add sub mul div abs quantize le lt eq of_ℕ bump base_score
    amount_tolerance date_gap score_of collect present index_one index_references reference_match
    m0_left m0_reference exact_match m1_pair m1_exact tolerant_match m2_pair m2_tolerant
    combinations range_from sum_amounts max_gap record_ids aggregate_match m3_combo in_window
    m3_left m3_aggregate generate candidate_before any_taken select_one select available
    is_aggregate apply_rule apply_rules pair_reject_reason pair_reject in_window_free
    aggregate_reject left_rejects left_counters audit_left audit_lefts count_rights audit_unmatched
    blocking_key by_id is_oversized resolve_block block_resolution reconcile_block add_left
    add_right add_lefts add_rights blocks_of reconcile_blocks tolerance_or_default reconcile
free_a = refl

pair_has_reason_example :
    (reason : RejectReason) × (pair_reject_reason left_a right_a tol_small (
        contains right_a.id
          (resolve_block tol_small (left_a ∷ []) (right_a ∷ []) nothing).taken_right)
      ≡ some reason)
pair_has_reason_example =
    pair_has_reason tol_small (left_a ∷ []) (right_a ∷ []) nothing left_a right_a here here free_a

no_free_reference_example :
    ¬ AreFree left_b right_c (resolve_block tol_small left_two right_three nothing)
unfolding note_key find_or alter ◌+ℤ◌ ◌-ℤ◌ ◌*ℤ◌ ◌==◌ contains lex insert_by sort_by divide_half_even
    digits_from digits rounded add sub mul div abs quantize le lt eq of_ℕ bump base_score
    amount_tolerance date_gap score_of collect present index_one index_references reference_match
    m0_left m0_reference exact_match m1_pair m1_exact tolerant_match m2_pair m2_tolerant
    combinations range_from sum_amounts max_gap record_ids aggregate_match m3_combo in_window
    m3_left m3_aggregate generate candidate_before any_taken select_one select available
    is_aggregate apply_rule apply_rules pair_reject_reason pair_reject in_window_free
    aggregate_reject left_rejects left_counters audit_left audit_lefts count_rights audit_unmatched
    blocking_key by_id is_oversized resolve_block block_resolution reconcile_block add_left
    add_right add_lefts add_rights blocks_of reconcile_blocks tolerance_or_default reconcile
no_free_reference_example =
    no_free_reference tol_small left_two right_three nothing left_b right_c (there here)
      (there (there here)) (7 ∷ []) refl refl

no_free_exact_example : ¬ AreFree left_a left_a (resolve_block tol_small left_two left_two nothing)
unfolding note_key find_or alter ◌+ℤ◌ ◌-ℤ◌ ◌*ℤ◌ ◌==◌ contains lex insert_by sort_by divide_half_even
    digits_from digits rounded add sub mul div abs quantize le lt eq of_ℕ bump base_score
    amount_tolerance date_gap score_of collect present index_one index_references reference_match
    m0_left m0_reference exact_match m1_pair m1_exact tolerant_match m2_pair m2_tolerant
    combinations range_from sum_amounts max_gap record_ids aggregate_match m3_combo in_window
    m3_left m3_aggregate generate candidate_before any_taken select_one select available
    is_aggregate apply_rule apply_rules pair_reject_reason pair_reject in_window_free
    aggregate_reject left_rejects left_counters audit_left audit_lefts count_rights audit_unmatched
    blocking_key by_id is_oversized resolve_block block_resolution reconcile_block add_left
    add_right add_lefts add_rights blocks_of reconcile_blocks tolerance_or_default reconcile
no_free_exact_example =
    no_free_exact tol_small left_two left_two nothing left_a left_a here here refl refl

no_free_tolerant_example :
    ¬ AreFree left_a left_a (resolve_block tol_small left_two left_two nothing)
unfolding note_key find_or alter ◌+ℤ◌ ◌-ℤ◌ ◌*ℤ◌ ◌==◌ contains lex insert_by sort_by divide_half_even
    digits_from digits rounded add sub mul div abs quantize le lt eq of_ℕ bump base_score
    amount_tolerance date_gap score_of collect present index_one index_references reference_match
    m0_left m0_reference exact_match m1_pair m1_exact tolerant_match m2_pair m2_tolerant
    combinations range_from sum_amounts max_gap record_ids aggregate_match m3_combo in_window
    m3_left m3_aggregate generate candidate_before any_taken select_one select available
    is_aggregate apply_rule apply_rules pair_reject_reason pair_reject in_window_free
    aggregate_reject left_rejects left_counters audit_left audit_lefts count_rights audit_unmatched
    blocking_key by_id is_oversized resolve_block block_resolution reconcile_block add_left
    add_right add_lefts add_rights blocks_of reconcile_blocks tolerance_or_default reconcile
no_free_tolerant_example =
    no_free_tolerant tol_small left_two left_two nothing left_a left_a here here refl refl

free_in_block :
    contains left_a.id (block_resolution tol_small (left_two, right_three) nothing).taken_left
    ≡ false
unfolding note_key find_or alter ◌+ℤ◌ ◌-ℤ◌ ◌*ℤ◌ ◌==◌ contains lex insert_by sort_by divide_half_even
    digits_from digits rounded add sub mul div abs quantize le lt eq of_ℕ bump base_score
    amount_tolerance date_gap score_of collect present index_one index_references reference_match
    m0_left m0_reference exact_match m1_pair m1_exact tolerant_match m2_pair m2_tolerant
    combinations range_from sum_amounts max_gap record_ids aggregate_match m3_combo in_window
    m3_left m3_aggregate generate candidate_before any_taken select_one select available
    is_aggregate apply_rule apply_rules pair_reject_reason pair_reject in_window_free
    aggregate_reject left_rejects left_counters audit_left audit_lefts count_rights audit_unmatched
    blocking_key by_id is_oversized resolve_block block_resolution reconcile_block add_left
    add_right add_lefts add_rights blocks_of reconcile_blocks tolerance_or_default reconcile
free_in_block = refl

oversized-deferred_example :
    In
      (record { left_id = left_a.id; right_id = none; reason = block_too_large })
      (reconcile_block tol_small (left_two, right_three) nothing).rejects
unfolding note_key find_or alter ◌+ℤ◌ ◌-ℤ◌ ◌*ℤ◌ ◌==◌ contains lex insert_by sort_by divide_half_even
    digits_from digits rounded add sub mul div abs quantize le lt eq of_ℕ bump base_score
    amount_tolerance date_gap score_of collect present index_one index_references reference_match
    m0_left m0_reference exact_match m1_pair m1_exact tolerant_match m2_pair m2_tolerant
    combinations range_from sum_amounts max_gap record_ids aggregate_match m3_combo in_window
    m3_left m3_aggregate generate candidate_before any_taken select_one select available
    is_aggregate apply_rule apply_rules pair_reject_reason pair_reject in_window_free
    aggregate_reject left_rejects left_counters audit_left audit_lefts count_rights audit_unmatched
    blocking_key by_id is_oversized resolve_block block_resolution reconcile_block add_left
    add_right add_lefts add_rights blocks_of reconcile_blocks tolerance_or_default reconcile
oversized-deferred_example =
    oversized-deferred tol_small left_two right_three nothing here free_in_block refl refl

free_in_small :
    contains left_a.id (block_resolution tol_small (left_a ∷ [], right_a ∷ []) nothing).taken_left
    ≡ false
unfolding note_key find_or alter ◌+ℤ◌ ◌-ℤ◌ ◌*ℤ◌ ◌==◌ contains lex insert_by sort_by divide_half_even
    digits_from digits rounded add sub mul div abs quantize le lt eq of_ℕ bump base_score
    amount_tolerance date_gap score_of collect present index_one index_references reference_match
    m0_left m0_reference exact_match m1_pair m1_exact tolerant_match m2_pair m2_tolerant
    combinations range_from sum_amounts max_gap record_ids aggregate_match m3_combo in_window
    m3_left m3_aggregate generate candidate_before any_taken select_one select available
    is_aggregate apply_rule apply_rules pair_reject_reason pair_reject in_window_free
    aggregate_reject left_rejects left_counters audit_left audit_lefts count_rights audit_unmatched
    blocking_key by_id is_oversized resolve_block block_resolution reconcile_block add_left
    add_right add_lefts add_rights blocks_of reconcile_blocks tolerance_or_default reconcile
free_in_small = refl

every_pair_audited_example :
    (reason : RejectReason) × (pair_reject_reason left_a right_a tol_small (
        contains right_a.id
          (block_resolution tol_small (left_a ∷ [], right_a ∷ []) nothing).taken_right)
      ≡ some reason)
    × In
        (record { left_id = left_a.id; right_id = some right_a.id; reason = reason })
        (reconcile_block tol_small (left_a ∷ [], right_a ∷ []) nothing).rejects
unfolding note_key find_or alter ◌+ℤ◌ ◌-ℤ◌ ◌*ℤ◌ ◌==◌ contains lex insert_by sort_by divide_half_even
    digits_from digits rounded add sub mul div abs quantize le lt eq of_ℕ bump base_score
    amount_tolerance date_gap score_of collect present index_one index_references reference_match
    m0_left m0_reference exact_match m1_pair m1_exact tolerant_match m2_pair m2_tolerant
    combinations range_from sum_amounts max_gap record_ids aggregate_match m3_combo in_window
    m3_left m3_aggregate generate candidate_before any_taken select_one select available
    is_aggregate apply_rule apply_rules pair_reject_reason pair_reject in_window_free
    aggregate_reject left_rejects left_counters audit_left audit_lefts count_rights audit_unmatched
    blocking_key by_id is_oversized resolve_block block_resolution reconcile_block add_left
    add_right add_lefts add_rights blocks_of reconcile_blocks tolerance_or_default reconcile
every_pair_audited_example =
    every_pair_audited tol_small (left_a ∷ []) (right_a ∷ []) nothing here free_in_small here refl
