-- ===== src/Tests/Observation.antt =====
-- A final decision that is counted, and the theorems on the observation at it.
use reconcileflow.Base.{arith, ◌≡◌, refl, true, false, some, none, List, [], ◌∷◌, All, keep, length}
use reconcileflow.Base.Order.{nat_ord, list_ord}
use reconcileflow.Base.Int.{◌*ℤ◌}
use reconcileflow.Base.Text.{text}
use reconcileflow.Base.Raised.{ok}
use reconcileflow.Decimal.{add, sub, quantize, le, lt}
use reconcileflow.Models.Rule.{RuleId}
use reconcileflow.Stream.{left, Decision, StreamResult, final, match_type, by_rule}
use reconcileflow.Observation.{
  Outside, default_drift, JournalEntry, arrival, captured_on, CountKey, Count, DayVerdict, is_drift,
}
use reconcileflow.Observation.{default_evidence, is_evidence, CaptureFailure, Report}
use reconcileflow.Observation.Observe.{observe}
use reconcileflow.Observation.Returns.{observe-Returns}
use reconcileflow.Observation.Alerts.Quiet.{IsQuiet}
use reconcileflow.Observation.Drift.{match_rate}
use reconcileflow.Observation.Drift.Verdicts.{IsSound, match_rate-IsSound}
use reconcileflow.Observation.Conserved.{total_of, is_final_item, series-total_of}
use reconcileflow.Base.Order.{◌==◌, contains, lex}
use reconcileflow.Base.Sorting.{insert_by, sort_by}
use reconcileflow.Base.Dict.{note_key, find_or, find, alter}
use reconcileflow.Stream.Emit.{store}
use reconcileflow.Stream.Results.{is_superseded, status_of, effective_from, effective}
use reconcileflow.Observation.Series.{
  note_origin, origins_from, outcome_of, increment, count_final, count_item, count_all, counts_of,
  series,
}

-- A square root that is exact at 0 and 1, printing that shows nothing, and a context that never
-- raises.
abbrev out : Outside
out = record {
  sqrt = λ d. d;
  hash = λ t. t;
  show = λ d. [];
  iso = λ n. [];
  minus = λ a b. ok (sub a b);
  plus = λ a b. ok (add a b);
  quantized = λ d. ok (quantize 4 d);
}

abbrev key : CountKey
key = record {
  side = left;
  source = text "bank";
  day = 739000;
  outcome = text "M0_REFERENCE";
  forced = false;
}

abbrev counts : List Count
counts = record { key = key; count = 1 } ∷ []

default_drift-valid : is_drift default_drift ≡ true
unfolding is_drift lt le ◌*ℤ◌
default_drift-valid = refl

quiet : IsQuiet out default_drift
quiet = record {
  subtracted = λ m n h k. (_, refl);
  added = λ m n h k. (_, refl);
  low_shown = λ m n h k. (_, refl);
  high_shown = λ m n h k. (_, refl);
}

match_rate-IsSound_example :
    (vs : List DayVerdict) × (match_rate out counts left (text "M0_REFERENCE") default_drift
      ≡ ok vs)
    × All (IsSound out default_drift) vs
match_rate-IsSound_example =
    match_rate-IsSound out default_drift counts left (text "M0_REFERENCE") default_drift-valid
      quiet.subtracted (omega arith, tt)

abbrev decision : Decision
decision = record {
  decision_id = text "d";
  business_key = (left, text "a");
  chain_version = 1;
  status = final;
  decision_type = match_type;
  input_ids = text "a" ∷ text "b" ∷ [];
  reason = by_rule RuleId.m0_reference;
  window_end = 9;
  decided_at = 1;
  final_at = some 1;
  supersedes = none;
  forced = false;
}

abbrev journal : List JournalEntry
journal = arrival left (text "a") (text "bank") (captured_on 739000) ∷ []

abbrev result : StreamResult
result = record { decisions = decision ∷ []; duplicates = 0 }

series-one : series journal result ≡ ok counts
unfolding ◌==◌ contains lex insert_by sort_by note_key find_or find alter store is_superseded
    status_of effective_from effective note_origin origins_from outcome_of increment count_final
    count_item count_all counts_of series
series-one = refl

series-total_of_example :
    total_of counts ≡ length (keep is_final_item (effective none result.decisions))
series-total_of_example = series-total_of journal result series-one

default_evidence-valid : is_evidence default_evidence ≡ true
unfolding is_evidence le ◌*ℤ◌
default_evidence-valid = refl

abbrev failures : List CaptureFailure
failures = record { side = left; source = text "bank"; captured_at = captured_on 739000 } ∷ []

observe-Returns_example :
    (report : Report) × (observe out journal result failures default_drift default_evidence
        (text "M0_REFERENCE" ∷ [])
      ≡ ok report)
    × (report.counts ≡ counts)
    × All (IsSound out default_drift) report.verdicts
observe-Returns_example =
    observe-Returns out default_drift default_evidence journal result failures
      (text "M0_REFERENCE" ∷ []) default_drift-valid default_evidence-valid quiet
      ((739000, refl), tt) (omega arith, tt) series-one
