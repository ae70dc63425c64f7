-- ===== src/Observation/Observe.antt =====
-- `observe` of src/reconcileflow/observation.py.
use reconcileflow.Base.{Bool, true, false, Option, none, some, List, [], ◌∷◌, ◌++◌, if◌then◌else◌}
use reconcileflow.Base.Order.{Text, nat_ord, list_ord, lex}
use reconcileflow.Base.Sorting.{sort_by}
use reconcileflow.Base.Text.{text, decimal_text}
use reconcileflow.Base.Raised.{Result, ok, raised, attribute_error, ◌>>=◌}
use reconcileflow.Decimal.{Decimal}
use reconcileflow.Stream.{Side, left, right, StreamResult}
use reconcileflow.Observation.{
  Outside, DriftRule, EvidenceRule, CaptureFailure, JournalEntry, Count, Verdict, drop, DayVerdict,
  Alert, match_rate_drop, kind_value, side_rank, Report, check_drift, check_evidence,
}
use reconcileflow.Observation.Series.{origins_of, series}
use reconcileflow.Observation.Drift.{match_rate}
use reconcileflow.Observation.Alerts.{drift_id, bound_text, silent, capture_failures, undecided_of}

-- `(a.day, a.kind.value, a.side, a.source, a.detail)`
abbrev pub alert_code : Alert → List Text
alert_code a = (a.day ∷ []) ∷ kind_value a.kind ∷ (side_rank a.side ∷ []) ∷ a.source ∷ a.detail ∷ []

-- `_bound` of a bound that a verdict may not have.
abbrev pub bound_of : (Decimal → Result Text) → Option Decimal → Result Text
bound_of print none = raised attribute_error
bound_of print (some d) = print d

abbrev pub is_drop : Verdict → Bool
is_drop drop = true
is_drop _ = false

module _ (out : Outside) where
  -- The verdicts of a side, by rule.
  unfoldable pub rule_verdicts :
      List Count → Side → DriftRule → List Text → Result (List DayVerdict)
  rule_verdicts counts side drift [] = ok []
  rule_verdicts counts side drift (rule ∷ rules) = do
    vs ← match_rate out counts side rule drift
    ws ← rule_verdicts counts side drift rules
    ok (vs ++ ws)

  -- The verdicts, by side and by rule.
  unfoldable pub all_verdicts : List Count → DriftRule → List Text → Result (List DayVerdict)
  all_verdicts counts drift rules = do
    on_left ← rule_verdicts counts left drift rules
    on_right ← rule_verdicts counts right drift rules
    ok (on_left ++ on_right)

  -- The alert of a drop, with its two bounds as they are printed.
  unfoldable pub drop_alert : DriftRule → DayVerdict → Text → Text → Alert
  drop_alert drift v upper reference_lower = record {
    kind = match_rate_drop;
    side = v.side;
    source = v.source;
    day = v.day;
    detail =
        v.rule
        ++ text " "
        ++ decimal_text v.matched
        ++ text "/"
        ++ decimal_text v.decided
        ++ text ", upper bound "
        ++ upper
        ++ text " < reference lower "
        ++ reference_lower
        ++ text " - margin "
        ++ out.show drift.margin;
    rule_id = drift_id out drift;
  }

  -- One verdict.
  unfoldable pub told_drop : DriftRule → DayVerdict → Result (List Alert)
  told_drop drift v =
      if is_drop v.verdict
      then (do
        upper ← bound_of (bound_text out) v.upper
        reference_lower ← bound_of (bound_text out) v.reference_lower
        ok (drop_alert drift v upper reference_lower ∷ []))
      else ok []

  -- The alerts of the verdicts that are a drop.
  unfoldable pub drop_alerts : DriftRule → List DayVerdict → Result (List Alert)
  drop_alerts drift [] = ok []
  drop_alerts drift (v ∷ vs) = do
    alerts ← told_drop drift v
    others ← drop_alerts drift vs
    ok (alerts ++ others)

  -- `observe`
  unfoldable pub observe :
      List JournalEntry
      → StreamResult
      → List CaptureFailure
      → DriftRule
      → EvidenceRule
      → List Text
      → Result Report
  observe journal result failures drift evidence rules = do
    drift_checked ← check_drift drift
    evidence_checked ← check_evidence evidence
    origins ← origins_of journal
    counts ← series journal result
    verdicts ← all_verdicts counts drift rules
    drops ← drop_alerts drift verdicts
    failed ← capture_failures out origins failures drift evidence
    jumps ← undecided_of out counts drift
    ok (record {
      counts = counts;
      verdicts = verdicts;
      alerts =
          sort_by (λ a b. lex (alert_code a) (alert_code b))
            (drops ++ silent out origins evidence ++ failed ++ jumps);
    })
