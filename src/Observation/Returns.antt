-- ===== src/Observation/Returns.antt =====
-- `observe` returns a report whenever the series does.
use reconcileflow.Base.{
  ◌≡◌, refl, true, List, [], ◌∷◌, ◌++◌, arith, inl, inr, Bool-cases, All, All-append,
}
use reconcileflow.Base.Order.{Text, nat_ord, list_ord, lex}
use reconcileflow.Base.Sorting.{sort_by}
use reconcileflow.Base.Raised.{ok, >>=-eq-ok}
use reconcileflow.Stream.{Side, left, right, StreamResult}
use reconcileflow.Observation.{
  Outside, DriftRule, EvidenceRule, CaptureFailure, JournalEntry, count_ord, Count, DayVerdict,
  Alert, Report, is_drift, is_evidence,
}
use reconcileflow.Observation.Series.{origins_of, series}
use reconcileflow.Observation.Drift.Shares.{min_decisions-le, IsDated}
use reconcileflow.Observation.Drift.Verdicts.{
  too_few, too_few_before, compared, IsSound, match_rate-IsSound,
}
use reconcileflow.Observation.Alerts.{bound_text, silent}
use reconcileflow.Observation.Observe.{
  alert_code, rule_verdicts, all_verdicts, drop_alert, told_drop, is_drop, drop_alerts, observe,
}
use reconcileflow.Observation.Alerts.Quiet.{
  IsPlaced, IsQuiet, capture_failures-eq-ok, undecided_of-eq-ok,
}

module _ (out : Outside) (drift : DriftRule) (quiet : IsQuiet out drift)
    (valid : is_drift drift ≡ true) where
  -- A drop has the two bounds that its alert prints.
  told_drop-eq-ok :
      (v : DayVerdict)
      → IsSound out drift v
      → (alerts : List Alert) × (told_drop out drift v ≡ ok alerts)
  unfolding told_drop bound_text
  told_drop-eq-ok v (le, ref_le, too_few e h) = ([], rw e refl)
  told_drop-eq-ok v (le, ref_le, too_few_before e h k) = ([], rw e refl)
  told_drop-eq-ok v (le, ref_le, compared h k u l limit m e) =
      let one = min_decisions-le drift valid in
      let (p, f) = quiet.high_shown v.matched v.decided le (omega arith) in
      let (q, g) = quiet.low_shown v.reference_matched v.reference_decided ref_le (omega arith) in
      elim (Bool-cases (is_drop v.verdict)) [
        | inl d ↦ (drop_alert out drift v (out.show p) (out.show q) ∷ [], rw (d, u, l, f, g) refl)
        | inr d ↦ ([], rw d refl)
      ]

  drop_alerts-eq-ok :
      (vs : List DayVerdict)
      → All (IsSound out drift) vs
      → (alerts : List Alert) × (drop_alerts out drift vs ≡ ok alerts)
  unfolding drop_alerts
  drop_alerts-eq-ok [] h = ([], refl)
  drop_alerts-eq-ok (v ∷ vs) h =
      let (alerts, e) = told_drop-eq-ok v h.0 in
      let (others, f) = drop_alerts-eq-ok vs h.1 in (alerts ++ others, rw (e, f) refl)

  rule_verdicts-IsSound :
      (counts : List Count) (side : Side) (rules : List Text)
      → All (IsDated drift.reference_days) counts
      → (vs : List DayVerdict) × (rule_verdicts out counts side drift rules ≡ ok vs)
        × All (IsSound out drift) vs
  unfolding rule_verdicts
  rule_verdicts-IsSound counts side [] dated = ([], refl, tt)
  rule_verdicts-IsSound counts side (rule ∷ rules) dated =
      let (vs, e, sound) =
        match_rate-IsSound out drift counts side rule valid quiet.subtracted dated in
      let (ws, f, sounds) = rule_verdicts-IsSound counts side rules dated in
      (vs ++ ws, rw (e, f) refl, All-append _ vs ws sound sounds)

  all_verdicts-IsSound :
      (counts : List Count) (rules : List Text)
      → All (IsDated drift.reference_days) counts
      → (vs : List DayVerdict) × (all_verdicts out counts drift rules ≡ ok vs)
        × All (IsSound out drift) vs
  unfolding all_verdicts
  all_verdicts-IsSound counts rules dated =
      let (vs, e, sound) = rule_verdicts-IsSound counts left rules dated in
      let (ws, f, sounds) = rule_verdicts-IsSound counts right rules dated in
      (vs ++ ws, rw (e, f) refl, All-append _ vs ws sound sounds)

-- With rules that pass their checks, a caller's decimal context in which the bounds are compared and
-- printed without raising, failures that have a capture time, and counts of days that have the
-- rule's reference days of dates before them, `observe` returns a report whenever `series` returns:
-- no day, however few its decisions, makes it raise, and each drop has the bounds that its alert
-- prints. The report holds the counts of the series, and each verdict is as `match_rate` describes.
pub observe-Returns :
    (out : Outside) (drift : DriftRule) (evidence : EvidenceRule) (journal : List JournalEntry)
    (result : StreamResult) (failures : List CaptureFailure) (rules : List Text)
    {counts : List Count}
    → is_drift drift ≡ true
    → is_evidence evidence ≡ true
    → IsQuiet out drift
    → All IsPlaced failures
    → All (IsDated drift.reference_days) counts
    → series journal result ≡ ok counts
    → (report : Report) × (observe out journal result failures drift evidence rules ≡ ok report)
      × (report.counts ≡ counts)
      × All (IsSound out drift) report.verdicts
unfolding observe series
observe-Returns out drift evidence journal result failures rules {counts} d v quiet placed dated h =
    let (origins, o, h1) = >>=-eq-ok (origins_of journal) _ h in
    let (vs, e, sound) = all_verdicts-IsSound out drift quiet d counts rules dated in
    let (drops, p) = drop_alerts-eq-ok out drift quiet d vs sound in
    let (failed, f) = capture_failures-eq-ok out drift quiet d origins failures evidence placed in
    let (jumps, g) = undecided_of-eq-ok out drift quiet d counts dated in
    (
      record {
        counts = counts;
        verdicts = vs;
        alerts =
            sort_by (λ a b. lex (alert_code a) (alert_code b))
              (drops ++ silent out origins evidence ++ failed ++ jumps);
      },
      rw (d, v, o, h1, e, p, f, g) refl,
      refl,
      sound,
    )
