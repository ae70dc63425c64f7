-- ===== src/Observation/Alerts/Quiet.antt =====
-- The alerts of src/reconcileflow/observation.py are computed without raising, in a decimal context
-- of the caller that does not raise.
use reconcileflow.Base.{
  ℕ, ◌+◌, ◌≤◌, ◌≡◌, refl, true, ◌||◌, List, [], ◌∷◌, ◌++◌, ltb, arith, inl, inr, Bool-cases, All,
  All-imp, ||-false,
}
use reconcileflow.Base.Order.{Text, nat_ord, list_ord, ◌<=◌}
use reconcileflow.Base.Sorting.{sort_by}
use reconcileflow.Base.Dict.{Dict, keys, find_or}
use reconcileflow.Base.Raised.{ok}
use reconcileflow.Decimal.{Decimal, lt}
use reconcileflow.Stream.{Side, left, right}
use reconcileflow.Observation.{
  Outside, DriftRule, EvidenceRule, CaptureFailure, captured_on, CountKey, count_ord, Count, Alert,
  is_drift,
}
use reconcileflow.Observation.Wilson.{interval}
use reconcileflow.Observation.Series.{Origins, Counter, increment, item_before}
use reconcileflow.Observation.Drift.{Days, daily}
use reconcileflow.Observation.Drift.Shares.{
  All-find_or, min_decisions-le, IsShare, IsDated, AreShares, daily-AreShares, reference-IsShare,
}
use reconcileflow.Observation.Drift.Verdicts.{IsSubtracted, wilson-eq-ok}
use reconcileflow.Observation.Alerts.{
  failure_key, count_failures, count_arrived, failure_alert, bound_text, told_failure,
  told_undecided, failure_alerts, failures_from, capture_failures, is_undecided, undecided_alert,
  undecided_alerts, undecided_days, undecided_sources, undecided_side, undecided_of,
}

-- A failure that can be placed in time.
abbrev pub IsPlaced : CaptureFailure → Type 0
IsPlaced f = (day : ℕ) × (f.captured_at ≡ captured_on day)

count_failures-eq-ok :
    (failures : List CaptureFailure) (counter : Counter)
    → All IsPlaced failures
    → (counter' : Counter) × (count_failures failures counter ≡ ok counter')
unfolding count_failures
count_failures-eq-ok [] counter h = (counter, refl)
count_failures-eq-ok (f ∷ failures) counter h =
    let (day, e) = h.0 in
    let (counter', g) =
      count_failures-eq-ok failures (increment (failure_key f.side f.source day) counter) h.1 in
    (counter', rw (e, g) refl)

-- The caller's decimal context subtracts the margin from the lower bound of a share, adds it to the
-- upper one, and rounds both for printing, without raising.
pub record IsQuiet (out : Outside) (drift : DriftRule) : Type 0 where
  pub subtracted : IsSubtracted out drift
  pub added :
      (successes trials : ℕ)
      → successes ≤ trials
      → 1 ≤ trials
      → (limit : Decimal) × (out.plus (interval out.sqrt successes trials drift.z).1 drift.margin
          ≡ ok limit)
  pub low_shown :
      (successes trials : ℕ)
      → successes ≤ trials
      → 1 ≤ trials
      → (shown : Decimal) × (out.quantized (interval out.sqrt successes trials drift.z).0
          ≡ ok shown)
  pub high_shown :
      (successes trials : ℕ)
      → successes ≤ trials
      → 1 ≤ trials
      → (shown : Decimal) × (out.quantized (interval out.sqrt successes trials drift.z).1
          ≡ ok shown)

module _ (out : Outside) (drift : DriftRule) (quiet : IsQuiet out drift)
    (valid : is_drift drift ≡ true) where
  told_failure-eq-ok :
      (rule : EvidenceRule) (key : CountKey) (bad total : ℕ)
      → bad ≤ total
      → 1 ≤ total
      → (alerts : List Alert) × (told_failure out rule key bad total
            (interval out.sqrt bad total drift.z).0
          ≡ ok alerts)
  unfolding told_failure bound_text
  told_failure-eq-ok rule key bad total h one =
      elim (Bool-cases (lt rule.max_capture_failure (interval out.sqrt bad total drift.z).0)) [
        | inl e ↦
            let (q, f) = quiet.low_shown bad total h one in
            (failure_alert out rule key bad total (out.show q) ∷ [], rw (e, f) refl)
        | inr e ↦ ([], rw e refl)
      ]

  failure_alerts-eq-ok :
      (rule : EvidenceRule) (key : CountKey) (bad arrived : ℕ)
      → (alerts : List Alert) × (failure_alerts out drift rule key bad (bad + arrived) ≡ ok alerts)
  unfolding failure_alerts
  failure_alerts-eq-ok rule key bad arrived =
      elim (Bool-cases (ltb (bad + arrived) drift.min_decisions)) [
        | inl e ↦ ([], rw e refl)
        | inr e ↦
            let one = min_decisions-le drift valid in
            let n : drift.min_decisions ≤ bad + arrived = ground arith in
            let w = wilson-eq-ok out drift bad (bad + arrived) (omega arith) (omega arith) in
            let (alerts, t) =
              told_failure-eq-ok rule key bad (bad + arrived) (omega arith) (omega arith) in
            (alerts, rw (e, w, t) refl)
      ]

  failures_from-eq-ok :
      (rule : EvidenceRule) (arrived : Counter) (items : List (CountKey × ℕ))
      → (alerts : List Alert) × (failures_from out drift rule arrived items ≡ ok alerts)
  unfolding failures_from
  failures_from-eq-ok rule arrived [] = ([], refl)
  failures_from-eq-ok rule arrived ((key, bad) ∷ rest) =
      let (alerts, e) = failure_alerts-eq-ok rule key bad (find_or 0 key arrived) in
      let (others, f) = failures_from-eq-ok rule arrived rest in (alerts ++ others, rw (e, f) refl)

  pub capture_failures-eq-ok :
      (origins : Origins) (failures : List CaptureFailure) (rule : EvidenceRule)
      → All IsPlaced failures
      → (alerts : List Alert) × (capture_failures out origins failures drift rule ≡ ok alerts)
  unfolding capture_failures
  capture_failures-eq-ok origins failures rule h =
      let (failed, e) = count_failures-eq-ok failures [] h in
      let (alerts, f) =
        failures_from-eq-ok rule (count_arrived origins []) (sort_by item_before failed) in
      (alerts, rw (e, f) refl)

  told_undecided-eq-ok :
      (side : Side) (source : Text) (day : ℕ) (cell before : ℕ × ℕ) (limit : Decimal)
      → IsShare cell
      → 1 ≤ cell.1
      → IsShare before
      → 1 ≤ before.1
      → (alerts : List Alert) × (told_undecided out drift side source day cell
            (interval out.sqrt cell.0 cell.1 drift.z).0
            (interval out.sqrt before.0 before.1 drift.z).1
            limit
          ≡ ok alerts)
  unfolding told_undecided bound_text
  told_undecided-eq-ok side source day cell before limit h one k two =
      elim (Bool-cases (lt limit (interval out.sqrt cell.0 cell.1 drift.z).0)) [
        | inl e ↦
            let (p, f) = quiet.low_shown cell.0 cell.1 h one in
            let (q, g) = quiet.high_shown before.0 before.1 k two in
            (
              undecided_alert out drift side source day cell (out.show p) (out.show q) ∷ [],
              rw (e, f, g) refl,
            )
        | inr e ↦ ([], rw e refl)
      ]

  undecided_alerts-eq-ok :
      (side : Side) (source : Text) (day : ℕ) (cell before : ℕ × ℕ)
      → IsShare cell
      → IsShare before
      → (alerts : List Alert) × (undecided_alerts out drift side source day cell before ≡ ok alerts)
  unfolding undecided_alerts
  undecided_alerts-eq-ok side source day (m, n) (rm, rn) h k =
      elim (Bool-cases (ltb n drift.min_decisions || ltb rn drift.min_decisions)) [
        | inl e ↦ ([], rw e refl)
        | inr e ↦
            let (f, g) = ||-false (ltb n drift.min_decisions) (ltb rn drift.min_decisions) e in
            let one = min_decisions-le drift valid in
            let a : drift.min_decisions ≤ n = ground arith in
            let b : drift.min_decisions ≤ rn = ground arith in
            let w = wilson-eq-ok out drift m n h (omega arith) in
            let v = wilson-eq-ok out drift rm rn k (omega arith) in
            let (limit, p) = quiet.added rm rn k (omega arith) in
            let (alerts, t) =
              told_undecided-eq-ok side source day (m, n) (rm, rn) limit h (omega arith) k
                (omega arith) in
            (alerts, rw (e, w, v, p, t) refl)
      ]

  undecided_days-eq-ok :
      (side : Side) (source : Text) (by_day : Days) (entries : List (ℕ × (ℕ × ℕ)))
      → AreShares drift.reference_days by_day
      → AreShares drift.reference_days entries
      → (alerts : List Alert) × (undecided_days out drift side source by_day entries ≡ ok alerts)
  unfolding undecided_days
  undecided_days-eq-ok side source by_day [] h k = ([], refl)
  undecided_days-eq-ok side source by_day ((day, cell) ∷ rest) h k =
      let (before, b, share) =
        reference-IsShare by_day day drift.reference_days
          (All-imp (λ (entry : ℕ × (ℕ × ℕ)). IsShare entry.1) by_day (λ entry g. g.0) h) k.0.1 in
      let (alerts, e) = undecided_alerts-eq-ok side source day cell before k.0.0 share in
      let (others, f) = undecided_days-eq-ok side source by_day rest h k.1 in
      (alerts ++ others, rw (b, e, f) refl)

  undecided_sources-eq-ok :
      (side : Side) (by_source : Dict Text Days) (sources : List Text)
      → All (λ (entry : Text × Days). AreShares drift.reference_days entry.1) by_source
      → (alerts : List Alert) × (undecided_sources out drift side by_source sources ≡ ok alerts)
  unfolding undecided_sources
  undecided_sources-eq-ok side by_source [] h = ([], refl)
  undecided_sources-eq-ok side by_source (source ∷ sources) h =
      let k = All-find_or (AreShares drift.reference_days) [] source by_source tt h in
      let (alerts, e) =
        undecided_days-eq-ok side source (find_or [] source by_source) (find_or [] source by_source)
          k k in
      let (others, f) = undecided_sources-eq-ok side by_source sources h in
      (alerts ++ others, rw (e, f) refl)

  undecided_side-eq-ok :
      (side : Side) (counts : List Count)
      → All (IsDated drift.reference_days) counts
      → (alerts : List Alert) × (undecided_side out drift side counts ≡ ok alerts)
  unfolding undecided_side
  undecided_side-eq-ok side counts dated =
      undecided_sources-eq-ok side (daily counts side is_undecided)
        (sort_by ◌<=◌ (keys (daily counts side is_undecided)))
        (daily-AreShares drift.reference_days counts side is_undecided dated)

  pub undecided_of-eq-ok :
      (counts : List Count)
      → All (IsDated drift.reference_days) counts
      → (alerts : List Alert) × (undecided_of out counts drift ≡ ok alerts)
  unfolding undecided_of
  undecided_of-eq-ok counts dated =
      let (on_left, e) = undecided_side-eq-ok left counts dated in
      let (on_right, f) = undecided_side-eq-ok right counts dated in
      (on_left ++ on_right, rw (e, f) refl)
