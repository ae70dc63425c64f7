-- ===== src/Observation/Alerts.antt =====
-- The alerts of src/reconcileflow/observation.py.
pub mod Quiet
use reconcileflow.Base.{
  ℕ, ◌+◌, ◌-◌, max, Bool, false, ◌||◌, List, [], ◌∷◌, ◌++◌, ltb, eqb, if◌then◌else◌,
}
use reconcileflow.Base.Order.{Text, nat_ord, list_ord, ◌<=◌, contains}
use reconcileflow.Base.Sorting.{sort_by}
use reconcileflow.Base.Dict.{Dict, keys, find_or, alter}
use reconcileflow.Base.Text.{text, decimal_text}
use reconcileflow.Base.Raised.{Result, ok, ◌>>=◌}
use reconcileflow.Decimal.{Decimal, lt}
use reconcileflow.Models.Digests.{digest}
use reconcileflow.Stream.{Side, left, right, key_ord}
use reconcileflow.Observation.{
  Outside, DriftRule, EvidenceRule, CaptureFailure, CountKey, count_ord, Count, Alert,
  source_silent, capture_failure, undecided_jump, capture_day,
}
use reconcileflow.Observation.Wilson.{wilson}
use reconcileflow.Observation.Series.{Origins, Counter, increment, item_before}
use reconcileflow.Observation.Drift.{Days, daily, reference}

-- `UNDECIDED`
abbrev pub undecided : List Text
undecided = text "LATE" ∷ text "REFERENCE_AFTER_FINAL" ∷ text "BLOCK_TOO_LARGE" ∷ []

-- The first part is the text before the first "+", the rest the other parts.
abbrev pub push : ℕ → Text × List Text → Text × List Text
push c (part, parts) = if eqb c 43 then ([], part ∷ parts) else (c ∷ part, parts)

unfoldable pub split_from : Text → Text × List Text
split_from [] = ([], [])
split_from (c ∷ cs) = push c (split_from cs)

-- `outcome.split("+")`
abbrev pub split_plus : Text → List Text
split_plus s = (split_from s).0 ∷ (split_from s).1

-- `bool(UNDECIDED.intersection(parts))`
unfoldable pub any_undecided : List Text → Bool
any_undecided [] = false
any_undecided (part ∷ parts) = contains part undecided || any_undecided parts

-- `hit` of `_undecided`
unfoldable pub is_undecided : Count → Bool
is_undecided c = c.key.forced || any_undecided (split_plus c.key.outcome)

-- `(side, source)` and its day, of each record.
abbrev pub LastSeen : Type 0
LastSeen = Dict (Side × Text) ℕ

-- `last_seen[...] = max(day, last_seen.get(..., day))`
unfoldable pub last_seen_from : Origins → LastSeen → LastSeen
last_seen_from [] seen = seen
last_seen_from (((side, id), (source, day)) ∷ origins) seen =
    last_seen_from origins (alter day (side, source) (λ before. max day before) seen)

-- `max(last_seen.values())`
unfoldable pub latest_of : LastSeen → ℕ
latest_of [] = 0
latest_of ((key, day) ∷ seen) = max day (latest_of seen)

abbrev pub seen_before : (Side × Text) × ℕ → (Side × Text) × ℕ → Bool
seen_before a b = a.0 <= b.0

-- The number of failures by side, source and day: the fields of a count, its outcome empty.
abbrev pub failure_key : Side → Text → ℕ → CountKey
failure_key side source day = record {
  side = side;
  source = source;
  day = day;
  outcome = [];
  forced = false;
}

unfoldable pub count_failures : List CaptureFailure → Counter → Result Counter
count_failures [] counter = ok counter
count_failures (f ∷ failures) counter = do
  day ← capture_day f.captured_at
  count_failures failures (increment (failure_key f.side f.source day) counter)

unfoldable pub count_arrived : Origins → Counter → Counter
count_arrived [] counter = counter
count_arrived (((side, id), (source, day)) ∷ origins) counter =
    count_arrived origins (increment (failure_key side source day) counter)

module _ (out : Outside) where
  -- `rule_id` of the two rules
  unfoldable pub drift_id : DriftRule → Text
  drift_id d = digest out.hash (
      text "drift"
      ∷ decimal_text d.reference_days
      ∷ decimal_text d.min_decisions
      ∷ out.show d.margin
      ∷ out.show d.z
      ∷ [])

  unfoldable pub evidence_id : EvidenceRule → Text
  evidence_id e =
      digest out.hash
        (text "evidence" ∷ decimal_text e.silent_days ∷ out.show e.max_capture_failure ∷ [])

  -- `_bound`
  unfoldable pub bound_text : Decimal → Result Text
  bound_text d = do q ← out.quantized d; ok (out.show q)

  unfoldable pub silent_alert : EvidenceRule → ℕ → Side → Text → ℕ → Alert
  silent_alert rule end side source seen = record {
    kind = source_silent;
    side = side;
    source = source;
    day = end;
    detail =
        text "last capture "
        ++ out.iso seen
        ++ text ", "
        ++ decimal_text (end - seen)
        ++ text " days before "
        ++ out.iso end;
    rule_id = evidence_id rule;
  }

  -- The loop over the sources, in order.
  unfoldable pub silent_from : EvidenceRule → ℕ → List ((Side × Text) × ℕ) → List Alert
  silent_from rule end [] = []
  silent_from rule end (((side, source), seen) ∷ rest) =
      if ltb rule.silent_days (end - seen)
      then silent_alert rule end side source seen ∷ silent_from rule end rest
      else silent_from rule end rest

  -- `_silent`; without origins there are no sources.
  unfoldable pub silent : Origins → EvidenceRule → List Alert
  silent origins rule =
      let seen = last_seen_from origins [] in
      silent_from rule (latest_of seen) (sort_by seen_before seen)

  unfoldable pub failure_alert : EvidenceRule → CountKey → ℕ → ℕ → Text → Alert
  failure_alert rule key bad total lower = record {
    kind = capture_failure;
    side = key.side;
    source = key.source;
    day = key.day;
    detail =
        decimal_text bad
        ++ text "/"
        ++ decimal_text total
        ++ text " failed, lower bound "
        ++ lower
        ++ text " > "
        ++ out.show rule.max_capture_failure;
    rule_id = evidence_id rule;
  }

  unfoldable pub told_failure : EvidenceRule → CountKey → ℕ → ℕ → Decimal → Result (List Alert)
  told_failure rule key bad total lower =
      if lt rule.max_capture_failure lower
      then (do shown ← bound_text lower; ok (failure_alert rule key bad total shown ∷ []))
      else ok []

  -- One side, source and day.
  unfoldable pub failure_alerts : DriftRule → EvidenceRule → CountKey → ℕ → ℕ → Result (List Alert)
  failure_alerts drift rule key bad total = if ltb total drift.min_decisions then ok [] else (do
    (lower, high) ← wilson out.sqrt bad total drift.z
    told_failure rule key bad total lower)

  -- The loop over the failures.
  unfoldable pub failures_from :
      DriftRule → EvidenceRule → Counter → List (CountKey × ℕ) → Result (List Alert)
  failures_from drift rule arrived [] = ok []
  failures_from drift rule arrived ((key, bad) ∷ rest) = do
    alerts ← failure_alerts drift rule key bad (bad + find_or 0 key arrived)
    others ← failures_from drift rule arrived rest
    ok (alerts ++ others)

  -- `_capture_failures`
  unfoldable pub capture_failures :
      Origins → List CaptureFailure → DriftRule → EvidenceRule → Result (List Alert)
  capture_failures origins failures drift rule = do
    failed ← count_failures failures []
    failures_from drift rule (count_arrived origins []) (sort_by item_before failed)

  unfoldable pub undecided_alert : DriftRule → Side → Text → ℕ → ℕ × ℕ → Text → Text → Alert
  undecided_alert drift side source day cell lower reference_upper = record {
    kind = undecided_jump;
    side = side;
    source = source;
    day = day;
    detail =
        decimal_text cell.0
        ++ text "/"
        ++ decimal_text cell.1
        ++ text " undecided, lower bound "
        ++ lower
        ++ text " > reference upper "
        ++ reference_upper
        ++ text " + margin "
        ++ out.show drift.margin;
    rule_id = drift_id drift;
  }

  unfoldable pub told_undecided :
      DriftRule → Side → Text → ℕ → ℕ × ℕ → Decimal → Decimal → Decimal → Result (List Alert)
  told_undecided drift side source day cell lower reference_upper limit =
      if lt limit lower
      then (do
        shown ← bound_text lower
        reference_shown ← bound_text reference_upper
        ok (undecided_alert drift side source day cell shown reference_shown ∷ []))
      else ok []

  -- One day of a source.
  unfoldable pub undecided_alerts :
      DriftRule → Side → Text → ℕ → ℕ × ℕ → ℕ × ℕ → Result (List Alert)
  undecided_alerts drift side source day cell before =
      if ltb cell.1 drift.min_decisions || ltb before.1 drift.min_decisions then ok [] else (do
        (lower, high) ← wilson out.sqrt cell.0 cell.1 drift.z
        (low, reference_upper) ← wilson out.sqrt before.0 before.1 drift.z
        limit ← out.plus reference_upper drift.margin
        told_undecided drift side source day cell lower reference_upper limit)

  -- The loop over the days of a source.
  unfoldable pub undecided_days :
      DriftRule → Side → Text → Days → List (ℕ × (ℕ × ℕ)) → Result (List Alert)
  undecided_days drift side source by_day [] = ok []
  undecided_days drift side source by_day ((day, cell) ∷ rest) = do
    before ← reference by_day day drift.reference_days
    alerts ← undecided_alerts drift side source day cell before
    others ← undecided_days drift side source by_day rest
    ok (alerts ++ others)

  -- The loop over the sources of a side.
  unfoldable pub undecided_sources :
      DriftRule → Side → Dict Text Days → List Text → Result (List Alert)
  undecided_sources drift side by_source [] = ok []
  undecided_sources drift side by_source (source ∷ sources) = do
    let by_day = find_or [] source by_source
    alerts ← undecided_days drift side source by_day by_day
    others ← undecided_sources drift side by_source sources
    ok (alerts ++ others)

  -- One side.
  unfoldable pub undecided_side : DriftRule → Side → List Count → Result (List Alert)
  undecided_side drift side counts =
      let by_source = daily counts side is_undecided in
      undecided_sources drift side by_source (sort_by ◌<=◌ (keys by_source))

  -- `_undecided`; `SIDES` is left, then right.
  unfoldable pub undecided_of : List Count → DriftRule → Result (List Alert)
  undecided_of counts drift = do
    on_left ← undecided_side drift left counts
    on_right ← undecided_side drift right counts
    ok (on_left ++ on_right)
