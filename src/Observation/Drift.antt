-- ===== src/Observation/Drift.antt =====
-- The drift of a match rate, of src/reconcileflow/observation.py. The margin is subtracted outside
-- the engine's context, under the caller's.
pub mod Shares
pub mod Verdicts
use reconcileflow.Base.{
  ℕ, zero, suc, ◌+◌, ◌-◌, Bool, true, false, not, Option, none, some, List, [], ◌∷◌, ◌++◌, keep,
  ltb, if◌then◌else◌,
}
use reconcileflow.Base.Order.{Ord, Text, nat_ord, list_ord, ◌<=◌, ◌==◌}
use reconcileflow.Base.Sorting.{sort_by}
use reconcileflow.Base.Dict.{Dict, keys, find_or, alter}
use reconcileflow.Base.Raised.{Result, ok, raised, overflow_error, ◌>>=◌}
use reconcileflow.Decimal.{Decimal, lt}
use reconcileflow.Stream.{Side, left, right}
use reconcileflow.Observation.{
  Outside, DriftRule, Count, Verdict, normal, drop, insufficient, no_reference, DayVerdict,
  check_drift,
}
use reconcileflow.Observation.Wilson.{wilson}

-- `(hits, total)` by day.
abbrev pub Days : Type 0
Days = Dict ℕ (ℕ × ℕ)

abbrev pub is_same_side : Side → Side → Bool
is_same_side left left = true
is_same_side left right = false
is_same_side right left = false
is_same_side right right = true

-- `cell[0] += c.count if hit(c) else 0; cell[1] += c.count`
abbrev pub add_to_cell : Bool → ℕ → ℕ × ℕ → ℕ × ℕ
add_to_cell hit n (h, t) = (if hit then h + n else h, t + n)

-- `days[c.source][c.day]`, and the cell updated.
unfoldable pub add_count : (Count → Bool) → Count → Dict Text Days → Dict Text Days
add_count hit c days =
    alter [] c.key.source (alter (0, 0) c.key.day (add_to_cell (hit c) c.count)) days

unfoldable pub daily_from : (Count → Bool) → Side → List Count → Dict Text Days → Dict Text Days
daily_from hit side [] days = days
daily_from hit side (c ∷ counts) days =
    daily_from hit side counts (if is_same_side c.key.side side then add_count hit c days else days)

-- `sorted(by_day.items())`: the days are distinct.
abbrev pub day_before : ℕ × (ℕ × ℕ) → ℕ × (ℕ × ℕ) → Bool
day_before a b = a.0 <= b.0

unfoldable pub sort_days : Dict Text Days → Dict Text Days
sort_days [] = []
sort_days ((source, by_day) ∷ rest) = (source, sort_by day_before by_day) ∷ sort_days rest

-- `_daily`
unfoldable pub daily : List Count → Side → (Count → Bool) → Dict Text Days
daily counts side hit = sort_days (daily_from hit side counts [])

-- `by_day.get(day - timedelta(days=offset), (0, 0))`: the first date there is has the ordinal 1, and
-- a difference below it raises.
unfoldable pub cell_before : Days → ℕ → ℕ → Result (ℕ × ℕ)
cell_before by_day day offset =
    if ltb offset day then ok (find_or (0, 0) (day - offset) by_day) else raised overflow_error

-- `_reference`: the sums over the days before, as many as the span.
unfoldable pub reference : Days → ℕ → ℕ → Result (ℕ × ℕ)
reference by_day day zero = ok (0, 0)
reference by_day day (suc span) = do
  (hits, total) ← reference by_day day span
  (h, t) ← cell_before by_day day (suc span)
  ok (hits + h, total + t)

-- `DayVerdict(...)`
abbrev pub verdict_with :
    Side
    → Text
    → Text
    → ℕ
    → ℕ × ℕ
    → ℕ × ℕ
    → Verdict × (Option Decimal × Option Decimal)
    → DayVerdict
verdict_with side source name day cell before judged = record {
  side = side;
  source = source;
  rule = name;
  day = day;
  verdict = judged.0;
  matched = cell.0;
  decided = cell.1;
  reference_matched = before.0;
  reference_decided = before.1;
  upper = judged.1.0;
  reference_lower = judged.1.1;
}

module _ (out : Outside) where
  -- The verdict on a day with enough decisions, and its bounds.
  unfoldable pub compare_rates :
      DriftRule → ℕ × ℕ → ℕ × ℕ → Result (Verdict × (Option Decimal × Option Decimal))
  compare_rates rule (matched, decided) (ref_matched, ref_decided) = do
    (low, upper) ← wilson out.sqrt matched decided rule.z
    (reference_lower, high) ← wilson out.sqrt ref_matched ref_decided rule.z
    limit ← out.minus reference_lower rule.margin
    ok (if lt upper limit then drop else normal, (some upper, some reference_lower))

  -- The verdict on a day.
  unfoldable pub verdict_of :
      DriftRule → ℕ × ℕ → ℕ × ℕ → Result (Verdict × (Option Decimal × Option Decimal))
  verdict_of rule day before =
      if ltb day.1 rule.min_decisions
      then ok (insufficient, (none, none))
      else if ltb before.1 rule.min_decisions
      then ok (no_reference, (none, none))
      else compare_rates rule day before

  unfoldable pub day_verdict : Side → Text → Text → DriftRule → Days → ℕ → ℕ × ℕ → Result DayVerdict
  day_verdict side source name rule by_day day cell = do
    before ← reference by_day day rule.reference_days
    judged ← verdict_of rule cell before
    ok (verdict_with side source name day cell before judged)

  -- The loop over the days of a source.
  unfoldable pub day_verdicts :
      Side → Text → Text → DriftRule → Days → List (ℕ × (ℕ × ℕ)) → Result (List DayVerdict)
  day_verdicts side source name rule by_day [] = ok []
  day_verdicts side source name rule by_day ((day, cell) ∷ rest) = do
    v ← day_verdict side source name rule by_day day cell
    vs ← day_verdicts side source name rule by_day rest
    ok (v ∷ vs)

  -- The loop over the sources.
  unfoldable pub source_verdicts :
      Side → Text → DriftRule → Dict Text Days → List Text → Result (List DayVerdict)
  source_verdicts side name rule by_source [] = ok []
  source_verdicts side name rule by_source (source ∷ sources) = do
    let by_day = find_or [] source by_source
    vs ← day_verdicts side source name rule by_day by_day
    ws ← source_verdicts side name rule by_source sources
    ok (vs ++ ws)

  -- `match_rate`
  unfoldable pub match_rate : List Count → Side → Text → DriftRule → Result (List DayVerdict)
  match_rate counts side name rule = do
    checked ← check_drift rule
    let by_source = daily (keep (λ c. not c.key.forced) counts) side (λ c. c.key.outcome == name)
    source_verdicts side name rule by_source (sort_by ◌<=◌ (keys by_source))
