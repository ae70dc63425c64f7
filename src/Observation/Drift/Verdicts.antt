-- ===== src/Observation/Drift/Verdicts.antt =====
-- What the verdicts of `match_rate` say, and that it returns them.
use reconcileflow.Base.{
  ℕ, ◌≤◌, ◌<◌, ◌≡◌, refl, true, not, Option, none, some, List, [], ◌∷◌, ◌++◌, keep, ltb, arith, inl,
  inr, Bool-cases, All, All-append, All-imp, All-keep, if◌then◌else◌, ltb→lt,
}
use reconcileflow.Base.Order.{Text, nat_ord, list_ord, ◌<=◌, ◌==◌}
use reconcileflow.Base.Sorting.{sort_by}
use reconcileflow.Base.Dict.{Dict, keys, find_or}
use reconcileflow.Base.Raised.{ok}
use reconcileflow.Decimal.{Decimal, lt}
use reconcileflow.Stream.{Side}
use reconcileflow.Observation.{
  Outside, DriftRule, Count, Verdict, normal, drop, insufficient, no_reference, DayVerdict,
  is_drift,
}
use reconcileflow.Observation.Wilson.{is_share, interval, wilson}
use reconcileflow.Observation.Drift.{
  Days, daily, compare_rates, verdict_of, verdict_with, day_verdict, day_verdicts, source_verdicts,
  match_rate,
}
use reconcileflow.Observation.Drift.Shares.{
  All-find_or, min_decisions-le, IsShare, IsDated, AreShares, daily-AreShares, reference-IsShare,
}

module _ (out : Outside) (rule : DriftRule) where
  -- What a verdict says: too few decisions that day, too few before, or, with enough of both, that
  -- the upper bound of the day is or is not below the lower bound of the reference by the margin.
  pub data IsJudged (v : DayVerdict) : Type 0 where
    too_few : v.verdict ≡ insufficient → v.decided < rule.min_decisions → IsJudged v
    too_few_before :
        v.verdict ≡ no_reference
        → rule.min_decisions ≤ v.decided
        → v.reference_decided < rule.min_decisions
        → IsJudged v
    compared :
        rule.min_decisions ≤ v.decided
        → rule.min_decisions ≤ v.reference_decided
        → v.upper ≡ some (interval out.sqrt v.matched v.decided rule.z).1
        → v.reference_lower
          ≡ some (interval out.sqrt v.reference_matched v.reference_decided rule.z).0
        → (limit : Decimal)
        → out.minus (interval out.sqrt v.reference_matched v.reference_decided rule.z).0 rule.margin
          ≡ ok limit
        → v.verdict
          ≡ (if lt (interval out.sqrt v.matched v.decided rule.z).1 limit then drop else normal)
        → IsJudged v

  -- The caller's context subtracts the margin from the lower bound of a share.
  abbrev pub IsSubtracted : Type 0
  IsSubtracted =
      (successes trials : ℕ)
      → successes ≤ trials
      → 1 ≤ trials
      → (limit : Decimal) × (out.minus (interval out.sqrt successes trials rule.z).0 rule.margin
          ≡ ok limit)

  -- A verdict that is a share and is judged.
  abbrev pub IsSound : DayVerdict → Type 0
  IsSound v = (v.matched ≤ v.decided) × (v.reference_matched ≤ v.reference_decided) × IsJudged v

  pub wilson-eq-ok :
      (successes trials : ℕ)
      → successes ≤ trials
      → 1 ≤ trials
      → wilson out.sqrt successes trials rule.z ≡ ok (interval out.sqrt successes trials rule.z)
  unfolding wilson
  wilson-eq-ok successes trials h k =
      let e : is_share successes trials ≡ true = ground arith in rw e refl

  verdict_of-IsSound :
      IsSubtracted
      → (side : Side) (source name : Text) (day : ℕ) (cell before : ℕ × ℕ) → 1 ≤ rule.min_decisions
      → IsShare cell
      → IsShare before
      → (judged : Verdict × (Option Decimal × Option Decimal)) × (verdict_of out rule cell before
          ≡ ok judged)
        × IsSound (verdict_with side source name day cell before judged)
  unfolding verdict_of compare_rates
  verdict_of-IsSound minus side source name day (m, n) (rm, rn) one h k =
      elim (Bool-cases (ltb n rule.min_decisions)) [
        | inl e ↦ ((insufficient, (none, none)), rw e refl, (h, k, too_few refl (ltb→lt _ _ e)))
        | inr e ↦ elim (Bool-cases (ltb rn rule.min_decisions)) [
          | inl f ↦ (
            (no_reference, (none, none)),
            rw (e, f) refl,
            (h, k, too_few_before refl (ground arith) (ltb→lt _ _ f)),
          )
          | inr f ↦
              let a : rule.min_decisions ≤ n = ground arith in
              let b : rule.min_decisions ≤ rn = ground arith in
              let (limit, g) = minus rm rn k (omega arith) in
              (
                (
                  (if lt (interval out.sqrt m n rule.z).1 limit then drop else normal),
                  (some (interval out.sqrt m n rule.z).1, some (interval out.sqrt rm rn rule.z).0),
                ),
                rw (e, f, wilson-eq-ok m n h (omega arith), wilson-eq-ok rm rn k (omega arith), g)
                    refl,
                (h, k, compared a b refl refl limit g refl),
              )
        ]
      ]

  day_verdicts-IsSound :
      IsSubtracted
      → (side : Side) (source name : Text) (by_day : Days) (entries : List (ℕ × (ℕ × ℕ)))
      → 1 ≤ rule.min_decisions
      → AreShares rule.reference_days by_day
      → AreShares rule.reference_days entries
      → (vs : List DayVerdict) × (day_verdicts out side source name rule by_day entries ≡ ok vs)
        × All IsSound vs
  unfolding day_verdicts day_verdict
  day_verdicts-IsSound minus side source name by_day [] one h k = ([], refl, tt)
  day_verdicts-IsSound minus side source name by_day ((day, cell) ∷ rest) one h k =
      let (before, b, share) =
        reference-IsShare by_day day rule.reference_days
          (All-imp (λ (entry : ℕ × (ℕ × ℕ)). IsShare entry.1) by_day (λ entry g. g.0) h) k.0.1 in
      let (judged, e, sound) =
        verdict_of-IsSound minus side source name day cell before one k.0.0 share in
      let (vs, f, sounds) = day_verdicts-IsSound minus side source name by_day rest one h k.1 in
      (
        verdict_with side source name day cell before judged ∷ vs,
        rw (b, e, f) refl,
        (sound, sounds),
      )

  source_verdicts-IsSound :
      IsSubtracted
      → (side : Side) (name : Text) (by_source : Dict Text Days) (sources : List Text)
      → 1 ≤ rule.min_decisions
      → All (λ (entry : Text × Days). AreShares rule.reference_days entry.1) by_source
      → (vs : List DayVerdict) × (source_verdicts out side name rule by_source sources ≡ ok vs)
        × All IsSound vs
  unfolding source_verdicts
  source_verdicts-IsSound minus side name by_source [] one h = ([], refl, tt)
  source_verdicts-IsSound minus side name by_source (source ∷ sources) one h =
      let k = All-find_or (AreShares rule.reference_days) [] source by_source tt h in
      let (vs, e, sound) =
        day_verdicts-IsSound minus side source name (find_or [] source by_source) _ one k k in
      let (ws, f, sounds) = source_verdicts-IsSound minus side name by_source sources one h in
      (vs ++ ws, rw (e, f) refl, All-append IsSound vs ws sound sounds)

  -- With a drift rule that passes its check, counts of days that have the rule's reference days of
  -- dates before them, and a caller's context that subtracts the margin from the bounds,
  -- `match_rate` returns: it raises neither from the dates nor from `wilson`. In each verdict the
  -- matched decisions are part of the decided ones, on the day and in the reference; and it is
  -- INSUFFICIENT with too few decisions that day, NO_REFERENCE with enough but too few before, and
  -- else has both Wilson bounds and is DROP or NORMAL by the comparison of the one with the other
  -- less the margin.
  pub match_rate-IsSound :
      (counts : List Count) (side : Side) (name : Text)
      → is_drift rule ≡ true
      → IsSubtracted
      → All (IsDated rule.reference_days) counts
      → (vs : List DayVerdict) × (match_rate out counts side name rule ≡ ok vs) × All IsSound vs
  unfolding match_rate
  match_rate-IsSound counts side name h minus dated =
      let unforced = keep (λ c. not c.key.forced) counts in
      let by_source = daily unforced side (λ c. c.key.outcome == name) in
      let (vs, e, sound) =
        source_verdicts-IsSound minus side name by_source (sort_by ◌<=◌ (keys by_source))
          (min_decisions-le rule h)
          (daily-AreShares rule.reference_days unforced side (λ c. c.key.outcome == name)
            (All-keep (IsDated rule.reference_days) (λ c. not c.key.forced) counts dated)) in
      (vs, rw (h, e) refl, sound)
