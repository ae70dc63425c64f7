-- ===== src/M0/Stability.antt =====
-- The stability gate of src/reconcileflow/m0/stability.py. The standard deviation, which is
-- `statistics.stdev`, is a parameter.
use reconcileflow.Base.{
  ℕ, Bool, true, false, ◌&&◌, ◌||◌, not, List, [], ◌∷◌, ltb, eqb, length, is_empty, if◌then◌else◌,
}
use reconcileflow.Base.Int.{ℤ, pos, leb_ℤ, magnitude, is_negative}
use reconcileflow.Base.Order.{Text, nat_ord, list_ord, contains}
use reconcileflow.Base.Dict.{Dict, keys}
use reconcileflow.Base.Raised.{
  Result, ok, raised, value_error, index_error, invalid_operation, or_key_error, ◌>>=◌,
}
use reconcileflow.Decimal.{
  Decimal, engine_precision, digits, mul, div, quantize, le, lt, eq, of_ℕ, decimal_zero,
  decimal_one,
}
use reconcileflow.Base.Dict.{find}

abbrev pub min_reps : ℕ
min_reps = 5

abbrev pub extended_reps : ℕ
extended_reps = 10

abbrev pub min_gt_ops_per_rep : ℕ
min_gt_ops_per_rep = 10000

-- `Decimal("0.015")`
abbrev pub max_sd : Decimal
max_sd = record { coefficient = pos 15; places = 3 }

-- `0 <= value <= 1`
unfoldable pub is_fraction : Decimal → Bool
is_fraction value = le decimal_zero value && le value decimal_one

-- A check of a `_validate`: it goes on, or raises.
abbrev pub require {ℓ} : {A : Type ℓ} → Bool → Result A → Result A
require test rest = if test then rest else raised value_error

-- `_achievable`. `quantize` raises when its result has more digits than the context's precision.
unfoldable pub achievable : Decimal → ℕ → Result Bool
achievable value denominator =
    let k = quantize 0 (mul value (of_ℕ denominator)) in
    let back = quantize value.places (div k (of_ℕ denominator)) in
    if eqb denominator 0
    then ok true
    else if not (le decimal_zero k && le k (of_ℕ denominator))
    then ok false
    else if ltb engine_precision (digits (magnitude back.coefficient))
    then raised invalid_operation
    else ok (eq back value)

pub data Stability : Type 0 where
  stable stable_load_sensitive unstable extend_to_10 insufficient : Stability

pub record Repetition : Type 0 where
  pub metrics : Dict Text Decimal
  pub deterministic_gt_ops : ℤ

unfoldable pub are_fractions : Dict Text Decimal → Bool
are_fractions [] = true
are_fractions ((name, value) ∷ d) = is_fraction value && are_fractions d

unfoldable pub check_achievable : ℕ → Dict Text Decimal → Result Bool
check_achievable n [] = ok true
check_achievable n ((name, value) ∷ d) = do b ← achievable value n; require b (check_achievable n d)

-- `Repetition(...)`, its `__post_init__` included.
unfoldable pub repetition : Repetition → Result Repetition
repetition rep = require (are_fractions rep.metrics) (
    require (not (is_negative rep.deterministic_gt_ops))
      (do b ← check_achievable (magnitude rep.deterministic_gt_ops) rep.metrics; ok rep))

unfoldable pub is_subset : List Text → List Text → Bool
is_subset [] ys = true
is_subset (x ∷ xs) ys = contains x ys && is_subset xs ys

-- Equality of `frozenset`s.
unfoldable pub same_names : List Text → List Text → Bool
same_names xs ys = is_subset xs ys && is_subset ys xs

unfoldable pub all_track : List Text → List Repetition → Bool
all_track names [] = true
all_track names (r ∷ reps) = same_names (keys r.metrics) names && all_track names reps

-- `_metric_names`
unfoldable pub metric_names : List Repetition → Result (List Text)
metric_names [] = raised index_error
metric_names (r ∷ reps) =
    require (not (is_empty (keys r.metrics)))
      (require (all_track (keys r.metrics) (r ∷ reps)) (ok (keys r.metrics)))

-- `r.metrics[name] for r in reps`
unfoldable pub values_of : Text → List Repetition → Result (List Decimal)
values_of name [] = ok []
values_of name (r ∷ reps) = do
  value ← or_key_error (find name r.metrics)
  rest ← values_of name reps
  ok (value ∷ rest)

unfoldable pub has_few_ops : List Repetition → Bool
has_few_ops [] = false
has_few_ops (r ∷ reps) =
    not (leb_ℤ (pos min_gt_ops_per_rep) r.deterministic_gt_ops) || has_few_ops reps

-- The test of a group for INSUFFICIENT.
unfoldable pub is_insufficient : List Repetition → Bool
is_insufficient reps = ltb (length reps) min_reps || has_few_ops reps

module _ (stdev : List Decimal → Decimal) where
  -- `max` of the deviations of the names, from that of the first.
  unfoldable pub worst_of : Decimal → List Text → List Repetition → Result Decimal
  worst_of worst [] reps = ok worst
  worst_of worst (name ∷ names) reps = do
    values ← values_of name reps
    worst_of (if lt worst (stdev values) then stdev values else worst) names reps

  -- `_worst_sd`; `max` of nothing raises, but the names are never empty.
  unfoldable pub worst_sd : List Repetition → Result Decimal
  worst_sd reps = metric_names reps >>= λ names. elim names [
    | [] ↦ raised value_error
    | name ∷ rest ↦ do values ← values_of name reps; worst_of (stdev values) rest reps
  ]

  -- `assess`
  unfoldable pub assess : List Repetition → List Repetition → Result Stability
  assess fixed_seed variable_seed =
      if is_insufficient fixed_seed || is_insufficient variable_seed then ok insufficient else do
        fixed_names ← metric_names fixed_seed
        variable_names ← metric_names variable_seed
        require (same_names fixed_names variable_names) (do
          fixed_sd ← worst_sd fixed_seed
          elim (lt max_sd fixed_sd) [
            | true ↦ ok (if ltb (length fixed_seed) extended_reps then extend_to_10 else unstable)
            | false ↦ do
              variable_sd ← worst_sd variable_seed
              ok (if lt max_sd variable_sd then stable_load_sensitive else stable)
          ])
