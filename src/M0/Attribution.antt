-- ===== src/M0/Attribution.antt =====
-- The attribution verdict of src/reconcileflow/m0/attribution.py.
use reconcileflow.Base.{ℕ, Bool, true, false, ◌&&◌, not, Option, none, some, is_some}
use reconcileflow.Base.Int.{ℤ, pos, leb_ℤ, magnitude}
use reconcileflow.Base.Raised.{Result, ok, ◌>>=◌}
use reconcileflow.Decimal.{
  Decimal, add, sub, mul, quantize, le, lt, of_ℕ, decimal_zero, decimal_one,
}
use reconcileflow.M0.Stability.{min_gt_ops_per_rep, is_fraction, require, achievable}

pub data RunStatus : Type 0 where
  null valid_but_inconclusive valid : RunStatus

pub data Attribution : Type 0 where
  a a_with_weak_residual needs_different_mechanism c_scoring_required b_hybrid : Attribution
  borderline correlator_not_measured : Attribution

pub record Thresholds : Type 0 where
  pub q_acceptable_min : Decimal
  pub d_min : Decimal
  pub d_acc_min : Decimal
  pub unresolved_max : Decimal
  pub r_min : Decimal
  pub e_min : Decimal
  pub capture_failure_max : Decimal
  pub truth_coverage_min : Decimal
  pub borderline_band : Decimal
  pub d_acc_band : Decimal

abbrev pub hundredth : ℕ → Decimal
hundredth n = record { coefficient = pos n; places = 2 }

-- `RUN_001`, the defaults included.
abbrev pub run_001 : Thresholds
run_001 = record {
  q_acceptable_min = hundredth 90;
  d_min = hundredth 95;
  d_acc_min = hundredth 99;
  unresolved_max = hundredth 3;
  r_min = hundredth 80;
  e_min = hundredth 90;
  capture_failure_max = hundredth 1;
  truth_coverage_min = hundredth 95;
  borderline_band = hundredth 2;
  d_acc_band = record { coefficient = pos 5; places = 3 };
}

-- `0 < value <= 1`
unfoldable pub is_positive_fraction : Decimal → Bool
is_positive_fraction value = lt decimal_zero value && le value decimal_one

-- `Thresholds(...)`, its `__post_init__` included.
unfoldable pub thresholds : Thresholds → Result Thresholds
thresholds th =
    require
      (is_fraction th.q_acceptable_min
        && is_fraction th.d_min
        && is_fraction th.d_acc_min
        && is_fraction th.unresolved_max
        && is_fraction th.e_min
        && is_fraction th.capture_failure_max
        && is_fraction th.truth_coverage_min)
      (require
        (is_positive_fraction th.r_min
          && is_positive_fraction th.borderline_band
          && is_positive_fraction th.d_acc_band)
        (ok th))

pub record Metrics : Type 0 where
  pub d_cov : Decimal
  pub d_acc : Decimal
  pub r : Option Decimal
  pub t : Option Decimal
  pub truth_coverage : Decimal
  pub oracle_capture_failure : Decimal
  pub n : ℤ
  pub n_residual : Option ℤ

-- The properties `unresolved`, `d`, `f` and `e`.
unfoldable pub unresolved : Metrics → Decimal
unresolved m = sub decimal_one m.truth_coverage

unfoldable pub d_of : Metrics → Decimal
d_of m = mul m.d_cov m.d_acc

unfoldable pub f_of : Metrics → Decimal
f_of m = sub decimal_one (d_of m)

-- `_e`
unfoldable pub e_value : Decimal → Decimal → Decimal
e_value d t = add d (mul (sub decimal_one d) t)

unfoldable pub e_of : Metrics → Option Decimal
e_of m = elim m.t [ none ↦ none | some t ↦ some (e_value (d_of m) t) ]

-- A test of a value that may not have been measured; `None` passes.
abbrev pub if_measured {ℓ} : {A : Type ℓ} → (A → Bool) → Option A → Bool
if_measured test none = true
if_measured test (some x) = test x

-- `self.t > self.r`, when both are measured
abbrev pub exceeds_recall : Option Decimal → Option Decimal → Bool
exceeds_recall (some r) (some t) = lt r t
exceeds_recall _ _ = false

abbrev pub same_bool : Bool → Bool → Bool
same_bool true b = b
same_bool false b = not b

-- `n >= MIN_SAMPLE_SIZE`; the minimum of the residual sample is the same number.
abbrev pub is_sampled : ℤ → Bool
is_sampled n = leb_ℤ (pos min_gt_ops_per_rep) n

-- `_achievable` of a value, which raises if it is not.
unfoldable pub check : Decimal → ℕ → Result Bool
check value n = do reached ← achievable value n; require reached (ok true)

unfoldable pub check_measured : Option Decimal → ℕ → Result Bool
check_measured none n = ok true
check_measured (some value) n = check value n

-- `int((self.d_cov * self.n).to_integral_value(rounding=ROUND_HALF_EVEN))`
unfoldable pub d_cov_count : Metrics → ℕ
d_cov_count m = magnitude (quantize 0 (mul m.d_cov (of_ℕ (magnitude m.n)))).coefficient

-- The tests on the values alone, up to the sample sizes.
unfoldable pub is_consistent : Metrics → Bool
is_consistent m =
    is_fraction m.d_cov
    && is_fraction m.d_acc
    && is_fraction m.truth_coverage
    && is_fraction m.oracle_capture_failure
    && if_measured is_fraction m.r
    && if_measured is_fraction m.t
    && same_bool (is_some m.r) (is_some m.t)
    && not (exceeds_recall m.r m.t)
    && not (lt (unresolved m) m.oracle_capture_failure)
    && is_sampled m.n
    && same_bool (is_some m.r) (is_some m.n_residual)
    && if_measured is_sampled m.n_residual

-- The tests that each ratio is a count of its sample.
unfoldable pub check_counts : Metrics → Result Bool
check_counts m = do
  _ ← check m.d_cov (magnitude m.n)
  _ ← check m.truth_coverage (magnitude m.n)
  _ ← check m.oracle_capture_failure (magnitude m.n)
  _ ← check m.d_acc (d_cov_count m)
  elim m.n_residual [
    | none ↦ ok true
    | some n ↦ do _ ← check_measured m.r (magnitude n); check_measured m.t (magnitude n)
  ]

-- `Metrics(...)`, its `__post_init__` included.
unfoldable pub metrics : Metrics → Result Metrics
metrics m = require (is_consistent m) (do _ ← check_counts m; ok m)
