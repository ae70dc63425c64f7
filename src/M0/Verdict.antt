-- ===== src/M0/Verdict.antt =====
-- The tree of verdicts of src/reconcileflow/m0/attribution.py, and its perturbation.
use reconcileflow.Base.{
  ℕ, Bool, true, false, ◌&&◌, ◌||◌, not, Option, none, some, List, [], ◌∷◌, eqb, if◌then◌else◌,
}
use reconcileflow.Base.Int.{ℤ, pos, negsuc}
use reconcileflow.Decimal.{Decimal, add, mul, div, le, lt, eq, decimal_one}
use reconcileflow.M0.Attribution.{
  RunStatus, null, valid_but_inconclusive, valid, Attribution, a, a_with_weak_residual,
  needs_different_mechanism, c_scoring_required, b_hybrid, borderline, correlator_not_measured,
  Thresholds, Metrics, unresolved, d_of, e_value,
}

-- `_q`
unfoldable pub q_value : Decimal → Decimal → Thresholds → Option Decimal
q_value r t th = if le th.r_min r then some (div t r) else none

-- `gate0`
unfoldable pub gate0 : Metrics → Thresholds → RunStatus
gate0 m th =
    if lt th.capture_failure_max m.oracle_capture_failure
    then null
    else if lt m.truth_coverage th.truth_coverage_min
    then valid_but_inconclusive
    else valid

-- `q is not None and q >= th.q_acceptable_min`
abbrev pub is_acceptable : Option Decimal → Thresholds → Bool
is_acceptable none th = false
is_acceptable (some q) th = le th.q_acceptable_min q

-- The branches that read `r` and `t`.
abbrev pub residual_verdict : Option Decimal → Option Decimal → Thresholds → Attribution
residual_verdict (some r) (some t) th =
    if is_acceptable (q_value r t th) th then a else a_with_weak_residual
residual_verdict _ _ th = correlator_not_measured

abbrev pub correlator_verdict : Decimal → Option Decimal → Option Decimal → Thresholds → Attribution
correlator_verdict d (some r) (some t) th =
    if lt r th.r_min
    then needs_different_mechanism
    else if le th.e_min (e_value d t)
    then b_hybrid
    else c_scoring_required
correlator_verdict d _ _ th = correlator_not_measured

-- `_classify`
unfoldable pub classify :
    Decimal → Decimal → Decimal → Option Decimal → Option Decimal → Thresholds → Attribution
classify d d_acc unresolved r t th =
    if eq d decimal_one && eq d_acc decimal_one
    then a
    else if le th.d_min d && le th.d_acc_min d_acc && le unresolved th.unresolved_max
    then residual_verdict r t th
    else if le th.d_min d
    then needs_different_mechanism
    else correlator_verdict d r t th

pub record Decision : Type 0 where
  pub run : RunStatus
  pub attribution : Option Attribution
  pub nominal : Option Attribution
  pub borderline_checked : Bool

-- `point`, with both of `r` and `t` measured.
pub record Point : Type 0 where
  pub d : Decimal
  pub d_acc : Decimal
  pub unresolved : Decimal
  pub r : Decimal
  pub t : Decimal

pub data Axis : Type 0 where
  on_d on_d_acc on_unresolved on_r on_t : Axis

abbrev pub axes : List Axis
axes = on_d ∷ on_d_acc ∷ on_unresolved ∷ on_r ∷ on_t ∷ []

-- `value + sign * band`
unfoldable pub moved_by : ℤ → Decimal → Decimal → Decimal
moved_by sign band value = add value (mul (record { coefficient = sign; places = 0 }) band)

-- `{**point, name: value + sign * band}`
unfoldable pub moved : Thresholds → Point → Axis → ℤ → Point
moved th p on_d sign = record p { d = moved_by sign th.borderline_band p.d }
moved th p on_d_acc sign = record p { d_acc = moved_by sign th.d_acc_band p.d_acc }
moved th p on_unresolved sign = record p {
  unresolved = moved_by sign th.borderline_band p.unresolved;
}
moved th p on_r sign = record p { r = moved_by sign th.borderline_band p.r }
moved th p on_t sign = record p { t = moved_by sign th.borderline_band p.t }

-- `moved["d"] > moved["d_acc"] or moved["t"] > moved["r"]`, which skips the point.
unfoldable pub is_impossible : Point → Bool
is_impossible p = lt p.d_acc p.d || lt p.r p.t

unfoldable pub classify_point : Thresholds → Point → Attribution
classify_point th p = classify p.d p.d_acc p.unresolved (some p.r) (some p.t) th

abbrev pub attribution_code : Attribution → ℕ
attribution_code a = 0
attribution_code a_with_weak_residual = 1
attribution_code needs_different_mechanism = 2
attribution_code c_scoring_required = 3
attribution_code b_hybrid = 4
attribution_code borderline = 5
attribution_code correlator_not_measured = 6

-- Whether a move turns the verdict.
unfoldable pub turns : Thresholds → Point → Attribution → Axis → ℤ → Bool
turns th p nominal axis sign =
    let q = moved th p axis sign in
    not (is_impossible q)
    && not (eqb (attribution_code (classify_point th q)) (attribution_code nominal))

-- The loop over the axes, and over the two signs.
unfoldable pub any_turns : Thresholds → Point → Attribution → List Axis → Bool
any_turns th p nominal [] = false
any_turns th p nominal (axis ∷ rest) =
    if turns th p nominal axis (negsuc 0)
    then true
    else if turns th p nominal axis (pos 1)
    then true
    else any_turns th p nominal rest

-- The verdict of a measured correlator.
unfoldable pub decide_point : RunStatus → Thresholds → Point → Decision
decide_point status th p =
    let nominal = classify_point th p in
    record {
      run = status;
      attribution = some (if any_turns th p nominal axes then borderline else nominal);
      nominal = some nominal;
      borderline_checked = true;
    }

unfoldable pub unchecked : RunStatus → Attribution → Decision
unchecked status nominal = record {
  run = status;
  attribution = some nominal;
  nominal = some nominal;
  borderline_checked = false;
}

unfoldable pub decide_valid : Metrics → Thresholds → Option Decimal → Option Decimal → Decision
decide_valid m th (some r) (some t) =
    decide_point valid th
      (record { d = d_of m; d_acc = m.d_acc; unresolved = unresolved m; r = r; t = t })
decide_valid m th r t = unchecked valid (classify (d_of m) m.d_acc (unresolved m) r t th)

abbrev pub inconclusive : RunStatus → Decision
inconclusive status = record {
  run = status;
  attribution = none;
  nominal = none;
  borderline_checked = false;
}

-- `decide`
unfoldable pub decide : Metrics → Thresholds → Decision
decide m th = elim (gate0 m th) [ valid ↦ decide_valid m th m.r m.t | status ↦ inconclusive status ]
