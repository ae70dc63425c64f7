-- ===== src/Stream/Watermark.antt =====
-- Settings, horizons and watermarks of src/reconcileflow/stream.py. Dates are ordinals. A
-- subtraction that would pass the first day, where the source raises OverflowError, stops there.
use reconcileflow.Base.{
  ℕ, ◌+◌, ◌-◌, max, min, Bool, false, ◌||◌, Option, none, some, ltb, leb, if◌then◌else◌,
}
use reconcileflow.Base.Order.{nat_ord, list_ord, ◌==◌}
use reconcileflow.Models.{Record, Tolerance}
use reconcileflow.Rules.{date_gap, present}
use reconcileflow.Stream.{PerSide, StreamConfig, BlockState}
use reconcileflow.Base.Raised.{Result, ok, raised, value_error}

-- What `_Replay.__init__` derives from the configuration.
pub record Settings : Type 0 where
  pub tol : Tolerance
  pub reference_window : ℕ
  pub lateness : ℕ
  pub max_component_days : Option ℕ

abbrev pub or_default : Option ℕ → ℕ → ℕ
or_default none d = d
or_default (some n) _ = n

-- The checks that a non-negative integer can fail: the reference horizon covers the date window.
unfoldable pub settings_of : StreamConfig → Result Settings
settings_of config =
    let reference_days = or_default config.reference_horizon_days config.tolerance.date_days in
    if ltb reference_days config.tolerance.date_days
    then raised value_error
    else ok (record {
      tol = config.tolerance;
      reference_window = reference_days;
      lateness = config.lateness_days;
      max_component_days = config.max_component_days;
    })

-- `_horizon`
unfoldable pub horizon : Settings → Record → ℕ
horizon s r = elim (present r.reference) [
  | none ↦ r.value_date + s.tol.date_days
  | some _ ↦ r.value_date + s.reference_window
]

-- `max` of the dates that are known, `None` if none is.
abbrev pub latest_of : Option ℕ → Option ℕ → Option ℕ
latest_of none none = none
latest_of (some a) none = some a
latest_of none (some b) = some b
latest_of (some a) (some b) = some (max a b)

-- The slower of two sides.
abbrev pub slower : Option ℕ → Option ℕ → Option ℕ
slower (some a) (some b) = some (min a b)
slower (some a) none = none
slower none _ = none

abbrev pub minus_lateness : ℕ → Option ℕ → Option ℕ
minus_lateness lateness none = none
minus_lateness lateness (some d) = some (d - lateness)

-- `_watermark`: the slower side's progress minus the lateness, `None` while a side has none.
unfoldable pub watermark : Settings → PerSide (Option ℕ) → BlockState → Option ℕ
watermark s progress b = minus_lateness s.lateness (
    slower (latest_of b.latest.on_left progress.on_left)
      (latest_of b.latest.on_right progress.on_right))

-- `value_date < watermark`, false while there is no watermark.
abbrev pub is_before : ℕ → Option ℕ → Bool
is_before d none = false
is_before d (some w) = ltb d w

-- `lrec.reference and lrec.reference == rrec.reference`
unfoldable pub same_reference : Record → Record → Bool
same_reference l r = elim (present l.reference) [
  | none ↦ false
  | some ref ↦ elim r.reference [ none ↦ false | some ref' ↦ ref == ref' ]
]

-- Whether two open records of opposite sides are linked.
unfoldable pub is_linked : Settings → Record → Record → Bool
is_linked s l r = leb (date_gap l.value_date r.value_date) s.tol.date_days || same_reference l r
