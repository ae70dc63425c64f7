-- ===== src/Observation/Wilson.antt =====
-- The Wilson interval of src/reconcileflow/observation.py. The square root is
-- decimal's, a parameter.
use reconcileflow.Base.{ℕ, Bool, ◌&&◌, leb, if◌then◌else◌}
use reconcileflow.Base.Raised.{Result, ok, raised, value_error}
use reconcileflow.Decimal.{Decimal, add, sub, mul, div, lt, of_ℕ, decimal_zero, decimal_one}

-- `max(a, b)` and `min(a, b)`: the first unless the second is beyond it.
unfoldable pub larger : Decimal → Decimal → Decimal
larger a b = if lt a b then b else a

unfoldable pub smaller : Decimal → Decimal → Decimal
smaller a b = if lt b a then b else a

-- `0 <= successes <= trials and trials >= 1`
abbrev pub is_share : ℕ → ℕ → Bool
is_share successes trials = leb successes trials && leb 1 trials

module _ (sqrt : Decimal → Decimal) where
  -- The bounds of `_wilson`, of its share.
  unfoldable pub interval : ℕ → ℕ → Decimal → Decimal × Decimal
  interval successes trials z =
      let n = of_ℕ trials in
      let p = div (of_ℕ successes) n in
      let z2 = mul z z in
      let centre = add p (div z2 (mul (of_ℕ 2) n)) in
      let spread =
        mul z (sqrt (add (div (mul p (sub decimal_one p)) n) (div z2 (mul (mul (of_ℕ 4) n) n)))) in
      let denominator = add decimal_one (div z2 n) in
      (
        larger decimal_zero (div (sub centre spread) denominator),
        smaller decimal_one (div (add centre spread) denominator),
      )

  -- `wilson`
  unfoldable pub wilson : ℕ → ℕ → Decimal → Result (Decimal × Decimal)
  wilson successes trials z =
      if is_share successes trials then ok (interval successes trials z) else raised value_error
