-- ===== src/Decimal.antt =====
-- The decimal arithmetic of Python's `decimal` under the context of
-- src/reconcileflow/numeric.py (28 digits, half to even). A value is
-- `coefficient / 10 ^ places`; a trailing zero and a zero's sign, which only the printed form
-- shows, are not kept apart, and neither are NaN and the infinities.
pub mod Order
use reconcileflow.Base.{
  ℕ, zero, suc, ◌+◌, ◌-◌, ◌*◌, ◌/◌, ◌%◌, ◌^◌, max, Bool, true, false, ◌&&◌, ◌||◌, not, ltb, leb,
  eqb, if◌then◌else◌,
}
use reconcileflow.Base.Int.{ℤ, pos, ◌+ℤ◌, ◌-ℤ◌, ◌*ℤ◌, leb_ℤ, magnitude, is_negative, with_sign}

pub record Decimal : Type 0 where
  pub coefficient : ℤ
  pub places : ℕ

-- `ENGINE_CONTEXT`: its precision. The rounding is `divide_half_even` below.
abbrev pub engine_precision : ℕ
engine_precision = 28

-- The quotient by a divisor, rounded half to even.
unfoldable pub divide_half_even : ℕ → ℕ → ℕ
divide_half_even n divisor =
    let q = n / divisor in
    let r = n % divisor in
    if ltb divisor (2 * r) || (eqb (2 * r) divisor && eqb (q % 2) 1) then q + 1 else q

-- The number of decimal digits, the fuel being the number itself.
unfoldable pub digits_from : ℕ → ℕ → ℕ
digits_from zero n = 1
digits_from (suc fuel) n = elim (ltb n 10) [ true ↦ 1 | false ↦ suc (digits_from fuel (n / 10)) ]

unfoldable pub digits : ℕ → ℕ
unfolding digits_from
digits n = digits_from n n

-- The context's rounding of an exact result to 28 digits.
unfoldable pub rounded : Decimal → Decimal
unfolding digits divide_half_even
rounded d =
    let n = magnitude d.coefficient in
    let excess = digits n - engine_precision in
    let q = divide_half_even n (10 ^ excess) in
    if eqb excess 0 then d else record {
      coefficient = with_sign (is_negative d.coefficient) (q * 10 ^ (excess - d.places));
      places = d.places - excess;
    }

-- Both coefficients at the larger number of places.
abbrev aligned : Decimal → ℕ → ℤ
aligned d m = with_sign (is_negative d.coefficient) (magnitude d.coefficient * 10 ^ (m - d.places))

unfoldable pub add : Decimal → Decimal → Decimal
unfolding rounded ◌+ℤ◌
add a b =
    let m = max a.places b.places in
    rounded (record { coefficient = aligned a m +ℤ aligned b m; places = m })

unfoldable pub sub : Decimal → Decimal → Decimal
unfolding rounded ◌-ℤ◌
sub a b =
    let m = max a.places b.places in
    rounded (record { coefficient = aligned a m -ℤ aligned b m; places = m })

unfoldable pub mul : Decimal → Decimal → Decimal
unfolding rounded ◌*ℤ◌
mul a b =
    rounded (record { coefficient = a.coefficient *ℤ b.coefficient; places = a.places + b.places })

-- `a / b` for `b` not zero: enough digits of the quotient, made sticky where it is inexact, and
-- rounded once. A zero divisor, which the callers rule out, raises in the program.
unfoldable pub div : Decimal → Decimal → Decimal
unfolding rounded digits
div a b =
    let n = magnitude b.coefficient in
    let shift = digits n + engine_precision + 1 in
    let top = magnitude a.coefficient * 10 ^ (shift + b.places) in
    let q = top / n in
    let sticky = if not (eqb (top % n) 0) && eqb (q % 5) 0 then q + 1 else q in
    rounded (record {
      coefficient = with_sign (not (leb_ℤ (pos 0) (a.coefficient *ℤ b.coefficient))) sticky;
      places = a.places + shift;
    })

-- `abs(d)`, which rounds to the context too.
unfoldable pub abs : Decimal → Decimal
unfolding rounded
abs d = rounded (record d { coefficient = pos (magnitude d.coefficient) })

-- `d.quantize(Decimal(1).scaleb(-places))`, half to even.
unfoldable pub quantize : ℕ → Decimal → Decimal
unfolding divide_half_even
quantize p d =
    let n = magnitude d.coefficient in
    let kept =
      if leb d.places p
      then n * 10 ^ (p - d.places)
      else divide_half_even n (10 ^ (d.places - p)) in
    record { coefficient = with_sign (is_negative d.coefficient) kept; places = p }

-- Comparisons are exact: they do not use the context.
unfoldable pub le : Decimal → Decimal → Bool
unfolding ◌*ℤ◌
le a b = leb_ℤ (a.coefficient *ℤ pos (10 ^ b.places)) (b.coefficient *ℤ pos (10 ^ a.places))

unfoldable pub lt : Decimal → Decimal → Bool
unfolding le
lt a b = not (le b a)

unfoldable pub eq : Decimal → Decimal → Bool
unfolding le
eq a b = le a b && le b a

-- `Decimal(n)` of an integer, which is exact.
unfoldable pub of_ℕ : ℕ → Decimal
of_ℕ n = record { coefficient = pos n; places = 0 }

abbrev pub decimal_zero : Decimal
decimal_zero = record { coefficient = pos 0; places = 0 }

abbrev pub decimal_one : Decimal
decimal_one = record { coefficient = pos 1; places = 0 }
