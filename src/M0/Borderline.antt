-- ===== src/M0/Borderline.antt =====
-- BORDERLINE of src/reconcileflow/m0/attribution.py is what its protocol says: a possible point
-- next to the measured one has another verdict.
use reconcileflow.Base.{
  ◌≡◌, refl, ap, ◌≢◌, ◌⊎◌, ◌↔◌, inl, inr, true, false, Option, none, some, List, [], ◌∷◌, arith,
  eqb, In, here, there, Bool-cases,
}
use reconcileflow.Base.Int.{ℤ, pos, negsuc}
use reconcileflow.Decimal.{Decimal}
use reconcileflow.M0.Attribution.{
  valid, Attribution, borderline, Thresholds, Metrics, unresolved, d_of,
}
use reconcileflow.M0.Verdict.{
  gate0, classify, Point, Axis, axes, on_d, on_d_acc, on_unresolved, on_r, on_t, moved,
  is_impossible, classify_point, attribution_code, turns, any_turns, decide_point, decide_valid,
  decide,
}

classify-not_borderline :
    (d d_acc un : Decimal) (r t : Option Decimal) (th : Thresholds)
    → classify d d_acc un r t th ≢ borderline
unfolding classify
classify-not_borderline d d_acc un none none th = ground arith
classify-not_borderline d d_acc un none (some t) th = ground arith
classify-not_borderline d d_acc un (some r) none th = ground arith
classify-not_borderline d d_acc un (some r) (some t) th = ground arith

classify_point-not_borderline : (th : Thresholds) (p : Point) → classify_point th p ≢ borderline
unfolding classify_point
classify_point-not_borderline th p =
    classify-not_borderline p.d p.d_acc p.unresolved (some p.r) (some p.t) th

attribution_code-injective : (x y : Attribution) → attribution_code x ≡ attribution_code y → x ≡ y
attribution_code-injective x y e = ground arith

-- The signs that the loop tries.
abbrev pub IsSign : ℤ → Type 0
IsSign sign = (sign ≡ negsuc 0) ⊎ (sign ≡ pos 1)

-- One metric of a point, moved by its band, gives a possible point with another verdict.
abbrev pub HasTurn : Thresholds → Point → Type 0
HasTurn th p =
    (axis : Axis) × (sign : ℤ) × IsSign sign
    × (is_impossible (moved th p axis sign) ≡ false)
    × (classify_point th (moved th p axis sign) ≢ classify_point th p)

module _ (th : Thresholds) (p : Point) where
  turns-HasTurn :
      (axis : Axis) (sign : ℤ)
      → IsSign sign
      → turns th p (classify_point th p) axis sign ≡ true
      → HasTurn th p
  unfolding turns
  turns-HasTurn axis sign s h =
      let possible : is_impossible (moved th p axis sign) ≡ false = ground arith in
      let differ : eqb (attribution_code (classify_point th (moved th p axis sign)))
            (attribution_code (classify_point th p))
          ≡ false =
        ground arith in
      (axis, sign, s, possible, λ e. let e' = ap attribution_code e in ground arith)

  any_turns-HasTurn :
      (xs : List Axis) → any_turns th p (classify_point th p) xs ≡ true → HasTurn th p
  unfolding any_turns
  any_turns-HasTurn [] h = cc
  any_turns-HasTurn (x ∷ xs) h = elim (Bool-cases (turns th p (classify_point th p) x (negsuc 0))) [
    | inl e ↦ turns-HasTurn x (negsuc 0) (inl refl) e
    | inr e ↦ elim (Bool-cases (turns th p (classify_point th p) x (pos 1))) [
      | inl f ↦ turns-HasTurn x (pos 1) (inr refl) f
      | inr f ↦ any_turns-HasTurn xs (ground arith)
    ]
  ]

  turns_of_HasTurn :
      (axis : Axis) (sign : ℤ)
      → is_impossible (moved th p axis sign) ≡ false
      → classify_point th (moved th p axis sign) ≢ classify_point th p
      → turns th p (classify_point th p) axis sign ≡ true
  unfolding turns
  turns_of_HasTurn axis sign possible differ =
      elim (Bool-cases (
        eqb (attribution_code (classify_point th (moved th p axis sign)))
          (attribution_code (classify_point th p)))) [
            | inl e ↦ absurd (differ (attribution_code-injective _ _ (ground arith)))
            | inr e ↦ rw (possible, e) refl
          ]

  any_turns_of_turns :
      (axis : Axis) (sign : ℤ) (xs : List Axis)
      → In axis xs
      → IsSign sign
      → turns th p (classify_point th p) axis sign ≡ true
      → any_turns th p (classify_point th p) xs ≡ true
  unfolding any_turns
  any_turns_of_turns axis sign [] m s h = elim m [ ]
  any_turns_of_turns axis sign (_ ∷ xs) here (inl e) h = let k = (rw e at h) in rw k refl
  any_turns_of_turns axis sign (_ ∷ xs) here (inr e) h = let k = (rw e at h) in ground arith
  any_turns_of_turns axis sign (_ ∷ xs) (there m) s h =
      let k = any_turns_of_turns axis sign xs m s h in ground arith

In-axes : (axis : Axis) → In axis axes
In-axes on_d = here
In-axes on_d_acc = there here
In-axes on_unresolved = there (there here)
In-axes on_r = there (there (there here))
In-axes on_t = there (there (there (there here)))

module _ (m : Metrics) (th : Thresholds) (r t : Decimal) (run : gate0 m th ≡ valid)
    (measured_r : m.r ≡ some r) (measured_t : m.t ≡ some t) where
  abbrev point : Point
  point = record { d = d_of m; d_acc = m.d_acc; unresolved = unresolved m; r = r; t = t }

  decide-point : decide m th ≡ decide_point valid th point
  unfolding decide decide_valid
  decide-point = rw (decide, run, measured_r, measured_t) refl

  -- In a valid run with a measured correlator the verdict is BORDERLINE exactly if moving one of
  -- D, D_acc, unresolved, R and T by its band, up or down, gives a point with D at most D_acc and
  -- T at most R that the tree classifies otherwise than the measured point.
  pub decide-borderline :
      ((decide m th).attribution ≡ some borderline)
      ↔ HasTurn th (record { d = d_of m; d_acc = m.d_acc; unresolved = unresolved m; r = r; t = t })
  unfolding decide_point
  decide-borderline = (
    λ e. elim (Bool-cases (any_turns th point (classify_point th point) axes)) [
      | inl k ↦ any_turns-HasTurn th point axes k
      | inr k ↦
          let not_borderline = classify_point-not_borderline th point in
          let e' = (rw (decide-point, k) at e) in absurd (not_borderline (cc e'))
    ],
    λ (axis, sign, s, possible, differ).
        let k =
          any_turns_of_turns th point axis sign axes (In-axes axis) s
            (turns_of_HasTurn th point axis sign possible differ) in
        rw (decide-point, k) refl,
  )
