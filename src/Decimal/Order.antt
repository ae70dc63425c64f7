-- ===== src/Decimal/Order.antt =====
-- The order of the decimals of src/reconcileflow, of whatever numbers of places.
use reconcileflow.Base.{ℕ, ◌+◌, ◌*◌, ◌^◌, ◌≤◌, ◌≡◌, true, false, leb, arith, inl, inr, Bool-cases}
use native.Mathlib.Nat.{mul-le-mul_left, le_of_mul-le-mul_left, one-le-pow}
use reconcileflow.Base.Int.{pos_part, neg_part, sub_ℕ, ◌*ℤ◌, leb_ℤ}
use reconcileflow.Decimal.{Decimal, le, lt}

leb_sub : (x y z w : ℕ) → leb_ℤ (sub_ℕ x y) (sub_ℕ z w) ≡ leb (x + w) (z + y)
leb_sub x y z w = elim (Bool-cases (leb y x)) [
  | inl e ↦ elim (Bool-cases (leb w z)) [
    | inl f ↦ rw (e, f) (ground arith)
    | inr f ↦ rw (e, f) (ground arith)
  ]
  | inr e ↦ elim (Bool-cases (leb w z)) [
    | inl f ↦ rw (e, f) (ground arith)
    | inr f ↦ rw (e, f) (ground arith)
  ]
]

-- Two comparisons over different denominators, put together.
cross :
    (A B C pa na pb nb pc nc : ℕ)
    → 1 ≤ B
    → pa * B + nb * A ≤ pb * A + na * B
    → pb * C + nc * B ≤ pc * B + nb * C
    → pa * C + nc * A ≤ pc * A + na * C
cross A B C pa na pb nb pc nc one h k =
    let u : C * (pa * B + nb * A) ≤ C * (pb * A + na * B) = mul-le-mul_left C h in
    let v : A * (pb * C + nc * B) ≤ A * (pc * B + nb * C) = mul-le-mul_left A k in
    let w : B * (pa * C + nc * A) ≤ B * (pc * A + na * C) = omega arith in
    le_of_mul-le-mul_left w (omega arith)

le_iff :
    (a b : Decimal)
    → le a b
      ≡ leb
          (pos_part a.coefficient * 10 ^ b.places + neg_part b.coefficient * 10 ^ a.places)
          (pos_part b.coefficient * 10 ^ a.places + neg_part a.coefficient * 10 ^ b.places)
unfolding le ◌*ℤ◌
le_iff a b = rw leb_sub (ground arith)

pub le_trans : (a b c : Decimal) → le a b ≡ true → le b c ≡ true → le a c ≡ true
le_trans a b c h k =
    let h' = (rw le_iff at h) in
    let k' = (rw le_iff at k) in
    let x =
      cross (10 ^ a.places) (10 ^ b.places) (10 ^ c.places) (pos_part a.coefficient)
        (neg_part a.coefficient) (pos_part b.coefficient) (neg_part b.coefficient)
        (pos_part c.coefficient) (neg_part c.coefficient) (one-le-pow b.places 10 (omega arith))
        (ground arith) (ground arith) in
    rw le_iff (ground arith)

pub le_refl : (a : Decimal) → le a a ≡ true
unfolding le
le_refl a = ground arith

pub le_of_not-lt : (a b : Decimal) → lt a b ≡ false → le b a ≡ true
unfolding lt
le_of_not-lt a b h = ground arith

pub not-lt_of_le : (a b : Decimal) → le b a ≡ true → lt a b ≡ false
unfolding lt
not-lt_of_le a b h = ground arith

pub le_of_lt : (a b : Decimal) → lt a b ≡ true → le a b ≡ true
unfolding lt
le_of_lt a b h =
    let t : le b a ≡ false = ground arith in let x = (rw le_iff at t) in rw le_iff (ground arith)
