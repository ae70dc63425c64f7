-- ===== src/Base/Membership.antt =====
-- `x in xs` on concatenations, and against membership with the place kept.
use reconcileflow.Base.{
  ◌≡◌, refl, inl, inr, true, ◌||◌, List, [], ◌∷◌, ◌++◌, arith, In, here, there, Bool-cases,
}
use reconcileflow.Base.Order.{Ord, ◌==◌, ==_refl, eq_of_==, contains}

module _ {ℓ} {A : Type ℓ} ⦃o : Ord A⦄ where
  pub contains-append :
      (a : A) (xs ys : List A) → contains a (xs ++ ys) ≡ (contains a xs || contains a ys)
  unfolding contains
  contains-append a [] ys = refl
  contains-append a (x ∷ xs) ys = ground (arith, contains-append a xs ys)

  pub contains-append_left :
      (a : A) (xs ys : List A) → contains a xs ≡ true → contains a (xs ++ ys) ≡ true
  contains-append_left a xs ys h = rw (contains-append a xs ys, h) refl

  pub contains-append_right :
      (a : A) (xs ys : List A) → contains a ys ≡ true → contains a (xs ++ ys) ≡ true
  contains-append_right a xs ys h = ground (arith, contains-append a xs ys)

  pub contains-cons_self : (a : A) (xs : List A) → contains a (a ∷ xs) ≡ true
  unfolding contains
  contains-cons_self a xs = rw (==_refl a) refl

  pub contains-cons_of : (a x : A) (xs : List A) → contains a xs ≡ true → contains a (x ∷ xs) ≡ true
  unfolding contains
  contains-cons_of a x xs h = ground arith

  pub contains_of_In : {a : A} {xs : List A} → In a xs → contains a xs ≡ true
  contains_of_In {a} (here {xs = xs}) = contains-cons_self a xs
  contains_of_In {a} (there {y = y} {xs = xs} m) = contains-cons_of a y xs (contains_of_In m)

  pub In-of_contains : (a : A) (xs : List A) → contains a xs ≡ true → In a xs
  unfolding contains
  In-of_contains a [] h = absurd (ground arith)
  In-of_contains a (x ∷ xs) h = elim (Bool-cases (x == a)) [
    | inl e ↦ rw (eq_of_== x a e) here
    | inr e ↦ there (In-of_contains a xs (ground arith))
  ]
