-- ===== src/Rules/Pairs.antt =====
-- Which pairs the rules for single records propose: every pair that meets their criterion.
use reconcileflow.Base.{
  ◌≡◌, refl, inl, inr, true, false, some, List, [], ◌∷◌, map, In, here, there, In-left, In-right,
  Bool-cases, Option-cases, ltb,
}
use reconcileflow.Base.Order.{Text, nat_ord, list_ord, ◌==◌, ==_refl}
use reconcileflow.Base.Dict.{Dict, find_or, find_or-alter}
use reconcileflow.Decimal.{abs, sub, lt, eq}
use reconcileflow.Models.Rule.{RuleId}
use reconcileflow.Models.{Record, Tolerance, Match}
use reconcileflow.Rules.{
  date_gap, amount_tolerance, collect, present, index_one, index_references, reference_match,
  m0_left, m0_reference, exact_match, tolerant_match, m1_pair, m1_exact, m2_pair, m2_tolerant,
  generate,
}

pub In-collect {ℓ κ} :
    {A : Type ℓ} {B : Type κ} (f : A → List B) {a : A} {b : B} {xs : List A}
    → In b (f a)
    → In a xs
    → In b (collect f xs)
unfolding collect
In-collect f {a} m (here {xs = xs}) = In-left (collect f xs) m
In-collect f m (there {y = y} k) = In-right (f y) (In-collect f m k)

In-map {ℓ κ} :
    {A : Type ℓ} {B : Type κ} (f : A → B) {a : A} {xs : List A} → In a xs → In (f a) (map f xs)
In-map f here = here
In-map f (there m) = there (In-map f m)

-- An entry of the index stays there.
In-index_one :
    (ref : Text) {x : Record} (y : Record) (d : Dict Text (List Record))
    → In x (find_or [] ref d)
    → In x (find_or [] ref (index_one y d))
unfolding index_one
In-index_one ref y d m = elim (Option-cases (present y.reference)) [
  | inl e ↦ rw (e, index_one) m
  | inr (q, e) ↦
      rw (e, index_one)
        (rw find_or-alter
          (elim (Bool-cases (q == ref)) [ inl t ↦ rw t (In-left (y ∷ []) m) | inr t ↦ rw t m ]))
]

In-index_references_old :
    (ref : Text) {x : Record} (ys : List Record) (d : Dict Text (List Record))
    → In x (find_or [] ref d)
    → In x (find_or [] ref (index_references ys d))
unfolding index_references
In-index_references_old ref [] d m = m
In-index_references_old ref (y ∷ ys) d m =
    In-index_references_old ref ys (index_one y d) (In-index_one ref y d m)

In-index_one_self :
    (ref : Text) (x : Record) (d : Dict Text (List Record))
    → present x.reference ≡ some ref
    → In x (find_or [] ref (index_one x d))
unfolding index_one
In-index_one_self ref x d e =
    rw (e, index_one) (rw (find_or-alter, ==_refl ref) (In-right (find_or [] ref d) here))

In-index_references :
    (ref : Text) {x : Record} {ys : List Record} (d : Dict Text (List Record))
    → present x.reference ≡ some ref
    → In x ys
    → In x (find_or [] ref (index_references ys d))
unfolding index_references
In-index_references ref {x} d e (here {xs = ys}) =
    In-index_references_old ref ys (index_one x d) (In-index_one_self ref x d e)
In-index_references ref d e (there {y = y} m) = In-index_references ref (index_one y d) e m

module _ (tol : Tolerance) (l r : Record) {lefts rights : List Record} (ml : In l lefts)
    (mr : In r rights) where
  -- M0 proposes every pair with one present reference.
  pub m0-proposes :
      (ref : Text)
      → present l.reference ≡ some ref
      → present r.reference ≡ some ref
      → (c : Match) × In c (generate RuleId.m0_reference lefts rights tol)
        × (c.left_id ≡ l.id)
        × (c.right_ids ≡ r.id ∷ [])
  unfolding generate m0_reference m0_left reference_match
  m0-proposes ref el er = (
    reference_match l r,
    In-collect (m0_left (index_references rights []))
        (rw (m0_left, el) (In-map (reference_match l) (In-index_references ref [] er mr))) ml,
    refl,
    refl,
  )

  -- M1 proposes every pair of equal amounts within the date window.
  pub m1-proposes :
      eq l.amount r.amount ≡ true
      → ltb tol.date_days (date_gap l.value_date r.value_date) ≡ false
      → (c : Match) × In c (generate RuleId.m1_exact lefts rights tol)
        × (c.left_id ≡ l.id)
        × (c.right_ids ≡ r.id ∷ [])
  unfolding generate m1_exact m1_pair exact_match
  m1-proposes ea ed = (
    exact_match tol l r,
    In-collect (λ x. collect (m1_pair tol x) rights)
        (In-collect (m1_pair tol l) (rw (m1_pair, ea, ed) here) mr) ml,
    refl,
    refl,
  )

  -- M2 proposes every pair within the tolerance and the date window.
  pub m2-proposes :
      lt (amount_tolerance l.amount tol) (abs (sub l.amount r.amount)) ≡ false
      → ltb tol.date_days (date_gap l.value_date r.value_date) ≡ false
      → (c : Match) × In c (generate RuleId.m2_tolerant lefts rights tol)
        × (c.left_id ≡ l.id)
        × (c.right_ids ≡ r.id ∷ [])
  unfolding generate m2_tolerant m2_pair tolerant_match
  m2-proposes ea ed = (
    tolerant_match tol l r,
    In-collect (λ x. collect (m2_pair tol x) rights)
        (In-collect (m2_pair tol l) (rw (m2_pair, ea, ed) here) mr) ml,
    refl,
    refl,
  )
