-- ===== src/Rules/Soundness.antt =====
-- Every candidate that a rule makes of available records meets the rule's criterion.
use mathlib.Core.List.{Sublistᴰ}
use mathlib.Core.List.Sublistᴰ
use reconcileflow.Base.{
  ◌-◌, refl, inl, inr, Bool, List, [], ◌∷◌, arith, In, All-imp, All-In, Bool-cases, Option-cases,
  ltb, keep, length,
}
use reconcileflow.Base.Order.{nat_ord, list_ord}
use reconcileflow.Base.Dict.{find_or}
use reconcileflow.Models.Rule.{RuleId}
use reconcileflow.Models.{Record, Tolerance}
use reconcileflow.Rules.{
  combinations, range_from, present, index_references, reference_match, m0_left, m0_reference,
  m1_exact, m2_tolerant, generate, in_window, m3_left, m3_aggregate,
}
use reconcileflow.Rules.Licence.{
  by_reference, AllLicensed, All-collect, All-map, In-of_keep, m1_pair-Licensed, m2_pair-Licensed,
  m3_combo-Licensed, index_references_sound, combinations-sublists, range_from-bounds,
}

keep-sublist {ℓ} :
    {A : Type ℓ} (p q : A → Bool) (xs : List A) → Sublistᴰ (keep q (keep p xs)) (keep q xs)
keep-sublist p q [] = Sublistᴰ.slnil
keep-sublist p q (x ∷ xs) = elim (Bool-cases (p x)) [
  | inl e ↦ elim (Bool-cases (q x)) [
    | inl f ↦ rw e (rw f (Sublistᴰ.cons-cons refl (keep-sublist p q xs)))
    | inr f ↦ rw e (rw f (keep-sublist p q xs))
  ]
  | inr e ↦ elim (Bool-cases (q x)) [
    | inl f ↦ rw e (rw f (Sublistᴰ.cons (keep-sublist p q xs)))
    | inr f ↦ rw e (rw f (keep-sublist p q xs))
  ]
]

module _ (tol : Tolerance) (lefts rights : List Record) (p q : Record → Bool) where
  abbrev ls : List Record
  ls = keep p lefts

  abbrev rs : List Record
  rs = keep q rights

  m0_left-Licensed :
      (l : Record) → In l ls → AllLicensed tol lefts rights (m0_left (index_references rs []) l)
  unfolding m0_left find_or
  m0_left-Licensed l m = elim (Option-cases (present l.reference)) [
    | inl e ↦ rw (m0_left, e) tt
    | inr (ref, e) ↦
        rw (m0_left, e)
          (All-map _ (reference_match l) _ (
            All-imp _ _
              (λ r h. by_reference ref (In-of_keep p lefts m) (In-of_keep q rights h.0) e h.1)
              (index_references_sound rs ref rs [] (λ x k. k) tt)))
  ]

  m3_left-Licensed : (l : Record) → In l ls → AllLicensed tol lefts rights (m3_left rs tol l)
  unfolding m3_left in_window
  m3_left-Licensed l m = elim (Bool-cases (ltb (length (in_window tol l rs)) 2)) [
    | inl e ↦ rw (m3_left, e) tt
    | inr e ↦
        rw (m3_left, e)
          (All-collect _ _ (range_from 2 (tol.max_aggregate_size - 1)) (λ size ms.
            All-collect _ _ (combinations size (in_window tol l rs)) (λ combo mc.
              let bounds = All-In _ ms (range_from-bounds 2 (tol.max_aggregate_size - 1)) in
              let (len, part) = All-In _ mc (combinations-sublists size (in_window tol l rs)) in
              m3_combo-Licensed tol lefts rights l size combo (In-of_keep p lefts m)
                (Sublistᴰ.trans part (keep-sublist q _ rights)) len bounds.0 (omega arith))))
  ]

  -- Whatever records are available, each candidate of a rule is licensed.
  pub generate-Licensed : (rule : RuleId) → AllLicensed tol lefts rights (generate rule ls rs tol)
  unfolding generate m0_reference m1_exact m2_tolerant m3_aggregate
  generate-Licensed RuleId.m0_reference = All-collect _ _ ls m0_left-Licensed
  generate-Licensed RuleId.m1_exact = All-collect _ _ ls (λ l ml. All-collect _ _ rs (λ r mr.
      m1_pair-Licensed tol lefts rights l r (In-of_keep p lefts ml) (In-of_keep q rights mr)))
  generate-Licensed RuleId.m2_tolerant = All-collect _ _ ls (λ l ml. All-collect _ _ rs (λ r mr.
      m2_pair-Licensed tol lefts rights l r (In-of_keep p lefts ml) (In-of_keep q rights mr)))
  generate-Licensed RuleId.m3_aggregate = elim (Bool-cases (ltb tol.max_aggregate_size 2)) [
    | inl e ↦ rw e tt
    | inr e ↦ rw e (All-collect _ _ ls m3_left-Licensed)
  ]
