-- ===== src/Rules/Licence.antt =====
-- What each rule guarantees of its candidates: the criterion that the rule declares.
use mathlib.Core.List.{Sublistᴰ}
use reconcileflow.Decimal
use reconcileflow.Base.{
  ℕ, zero, suc, ◌+◌, ◌≤◌, ◌<◌, ◌≡◌, ap, ◌∙◌, refl, inl, inr, Bool, true, false, some, List, [], ◌∷◌,
  map, arith, In, here, there, All, All-append, All-of_In, All-In, All-keep, All-imp, Bool-cases,
  Option-cases, ltb, keep, length,
}
use reconcileflow.Base.Order.{Text, nat_ord, list_ord, ◌==◌, eq_of_==}
use reconcileflow.Base.Dict.{Dict, find_or, find_or-alter}
use reconcileflow.Decimal.{abs, sub, lt, eq, decimal_zero}
use reconcileflow.Models.{Record, Tolerance, Match}
use reconcileflow.Rules.{
  date_gap, amount_tolerance, collect, present, index_one, index_references, reference_match,
  exact_match, tolerant_match, m1_pair, m2_pair, combinations, range_from, sum_amounts,
  aggregate_match, m3_combo, in_window,
}

-- A match of a left record with one or several right records, by the criterion of its rule.
pub data Licensed (tol : Tolerance) (lefts rights : List Record) : Match → Type 0 where
  by_reference :
      {l r : Record} (ref : Text)
      → In l lefts
      → In r rights
      → present l.reference ≡ some ref
      → present r.reference ≡ some ref
      → Licensed tol lefts rights (reference_match l r)
  by_amount :
      {l r : Record}
      → In l lefts
      → In r rights
      → eq l.amount r.amount ≡ true
      → ltb tol.date_days (date_gap l.value_date r.value_date) ≡ false
      → Licensed tol lefts rights (exact_match tol l r)
  by_tolerance :
      {l r : Record}
      → In l lefts
      → In r rights
      → lt (amount_tolerance l.amount tol) (abs (sub l.amount r.amount)) ≡ false
      → ltb tol.date_days (date_gap l.value_date r.value_date) ≡ false
      → Licensed tol lefts rights (tolerant_match tol l r)
  by_sum :
      {l : Record} {size : ℕ} {combo : List Record}
      → In l lefts
      → Sublistᴰ combo (in_window tol l rights)
      → length combo ≡ size
      → 2 ≤ size
      → size ≤ tol.max_aggregate_size
      → lt (amount_tolerance l.amount tol) (abs (sub l.amount (sum_amounts decimal_zero combo)))
        ≡ false
      → Licensed tol lefts rights (aggregate_match tol l size combo)

pub All-collect {ℓ κ μ} :
    {A : Type ℓ} {B : Type κ} (P : B → Type μ) (f : A → List B) (xs : List A)
    → ((x : A) → In x xs → All P (f x))
    → All P (collect f xs)
unfolding collect
All-collect P f [] h = tt
All-collect P f (x ∷ xs) h =
    All-append P (f x) (collect f xs) (h x here) (All-collect P f xs (λ y m. h y (there m)))

pub All-map {ℓ κ μ} :
    {A : Type ℓ} {B : Type κ} (P : B → Type μ) (f : A → B) (xs : List A)
    → All (λ x. P (f x)) xs
    → All P (map f xs)
All-map P f [] h = tt
All-map P f (x ∷ xs) h = (h.0, All-map P f xs h.1)

pub In-of_keep {ℓ} : {A : Type ℓ} (p : A → Bool) (xs : List A) {x : A} → In x (keep p xs) → In x xs
In-of_keep p xs m =
    All-In (λ y. In y xs) m (All-keep (λ y. In y xs) p xs (All-of_In (λ y. In y xs) xs (λ y k. k)))

empty-sublist {ℓ} : {A : Type ℓ} (ys : List A) → Sublistᴰ [] ys
empty-sublist [] = Sublistᴰ.slnil
empty-sublist (y ∷ ys) = Sublistᴰ.cons (empty-sublist ys)

-- The combinations of a size are sublists of that length.
pub combinations-sublists {ℓ} :
    {A : Type ℓ} (k : ℕ) (xs : List A)
    → All (λ combo. (length combo ≡ k) × Sublistᴰ combo xs) (combinations k xs)
unfolding combinations
combinations-sublists zero xs = ((refl, empty-sublist xs), tt)
combinations-sublists (suc k) [] = tt
combinations-sublists (suc k) (x ∷ xs) =
    All-append _ (map (◌∷◌ x) (combinations k xs)) (combinations (suc k) xs)
      (All-map _ (◌∷◌ x) (combinations k xs) (
        All-imp _ (combinations k xs) (λ c h. (ap suc h.0, Sublistᴰ.cons-cons refl h.1))
          (combinations-sublists k xs)))
      (All-imp _ (combinations (suc k) xs) (λ c h. (h.0, Sublistᴰ.cons h.1))
        (combinations-sublists (suc k) xs))

pub range_from-bounds : (lo n : ℕ) → All (λ size. (lo ≤ size) × (size < lo + n)) (range_from lo n)
unfolding range_from
range_from-bounds lo zero = tt
range_from-bounds lo (suc n) = (
  (omega arith, omega arith),
  All-imp _ (range_from (lo + 1) n) (λ size h. (omega arith, omega arith))
      (range_from-bounds (lo + 1) n),
)

-- The entries of the index under a reference carry it.
pub index_references_sound :
    (rs : List Record) (ref : Text) (ys : List Record) (d : Dict Text (List Record))
    → ((x : Record) → In x ys → In x rs)
    → All (λ r. In r rs × (present r.reference ≡ some ref)) (find_or [] ref d)
    → All (λ r. In r rs × (present r.reference ≡ some ref)) (find_or [] ref (index_references ys d))
unfolding index_references
index_references_sound rs ref [] d into h = h
index_references_sound rs ref (y ∷ ys) d into h =
    index_references_sound rs ref ys (index_one y d) (λ x m. into x (there m))
      (elim (Option-cases (present y.reference)) [
        | inl e ↦ rw (e, index_one) h
        | inr (q, e) ↦
            rw (e, index_one)
              (rw find_or-alter (elim (Bool-cases (q == ref)) [
                | inl t ↦ rw t (
                    All-append _ (find_or [] ref d) (y ∷ []) h
                      ((into y here, e ∙ ap some (eq_of_== q ref t)), tt))
                | inr t ↦ rw t h
              ]))
      ])

module _ (tol : Tolerance) (lefts rights : List Record) where
  abbrev pub AllLicensed : List Match → Type 0
  AllLicensed = All (Licensed tol lefts rights)

  pub m1_pair-Licensed : (l r : Record) → In l lefts → In r rights → AllLicensed (m1_pair tol l r)
  unfolding m1_pair
  m1_pair-Licensed l r ml mr = elim (Bool-cases (eq l.amount r.amount)) [
    | inr e ↦ rw (m1_pair, e) tt
    | inl e ↦ elim (Bool-cases (ltb tol.date_days (date_gap l.value_date r.value_date))) [
      | inl d ↦ rw (m1_pair, e, d) tt
      | inr d ↦ rw (m1_pair, e, d) (by_amount ml mr e d, tt)
    ]
  ]

  pub m2_pair-Licensed : (l r : Record) → In l lefts → In r rights → AllLicensed (m2_pair tol l r)
  unfolding m2_pair
  m2_pair-Licensed l r ml mr =
      elim (Bool-cases (lt (amount_tolerance l.amount tol) (abs (sub l.amount r.amount)))) [
        | inl e ↦ rw (m2_pair, e) tt
        | inr e ↦ elim (Bool-cases (ltb tol.date_days (date_gap l.value_date r.value_date))) [
          | inl d ↦ rw (m2_pair, e, d) tt
          | inr d ↦ rw (m2_pair, e, d) (by_tolerance ml mr e d, tt)
        ]
      ]

  pub m3_combo-Licensed :
      (l : Record) (size : ℕ) (combo : List Record)
      → In l lefts
      → Sublistᴰ combo (in_window tol l rights)
      → length combo ≡ size
      → 2 ≤ size
      → size ≤ tol.max_aggregate_size
      → AllLicensed (m3_combo tol l size combo)
  unfolding m3_combo
  m3_combo-Licensed l size combo ml sub len lo hi =
      elim (Bool-cases (
        lt (amount_tolerance l.amount tol)
          (abs (Decimal.sub l.amount (sum_amounts decimal_zero combo))))) [
            | inl e ↦ rw (m3_combo, e) tt
            | inr e ↦ rw (m3_combo, e) (by_sum ml sub len lo hi e, tt)
          ]
