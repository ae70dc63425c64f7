-- ===== src/Correlation/Exact/Order.antt =====
-- The result of the exact path does not depend on the order of the observations.

use reconcileflow.Base.{
  ◌≡◌, sym, ap, ◌∙◌, inl, inr, Bool, true, Option, List, [], ◌∷◌, map, keep, In, In-keep, All-In,
  All-keep, Bool-cases,
}
use reconcileflow.Base.Order.{Text, nat_ord, list_ord}
use reconcileflow.Base.Sameness.{IsSingle, sort_by-eq_of_same, In-of_keep, In-map, In-of_map}
use reconcileflow.Correlation.Exact.{Identity, identity_ord, Observation, identity}
use reconcileflow.Correlation.Exact.Carriers.{is_on, is_the_value, is_carrier, carriers}
use reconcileflow.Correlation.Exact.Duplicates.{IsRedelivery, AreApart}
use reconcileflow.Correlation.Exact.Sound.{side_carriers}
use reconcileflow.Correlation.Exact.Reading.{IsMapping, IsReading, is_on-content}

-- Each of the observations has a delivery among the others.
abbrev pub IsCovered : List Observation → List Observation → Type 0
IsCovered os os' =
    (o : Observation)
    → In o os
    → (o' : Observation) × In o' os' × IsRedelivery o o' × IsMapping o × IsMapping o'

AreApart-keep :
    (p : Observation → Bool) (os : List Observation) → AreApart os → AreApart (keep p os)
AreApart-keep p [] apart = tt
AreApart-keep p (o ∷ os) apart = elim (Bool-cases (p o)) [
  | inl e ↦ rw e (All-keep _ p os apart.0, AreApart-keep p os apart.1)
  | inr e ↦ rw e (AreApart-keep p os apart.1)
]

pub AreApart-IsSingle : (os : List Observation) → AreApart os → IsSingle (map identity os)
AreApart-IsSingle [] apart = tt
AreApart-IsSingle (o ∷ os) apart = (
  λ m.
      let (x, n, e) = In-of_map identity os m in
      All-In (λ (y : Observation). ¬ (identity o ≡ identity y)) n apart.0 (sym e),
  AreApart-IsSingle os apart.1,
)

pub Identities-set : IsSet (List Identity)
Identities-set = hlevel

pub In-identities :
    {os os' : List Observation}
    → IsCovered os os'
    → (i : Identity) → In i (map identity os)
    → In i (map identity os')
In-identities {os} covers i m =
    let (o, n, e) = In-of_map identity os m in
    let (o', m', r, u, u') = covers o n in rw (sym e ∙ sym r.0) (In-map identity m')

module _ {ℓ} {K : Type ℓ} (read : Observation → K → Option Text) (reads : IsReading read) where
  -- The carriers of a value on a side, of observations in their order.
  abbrev carriers_on : K → Text → List Text → List Observation → List Identity
  carriers_on key value side os = carriers read key value (keep (is_on side) os)

  carriers_on-transfer :
      (key : K) (value : Text) (side : List Text) {os os' : List Observation}
      → IsCovered os os'
      → (i : Identity) → In i (carriers_on key value side os)
      → In i (carriers_on key value side os')
  carriers_on-transfer key value side {os} {os'} covered i m =
      let (o, n, e) =
        In-of_map identity (keep (is_carrier read key value) (keep (is_on side) os)) m in
      let (n1, c) = In-of_keep (is_carrier read key value) (keep (is_on side) os) n in
      let (n2, d) = In-of_keep (is_on side) os n1 in
      let (o', m', r, u, u') = covered o n2 in
      let d' : is_on side o' ≡ true = is_on-content side o' o r.1 ∙ d in
      let c' : is_carrier read key value o' ≡ true =
        ap (is_the_value value) (reads o' o key u' u r.1) ∙ c in
      rw (sym e ∙ sym r.0)
        (In-map identity (In-keep (is_carrier read key value) c' (In-keep (is_on side) d' m')))

  carriers_on-IsSingle :
      (key : K) (value : Text) (side : List Text) (os : List Observation)
      → AreApart os
      → IsSingle (carriers_on key value side os)
  carriers_on-IsSingle key value side os apart =
      AreApart-IsSingle _ (AreApart-keep _ _ (AreApart-keep _ os apart))

  -- Sorted, the carriers of a value are the same.
  pub side_carriers-same :
      (name_of : K → Text) (key : K) (value : Text) (side : List Text) (os os' : List Observation)
      → AreApart os
      → AreApart os'
      → IsCovered os os'
      → IsCovered os' os
      → side_carriers read name_of key value side os ≡ side_carriers read name_of key value side os'
  side_carriers-same name_of key value side os os' apart apart' covers covered =
      sort_by-eq_of_same Identities-set _ _ (carriers_on-IsSingle key value side os apart)
        (carriers_on-IsSingle key value side os' apart')
        (carriers_on-transfer key value side covers) (carriers_on-transfer key value side covered)
