-- ===== src/Correlation/Exact/Invariance.antt =====
-- The order of the observations has no part in the result of the exact path.
use mathlib.Core.List.{Perm, Permᴰ}
use mathlib.Core.List.Permᴰ
use mathlib.Core.Logic.{∥∥₁_elim}
use reconcileflow.Base.{
  ℕ, ◌≡◌, refl, sym, ap, ◌∙◌, inl, inr, Option, List, [], ◌∷◌, length, map, length-map, arith, In,
  All, All-of_In, All-In,
}
use reconcileflow.Base.Order.{Text, nat_ord, list_ord, ◌<=◌}
use reconcileflow.Base.Shuffle.{length-eq_of_permᴰ}
use reconcileflow.Base.Sameness.{In-permᴰ, sort_by-eq_of_same}
use reconcileflow.Base.Sorting.{length-sort_by}
use reconcileflow.Base.Dict.{find_or}
use reconcileflow.Base.Raised.{Result, ok, ◌>>=◌}
use reconcileflow.Correlation.Topology.{Topology}
use reconcileflow.Correlation.Exact.{identity_ord, Observation, identity, Dedup, deduplicated}
use reconcileflow.Correlation.Exact.Join.{
  ExactResult, Found, found_nothing, group_sides, JoinOn, Carriers, by_value, join_value,
  join_values, join_one, join_all, join,
}
use reconcileflow.Correlation.Exact.Links.{
  value_of, composite_of, own_name, observed_key, authored_joins, observed_joins, exact_links,
  observed_links,
}
use reconcileflow.Correlation.Exact.Duplicates.{
  IsRepresented, represented, AreApart, deduplicated-IsStep,
}
use reconcileflow.Correlation.Exact.Consistent.{deduplicated-raised, deduplicated-eq-ok}
use reconcileflow.Correlation.Exact.Reading.{
  IsMapping, IsReading, value_of-IsReading, composite_of-IsReading,
}
use reconcileflow.Correlation.Exact.Sound.{find_or-side}
use reconcileflow.Correlation.Exact.Order.{
  IsCovered, AreApart-IsSingle, Identities-set, In-identities, side_carriers-same,
}
use reconcileflow.Correlation.Exact.Values.{by_value-AreCarried, values_of-same}

-- The loop over the values reads the two dictionaries by their values only.
join_values-same :
    (place name : Text) (up down up' down' : Carriers) (values : List Text) (found : Found)
    → ((v : Text) → find_or [] v up ≡ find_or [] v up')
    → ((v : Text) → find_or [] v down ≡ find_or [] v down')
    → join_values place name up down values found ≡ join_values place name up' down' values found
unfolding join_values join_value
join_values-same place name up down up' down' [] found p q = refl
join_values-same place name up down up' down' (v ∷ values) found p q =
    rw (p v, q v) (join_values-same place name up down up' down' values _ p q)

module _ {ℓ} {K : Type ℓ} (read : Observation → K → Option Text) (name_of : K → Text)
    (reads : IsReading read) (os os' : List Observation) (apart : AreApart os)
    (apart' : AreApart os') (covers : IsCovered os os') (covered : IsCovered os' os) where
  by_value-same :
      (key : K) (side : List Text) (v : Text)
      → find_or [] v (by_value read key (find_or [] side (group_sides os [])))
        ≡ find_or [] v (by_value read key (find_or [] side (group_sides os' [])))
  by_value-same key side v =
      find_or-side read name_of key v side os
      ∙ side_carriers-same read reads name_of key v side os os' apart apart' covers covered
      ∙ sym (find_or-side read name_of key v side os')

  join_one-same :
      (j : JoinOn K) (found : Found)
      → join_one read name_of (group_sides os []) j found
        ≡ join_one read name_of (group_sides os' []) j found
  unfolding join_one
  join_one-same j found =
      rw
        (values_of-same _ _ _ _ (by_value-AreCarried read j.key _)
          (by_value-AreCarried read j.key _) (by_value-AreCarried read j.key _)
          (by_value-AreCarried read j.key _) (by_value-same j.key j.up_side)
          (by_value-same j.key j.down_side))
        (join_values-same _ _ _ _ _ _ _ found (by_value-same j.key j.up_side)
          (by_value-same j.key j.down_side))

  join_all-same :
      (joins : List (JoinOn K)) (found : Found)
      → join_all read name_of (group_sides os []) joins found
        ≡ join_all read name_of (group_sides os' []) joins found
  unfolding join_all
  join_all-same [] found = refl
  join_all-same (j ∷ joins) found = rw (join_one-same j found) (join_all-same joins _)

  join-same :
      (joins : List (JoinOn K)) {dropped dropped' : ℕ}
      → dropped ≡ dropped'
      → join read name_of joins (group_sides os []) dropped
        ≡ join read name_of joins (group_sides os' []) dropped'
  unfolding join
  join-same joins e = rw (join_all-same joins found_nothing, e) refl

module _ (topology : Topology) {os os' : List Observation} {s s' : Dedup}
    (h : deduplicated topology os ≡ ok s) (h' : deduplicated topology os' ≡ ok s') where
  -- What is left of one order has a delivery in what is left of the other.
  deduplicated-IsCovered : Permᴰ os os' → All IsMapping os → IsCovered s.distinct s'.distinct
  deduplicated-IsCovered p maps o m =
      let (apart, given, all, counted) = deduplicated-IsStep topology os h in
      let (apart', given', all', counted') = deduplicated-IsStep topology os' h' in
      let n : In o os = All-In (λ (x : Observation). In x os) m given in
      let r = All-In (λ (x : Observation). IsRepresented x s'.distinct) (In-permᴰ p n) all' in
      elim r [
        | represented f k e ↦
            let n' : In f os' = All-In (λ (x : Observation). In x os') k given' in
            (f, k, e, All-In IsMapping n maps, All-In IsMapping (In-permᴰ (Permᴰ.symm p) n') maps)
      ]

-- The observations that are left have the same identities, so that they are as many.
covered-length :
    (os os' : List Observation)
    → AreApart os
    → AreApart os'
    → IsCovered os os'
    → IsCovered os' os
    → length os ≡ length os'
covered-length os os' apart apart' covers covered =
    let e =
      sort_by-eq_of_same Identities-set (map identity os) (map identity os')
        (AreApart-IsSingle os apart) (AreApart-IsSingle os' apart') (In-identities covers)
        (In-identities covered) in
    let n = ap length e in
    omega (
      arith,
      length-sort_by ◌<=◌ (map identity os),
      length-sort_by ◌<=◌ (map identity os'),
      length-map identity os,
      length-map identity os',
    )

module _ {ℓ} {K : Type ℓ} (read : Observation → K → Option Text) (name_of : K → Text)
    (reads : IsReading read) (joins : List (JoinOn K)) (topology : Topology) where
  -- The join of what is left of the duplicates.
  abbrev join_left : Dedup → ExactResult
  join_left s = join read name_of joins (group_sides s.distinct []) s.dropped

  join_left-same :
      {os os' : List Observation} {s s' : Dedup}
      → deduplicated topology os ≡ ok s
      → deduplicated topology os' ≡ ok s'
      → Permᴰ os os'
      → All IsMapping os
      → join_left s ≡ join_left s'
  join_left-same {os} {os'} {s} {s'} h h' p maps =
      let (apart, given, all, counted) = deduplicated-IsStep topology os h in
      let (apart', given', all', counted') = deduplicated-IsStep topology os' h' in
      let maps' =
        All-of_In IsMapping os' (λ o m. All-In IsMapping (In-permᴰ (Permᴰ.symm p) m) maps) in
      let covers = deduplicated-IsCovered topology h h' p maps in
      let covered = deduplicated-IsCovered topology h' h (Permᴰ.symm p) maps' in
      let n = covered-length s.distinct s'.distinct apart apart' covers covered in
      let k = length-eq_of_permᴰ p in
      join-same read name_of reads s.distinct s'.distinct apart apart' covers covered joins
        (omega arith)

  links-same :
      (os os' : List Observation)
      → Permᴰ os os'
      → All IsMapping os
      → (deduplicated topology os >>= (λ s. ok (join_left s)))
        ≡ (deduplicated topology os' >>= (λ s. ok (join_left s)))
  links-same os os' p maps = elim (deduplicated-raised topology os) [
    | inl (s, e) ↦
        let (s', e') = deduplicated-eq-ok topology (Permᴰ.symm p) e in
        rw (e, e') (ap ok (join_left-same e e' p maps))
    | inr e ↦ elim (deduplicated-raised topology os') [
      | inl (s', e') ↦ let (s, f) = deduplicated-eq-ok topology p e' in absurd (cc (sym e ∙ f))
      | inr e' ↦ rw (e, e') refl
    ]
  ]

Result-set : IsSet (Result ExactResult)
Result-set = hlevel

-- `exact_links` of the same observations in any order is the same result, or the same exception,
-- provided that no observation records an identifier twice.
pub exact_links-perm :
    (topology : Topology) (os os' : List Observation)
    → Perm os os'
    → All IsMapping os
    → exact_links topology os ≡ exact_links topology os'
unfolding exact_links
exact_links-perm topology os os' p maps = ∥∥₁_elim p (Result-set _ _) (λ q.
    links-same value_of own_name value_of-IsReading (authored_joins topology) topology os os' q
      maps)

-- `observed_links` of the same observations in any order is the same result, or the same exception,
-- provided that no observation records an identifier twice.
pub observed_links-perm :
    (topology : Topology) (os os' : List Observation)
    → Perm os os'
    → All IsMapping os
    → observed_links topology os ≡ observed_links topology os'
unfolding observed_links
observed_links-perm topology os os' p maps = ∥∥₁_elim p (Result-set _ _) (λ q.
    links-same composite_of observed_key composite_of-IsReading (observed_joins topology.hops)
      topology os os' q maps)
