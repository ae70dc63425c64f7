-- ===== src/Correlation/Exact/Consistent.antt =====
-- When the removal of duplicates raises: exactly if an observation is not valid, or two of them have
-- one identity and different contents.
use mathlib.Core.List.{Permᴰ}
use reconcileflow.Base.{
  ◌≡◌, refl, sym, ap, ◌∙◌, ◌⊎◌, inl, inr, true, some, List, [], ◌∷◌, map, In, here, there, In-cons,
  All, All-In, All-append, All-imp, All-of_In, Bool-cases, Option-cases,
}
use reconcileflow.Base.Order.{Text, nat_ord, list_ord, ◌==◌, eq_of_==, ==_of_eq}
use reconcileflow.Base.Dict.{find}
use reconcileflow.Base.Raised.{ok, raised, value_error, >>=-eq-ok}
use reconcileflow.Correlation.Topology.{Topology}
use reconcileflow.Correlation.Exact.{
  Identity, identity_ord, Observation, identity, is_valid, content, Dedup, take_new, drop,
  dedup_one, dedup_all, deduplicated,
}
use reconcileflow.Correlation.Exact.Duplicates.{
  entry_of, IsRepresented, represented, AreApart, IsSound, dedup_one-IsStep, deduplicated-IsStep,
}
use reconcileflow.Base.Sameness.{In-permᴰ}

-- Observations of one identity have one content.
abbrev pub AreAgreed : List Observation → Type 0
AreAgreed all =
    (o o' : Observation) → In o all → In o' all → identity o ≡ identity o' → content o ≡ content o'

In-singleton :
    {o obs : Observation} {all : List Observation} → In o (obs ∷ []) → In obs all → In o all
In-singleton here n = n
In-singleton (there m) n = elim m [ ]

-- What `seen` finds is an entry of an observation.
find-entry :
    (k : Identity) (distinct : List Observation) {c : List (List Text)}
    → find k (map entry_of distinct) ≡ some c
    → (o : Observation) × In o distinct × (identity o ≡ k) × (content o ≡ c)
unfolding find
find-entry k [] h = absurd (cc h)
find-entry k (o ∷ distinct) {c} h = elim (Bool-cases (identity o == k)) [
  | inl e ↦
      let h' : some (content o) ≡ some c = rw e at h in (o, here, eq_of_== (identity o) k e, cc)
  | inr e ↦ let (p, m, i, q) = find-entry k distinct (rw e at h) in (p, there m, i, q)
]

AreApart-eq :
    (os : List Observation) (a b : Observation)
    → AreApart os
    → In a os
    → In b os
    → identity a ≡ identity b
    → a ≡ b
AreApart-eq [] a b apart m n e = elim m [ ]
AreApart-eq (o ∷ os) a b apart m n e = elim (In-cons m) [
  | inl p ↦ elim (In-cons n) [
    | inl q ↦ p ∙ sym q
    | inr n' ↦ absurd (
        All-In (λ (x : Observation). ¬ (identity o ≡ identity x)) n' apart.0
          (sym (ap identity p) ∙ e))
  ]
  | inr m' ↦ elim (In-cons n) [
    | inl q ↦ absurd (
        All-In (λ (x : Observation). ¬ (identity o ≡ identity x)) m' apart.0
          (sym (ap identity q) ∙ sym e))
    | inr n' ↦ AreApart-eq os a b apart.1 m' n' e
  ]
]

module _ (points : List Text) where
  dedup_one-valid :
      (obs : Observation) (s : Dedup) {s' : Dedup}
      → dedup_one points obs s ≡ ok s'
      → is_valid points obs ≡ true
  unfolding dedup_one
  dedup_one-valid obs s h = elim (Bool-cases (is_valid points obs)) [
    | inl v ↦ v
    | inr v ↦ let h' = (rw v at h) in absurd (cc h')
  ]

  dedup_all-valid :
      (observations : List Observation) (s : Dedup) {s' : Dedup}
      → dedup_all points observations s ≡ ok s'
      → All (λ (o : Observation). is_valid points o ≡ true) observations
  unfolding dedup_all
  dedup_all-valid [] s h = tt
  dedup_all-valid (obs ∷ rest) s h =
      let (t, e, h') = >>=-eq-ok (dedup_one points obs s) _ h in
      (dedup_one-valid obs s e, dedup_all-valid rest t h')

  dedup_one-eq-ok :
      (obs : Observation) (s : Dedup)
      → IsSound s
      → is_valid points obs ≡ true
      → ((o : Observation) → In o s.distinct → identity o ≡ identity obs → content o ≡ content obs)
      → (s' : Dedup) × (dedup_one points obs s ≡ ok s')
  unfolding dedup_one
  dedup_one-eq-ok obs s sound v agreed = elim (Option-cases (find (identity obs) s.seen)) [
    | inl n ↦ (take_new obs s, rw (v, n) refl)
    | inr (before, q) ↦
        let (o, m, i, c) =
          find-entry (identity obs) s.distinct (sym (ap (find (identity obs)) sound.seen) ∙ q) in
        let b = ==_of_eq before (content obs) (sym c ∙ agreed o m i) in (drop s, rw (v, q, b) refl)
  ]

  dedup_all-eq-ok :
      (all observations : List Observation) (s : Dedup)
      → AreAgreed all
      → IsSound s
      → All (λ (o : Observation). In o all) s.distinct
      → All (λ (o : Observation). In o all) observations
      → All (λ (o : Observation). is_valid points o ≡ true) observations
      → (s' : Dedup) × (dedup_all points observations s ≡ ok s')
  unfolding dedup_all
  dedup_all-eq-ok all [] s agreed sound old new valid = (s, refl)
  dedup_all-eq-ok all (obs ∷ rest) s agreed sound old new valid =
      let (t, e) =
        dedup_one-eq-ok obs s sound valid.0
          (λ o m i. agreed o obs (All-In (λ (x : Observation). In x all) m old) new.0 i) in
      let step = dedup_one-IsStep points obs s sound e in
      let (s', f) =
        dedup_all-eq-ok all rest t agreed step.sound
          (rw step.distinct (
            All-append _ s.distinct step.added old
              (All-imp _ _ (λ o m. In-singleton m new.0) step.given)))
          new.1 valid.1 in
      (s', rw e f)

  dedup_one-raised :
      (obs : Observation) (s : Dedup)
      → ((s' : Dedup) × (dedup_one points obs s ≡ ok s'))
        ⊎ (dedup_one points obs s ≡ raised value_error)
  unfolding dedup_one
  dedup_one-raised obs s = elim (Bool-cases (is_valid points obs)) [
    | inr v ↦ inr (rw v refl)
    | inl v ↦ elim (Option-cases (find (identity obs) s.seen)) [
      | inl n ↦ inl (take_new obs s, rw (v, n) refl)
      | inr (before, q) ↦ elim (Bool-cases (before == content obs)) [
        | inl b ↦ inl (drop s, rw (v, q, b) refl)
        | inr b ↦ inr (rw (v, q, b) refl)
      ]
    ]
  ]

  dedup_all-raised :
      (observations : List Observation) (s : Dedup)
      → ((s' : Dedup) × (dedup_all points observations s ≡ ok s'))
        ⊎ (dedup_all points observations s ≡ raised value_error)
  unfolding dedup_all
  dedup_all-raised [] s = inl (s, refl)
  dedup_all-raised (obs ∷ rest) s = elim (dedup_one-raised obs s) [
    | inl (t, e) ↦ rw e (dedup_all-raised rest t)
    | inr e ↦ inr (rw e refl)
  ]

-- Without an exception, observations of one identity had one content.
deduplicated-AreAgreed :
    (topology : Topology) (observations : List Observation) {s : Dedup}
    → deduplicated topology observations ≡ ok s
    → AreAgreed observations
deduplicated-AreAgreed topology observations {s} h o o' m m' e =
    let (apart, given, all, counted) = deduplicated-IsStep topology observations h in
    let r = All-In (λ (x : Observation). IsRepresented x s.distinct) m all in
    let r' = All-In (λ (x : Observation). IsRepresented x s.distinct) m' all in
    elim r [
      | represented f n (i, c) ↦ elim r' [
        | represented f' n' (i', c') ↦
            sym c ∙ ap content (AreApart-eq s.distinct f f' apart n n' (i ∙ e ∙ sym i')) ∙ c'
      ]
    ]

pub deduplicated-raised :
    (topology : Topology) (observations : List Observation)
    → ((s : Dedup) × (deduplicated topology observations ≡ ok s))
      ⊎ (deduplicated topology observations ≡ raised value_error)
unfolding deduplicated
deduplicated-raised topology observations = dedup_all-raised _ observations _

-- Another order of the observations does not raise if one does not.
pub deduplicated-eq-ok :
    (topology : Topology) {observations observations' : List Observation} {s : Dedup}
    → Permᴰ observations' observations
    → deduplicated topology observations ≡ ok s
    → (s' : Dedup) × (deduplicated topology observations' ≡ ok s')
unfolding deduplicated
deduplicated-eq-ok topology {observations} {observations'} p h =
    let valid = dedup_all-valid _ observations _ h in
    dedup_all-eq-ok _ observations observations' _ (deduplicated-AreAgreed topology observations h)
      (record { seen = refl; apart = tt }) tt (All-of_In _ observations' (λ o m. In-permᴰ p m))
      (All-of_In _ observations'
        (λ o m. All-In (λ (x : Observation). is_valid _ x ≡ true) (In-permᴰ p m) valid))
