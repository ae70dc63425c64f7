-- ===== src/Correlation/Exact/Duplicates.antt =====
-- What the removal of duplicates keeps.
use mathlib.Core.List.{map-append, append-nil, append_assoc}
use reconcileflow.Base.{
  ◌+◌, ◌≡◌, refl, sym, ap, ◌∙◌, inl, inr, none, some, List, [], ◌∷◌, ◌++◌, map, length,
  length-append, arith, In, here, there, In-left, All-append, All-imp, In-right, All, Bool-cases,
  Option-cases,
}
use reconcileflow.Base.Order.{Ord, Text, nat_ord, list_ord, ◌==◌, eq_of_==, ==_refl}
use reconcileflow.Base.Dict.{Dict, find, alter}
use reconcileflow.Base.Raised.{ok, ok-injective, >>=-eq-ok}
use reconcileflow.Correlation.Topology.{Topology}
use reconcileflow.Correlation.Exact.{
  Identity, identity_ord, Observation, identity, is_valid, content, point_names, Dedup, dedup_one,
  dedup_all, deduplicated,
}

alter-new {ℓ κ} :
    {K : Type ℓ} {V : Type κ} ⦃o : Ord K⦄ (default : V) (k : K) (f : V → V) (d : Dict K V)
    → find k d ≡ none
    → alter default k f d ≡ d ++ (k, f default) ∷ []
unfolding find alter
alter-new default k f [] h = refl
alter-new default k f ((j, v) ∷ d) h = elim (Bool-cases (j == k)) [
  | inl e ↦ let h' = (rw e at h) in cc
  | inr e ↦ rw (e, alter-new default k f d (rw e at h)) refl
]

-- What `seen` holds of an observation.
abbrev pub entry_of : Observation → Identity × List (List Text)
entry_of obs = (identity obs, content obs)

-- Another delivery of the observation: same identity, same content.
abbrev pub IsRedelivery : Observation → Observation → Type 0
IsRedelivery obs first = (identity first ≡ identity obs) × (content first ≡ content obs)

-- One of the observations is a delivery of it.
pub data IsRepresented (obs : Observation) (distinct : List Observation) : Type 0 where
  represented :
      (first : Observation)
      → In first distinct
      → IsRedelivery obs first
      → IsRepresented obs distinct

IsRepresented-there :
    {obs first : Observation} {distinct : List Observation}
    → IsRepresented obs distinct
    → IsRepresented obs (first ∷ distinct)
IsRepresented-there (represented o m r) = represented o (there m) r

IsRepresented-left :
    {obs : Observation} {distinct : List Observation} (more : List Observation)
    → IsRepresented obs distinct
    → IsRepresented obs (distinct ++ more)
IsRepresented-left more (represented o m r) = represented o (In-left more m) r

find-IsRepresented :
    (obs : Observation) (distinct : List Observation)
    → find (identity obs) (map entry_of distinct) ≡ some (content obs)
    → IsRepresented obs distinct
unfolding find
find-IsRepresented obs [] h = absurd (cc h)
find-IsRepresented obs (o ∷ distinct) h = elim (Bool-cases (identity o == identity obs)) [
  | inl e ↦
      let h' : some (content o) ≡ some (content obs) = rw e at h in
      represented o here (eq_of_== (identity o) (identity obs) e, cc)
  | inr e ↦ IsRepresented-there (find-IsRepresented obs distinct (rw e at h))
]

-- No two of the observations have one identity.
abbrev pub AreApart : List Observation → Type 0
AreApart [] = Unit
AreApart (obs ∷ rest) =
    All (λ (o : Observation). ¬ (identity obs ≡ identity o)) rest × AreApart rest

AreApart-snoc :
    (os : List Observation) (obs : Observation)
    → find (identity obs) (map entry_of os) ≡ none
    → AreApart os
    → AreApart (os ++ obs ∷ [])
unfolding find
AreApart-snoc [] obs h apart = (tt, tt)
AreApart-snoc (o ∷ os) obs h apart = elim (Bool-cases (identity o == identity obs)) [
  | inl e ↦ let h' = (rw e at h) in absurd (cc h')
  | inr e ↦ (
    All-append _ os (obs ∷ []) apart.0
        ((λ q. let z = (rw (q, ==_refl (identity obs)) at e) in absurd (cc z)), tt),
    AreApart-snoc os obs (rw e at h) apart.1,
  )
]

-- What the loop keeps: `seen` holds the observations of `distinct`, which differ in identity.
pub record IsSound (s : Dedup) : Type 0 where
  pub seen : s.seen ≡ map entry_of s.distinct
  pub apart : AreApart s.distinct

-- What a run of the loop does: every observation is represented or counted.
pub record IsStep (observations : List Observation) (s s' : Dedup) : Type 0 where
  pub sound : IsSound s'
  pub added : List Observation
  pub given : All (λ (o : Observation). In o observations) added
  pub distinct : s'.distinct ≡ s.distinct ++ added
  pub counted : length added + s'.dropped ≡ s.dropped + length observations
  pub all : All (λ (o : Observation). IsRepresented o s'.distinct) observations

module _ (points : List Text) where
  pub dedup_one-IsStep :
      (obs : Observation) (s : Dedup) {s' : Dedup}
      → IsSound s
      → dedup_one points obs s ≡ ok s'
      → IsStep (obs ∷ []) s s'
  unfolding dedup_one
  dedup_one-IsStep obs s sound h = elim (Bool-cases (is_valid points obs)) [
    | inr v ↦ let h' = (rw v at h) in absurd (cc h')
    | inl v ↦ elim (Option-cases (find (identity obs) s.seen)) [
      | inl n ↦ rw (← ok-injective (rw (v, n) at h)) (record {
        sound = record {
          seen =
              alter-new (content obs) (identity obs) (λ _. content obs) s.seen n
              ∙ ap (λ d. d ++ entry_of obs ∷ []) sound.seen
              ∙ sym (map-append entry_of s.distinct (obs ∷ []));
          apart = AreApart-snoc s.distinct obs (rw (sound.seen) at n) sound.apart;
        };
        added = obs ∷ [];
        given = (here, tt);
        distinct = refl;
        counted = omega arith;
        all = (represented obs (In-right s.distinct here) (refl, refl), tt);
      })
      | inr (before, q) ↦ elim (Bool-cases (before == content obs)) [
        | inr b ↦ let h' = (rw (v, q, b) at h) in absurd (cc h')
        | inl b ↦ rw (← ok-injective (rw (v, q, b) at h)) (record {
          sound = record { seen = sound.seen; apart = sound.apart };
          added = [];
          given = tt;
          distinct = sym (append-nil s.distinct);
          counted = omega arith;
          all = (
            find-IsRepresented obs s.distinct (
                sym (ap (find (identity obs)) sound.seen)
                ∙ q
                ∙ ap some (eq_of_== before (content obs) b)),
            tt,
          );
        })
      ]
    ]
  ]

  dedup_all-IsStep :
      (observations : List Observation) (s : Dedup) {s' : Dedup}
      → IsSound s
      → dedup_all points observations s ≡ ok s'
      → IsStep observations s s'
  unfolding dedup_all
  dedup_all-IsStep [] s sound h = rw (← ok-injective h) (record {
    sound = sound;
    added = [];
    given = tt;
    distinct = sym (append-nil s.distinct);
    counted = omega arith;
    all = tt;
  })
  dedup_all-IsStep (obs ∷ rest) s {s'} sound h =
      let (t, e, h') = >>=-eq-ok (dedup_one points obs s) _ h in
      let one = dedup_one-IsStep obs s sound e in
      let more = dedup_all-IsStep rest t one.sound h' in
      record {
        sound = more.sound;
        added = one.added ++ more.added;
        given =
            All-append _ one.added more.added (All-imp _ _ (λ o m. In-left rest m) one.given)
              (All-imp _ _ (λ o m. there m) more.given);
        distinct =
            more.distinct
            ∙ ap (λ os. os ++ more.added) one.distinct
            ∙ append_assoc s.distinct one.added more.added;
        counted =
            let a = one.counted in
            let b = more.counted in omega (arith, length-append one.added more.added);
        all = (rw more.distinct (IsRepresented-left more.added one.all.0), more.all);
      }

-- When the duplicates are removed without an exception, what is left are observations of different
-- identities that were given, every observation given is a delivery of one of them, and the number
-- of those left and of the duplicates dropped is the number given.
pub deduplicated-IsStep :
    (topology : Topology) (observations : List Observation) {s : Dedup}
    → deduplicated topology observations ≡ ok s
    → AreApart s.distinct
      × All (λ (o : Observation). In o observations) s.distinct
      × All (λ (o : Observation). IsRepresented o s.distinct) observations
      × (length s.distinct + s.dropped ≡ length observations)
unfolding deduplicated
deduplicated-IsStep topology observations {s} h =
    let step =
      dedup_all-IsStep (point_names topology.points) observations _
        (record { seen = refl; apart = tt }) h in
    let n = ap length step.distinct in
    let m = step.counted in (step.sound.apart, rw step.distinct step.given, step.all, omega arith)
